-- ===== src/Queue/Ids.antt =====
-- No statement loses or doubles a row: what moves between the tables keeps its id.
use pacific_coast.Base.{
  ℕ, String, Bool, false, some, List, [], ◌∷◌, ◌++◌, ◌==◌, nat_eq, string_eq, ==_refl, not, keep,
  map, contains, count-append, count-keep, count_split, count-map, arith, ◌≡◌, refl, sym, ap, ◌∙◌,
  ◌≤◌, ◌<◌,
}
use pacific_coast.Queue.Table.{JobRow, DeadRow, Tables, Planner, jobs_with, dead_with, rows_with}
use pacific_coast.Queue.Settle.{
  back_to_pending, dead_row, key_taken, move_where, move_to_dlq, report_failure, exhausted_ids,
  sweep_exhausted_to_dlq, retried_row, retried, retry_dead_job,
}
use pacific_coast.Queue.Rows.{count_and, jobs_with-update_where}

abbrev pub HasUniqueIds : Tables → Type 0
HasUniqueIds t = (i : ℕ) → rows_with i t ≤ 1

dead_with-moved :
    (now : ℕ) (msg : String) (rows : List JobRow) (i : ℕ)
    → dead_with i (map (dead_row now msg) rows) ≡ jobs_with i rows
unfolding dead_row
dead_with-moved now msg rows i = count-map (dead_row now msg) (λ r. r.id == i) rows

abbrev pub moved : (JobRow → Bool) → ℕ → String → Tables → Tables
moved p now msg t = record {
  jobs = keep (λ r. not (p r)) t.jobs;
  dead = t.dead ++ map (dead_row now msg) (keep p t.jobs);
}

rows_with-moved :
    (p : JobRow → Bool) (now : ℕ) (msg : String) (t : Tables) (i : ℕ)
    → rows_with i (moved p now msg t) ≡ rows_with i t
rows_with-moved p now msg t i = omega (
  arith,
  count-append (λ r. r.id == i) t.dead (map (dead_row now msg) (keep p t.jobs)),
  dead_with-moved now msg (keep p t.jobs) i,
  count_split p (λ r. r.id == i) t.jobs,
)

pub rows_with-move_where :
    (p : JobRow → Bool) (now : ℕ) (msg : String) (t u : Tables) (i : ℕ)
    → move_where p now msg t ≡ some u
    → rows_with i u ≡ rows_with i t
unfolding move_where
rows_with-move_where p now msg t u i h =
    let e : moved p now msg t ≡ u = ground arith in
    ap (rows_with i) (sym e) ∙ rows_with-moved p now msg t i

key_taken-new :
    (dead : List DeadRow) (rows : List JobRow)
    → ((i : ℕ) → 0 < jobs_with i rows → dead_with i dead ≡ 0)
    → key_taken dead rows ≡ false
key_taken-new dead [] h = refl
key_taken-new dead (r ∷ rows) h = ground (
  arith,
  h r.id (ground (arith, ==_refl r.id)),
  key_taken-new dead rows (λ i k. h i (ground (arith))),
)

pub move_where-moved :
    (p : JobRow → Bool) (now : ℕ) (msg : String) (t : Tables)
    → HasUniqueIds t
    → move_where p now msg t ≡ some (moved p now msg t)
unfolding move_where
move_where-moved p now msg t u =
    let k : key_taken t.dead (keep p t.jobs) ≡ false = key_taken-new t.dead (keep p t.jobs) (λ i c.
      omega (
        arith,
        u i,
        c,
        count-keep p (λ r. r.id == i) t.jobs,
        count_and p (λ r. r.id == i) t.jobs,
      )) in
    rw k refl

pub rows_with-report_failure :
    (now id attempts max_retries : ℕ) (msg : String) (t u : Tables) (i : ℕ)
    → report_failure now id attempts max_retries msg t ≡ some u
    → rows_with i u ≡ rows_with i t
unfolding report_failure move_to_dlq
rows_with-report_failure now id attempts max_retries msg t u i h = ground (
  arith,
  rows_with-move_where (λ r. r.id == id) now msg t u i,
  jobs_with-update_where (λ r. r.id == id) (back_to_pending now msg) t.jobs i (λ r. refl),
)

pub rows_with-sweep_exhausted_to_dlq :
    (db : Planner) (locked : ℕ → Bool) (now : ℕ) (queue : String) (limit : ℕ) (t u : Tables)
    (n i : ℕ)
    → sweep_exhausted_to_dlq db locked now queue limit t ≡ some (u, n)
    → rows_with i u ≡ rows_with i t
unfolding sweep_exhausted_to_dlq
rows_with-sweep_exhausted_to_dlq db locked now queue limit t u n i h =
    rows_with-move_where (λ r. contains (exhausted_ids db locked now queue limit t.jobs) r.id) now
      "retries exhausted (swept)" t u i (ground arith)

jobs_with-retried :
    (now : ℕ) (rows : List DeadRow) (i : ℕ)
    → jobs_with i (map (retried_row now) rows) ≡ dead_with i rows
unfolding retried_row
jobs_with-retried now rows i = count-map (retried_row now) (λ r. r.id == i) rows

abbrev pub revived : ℕ → ℕ → Tables → Tables
revived now id t = record {
  jobs = t.jobs ++ map (retried_row now) (keep (λ r. r.id == id) t.dead);
  dead = keep (λ r. not (r.id == id)) t.dead;
}

rows_with-revived :
    (now id : ℕ) (t : Tables) (i : ℕ) → rows_with i (revived now id t) ≡ rows_with i t
rows_with-revived now id t i = omega (
  arith,
  count-append (λ r. r.id == i) t.jobs (map (retried_row now) (keep (λ r. r.id == id) t.dead)),
  jobs_with-retried now (keep (λ r. r.id == id) t.dead) i,
  count_split (λ r. r.id == id) (λ r. r.id == i) t.dead,
)

pub rows_with-retry_dead_job :
    (allow : Bool) (now id : ℕ) (t u : Tables) (i : ℕ)
    → retry_dead_job allow now id t ≡ retried u
    → rows_with i u ≡ rows_with i t
unfolding retry_dead_job
rows_with-retry_dead_job allow now id t u i h =
    let e : revived now id t ≡ u = ground arith in
    ap (rows_with i) (sym e) ∙ rows_with-revived now id t i
