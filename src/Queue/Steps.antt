-- ===== src/Queue/Steps.antt =====
-- Every statement of the queue as a step between databases, and what all of them keep.
use mathlib.Core.Path.{subst}
use mathlib.Core.List.{Memᴰ}
use pacific_coast.Base.{
  ℕ, String, Bool, true, false, Option, none, some, List, [], ◌∷◌, ◌++◌, ◌==◌, nat_eq, string_eq,
  ◌&&◌, not, leb, max, map, ◌+◌, cat, contains, count-append, All, All-append, arith, Bool-cases,
  inl, inr, ◌≡◌, refl, ◌≤◌,
}
use pacific_coast.Queue.Table.{is_running, JobRow, DeadRow, Tables, Planner, rows_with}
use pacific_coast.Queue.Claim.{
  update_where, bound_row, bind_claim, claimable, claim_row, ready, claim_rows, is_holder,
  extended_row, extend_lease,
}
use pacific_coast.Queue.Settle.{
  mark_complete, completed_row, back_to_pending, move_where, move_to_dlq, report_failure,
  exhausted_ids, sweep_exhausted_to_dlq, release_row, submitted_row, retried_row, retried,
  retry_dead_job,
}
use pacific_coast.Queue.Rows.{
  jobs_with-update_where, All-update_where, All-kept, unique_row, found_ids,
}
use pacific_coast.Queue.Ids.{
  HasUniqueIds, rows_with-move_where, rows_with-retry_dead_job, moved, revived,
}

abbrev is_some {ℓ} : {A : Type ℓ} → Option A → Bool
is_some none = false
is_some (some a) = true

-- No more attempts than the budget, and a holder and a deadline while the row is running. A row that is
-- not running may have both: the dispatcher binds a claim without a test of the row's status.
abbrev pub IsSound : JobRow → Type 0
IsSound r =
    (r.attempts ≤ max r.max_retries 1)
    × (is_running r.status ≡ true → is_some r.claimed_by ≡ true)
    × (is_running r.status ≡ true → is_some r.claimed_until ≡ true)

abbrev pub IsConsistent : Tables → Type 0
IsConsistent t = HasUniqueIds t × All IsSound t.jobs

module _ (db : Planner) where
  -- What a client, a worker, the dispatcher, the sweeper or an operator may do next, at any time and
  -- with any arguments.
  pub data Step (t u : Tables) : Type 0 where
    submitting :
        (now id : ℕ) (name queue args : String) (max_retries : ℕ) (timeout scheduled : Option ℕ)
        (by : String) (trace : Option String)
        → rows_with id t ≡ 0
        → u ≡ (record t {
          jobs =
              t.jobs
              ++ submitted_row now id name queue args max_retries timeout scheduled by trace ∷ [];
        })
        → Step t u
    claiming :
        (locked : ℕ → Bool) (now : ℕ) (queue : String) (names : List String) (limit : ℕ)
        (by : String) (until : ℕ) (kind session : String)
        → u ≡ (claim_rows db locked now queue names limit by until kind session t).0
        → Step t u
    extending :
        (now : ℕ) (ids : List ℕ) (by : String) (extension : ℕ)
        → u ≡ extend_lease now ids by extension t
        → Step t u
    binding : (id : ℕ) (by session : String) → u ≡ bind_claim id by session t → Step t u
    completing : (now id : ℕ) → u ≡ mark_complete now id t → Step t u
    failing :
        (now id attempts max_retries : ℕ) (msg : String)
        → report_failure now id attempts max_retries msg t ≡ some u
        → Step t u
    burying : (now id : ℕ) (msg : String) → move_to_dlq now id msg t ≡ some u → Step t u
    sweeping :
        (locked : ℕ → Bool) (now : ℕ) (queue : String) (limit n : ℕ)
        → sweep_exhausted_to_dlq db locked now queue limit t ≡ some (u, n)
        → Step t u
    releasing : (now id : ℕ) (by reason : String) → u ≡ release_row now id by reason t → Step t u
    retrying : (allow : Bool) (now id : ℕ) → retry_dead_job allow now id t ≡ retried u → Step t u

  pub data Reach (s : Tables) : Tables → Type 0 where
    here : Reach s s
    next : {t u : Tables} → Reach s t → Step t u → Reach s u

  -- the claim adds an attempt only to rows with budget left
  claim_row-IsSound :
      (locked : ℕ → Bool) (now : ℕ) (queue : String) (names : List String) (limit : ℕ) (by : String)
      (until : ℕ) (kind session : String) (t : Tables)
      → HasUniqueIds t
      → (r : JobRow) → Memᴰ r t.jobs
      → contains (ready db locked now queue names limit t.jobs) r.id ≡ true
      → IsSound r
      → IsSound (claim_row now by until kind session r)
  unfolding ready claim_row claimable
  claim_row-IsSound locked now queue names limit by until kind session t u r m c s =
      let p : JobRow → Bool = λ r. claimable now queue names r && not (locked r.id) in
      let h : p r ≡ true =
        unique_row p t.jobs r m (omega (arith, u r.id))
          (found_ids db (λ r. r.scheduled_for) p limit t.jobs r.id c) in
      ground (arith, h)

  jobs_with-changed :
      (p : JobRow → Bool) (f : JobRow → JobRow) (t : Tables)
      → ((r : JobRow) → (f r).id ≡ r.id)
      → HasUniqueIds t
      → HasUniqueIds (record t { jobs = update_where p f t.jobs })
  jobs_with-changed p f t h u i = omega (arith, u i, jobs_with-update_where p f t.jobs i h)

  moved-IsConsistent :
      (p : JobRow → Bool) (now : ℕ) (msg : String) (t u : Tables)
      → move_where p now msg t ≡ some u
      → IsConsistent t
      → IsConsistent u
  unfolding move_where
  moved-IsConsistent p now msg t u h c =
      let e : moved p now msg t ≡ u = ground arith in
      (
        λ i. omega (arith, c.0 i, rows_with-move_where p now msg t u i h),
        subst (λ u. All IsSound u.jobs) e (All-kept IsSound (λ r. not (p r)) t.jobs c.1),
      )

  All-revived : (now : ℕ) (rows : List DeadRow) → All IsSound (map (retried_row now) rows)
  unfolding retried_row
  All-revived now [] = tt
  All-revived now (r ∷ rows) = (ground arith, All-revived now rows)

  claim-IsConsistent :
      (locked : ℕ → Bool) (now : ℕ) (queue : String) (names : List String) (limit : ℕ) (by : String)
      (until : ℕ) (kind session : String) (t : Tables)
      → IsConsistent t
      → IsConsistent (claim_rows db locked now queue names limit by until kind session t).0
  unfolding claim_rows claim_row
  claim-IsConsistent locked now queue names limit by until kind session t c = (
    jobs_with-changed _ (claim_row now by until kind session) t (λ r. refl) c.0,
    All-update_where IsSound _ (claim_row now by until kind session) t.jobs
        (claim_row-IsSound locked now queue names limit by until kind session t c.0) c.1,
  )

  extend-IsConsistent :
      (now : ℕ) (ids : List ℕ) (by : String) (extension : ℕ) (t : Tables)
      → IsConsistent t
      → IsConsistent (extend_lease now ids by extension t)
  unfolding extend_lease
  extend-IsConsistent now ids by extension t c = (
    jobs_with-changed (λ r. contains ids r.id && is_holder by r.claimed_by)
        (extended_row (now + extension)) t (λ r. refl) c.0,
    All-update_where IsSound (λ r. contains ids r.id && is_holder by r.claimed_by)
        (extended_row (now + extension)) t.jobs (λ r m h s. ground arith) c.1,
  )

  bind-IsConsistent :
      (id : ℕ) (by session : String) (t : Tables)
      → IsConsistent t
      → IsConsistent (bind_claim id by session t)
  unfolding bind_claim
  bind-IsConsistent id by session t c = (
    jobs_with-changed (λ r. r.id == id) (bound_row by session) t (λ r. refl) c.0,
    All-update_where IsSound (λ r. r.id == id) (bound_row by session) t.jobs
        (λ r m h s. ground arith) c.1,
  )

  complete-IsConsistent :
      (now id : ℕ) (t : Tables) → IsConsistent t → IsConsistent (mark_complete now id t)
  unfolding mark_complete
  complete-IsConsistent now id t c = (
    jobs_with-changed (λ r. r.id == id) (completed_row now) t (λ r. refl) c.0,
    All-update_where IsSound (λ r. r.id == id) (completed_row now) t.jobs (λ r m h s. ground arith)
        c.1,
  )

  reset-IsConsistent :
      (p : JobRow → Bool) (now : ℕ) (msg : String) (t : Tables)
      → IsConsistent t
      → IsConsistent (record t { jobs = update_where p (back_to_pending now msg) t.jobs })
  reset-IsConsistent p now msg t c = (
    jobs_with-changed p (back_to_pending now msg) t (λ r. refl) c.0,
    All-update_where IsSound p (back_to_pending now msg) t.jobs (λ r m h s. ground arith) c.1,
  )

  fail-IsConsistent :
      (now id attempts max_retries : ℕ) (msg : String) (t u : Tables)
      → report_failure now id attempts max_retries msg t ≡ some u
      → IsConsistent t
      → IsConsistent u
  unfolding report_failure move_to_dlq
  fail-IsConsistent now id attempts max_retries msg t u h c =
      elim (Bool-cases (leb max_retries attempts)) [
        | inl e ↦ moved-IsConsistent (λ r. r.id == id) now msg t u (rw e at h) c
        | inr e ↦
            subst IsConsistent (ground (arith, e))
              (reset-IsConsistent (λ r. r.id == id) now msg t c)
      ]

  submit-IsConsistent :
      (now id : ℕ) (name queue args : String) (max_retries : ℕ) (timeout scheduled : Option ℕ)
      (by : String) (trace : Option String) (t : Tables)
      → rows_with id t ≡ 0
      → IsConsistent t
      → IsConsistent (record t {
        jobs =
            t.jobs
            ++ submitted_row now id name queue args max_retries timeout scheduled by trace ∷ [];
      })
  unfolding submitted_row
  submit-IsConsistent now id name queue args max_retries timeout scheduled by trace t h c = (
    λ i. ground (
      arith,
      c.0 i,
      count-append (λ r. r.id == i) t.jobs
          (submitted_row now id name queue args max_retries timeout scheduled by trace ∷ []),
    ),
    All-append IsSound t.jobs _ c.1 (ground arith),
  )

  retry-IsConsistent :
      (allow : Bool) (now id : ℕ) (t u : Tables)
      → retry_dead_job allow now id t ≡ retried u
      → IsConsistent t
      → IsConsistent u
  unfolding retry_dead_job
  retry-IsConsistent allow now id t u h c =
      let e : revived now id t ≡ u = ground arith in
      (
        λ i. omega (arith, c.0 i, rows_with-retry_dead_job allow now id t u i h),
        subst (λ u. All IsSound u.jobs) e (All-append IsSound t.jobs _ c.1 (All-revived now _)),
      )

  pub Step-IsConsistent : {t u : Tables} → Step t u → IsConsistent t → IsConsistent u
  unfolding move_to_dlq sweep_exhausted_to_dlq release_row
  Step-IsConsistent {t = t} (submitting now id a b c d e f g k h eq) i =
      rw eq (submit-IsConsistent now id a b c d e f g k t h i)
  Step-IsConsistent {t = t} (claiming a b c d e f g h k eq) i =
      rw eq (claim-IsConsistent a b c d e f g h k t i)
  Step-IsConsistent {t = t} (extending a b c d eq) i = rw eq (extend-IsConsistent a b c d t i)
  Step-IsConsistent {t = t} (binding a b c eq) i = rw eq (bind-IsConsistent a b c t i)
  Step-IsConsistent {t = t} (completing a b eq) i = rw eq (complete-IsConsistent a b t i)
  Step-IsConsistent {t = t} {u = u} (failing a b c d m eq) i = fail-IsConsistent a b c d m t u eq i
  Step-IsConsistent {t = t} {u = u} (burying a b m eq) i =
      moved-IsConsistent (λ r. r.id == b) a m t u eq i
  Step-IsConsistent {t = t} {u = u} (sweeping l now q limit n eq) i =
      moved-IsConsistent (λ r. contains (exhausted_ids db l now q limit t.jobs) r.id) now
        "retries exhausted (swept)" t u (ground arith) i
  Step-IsConsistent {t = t} (releasing a b c d eq) i =
      rw eq
        (reset-IsConsistent (λ r. r.id == b && is_holder c r.claimed_by) a (cat "released:" d) t i)
  Step-IsConsistent {t = t} {u = u} (retrying a b c eq) i = retry-IsConsistent a b c t u eq i

  -- In every database that the statements of the queue reach from a consistent one, in any order and
  -- with any arguments: an id stands at most once in the two tables together, no row has more
  -- attempts than its budget, and every running row has a holder and a deadline.
  pub Reach-IsConsistent : {s t : Tables} → Reach s t → IsConsistent s → IsConsistent t
  Reach-IsConsistent here i = i
  Reach-IsConsistent (next r st) i = Step-IsConsistent st (Reach-IsConsistent r i)
