-- ===== src/Queue/Outcomes.antt =====
-- What becomes of a row: the guards of the lease, failures, the sweep and the retry.
use pacific_coast.Queue.Ids.{HasUniqueIds, rows_with-move_where, move_where-moved, moved}
use mathlib.Core.Path.{subst}
use mathlib.Core.List.{Memᴰ}
use pacific_coast.Base.{
  keep-cons, keep-skip, ℕ, String, Bool, true, false, Option, none, some, List, [], ◌∷◌, ◌++◌, ◌==◌,
  nat_eq, string_eq, ==_refl, ==→≡, ==_ne, ◌&&◌, not, leb, keep, ◌+◌, cat, contains, count, All,
  arith, Bool-cases, inl, inr, ◌⊎◌, ◌≡◌, ◌≢◌, refl, sym, ap, ◌∙◌, ◌≤◌, ◌<◌,
}
use pacific_coast.Queue.Table.{pending, running, JobRow, DeadRow, Tables, jobs_with, dead_with}
use pacific_coast.Queue.Claim.{update_where, claimable, is_holder, extended_row, extend_lease}
use pacific_coast.Queue.Settle.{
  back_to_pending, dead_row, key_taken, move_where, move_to_dlq, report_failure, exhausted,
  release_row, submitted_row, retried_row, job_taken, retried, retry_dead_job,
}
use pacific_coast.Queue.Rows.{jobs_with-update_where, count-Mem}

update_where-none :
    (p : JobRow → Bool) (f : JobRow → JobRow) (jobs : List JobRow)
    → ((r : JobRow) → Memᴰ r jobs → p r ≡ false)
    → update_where p f jobs ≡ jobs
update_where-none p f [] h = refl
update_where-none p f (r ∷ jobs) h =
    cc (h r (Memᴰ.head refl), update_where-none p f jobs (λ s m. h s (Memᴰ.tail m)))

not-is_holder : (who : String) (o : Option String) → o ≢ some who → is_holder who o ≡ false
not-is_holder who none k = refl
not-is_holder who (some c) k = ==_ne c who (λ e. k (ap some e))

-- A worker that holds none of the rows it names, because they were given to another or settled,
-- changes nothing by a heartbeat for them, nor by releasing one of them.
pub stale_holder-unchanged :
    (now : ℕ) (ids : List ℕ) (id : ℕ) (who : String) (extension : ℕ) (reason : String) (t : Tables)
    → ((r : JobRow) → Memᴰ r t.jobs → contains (id ∷ ids) r.id ≡ true → r.claimed_by ≢ some who)
    → (extend_lease now ids who extension t ≡ t) × (release_row now id who reason t ≡ t)
unfolding extend_lease release_row
stale_holder-unchanged now ids id who extension reason t h = (
  ap (λ l. record t { jobs = l })
      (update_where-none (λ r. contains ids r.id && is_holder who r.claimed_by)
        (extended_row (now + extension)) t.jobs
        (λ r m. elim (Bool-cases (contains ids r.id)) [
          | inl c ↦ ground (arith, not-is_holder who r.claimed_by (h r m (ground (arith, c))))
          | inr c ↦ ground (arith, c)
        ])),
  ap (λ l. record t { jobs = l })
      (update_where-none (λ r. r.id == id && is_holder who r.claimed_by)
        (back_to_pending now (cat "released:" reason)) t.jobs
        (λ r m. elim (Bool-cases (r.id == id)) [
          | inl c ↦ ground (
            arith,
            not-is_holder who r.claimed_by (h r m (ground (arith, ==→≡ r.id id c, ==_refl id))),
          )
          | inr c ↦ ground (arith, c)
        ])),
)

-- A row that is due, and is pending or has been running without a live lease for five minutes, can
-- either be claimed or be swept, and never both.
pub claimable-exhausted :
    (now : ℕ) (r : JobRow)
    → r.scheduled_for ≤ now
    → ((r.status ≡ pending)
        ⊎ ((u : ℕ) × (r.status ≡ running) × (r.claimed_until ≡ some u) × (u + 300000 < now)))
    → claimable now r.queue [] r ≡ not (exhausted now r.queue r)
unfolding claimable exhausted
claimable-exhausted now r d h = ground (arith, ==_refl r.queue, h)

keep-none {ℓ} :
    {A : Type ℓ} (q : A → Bool) (xs : List A)
    → count q xs ≡ 0
    → (keep q xs ≡ []) × (keep (λ x. not (q x)) xs ≡ xs)
keep-none q [] h = (refl, refl)
keep-none q (x ∷ xs) h = ground (arith, keep-none q xs)

keep-one :
    (q : JobRow → Bool) (xs : List JobRow) (r : JobRow)
    → Memᴰ r xs
    → q r ≡ true
    → count q xs ≤ 1
    → keep q xs ≡ r ∷ []
keep-one q [] r m h u = elim m [ ]
keep-one q (x ∷ xs) r (Memᴰ.head e) h u =
    let hx : q x ≡ true = rw (sym e) h in
    let n : count q xs ≡ 0 = ground (arith, hx) in keep-cons q xs hx ∙ cc ((keep-none q xs n).0, e)
keep-one q (x ∷ xs) r (Memᴰ.tail m) h u =
    let hx : q x ≡ false = ground (arith, count-Mem q xs m h) in
    keep-skip q xs hx ∙ keep-one q xs r m h (ground (arith, hx))

keep-append-new :
    (q : DeadRow → Bool) (dead : List DeadRow) (d : DeadRow)
    → count q dead ≡ 0
    → q d ≡ true
    → (keep q (dead ++ d ∷ []) ≡ d ∷ []) × (keep (λ x. not (q x)) (dead ++ d ∷ []) ≡ dead)
keep-append-new q [] d c h = ground (arith, h)
keep-append-new q (x ∷ dead) d c h = ground (arith, keep-append-new q dead d)

job_taken-new :
    (jobs : List JobRow) (d : DeadRow) → jobs_with d.id jobs ≡ 0 → job_taken jobs (d ∷ []) ≡ false
job_taken-new jobs d h = ground (arith, h)

count-kept_none {ℓ} :
    {A : Type ℓ} (q : A → Bool) (xs : List A) → count q (keep (λ x. not (q x)) xs) ≡ 0
count-kept_none q [] = refl
count-kept_none q (x ∷ xs) = ground (arith, count-kept_none q xs)

-- A row that is moved to the dead-letter table and retried there: both statements succeed, the
-- other rows of both tables stay, and the row stands at the end of the jobs as if it were submitted
-- anew with its old id, name, queue, arguments, budget and submitter, and with the old time of
-- entry, but with no timeout and no trace, whatever those were.
pub retry_dead_job-move_to_dlq :
    (now later : ℕ) (msg : String) (t : Tables) (r : JobRow)
    → HasUniqueIds t
    → Memᴰ r t.jobs
    → (u : Tables) × (move_to_dlq now r.id msg t ≡ some u)
      × (retry_dead_job true later r.id u
          ≡ retried (record {
            jobs =
                keep (λ s. not (s.id == r.id)) t.jobs
                ++ record (submitted_row later r.id r.job_name r.queue r.args r.max_retries none
                    none "" none) { enqueued_at = r.enqueued_at; submitted_by = r.submitted_by }
                  ∷ [];
            dead = t.dead;
          }))
unfolding move_to_dlq move_where retry_dead_job retried_row dead_row submitted_row
retry_dead_job-move_to_dlq now later msg t r u m =
    let at_id : JobRow → Bool = λ s. s.id == r.id in
    let is_one = count-Mem at_id t.jobs m (==_refl r.id) in
    let kept = keep-one at_id t.jobs r m (==_refl r.id) (omega (arith, u r.id)) in
    let d = dead_row now msg r in
    let back =
      keep-append-new (λ s. s.id == r.id) t.dead d (omega (arith, u r.id, is_one)) (==_refl r.id) in
    let gone = count-kept_none at_id t.jobs in
    let free : key_taken t.dead (r ∷ []) ≡ false = ground (arith, u r.id, is_one) in
    (
      moved at_id now msg t,
      ground (arith, kept, free),
      rw (kept, back.0, back.1, job_taken-new (keep (λ s. not (s.id == r.id)) t.jobs) d gone) refl,
    )

-- On a database whose ids are unique, the failure of a row's last attempt is recorded: the row leaves
-- the jobs and stands once among the dead.
pub report_failure-last :
    (now id attempts max_retries : ℕ) (msg : String) (t : Tables)
    → HasUniqueIds t
    → jobs_with id t.jobs ≡ 1
    → max_retries ≤ attempts
    → (u : Tables) × (report_failure now id attempts max_retries msg t ≡ some u)
      × (jobs_with id u.jobs ≡ 0)
      × (dead_with id u.dead ≡ 1)
unfolding report_failure move_to_dlq
report_failure-last now id attempts max_retries msg t u one h =
    let ok = move_where-moved (λ r. r.id == id) now msg t u in
    let e : leb max_retries attempts ≡ true = ground arith in
    (
      moved (λ r. r.id == id) now msg t,
      rw e ok,
      count-kept_none (λ r. r.id == id) t.jobs,
      omega (
        arith,
        one,
        u id,
        count-kept_none (λ r. r.id == id) t.jobs,
        rows_with-move_where (λ r. r.id == id) now msg t _ id ok,
      ),
    )

pending_again :
    (now id : ℕ) (msg : String) (jobs : List JobRow)
    → All
        (λ r. (r.status ≡ pending) × (r.claimed_by ≡ none) × (r.last_error ≡ some msg))
        (keep (λ r. r.id == id) (update_where (λ r. r.id == id) (back_to_pending now msg) jobs))
pending_again now id msg [] = tt
pending_again now id msg (r ∷ jobs) = elim (Bool-cases (r.id == id)) [
  | inl e ↦ rw e (
      subst (All _) (sym (keep-cons (λ r. r.id == id) _ e))
        ((refl, refl, refl), pending_again now id msg jobs))
  | inr e ↦
      rw e (subst (All _) (sym (keep-skip (λ r. r.id == id) _ e)) (pending_again now id msg jobs))
]

-- The failure of an attempt that is not the last one always succeeds: the row stays where it is,
-- pending again, with no holder, and carries the message.
pub report_failure-again :
    (now id attempts max_retries : ℕ) (msg : String) (t : Tables)
    → attempts < max_retries
    → (u : Tables) × (report_failure now id attempts max_retries msg t ≡ some u)
      × ((i : ℕ)
          → (jobs_with i u.jobs ≡ jobs_with i t.jobs) × (dead_with i u.dead ≡ dead_with i t.dead))
      × All
          (λ r. (r.status ≡ pending) × (r.claimed_by ≡ none) × (r.last_error ≡ some msg))
          (keep (λ r. r.id == id) u.jobs)
unfolding report_failure
report_failure-again now id attempts max_retries msg t h =
    let e : leb max_retries attempts ≡ false = ground arith in
    (
      record t { jobs = update_where (λ r. r.id == id) (back_to_pending now msg) t.jobs },
      rw e refl,
      λ i. (
        jobs_with-update_where (λ r. r.id == id) (back_to_pending now msg) t.jobs i (λ r. refl),
        refl,
      ),
      pending_again now id msg t.jobs,
    )
