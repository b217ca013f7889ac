-- ===== src/Queue/Tests.antt =====
-- A database that sorts by insertion, a small queue, and the theorems at them.
use pacific_coast.Queue.Settle.{
  dead_row, move_to_dlq, report_failure, exhausted, sweep_exhausted_to_dlq, release_row,
  submitted_row, retried, retry_dead_job,
}
use pacific_coast.Queue.Claim.{claimable, claim_row, ready, claim_rows, extend_lease}
use pacific_coast.Queue.Table.{JobRow, Tables, Planner, jobs_with, dead_with, rows_with}
use mathlib.Core.List.{Memᴰ}
use pacific_coast.Base.{
  contains, ℕ, Bool, true, false, none, some, List, [], ◌∷◌, ◌++◌, ◌==◌, nat_eq, string_eq, not,
  leb, keep, map, if◌then◌else◌, length, count, All, arith, inl, ◌≡◌, ◌≢◌, refl, ◌≤◌,
}
use pacific_coast.Queue.Steps.{Reach, here, next, submitting, IsConsistent, Reach-IsConsistent}
use pacific_coast.Queue.Leases.{claim_rows-disjoint}
use pacific_coast.Queue.Outcomes.{
  stale_holder-unchanged, claimable-exhausted, retry_dead_job-move_to_dlq, report_failure-last,
}
use pacific_coast.Queue.Sweep.{sweep_exhausted_to_dlq_complete, sweep_exhausted_to_dlq-exhausted}

abbrev insert_row : (JobRow → ℕ) → JobRow → List JobRow → List JobRow
insert_row key r [] = r ∷ []
insert_row key r (s ∷ rows) =
    let rest = insert_row key r rows in if leb (key r) (key s) then r ∷ s ∷ rows else s ∷ rest

abbrev sort_rows : (JobRow → ℕ) → List JobRow → List JobRow
sort_rows key [] = []
sort_rows key (r ∷ rows) = insert_row key r (sort_rows key rows)

count-insert_row :
    (key : JobRow → ℕ) (q : JobRow → Bool) (r : JobRow) (rows : List JobRow)
    → count q (insert_row key r rows) ≡ count q (r ∷ rows)
count-insert_row key q r [] = refl
count-insert_row key q r (s ∷ rows) = ground (arith, count-insert_row key q r rows)

count-sort_rows :
    (key : JobRow → ℕ) (q : JobRow → Bool) (rows : List JobRow)
    → count q (sort_rows key rows) ≡ count q rows
count-sort_rows key q [] = refl
count-sort_rows key q (r ∷ rows) =
    ground (arith, count-insert_row key q r (sort_rows key rows), count-sort_rows key q rows)

abbrev db : Planner
db = record { order_by = sort_rows; order_by_count = count-sort_rows }

abbrev no_locks : ℕ → Bool
no_locks i = false

abbrev empty_tables : Tables
empty_tables = record { jobs = []; dead = [] }

abbrev mail : ℕ → ℕ → JobRow
mail id due = submitted_row 100 id "shop.Mail" "default" "{}" 1 (some 5000) (some due) "shop" none

abbrev spent : JobRow
spent = record (mail 3 100) { attempts = 1 }

abbrev two_jobs : Tables
two_jobs = record { jobs = mail 7 300 ∷ mail 4 200 ∷ []; dead = [] }

abbrev one_spent : Tables
one_spent = record { jobs = spent ∷ mail 7 300 ∷ []; dead = [] }

two_jobs_unique : (i : ℕ) → rows_with i two_jobs ≤ 1
unfolding submitted_row
two_jobs_unique i = ground arith

one_spent_unique : (i : ℕ) → rows_with i one_spent ≤ 1
unfolding submitted_row
one_spent_unique i = ground arith

-- The claim takes the row that is due first.
first_claim :
    map {B = ℕ × ℕ}
      (λ c. (c.id, c.attempts))
      (claim_rows db no_locks 500 "default" [] 1 "pod" 900 "direct_pg" "" two_jobs).1
    ≡ (4, 1) ∷ []
unfolding claim_rows ready claimable claim_row submitted_row
first_claim = refl

submitted : Reach db empty_tables (record { jobs = mail 7 300 ∷ []; dead = [] })
submitted =
    next here
      (submitting 100 7 "shop.Mail" "default" "{}" 1 (some 5000) (some 300) "shop" none refl refl)

Reach-IsConsistent_example : IsConsistent (record { jobs = mail 7 300 ∷ []; dead = [] })
Reach-IsConsistent_example = Reach-IsConsistent db submitted ((λ i. omega arith), tt)

claim_rows-disjoint_example :
    let first = claim_rows db no_locks 500 "default" [] 1 "pod" 900 "direct_pg" "" two_jobs in
    let second = claim_rows db no_locks 600 "default" [] 5 "other" 1000 "direct_pg" "" first.0 in
    All (λ c. All (λ d. c.id ≢ d.id) second.1) first.1
claim_rows-disjoint_example =
    claim_rows-disjoint db no_locks no_locks 500 600 "default" "default" [] [] 1 5 "pod" "other" 900
      1000 "direct_pg" "direct_pg" "" "" two_jobs (omega arith)

none-held : (r : JobRow) → Memᴰ r two_jobs.jobs → r.claimed_by ≢ some "pod"
unfolding submitted_row
none-held r (Memᴰ.head e) = cc
none-held r (Memᴰ.tail (Memᴰ.head e)) = cc
none-held r (Memᴰ.tail (Memᴰ.tail m)) = elim m [ ]

stale_holder-unchanged_example :
    (extend_lease 500 (7 ∷ []) "pod" 90 two_jobs ≡ two_jobs)
    × (release_row 500 4 "pod" "session_close" two_jobs ≡ two_jobs)
stale_holder-unchanged_example =
    stale_holder-unchanged 500 (7 ∷ []) 4 "pod" 90 "session_close" two_jobs (λ r m c. none-held r m)

claimable-exhausted_example :
    claimable 500 spent.queue [] spent ≡ not (exhausted 500 spent.queue spent)
unfolding submitted_row
claimable-exhausted_example = claimable-exhausted 500 spent (omega arith) (inl refl)

retry_dead_job-move_to_dlq_example :
    (u : Tables) × (move_to_dlq 500 7 "no route" two_jobs ≡ some u)
    × (retry_dead_job true 900 7 u
        ≡ retried (record {
          jobs =
              keep (λ s. not (s.id == 7)) two_jobs.jobs
              ++ record (submitted_row 900 7 "shop.Mail" "default" "{}" 1 none none "" none) {
                enqueued_at = 100;
                submitted_by = some "shop";
              }
                ∷ [];
          dead = [];
        }))
unfolding submitted_row
retry_dead_job-move_to_dlq_example =
    retry_dead_job-move_to_dlq 500 900 "no route" two_jobs (mail 7 300) two_jobs_unique
      (Memᴰ.head refl)

report_failure-last_example :
    (u : Tables) × (report_failure 500 7 1 1 "no route" two_jobs ≡ some u)
    × (jobs_with 7 u.jobs ≡ 0)
    × (dead_with 7 u.dead ≡ 1)
unfolding submitted_row
report_failure-last_example =
    report_failure-last 500 7 1 1 "no route" two_jobs two_jobs_unique refl (omega arith)

sweep_exhausted_to_dlq-exhausted_example :
    (u : Tables) × (n : ℕ) × (ids : List ℕ) × (sweep_exhausted_to_dlq db no_locks 500 "default" 10
        one_spent
      ≡ some (u, n))
    × (let swept = keep (λ r. contains ids r.id) one_spent.jobs in
        (u.dead ≡ map (dead_row 500 "retries exhausted (swept)") swept)
        × (u.jobs ≡ keep (λ r. not (contains ids r.id)) one_spent.jobs)
        × (n ≡ length swept)
        × All (λ r. exhausted 500 "default" r ≡ true) swept)
sweep_exhausted_to_dlq-exhausted_example =
    sweep_exhausted_to_dlq-exhausted db no_locks 500 "default" 10 one_spent one_spent_unique

sweep_exhausted_to_dlq_complete_example :
    (u : Tables) × (n : ℕ) × (sweep_exhausted_to_dlq db no_locks 500 "default" 10 one_spent
      ≡ some (u, n))
    × All (λ r. not (exhausted 500 "default" r) ≡ true) u.jobs
unfolding submitted_row exhausted
sweep_exhausted_to_dlq_complete_example =
    sweep_exhausted_to_dlq_complete db no_locks 500 "default" 10 one_spent one_spent_unique
      (λ i. refl) (omega arith)
