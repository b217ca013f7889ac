-- ===== src/Queue/Sweep.antt =====
-- The sweep: it moves exactly the exhausted rows, all of them if its limit allows.
use pacific_coast.Queue.Ids.{HasUniqueIds, move_where-moved, moved}
use pacific_coast.Queue.Rows.{count-Mem, unique_row, found_ids}
use pacific_coast.Queue.Settle.{dead_row, exhausted, exhausted_ids, sweep_exhausted_to_dlq}
use pacific_coast.Queue.Table.{JobRow, Tables, Planner, jobs_with}
use mathlib.Core.List.{Memᴰ}
use pacific_coast.Base.{
  ℕ, String, Bool, true, false, some, List, [], ◌∷◌, ◌++◌, ◌==◌, nat_eq, string_eq, ==_refl, ◌&&◌,
  not, keep, take, map, zero, suc, length, contains, count, count-keep, length-keep, All, arith,
  Bool-cases, inl, inr, ◌≡◌, refl, ap, ◌≤◌, ◌<◌,
}

take-all {ℓ} : {A : Type ℓ} (n : ℕ) (xs : List A) → length xs ≤ n → take n xs ≡ xs
take-all zero [] h = refl
take-all zero (x ∷ xs) h = absurd (omega (arith, h))
take-all (suc n) [] h = refl
take-all (suc n) (x ∷ xs) h = ap (◌∷◌ x) (take-all n xs (omega (arith, h)))

count-true {ℓ} : {A : Type ℓ} (xs : List A) → count (λ x. true) xs ≡ length xs
count-true [] = refl
count-true (x ∷ xs) = ap suc (count-true xs)

contains-present :
    (rows : List JobRow) (i : ℕ) → 0 < jobs_with i rows → contains (map (λ r. r.id) rows) i ≡ true
contains-present [] i h = absurd (omega arith)
contains-present (r ∷ rows) i h = ground (arith, contains-present rows i)

All-filtered {ℓ} :
    {A : Type ℓ} (p : A → Bool) (q : A → Bool) (xs : List A)
    → ((x : A) → Memᴰ x xs → p x ≡ true → q x ≡ true)
    → All (λ x. q x ≡ true) (keep p xs)
All-filtered p q [] h = tt
All-filtered p q (x ∷ xs) h =
    ground (arith, h x (Memᴰ.head refl), All-filtered p q xs (λ y m. h y (Memᴰ.tail m)))

count_and_left {ℓ} :
    {A : Type ℓ} (p q : A → Bool) (xs : List A) → count (λ x. p x && q x) xs ≤ count p xs
count_and_left p q [] = omega arith
count_and_left p q (x ∷ xs) = ground (arith, count_and_left p q xs)

exhausted-found :
    (db : Planner) (locked : ℕ → Bool) (now : ℕ) (queue : String) (limit : ℕ) (t : Tables)
    → ((i : ℕ) → locked i ≡ false)
    → count (exhausted now queue) t.jobs ≤ limit
    → (r : JobRow) → Memᴰ r t.jobs
    → exhausted now queue r ≡ true
    → contains (exhausted_ids db locked now queue limit t.jobs) r.id ≡ true
unfolding exhausted_ids
exhausted-found db locked now queue limit t free enough r m e =
    let p : JobRow → Bool = λ r. exhausted now queue r && not (locked r.id) in
    let rows = db.order_by (λ r. r.id) (keep p t.jobs) in
    let few : length rows ≤ limit = omega (
      arith,
      enough,
      count-true rows,
      db.order_by_count (λ r. r.id) (λ r. true) (keep p t.jobs),
      count-true (keep p t.jobs),
      length-keep p t.jobs,
      count_and_left (exhausted now queue) (λ r. not (locked r.id)) t.jobs,
    ) in
    let there : 0 < jobs_with r.id rows = omega (
      arith,
      db.order_by_count (λ r. r.id) (λ s. s.id == r.id) (keep p t.jobs),
      count-keep p (λ s. s.id == r.id) t.jobs,
      count-Mem (λ s. p s && s.id == r.id) t.jobs m (ground (arith, e, free r.id, ==_refl r.id)),
    ) in
    rw (take-all limit rows few) (contains-present rows r.id there)

sweep-All :
    (db : Planner) (locked : ℕ → Bool) (now : ℕ) (queue : String) (limit : ℕ) (t : Tables)
    → ((i : ℕ) → locked i ≡ false)
    → count (exhausted now queue) t.jobs ≤ limit
    → All
        (λ r. not (exhausted now queue r) ≡ true)
        (keep (λ r. not (contains (exhausted_ids db locked now queue limit t.jobs) r.id)) t.jobs)
sweep-All db locked now queue limit t free enough =
    All-filtered _ (λ r. not (exhausted now queue r)) t.jobs
      (λ r m c. elim (Bool-cases (exhausted now queue r)) [
        | inl e ↦ absurd (cc (c, exhausted-found db locked now queue limit t free enough r m e))
        | inr e ↦ rw e refl
      ])

pub sweep_exhausted_to_dlq-exhausted :
    (db : Planner) (locked : ℕ → Bool) (now : ℕ) (queue : String) (limit : ℕ) (t : Tables)
    → HasUniqueIds t
    → (u : Tables) × (n : ℕ) × (ids : List ℕ) × (sweep_exhausted_to_dlq db locked now queue limit t
        ≡ some (u, n))
      × (let swept = keep (λ r. contains ids r.id) t.jobs in
          (u.dead ≡ t.dead ++ map (dead_row now "retries exhausted (swept)") swept)
          × (u.jobs ≡ keep (λ r. not (contains ids r.id)) t.jobs)
          × (n ≡ length swept)
          × All (λ r. exhausted now queue r ≡ true) swept)
unfolding sweep_exhausted_to_dlq exhausted_ids
sweep_exhausted_to_dlq-exhausted db locked now queue limit t u =
    let p : JobRow → Bool = λ r. exhausted now queue r && not (locked r.id) in
    let ids = exhausted_ids db locked now queue limit t.jobs in
    let chosen : JobRow → Bool = λ r. contains ids r.id in
    (
      moved chosen now "retries exhausted (swept)" t,
      length (keep chosen t.jobs),
      ids,
      ground (arith, move_where-moved chosen now "retries exhausted (swept)" t u),
      (
        refl,
        refl,
        refl,
        All-filtered chosen (exhausted now queue) t.jobs (λ r m c.
            let h : p r ≡ true =
              unique_row p t.jobs r m (omega (arith, u r.id))
                (found_ids db (λ r. r.id) p limit t.jobs r.id c) in
            ground (arith, h)),
      ),
    )

-- On a database whose ids are unique, if no row is locked and the limit is at least the number of
-- exhausted rows of the queue, a sweep succeeds and leaves no exhausted row among the jobs.
pub sweep_exhausted_to_dlq_complete :
    (db : Planner) (locked : ℕ → Bool) (now : ℕ) (queue : String) (limit : ℕ) (t : Tables)
    → HasUniqueIds t
    → ((i : ℕ) → locked i ≡ false)
    → count (exhausted now queue) t.jobs ≤ limit
    → (u : Tables) × (n : ℕ) × (sweep_exhausted_to_dlq db locked now queue limit t ≡ some (u, n))
      × All (λ r. not (exhausted now queue r) ≡ true) u.jobs
unfolding sweep_exhausted_to_dlq
sweep_exhausted_to_dlq_complete db locked now queue limit t u free enough =
    let ids = exhausted_ids db locked now queue limit t.jobs in
    let chosen : JobRow → Bool = λ r. contains ids r.id in
    (
      moved chosen now "retries exhausted (swept)" t,
      length (keep chosen t.jobs),
      ground (arith, move_where-moved chosen now "retries exhausted (swept)" t u),
      sweep-All db locked now queue limit t free enough,
    )
