-- ===== src/Queue/Leases.antt =====
-- What a claim takes, and that a lease keeps others away.
use mathlib.Core.Path.{subst}
use mathlib.Core.List.{Memᴰ}
use pacific_coast.Base.{
  keep-cons, keep-skip, ℕ, String, Bool, true, false, List, [], ◌∷◌, ◌==◌, nat_eq, string_eq, ◌&&◌,
  not, keep, take, map, ◌+◌, suc, length, contains, count, count-skip, length-take, length-keep,
  All, arith, Bool-cases, inl, inr, ◌≡◌, ◌≢◌, refl, sym, ap, ◌∙◌, ◌≤◌,
}
use pacific_coast.Queue.Table.{JobRow, Tables, Planner, jobs_with}
use pacific_coast.Queue.Claim.{update_where, claimable, claim_row, claimed_row, ready, claim_rows}
use pacific_coast.Queue.Rows.{unique_row, found_ids}
use pacific_coast.Queue.Ids.{HasUniqueIds}

-- Among rows with unique ids at most as many have an id of a list as the list is long.
pub length-chosen :
    (ids : List ℕ) (jobs : List JobRow)
    → ((i : ℕ) → jobs_with i jobs ≤ 1)
    → length (keep (λ r. contains ids r.id) jobs) ≤ length ids
length-chosen [] jobs u = omega (arith, length-keep (λ r. false) jobs, none-chosen jobs)
  where
    none-chosen : (jobs : List JobRow) → count (λ r. false) jobs ≡ 0
    none-chosen [] = refl
    none-chosen (r ∷ jobs) = none-chosen jobs
length-chosen (i ∷ ids) jobs u = omega (
  arith,
  u i,
  length-chosen ids jobs u,
  length-keep (λ r. contains (i ∷ ids) r.id) jobs,
  length-keep (λ r. contains ids r.id) jobs,
  one-more jobs,
)
  where
    one-more :
        (jobs : List JobRow)
        → count (λ r. contains (i ∷ ids) r.id) jobs
          ≤ count (λ r. r.id == i) jobs + count (λ r. contains ids r.id) jobs
    one-more [] = omega arith
    one-more (r ∷ jobs) =
        ground (arith, one-more jobs, nat_eq.decides i r.id, nat_eq.decides r.id i)

pub length-map {ℓ κ} :
    {A : Type ℓ} {B : Type κ} (f : A → B) (xs : List A) → length (map f xs) ≡ length xs
length-map f [] = refl
length-map f (x ∷ xs) = ap suc (length-map f xs)

-- What stands in a filtered and mapped list comes from an item that passes the test.
pub All-chosen {ℓ κ μ} :
    {A : Type ℓ} {B : Type κ} (P : B → Type μ) (p : A → Bool) (f : A → B) (xs : List A)
    → ((x : A) → Memᴰ x xs → p x ≡ true → P (f x))
    → All P (map f (keep p xs))
All-chosen P p f [] h = tt
All-chosen P p f (x ∷ xs) h =
    let rest = All-chosen P p f xs (λ y m. h y (Memᴰ.tail m)) in
    elim (Bool-cases (p x)) [
      | inl e ↦ subst (λ l. All P (map f l)) (sym (keep-cons p xs e)) (h x (Memᴰ.head refl) e, rest)
      | inr e ↦ subst (λ l. All P (map f l)) (sym (keep-skip p xs e)) rest
    ]

module _ (db : Planner) (locked : ℕ → Bool) (now : ℕ) (queue : String) (names : List String)
    (limit : ℕ) (who : String) (until : ℕ) (kind session : String) where
  -- On a database whose ids are unique, a claim returns at most as many rows as its limit.
  pub length-claim_rows :
      (t : Tables)
      → HasUniqueIds t
      → length (claim_rows db locked now queue names limit who until kind session t).1 ≤ limit
  unfolding claim_rows ready
  length-claim_rows t u =
      let p : JobRow → Bool = λ r. claimable now queue names r && not (locked r.id) in
      let rows = db.order_by (λ r. r.scheduled_for) (keep p t.jobs) in
      let ids = ready db locked now queue names limit t.jobs in
      omega (
        arith,
        length-map (λ r. claimed_row (claim_row now who until kind session r))
            (keep (λ r. contains ids r.id) t.jobs),
        length-chosen ids t.jobs (λ i. omega (arith, u i)),
        length-map (λ r. r.id) (take limit rows),
        length-take limit rows,
      )

  -- On a database whose ids are unique, each row that a claim returns is what the claim makes of a
  -- row of the table that was in the queue, due, of an allowed name, below its budget of attempts,
  -- locked by no other transaction, and either pending or running with no live lease.
  pub claim_rows-claimable :
      (t : Tables)
      → HasUniqueIds t
      → All
          (λ c.
            (r : JobRow) × Memᴰ r t.jobs
            × (claimable now queue names r ≡ true)
            × (locked r.id ≡ false)
            × (c ≡ claimed_row (claim_row now who until kind session r)))
          (claim_rows db locked now queue names limit who until kind session t).1
  unfolding claim_rows ready
  claim_rows-claimable t u =
      let p : JobRow → Bool = λ r. claimable now queue names r && not (locked r.id) in
      All-chosen _ _ _ t.jobs (λ r m c.
        let h : p r ≡ true =
          unique_row p t.jobs r m (omega (arith, u r.id))
            (found_ids db (λ r. r.scheduled_for) p limit t.jobs r.id c) in
        (r, m, ground (arith, h), ground (arith, h), refl))

-- A row that was claimed and whose lease is not over is not claimable.
leased-ne-claimable :
    (now later : ℕ) (queue : String) (names : List String) (who : String) (until : ℕ)
    (kind session : String) (r : JobRow)
    → later ≤ until
    → claimable later queue names (claim_row now who until kind session r) ≡ false
unfolding claimable claim_row
leased-ne-claimable now later queue names who until kind session r h = ground arith

-- After the ids of a list are claimed, no row with such an id is claimable before the lease is over.
none-claimable :
    (now later : ℕ) (queue : String) (names : List String) (who : String) (until : ℕ)
    (kind session : String) (ids : List ℕ) (p : JobRow → Bool) (jobs : List JobRow) (i : ℕ)
    → later ≤ until
    → contains ids i ≡ true
    → ((r : JobRow) → claimable later queue names r ≡ false → p r ≡ false)
    → count
        (λ r. p r && r.id == i)
        (update_where (λ r. contains ids r.id) (claim_row now who until kind session) jobs)
      ≡ 0
unfolding claim_row
none-claimable now later queue names who until kind session ids p [] i h c k = refl
none-claimable now later queue names who until kind session ids p (r ∷ jobs) i h c k =
    let rest = none-claimable now later queue names who until kind session ids p jobs i h c k in
    let e = k _ (leased-ne-claimable now later queue names who until kind session r h) in
    elim (Bool-cases (contains ids r.id)) [
      | inl y ↦ rw y (count-skip (λ r. p r && r.id == i) _ (ground (arith, e)) ∙ rest)
      | inr y ↦ rw y (ground (arith, rest, nat_eq.decides r.id i))
    ]

taken-once :
    (db : Planner) (locked : ℕ → Bool) (now later : ℕ) (queue : String) (names : List String)
    (limit : ℕ) (who : String) (until : ℕ) (kind session : String) (ids : List ℕ)
    (jobs : List JobRow) (i : ℕ)
    → later ≤ until
    → contains ids i ≡ true
    → contains
        (ready db locked later queue names limit
          (update_where (λ r. contains ids r.id) (claim_row now who until kind session) jobs))
        i
      ≢ true
unfolding ready
taken-once db locked now later queue names limit who until kind session ids jobs i h c d =
    let p : JobRow → Bool = λ r. claimable later queue names r && not (locked r.id) in
    let after = update_where (λ r. contains ids r.id) (claim_row now who until kind session) jobs in
    let zero_left =
      none-claimable now later queue names who until kind session ids p jobs i h c
        (λ r f. ground (arith, f)) in
    absurd (omega (arith, zero_left, found_ids db (λ r. r.scheduled_for) p limit after i d))

-- Two claims, by any two workers: as long as the leases that the first one gave are
-- not over, the second one returns none of the rows that the first one returned.
pub claim_rows-disjoint :
    (db : Planner) (locked locked' : ℕ → Bool) (now later : ℕ) (queue queue' : String)
    (names names' : List String) (limit limit' : ℕ) (who who' : String) (until until' : ℕ)
    (kind kind' session session' : String) (t : Tables)
    → later ≤ until
    → let first = claim_rows db locked now queue names limit who until kind session t in
      let second =
        claim_rows db locked' later queue' names' limit' who' until' kind' session' first.0 in
      All (λ c. All (λ d. c.id ≢ d.id) second.1) first.1
unfolding claim_rows claim_row
claim_rows-disjoint db locked locked' now later queue queue' names names' limit limit' who who'
      until until' kind kind' session session' t h =
    let ids = ready db locked now queue names limit t.jobs in
    let claim = claim_row now who until kind session in
    let jobs = update_where (λ r. contains ids r.id) claim t.jobs in
    All-chosen _ _ _ t.jobs (λ r m c. All-chosen _ _ _ jobs (λ s n d same.
      taken-once db locked' now later queue' names' limit' who until kind session ids t.jobs r.id h
        c (rw (sym same) at d)))
