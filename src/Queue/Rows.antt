-- ===== src/Queue/Rows.antt =====
-- What the statements do to the number of rows with an id, and to a single row.
use mathlib.Core.List.{Memᴰ}
use pacific_coast.Base.{
  ℕ, Bool, true, List, [], ◌∷◌, ◌==◌, nat_eq, ==_refl, ◌&&◌, ◌≡◌, refl, ◌≤◌, ◌<◌, keep, take, map,
  count, count-keep, count-take, contains, All, arith, Bool-cases, inl, inr,
}
use pacific_coast.Queue.Table.{JobRow, Planner, jobs_with}
use pacific_coast.Queue.Claim.{update_where}

pub count_and {ℓ} :
    {A : Type ℓ} (p q : A → Bool) (xs : List A) → count (λ x. p x && q x) xs ≤ count q xs
count_and p q [] = omega arith
count_and p q (x ∷ xs) = ground (arith, count_and p q xs)

pub jobs_with-update_where :
    (p : JobRow → Bool) (f : JobRow → JobRow) (jobs : List JobRow) (i : ℕ)
    → ((r : JobRow) → (f r).id ≡ r.id)
    → jobs_with i (update_where p f jobs) ≡ jobs_with i jobs
jobs_with-update_where p f [] i h = refl
jobs_with-update_where p f (r ∷ jobs) i h = ground (arith, h r, jobs_with-update_where p f jobs i h)

pub All-update_where {ℓ} :
    (P : JobRow → Type ℓ) (p : JobRow → Bool) (f : JobRow → JobRow) (jobs : List JobRow)
    → ((r : JobRow) → Memᴰ r jobs → p r ≡ true → P r → P (f r))
    → All P jobs
    → All P (update_where p f jobs)
All-update_where P p f [] h a = tt
All-update_where P p f (r ∷ jobs) h a = (
  elim (Bool-cases (p r)) [ inl e ↦ rw e (h r (Memᴰ.head refl) e a.0) | inr e ↦ rw e a.0 ],
  All-update_where P p f jobs (λ s m. h s (Memᴰ.tail m)) a.1,
)

pub All-kept {ℓ κ} :
    {A : Type ℓ} (P : A → Type κ) (p : A → Bool) (xs : List A) → All P xs → All P (keep p xs)
All-kept P p [] a = tt
All-kept P p (x ∷ xs) a = ground (arith, All-kept P p xs)

pub count-Mem {ℓ} :
    {A : Type ℓ} (q : A → Bool) {x : A} (xs : List A) → Memᴰ x xs → q x ≡ true → 0 < count q xs
count-Mem q [] m h = elim m [ ]
count-Mem q (y ∷ xs) (Memᴰ.head e) h = ground (arith, e)
count-Mem q (y ∷ xs) (Memᴰ.tail m) h = ground (arith, count-Mem q xs m h)

-- If ids are unique and some row with the id of `r` passes a test, then `r` passes it.
pub unique_row :
    (p : JobRow → Bool) (jobs : List JobRow) (r : JobRow)
    → Memᴰ r jobs
    → jobs_with r.id jobs ≤ 1
    → 0 < count (λ s. p s && s.id == r.id) jobs
    → p r ≡ true
unique_row p [] r m u c = elim m [ ]
unique_row p (x ∷ jobs) r (Memᴰ.head e) u c =
    ground (arith, e, count_and p (λ s. s.id == r.id) jobs, ==_refl r.id)
unique_row p (x ∷ jobs) r (Memᴰ.tail m) u c = ground (
  arith,
  unique_row p jobs r m,
  count-Mem (λ s. s.id == r.id) jobs m (==_refl r.id),
  count_and p (λ s. s.id == r.id) jobs,
)

pub contains-ids :
    (rows : List JobRow) (i : ℕ) → contains (map (λ r. r.id) rows) i ≡ true → 0 < jobs_with i rows
contains-ids [] i h = cc
contains-ids (r ∷ rows) i h = ground (arith, contains-ids rows i)

-- The ids that a query with ORDER BY and LIMIT finds are those of rows that pass its WHERE.
pub found_ids :
    (db : Planner) (key : JobRow → ℕ) (p : JobRow → Bool) (limit : ℕ) (jobs : List JobRow) (i : ℕ)
    → contains (map (λ r. r.id) (take limit (db.order_by key (keep p jobs)))) i ≡ true
    → 0 < count (λ r. p r && r.id == i) jobs
found_ids db key p limit jobs i h = omega (
  arith,
  contains-ids _ i h,
  count-take (λ r. r.id == i) limit (db.order_by key (keep p jobs)),
  db.order_by_count key (λ r. r.id == i) (keep p jobs),
  count-keep p (λ r. r.id == i) jobs,
)
