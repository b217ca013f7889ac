-- ===== src/Session/Maps.antt =====
-- Maps from ids to rows in flight.
use pacific_coast.Base.{
  ℕ, Bool, true, false, none, some, List, [], ◌∷◌, ◌==◌, nat_eq, string_eq, ==_refl, ◌&&◌, not,
  if◌then◌else◌, ◌+◌, length, All, arith, ◌≡◌, refl, get, put, delete, has, get-put,
}
use pacific_coast.Session.State.{InflightRow}

pub length-put {ℓ} :
    {V : Type ℓ} (m : List (ℕ × V)) (k : ℕ) (v : V)
    → length (put m k v) ≡ (if has m k then length m else length m + 1)
length-put [] k v = refl
length-put ((j, w) ∷ m) k v = ground (arith, length-put m k v)

pub length-delete {ℓ} :
    {V : Type ℓ} (m : List (ℕ × V)) (k : ℕ)
    → length m ≡ (if has m k then length (delete m k) + 1 else length (delete m k))
length-delete [] k = refl
length-delete ((j, w) ∷ m) k = ground (arith, length-delete m k)

-- To delete what was put under a new key gives the map back.
pub delete-put {ℓ} :
    {V : Type ℓ} (m : List (ℕ × V)) (k : ℕ) (v : V) → get m k ≡ none → delete (put m k v) k ≡ m
delete-put [] k v h = ground (arith, ==_refl k)
delete-put ((j, w) ∷ m) k v h = ground (arith, delete-put m k v)

-- Each row is filed under its own id.
abbrev pub IsFiled : List (ℕ × InflightRow) → Type 0
IsFiled m = All (λ e. e.1.job_id ≡ e.0) m

pub put-IsFiled :
    (m : List (ℕ × InflightRow)) (k : ℕ) (v : InflightRow)
    → v.job_id ≡ k
    → IsFiled m
    → IsFiled (put m k v)
put-IsFiled [] k v e h = (e, tt)
put-IsFiled ((j, w) ∷ m) k v e h = ground (arith, put-IsFiled m k v)

pub delete-IsFiled : (m : List (ℕ × InflightRow)) (k : ℕ) → IsFiled m → IsFiled (delete m k)
delete-IsFiled [] k h = tt
delete-IsFiled ((j, w) ∷ m) k h = ground (arith, delete-IsFiled m k)

pub get-IsFiled :
    (m : List (ℕ × InflightRow)) (k : ℕ) (row : InflightRow)
    → IsFiled m
    → get m k ≡ some row
    → row.job_id ≡ k
get-IsFiled [] k row h e = cc
get-IsFiled ((j, w) ∷ m) k row h e = ground (arith, get-IsFiled m k row, nat_eq.decides j k)

-- No id stands twice.
abbrev pub unique_keys {ℓ} : {V : Type ℓ} → List (ℕ × V) → Bool
unique_keys [] = true
unique_keys ((k, v) ∷ m) = not (has m k) && unique_keys m

pub has-put_other {ℓ} :
    {V : Type ℓ} (m : List (ℕ × V)) (k j : ℕ) (v : V)
    → has (put m k v) j ≡ (if k == j then true else has m j)
has-put_other m k j v = ground (arith, get-put m k j v)

pub put-unique_keys {ℓ} :
    {V : Type ℓ} (m : List (ℕ × V)) (k : ℕ) (v : V)
    → unique_keys m ≡ true
    → unique_keys (put m k v) ≡ true
put-unique_keys [] k v h = refl
put-unique_keys ((j, w) ∷ m) k v h =
    ground
      (arith, put-unique_keys m k v, has-put_other m k j v, nat_eq.decides j k, nat_eq.decides k j)

pub has-delete {ℓ} :
    {V : Type ℓ} (m : List (ℕ × V)) (k j : ℕ) → has m j ≡ false → has (delete m k) j ≡ false
has-delete [] k j h = h
has-delete ((i, w) ∷ m) k j h = ground (arith, has-delete m k j)

pub delete-unique_keys {ℓ} :
    {V : Type ℓ} (m : List (ℕ × V)) (k : ℕ) → unique_keys m ≡ true → unique_keys (delete m k) ≡ true
delete-unique_keys [] k h = refl
delete-unique_keys ((j, w) ∷ m) k h = ground (arith, delete-unique_keys m k, has-delete m k j)
