-- ===== src/Diff/Storage.antt =====
-- Changes of type against what the columns can hold.
use native.Mathlib.Nat.{pow-suc, add-suc, one-le-pow, pow-le-pow_right, le-add_right}
use pacific_coast.Base.{
  ℕ, suc, ◌+◌, ◌-◌, ◌^◌, ◌≤◌, ◌<◌, true, false, String, ◌≡◌, refl, ◌↔◌, ◌⊎◌, arith, ℤ, pos, negsuc,
}
use pacific_coast.Schema.{TypeSpec, FieldType, no_elem, with_elem}
use pacific_coast.Diff.Change.{additive, backfill_required}
use pacific_coast.Diff.Types.{classify_type_change, is_widening}

-- A type with a name and no parameter.
abbrev pub named : String → TypeSpec
named name = record {
  name = name;
  array = false;
  vec_dim = 0;
  len = 0;
  num_p = 0;
  num_s = 0;
  has_num_p = false;
}

abbrev pub varchar : ℕ → TypeSpec
varchar n = record (named "varchar") { len = n }

abbrev pub numeric : ℕ → ℕ → TypeSpec
numeric p s = record (named "numeric") { num_p = p; num_s = s; has_num_p = true }

-- `[]T`: the parser gives the array the name of its element, and no parameters.
abbrev pub array_of : TypeSpec → FieldType
array_of t = with_elem (record (named t.name) { array = true }) (no_elem t)

pub data IntType : Type 0 where
  smallint int bigint : IntType

abbrev pub int_name : IntType → String
int_name smallint = "smallint"
int_name int = "int"
int_name bigint = "bigint"

abbrev pub int_bits : IntType → ℕ
int_bits smallint = 16
int_bits int = 32
int_bits bigint = 64

-- -2^(w-1) ≤ v < 2^(w-1), at the width w of the type
abbrev pub FitsInt : IntType → ℤ → Type 0
FitsInt t (pos v) = v < 2 ^ (int_bits t - 1)
FitsInt t (negsuc v) = v < 2 ^ (int_bits t - 1)

widen : (s t : IntType) → int_bits s ≤ int_bits t → (v : ℤ) → FitsInt s v → FitsInt t v
widen smallint smallint h (pos v) f = f
widen smallint int h (pos v) f = omega arith
widen smallint bigint h (pos v) f = omega arith
widen int int h (pos v) f = f
widen int bigint h (pos v) f = omega arith
widen bigint bigint h (pos v) f = f
widen smallint smallint h (negsuc v) f = f
widen smallint int h (negsuc v) f = omega arith
widen smallint bigint h (negsuc v) f = omega arith
widen int int h (negsuc v) f = f
widen int bigint h (negsuc v) f = omega arith
widen bigint bigint h (negsuc v) f = f
widen int smallint h v f = absurd (omega arith)
widen bigint smallint h v f = absurd (omega arith)
widen bigint int h v f = absurd (omega arith)

pub classify-int :
    (s t : IntType)
    → (classify_type_change (no_elem (named (int_name s))) (no_elem (named (int_name t)))
        ≡ additive)
      ↔ ((v : ℤ) → FitsInt s v → FitsInt t v)
unfolding classify_type_change is_widening
classify-int smallint smallint = (λ e v f. f, λ h. refl)
classify-int smallint int = (λ e. widen smallint int (omega arith), λ h. refl)
classify-int smallint bigint = (λ e. widen smallint bigint (omega arith), λ h. refl)
classify-int int smallint = (λ e. cc, λ h. absurd (omega (arith, h (pos 40000) (omega arith))))
classify-int int int = (λ e v f. f, λ h. refl)
classify-int int bigint = (λ e. widen int bigint (omega arith), λ h. refl)
classify-int bigint smallint = (λ e. cc, λ h. absurd (omega (arith, h (pos 40000) (omega arith))))
classify-int bigint int =
    (λ e. cc, λ h. absurd (omega (arith, h (pos 3_000_000_000) (omega arith))))
classify-int bigint bigint = (λ e v f. f, λ h. refl)

-- A text fits varchar(n) if it has at most n characters; varchar without a length holds any text.
abbrev pub FitsVarchar : ℕ → ℕ → Type 0
FitsVarchar n v = (n ≡ 0) ⊎ (v ≤ n)

-- A change of the length of a varchar is additive exactly if every text that fits the old length
-- fits the new one.
pub classify-varchar :
    (m n : ℕ)
    → (classify_type_change (no_elem (varchar m)) (no_elem (varchar n)) ≡ additive)
      ↔ ((v : ℕ) → FitsVarchar m v → FitsVarchar n v)
unfolding classify_type_change
classify-varchar m n = (λ e v f. ground arith, λ h. ground (arith, h (n + 1)))

pow_pos : (n : ℕ) → 0 < 10 ^ n
pow_pos n = one-le-pow n 10 (omega arith)

pow_mono : (m k : ℕ) → 10 ^ m < 10 ^ (m + suc k)
pow_mono m k =
    rw (add-suc, pow-suc)
      (omega (arith, pow-le-pow_right {n = 10} (omega arith) (le-add_right m k), pow_pos m))

-- An integer fits numeric(p, s) if it has at most p - s digits.
abbrev pub FitsNumeric : ℕ → ℕ → ℕ → Type 0
FitsNumeric p s v = v < 10 ^ (p - s)

-- To raise the scale of a numeric and keep its precision is classified as additive, although a value
-- that fits the old type does not fit the new one.
pub classify-numeric_rescale :
    (p s t : ℕ)
    → s < t
    → t ≤ p
    → (classify_type_change (no_elem (numeric p s)) (no_elem (numeric p t)) ≡ additive)
      × ((v : ℕ) × FitsNumeric p s v × ¬ FitsNumeric p t v)
unfolding classify_type_change
classify-numeric_rescale p s t h k =
    let e : (p - t) + suc (t - s - 1) ≡ p - s = omega arith in
    (ground arith, (10 ^ (p - t), rw e at (pow_mono (p - t) (t - s - 1)), λ f. omega arith))

-- To shorten the element of an array of varchar is classified as additive, whereas the same change
-- of a plain varchar is backfill-required.
pub classify-array_narrowing :
    (m n : ℕ)
    → 0 < n
    → n < m
    → (classify_type_change (array_of (varchar m)) (array_of (varchar n)) ≡ additive)
      × (classify_type_change (no_elem (varchar m)) (no_elem (varchar n)) ≡ backfill_required)
unfolding classify_type_change
classify-array_narrowing m n h k = ground arith
