-- ===== src/Diff/Empty/Fields.antt =====
-- A field with no change.
use pacific_coast.Base.{
  Bool, true, false, Option, none, some, List, [], ◌∷◌, ◌++◌, String, string_eq, ◌≡◌, refl, ◌↔◌,
  arith, ==→≡,
}
use text.Mathlib.TextEquality.{eq_iff}
use pacific_coast.Schema.{Field, Ref}
use pacific_coast.Diff.Change.{Change}
use pacific_coast.Diff.Types.{type_equal}
use pacific_coast.Diff.Equal.{defaults_equal, refs_equal}
use pacific_coast.Diff.Changes.Fields.{
  when, type_changes, not_null_changes, unique_changes, default_changes, backfill_changes,
  serial_changes, refs_changes, field_changes,
}

-- Both or neither, and related if both.
abbrev pub PairOf : {A : Type 0} → (A → A → Type 0) → Option A → Option A → Type 0
PairOf R none none = Unit
PairOf R (some a) (some b) = R a b
PairOf R none (some b) = ⊥
PairOf R (some a) none = ⊥

-- What the diff compares of a field.
pub record FieldUnchanged (o n : Field) : Type 0 where
  pub type : type_equal o.type n.type ≡ true
  pub not_null : o.not_null ≡ n.not_null
  pub unique : o.unique ≡ n.unique
  pub default : defaults_equal o.default n.default ≡ true
  pub backfill : o.backfill ≡ n.backfill
  pub serial : o.serial ≡ n.serial
  pub ref : refs_equal o.ref n.ref ≡ true

pub append-nil_iff {ℓ} : {A : Type ℓ} (xs ys : List A) → (xs ++ ys ≡ []) ↔ ((xs ≡ []) × (ys ≡ []))
append-nil_iff [] ys = (λ h. (refl, h), λ h. h.1)
append-nil_iff (x ∷ xs) ys = (λ h. cc, λ h. cc (h.0))

pub when-nil_iff : (b : Bool) (c : Change) → (when b c ≡ []) ↔ (b ≡ false)
when-nil_iff true c = (λ h. cc, λ h. cc)
when-nil_iff false c = (λ h. refl, λ h. refl)

module _ (id : String) (o n : Field) where
  type_nil : (type_changes id o n ≡ []) ↔ (type_equal o.type n.type ≡ true)
  type_nil = ground arith

  not_null_nil : (not_null_changes id o n ≡ []) ↔ (o.not_null ≡ n.not_null)
  not_null_nil = ground arith

  unique_nil : (unique_changes id o n ≡ []) ↔ (o.unique ≡ n.unique)
  unique_nil = ground arith

  default_nil : (default_changes id o n ≡ []) ↔ (defaults_equal o.default n.default ≡ true)
  default_nil = ground arith

  backfill_nil : (backfill_changes id o n ≡ []) ↔ (o.backfill ≡ n.backfill)
  backfill_nil = ground (
    arith,
    ==→≡ o.backfill "",
    ==→≡ n.backfill "",
    ==→≡ o.backfill n.backfill,
    eq_iff o.backfill n.backfill,
    eq_iff o.backfill "",
    eq_iff n.backfill "",
  )

  serial_nil : (serial_changes id o n ≡ []) ↔ (o.serial ≡ n.serial)
  serial_nil = ground arith

  refs_nil : (a b : Option Ref) → (refs_changes id o n a b ≡ []) ↔ (refs_equal a b ≡ true)
  unfolding refs_equal
  refs_nil none none = (λ h. refl, λ h. refl)
  refs_nil none (some b) = (λ h. cc, λ h. cc)
  refs_nil (some a) none = (λ h. cc, λ h. cc)
  refs_nil (some a) (some b) = ground arith

  -- A field has no change exactly if nothing that the diff compares has changed.
  pub field_changes-nil_iff : (field_changes id o n ≡ []) ↔ FieldUnchanged o n
  unfolding field_changes
  field_changes-nil_iff = (to, from)
    where
      to : field_changes id o n ≡ [] → FieldUnchanged o n
      to h =
          let (a, ra) = (append-nil_iff (type_changes id o n) _).0 h in
          let (b, rb) = (append-nil_iff (not_null_changes id o n) _).0 ra in
          let (c, rc) = (append-nil_iff (unique_changes id o n) _).0 rb in
          let (d, rd) = (append-nil_iff (default_changes id o n) _).0 rc in
          let (e, re) = (append-nil_iff (backfill_changes id o n) _).0 rd in
          let (f, g) = (append-nil_iff (serial_changes id o n) _).0 re in
          record {
            type = type_nil.0 a;
            not_null = not_null_nil.0 b;
            unique = unique_nil.0 c;
            default = default_nil.0 d;
            backfill = backfill_nil.0 e;
            serial = serial_nil.0 f;
            ref = (refs_nil o.ref n.ref).0 g;
          }

      from : FieldUnchanged o n → field_changes id o n ≡ []
      from u = rw (
        type_nil.1 u.type,
        not_null_nil.1 u.not_null,
        unique_nil.1 u.unique,
        default_nil.1 u.default,
        backfill_nil.1 u.backfill,
        serial_nil.1 u.serial,
        (refs_nil o.ref n.ref).1 u.ref,
      )
