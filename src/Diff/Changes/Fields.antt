-- ===== src/Diff/Changes/Fields.antt =====
-- The changes of a field that both schemas have, as one list.
use pacific_coast.Base.{
  Bool, ◌&&◌, not, Option, none, some, List, [], ◌∷◌, ◌++◌, String, ◌==◌, string_eq, if◌then◌else◌,
  ◌≡◌, refl, arith,
}
use pacific_coast.Schema.{Field, Ref}
use pacific_coast.Diff.Change.{
  additive, backfill_required, field_not_null_tightened, field_not_null_loosened,
  field_type_changed, field_default_changed, field_unique_added, field_unique_removed,
  field_reference_added, field_reference_removed, field_reference_modified, field_serial_added,
  field_serial_removed, field_backfill_added, field_backfill_removed, field_backfill_changed,
  nothing, a_type, a_default, a_ref, a_text, Change, Diff, push,
}
use pacific_coast.Diff.Types.{type_equal, classify_type_change}
use pacific_coast.Diff.Equal.{defaults_equal, refs_equal}
use pacific_coast.Diff.Field.{
  field_change, diff_type, diff_not_null, diff_unique, diff_default, diff_backfill, diff_serial,
  modified_class, diff_refs, diff_reference, diff_field,
}
use pacific_coast.Diff.Extend.{extend, extend-append}

abbrev pub when : Bool → Change → List Change
when b c = if b then c ∷ [] else []

module _ (id : String) (o n : Field) where
  abbrev pub type_changes : List Change
  type_changes = when (not (type_equal o.type n.type)) (
      field_change id o n field_type_changed (classify_type_change o.type n.type) (a_type o.type)
        (a_type n.type))

  abbrev pub not_null_changes : List Change
  not_null_changes =
      when (not o.not_null && n.not_null) (
        field_change id o n field_not_null_tightened
          (elim n.default [ some v ↦ additive | none ↦ backfill_required ]) nothing nothing)
      ++ when (o.not_null && not n.not_null)
          (field_change id o n field_not_null_loosened additive nothing nothing)

  abbrev pub unique_changes : List Change
  unique_changes =
      when (not o.unique && n.unique)
        (field_change id o n field_unique_added backfill_required nothing nothing)
      ++ when (o.unique && not n.unique)
          (field_change id o n field_unique_removed additive nothing nothing)

  abbrev pub default_changes : List Change
  default_changes = when (not (defaults_equal o.default n.default)) (
      field_change id o n field_default_changed additive (a_default o.default)
        (a_default n.default))

  abbrev pub backfill_changes : List Change
  backfill_changes =
      when (o.backfill == "" && not (n.backfill == ""))
        (field_change id o n field_backfill_added additive nothing (a_text n.backfill))
      ++ when (not (o.backfill == "") && n.backfill == "")
          (field_change id o n field_backfill_removed additive (a_text o.backfill) nothing)
      ++ when (not (o.backfill == "") && not (n.backfill == "") && not (o.backfill == n.backfill)) (
          field_change id o n field_backfill_changed additive (a_text o.backfill)
            (a_text n.backfill))

  abbrev pub serial_changes : List Change
  serial_changes =
      when (not o.serial && n.serial)
        (field_change id o n field_serial_added backfill_required nothing nothing)
      ++ when (o.serial && not n.serial)
          (field_change id o n field_serial_removed backfill_required nothing nothing)

  abbrev pub refs_changes : Option Ref → Option Ref → List Change
  refs_changes none none = []
  refs_changes none (some b) =
      field_change id o n field_reference_added backfill_required nothing (a_ref b) ∷ []
  refs_changes (some a) none =
      field_change id o n field_reference_removed additive (a_ref a) nothing ∷ []
  refs_changes (some a) (some b) =
      when (not (refs_equal (some a) (some b))) (
        field_change id o n field_reference_modified (modified_class id o n a b) (a_ref a)
          (a_ref b))

  unfoldable pub field_changes : List Change
  field_changes =
      type_changes
      ++ (not_null_changes
          ++ (unique_changes
              ++ (default_changes
                  ++ (backfill_changes ++ (serial_changes ++ refs_changes o.ref n.ref)))))

  diff_type-changes : (d : Diff) → diff_type id o n d ≡ extend d type_changes
  unfolding diff_type extend
  diff_type-changes d = ground arith

  diff_not_null-changes : (d : Diff) → diff_not_null id o n d ≡ extend d not_null_changes
  unfolding diff_not_null extend push
  diff_not_null-changes d = ground arith

  diff_unique-changes : (d : Diff) → diff_unique id o n d ≡ extend d unique_changes
  unfolding diff_unique extend push
  diff_unique-changes d = ground arith

  diff_default-changes : (d : Diff) → diff_default id o n d ≡ extend d default_changes
  unfolding diff_default extend push
  diff_default-changes d = ground arith

  diff_backfill-changes : (d : Diff) → diff_backfill id o n d ≡ extend d backfill_changes
  unfolding diff_backfill extend
  diff_backfill-changes d = ground arith

  diff_serial-changes : (d : Diff) → diff_serial id o n d ≡ extend d serial_changes
  unfolding diff_serial extend
  diff_serial-changes d = ground arith

  diff_refs-changes :
      (a b : Option Ref) (d : Diff) → diff_refs id o n a b d ≡ extend d (refs_changes a b)
  unfolding diff_refs extend push
  diff_refs-changes none none d = refl
  diff_refs-changes none (some b) d = refl
  diff_refs-changes (some a) none d = refl
  diff_refs-changes (some a) (some b) d = ground arith

  pub diff_field-changes : (d : Diff) → diff_field id o n d ≡ extend d field_changes
  unfolding diff_field diff_reference field_changes
  diff_field-changes d = simp (
    extend-append, diff_type-changes, diff_not_null-changes, diff_unique-changes,
    diff_default-changes, diff_backfill-changes, diff_serial-changes, diff_refs-changes,
  )
