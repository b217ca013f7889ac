-- ===== src/Diff/Field.antt =====
-- diffField of internal/codegen/diff.go: what changed in a field that both schemas have. Each part of
-- the function's body is a definition of its own; they run in the order of `diff_field`.
use pacific_coast.Base.{◌&&◌, ◌||◌, not, Option, none, some, String, ◌==◌, string_eq, if◌then◌else◌}
use pacific_coast.Schema.{Field, Ref}
use pacific_coast.Diff.Change.{
  ChangeClass, additive, backfill_required, breaking, ChangeKind, field_not_null_tightened,
  field_not_null_loosened, field_type_changed, field_default_changed, field_unique_added,
  field_unique_removed, field_reference_added, field_reference_removed, field_reference_modified,
  field_serial_added, field_serial_removed, field_backfill_added, field_backfill_removed,
  field_backfill_changed, Payload, nothing, a_type, a_default, a_ref, a_text, Change, Diff, push,
  push_additive,
}
use pacific_coast.Diff.Types.{type_equal, classify_type_change}
use pacific_coast.Diff.Equal.{defaults_equal, refs_equal, ref_action_strengthened}

module _ (id : String) (o n : Field) where
  abbrev pub field_change : ChangeKind → ChangeClass → Payload → Payload → Change
  field_change kind class from to = record {
    kind = kind;
    class = class;
    entity = id;
    field = n.name;
    from = from;
    to = to;
  }

  unfoldable pub diff_type : Diff → Diff
  diff_type d =
      if type_equal o.type n.type
      then d
      else push d (
          field_change field_type_changed (classify_type_change o.type n.type) (a_type o.type)
            (a_type n.type))

  unfoldable pub diff_not_null : Diff → Diff
  diff_not_null d =
      if not o.not_null && n.not_null
      then push d (
          field_change field_not_null_tightened
            (elim n.default [ some v ↦ additive | none ↦ backfill_required ]) nothing nothing)
      else if o.not_null && not n.not_null
      then push_additive d (field_change field_not_null_loosened additive nothing nothing)
      else d

  unfoldable pub diff_unique : Diff → Diff
  diff_unique d =
      if not o.unique && n.unique
      then push d (field_change field_unique_added backfill_required nothing nothing)
      else if o.unique && not n.unique
      then push_additive d (field_change field_unique_removed additive nothing nothing)
      else d

  unfoldable pub diff_default : Diff → Diff
  diff_default d =
      if defaults_equal o.default n.default
      then d
      else push_additive d
          (field_change field_default_changed additive (a_default o.default) (a_default n.default))

  unfoldable pub diff_backfill : Diff → Diff
  diff_backfill d =
      if o.backfill == "" && not (n.backfill == "")
      then push d (field_change field_backfill_added additive nothing (a_text n.backfill))
      else if not (o.backfill == "") && n.backfill == ""
      then push d (field_change field_backfill_removed additive (a_text o.backfill) nothing)
      else if not (o.backfill == "") && not (n.backfill == "") && not (o.backfill == n.backfill)
      then push d
          (field_change field_backfill_changed additive (a_text o.backfill) (a_text n.backfill))
      else d

  unfoldable pub diff_serial : Diff → Diff
  diff_serial d =
      if not o.serial && n.serial
      then push d (field_change field_serial_added backfill_required nothing nothing)
      else if o.serial && not n.serial
      then push d (field_change field_serial_removed backfill_required nothing nothing)
      else d

  -- the class of a reference that changed
  unfoldable pub modified_class : Ref → Ref → ChangeClass
  modified_class a b =
      if not (a.target_id == b.target_id) || not (a.target_field == b.target_field)
      then breaking
      else if ref_action_strengthened a.on_delete b.on_delete
          || ref_action_strengthened a.on_update b.on_update
      then backfill_required
      else additive

  unfoldable pub diff_refs : Option Ref → Option Ref → Diff → Diff
  unfolding modified_class
  diff_refs none none d = d
  diff_refs none (some b) d =
      push d (field_change field_reference_added backfill_required nothing (a_ref b))
  diff_refs (some a) none d =
      push_additive d (field_change field_reference_removed additive (a_ref a) nothing)
  diff_refs (some a) (some b) d =
      if refs_equal (some a) (some b)
      then d
      else push d (field_change field_reference_modified (modified_class a b) (a_ref a) (a_ref b))

  unfoldable pub diff_reference : Diff → Diff
  unfolding diff_refs
  diff_reference = diff_refs o.ref n.ref

  unfoldable pub diff_field : Diff → Diff
  diff_field d =
      diff_reference
        (diff_serial (diff_backfill (diff_default (diff_unique (diff_not_null (diff_type d))))))
