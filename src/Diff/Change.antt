-- ===== src/Diff/Change.antt =====
-- Changes and diffs, internal/codegen/diff.go: a change, its class, and the three lists of a diff.
-- The text `Detail`, which is for people, is left out.
use pacific_coast.Base.{
  ℕ, ◌+◌, Bool, List, [], ◌∷◌, ◌++◌, Option, String, ◌==◌, nat_eq, length, if◌then◌else◌, ltb,
}
use pacific_coast.Schema.{Entity, Field, FieldType, DefaultValue, Ref, UniqueSpec, Index, Cache}

pub data ChangeClass : Type 0 where
  additive backfill_required breaking : ChangeClass

pub data ChangeKind : Type 0 where
  entity_added entity_removed entity_table_changed : ChangeKind
  field_added field_removed field_not_null_tightened field_not_null_loosened : ChangeKind
  field_type_changed field_default_changed field_unique_added field_unique_removed : ChangeKind
  field_reference_added field_reference_removed field_reference_modified : ChangeKind
  index_added index_removed composite_unique_added composite_unique_removed : ChangeKind
  field_serial_added field_serial_removed : ChangeKind
  field_backfill_added field_backfill_removed field_backfill_changed : ChangeKind
  cache_changed query_timeout_changed : ChangeKind
  custom_query_added custom_query_removed custom_query_changed : ChangeKind
  procedure_added procedure_removed procedure_changed : ChangeKind

-- What `From` and `To` hold.
pub data Payload : Type 0 where
  nothing : Payload
  an_entity : Entity → Payload
  a_field : Field → Payload
  a_type : FieldType → Payload
  a_default : Option DefaultValue → Payload
  a_ref : Ref → Payload
  a_unique : UniqueSpec → Payload
  an_index : Index → Payload
  a_cache : Option Cache → Payload
  a_text : String → Payload
  a_number : ℕ → Payload

pub record Change : Type 0 where
  pub kind : ChangeKind
  pub class : ChangeClass
  pub entity : String
  pub field : String
  pub from : Payload
  pub to : Payload

pub record Diff : Type 0 where
  pub additive_changes : List Change
  pub backfill_changes : List Change
  pub breaking_changes : List Change

abbrev pub empty_diff : Diff
empty_diff = record { additive_changes = []; backfill_changes = []; breaking_changes = [] }

unfoldable pub is_empty : Diff → Bool
is_empty d = length d.additive_changes + length d.backfill_changes + length d.breaking_changes == 0

unfoldable pub highest_class : Diff → ChangeClass
highest_class d =
    if ltb 0 (length d.breaking_changes)
    then breaking
    else if ltb 0 (length d.backfill_changes)
    then backfill_required
    else additive

-- d.Additive = append(d.Additive, c), whatever the class of c
unfoldable pub push_additive : Diff → Change → Diff
push_additive d c = record d { additive_changes = d.additive_changes ++ c ∷ [] }

-- d.Breaking = append(d.Breaking, c)
unfoldable pub push_breaking : Diff → Change → Diff
push_breaking d c = record d { breaking_changes = d.breaking_changes ++ c ∷ [] }

push_by : ChangeClass → Diff → Change → Diff
unfolding push_additive push_breaking
push_by additive d c = push_additive d c
push_by backfill_required d c = record d { backfill_changes = d.backfill_changes ++ c ∷ [] }
push_by breaking d c = push_breaking d c

-- the method `append`: the list is chosen by the class
unfoldable pub push : Diff → Change → Diff
unfolding push_by
push d c = push_by c.class d c
