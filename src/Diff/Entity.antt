-- ===== src/Diff/Entity.antt =====
-- The parts of an entity's diff, internal/codegen/diff.go: the table name, the fields, the indexes, the
-- composite uniques, the cache and the query timeout.
use pacific_coast.Base.{
  contains, Bool, false, not, Option, none, some, List, [], ◌∷◌, String, ◌==◌, nat_eq, string_eq,
  if◌then◌else◌, ◌++◌, get, put, has, cat, MapOrder, range, range_keys, sort_strings,
}
use pacific_coast.Schema.{Entity, Field, Index, UniqueSpec, entity_id, Ref}
use pacific_coast.Diff.Change.{
  ChangeClass, additive, backfill_required, breaking, ChangeKind, entity_table_changed, field_added,
  field_removed, field_reference_added, index_added, index_removed, composite_unique_added,
  composite_unique_removed, cache_changed, query_timeout_changed, Payload, nothing, a_field, a_ref,
  an_index, a_unique, a_cache, a_text, a_number, Change, Diff, push, push_additive, push_breaking,
}
use pacific_coast.Diff.Equal.{cache_equal, index_keys, unique_spec_keys}
use pacific_coast.Diff.Field.{diff_field}

-- The range statements of the diff; those of an entity carry its id.
pub data Site : Type 0 where
  old_entities new_entities : Site
  old_fields new_fields old_indexes new_indexes old_uniques new_uniques : String → Site
  old_queries new_queries old_procedures new_procedures : Site

-- Who submits the schema, who owns which entity, and what other callers refer to.
pub record DiffCtx : Type 0 where
  pub submitting_caller : String
  pub entity_ownership : List (String × String)
  pub cross_caller_refs : List (String × Bool)

abbrev is_submitter : Option String → String → Bool
is_submitter none caller = false
is_submitter (some owner) caller = owner == caller

abbrev is_set : Option Bool → Bool
is_set none = false
is_set (some b) = b

unfoldable pub classify_removal : DiffCtx → String → String → ChangeClass
classify_removal ctx entity ref_key =
    if ctx.submitting_caller == ""
    then breaking
    else if not (is_submitter (get ctx.entity_ownership entity) ctx.submitting_caller)
    then breaking
    else if is_set (get ctx.cross_caller_refs ref_key)
    then breaking
    else additive

unfoldable pub add_unseen : List String → List String → List String
add_unseen out [] = out
add_unseen out (k ∷ ks) = add_unseen (if contains out k then out else out ++ k ∷ []) ks

unfoldable pub fields_by_name_into : List (String × Field) → List Field → List (String × Field)
fields_by_name_into out [] = out
fields_by_name_into out (f ∷ fs) = fields_by_name_into (put out f.name f) fs

unfoldable pub fields_by_name : Entity → List (String × Field)
unfolding fields_by_name_into
fields_by_name e = fields_by_name_into [] e.fields

abbrev pub entity_change : ChangeKind → ChangeClass → String → String → Payload → Payload → Change
entity_change kind class id field from to = record {
  kind = kind;
  class = class;
  entity = id;
  field = field;
  from = from;
  to = to;
}

unfoldable pub diff_table_name : Entity → Entity → Diff → Diff
diff_table_name old new d =
    if old.table_name == new.table_name
    then d
    else push_breaking d (
        entity_change entity_table_changed breaking (entity_id new) "" (a_text old.table_name)
          (a_text new.table_name))

unfoldable pub diff_cache : Entity → Entity → Diff → Diff
diff_cache old new d =
    if cache_equal old.cache new.cache
    then d
    else push_additive d (
        entity_change cache_changed additive (entity_id new) "" (a_cache old.cache)
          (a_cache new.cache))

unfoldable pub diff_query_timeout : Entity → Entity → Diff → Diff
diff_query_timeout old new d =
    if old.query_timeout_ms == new.query_timeout_ms
    then d
    else push_additive d (
        entity_change query_timeout_changed additive (entity_id new) ""
          (a_number old.query_timeout_ms) (a_number new.query_timeout_ms))

-- the two loops of diffIndexes
unfoldable pub added_indexes : String → List (String × Index) → List (String × Index) → Diff → Diff
added_indexes id old [] d = d
added_indexes id old ((k, idx) ∷ l) d = added_indexes id old l (
    if has old k
    then d
    else push_additive d (entity_change index_added additive id "" nothing (an_index idx)))

unfoldable pub removed_indexes :
    String → List (String × Index) → List (String × Index) → Diff → Diff
removed_indexes id new [] d = d
removed_indexes id new ((k, idx) ∷ l) d = removed_indexes id new l (
    if has new k
    then d
    else push_additive d (entity_change index_removed additive id "" (an_index idx) nothing))

-- the two loops of diffUniques
unfoldable pub added_uniques :
    String → List (String × UniqueSpec) → List (String × UniqueSpec) → Diff → Diff
added_uniques id old [] d = d
added_uniques id old ((k, u) ∷ l) d = added_uniques id old l (
    if has old k
    then d
    else push d (entity_change composite_unique_added backfill_required id "" nothing (a_unique u)))

unfoldable pub removed_uniques :
    String → List (String × UniqueSpec) → List (String × UniqueSpec) → Diff → Diff
removed_uniques id new [] d = d
removed_uniques id new ((k, u) ∷ l) d = removed_uniques id new l (
    if has new k
    then d
    else push_additive d
        (entity_change composite_unique_removed additive id "" (a_unique u) nothing))

-- the reference of a field that is new
unfoldable pub added_reference : String → String → Option Ref → Diff → Diff
added_reference id name none d = d
added_reference id name (some r) d =
    push_additive d (entity_change field_reference_added additive id name nothing (a_ref r))

-- a field that is new is backfill-required if it is NOT NULL and has no DEFAULT
unfoldable pub added_class : Field → ChangeClass
added_class f = elim f.default [
  | some v ↦ additive
  | none ↦ if f.not_null then backfill_required else additive
]

-- the `switch` of diffFields, on the field of each schema
unfoldable pub diff_field_pair :
    DiffCtx → String → String → Option Field → Option Field → Diff → Diff
unfolding added_reference
diff_field_pair ctx id name none none d = d
diff_field_pair ctx id name (some o) none d = push d (
    entity_change field_removed (classify_removal ctx id (cat id (cat "." name))) id name
      (a_field o) nothing)
diff_field_pair ctx id name none (some n) d =
    added_reference id name n.ref
      (push d (entity_change field_added (added_class n) id name nothing (a_field n)))
diff_field_pair ctx id name (some o) (some n) d = diff_field id o n d

unfoldable pub diff_names :
    DiffCtx → String → List (String × Field) → List (String × Field) → List String → Diff → Diff
diff_names ctx id old new [] d = d
diff_names ctx id old new (name ∷ l) d =
    diff_names ctx id old new l (diff_field_pair ctx id name (get old name) (get new name) d)

module _ (order : MapOrder Site) where
  -- mergedNames, at the two sites of its loops
  unfoldable pub merged_names {ℓ} :
      {V : Type ℓ} → Site → Site → List (String × V) → List (String × V) → List String
  merged_names s t a b =
      sort_strings (add_unseen (add_unseen [] (range_keys order s a)) (range_keys order t b))

  unfoldable pub diff_fields : DiffCtx → Entity → Entity → Diff → Diff
  diff_fields ctx old new d =
      let id = entity_id new in
      let a = fields_by_name old in
      let b = fields_by_name new in
      diff_names ctx id a b (merged_names (old_fields id) (new_fields id) a b) d

  unfoldable pub diff_indexes : Entity → Entity → Diff → Diff
  diff_indexes old new d =
      let id = entity_id new in
      let a = index_keys old.indexes in
      let b = index_keys new.indexes in
      removed_indexes id b (range order (old_indexes id) a)
        (added_indexes id a (range order (new_indexes id) b) d)

  unfoldable pub diff_uniques : Entity → Entity → Diff → Diff
  diff_uniques old new d =
      let id = entity_id new in
      let a = unique_spec_keys old.uniques in
      let b = unique_spec_keys new.uniques in
      removed_uniques id b (range order (old_uniques id) a)
        (added_uniques id a (range order (new_uniques id) b) d)

  unfoldable pub diff_entity : DiffCtx → Entity → Entity → Diff → Diff
  diff_entity ctx old new d = diff_query_timeout old new (
      diff_cache old new (
        diff_uniques old new
          (diff_indexes old new (diff_fields ctx old new (diff_table_name old new d)))))
