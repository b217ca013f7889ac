-- ===== src/Diff/Changes/Entities.antt =====
-- The changes of an entity that both schemas have, as one list.
use pacific_coast.Base.{
  not, Option, none, some, List, [], ◌∷◌, ◌++◌, String, ◌==◌, nat_eq, string_eq, ◌≡◌, refl, arith,
  sym, ◌∙◌, ap, get, has, cat, MapOrder, range,
}
use pacific_coast.Schema.{Entity, Field, Index, UniqueSpec, entity_id, Ref}
use pacific_coast.Diff.Change.{
  additive, backfill_required, breaking, entity_table_changed, field_added, field_removed,
  field_reference_added, index_added, index_removed, composite_unique_added,
  composite_unique_removed, cache_changed, query_timeout_changed, nothing, a_field, a_ref, an_index,
  a_unique, a_cache, a_text, a_number, Change, Diff, push,
}
use pacific_coast.Diff.Equal.{cache_equal, index_keys, unique_spec_keys}
use pacific_coast.Diff.Entity.{
  Site, old_fields, new_fields, old_indexes, new_indexes, old_uniques, new_uniques, DiffCtx,
  classify_removal, fields_by_name, entity_change, diff_table_name, diff_cache, diff_query_timeout,
  added_indexes, removed_indexes, added_uniques, removed_uniques, added_reference, added_class,
  diff_field_pair, diff_names, merged_names, diff_fields, diff_indexes, diff_uniques, diff_entity,
}
use pacific_coast.Diff.Extend.{extend, extend-append}
use pacific_coast.Diff.Changes.Fields.{when, field_changes, diff_field-changes}

module _ (old new : Entity) where
  abbrev pub table_changes : List Change
  table_changes = when (not (old.table_name == new.table_name)) (
      entity_change entity_table_changed breaking (entity_id new) "" (a_text old.table_name)
        (a_text new.table_name))

  abbrev pub cache_changes : List Change
  cache_changes = when (not (cache_equal old.cache new.cache)) (
      entity_change cache_changed additive (entity_id new) "" (a_cache old.cache)
        (a_cache new.cache))

  abbrev pub timeout_changes : List Change
  timeout_changes = when (not (old.query_timeout_ms == new.query_timeout_ms)) (
      entity_change query_timeout_changed additive (entity_id new) ""
        (a_number old.query_timeout_ms) (a_number new.query_timeout_ms))

  diff_table_name-changes : (d : Diff) → diff_table_name old new d ≡ extend d table_changes
  unfolding diff_table_name extend push
  diff_table_name-changes d = ground arith

  diff_cache-changes : (d : Diff) → diff_cache old new d ≡ extend d cache_changes
  unfolding diff_cache extend push
  diff_cache-changes d = ground arith

  diff_query_timeout-changes : (d : Diff) → diff_query_timeout old new d ≡ extend d timeout_changes
  unfolding diff_query_timeout extend push
  diff_query_timeout-changes d = ground arith

module _ {ℓ} {V : Type ℓ} (make : V → Change) where
  -- One change for each entry whose key the other map does not have.
  unfoldable pub missing {κ} : {W : Type κ} → List (String × W) → List (String × V) → List Change
  missing other [] = []
  missing other ((k, v) ∷ l) = when (not (has other k)) (make v) ++ missing other l

module _ (id : String) where
  abbrev pub index_added_change : Index → Change
  index_added_change x = entity_change index_added additive id "" nothing (an_index x)

  abbrev pub index_removed_change : Index → Change
  index_removed_change x = entity_change index_removed additive id "" (an_index x) nothing

  abbrev pub unique_added_change : UniqueSpec → Change
  unique_added_change u =
      entity_change composite_unique_added backfill_required id "" nothing (a_unique u)

  abbrev pub unique_removed_change : UniqueSpec → Change
  unique_removed_change u =
      entity_change composite_unique_removed additive id "" (a_unique u) nothing

  added_indexes-changes :
      (old l : List (String × Index)) (d : Diff)
      → added_indexes id old l d ≡ extend d (missing index_added_change old l)
  unfolding added_indexes extend missing push
  added_indexes-changes old [] d = refl
  added_indexes-changes old ((k, x) ∷ l) d = ground (
    arith,
    added_indexes-changes old l d,
    added_indexes-changes old l (push d (index_added_change x)),
  )

  removed_indexes-changes :
      (new l : List (String × Index)) (d : Diff)
      → removed_indexes id new l d ≡ extend d (missing index_removed_change new l)
  unfolding removed_indexes extend missing push
  removed_indexes-changes new [] d = refl
  removed_indexes-changes new ((k, x) ∷ l) d = ground (
    arith,
    removed_indexes-changes new l d,
    removed_indexes-changes new l (push d (index_removed_change x)),
  )

  added_uniques-changes :
      (old l : List (String × UniqueSpec)) (d : Diff)
      → added_uniques id old l d ≡ extend d (missing unique_added_change old l)
  unfolding added_uniques extend missing
  added_uniques-changes old [] d = refl
  added_uniques-changes old ((k, u) ∷ l) d = ground (
    arith,
    added_uniques-changes old l d,
    added_uniques-changes old l (push d (unique_added_change u)),
  )

  removed_uniques-changes :
      (new l : List (String × UniqueSpec)) (d : Diff)
      → removed_uniques id new l d ≡ extend d (missing unique_removed_change new l)
  unfolding removed_uniques extend missing push
  removed_uniques-changes new [] d = refl
  removed_uniques-changes new ((k, u) ∷ l) d = ground (
    arith,
    removed_uniques-changes new l d,
    removed_uniques-changes new l (push d (unique_removed_change u)),
  )

module _ (ctx : DiffCtx) (id : String) where
  abbrev reference_changes : String → Option Ref → List Change
  reference_changes name none = []
  reference_changes name (some r) =
      entity_change field_reference_added additive id name nothing (a_ref r) ∷ []

  unfoldable pub field_pair_changes : String → Option Field → Option Field → List Change
  field_pair_changes name none none = []
  field_pair_changes name (some o) none =
      entity_change field_removed (classify_removal ctx id (cat id (cat "." name))) id name
        (a_field o) nothing
      ∷ []
  field_pair_changes name none (some n) =
      entity_change field_added (added_class n) id name nothing (a_field n)
      ∷ reference_changes name n.ref
  field_pair_changes name (some o) (some n) = field_changes id o n

  unfoldable pub names_changes :
      List (String × Field) → List (String × Field) → List String → List Change
  names_changes old new [] = []
  names_changes old new (name ∷ l) =
      field_pair_changes name (get old name) (get new name) ++ names_changes old new l

  added_reference-changes :
      (name : String) (r : Option Ref) (d : Diff)
      → added_reference id name r d ≡ extend d (reference_changes name r)
  unfolding added_reference extend push
  added_reference-changes name none d = refl
  added_reference-changes name (some r) d = refl

  diff_field_pair-changes :
      (name : String) (o n : Option Field) (d : Diff)
      → diff_field_pair ctx id name o n d ≡ extend d (field_pair_changes name o n)
  unfolding diff_field_pair field_pair_changes extend
  diff_field_pair-changes name none none d = refl
  diff_field_pair-changes name (some o) none d = refl
  diff_field_pair-changes name none (some n) d = added_reference-changes name n.ref _
  diff_field_pair-changes name (some o) (some n) d = diff_field-changes id o n d

  diff_names-changes :
      (old new : List (String × Field)) (l : List String) (d : Diff)
      → diff_names ctx id old new l d ≡ extend d (names_changes old new l)
  unfolding diff_names names_changes extend
  diff_names-changes old new [] d = refl
  diff_names-changes old new (name ∷ l) d =
      diff_names-changes old new l _
      ∙ ap (λ e. extend e (names_changes old new l))
          (diff_field_pair-changes name (get old name) (get new name) d)
      ∙ sym (
          extend-append d (field_pair_changes name (get old name) (get new name))
            (names_changes old new l))

module _ (order : MapOrder Site) (ctx : DiffCtx) (old new : Entity) where
  abbrev id : String
  id = entity_id new

  abbrev pub fields_changes : List Change
  fields_changes =
      names_changes ctx id (fields_by_name old) (fields_by_name new) (
        merged_names order (old_fields id) (new_fields id) (fields_by_name old)
          (fields_by_name new))

  abbrev pub indexes_changes : List Change
  indexes_changes =
      missing (index_added_change id) (index_keys old.indexes)
        (range order (new_indexes id) (index_keys new.indexes))
      ++ missing (index_removed_change id) (index_keys new.indexes)
          (range order (old_indexes id) (index_keys old.indexes))

  abbrev pub uniques_changes : List Change
  uniques_changes =
      missing (unique_added_change id) (unique_spec_keys old.uniques)
        (range order (new_uniques id) (unique_spec_keys new.uniques))
      ++ missing (unique_removed_change id) (unique_spec_keys new.uniques)
          (range order (old_uniques id) (unique_spec_keys old.uniques))

  unfoldable pub entity_changes : List Change
  entity_changes =
      table_changes old new
      ++ (fields_changes
          ++ (indexes_changes
              ++ (uniques_changes ++ (cache_changes old new ++ timeout_changes old new))))

  pub diff_entity-changes : (d : Diff) → diff_entity order ctx old new d ≡ extend d entity_changes
  unfolding diff_entity diff_fields diff_indexes diff_uniques entity_changes
  diff_entity-changes d = simp (
    extend-append, diff_table_name-changes, diff_names-changes, added_indexes-changes,
    removed_indexes-changes, added_uniques-changes, removed_uniques-changes, diff_cache-changes,
    diff_query_timeout-changes,
  )
