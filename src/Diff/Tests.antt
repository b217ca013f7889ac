-- ===== src/Diff/Tests.antt =====
-- Small schemas, what the diff says of them, and the theorems at them.
use mathlib.Core.List.{Memᴰ, reverse, reverse_perm}
use mathlib.Core.List.Perm
use pacific_coast.Base.{
  ℕ, Bool, true, false, Option, none, some, List, [], ◌∷◌, String, ◌≡◌, refl, ◌≢◌, ◌↔◌, arith,
  MapOrder, range, range_keys, sort_strings, text_leb, ℤ,
}
use pacific_coast.Schema.{no_elem, Field, Entity, entity_id, regular, Ir, decl_id}
use pacific_coast.Diff.Change.{
  additive, backfill_required, breaking, is_empty, highest_class, push, push_additive,
  push_breaking, entity_removed, nothing, an_entity,
}
use pacific_coast.Diff.Types.{type_equal, classify_type_change}
use pacific_coast.Diff.Equal.{defaults_equal, refs_equal, cache_equal, index_keys, unique_spec_keys}
use pacific_coast.Diff.Field.{
  diff_type, diff_not_null, diff_unique, diff_default, diff_backfill, diff_serial, diff_reference,
  diff_field,
}
use pacific_coast.Diff.Entity.{
  Site, classify_removal, add_unseen, fields_by_name, entity_change, diff_table_name, diff_cache,
  diff_query_timeout, added_indexes, removed_indexes, added_uniques, removed_uniques, added_class,
  diff_field_pair, diff_names, merged_names, diff_fields, diff_indexes, diff_uniques, diff_entity,
}
use pacific_coast.Diff.Compute.{
  DiffOption, with_caller_context, apply_options, index_by_id, index_queries, index_procedures,
  diff_decl, present_decls, removed_decls, diff_custom_decls, diff_entity_pair, diff_ids,
  compute_diff,
}
use pacific_coast.Diff.Classes.{Attains, highest_class-compute_diff}
use pacific_coast.Diff.Removal.{
  removed_entity-breaking, removed_entity-additive, required_field-ne-additive,
}
use pacific_coast.Diff.Empty.{SchemaUnchanged, is_empty-compute_diff}
use pacific_coast.Diff.Order.{breaking_changes-order}
use pacific_coast.Diff.Storage.{
  named, varchar, numeric, array_of, smallint, int, FitsInt, FitsNumeric, classify-int,
  classify-numeric_rescale, classify-array_narrowing,
}

abbrev as_listed : MapOrder Site
as_listed = record { enumerate = λ s keys. keys; enumerate_perm = λ s keys. Perm.refl keys }

abbrev backwards : MapOrder Site
backwards = record {
  enumerate = λ s keys. reverse keys;
  enumerate_perm = λ s keys. reverse_perm keys;
}

abbrev plain_field : String → Bool → Field
plain_field name not_null = record {
  name = name;
  type = no_elem (named "text");
  primary = false;
  identity = false;
  serial = false;
  not_null = not_null;
  unique = false;
  check = "";
  backfill = "";
  default = none;
  ref = none;
  proto_number = 0;
}

abbrev entity_with : String → List Field → Entity
entity_with name fields = record {
  name = name;
  namespace = "shop";
  kind = regular;
  time_field = "";
  fields = fields;
  indexes = [];
  relations = [];
  uniques = [];
  checks = [];
  cache = none;
  query_timeout_ms = 0;
  composite_pk = [];
  soft_delete_field = "";
  touch_on_update_field = "";
  partition_field = "";
  ttl_field = "";
  table_name = "";
  retired_proto_numbers = [];
}

abbrev schema_with : List Entity → Option Ir
schema_with es =
    some (record { version = 1; entities = es; queries = []; procedures = []; jobs = [] })

abbrev order_entity : Entity
order_entity = entity_with "Order" (plain_field "id" true ∷ plain_field "note" false ∷ [])

abbrev order_trimmed : Entity
order_trimmed = entity_with "Order" (plain_field "id" true ∷ [])

abbrev item_entity : Entity
item_entity = entity_with "Item" (plain_field "id" true ∷ [])

abbrev both : Option Ir
both = schema_with (order_entity ∷ item_entity ∷ [])

abbrev orders_only : Option Ir
orders_only = schema_with (order_entity ∷ [])

abbrev trimmed_only : Option Ir
trimmed_only = schema_with (order_trimmed ∷ [])

abbrev owned : List DiffOption
owned = with_caller_context "web" (("shop.Item", "web") ∷ []) [] ∷ []

program : Unit {0}
unfolding compute_diff diff_custom_decls present_decls removed_decls diff_decl diff_ids
    diff_entity_pair diff_entity diff_fields diff_indexes diff_uniques diff_names diff_field_pair
    diff_field diff_type diff_not_null diff_unique diff_default diff_backfill diff_serial
    diff_reference diff_table_name diff_cache diff_query_timeout added_indexes removed_indexes
    added_uniques removed_uniques merged_names add_unseen fields_by_name added_class
    classify_removal index_by_id index_queries index_procedures apply_options with_caller_context
    index_keys unique_spec_keys type_equal defaults_equal refs_equal cache_equal push push_additive
    push_breaking entity_id decl_id range range_keys sort_strings text_leb highest_class is_empty
    classify_type_change
program = tt

dropped_item_is_breaking : highest_class (compute_diff as_listed both orders_only []) ≡ breaking
unfolding program
dropped_item_is_breaking = refl

owned_item_is_additive : highest_class (compute_diff as_listed both orders_only owned) ≡ additive
unfolding program
owned_item_is_additive = refl

required_note :
    highest_class (
      compute_diff as_listed trimmed_only
        (schema_with
          (entity_with "Order" (plain_field "id" true ∷ plain_field "note" true ∷ []) ∷ []))
        [])
    ≡ backfill_required
unfolding program
required_note = refl

is_empty-compute_diff_example :
    (is_empty (compute_diff backwards both both owned) ≡ true) ↔ SchemaUnchanged both both
is_empty-compute_diff_example = is_empty-compute_diff backwards both both owned

highest_class-compute_diff_example : Attains (compute_diff as_listed both trimmed_only owned)
highest_class-compute_diff_example = highest_class-compute_diff as_listed both trimmed_only owned

removed_entity-breaking_example :
    highest_class (compute_diff as_listed both orders_only []) ≡ breaking
unfolding program
removed_entity-breaking_example =
    removed_entity-breaking as_listed both orders_only [] "shop.Item" item_entity refl refl
      (λ h. h.named refl)

removed_entity-additive_example :
    Memᴰ
      (entity_change entity_removed additive "shop.Item" "" (an_entity item_entity) nothing)
      (compute_diff as_listed both orders_only owned).additive_changes
unfolding program
removed_entity-additive_example =
    removed_entity-additive as_listed both orders_only owned "shop.Item" item_entity refl refl
      (record { named = λ e. cc; owner = refl; unreferenced = λ e. cc })

required_field-ne-additive_example :
    highest_class (
      compute_diff as_listed trimmed_only
        (schema_with (entity_with "Order" (plain_field "note" true ∷ []) ∷ []))
        [])
    ≢ additive
unfolding program
required_field-ne-additive_example =
    required_field-ne-additive as_listed trimmed_only
      (schema_with (entity_with "Order" (plain_field "note" true ∷ []) ∷ [])) [] "shop.Order"
      order_trimmed (entity_with "Order" (plain_field "note" true ∷ [])) "note"
      (plain_field "note" true) refl refl refl refl refl refl

breaking_changes-order_example :
    (compute_diff as_listed both trimmed_only []).breaking_changes
    ≡ (compute_diff backwards both trimmed_only []).breaking_changes
breaking_changes-order_example = breaking_changes-order as_listed backwards both trimmed_only []

classify-int_example :
    (classify_type_change (no_elem (named "int")) (no_elem (named "smallint")) ≡ additive)
    ↔ ((v : ℤ) → FitsInt int v → FitsInt smallint v)
classify-int_example = classify-int int smallint

classify-numeric_rescale_example :
    (classify_type_change (no_elem (numeric 5 0)) (no_elem (numeric 5 2)) ≡ additive)
    × ((v : ℕ) × FitsNumeric 5 0 v × ¬ FitsNumeric 5 2 v)
classify-numeric_rescale_example = classify-numeric_rescale 5 0 2 (omega arith) (omega arith)

classify-array_narrowing_example :
    (classify_type_change (array_of (varchar 20)) (array_of (varchar 10)) ≡ additive)
    × (classify_type_change (no_elem (varchar 20)) (no_elem (varchar 10)) ≡ backfill_required)
classify-array_narrowing_example = classify-array_narrowing 20 10 (omega arith) (omega arith)
