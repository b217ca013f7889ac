-- ===== src/Diff/Empty/Whole.antt =====
-- Two schemas whose diff is empty.
use pacific_coast.Base.{
  true, Option, List, [], ◌∷◌, String, string_eq, nat_eq, ◌≡◌, refl, sym, ◌∙◌, ap, ◌↔◌, arith, get,
  MapOrder, keep, length,
}
use pacific_coast.Schema.{Ir}
use pacific_coast.Diff.Change.{
  additive, backfill_required, breaking, Change, Diff, is_empty, custom_query_added,
  custom_query_changed, custom_query_removed, procedure_added, procedure_changed, procedure_removed,
}
use pacific_coast.Diff.Entity.{
  Site, merged_names, old_entities, new_entities, old_queries, new_queries, old_procedures,
  new_procedures,
}
use pacific_coast.Diff.Compute.{
  DiffOption, no_ctx, apply_options, index_by_id, index_queries, index_procedures, compute_diff,
}
use pacific_coast.Diff.Extend.{in_class}
use pacific_coast.Diff.Classes.{changes_of-compute_diff}
use pacific_coast.Diff.Changes.Whole.{query_changes, procedure_changes, ids_changes, schema_changes}
use pacific_coast.Diff.Empty.Fields.{PairOf, append-nil_iff}
use pacific_coast.Diff.Empty.Maps.{SameDecls, SameDecls-iff}
use pacific_coast.Diff.Empty.Entities.{EntityUnchanged, ids-nil_iff}

-- What the diff compares of a schema.
pub record SchemaUnchanged (o n : Option Ir) : Type 0 where
  pub entities :
      (id : String) → PairOf EntityUnchanged (get (index_by_id o) id) (get (index_by_id n) id)
  pub queries : SameDecls (index_queries o) (index_queries n)
  pub procedures : SameDecls (index_procedures o) (index_procedures n)

module _ (order : MapOrder Site) (old new : Option Ir) (opts : List DiffOption) where
  changes-nil_iff : (schema_changes order old new opts ≡ []) ↔ SchemaUnchanged old new
  unfolding schema_changes query_changes procedure_changes
  changes-nil_iff = (to, from)
    where
      ids_iff :
          (ids_changes order
              (apply_options no_ctx opts)
              (index_by_id old)
              (index_by_id new)
              (merged_names order old_entities new_entities (index_by_id old) (index_by_id new))
            ≡ [])
          ↔ ((id : String)
              → PairOf EntityUnchanged (get (index_by_id old) id) (get (index_by_id new) id))
      ids_iff =
          ids-nil_iff order (apply_options no_ctx opts) (index_by_id old) (index_by_id new)
            old_entities new_entities

      queries_iff :
          (query_changes order old new ≡ []) ↔ SameDecls (index_queries old) (index_queries new)
      queries_iff =
          SameDecls-iff custom_query_added custom_query_changed custom_query_removed order
            new_queries old_queries (index_queries old) (index_queries new)

      procedures_iff :
          (procedure_changes order old new ≡ [])
          ↔ SameDecls (index_procedures old) (index_procedures new)
      procedures_iff =
          SameDecls-iff procedure_added procedure_changed procedure_removed order new_procedures
            old_procedures (index_procedures old) (index_procedures new)

      to : schema_changes order old new opts ≡ [] → SchemaUnchanged old new
      to h =
          let (p, r) =
            (append-nil_iff
                (ids_changes order (apply_options no_ctx opts) (index_by_id old) (index_by_id new) (
                  merged_names order old_entities new_entities (index_by_id old) (index_by_id new)))
                _).0
              h in
          let (q, s) = (append-nil_iff (query_changes order old new) _).0 r in
          record {
            entities = ids_iff.0 p;
            queries = queries_iff.0 q;
            procedures = procedures_iff.0 s;
          }

      from : SchemaUnchanged old new → schema_changes order old new opts ≡ []
      from h = (append-nil_iff _ _).1 (
        ids_iff.1 h.entities,
        (append-nil_iff (query_changes order old new) _).1
            (queries_iff.1 h.queries, procedures_iff.1 h.procedures),
      )

length-nil : (l : List Change) → length l ≡ 0 → l ≡ []
length-nil [] h = refl
length-nil (c ∷ l) h = absurd (omega arith)

keeps-nil :
    (cs : List Change)
    → keep (in_class additive) cs ≡ []
    → keep (in_class backfill_required) cs ≡ []
    → keep (in_class breaking) cs ≡ []
    → cs ≡ []
keeps-nil [] a b c = refl
keeps-nil (x ∷ cs) a b c = ground arith

-- The computed diff is empty exactly if, in both directions and whatever the order of the maps,
-- nothing that it compares has changed: the same entity ids, and of each entity the table name, the
-- fields with their types and modifiers, the keys of the indexes and uniques, the cache and the
-- timeout; and the same queries and procedures.
pub is_empty-compute_diff :
    (order : MapOrder Site) (old new : Option Ir) (opts : List DiffOption)
    → (is_empty (compute_diff order old new opts) ≡ true) ↔ SchemaUnchanged old new
unfolding is_empty
is_empty-compute_diff order old new opts = (to, from)
  where
    d : Diff
    d = compute_diff order old new opts

    cs : List Change
    cs = schema_changes order old new opts

    to : is_empty d ≡ true → SchemaUnchanged old new
    to h = (changes-nil_iff order old new opts).0 (
        keeps-nil cs
          (sym (changes_of-compute_diff order old new opts additive)
            ∙ length-nil d.additive_changes (ground arith))
          (sym (changes_of-compute_diff order old new opts backfill_required)
            ∙ length-nil d.backfill_changes (ground arith))
          (sym (changes_of-compute_diff order old new opts breaking)
            ∙ length-nil d.breaking_changes (ground arith)))

    from : SchemaUnchanged old new → is_empty d ≡ true
    from h =
        let e = (changes-nil_iff order old new opts).1 h in
        ground (
          arith,
          ap length (
              changes_of-compute_diff order old new opts additive
              ∙ ap (keep (in_class additive)) e),
          ap length (
              changes_of-compute_diff order old new opts backfill_required
              ∙ ap (keep (in_class backfill_required)) e),
          ap length (
              changes_of-compute_diff order old new opts breaking
              ∙ ap (keep (in_class breaking)) e),
        )
