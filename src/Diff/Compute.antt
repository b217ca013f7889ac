-- ===== src/Diff/Compute.antt =====
-- ComputeDiff of internal/codegen/diff.go: the entities of both schemas in the order of their ids, then
-- the custom queries and procedures.
use pacific_coast.Base.{
  Bool, ◌&&◌, Option, none, some, List, [], ◌∷◌, String, ◌==◌, string_eq, if◌then◌else◌, get, put,
  has, MapOrder, range,
}
use pacific_coast.Schema.{Entity, entity_id, CustomDecl, decl_id, Ir}
use pacific_coast.Diff.Change.{
  additive, ChangeKind, entity_added, entity_removed, custom_query_added, custom_query_removed,
  custom_query_changed, procedure_added, procedure_removed, procedure_changed, nothing, an_entity,
  Change, Diff, empty_diff, push, push_additive,
}
use pacific_coast.Diff.Entity.{
  Site, old_entities, new_entities, old_queries, new_queries, old_procedures, new_procedures,
  DiffCtx, classify_removal, entity_change, merged_names, diff_entity,
}

abbrev pub DiffOption : Type 0
DiffOption = DiffCtx → DiffCtx

unfoldable pub with_caller_context :
    String → List (String × String) → List (String × Bool) → DiffOption
with_caller_context caller ownership refs c = record c {
  submitting_caller = caller;
  entity_ownership = ownership;
  cross_caller_refs = refs;
}

abbrev pub no_ctx : DiffCtx
no_ctx = record { submitting_caller = ""; entity_ownership = []; cross_caller_refs = [] }

unfoldable pub apply_options : DiffCtx → List DiffOption → DiffCtx
apply_options ctx [] = ctx
apply_options ctx (o ∷ l) = apply_options (o ctx) l

unfoldable pub index_by_id_into : List (String × Entity) → List Entity → List (String × Entity)
index_by_id_into out [] = out
index_by_id_into out (e ∷ l) = index_by_id_into (put out (entity_id e) e) l

unfoldable pub index_by_id : Option Ir → List (String × Entity)
unfolding index_by_id_into
index_by_id none = []
index_by_id (some ir) = index_by_id_into [] ir.entities

unfoldable pub index_decls :
    List (String × CustomDecl) → List CustomDecl → List (String × CustomDecl)
index_decls out [] = out
index_decls out (q ∷ l) = index_decls (put out (decl_id q) q) l

unfoldable pub index_queries : Option Ir → List (String × CustomDecl)
unfolding index_decls
index_queries none = []
index_queries (some ir) = index_decls [] ir.queries

unfoldable pub index_procedures : Option Ir → List (String × CustomDecl)
unfolding index_decls
index_procedures none = []
index_procedures (some ir) = index_decls [] ir.procedures

-- equal but for the source path
unfoldable pub decl_content_equal : CustomDecl → CustomDecl → Bool
decl_content_equal a b = a.name == b.name && a.owner == b.owner && a.body == b.body

abbrev pub decl_change : ChangeKind → String → Change
decl_change kind id = entity_change kind additive id "" nothing nothing

unfoldable pub diff_decl :
    ChangeKind → ChangeKind → String → Option CustomDecl → CustomDecl → Diff → Diff
diff_decl added changed id none q d = push_additive d (decl_change added id)
diff_decl added changed id (some old) q d =
    if decl_content_equal old q then d else push_additive d (decl_change changed id)

-- a loop over the new declarations
unfoldable pub present_decls :
    ChangeKind → ChangeKind → List (String × CustomDecl) → List (String × CustomDecl) → Diff → Diff
present_decls added changed old [] d = d
present_decls added changed old ((id, q) ∷ l) d =
    present_decls added changed old l (diff_decl added changed id (get old id) q d)

-- a loop over the old declarations
unfoldable pub removed_decls :
    ChangeKind → List (String × CustomDecl) → List (String × CustomDecl) → Diff → Diff
removed_decls removed new [] d = d
removed_decls removed new ((id, q) ∷ l) d =
    removed_decls removed new l (if has new id then d else push_additive d (decl_change removed id))

module _ (order : MapOrder Site) where
  unfoldable pub diff_custom_decls : Option Ir → Option Ir → Diff → Diff
  diff_custom_decls old new d =
      let a = index_queries old in
      let b = index_queries new in
      let p = index_procedures old in
      let q = index_procedures new in
      removed_decls procedure_removed q (range order old_procedures p) (
        present_decls procedure_added procedure_changed p (range order new_procedures q) (
          removed_decls custom_query_removed b (range order old_queries a) (
            present_decls custom_query_added custom_query_changed a (range order new_queries b) d)))

  -- the `switch` of ComputeDiff; `default` is reached with the entity on both sides
  unfoldable pub diff_entity_pair : DiffCtx → String → Option Entity → Option Entity → Diff → Diff
  diff_entity_pair ctx id none none d = d
  diff_entity_pair ctx id (some old) none d =
      push d
        (entity_change entity_removed (classify_removal ctx id id) id "" (an_entity old) nothing)
  diff_entity_pair ctx id none (some new) d =
      push_additive d (entity_change entity_added additive id "" nothing (an_entity new))
  diff_entity_pair ctx id (some old) (some new) d = diff_entity order ctx old new d

  unfoldable pub diff_ids :
      DiffCtx → List (String × Entity) → List (String × Entity) → List String → Diff → Diff
  diff_ids ctx old new [] d = d
  diff_ids ctx old new (id ∷ l) d =
      diff_ids ctx old new l (diff_entity_pair ctx id (get old id) (get new id) d)

  unfoldable pub compute_diff : Option Ir → Option Ir → List DiffOption → Diff
  compute_diff old new opts =
      let ctx = apply_options no_ctx opts in
      let a = index_by_id old in
      let b = index_by_id new in
      diff_custom_decls old new
        (diff_ids ctx a b (merged_names order old_entities new_entities a b) empty_diff)
