-- ===== src/Diff/Changes/Whole.antt =====
-- All the changes between two schemas, as one list: ComputeDiff extends the empty diff by it.
use pacific_coast.Base.{
  string_eq, not, Option, none, some, List, [], ◌∷◌, ◌++◌, String, ◌≡◌, refl, arith, sym, ◌∙◌, ap,
  get, has, MapOrder, range,
}
use pacific_coast.Schema.{Entity, CustomDecl, Ir}
use pacific_coast.Diff.Change.{
  additive, ChangeKind, entity_added, entity_removed, custom_query_added, custom_query_removed,
  custom_query_changed, procedure_added, procedure_removed, procedure_changed, nothing, an_entity,
  Change, Diff, empty_diff, push,
}
use pacific_coast.Diff.Entity.{
  Site, old_entities, new_entities, old_queries, new_queries, old_procedures, new_procedures,
  DiffCtx, classify_removal, entity_change, merged_names,
}
use pacific_coast.Diff.Compute.{
  DiffOption, no_ctx, apply_options, index_by_id, index_queries, index_procedures,
  decl_content_equal, decl_change, diff_decl, present_decls, removed_decls, diff_custom_decls,
  diff_entity_pair, diff_ids, compute_diff,
}
use pacific_coast.Diff.Extend.{extend, extend-append}
use pacific_coast.Diff.Changes.Fields.{when}
use pacific_coast.Diff.Changes.Entities.{entity_changes, diff_entity-changes}

module _ (added changed : ChangeKind) where
  unfoldable pub decl_changes : String → Option CustomDecl → CustomDecl → List Change
  decl_changes id none q = decl_change added id ∷ []
  decl_changes id (some old) q = when (not (decl_content_equal old q)) (decl_change changed id)

  unfoldable pub present_changes :
      List (String × CustomDecl) → List (String × CustomDecl) → List Change
  present_changes old [] = []
  present_changes old ((id, q) ∷ l) = decl_changes id (get old id) q ++ present_changes old l

  diff_decl-changes :
      (id : String) (o : Option CustomDecl) (q : CustomDecl) (d : Diff)
      → diff_decl added changed id o q d ≡ extend d (decl_changes id o q)
  unfolding diff_decl decl_changes extend push
  diff_decl-changes id none q d = refl
  diff_decl-changes id (some old) q d = ground arith

  present_decls-changes :
      (old l : List (String × CustomDecl)) (d : Diff)
      → present_decls added changed old l d ≡ extend d (present_changes old l)
  unfolding present_decls present_changes extend
  present_decls-changes old [] d = refl
  present_decls-changes old ((id, q) ∷ l) d =
      present_decls-changes old l _
      ∙ ap (λ e. extend e (present_changes old l)) (diff_decl-changes id (get old id) q d)
      ∙ sym (extend-append d (decl_changes id (get old id) q) (present_changes old l))

-- One change for each old declaration that is gone.
unfoldable pub gone_changes :
    ChangeKind → List (String × CustomDecl) → List (String × CustomDecl) → List Change
gone_changes removed new [] = []
gone_changes removed new ((id, q) ∷ l) =
    when (not (has new id)) (decl_change removed id) ++ gone_changes removed new l

removed_decls-changes :
    (removed : ChangeKind) (new l : List (String × CustomDecl)) (d : Diff)
    → removed_decls removed new l d ≡ extend d (gone_changes removed new l)
unfolding removed_decls gone_changes extend push
removed_decls-changes removed new [] d = refl
removed_decls-changes removed new ((id, q) ∷ l) d = ground (
  arith,
  removed_decls-changes removed new l d,
  removed_decls-changes removed new l (push d (decl_change removed id)),
)

module _ (order : MapOrder Site) where
  module _ (old new : Option Ir) where
    unfoldable pub query_changes : List Change
    query_changes =
        present_changes custom_query_added custom_query_changed (index_queries old)
          (range order new_queries (index_queries new))
        ++ gone_changes custom_query_removed (index_queries new)
            (range order old_queries (index_queries old))

    unfoldable pub procedure_changes : List Change
    procedure_changes =
        present_changes procedure_added procedure_changed (index_procedures old)
          (range order new_procedures (index_procedures new))
        ++ gone_changes procedure_removed (index_procedures new)
            (range order old_procedures (index_procedures old))

  unfoldable pub entity_pair_changes :
      DiffCtx → String → Option Entity → Option Entity → List Change
  entity_pair_changes ctx id none none = []
  entity_pair_changes ctx id (some old) none =
      entity_change entity_removed (classify_removal ctx id id) id "" (an_entity old) nothing ∷ []
  entity_pair_changes ctx id none (some new) =
      entity_change entity_added additive id "" nothing (an_entity new) ∷ []
  entity_pair_changes ctx id (some old) (some new) = entity_changes order ctx old new

  unfoldable pub ids_changes :
      DiffCtx → List (String × Entity) → List (String × Entity) → List String → List Change
  ids_changes ctx old new [] = []
  ids_changes ctx old new (id ∷ l) =
      entity_pair_changes ctx id (get old id) (get new id) ++ ids_changes ctx old new l

  diff_entity_pair-changes :
      (ctx : DiffCtx) (id : String) (o n : Option Entity) (d : Diff)
      → diff_entity_pair order ctx id o n d ≡ extend d (entity_pair_changes ctx id o n)
  unfolding diff_entity_pair entity_pair_changes extend push
  diff_entity_pair-changes ctx id none none d = refl
  diff_entity_pair-changes ctx id (some o) none d = refl
  diff_entity_pair-changes ctx id none (some n) d = refl
  diff_entity_pair-changes ctx id (some o) (some n) d = diff_entity-changes order ctx o n d

  diff_ids-changes :
      (ctx : DiffCtx) (old new : List (String × Entity)) (l : List String) (d : Diff)
      → diff_ids order ctx old new l d ≡ extend d (ids_changes ctx old new l)
  unfolding diff_ids ids_changes extend
  diff_ids-changes ctx old new [] d = refl
  diff_ids-changes ctx old new (id ∷ l) d =
      diff_ids-changes ctx old new l _
      ∙ ap (λ e. extend e (ids_changes ctx old new l))
          (diff_entity_pair-changes ctx id (get old id) (get new id) d)
      ∙ sym (
          extend-append d (entity_pair_changes ctx id (get old id) (get new id))
            (ids_changes ctx old new l))

  unfoldable pub schema_changes : Option Ir → Option Ir → List DiffOption → List Change
  schema_changes old new opts =
      ids_changes (apply_options no_ctx opts) (index_by_id old) (index_by_id new)
        (merged_names order old_entities new_entities (index_by_id old) (index_by_id new))
      ++ (query_changes old new ++ procedure_changes old new)

  pub compute_diff-changes :
      (old new : Option Ir) (opts : List DiffOption)
      → compute_diff order old new opts ≡ extend empty_diff (schema_changes old new opts)
  unfolding compute_diff diff_custom_decls schema_changes query_changes procedure_changes
  compute_diff-changes old new opts =
      simp (extend-append, diff_ids-changes, present_decls-changes, removed_decls-changes)
