-- ===== src/Diff/Order.antt =====
-- What of a diff does not depend on the order in which Go visits its maps.
use mathlib.Core.Path.{ap₂}
use pacific_coast.Base.{
  false, Option, none, some, List, [], ◌∷◌, ◌++◌, String, string_eq, ◌≡◌, refl, sym, ◌∙◌, ap, arith,
  get, MapOrder, keep, keep-append, range, append-nil,
}
use pacific_coast.Schema.{Entity, Ir, CustomDecl, entity_id}
use pacific_coast.Diff.Change.{
  Change, ChangeKind, breaking, custom_query_added, custom_query_changed, custom_query_removed,
  procedure_added, procedure_changed, procedure_removed,
}
use pacific_coast.Diff.Equal.{index_keys, unique_spec_keys}
use pacific_coast.Diff.Entity.{
  Site, old_entities, new_entities, new_indexes, old_indexes, new_uniques, old_uniques, new_queries,
  old_queries, new_procedures, old_procedures, DiffCtx, merged_names,
}
use pacific_coast.Diff.Compute.{
  DiffOption, no_ctx, apply_options, index_by_id, index_queries, index_procedures, compute_diff,
}
use pacific_coast.Diff.Extend.{in_class}
use pacific_coast.Diff.Classes.{changes_of-compute_diff}
use pacific_coast.Diff.Changes.Entities.{
  index_added_change, index_removed_change, unique_added_change, unique_removed_change, missing,
  table_changes, fields_changes, indexes_changes, uniques_changes, entity_changes, cache_changes,
  timeout_changes,
}
use pacific_coast.Diff.Changes.Whole.{
  decl_changes, present_changes, gone_changes, query_changes, procedure_changes,
  entity_pair_changes, ids_changes, schema_changes,
}
use pacific_coast.Diff.Merged.{merged_names-order}

abbrev breaking_of : List Change → List Change
breaking_of = keep (in_class breaking)

drop_two :
    (t f i u r : List Change)
    → breaking_of i ≡ []
    → breaking_of u ≡ []
    → breaking_of (t ++ (f ++ (i ++ (u ++ r)))) ≡ breaking_of (t ++ (f ++ r))
drop_two t f i u r h k = simp (keep-append, h, k)

drop_right : (xs ys : List Change) → breaking_of ys ≡ [] → breaking_of (xs ++ ys) ≡ breaking_of xs
drop_right xs ys h =
    keep-append (in_class breaking) xs ys
    ∙ ap (λ l. breaking_of xs ++ l) h
    ∙ append-nil (breaking_of xs)

breaking-missing :
    {A B : Type 0} (make : A → Change) (other : List (String × B)) (l : List (String × A))
    → ((x : A) → in_class breaking (make x) ≡ false)
    → breaking_of (missing make other l) ≡ []
unfolding missing
breaking-missing make other [] h = refl
breaking-missing make other ((k, x) ∷ l) h = ground (arith, h x, breaking-missing make other l h)

breaking-present :
    (added changed : ChangeKind) (old l : List (String × CustomDecl))
    → breaking_of (present_changes added changed old l) ≡ []
unfolding present_changes decl_changes
breaking-present added changed old [] = refl
breaking-present added changed old ((id, q) ∷ l) =
    ground (arith, breaking-present added changed old l)

breaking-gone :
    (removed : ChangeKind) (new l : List (String × CustomDecl))
    → breaking_of (gone_changes removed new l) ≡ []
unfolding gone_changes
breaking-gone removed new [] = refl
breaking-gone removed new ((id, q) ∷ l) = ground (arith, breaking-gone removed new l)

nil_both :
    (xs ys : List Change) → breaking_of xs ≡ [] → breaking_of ys ≡ [] → breaking_of (xs ++ ys) ≡ []
nil_both xs ys h k = keep-append (in_class breaking) xs ys ∙ ap (λ l. l ++ breaking_of ys) h ∙ k

module _ (o p : MapOrder Site) (ctx : DiffCtx) where
  fields_changes-order :
      (old new : Entity) → fields_changes o ctx old new ≡ fields_changes p ctx old new
  fields_changes-order old new = rw (merged_names-order o p)

  breaking-indexes :
      (q : MapOrder Site) (old new : Entity) → breaking_of (indexes_changes q ctx old new) ≡ []
  breaking-indexes q old new =
      let id = entity_id new in
      let a = index_keys old.indexes in
      let b = index_keys new.indexes in
      nil_both (missing (index_added_change id) a (range q (new_indexes id) b))
        (missing (index_removed_change id) b (range q (old_indexes id) a))
        (breaking-missing (index_added_change id) a (range q (new_indexes id) b) (λ x. refl))
        (breaking-missing (index_removed_change id) b (range q (old_indexes id) a) (λ x. refl))

  breaking-uniques :
      (q : MapOrder Site) (old new : Entity) → breaking_of (uniques_changes q ctx old new) ≡ []
  breaking-uniques q old new =
      let id = entity_id new in
      let a = unique_spec_keys old.uniques in
      let b = unique_spec_keys new.uniques in
      nil_both (missing (unique_added_change id) a (range q (new_uniques id) b))
        (missing (unique_removed_change id) b (range q (old_uniques id) a))
        (breaking-missing (unique_added_change id) a (range q (new_uniques id) b) (λ x. refl))
        (breaking-missing (unique_removed_change id) b (range q (old_uniques id) a) (λ x. refl))

  breaking-entity :
      (q : MapOrder Site) (old new : Entity)
      → breaking_of (entity_changes q ctx old new)
        ≡ breaking_of (
            table_changes old new
            ++ (fields_changes q ctx old new ++ (cache_changes old new ++ timeout_changes old new)))
  unfolding entity_changes
  breaking-entity q old new =
      drop_two (table_changes old new) (fields_changes q ctx old new)
        (indexes_changes q ctx old new) (uniques_changes q ctx old new) _
        (breaking-indexes q old new) (breaking-uniques q old new)

  breaking-pair :
      (id : String) (a b : Option Entity)
      → breaking_of (entity_pair_changes o ctx id a b)
        ≡ breaking_of (entity_pair_changes p ctx id a b)
  unfolding entity_pair_changes
  breaking-pair id none none = refl
  breaking-pair id none (some b) = refl
  breaking-pair id (some a) none = refl
  breaking-pair id (some a) (some b) =
      breaking-entity o a b
      ∙ ap
          (λ l.
            breaking_of (table_changes a b ++ (l ++ (cache_changes a b ++ timeout_changes a b))))
          (fields_changes-order a b)
      ∙ sym (breaking-entity p a b)

  breaking-ids :
      (a b : List (String × Entity)) (l : List String)
      → breaking_of (ids_changes o ctx a b l) ≡ breaking_of (ids_changes p ctx a b l)
  unfolding ids_changes
  breaking-ids a b [] = refl
  breaking-ids a b (id ∷ l) =
      keep-append (in_class breaking) (entity_pair_changes o ctx id (get a id) (get b id)) _
      ∙ ap₂ ◌++◌ (breaking-pair id (get a id) (get b id)) (breaking-ids a b l)
      ∙ sym (keep-append (in_class breaking) (entity_pair_changes p ctx id (get a id) (get b id)) _)

breaking-schema :
    (q : MapOrder Site) (old new : Option Ir) (opts : List DiffOption)
    → breaking_of (schema_changes q old new opts)
      ≡ breaking_of (
          ids_changes q
            (apply_options no_ctx opts)
            (index_by_id old)
            (index_by_id new)
            (merged_names q old_entities new_entities (index_by_id old) (index_by_id new)))
unfolding schema_changes query_changes procedure_changes
breaking-schema q old new opts =
    drop_right (ids_changes q _ (index_by_id old) (index_by_id new) _)
      (query_changes q old new ++ procedure_changes q old new)
      (nil_both (query_changes q old new) (procedure_changes q old new)
        (nil_both
          (present_changes custom_query_added custom_query_changed a (range q new_queries b))
          (gone_changes custom_query_removed b (range q old_queries a))
          (breaking-present _ _ a (range q new_queries b))
          (breaking-gone _ b (range q old_queries a)))
        (nil_both (present_changes procedure_added procedure_changed c (range q new_procedures e))
          (gone_changes procedure_removed e (range q old_procedures c))
          (breaking-present _ _ c (range q new_procedures e))
          (breaking-gone _ e (range q old_procedures c))))
  where
    a : List (String × CustomDecl)
    a = index_queries old

    b : List (String × CustomDecl)
    b = index_queries new

    c : List (String × CustomDecl)
    c = index_procedures old

    e : List (String × CustomDecl)
    e = index_procedures new

-- The breaking changes, and their order, do not depend on the order in which the maps are visited.
pub breaking_changes-order :
    (o p : MapOrder Site) (old new : Option Ir) (opts : List DiffOption)
    → (compute_diff o old new opts).breaking_changes
      ≡ (compute_diff p old new opts).breaking_changes
breaking_changes-order o p old new opts =
    changes_of-compute_diff o old new opts breaking
    ∙ breaking-schema o old new opts
    ∙ breaking-ids o p (apply_options no_ctx opts) _ _ _
    ∙ ap
        (λ l.
          breaking_of
            (ids_changes p (apply_options no_ctx opts) (index_by_id old) (index_by_id new) l))
        (merged_names-order o p old_entities new_entities (index_by_id old) (index_by_id new))
    ∙ sym (breaking-schema p old new opts)
    ∙ sym (changes_of-compute_diff p old new opts breaking)
