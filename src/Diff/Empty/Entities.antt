-- ===== src/Diff/Empty/Entities.antt =====
-- An entity with no change.
use pacific_coast.Base.{
  contains, true, false, ◌||◌, Option, none, some, List, [], ◌∷◌, String, ◌==◌, string_eq, nat_eq,
  ◌≡◌, refl, ◌∙◌, ◌↔◌, arith, Bool-cases, inl, inr, ==→≡, get, has, MapOrder,
}
use text.Mathlib.TextEquality.{eq_iff}
use pacific_coast.Schema.{Entity, Field, entity_id}
use pacific_coast.Diff.Equal.{cache_equal, index_keys, unique_spec_keys}
use pacific_coast.Diff.Entity.{
  Site, DiffCtx, fields_by_name, merged_names, old_fields, new_fields, old_indexes, new_indexes,
  old_uniques, new_uniques,
}
use pacific_coast.Diff.Names.{contains-merged_names}
use pacific_coast.Diff.Changes.Entities.{
  table_changes, cache_changes, timeout_changes, field_pair_changes, names_changes, fields_changes,
  indexes_changes, uniques_changes, entity_changes, index_added_change, index_removed_change,
  unique_added_change, unique_removed_change,
}
use pacific_coast.Diff.Changes.Whole.{entity_pair_changes, ids_changes}
use pacific_coast.Diff.Empty.Fields.{PairOf, FieldUnchanged, append-nil_iff, field_changes-nil_iff}
use pacific_coast.Diff.Empty.Maps.{SameKeys, SameKeys-iff}

-- What the diff compares of an entity; the order of fields, indexes and uniques does not count.
pub record EntityUnchanged (o n : Entity) : Type 0 where
  pub table_name : o.table_name ≡ n.table_name
  pub fields :
      (name : String)
      → PairOf FieldUnchanged (get (fields_by_name o) name) (get (fields_by_name n) name)
  pub indexes : SameKeys (index_keys o.indexes) (index_keys n.indexes)
  pub uniques : SameKeys (unique_spec_keys o.uniques) (unique_spec_keys n.uniques)
  pub cache : cache_equal o.cache n.cache ≡ true
  pub timeout : o.query_timeout_ms ≡ n.query_timeout_ms

module _ (ctx : DiffCtx) (id : String) where
  pub field_pair-nil_iff :
      (name : String) (o n : Option Field)
      → (field_pair_changes ctx id name o n ≡ []) ↔ PairOf FieldUnchanged o n
  unfolding field_pair_changes
  field_pair-nil_iff name none none = (λ h. tt, λ h. refl)
  field_pair-nil_iff name none (some n) = (λ h. cc, λ h. absurd h)
  field_pair-nil_iff name (some o) none = (λ h. cc, λ h. absurd h)
  field_pair-nil_iff name (some o) (some n) = field_changes-nil_iff id o n

  module _ (a b : List (String × Field)) where
    names-nil→ :
        (l : List String) (name : String)
        → names_changes ctx id a b l ≡ []
        → contains l name ≡ true
        → field_pair_changes ctx id name (get a name) (get b name) ≡ []
    unfolding names_changes
    names-nil→ [] name h c = cc
    names-nil→ (j ∷ l) name h c =
        let (p, q) = (append-nil_iff (field_pair_changes ctx id j (get a j) (get b j)) _).0 h in
        elim (Bool-cases (j == name)) [
          | inl e ↦ rw (==→≡ j name e) at p
          | inr n ↦ names-nil→ l name q (ground arith)
        ]

    names-nil← :
        (l : List String)
        → ((name : String) → field_pair_changes ctx id name (get a name) (get b name) ≡ [])
        → names_changes ctx id a b l ≡ []
    unfolding names_changes
    names-nil← [] h = refl
    names-nil← (j ∷ l) h = (append-nil_iff _ _).1 (h j, names-nil← l h)

    absent_pair :
        (name : String)
        → (has a name || has b name) ≡ false
        → field_pair_changes ctx id name (get a name) (get b name) ≡ []
    unfolding field_pair_changes
    absent_pair name h = ground arith

    -- The loop over the merged names reports nothing exactly if every field is unchanged.
    names-nil_iff :
        (order : MapOrder Site) (s t : Site)
        → (names_changes ctx id a b (merged_names order s t a b) ≡ [])
          ↔ ((name : String) → PairOf FieldUnchanged (get a name) (get b name))
    names-nil_iff order s t = (
      λ h name.
          (field_pair-nil_iff name (get a name) (get b name)).0
            (elim (Bool-cases (has a name || has b name)) [
              | inl p ↦
                  names-nil→ (merged_names order s t a b) name h
                    (contains-merged_names name order s t a b ∙ p)
              | inr q ↦ absent_pair name q
            ]),
      λ h.
          names-nil← (merged_names order s t a b)
            (λ name. (field_pair-nil_iff name (get a name) (get b name)).1 (h name)),
    )

module _ (order : MapOrder Site) (ctx : DiffCtx) where
  pub table-nil_iff : (o n : Entity) → (table_changes o n ≡ []) ↔ (o.table_name ≡ n.table_name)
  table-nil_iff o n = ground (arith, eq_iff o.table_name n.table_name)

  pub cache-nil_iff :
      (o n : Entity) → (cache_changes o n ≡ []) ↔ (cache_equal o.cache n.cache ≡ true)
  cache-nil_iff o n = ground arith

  pub timeout-nil_iff :
      (o n : Entity) → (timeout_changes o n ≡ []) ↔ (o.query_timeout_ms ≡ n.query_timeout_ms)
  timeout-nil_iff o n = ground arith

  pub entity-nil_iff : (o n : Entity) → (entity_changes order ctx o n ≡ []) ↔ EntityUnchanged o n
  unfolding entity_changes
  entity-nil_iff o n = (to, from)
    where
      id : String
      id = entity_id n

      fields_iff : (fields_changes order ctx o n ≡ []) ↔ (
          (name : String)
          → PairOf FieldUnchanged (get (fields_by_name o) name) (get (fields_by_name n) name))
      fields_iff =
          names-nil_iff ctx id (fields_by_name o) (fields_by_name n) order (old_fields id)
            (new_fields id)

      indexes_iff :
          (indexes_changes order ctx o n ≡ [])
          ↔ SameKeys (index_keys o.indexes) (index_keys n.indexes)
      indexes_iff =
          SameKeys-iff (index_removed_change id) (index_added_change id) order (new_indexes id)
            (old_indexes id) (index_keys o.indexes) (index_keys n.indexes)

      uniques_iff :
          (uniques_changes order ctx o n ≡ [])
          ↔ SameKeys (unique_spec_keys o.uniques) (unique_spec_keys n.uniques)
      uniques_iff =
          SameKeys-iff (unique_removed_change id) (unique_added_change id) order (new_uniques id)
            (old_uniques id) (unique_spec_keys o.uniques) (unique_spec_keys n.uniques)

      to : entity_changes order ctx o n ≡ [] → EntityUnchanged o n
      to h =
          let (p, rp) = (append-nil_iff (table_changes o n) _).0 h in
          let (q, rq) = (append-nil_iff (fields_changes order ctx o n) _).0 rp in
          let (r, rr) = (append-nil_iff (indexes_changes order ctx o n) _).0 rq in
          let (s, rs) = (append-nil_iff (uniques_changes order ctx o n) _).0 rr in
          let (t, u) = (append-nil_iff (cache_changes o n) _).0 rs in
          record {
            table_name = (table-nil_iff o n).0 p;
            fields = fields_iff.0 q;
            indexes = indexes_iff.0 r;
            uniques = uniques_iff.0 s;
            cache = (cache-nil_iff o n).0 t;
            timeout = (timeout-nil_iff o n).0 u;
          }

      from : EntityUnchanged o n → entity_changes order ctx o n ≡ []
      from h = (append-nil_iff (table_changes o n) _).1 (
        (table-nil_iff o n).1 h.table_name,
        (append-nil_iff (fields_changes order ctx o n) _).1 (
          fields_iff.1 h.fields,
          (append-nil_iff (indexes_changes order ctx o n) _).1 (
            indexes_iff.1 h.indexes,
            (append-nil_iff (uniques_changes order ctx o n) _).1 (
              uniques_iff.1 h.uniques,
              (append-nil_iff (cache_changes o n) _).1
                  ((cache-nil_iff o n).1 h.cache, (timeout-nil_iff o n).1 h.timeout),
            ),
          ),
        ),
      )

  pub entity_pair-nil_iff :
      (id : String) (o n : Option Entity)
      → (entity_pair_changes order ctx id o n ≡ []) ↔ PairOf EntityUnchanged o n
  unfolding entity_pair_changes
  entity_pair-nil_iff id none none = (λ h. tt, λ h. refl)
  entity_pair-nil_iff id none (some n) = (λ h. cc, λ h. absurd h)
  entity_pair-nil_iff id (some o) none = (λ h. cc, λ h. absurd h)
  entity_pair-nil_iff id (some o) (some n) = entity-nil_iff o n

  module _ (a b : List (String × Entity)) where
    ids-nil→ :
        (l : List String) (id : String)
        → ids_changes order ctx a b l ≡ []
        → contains l id ≡ true
        → entity_pair_changes order ctx id (get a id) (get b id) ≡ []
    unfolding ids_changes
    ids-nil→ [] id h c = cc
    ids-nil→ (j ∷ l) id h c =
        let (p, q) = (append-nil_iff (entity_pair_changes order ctx j (get a j) (get b j)) _).0 h in
        elim (Bool-cases (j == id)) [
          | inl e ↦ rw (==→≡ j id e) at p
          | inr n ↦ ids-nil→ l id q (ground arith)
        ]

    ids-nil← :
        (l : List String)
        → ((id : String) → entity_pair_changes order ctx id (get a id) (get b id) ≡ [])
        → ids_changes order ctx a b l ≡ []
    unfolding ids_changes
    ids-nil← [] h = refl
    ids-nil← (j ∷ l) h = (append-nil_iff _ _).1 (h j, ids-nil← l h)

    absent_entity :
        (id : String)
        → (has a id || has b id) ≡ false
        → entity_pair_changes order ctx id (get a id) (get b id) ≡ []
    unfolding entity_pair_changes
    absent_entity id h = ground arith

    pub ids-nil_iff :
        (s t : Site)
        → (ids_changes order ctx a b (merged_names order s t a b) ≡ [])
          ↔ ((id : String) → PairOf EntityUnchanged (get a id) (get b id))
    ids-nil_iff s t = (
      λ h id.
          (entity_pair-nil_iff id (get a id) (get b id)).0
            (elim (Bool-cases (has a id || has b id)) [
              | inl p ↦
                  ids-nil→ (merged_names order s t a b) id h
                    (contains-merged_names id order s t a b ∙ p)
              | inr q ↦ absent_entity id q
            ]),
      λ h.
          ids-nil← (merged_names order s t a b)
            (λ id. (entity_pair-nil_iff id (get a id) (get b id)).1 (h id)),
    )
