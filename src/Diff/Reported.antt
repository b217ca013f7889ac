-- ===== src/Diff/Reported.antt =====
-- Where a change of an entity or of a field goes in the computed diff.
use mathlib.Core.List.{Memᴰ}
use pacific_coast.Base.{
  contains, keep-cons, keep-skip, true, ◌||◌, Option, some, List, [], ◌∷◌, ◌++◌, String, ◌==◌,
  string_eq, ◌≡◌, refl, sym, ◌∙◌, ap, arith, ◌≢◌, get, has, ==→≡, MapOrder, keep, Bool-cases, inl,
  inr, length,
}
use pacific_coast.Schema.{Entity, Field, Ir, entity_id}
use pacific_coast.Diff.Change.{ChangeClass, additive, breaking, Change, Diff, highest_class}
use pacific_coast.Diff.Entity.{
  Site, DiffCtx, fields_by_name, old_fields, new_fields, old_entities, new_entities,
}
use pacific_coast.Diff.Compute.{DiffOption, no_ctx, apply_options, index_by_id, compute_diff}
use pacific_coast.Diff.Extend.{in_class, changes_of}
use pacific_coast.Diff.Classes.{in_class_self, changes_of-compute_diff, mem-append_right}
use pacific_coast.Diff.Names.{contains-merged_names}
use pacific_coast.Diff.Changes.Entities.{
  field_pair_changes, names_changes, table_changes, entity_changes,
}
use pacific_coast.Diff.Changes.Whole.{entity_pair_changes, ids_changes, schema_changes}

mem-append_left : {c : Change} {xs : List Change} (ys : List Change) → Memᴰ c xs → Memᴰ c (xs ++ ys)
mem-append_left ys (Memᴰ.head e) = Memᴰ.head e
mem-append_left ys (Memᴰ.tail m) = Memᴰ.tail (mem-append_left ys m)

abbrev keep_in : ChangeClass → List Change → List Change
keep_in k = keep (in_class k)

keep-cons_in :
    (k : ChangeClass) (c x : Change) (xs : List Change)
    → in_class k c ≡ true
    → c ≡ x
    → Memᴰ c (keep_in k (x ∷ xs))
keep-cons_in k c x xs h e =
    rw (keep-cons (in_class k) xs (sym (ap (in_class k) e) ∙ h)) (Memᴰ.head e)

keep-mem :
    (k : ChangeClass) {c : Change} {xs : List Change}
    → in_class k c ≡ true
    → Memᴰ c xs
    → Memᴰ c (keep_in k xs)
keep-mem k {c} h (Memᴰ.head {x = x} {xs = xs} e) = keep-cons_in k c x xs h e
keep-mem k {c} h (Memᴰ.tail {x = x} {xs = xs} m) = elim (Bool-cases (in_class k x)) [
  | inl t ↦ rw (keep-cons (in_class k) xs t) (Memᴰ.tail (keep-mem k h m))
  | inr f ↦ rw (keep-skip (in_class k) xs f) (keep-mem k h m)
]

module _ (order : MapOrder Site) (old new : Option Ir) (opts : List DiffOption) where
  -- A change among all changes is in the list of its class.
  pub reported :
      (c : Change)
      → Memᴰ c (schema_changes order old new opts)
      → Memᴰ c (changes_of c.class (compute_diff order old new opts))
  reported c m =
      rw (changes_of-compute_diff order old new opts c.class) (keep-mem c.class (in_class_self c) m)

ids_changes-mem :
    (order : MapOrder Site) (ctx : DiffCtx) (a b : List (String × Entity)) (id : String)
    (l : List String) {c : Change}
    → contains l id ≡ true
    → Memᴰ c (entity_pair_changes order ctx id (get a id) (get b id))
    → Memᴰ c (ids_changes order ctx a b l)
unfolding ids_changes
ids_changes-mem order ctx a b id [] h m = cc
ids_changes-mem order ctx a b id (j ∷ l) h m = elim (Bool-cases (j == id)) [
  | inl e ↦
      mem-append_left {xs = entity_pair_changes order ctx j (get a j) (get b j)} _
        (rw (==→≡ j id e) m)
  | inr n ↦
      mem-append_right (entity_pair_changes order ctx j (get a j) (get b j)) _
        (ids_changes-mem order ctx a b id l (ground arith) m)
]

names_changes-mem :
    (ctx : DiffCtx) (id : String) (a b : List (String × Field)) (name : String) (l : List String)
    {c : Change}
    → contains l name ≡ true
    → Memᴰ c (field_pair_changes ctx id name (get a name) (get b name))
    → Memᴰ c (names_changes ctx id a b l)
unfolding names_changes
names_changes-mem ctx id a b name [] h m = cc
names_changes-mem ctx id a b name (j ∷ l) h m = elim (Bool-cases (j == name)) [
  | inl e ↦
      mem-append_left {xs = field_pair_changes ctx id j (get a j) (get b j)} _
        (rw (==→≡ j name e) m)
  | inr n ↦
      mem-append_right (field_pair_changes ctx id j (get a j) (get b j)) _
        (names_changes-mem ctx id a b name l (ground arith) m)
]

module _ (order : MapOrder Site) (old new : Option Ir) (opts : List DiffOption) (id : String) where
  abbrev pub ctx_of : List DiffOption → DiffCtx
  ctx_of = apply_options no_ctx

  -- What is reported of an entity that the old or the new schema has is in the diff.
  pub entity_reported :
      (c : Change)
      → (has (index_by_id old) id || has (index_by_id new) id) ≡ true
      → Memᴰ c (
          entity_pair_changes order
            (apply_options no_ctx opts)
            id
            (get (index_by_id old) id)
            (get (index_by_id new) id))
      → Memᴰ c (changes_of c.class (compute_diff order old new opts))
  unfolding schema_changes
  entity_reported c h m = reported order old new opts c (
      mem-append_left _ (
        ids_changes-mem order _ _ _ id _
          (contains-merged_names id order old_entities new_entities (index_by_id old)
              (index_by_id new)
            ∙ h)
          m))

  -- So is what is reported of a field of an entity that both have.
  pub field_reported :
      (c : Change) {o n : Entity} (name : String)
      → get (index_by_id old) id ≡ some o
      → get (index_by_id new) id ≡ some n
      → (has (fields_by_name o) name || has (fields_by_name n) name) ≡ true
      → Memᴰ c (
          field_pair_changes
            (apply_options no_ctx opts)
            (entity_id n)
            name
            (get (fields_by_name o) name)
            (get (fields_by_name n) name))
      → Memᴰ c (changes_of c.class (compute_diff order old new opts))
  unfolding entity_pair_changes entity_changes
  field_reported c {o} {n} name ho hn h m = entity_reported c (ground arith) (
      rw (ho, hn)
        (mem-append_right (table_changes o n) _ (
          mem-append_left _ (
            names_changes-mem _ _ _ _ name _
              (contains-merged_names name order (old_fields (entity_id n))
                  (new_fields (entity_id n)) (fields_by_name o) (fields_by_name n)
                ∙ h)
              m))))

-- A change on the list of breaking changes makes the class of the diff breaking.
pub highest_class-breaking :
    (d : Diff) (c : Change) → Memᴰ c d.breaking_changes → highest_class d ≡ breaking
unfolding highest_class
highest_class-breaking d c m = go d.breaking_changes refl m
  where
    go : (l : List Change) → d.breaking_changes ≡ l → Memᴰ c l → highest_class d ≡ breaking
    go [] e n = elim n [ ]
    go (x ∷ l) e n = ground (arith, ap length e)

-- A change that is not additive keeps the diff from being additive.
pub highest_class-ne-additive :
    (d : Diff) (c : Change) → Memᴰ c d.backfill_changes → highest_class d ≢ additive
unfolding highest_class
highest_class-ne-additive d c m = go d.backfill_changes refl m
  where
    go : (l : List Change) → d.backfill_changes ≡ l → Memᴰ c l → highest_class d ≢ additive
    go [] e n = elim n [ ]
    go (x ∷ l) e n = ground (arith, ap length e)
