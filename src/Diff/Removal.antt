-- ===== src/Diff/Removal.antt =====
-- What keeps a diff from being applied automatically: removals that others may notice, and required
-- columns without a default.
use mathlib.Core.List.{Memᴰ}
use pacific_coast.Base.{
  Bool, true, false, Option, none, some, List, String, ◌==◌, string_eq, ◌≡◌, refl, ◌≢◌, ap, arith,
  get, MapOrder, Bool-cases, inl, inr, Option-cases, cat, ==→≡, ==_refl,
}
use text.Mathlib.TextEquality.{eq_iff}
use pacific_coast.Schema.{Entity, Field, Ir, entity_id}
use pacific_coast.Diff.Change.{
  ChangeClass, additive, backfill_required, breaking, highest_class, entity_removed, field_removed,
  field_added, nothing, an_entity, a_field,
}
use pacific_coast.Diff.Entity.{
  Site, DiffCtx, classify_removal, entity_change, fields_by_name, added_class,
}
use pacific_coast.Diff.Compute.{DiffOption, no_ctx, apply_options, index_by_id, compute_diff}
use pacific_coast.Diff.Reported.{
  entity_reported, field_reported, highest_class-breaking, highest_class-ne-additive,
}
use pacific_coast.Diff.Changes.Entities.{field_pair_changes}
use pacific_coast.Diff.Changes.Whole.{entity_pair_changes}

-- The submitting caller is named, owns the entity, and no other caller refers to the key.
pub record IsSoleOwner (ctx : DiffCtx) (entity ref_key : String) : Type 0 where
  pub named : ctx.submitting_caller ≢ ""
  pub owner : get ctx.entity_ownership entity ≡ some ctx.submitting_caller
  pub unreferenced : get ctx.cross_caller_refs ref_key ≢ some true

abbrev is_breaking : ChangeClass → Bool
is_breaking breaking = true
is_breaking _ = false

module _ (ctx : DiffCtx) (entity ref_key : String) where
  pub classify_removal-additive :
      IsSoleOwner ctx entity ref_key → classify_removal ctx entity ref_key ≡ additive
  unfolding classify_removal
  classify_removal-additive h = ground (
    arith,
    eq_iff ctx.submitting_caller "",
    ==_refl ctx.submitting_caller,
    h.named,
    h.owner,
    h.unreferenced,
  )

  sole-owner_of_additive :
      classify_removal ctx entity ref_key ≢ breaking → IsSoleOwner ctx entity ref_key
  unfolding classify_removal
  sole-owner_of_additive h = record {
    named = λ e. h (ground (arith, (eq_iff ctx.submitting_caller "").1 e));
    owner = elim (Option-cases (get ctx.entity_ownership entity)) [
      | inl e ↦ absurd (h (ground (arith, e)))
      | inr (w, e) ↦ elim (Bool-cases (w == ctx.submitting_caller)) [
        | inl t ↦ ground (arith, e, ==→≡ w ctx.submitting_caller t)
        | inr f ↦ absurd (h (ground (arith, e, f)))
      ]
    ];
    unreferenced = λ e. h (ground (arith, e));
  }

  pub classify_removal-breaking :
      ¬ IsSoleOwner ctx entity ref_key → classify_removal ctx entity ref_key ≡ breaking
  unfolding classify_removal
  classify_removal-breaking h =
      elim (Bool-cases (is_breaking (classify_removal ctx entity ref_key))) [
        | inl t ↦ ground arith
        | inr f ↦ absurd (h (sole-owner_of_additive (λ e. cc (f, ap is_breaking e))))
      ]

module _ (order : MapOrder Site) (old new : Option Ir) (opts : List DiffOption) (id : String) where
  -- Without sole ownership, to drop an entity makes the whole diff cross-caller-breaking.
  pub removed_entity-breaking :
      (e : Entity)
      → get (index_by_id old) id ≡ some e
      → get (index_by_id new) id ≡ none
      → ¬ IsSoleOwner (apply_options no_ctx opts) id id
      → highest_class (compute_diff order old new opts) ≡ breaking
  unfolding entity_pair_changes
  removed_entity-breaking e ho hn h =
      highest_class-breaking _ (entity_change entity_removed breaking id "" (an_entity e) nothing) (
        entity_reported order old new opts id _ (ground (arith, ho))
          (rw (ho, hn, classify_removal-breaking _ id id h) (Memᴰ.head refl)))

  -- The sole owner of an entity that nobody else refers to may drop it: the change is additive.
  pub removed_entity-additive :
      (e : Entity)
      → get (index_by_id old) id ≡ some e
      → get (index_by_id new) id ≡ none
      → IsSoleOwner (apply_options no_ctx opts) id id
      → Memᴰ
          (entity_change entity_removed additive id "" (an_entity e) nothing)
          (compute_diff order old new opts).additive_changes
  unfolding entity_pair_changes
  removed_entity-additive e ho hn h =
      entity_reported order old new opts id
        (entity_change entity_removed additive id "" (an_entity e) nothing) (ground (arith, ho))
        (rw (ho, hn, classify_removal-additive _ id id h) (Memᴰ.head refl))

  -- To drop a field without sole ownership of it makes the diff cross-caller-breaking.
  pub removed_field-breaking :
      (o n : Entity) (name : String) (f : Field)
      → get (index_by_id old) id ≡ some o
      → get (index_by_id new) id ≡ some n
      → get (fields_by_name o) name ≡ some f
      → get (fields_by_name n) name ≡ none
      → ¬ IsSoleOwner (apply_options no_ctx opts) (entity_id n) (cat (entity_id n) (cat "." name))
      → highest_class (compute_diff order old new opts) ≡ breaking
  unfolding field_pair_changes
  removed_field-breaking o n name f ho hn fo fn h =
      highest_class-breaking _
        (entity_change field_removed breaking (entity_id n) name (a_field f) nothing)
        (field_reported order old new opts id _ name ho hn (ground (arith, fo))
          (rw (fo, fn, classify_removal-breaking _ (entity_id n) _ h) (Memᴰ.head refl)))

  -- A new NOT NULL field without a default, in an entity that exists, is never applied as additive.
  pub required_field-ne-additive :
      (o n : Entity) (name : String) (f : Field)
      → get (index_by_id old) id ≡ some o
      → get (index_by_id new) id ≡ some n
      → get (fields_by_name o) name ≡ none
      → get (fields_by_name n) name ≡ some f
      → f.not_null ≡ true
      → f.default ≡ none
      → highest_class (compute_diff order old new opts) ≢ additive
  unfolding field_pair_changes added_class
  required_field-ne-additive o n name f ho hn fo fn r nd =
      highest_class-ne-additive _
        (entity_change field_added backfill_required (entity_id n) name nothing (a_field f))
        (field_reported order old new opts id _ name ho hn (ground (arith, fn))
          (rw (fo, fn) (Memᴰ.head (ground (arith, r, nd)))))
