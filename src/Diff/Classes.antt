-- ===== src/Diff/Classes.antt =====
-- The lists of a diff and the classes of the changes in them.
use pacific_coast.Base.{
  ℕ, refl, ap, length, ◌⊎◌, inl, inr, All-append, ◌≤◌, true, Option, List, [], ◌∷◌, ◌++◌, ◌≡◌,
  arith, All, keep, MapOrder,
}
use mathlib.Core.List.{Memᴰ}
use pacific_coast.Schema.{Ir}
use pacific_coast.Diff.Change.{
  ChangeClass, additive, backfill_required, breaking, Change, Diff, highest_class, is_empty,
}
use pacific_coast.Diff.Entity.{Site}
use pacific_coast.Diff.Compute.{DiffOption, compute_diff}
use pacific_coast.Diff.Extend.{in_class, changes_of, changes_of-extend}
use pacific_coast.Diff.Changes.Whole.{schema_changes, compute_diff-changes}

pub in_class→class : (k : ChangeClass) (c : Change) → in_class k c ≡ true → c.class ≡ k
in_class→class additive c h = ground arith
in_class→class backfill_required c h = ground arith
in_class→class breaking c h = ground arith

pub in_class_self : (c : Change) → in_class c.class c ≡ true
in_class_self c = ground arith

abbrev HasClass : ChangeClass → List Change → Type 0
HasClass k = All (λ c. c.class ≡ k)

keep-HasClass : (k : ChangeClass) (cs : List Change) → HasClass k (keep (in_class k) cs)
keep-HasClass k [] = tt
keep-HasClass k (c ∷ cs) = ground (arith, in_class→class k c, keep-HasClass k cs)

-- a list of the diff, in terms of the list of all changes
pub changes_of-compute_diff :
    (order : MapOrder Site) (old new : Option Ir) (opts : List DiffOption) (k : ChangeClass)
    → changes_of k (compute_diff order old new opts)
      ≡ keep (in_class k) (schema_changes order old new opts)
changes_of-compute_diff order old new opts additive =
    rw compute_diff-changes (changes_of-extend additive _ _)
changes_of-compute_diff order old new opts backfill_required =
    rw compute_diff-changes (changes_of-extend backfill_required _ _)
changes_of-compute_diff order old new opts breaking =
    rw compute_diff-changes (changes_of-extend breaking _ _)

changes_of-HasClass :
    (order : MapOrder Site) (old new : Option Ir) (opts : List DiffOption) (k : ChangeClass)
    → HasClass k (changes_of k (compute_diff order old new opts))
changes_of-HasClass order old new opts k =
    rw changes_of-compute_diff (keep-HasClass k (schema_changes order old new opts))

-- Whatever the two schemas, the options and the order of the maps: each of the three lists of the
-- diff holds only changes of its own class.
pub compute_diff-classes :
    (order : MapOrder Site) (old new : Option Ir) (opts : List DiffOption)
    → let d = compute_diff order old new opts in
      All (λ c. c.class ≡ additive) d.additive_changes
      × All (λ c. c.class ≡ backfill_required) d.backfill_changes
      × All (λ c. c.class ≡ breaking) d.breaking_changes
compute_diff-classes order old new opts = (
  changes_of-HasClass order old new opts additive,
  changes_of-HasClass order old new opts backfill_required,
  changes_of-HasClass order old new opts breaking,
)

abbrev pub class_rank : ChangeClass → ℕ
class_rank additive = 0
class_rank backfill_required = 1
class_rank breaking = 2

abbrev pub all_changes : Diff → List Change
all_changes d = d.additive_changes ++ (d.backfill_changes ++ d.breaking_changes)

All-le :
    (k top : ChangeClass) (xs : List Change)
    → class_rank k ≤ class_rank top
    → HasClass k xs
    → All (λ c. class_rank c.class ≤ class_rank top) xs
All-le k top [] h a = tt
All-le k top (c ∷ xs) h a = (rw (a.0) h, All-le k top xs h a.1)

-- The class of a diff bounds the class of each change, and some change attains it.
abbrev pub Attains : Diff → Type 0
Attains d =
    All (λ c. class_rank c.class ≤ class_rank (highest_class d)) (all_changes d)
    × ((is_empty d ≡ true) ⊎ ((c : Change) × Memᴰ c (all_changes d) × (c.class ≡ highest_class d)))

pub mem-append_right : {c : Change} (xs ys : List Change) → Memᴰ c ys → Memᴰ c (xs ++ ys)
mem-append_right [] ys m = m
mem-append_right (x ∷ xs) ys m = Memᴰ.tail (mem-append_right xs ys m)

module _ (a b c : List Change) where
  abbrev of_lists : Diff
  of_lists = record { additive_changes = a; backfill_changes = b; breaking_changes = c }

  highest-is_empty : a ≡ [] → b ≡ [] → c ≡ [] → is_empty of_lists ≡ true
  unfolding is_empty
  highest-is_empty ha hb hc = ground (arith, ap length ha, ap length hb, ap length hc)

  highest-additive : b ≡ [] → c ≡ [] → highest_class of_lists ≡ additive
  unfolding highest_class
  highest-additive hb hc = ground (arith, ap length hb, ap length hc)

  highest-backfill :
      (x : Change) (t : List Change)
      → b ≡ x ∷ t
      → c ≡ []
      → highest_class of_lists ≡ backfill_required
  unfolding highest_class
  highest-backfill x t hb hc = ground (arith, ap length hb, ap length hc)

  highest-breaking : (x : Change) (t : List Change) → c ≡ x ∷ t → highest_class of_lists ≡ breaking
  unfolding highest_class
  highest-breaking x t hc = ground (arith, ap length hc)

lists-Attains :
    (a b c : List Change)
    → HasClass additive a
    → HasClass backfill_required b
    → HasClass breaking c
    → Attains (of_lists a b c)
unfolding highest_class
lists-Attains a b (x ∷ c) ha hb hc = rw (highest-breaking a b (x ∷ c) x c refl) (
  All-append _ a (b ++ x ∷ c) (All-le additive breaking a (omega arith) ha) (
      All-append _ b (x ∷ c) (All-le backfill_required breaking b (omega arith) hb)
        (All-le breaking breaking (x ∷ c) (omega arith) hc)),
  inr (x, mem-append_right a _ (mem-append_right b _ (Memᴰ.head refl)), hc.0),
)
lists-Attains a (x ∷ b) [] ha hb hc = rw (highest-backfill a (x ∷ b) [] x b refl refl) (
  All-append _ a ((x ∷ b) ++ []) (All-le additive backfill_required a (omega arith) ha) (
      All-append _ (x ∷ b) [] (All-le backfill_required backfill_required (x ∷ b) (omega arith) hb)
        tt),
  inr (x, mem-append_right a _ (Memᴰ.head refl), hb.0),
)
lists-Attains (x ∷ a) [] [] ha hb hc = rw (highest-additive (x ∷ a) [] [] refl refl) (
  All-append _ (x ∷ a) [] (All-le additive additive (x ∷ a) (omega arith) ha) tt,
  inr (x, Memᴰ.head refl, ha.0),
)
lists-Attains [] [] [] ha hb hc = (tt, inl (highest-is_empty [] [] [] refl refl refl))

-- HighestClass of a computed diff is at least the class of every change in it, and is the class of
-- one of them, unless there is no change.
pub highest_class-compute_diff :
    (order : MapOrder Site) (old new : Option Ir) (opts : List DiffOption)
    → Attains (compute_diff order old new opts)
highest_class-compute_diff order old new opts =
    let (a, b, c) = compute_diff-classes order old new opts in lists-Attains _ _ _ a b c
