-- ===== src/Diff/Empty/Maps.antt =====
-- Loops over maps that report nothing.
use pacific_coast.Base.{
  contains, Bool, true, not, Option, none, some, List, [], ◌∷◌, ◌++◌, String, ◌==◌, string_eq, ◌≡◌,
  refl, sym, ◌∙◌, ap, ◌↔◌, arith, Bool-cases, Option-cases, inl, inr, ==→≡, get, has, MapOrder,
  map_keys, entries, range,
}
use mathlib.Core.Path.{subst₂}
use pacific_coast.Schema.{CustomDecl}
use pacific_coast.Diff.Change.{ChangeKind, Change}
use pacific_coast.Diff.Entity.{Site}
use pacific_coast.Diff.Compute.{decl_content_equal, decl_change}
use pacific_coast.Diff.Names.{contains-perm, contains-map_keys}
use pacific_coast.Diff.Changes.Fields.{when}
use pacific_coast.Diff.Changes.Entities.{missing}
use pacific_coast.Diff.Changes.Whole.{decl_changes, present_changes, gone_changes}
use pacific_coast.Diff.Empty.Fields.{PairOf, append-nil_iff}

-- The same keys.
abbrev pub SameKeys : {V W : Type 0} → List (String × V) → List (String × W) → Type 0
SameKeys a b = (k : String) → has a k ≡ has b k

module _ {V : Type 0} (order : MapOrder Site) (s : Site) (m : List (String × V)) where
  -- the keys that `range` visits
  visited : (k : String) → contains (order.enumerate s (map_keys m)) k ≡ has m k
  visited k = contains-perm k _ _ (order.enumerate_perm s (map_keys m)) ∙ contains-map_keys k m

module _ {V W : Type 0} (make : V → Change) (other : List (String × W))
    (m : List (String × V)) where
  missing-nil→ :
      (ks : List String) (k : String)
      → missing make other (entries m ks) ≡ []
      → contains ks k ≡ true
      → has m k ≡ true
      → has other k ≡ true
  unfolding missing
  missing-nil→ [] k h c t = cc
  missing-nil→ (j ∷ ks) k h c t = elim (Option-cases (get m j)) [
    | inl e ↦ ground (arith, e, ==→≡ j k, missing-nil→ ks k)
    | inr (v, e) ↦ ground (
      arith,
      e,
      ==→≡ j k,
      (append-nil_iff (when (not (has other j)) (make v)) (missing make other (entries m ks))).0,
      missing-nil→ ks k,
    )
  ]

  missing-nil← :
      (ks : List String)
      → ((k : String) → has m k ≡ true → has other k ≡ true)
      → missing make other (entries m ks) ≡ []
  unfolding missing
  missing-nil← [] h = refl
  missing-nil← (j ∷ ks) h = ground (arith, h j, missing-nil← ks h)

-- Nothing is missing in a loop over the map exactly if the other map has all its keys.
pub missing-nil_iff :
    {V W : Type 0} (make : V → Change) (order : MapOrder Site) (s : Site)
    (other : List (String × W)) (m : List (String × V))
    → (missing make other (range order s m) ≡ [])
      ↔ ((k : String) → has m k ≡ true → has other k ≡ true)
unfolding range
missing-nil_iff make order s other m = (
  λ h k t. missing-nil→ make other m _ k h (visited order s m k ∙ t) t,
  missing-nil← make other m (order.enumerate s (map_keys m)),
)

keys_both : (x y : Bool) → (x ≡ true → y ≡ true) → (y ≡ true → x ≡ true) → x ≡ y
keys_both x y h k = ground arith

-- The two loops of a diff of maps report nothing exactly if the maps have the same keys.
pub SameKeys-iff :
    {V W : Type 0} (make : V → Change) (make' : W → Change) (order : MapOrder Site) (s t : Site)
    (a : List (String × V)) (b : List (String × W))
    → (missing make' a (range order s b) ++ missing make b (range order t a) ≡ []) ↔ SameKeys a b
SameKeys-iff make make' order s t a b = (to, from)
  where
    to : missing make' a (range order s b) ++ missing make b (range order t a) ≡ [] → SameKeys a b
    to h k =
        let (p, q) = (append-nil_iff _ _).0 h in
        keys_both (has a k) (has b k) ((missing-nil_iff make order t b a).0 q k)
          ((missing-nil_iff make' order s a b).0 p k)

    from : SameKeys a b → missing make' a (range order s b) ++ missing make b (range order t a) ≡ []
    from h = (append-nil_iff _ _).1 (
      (missing-nil_iff make' order s a b).1 (λ k e. h k ∙ e),
      (missing-nil_iff make order t b a).1 (λ k e. sym (h k) ∙ e),
    )

some_eq : {a b : CustomDecl} → some a ≡ some b → a ≡ b
some_eq h = cc

abbrev pub SameDecl : CustomDecl → CustomDecl → Type 0
SameDecl a b = decl_content_equal a b ≡ true

module _ (added changed : ChangeKind) (old new : List (String × CustomDecl)) where
  decl-nil_iff :
      (id : String) (o : Option CustomDecl) (q : CustomDecl)
      → (decl_changes added changed id o q ≡ []) ↔ PairOf SameDecl o (some q)
  unfolding decl_changes
  decl-nil_iff id none q = (λ h. cc, λ h. absurd h)
  decl-nil_iff id (some o) q = ground arith

  present-nil→ :
      (ks : List String) (id : String) (q : CustomDecl)
      → present_changes added changed old (entries new ks) ≡ []
      → contains ks id ≡ true
      → get new id ≡ some q
      → PairOf SameDecl (get old id) (some q)
  unfolding present_changes
  present-nil→ [] id q h c t = cc
  present-nil→ (j ∷ ks) id q h c t = elim (Option-cases (get new j)) [
    | inl e ↦ present-nil→ ks id q (ground (arith, e)) (ground (arith, e, ==→≡ j id)) t
    | inr (v, e) ↦
        let (p, r) =
          (append-nil_iff (decl_changes added changed j (get old j) v)
              (present_changes added changed old (entries new ks))).0
            (ground (arith, e)) in
        elim (Bool-cases (j == id)) [
          | inl s ↦
              subst₂ (λ i x. PairOf SameDecl (get old i) (some x)) (==→≡ j id s)
                (some_eq (sym e ∙ ap (get new) (==→≡ j id s) ∙ t))
                ((decl-nil_iff j (get old j) v).0 p)
          | inr n ↦ present-nil→ ks id q r (ground arith) t
        ]
  ]

  present-nil← :
      (ks : List String)
      → ((id : String) (q : CustomDecl)
          → get new id ≡ some q
          → PairOf SameDecl (get old id) (some q))
      → present_changes added changed old (entries new ks) ≡ []
  unfolding present_changes
  present-nil← [] h = refl
  present-nil← (j ∷ ks) h = elim (Option-cases (get new j)) [
    | inl e ↦ ground (arith, e, present-nil← ks h)
    | inr (v, e) ↦ ground (arith, e, (decl-nil_iff j (get old j) v).1 (h j v e), present-nil← ks h)
  ]

module _ (removed : ChangeKind) (old new : List (String × CustomDecl)) where
  gone-nil→ :
      (ks : List String) (k : String)
      → gone_changes removed new (entries old ks) ≡ []
      → contains ks k ≡ true
      → has old k ≡ true
      → has new k ≡ true
  unfolding gone_changes
  gone-nil→ [] k h c t = cc
  gone-nil→ (j ∷ ks) k h c t = elim (Option-cases (get old j)) [
    | inl e ↦ ground (arith, e, ==→≡ j k, gone-nil→ ks k)
    | inr (v, e) ↦ ground (
      arith,
      e,
      ==→≡ j k,
      (append-nil_iff (when (not (has new j)) (decl_change removed j))
          (gone_changes removed new (entries old ks))).0,
      gone-nil→ ks k,
    )
  ]

  gone-nil← :
      (ks : List String)
      → ((k : String) → has old k ≡ true → has new k ≡ true)
      → gone_changes removed new (entries old ks) ≡ []
  unfolding gone_changes
  gone-nil← [] h = refl
  gone-nil← (j ∷ ks) h = ground (arith, h j, gone-nil← ks h)

abbrev pub SameDecls : List (String × CustomDecl) → List (String × CustomDecl) → Type 0
SameDecls a b = (id : String) → PairOf SameDecl (get a id) (get b id)

PairOf-both :
    (a b : Option CustomDecl)
    → ((q : CustomDecl) → b ≡ some q → PairOf SameDecl a (some q))
    → ((q : CustomDecl) → a ≡ some q → (r : CustomDecl) × (b ≡ some r))
    → PairOf SameDecl a b
PairOf-both none none h k = tt
PairOf-both none (some q) h k = h q refl
PairOf-both (some p) none h k = let (r, e) = k p refl in cc
PairOf-both (some p) (some q) h k = h q refl

some_of_has :
    (m : List (String × CustomDecl)) (k : String)
    → has m k ≡ true
    → (r : CustomDecl) × (get m k ≡ some r)
some_of_has m k h = ground arith

pair_has :
    (a b : Option CustomDecl) (p : CustomDecl)
    → PairOf SameDecl a b
    → a ≡ some p
    → (r : CustomDecl) × (b ≡ some r)
pair_has none b p h e = cc
pair_has (some a) none p h e = absurd h
pair_has (some a) (some r) p h e = (r, refl)

-- The two loops over declarations report nothing exactly if both sides have the same ones, with the
-- same content.
pub SameDecls-iff :
    (added changed removed : ChangeKind) (order : MapOrder Site) (s t : Site)
    (a b : List (String × CustomDecl))
    → (present_changes added changed a (range order s b) ++ gone_changes removed b (range order t a)
        ≡ [])
      ↔ SameDecls a b
unfolding range
SameDecls-iff added changed removed order s t a b = (to, from)
  where
    ks : List String
    ks = order.enumerate s (map_keys b)

    ls : List String
    ls = order.enumerate t (map_keys a)

    to :
        present_changes added changed a (entries b ks) ++ gone_changes removed b (entries a ls) ≡ []
        → SameDecls a b
    to h id =
        let (p, q) = (append-nil_iff _ _).0 h in
        PairOf-both (get a id) (get b id)
          (λ r e.
            present-nil→ added changed a b ks id r p (visited order s b id ∙ ground (arith, e)) e)
          (λ r e. some_of_has b id (
            gone-nil→ removed a b ls id q (visited order t a id ∙ ground (arith, e))
              (ground (arith, e))))

    from :
        SameDecls a b
        → present_changes added changed a (entries b ks) ++ gone_changes removed b (entries a ls)
          ≡ []
    from h = (append-nil_iff _ _).1 (
      present-nil← added changed a b ks (λ id q e. rw e at (h id)),
      gone-nil← removed a b ls (λ id e.
          let (r, g) = some_of_has a id e in
          let (u, f) = pair_has _ _ r (h id) g in ground (arith, f)),
    )
