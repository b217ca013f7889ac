-- ===== src/Diff/Merged.antt =====
-- The merged names of two maps do not depend on the order in which the maps are visited.
use mathlib.Core.Logic.{∥∥₁_elim}
use mathlib.Core.List.{Perm, Permᴰ}
use mathlib.Core.List.Perm
use mathlib.Core.Path.{subst}
use mathlib.Core.List.Permᴰ
use pacific_coast.Base.{
  contains, true, false, List, [], ◌∷◌, ◌++◌, String, ◌==◌, string_eq, ◌≡◌, refl, sym, ◌∙◌, ap,
  arith, if◌then◌else◌, ==_refl, ==→≡, MapOrder, map_keys, range_keys, sort-perm, texts-set,
  Bool-cases, inl, inr, ==_ne, append_assoc,
}
use pacific_coast.Diff.Entity.{Site, add_unseen, merged_names}
use pacific_coast.Diff.Names.{contains-permᴰ, contains-append}

pub add_unseen-perm_out :
    {a b : List String} (l : List String) → Permᴰ a b → Permᴰ (add_unseen a l) (add_unseen b l)
unfolding add_unseen
add_unseen-perm_out [] p = p
add_unseen-perm_out {a} {b} (k ∷ l) p = elim (Bool-cases (contains a k)) [
  | inl t ↦ rw (t, sym (contains-permᴰ k p) ∙ t) (add_unseen-perm_out l p)
  | inr f ↦
      rw (f, sym (contains-permᴰ k p) ∙ f) (add_unseen-perm_out l (Permᴰ.append_right (k ∷ []) p))
]

-- one round of mergedNames
abbrev pub grow : List String → String → List String
grow out k = if contains out k then out else out ++ k ∷ []

pub grow-seen : (out : List String) (k : String) → contains out k ≡ true → grow out k ≡ out
grow-seen out k h = rw h

pub grow-new :
    (out : List String) (k : String) → contains out k ≡ false → grow out k ≡ out ++ k ∷ []
grow-new out k h = rw h

pub contains-grow :
    (out : List String) (x y : String) → contains out y ≡ true → contains (grow out x) y ≡ true
contains-grow out x y h = ground (arith, contains-append y out (x ∷ []))

pub grow-new_pair :
    (out : List String) (x y : String)
    → contains out x ≡ false
    → contains out y ≡ false
    → (x == y) ≡ false
    → grow (grow out x) y ≡ out ++ x ∷ y ∷ []
grow-new_pair out x y hx hy n =
    ap (λ o. grow o y) (grow-new out x hx)
    ∙ grow-new (out ++ x ∷ []) y (ground (arith, contains-append y out (x ∷ [])))
    ∙ append_assoc out (x ∷ []) (y ∷ [])

Permᴰ_of_eq : {a b : List String} → a ≡ b → Permᴰ a b
Permᴰ_of_eq {a} e = subst (Permᴰ a) e (Permᴰ.refl a)

pub grow-swap :
    (out : List String) (x y : String) → Permᴰ (grow (grow out x) y) (grow (grow out y) x)
grow-swap out x y = elim (Bool-cases (x == y)) [
  | inl e ↦ let p = ==→≡ x y e in Permᴰ_of_eq (λ i. grow (grow out (p i)) (sym p i))
  | inr n ↦ elim (Bool-cases (contains out x)) [
    | inl t ↦ Permᴰ_of_eq (
        ap (λ o. grow o y) (grow-seen out x t)
        ∙ sym (grow-seen (grow out y) x (contains-grow out y x t)))
    | inr f ↦ elim (Bool-cases (contains out y)) [
      | inl u ↦ Permᴰ_of_eq (
          grow-seen (grow out x) y (contains-grow out x y u)
          ∙ sym (ap (λ o. grow o x) (grow-seen out y u)))
      | inr g ↦ Permᴰ.trans (Permᴰ_of_eq (grow-new_pair out x y f g n)) (
          Permᴰ.trans (Permᴰ.append_left out (Permᴰ.swap refl refl))
            (Permᴰ_of_eq (sym (grow-new_pair out y x g f (==_ne y x (λ e. cc (n, ==_refl x, e)))))))
    ]
  ]
]

pub add_unseen-perm :
    (out : List String) {a b : List String}
    → Permᴰ a b
    → Permᴰ (add_unseen out a) (add_unseen out b)
unfolding add_unseen
add_unseen-perm out Permᴰ.nil = Permᴰ.refl out
add_unseen-perm out (Permᴰ.cons {a = x} {b = y} {l₁ = r} {l₂ = s} e p) =
    Permᴰ.trans (add_unseen-perm (grow out x) p)
      (Permᴰ_of_eq (ap (λ k. add_unseen (grow out k) s) e))
add_unseen-perm out (Permᴰ.swap {a = x} {b = y} {a' = y'} {b' = x'} {l = r} e f) =
    Permᴰ.trans (add_unseen-perm_out r (grow-swap out x y))
      (Permᴰ_of_eq (λ i. add_unseen (grow (grow out (f i)) (e i)) r))
add_unseen-perm out (Permᴰ.trans p q) = Permᴰ.trans (add_unseen-perm out p) (add_unseen-perm out q)

-- The merged names do not depend on the order of the visits.
pub merged_names-order :
    {A : Type 0} (o p : MapOrder Site) (s t : Site) (a b : List (String × A))
    → merged_names o s t a b ≡ merged_names p s t a b
unfolding merged_names range_keys
merged_names-order {A} o p s t a b = ∥∥₁_elim (same s a) (texts-set _ _) (λ x.
    ∥∥₁_elim (same t b) (texts-set _ _) (λ y.
      sort-perm _ _
        ∣ Permᴰ.trans (add_unseen-perm_out (o.enumerate t (map_keys b)) (add_unseen-perm [] x))
          (add_unseen-perm _ y) ∣₁))
  where
    same :
        (u : Site) (m : List (String × A))
        → Perm (o.enumerate u (map_keys m)) (p.enumerate u (map_keys m))
    same u m =
        Perm.trans (o.enumerate_perm u (map_keys m)) (Perm.symm (p.enumerate_perm u (map_keys m)))

-- Lists of changes that report nothing breaking.
