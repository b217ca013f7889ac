-- ===== src/Diff/Names.antt =====
-- The merged names of two maps: every key of either, once, in the order of the texts.
use mathlib.Core.HLevel.{hedberg}
use mathlib.Core.Logic.{∥∥₁_elim}
use mathlib.Core.List.{Perm, Permᴰ}
use pacific_coast.Base.{
  contains, Bool, ◌||◌, List, [], ◌∷◌, ◌++◌, String, ◌==◌, string_eq, ◌≡◌, refl, ◌∙◌, ap, arith,
  has, ==→≡, MapOrder, map_keys, range_keys, insert_sorted, sort_strings,
}
use pacific_coast.Diff.Entity.{Site, add_unseen, merged_names}

Bool-discrete : Discrete Bool
Bool-discrete = hlevel

module _ (k : String) where
  pub contains-append :
      (xs ys : List String) → contains (xs ++ ys) k ≡ (contains xs k || contains ys k)
  contains-append [] ys = refl
  contains-append (x ∷ xs) ys = ground (arith, contains-append xs ys)

  contains-add_unseen :
      (out ks : List String) → contains (add_unseen out ks) k ≡ (contains out k || contains ks k)
  unfolding add_unseen
  contains-add_unseen out [] = ground arith
  contains-add_unseen out (x ∷ ks) = ground (
    arith,
    contains-add_unseen out ks,
    contains-add_unseen (out ++ x ∷ []) ks,
    contains-append out (x ∷ []),
    ==→≡ x k,
  )

  contains-insert :
      (x : String) (l : List String) → contains (insert_sorted x l) k ≡ (x == k || contains l k)
  unfolding insert_sorted
  contains-insert x [] = refl
  contains-insert x (y ∷ l) = ground (arith, contains-insert x l)

  contains-sort : (l : List String) → contains (sort_strings l) k ≡ contains l k
  unfolding sort_strings
  contains-sort [] = refl
  contains-sort (x ∷ l) = ground (arith, contains-sort l, contains-insert x (sort_strings l))

  pub contains-permᴰ : {a b : List String} → Permᴰ a b → contains a k ≡ contains b k
  contains-permᴰ Permᴰ.nil = refl
  contains-permᴰ (Permᴰ.cons e p) = cc (e, contains-permᴰ p)
  contains-permᴰ (Permᴰ.swap {a = x} {b = y} {a' = y'} {b' = x'} {l = r} e f) =
      ground (arith, ap (λ z. z == k) e, ap (λ z. z == k) f)
  contains-permᴰ (Permᴰ.trans p q) = contains-permᴰ p ∙ contains-permᴰ q

  pub contains-perm : (a b : List String) → Perm a b → contains a k ≡ contains b k
  contains-perm a b p = ∥∥₁_elim p (hedberg Bool-discrete _ _) contains-permᴰ

  pub contains-map_keys {ℓ} :
      {V : Type ℓ} (m : List (String × V)) → contains (map_keys m) k ≡ has m k
  contains-map_keys [] = refl
  contains-map_keys ((j, v) ∷ m) = ground (arith, contains-map_keys m)

  -- A key is among the merged names exactly if one of the maps has it.
  pub contains-merged_names {ℓ} :
      {V : Type ℓ} (order : MapOrder Site) (s t : Site) (a b : List (String × V))
      → contains (merged_names order s t a b) k ≡ (has a k || has b k)
  unfolding merged_names range_keys
  contains-merged_names order s t a b = ground (
    arith,
    contains-sort (add_unseen (add_unseen [] (range_keys order s a)) (range_keys order t b)),
    contains-add_unseen (add_unseen [] (range_keys order s a)) (range_keys order t b),
    contains-add_unseen [] (range_keys order s a),
    contains-perm _ _ (order.enumerate_perm s (map_keys a)),
    contains-perm _ _ (order.enumerate_perm t (map_keys b)),
    contains-map_keys a,
    contains-map_keys b,
  )
