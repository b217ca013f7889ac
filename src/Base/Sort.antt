-- ===== src/Base/Sort.antt =====
-- sort.Strings: an insertion sort by the order of Go's strings, which compares their bytes. On
-- UTF-8 that is the order of the code points.
use Prim.Native.Nat.{ℕ}
use Prim.Native.Char.{code}
use Prim.Native.String.{String}
use mathlib.Core.Path.{◌≡◌, refl, ◌∙◌}
use mathlib.Core.Bool.{Bool, true, false}
use mathlib.Core.HLevel.{hedberg}
use mathlib.Core.List.{List, [], ◌∷◌, Perm, Permᴰ}
use mathlib.Core.Logic.{∥∥₁_elim, inl, inr}
use native.Mathlib.Omega.{arith}
use text.Mathlib.Text.{◌==◌ as str_eq}
use text.Mathlib.TextEquality.{Char-path, eq_iff}
use pacific_coast.Base.Tests.{ltb, if◌then◌else◌, Bool-cases}

abbrev pub codes : String → List ℕ
codes String.[] = []
codes (String.◌∷◌ c s) = code c ∷ codes s

pub codes_leb : List ℕ → List ℕ → Bool
codes_leb [] ys = true
codes_leb (x ∷ xs) [] = false
codes_leb (x ∷ xs) (y ∷ ys) = if ltb x y then true else if ltb y x then false else codes_leb xs ys

-- s <= t in Go
unfoldable pub text_leb : String → String → Bool
unfolding codes_leb
text_leb s t = codes_leb (codes s) (codes t)

codes-injective : (s t : String) → codes s ≡ codes t → s ≡ t
codes-injective String.[] String.[] h = refl
codes-injective String.[] (String.◌∷◌ d t) h = cc
codes-injective (String.◌∷◌ c s) String.[] h = cc
codes-injective (String.◌∷◌ c s) (String.◌∷◌ d t) h =
    cc (Char-path c d (ground arith), codes-injective s t (ground arith))

codes_leb_antisymm : (a b : List ℕ) → codes_leb a b ≡ true → codes_leb b a ≡ true → a ≡ b
unfolding codes_leb
codes_leb_antisymm [] [] h k = refl
codes_leb_antisymm [] (y ∷ b) h k = cc
codes_leb_antisymm (x ∷ a) [] h k = cc
codes_leb_antisymm (x ∷ a) (y ∷ b) h k = ground (arith, codes_leb_antisymm a b)

codes_leb_trans :
    (a b c : List ℕ) → codes_leb a b ≡ true → codes_leb b c ≡ true → codes_leb a c ≡ true
unfolding codes_leb
codes_leb_trans [] b c h k = refl
codes_leb_trans (x ∷ a) [] c h k = cc
codes_leb_trans (x ∷ a) (y ∷ b) [] h k = cc
codes_leb_trans (x ∷ a) (y ∷ b) (z ∷ c) h k = ground (arith, codes_leb_trans a b c)

codes_leb_total : (a b : List ℕ) → codes_leb a b ≡ false → codes_leb b a ≡ true
unfolding codes_leb
codes_leb_total [] b h = cc
codes_leb_total (x ∷ a) [] h = refl
codes_leb_total (x ∷ a) (y ∷ b) h = ground (arith, codes_leb_total a b)

pub text_leb_antisymm : (s t : String) → text_leb s t ≡ true → text_leb t s ≡ true → s ≡ t
unfolding text_leb
text_leb_antisymm s t h k = codes-injective s t (codes_leb_antisymm (codes s) (codes t) h k)

pub text_leb_trans :
    (s t u : String) → text_leb s t ≡ true → text_leb t u ≡ true → text_leb s u ≡ true
unfolding text_leb
text_leb_trans s t u = codes_leb_trans (codes s) (codes t) (codes u)

pub text_leb_total : (s t : String) → text_leb s t ≡ false → text_leb t s ≡ true
unfolding text_leb
text_leb_total s t = codes_leb_total (codes s) (codes t)

unfoldable pub insert_sorted : String → List String → List String
insert_sorted x [] = x ∷ []
insert_sorted x (y ∷ l) = if text_leb x y then x ∷ y ∷ l else y ∷ insert_sorted x l

unfoldable pub sort_strings : List String → List String
unfolding insert_sorted
sort_strings [] = []
sort_strings (x ∷ l) = insert_sorted x (sort_strings l)

insert_sorted_comm :
    (x y : String) (l : List String)
    → insert_sorted x (insert_sorted y l) ≡ insert_sorted y (insert_sorted x l)
unfolding insert_sorted
insert_sorted_comm x y [] =
    ground (arith, text_leb_antisymm x y, text_leb_total x y, text_leb_total y x)
insert_sorted_comm x y (z ∷ l) = ground (
  arith,
  insert_sorted_comm x y l,
  text_leb_antisymm x y,
  text_leb_total x y,
  text_leb_total y x,
  text_leb_total x z,
  text_leb_total y z,
  text_leb_trans x y z,
  text_leb_trans y x z,
)

sort-permᴰ : {a b : List String} → Permᴰ a b → sort_strings a ≡ sort_strings b
unfolding sort_strings
sort-permᴰ Permᴰ.nil = refl
sort-permᴰ (Permᴰ.cons {l₁ = r} {l₂ = s} e p) = cc (e, sort-permᴰ p)
sort-permᴰ (Permᴰ.swap {a = x} {b = y} {l = r} e f) =
    insert_sorted_comm x y (sort_strings r) ∙ cc (e, f)
sort-permᴰ (Permᴰ.trans p q) = sort-permᴰ p ∙ sort-permᴰ q

pub String-discrete : Discrete String
String-discrete s t = elim (Bool-cases (str_eq s t)) [
  | inl e ↦ yes ((eq_iff s t).0 e)
  | inr n ↦ no (λ p. cc (n, (eq_iff s t).1 p))
]

texts-discrete : Discrete (List String)
texts-discrete = hlevel String-discrete

pub texts-set : IsSet (List String)
texts-set = hedberg texts-discrete

-- Sorting forgets the order in which the items came.
pub sort-perm : (a b : List String) → Perm a b → sort_strings a ≡ sort_strings b
sort-perm a b p = ∥∥₁_elim p (texts-set _ _) sort-permᴰ
