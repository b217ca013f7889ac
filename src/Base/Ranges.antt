-- ===== src/Base/Ranges.antt =====
-- The order in which `range` goes through a map. Go leaves it open, so each range statement of a run
-- has an order of its own, named by `Site`, of which only this is known: it lists every key once.
use mathlib.Core.Option.{none, some}
use mathlib.Core.List.{List, [], ◌∷◌, map, Perm}
use Prim.Native.String.{String}
use pacific_coast.Base.Eq.{string_eq}
use pacific_coast.Base.GoMap.{get}

pub record MapOrder {ℓ} (Site : Type ℓ) : Type ℓ where
  pub enumerate : Site → List String → List String
  pub enumerate_perm : (s : Site) (keys : List String) → Perm (enumerate s keys) keys

abbrev pub map_keys {ℓ} : {V : Type ℓ} → List (String × V) → List String
map_keys = map (λ e. e.0)

-- The entries of `m` at the given keys.
abbrev pub entries {ℓ} : {V : Type ℓ} → List (String × V) → List String → List (String × V)
entries m [] = []
entries m (k ∷ ks) =
    let rest = entries m ks in elim (get m k) [ none ↦ rest | some v ↦ (k, v) ∷ rest ]

-- `for k, v := range m`: the pairs in the order of the visit.
unfoldable pub range {ℓ κ} :
    {Site : Type ℓ} {V : Type κ} → MapOrder Site → Site → List (String × V) → List (String × V)
range o s m = entries m (o.enumerate s (map_keys m))

-- `for k := range m`
unfoldable pub range_keys {ℓ κ} :
    {Site : Type ℓ} {V : Type κ} → MapOrder Site → Site → List (String × V) → List String
range_keys o s m = o.enumerate s (map_keys m)
