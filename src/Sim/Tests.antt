-- ===== src/Sim/Tests.antt =====
-- Two tables that share a row map, internal/runtime/sandbox/sim/table.go.
use pacific_coast.Base.{
  string_eq, false, true, List, ℕ, ◌==◌, nat_eq, if◌then◌else◌, String, none, some, [], ◌∷◌, ◌≡◌,
  refl, arith,
}
use pacific_coast.Sim.Table.{
  TableDesc, col_index, index_of, pk_key, key_parts, allocate, store, writable, insert,
  insert_keyed,
}
use pacific_coast.Sim.World.{
  World, Op, inserting, updating, deleting, contents, operate, act, act_all,
}
use mathlib.Core.List.{Memᴰ}
use pacific_coast.Sim.Pool.{Pool, capture_pointers, replace_from_pointers}
use pacific_coast.Sim.Marks.{Injective, replace_from_pointers-capture_pointers}
use pacific_coast.Sim.Rows.{revised, operate-revised}
use pacific_coast.Sim.Isolation.{IsValid, here, acts, contents-Elsewhere}

abbrev text : String → String
text s = s

abbrev users : TableDesc
users = record { cols = "id" ∷ "name" ∷ []; pk_cols = "id" ∷ [] }

-- every table starts with a map of its own; table 1 has taken table 0's, which was captured
abbrev forked : World String
forked = record {
  heap = record { cells = λ p. record { m = []; shared = true }; fresh = 1 };
  tables = λ i. record { desc = users; rows = 0; next_serial = 0 };
}

forked-IsValid : IsValid forked
forked-IsValid = record { made = λ i. omega arith; apart = λ i j n e. refl }

-- the write of one table is in that table alone
one_insert :
    let w = act text 0 (inserting (some "7" ∷ some "ann" ∷ [])) forked in
    (contents (w.tables 0).rows w.heap ≡ ("7", some "7" ∷ some "ann" ∷ []) ∷ [])
    × (contents (w.tables 1).rows w.heap ≡ [])
unfolding act operate insert pk_key key_parts col_index index_of insert_keyed writable allocate
    store
one_insert = (refl, refl)

abbrev written : World String
written = act text 0 (inserting (some "7" ∷ some "ann" ∷ [])) forked

contents-Elsewhere_example :
    (written.tables 1 ≡ forked.tables 1)
    × (contents (written.tables 1).rows written.heap ≡ contents (forked.tables 1).rows forked.heap)
    × IsValid written
contents-Elsewhere_example =
    contents-Elsewhere text 1 forked written forked-IsValid
      (acts 0 (inserting (some "7" ∷ some "ann" ∷ [])) (λ e. omega (arith, e)) tt here)

operate-revised_example :
    let (t, h) =
      operate text (updating "7" (("name", none) ∷ [])) (written.tables 0) written.heap in
    contents t.rows h
    ≡ revised text
        (written.tables 0).desc
        (λ p. contents p written.heap)
        (updating "7" (("name", none) ∷ []))
        (contents (written.tables 0).rows written.heap)
operate-revised_example =
    operate-revised text (updating "7" (("name", none) ∷ [])) (written.tables 0) written.heap

-- a sandbox with two tables, each with a map of its own
abbrev two_tables : World String
two_tables = record {
  heap = record {
    cells = λ p. record { m = ("7", some "7" ∷ some "ann" ∷ []) ∷ []; shared = false };
    fresh = 2;
  };
  tables = λ i. record { desc = users; rows = if i == 0 then 0 else 1; next_serial = 0 };
}

abbrev shop : Pool
shop = ("shop.users", 0) ∷ ("shop.orders", 1) ∷ []

shop-Injective : Injective shop
shop-Injective a b i g h = ground (
  arith,
  g,
  h,
  string_eq.decides "shop.users" a,
  string_eq.decides "shop.orders" a,
  string_eq.decides "shop.users" b,
  string_eq.decides "shop.orders" b,
)

abbrev shop_names : List String
shop_names = "shop.users" ∷ "shop.orders" ∷ []

abbrev deletes : List (ℕ × Op String)
deletes = (0, deleting "7") ∷ (1, deleting "7") ∷ []

replace_from_pointers-capture_pointers_example :
    let (mark, marked) = capture_pointers text shop_names shop two_tables in
    let v = replace_from_pointers text shop_names shop mark (act_all text deletes marked) in
    contents (v.tables 0).rows v.heap ≡ contents 0 two_tables.heap
replace_from_pointers-capture_pointers_example =
    replace_from_pointers-capture_pointers text shop_names shop deletes two_tables "shop.users" 0
      shop-Injective (Memᴰ.head refl) refl (omega arith)
