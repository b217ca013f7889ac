-- ===== src/Sim/World.antt =====
-- The tables of all sandboxes over one heap, and what is done to one of them: the writes of
-- internal/runtime/sandbox/sim/table.go, and the capturing and installing by which marks.go and
-- fork.go share row maps.
use pacific_coast.Base.{ℕ, String, Option, List, [], ◌∷◌, ◌==◌, nat_eq, string_eq, if◌then◌else◌}
use pacific_coast.Sim.Table.{
  Row, Heap, Table, allocate, empty_rows, current_rows, replace_rows, insert, update, delete_row,
}

pub record World (V : Type 0) : Type 0 where
  pub heap : Heap V
  pub tables : ℕ → Table

-- a write; a capture, by a mark or a fork; a captured map that becomes a table's own; a reset
pub data Op (V : Type 0) : Type 0 where
  inserting : Row V → Op V
  updating : String → List (String × Option V) → Op V
  deleting : String → Op V
  capturing : Op V
  installing : ℕ → Op V
  clearing : Op V

module _ {V : Type 0} where
  abbrev pub contents : ℕ → Heap V → List (String × Row V)
  contents p h = (h.cells p).m

  -- the table and the heap after an operation
  unfoldable pub operate : (V → String) → Op V → Table → Heap V → Table × Heap V
  operate print (inserting r) t h = let (res, t2, h2) = insert print r t h in (t2, h2)
  operate print (updating key set) t h = let (res, t2, h2) = update key set t h in (t2, h2)
  operate print (deleting key) t h = let (res, t2, h2) = delete_row key t h in (t2, h2)
  operate print capturing t h = (t, (current_rows t h).1)
  operate print (installing p) t h = (replace_rows p t, h)
  operate print clearing t h = let (p, h2) = allocate empty_rows h in (replace_rows p t, h2)

  unfoldable pub act : (V → String) → ℕ → Op V → World V → World V
  act print i op w =
      let (t, h) = operate print op (w.tables i) w.heap in
      record { heap = h; tables = λ j. if j == i then t else w.tables j }

  unfoldable pub act_all : (V → String) → List (ℕ × Op V) → World V → World V
  act_all print [] w = w
  act_all print ((i, op) ∷ ops) w = act_all print ops (act print i op w)
