-- ===== src/Sim/Pool.antt =====
-- The tables of one sandbox, internal/runtime/sandbox/sim/pool.go: the capture of all their row maps,
-- which a mark holds, and their restoration.
use pacific_coast.Base.{
  ℕ, String, Bool, true, false, Option, none, some, List, [], ◌∷◌, nat_eq, string_eq, get, put, has,
}
use pacific_coast.Sim.World.{World, capturing, installing, clearing, act}

-- the tables of a sandbox, by qualified name; a mark's row maps, by the name of their table
abbrev pub Pool : Type 0
Pool = List (String × ℕ)

module _ {V : Type 0} (print : V → String) where
  abbrev pub capture_one : String → Option ℕ → Pool → World V → Pool × World V
  capture_one qn none out w = (out, w)
  capture_one qn (some i) out w = (put out qn (w.tables i).rows, act print i capturing w)

  -- the loop of CapturePointers over the catalog's names
  unfoldable pub capture_into : List String → Pool → Pool → World V → Pool × World V
  capture_into [] pool out w = (out, w)
  capture_into (qn ∷ qns) pool out w =
      let (out2, w2) = capture_one qn (get pool qn) out w in capture_into qns pool out2 w2

  unfoldable pub capture_pointers : List String → Pool → World V → Pool × World V
  capture_pointers names pool w = capture_into names pool [] w

  abbrev pub install_one : Option ℕ → ℕ → World V → World V
  install_one none p w = w
  install_one (some i) p w = act print i (installing p) w

  -- the first loop of ReplaceFromPointers, over the snapshot
  unfoldable pub install_all : Pool → Pool → World V → World V
  install_all pool [] w = w
  install_all pool ((qn, p) ∷ snap) w = install_all pool snap (install_one (get pool qn) p w)

  abbrev pub clear_one : Bool → Option ℕ → World V → World V
  clear_one true t w = w
  clear_one false none w = w
  clear_one false (some i) w = act print i clearing w

  -- the second loop: tables that the snapshot does not have
  unfoldable pub clear_missing : List String → Pool → Pool → World V → World V
  clear_missing [] pool snap w = w
  clear_missing (qn ∷ qns) pool snap w =
      clear_missing qns pool snap (clear_one (has snap qn) (get pool qn) w)

  unfoldable pub replace_from_pointers : List String → Pool → Pool → World V → World V
  replace_from_pointers names pool snap w = clear_missing names pool snap (install_all pool snap w)
