-- ===== src/Sim/Kept.antt =====
-- What an operation on one table of internal/runtime/sandbox/sim/table.go leaves of the row maps.
use pacific_coast.Base.{
  ℕ, String, Bool, true, false, Option, none, some, List, [], ◌∷◌, nat_eq, string_eq, ==_refl, ◌≤◌,
  ◌<◌, get, put, delete, has, ◌≡◌, ◌≢◌, ◌⊎◌, inl, inr, refl, sym, ap, ◌∙◌, arith,
}
use pacific_coast.Sim.Table.{
  Row, RowMap, Heap, Table, KeyError, Result, ok, failed, allocate, store, empty_rows, current_rows,
  replace_rows, pk_key, writable, put_rows, insert, insert_keyed, insert_at, delete_at, update,
  update_row, update_found, patched, delete_row,
}
use pacific_coast.Sim.World.{
  World, Op, inserting, updating, deleting, capturing, installing, clearing, contents, operate, act,
  act_all,
}

module _ {V : Type 0} where
  -- what an operation leaves of a map
  pub record Kept (p : ℕ) (h h2 : Heap V) : Type 0 where
    pub same : contents p h2 ≡ contents p h
    pub still : (h.cells p).shared ≡ true → (h2.cells p).shared ≡ true
    pub older : h.fresh ≤ h2.fresh

  -- a map that a table's writer may not change: one that has been captured, or another table's
  abbrev pub Safe : ℕ → Table → Heap V → Type 0
  Safe p t h = (p < h.fresh) × (((h.cells p).shared ≡ true) ⊎ (t.rows ≢ p))

  Kept-cell : (p : ℕ) (h h2 : Heap V) → h2.cells p ≡ h.cells p → h.fresh ≤ h2.fresh → Kept p h h2
  Kept-cell p h h2 e o = record {
    same = ap (λ c. c.m) e;
    still = λ k. ap (λ c. c.shared) e ∙ k;
    older = o;
  }

  Kept-trans : (p : ℕ) (h h2 h3 : Heap V) → Kept p h h2 → Kept p h2 h3 → Kept p h h3
  Kept-trans p h h2 h3 a b = record {
    same = b.same ∙ a.same;
    still = λ k. b.still (a.still k);
    older = omega (arith, a.older, b.older);
  }

  allocate-Kept : (p : ℕ) (rm : RowMap V) (h : Heap V) → p < h.fresh → Kept p h (allocate rm h).1
  unfolding allocate
  allocate-Kept p rm h k = Kept-cell p h (allocate rm h).1 (ground (arith, k)) (omega arith)

  put_rows-Kept :
      (p q : ℕ) (m : List (String × Row V)) (h : Heap V) → q ≢ p → Kept p h (put_rows q m h)
  unfolding store
  put_rows-Kept p q m h n = Kept-cell p h (put_rows q m h) (ground (arith, n)) (omega arith)

  pub capture-Kept : (p : ℕ) (t : Table) (h : Heap V) → Kept p h (current_rows t h).1
  unfolding current_rows store
  capture-Kept p t h = record {
    same = ground (arith, nat_eq.decides p t.rows, ap (λ q. contents q h) {x = p} {y = t.rows});
    still = λ k. ground (arith, k);
    older = omega arith;
  }

  writable_by : (shared : Bool) → Table → Heap V → ℕ × Table × Heap V
  writable_by shared t h = elim shared [
    | false ↦ (t.rows, t, h)
    | true ↦
        let (p, h2) = allocate (record { m = (h.cells t.rows).m; shared = false }) h in
        (p, record t { rows = p }, h2)
  ]

  unshared_apart :
      (p : ℕ) (t : Table) (h : Heap V)
      → (h.cells t.rows).shared ≡ false
      → ((h.cells p).shared ≡ true) ⊎ (t.rows ≢ p)
      → t.rows ≢ p
  unshared_apart p t h e (inl k) n = ground (arith, e, sym (ap (λ q. (h.cells q).shared) n) ∙ e, k)
  unshared_apart p t h e (inr k) n = k n

  writable_by-Kept :
      (shared : Bool) (p : ℕ) (t : Table) (h : Heap V)
      → (h.cells t.rows).shared ≡ shared
      → Safe p t h
      → Kept p h (writable_by shared t h).2 × ((writable_by shared t h).0 ≢ p)
  unfolding writable_by allocate
  writable_by-Kept false p t h e s =
      (Kept-cell p h h refl (omega arith), unshared_apart p t h e s.1)
  writable_by-Kept true p t h e s = (
    allocate-Kept p (record { m = (h.cells t.rows).m; shared = false }) h s.0,
    λ k. omega (arith, k, s.0),
  )

  writable-Kept :
      (p : ℕ) (t : Table) (h : Heap V)
      → Safe p t h
      → Kept p h (writable t h).2 × ((writable t h).0 ≢ p)
  unfolding writable writable_by
  writable-Kept p t h s = writable_by-Kept (h.cells t.rows).shared p t h refl s

  -- the writes, once the map is the writer's own
  insert_at-Kept :
      (taken : Bool) (key : String) (r : Row V) (p q : ℕ) (t : Table) (h : Heap V)
      → q ≢ p
      → Kept p h (insert_at taken key r q t h).2
  insert_at-Kept true key r p q t h n = Kept-cell p h h refl (omega arith)
  insert_at-Kept false key r p q t h n = put_rows-Kept p q (put (contents q h) key r) h n

  delete_at-Kept :
      (there : Bool) (key : String) (p q : ℕ) (t : Table) (h : Heap V)
      → q ≢ p
      → Kept p h (delete_at there key q t h).2
  delete_at-Kept true key p q t h n = put_rows-Kept p q (delete (contents q h) key) h n
  delete_at-Kept false key p q t h n = Kept-cell p h h refl (omega arith)

  update_found-Kept :
      (key : String) (r : Option (Row V)) (p q : ℕ) (t : Table) (h : Heap V)
      → q ≢ p
      → Kept p h (update_found key r q t h).2
  update_found-Kept key none p q t h n = Kept-cell p h h refl (omega arith)
  update_found-Kept key (some r) p q t h n = put_rows-Kept p q (put (contents q h) key r) h n

  update_row-Kept :
      (set : List (String × Option V)) (key : String) (r : Option (Row V)) (p q : ℕ) (t : Table)
      (h : Heap V)
      → q ≢ p
      → Kept p h (update_row set key r q t h).2
  update_row-Kept set key none p q t h n = Kept-cell p h h refl (omega arith)
  update_row-Kept set key (some r) p q t h n =
      update_found-Kept key (patched t.desc set r) p q t h n

  insert_keyed-Kept :
      (key : Result KeyError String) (r : Row V) (p : ℕ) (t : Table) (h : Heap V)
      → Safe p t h
      → Kept p h (insert_keyed key r t h).2
  unfolding insert_keyed
  insert_keyed-Kept (failed e) r p t h s = Kept-cell p h h refl (omega arith)
  insert_keyed-Kept (ok key) r p t h s =
      let (q, t2, h2) = writable t h in
      let (kept, apart) = writable-Kept p t h s in
      Kept-trans p h h2 (insert_at (has (contents q h2) key) key r q t2 h2).2 kept
        (insert_at-Kept (has (contents q h2) key) key r p q t2 h2 apart)

  update-Kept :
      (key : String) (set : List (String × Option V)) (p : ℕ) (t : Table) (h : Heap V)
      → Safe p t h
      → Kept p h (update key set t h).2
  unfolding update
  update-Kept key set p t h s =
      let (q, t2, h2) = writable t h in
      let (kept, apart) = writable-Kept p t h s in
      Kept-trans p h h2 (update_row set key (get (contents q h2) key) q t2 h2).2 kept
        (update_row-Kept set key (get (contents q h2) key) p q t2 h2 apart)

  delete_row-Kept :
      (key : String) (p : ℕ) (t : Table) (h : Heap V) → Safe p t h → Kept p h (delete_row key t h).2
  unfolding delete_row
  delete_row-Kept key p t h s =
      let (q, t2, h2) = writable t h in
      let (kept, apart) = writable-Kept p t h s in
      Kept-trans p h h2 (delete_at (has (contents q h2) key) key q t2 h2).2 kept
        (delete_at-Kept (has (contents q h2) key) key p q t2 h2 apart)

  pub operate-Kept :
      (print : V → String) (op : Op V) (p : ℕ) (t : Table) (h : Heap V)
      → Safe p t h
      → Kept p h (operate print op t h).1
  unfolding operate insert
  operate-Kept print (inserting r) p t h s = insert_keyed-Kept (pk_key print t.desc r) r p t h s
  operate-Kept print (updating key set) p t h s = update-Kept key set p t h s
  operate-Kept print (deleting key) p t h s = delete_row-Kept key p t h s
  operate-Kept print capturing p t h s = capture-Kept p t h
  operate-Kept print (installing q) p t h s = Kept-cell p h h refl (omega arith)
  operate-Kept print clearing p t h s = allocate-Kept p empty_rows h s.0

  -- a captured map, with the contents it was captured with
  pub record Captured (p : ℕ) (m : List (String × Row V)) (h : Heap V) : Type 0 where
    pub made : p < h.fresh
    pub frozen : (h.cells p).shared ≡ true
    pub holds : contents p h ≡ m

  pub act_all-Captured :
      (print : V → String) (ops : List (ℕ × Op V)) (p : ℕ) (m : List (String × Row V)) (w : World V)
      → Captured p m w.heap
      → Captured p m (act_all print ops w).heap
  unfolding act_all act
  act_all-Captured print [] p m w c = c
  act_all-Captured print ((i, op) ∷ ops) p m w c =
      let kept = operate-Kept print op p (w.tables i) w.heap (c.made, inl c.frozen) in
      act_all-Captured print ops p m (act print i op w) (record {
        made = omega (arith, c.made, kept.older);
        frozen = kept.still c.frozen;
        holds = kept.same ∙ c.holds;
      })

  pub capture-Captured :
      (print : V → String) (i : ℕ) (w : World V)
      → (w.tables i).rows < w.heap.fresh
      → Captured
          (w.tables i).rows
          (contents (w.tables i).rows w.heap)
          (act print i capturing w).heap
  unfolding act operate current_rows store
  capture-Captured print i w k = record {
    made = k;
    frozen = ground (arith, ==_refl (w.tables i).rows);
    holds = ground (arith, ==_refl (w.tables i).rows);
  }

-- A table's map is captured by a mark; after any operations on any tables, and after that map is
-- installed in any table, that table's rows are the captured ones.
pub installing-capturing :
    {V : Type 0} (print : V → String) (i j : ℕ) (ops : List (ℕ × Op V)) (w : World V)
    → (w.tables i).rows < w.heap.fresh
    → let mark = (w.tables i).rows in
      let v = act print j (installing mark) (act_all print ops (act print i capturing w)) in
      contents (v.tables j).rows v.heap ≡ contents mark w.heap
unfolding act operate replace_rows
installing-capturing print i j ops w k =
    let mark = (w.tables i).rows in
    let captured =
      act_all-Captured print ops mark (contents mark w.heap) (act print i capturing w)
        (capture-Captured print i w k) in
    ground (arith, ==_refl j, captured.holds)
