-- ===== src/Sim/Moved.antt =====
-- The row map that a table of internal/runtime/sandbox/sim/table.go has after an operation.
use pacific_coast.Base.{
  ℕ, String, Bool, true, false, Option, none, some, List, nat_eq, string_eq, ◌≤◌, ◌<◌, get, put,
  delete, has, ◌≡◌, inl, inr, refl, ap, ◌∙◌, arith, Bool-cases,
}
use pacific_coast.Sim.Table.{
  Row, Heap, Table, KeyError, Result, ok, failed, allocate, store, current_rows, replace_rows,
  pk_key, writable, put_rows, insert, insert_keyed, insert_at, delete_at, update, update_row,
  update_found, patched, delete_row,
}
use pacific_coast.Sim.World.{
  Op, inserting, updating, deleting, capturing, installing, clearing, contents, operate,
}

module _ {V : Type 0} where
  -- an installed map has been captured
  abbrev pub Allowed : Op V → Heap V → Type 0
  Allowed (installing p) h = (p < h.fresh) × ((h.cells p).shared ≡ true)
  Allowed op h = Unit

  -- the map that a table has after an operation: its own, a new one, or a captured one
  pub data Moved (t : Table) (h : Heap V) (t2 : Table) (h2 : Heap V) : Type 0 where
    own : t2.rows ≡ t.rows → h.fresh ≤ h2.fresh → Moved t h t2 h2
    fresh : h.fresh ≤ t2.rows → t2.rows < h2.fresh → Moved t h t2 h2
    captured :
        t2.rows < h.fresh → (h2.cells t2.rows).shared ≡ true → h.fresh ≤ h2.fresh → Moved t h t2 h2

  writable-Moved : (t : Table) (h : Heap V) → Moved t h (writable t h).1 (writable t h).2
  unfolding writable allocate
  writable-Moved t h = elim (Bool-cases ((h.cells t.rows).shared)) [
    | inl shared ↦ fresh (ground (arith, shared)) (ground (arith, shared))
    | inr free ↦ own (ground (arith, free)) (ground (arith, free))
  ]

  -- a later step that keeps the table and makes no map
  Moved-later :
      (t : Table) (h : Heap V) (t2 : Table) (h2 : Heap V) (t3 : Table) (h3 : Heap V)
      → t3.rows ≡ t2.rows
      → h3.fresh ≡ h2.fresh
      → ((h2.cells t2.rows).shared ≡ true → (h3.cells t2.rows).shared ≡ true)
      → Moved t h t2 h2
      → Moved t h t3 h3
  Moved-later t h t2 h2 t3 h3 e f k (own m o) = own (e ∙ m) (omega arith)
  Moved-later t h t2 h2 t3 h3 e f k (fresh a b) = fresh (omega arith) (omega arith)
  Moved-later t h t2 h2 t3 h3 e f k (captured a b o) =
      captured (omega arith) (ap (λ q. (h3.cells q).shared) e ∙ k b) (omega arith)

  put_rows-shared :
      (p q : ℕ) (m : List (String × Row V)) (h : Heap V)
      → (h.cells q).shared ≡ true
      → ((put_rows p m h).cells q).shared ≡ true
  unfolding store
  put_rows-shared p q m h k =
      ground (arith, k, nat_eq.decides q p, ap (λ n. (h.cells n).shared) {x = q} {y = p})

  insert_at-Moved :
      (t0 : Table) (h0 : Heap V) (taken : Bool) (key : String) (r : Row V) (t : Table) (h : Heap V)
      → Moved t0 h0 t h
      → (q : ℕ) → Moved t0 h0 (insert_at taken key r q t h).1 (insert_at taken key r q t h).2
  unfolding store
  insert_at-Moved t0 h0 true key r t h m q = m
  insert_at-Moved t0 h0 false key r t h m q =
      Moved-later t0 h0 t h t (put_rows q (put (contents q h) key r) h) refl refl
        (put_rows-shared q t.rows (put (contents q h) key r) h) m

  delete_at-Moved :
      (t0 : Table) (h0 : Heap V) (there : Bool) (key : String) (t : Table) (h : Heap V)
      → Moved t0 h0 t h
      → (q : ℕ) → Moved t0 h0 (delete_at there key q t h).1 (delete_at there key q t h).2
  unfolding store
  delete_at-Moved t0 h0 true key t h m q =
      Moved-later t0 h0 t h t (put_rows q (delete (contents q h) key) h) refl refl
        (put_rows-shared q t.rows (delete (contents q h) key) h) m
  delete_at-Moved t0 h0 false key t h m q = m

  update_found-Moved :
      (t0 : Table) (h0 : Heap V) (key : String) (r : Option (Row V)) (t : Table) (h : Heap V)
      → Moved t0 h0 t h
      → (q : ℕ) → Moved t0 h0 (update_found key r q t h).1 (update_found key r q t h).2
  unfolding store
  update_found-Moved t0 h0 key none t h m q = m
  update_found-Moved t0 h0 key (some r) t h m q =
      Moved-later t0 h0 t h t (put_rows q (put (contents q h) key r) h) refl refl
        (put_rows-shared q t.rows (put (contents q h) key r) h) m

  update_row-Moved :
      (t0 : Table) (h0 : Heap V) (set : List (String × Option V)) (key : String)
      (r : Option (Row V)) (t : Table) (h : Heap V)
      → Moved t0 h0 t h
      → (q : ℕ) → Moved t0 h0 (update_row set key r q t h).1 (update_row set key r q t h).2
  update_row-Moved t0 h0 set key none t h m q = m
  update_row-Moved t0 h0 set key (some r) t h m q =
      update_found-Moved t0 h0 key (patched t.desc set r) t h m q

  insert_keyed-Moved :
      (key : Result KeyError String) (r : Row V) (t : Table) (h : Heap V)
      → Moved t h (insert_keyed key r t h).1 (insert_keyed key r t h).2
  unfolding insert_keyed
  insert_keyed-Moved (failed e) r t h = own refl (omega arith)
  insert_keyed-Moved (ok key) r t h =
      let (q, t2, h2) = writable t h in
      insert_at-Moved t h (has (contents q h2) key) key r t2 h2 (writable-Moved t h) q

  pub operate-Moved :
      (print : V → String) (op : Op V) (t : Table) (h : Heap V)
      → Allowed op h
      → Moved t h (operate print op t h).0 (operate print op t h).1
  unfolding operate insert update delete_row allocate replace_rows current_rows store
  operate-Moved print (inserting r) t h a = insert_keyed-Moved (pk_key print t.desc r) r t h
  operate-Moved print (updating key set) t h a =
      let (q, t2, h2) = writable t h in
      update_row-Moved t h set key (get (contents q h2) key) t2 h2 (writable-Moved t h) q
  operate-Moved print (deleting key) t h a =
      let (q, t2, h2) = writable t h in
      delete_at-Moved t h (has (contents q h2) key) key t2 h2 (writable-Moved t h) q
  operate-Moved print capturing t h a = own refl (omega arith)
  operate-Moved print (installing p) t h a = captured a.0 a.1 (omega arith)
  operate-Moved print clearing t h a = fresh (omega arith) (omega arith)
