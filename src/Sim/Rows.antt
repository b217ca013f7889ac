-- ===== src/Sim/Rows.antt =====
-- What the operations of internal/runtime/sandbox/sim/table.go do to a table's rows, as plain maps that
-- nothing shares.
use pacific_coast.Base.{
  ℕ, String, Bool, true, false, Option, none, some, List, [], nat_eq, string_eq, ==_refl,
  if◌then◌else◌, get, put, delete, has, ◌≡◌, inl, inr, refl, ap, ◌∙◌, arith, Bool-cases,
}
use pacific_coast.Sim.Table.{
  Row, TableDesc, Heap, Table, KeyError, Result, ok, failed, allocate, store, current_rows,
  replace_rows, pk_key, writable, put_rows, insert, insert_keyed, insert_at, delete_at, update,
  update_row, update_found, patched, delete_row,
}
use pacific_coast.Sim.World.{
  Op, inserting, updating, deleting, capturing, installing, clearing, contents, operate,
}

module _ {V : Type 0} where
  abbrev inserted : Result KeyError String → Row V → List (String × Row V) → List (String × Row V)
  inserted (failed e) r m = m
  inserted (ok key) r m = if has m key then m else put m key r

  abbrev replaced : String → Option (Row V) → List (String × Row V) → List (String × Row V)
  replaced key none m = m
  replaced key (some r) m = put m key r

  abbrev updated :
      TableDesc
      → List (String × Option V)
      → String
      → Option (Row V)
      → List (String × Row V)
      → List (String × Row V)
  updated d set key none m = m
  updated d set key (some r) m = replaced key (patched d set r) m

  -- the rows after an operation; `captured` are the maps that can be installed
  abbrev pub revised :
      (V → String)
      → TableDesc
      → (ℕ → List (String × Row V))
      → Op V
      → List (String × Row V)
      → List (String × Row V)
  revised print d captured (inserting r) m = inserted (pk_key print d r) r m
  revised print d captured (updating key set) m = updated d set key (get m key) m
  revised print d captured (deleting key) m = if has m key then delete m key else m
  revised print d captured capturing m = m
  revised print d captured (installing p) m = captured p
  revised print d captured clearing m = []

  -- the writer's own map has the table's rows
  record Own (t : Table) (h : Heap V) (q : ℕ) (t2 : Table) (h2 : Heap V) : Type 0 where
    rows : contents q h2 ≡ contents t.rows h
    pointer : t2.rows ≡ q
    desc : t2.desc ≡ t.desc

  writable-Own :
      (t : Table) (h : Heap V) → Own t h (writable t h).0 (writable t h).1 (writable t h).2
  unfolding writable allocate
  writable-Own t h = elim (Bool-cases ((h.cells t.rows).shared)) [
    | inl shared ↦ record {
      rows = ground (arith, shared, ==_refl h.fresh);
      pointer = ground (arith, shared);
      desc = ground (arith, shared);
    }
    | inr free ↦ record {
      rows = ground (arith, free);
      pointer = ground (arith, free);
      desc = ground (arith, free);
    }
  ]

  put_rows-contents :
      (q : ℕ) (m : List (String × Row V)) (h : Heap V) → contents q (put_rows q m h) ≡ m
  unfolding store
  put_rows-contents q m h = ground (arith, ==_refl q)

  insert_at-rows :
      (taken : Bool) (key : String) (r : Row V) (q : ℕ) (t : Table) (h : Heap V)
      → t.rows ≡ q
      → contents (insert_at taken key r q t h).1.rows (insert_at taken key r q t h).2
        ≡ (if taken then contents q h else put (contents q h) key r)
  insert_at-rows true key r q t h e = ap (λ p. contents p h) e
  insert_at-rows false key r q t h e =
      let m = put (contents q h) key r in
      ap (λ p. contents p (put_rows q m h)) e ∙ put_rows-contents q m h

  delete_at-rows :
      (there : Bool) (key : String) (q : ℕ) (t : Table) (h : Heap V)
      → t.rows ≡ q
      → contents (delete_at there key q t h).1.rows (delete_at there key q t h).2
        ≡ (if there then delete (contents q h) key else contents q h)
  delete_at-rows true key q t h e =
      let m = delete (contents q h) key in
      ap (λ p. contents p (put_rows q m h)) e ∙ put_rows-contents q m h
  delete_at-rows false key q t h e = ap (λ p. contents p h) e

  update_found-rows :
      (key : String) (r : Option (Row V)) (q : ℕ) (t : Table) (h : Heap V)
      → t.rows ≡ q
      → contents (update_found key r q t h).1.rows (update_found key r q t h).2
        ≡ replaced key r (contents q h)
  update_found-rows key none q t h e = ap (λ p. contents p h) e
  update_found-rows key (some r) q t h e =
      let m = put (contents q h) key r in
      ap (λ p. contents p (put_rows q m h)) e ∙ put_rows-contents q m h

  update_row-rows :
      (set : List (String × Option V)) (key : String) (r : Option (Row V)) (q : ℕ) (t : Table)
      (h : Heap V)
      → t.rows ≡ q
      → contents (update_row set key r q t h).1.rows (update_row set key r q t h).2
        ≡ updated t.desc set key r (contents q h)
  update_row-rows set key none q t h e = ap (λ p. contents p h) e
  update_row-rows set key (some r) q t h e = update_found-rows key (patched t.desc set r) q t h e

  insert_keyed-rows :
      (key : Result KeyError String) (r : Row V) (t : Table) (h : Heap V)
      → contents (insert_keyed key r t h).1.rows (insert_keyed key r t h).2
        ≡ inserted key r (contents t.rows h)
  unfolding insert_keyed
  insert_keyed-rows (failed e) r t h = refl
  insert_keyed-rows (ok key) r t h =
      let (q, t2, h2) = writable t h in
      let o = writable-Own t h in
      insert_at-rows (has (contents q h2) key) key r q t2 h2 o.pointer
      ∙ ap (λ m. inserted (ok key) r m) o.rows

  -- Every operation changes a table's rows the way it would change a plain map, whether the map the
  -- table holds has been captured or not: an insert adds a row under a free key, an update replaces
  -- the row of a key, a delete removes it, a capture changes nothing, an installed map brings its
  -- rows, and a reset leaves none.
  pub operate-revised :
      (print : V → String) (op : Op V) (t : Table) (h : Heap V)
      → let (t2, h2) = operate print op t h in
        contents t2.rows h2 ≡ revised print t.desc (λ p. contents p h) op (contents t.rows h)
  unfolding operate insert update delete_row replace_rows current_rows store allocate
  operate-revised print (inserting r) t h = insert_keyed-rows (pk_key print t.desc r) r t h
  operate-revised print (updating key set) t h =
      let (q, t2, h2) = writable t h in
      let o = writable-Own t h in
      update_row-rows set key (get (contents q h2) key) q t2 h2 o.pointer
      ∙ ap (λ m. updated t2.desc set key (get m key) m) o.rows
      ∙ ap (λ d. updated d set key (get (contents t.rows h) key) (contents t.rows h)) o.desc
  operate-revised print (deleting key) t h =
      let (q, t2, h2) = writable t h in
      let o = writable-Own t h in
      delete_at-rows (has (contents q h2) key) key q t2 h2 o.pointer
      ∙ ap (λ m. if has m key then delete m key else m) o.rows
  operate-revised print capturing t h = ground (arith, ==_refl t.rows)
  operate-revised print (installing p) t h = refl
  operate-revised print clearing t h = ground (arith, ==_refl h.fresh)
