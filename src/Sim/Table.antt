-- ===== src/Sim/Table.antt =====
-- Tables, internal/runtime/sandbox/sim/table.go and the part of catalog.go they use. Row maps are
-- reached by pointers, so they stand in a heap: a table holds a number, and so does a mark or a fork. An
-- operation is one step. CurrentRows does not take the lock that the others take, and is taken to run
-- while no write is under way.
use pacific_coast.Base.{
  ℕ, zero, suc, String, Bool, true, false, Option, none, some, List, [], ◌∷◌, ◌==◌, nat_eq,
  string_eq, cat, if◌then◌else◌, ◌+◌, get, put, delete, has, length,
}

-- `none` is NULL
abbrev pub Row : Type 0 → Type 0
Row V = List (Option V)

pub record RowMap (V : Type 0) : Type 0 where
  pub m : List (String × Row V)
  pub shared : Bool

pub record TableDesc : Type 0 where
  pub cols : List String
  pub pk_cols : List String

-- the numbers below `fresh` are those of the maps made so far
pub record Heap (V : Type 0) : Type 0 where
  pub cells : ℕ → RowMap V
  pub fresh : ℕ

pub record Table : Type 0 where
  pub desc : TableDesc
  pub rows : ℕ
  pub next_serial : ℕ

unfoldable pub index_of : List String → String → Option ℕ
index_of [] name = none
index_of (c ∷ cs) name =
    let rest = index_of cs name in
    if c == name then some 0 else elim rest [ none ↦ none | some i ↦ some (i + 1) ]

-- -1 is `none`
unfoldable pub col_index : TableDesc → String → Option ℕ
col_index d name = index_of d.cols name

pub data KeyError : Type 0 where
  missing_pk : String → KeyError
  null_pk : String → KeyError
  no_pk_columns : KeyError

pub data InsertError : Type 0 where
  no_key : KeyError → InsertError
  pk_conflict : String → InsertError

pub data Result (E A : Type 0) : Type 0 where
  ok : A → Result E A
  failed : E → Result E A

unfoldable pub replace_rows : ℕ → Table → Table
replace_rows p t = record t { rows = p }

abbrev pub then_part :
    Result KeyError String → Result KeyError (List String) → Result KeyError (List String)
then_part (failed e) ps = failed e
then_part (ok p) (failed e) = failed e
then_part (ok p) (ok ps) = ok (p ∷ ps)

-- the parts with a zero byte between; without a column the source's `parts[0]` panics
abbrev pub join_parts : List String → Result KeyError String
join_parts [] = failed no_pk_columns
join_parts (p ∷ []) = ok p
join_parts (p ∷ q ∷ ps) =
    let rest = join_parts (q ∷ ps) in
    elim rest [ ok k ↦ ok (cat p (cat "\0" k)) | failed e ↦ failed e ]

abbrev pub joined : Result KeyError (List String) → Result KeyError String
joined (failed e) = failed e
joined (ok ps) = join_parts ps

module _ {V : Type 0} where
  abbrev pub at : Row V → ℕ → Option (Option V)
  at [] i = none
  at (v ∷ r) zero = some v
  at (v ∷ r) (suc i) = at r i

  -- a fresh map, and its number
  unfoldable pub allocate : RowMap V → Heap V → ℕ × Heap V
  allocate rm h =
      (h.fresh, record { cells = λ p. if p == h.fresh then rm else h.cells p; fresh = h.fresh + 1 })

  -- the map of a number is replaced in place
  unfoldable pub store : ℕ → RowMap V → Heap V → Heap V
  store q rm h = record h { cells = λ p. if p == q then rm else h.cells p }

  abbrev pub empty_rows : RowMap V
  empty_rows = record { m = []; shared = false }

  unfoldable pub new_table : TableDesc → Heap V → Table × Heap V
  new_table d h =
      let (p, h2) = allocate empty_rows h in (record { desc = d; rows = p; next_serial = 0 }, h2)

  -- the map that a mark or a fork holds from now on
  unfoldable pub current_rows : Table → Heap V → ℕ × Heap V
  current_rows t h = (t.rows, store t.rows (record (h.cells t.rows) { shared = true }) h)

  -- the value of one key column
  abbrev pub key_part : (V → String) → String → Option (Option V) → Result KeyError String
  key_part print pk none = failed (missing_pk pk)
  key_part print pk (some none) = failed (null_pk pk)
  key_part print pk (some (some v)) = ok (print v)

  abbrev pub column_value : Row V → Option ℕ → Option (Option V)
  column_value r none = none
  column_value r (some i) = at r i

  unfoldable pub key_parts :
      (V → String) → TableDesc → Row V → List String → Result KeyError (List String)
  key_parts print d r [] = ok []
  key_parts print d r (pk ∷ pks) =
      then_part (key_part print pk (column_value r (col_index d pk))) (key_parts print d r pks)

  unfoldable pub pk_key : (V → String) → TableDesc → Row V → Result KeyError String
  pk_key print d r = joined (key_parts print d r d.pk_cols)

  -- the map to change: one that has been captured is copied first
  unfoldable pub writable : Table → Heap V → ℕ × Table × Heap V
  writable t h = elim ((h.cells t.rows).shared) [
    | false ↦ (t.rows, t, h)
    | true ↦
        let (p, h2) = allocate (record { m = (h.cells t.rows).m; shared = false }) h in
        (p, record t { rows = p }, h2)
  ]

  -- the change of a map that is the writer's own
  abbrev pub put_rows : ℕ → List (String × Row V) → Heap V → Heap V
  put_rows p m h = store p (record (h.cells p) { m = m }) h

  -- by whether the key is taken
  abbrev pub insert_at :
      Bool → String → Row V → ℕ → Table → Heap V → Result InsertError String × Table × Heap V
  insert_at true key r p t h = (failed (pk_conflict key), t, h)
  insert_at false key r p t h = (ok key, t, put_rows p (put (h.cells p).m key r) h)

  unfoldable pub insert_keyed :
      Result KeyError String → Row V → Table → Heap V → Result InsertError String × Table × Heap V
  insert_keyed (failed e) r t h = (failed (no_key e), t, h)
  insert_keyed (ok key) r t h =
      let (p, t2, h2) = writable t h in insert_at (has (h2.cells p).m key) key r p t2 h2

  unfoldable pub insert :
      (V → String) → Row V → Table → Heap V → Result InsertError String × Table × Heap V
  insert print r t h = insert_keyed (pk_key print t.desc r) r t h

  unfoldable pub get_row : String → Table → Heap V → Option (Row V)
  get_row key t h = get (h.cells t.rows).m key

  -- an index beyond the row is `none`: the source panics
  unfoldable pub set_at : Row V → ℕ → Option V → Option (Row V)
  set_at [] i v = none
  set_at (w ∷ r) zero v = some (v ∷ r)
  set_at (w ∷ r) (suc i) v =
      let rest = set_at r i v in elim rest [ none ↦ none | some q ↦ some (w ∷ q) ]

  abbrev pub set_column : Option ℕ → Option V → Row V → Option (Row V)
  set_column none v r = some r
  set_column (some i) v r = set_at r i v

  -- the columns of the patch in turn; an unknown one is passed over
  unfoldable pub patched : TableDesc → List (String × Option V) → Row V → Option (Row V)
  patched d [] r = some r
  patched d (c ∷ cs) r = elim (set_column (col_index d c.0) c.1 r) [
    | none ↦ none
    | some q ↦ patched d cs q
  ]

  -- the rows affected, or `none` for the panic of an index beyond the row
  abbrev pub update_found : String → Option (Row V) → ℕ → Table → Heap V → Option ℕ × Table × Heap V
  update_found key none p t h = (none, t, h)
  update_found key (some r) p t h = (some 1, t, put_rows p (put (h.cells p).m key r) h)

  abbrev pub update_row :
      List (String × Option V)
      → String
      → Option (Row V)
      → ℕ
      → Table
      → Heap V
      → Option ℕ × Table × Heap V
  update_row set key none p t h = (some 0, t, h)
  update_row set key (some r) p t h = update_found key (patched t.desc set r) p t h

  unfoldable pub update :
      String → List (String × Option V) → Table → Heap V → Option ℕ × Table × Heap V
  update key set t h =
      let (p, t2, h2) = writable t h in update_row set key (get (h2.cells p).m key) p t2 h2

  -- by whether there is a row
  abbrev pub delete_at : Bool → String → ℕ → Table → Heap V → ℕ × Table × Heap V
  delete_at true key p t h = (1, t, put_rows p (delete (h.cells p).m key) h)
  delete_at false key p t h = (0, t, h)

  unfoldable pub delete_row : String → Table → Heap V → ℕ × Table × Heap V
  delete_row key t h =
      let (p, t2, h2) = writable t h in delete_at (has (h2.cells p).m key) key p t2 h2

  unfoldable pub len : Table → Heap V → ℕ
  len t h = length (h.cells t.rows).m
