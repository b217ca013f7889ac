-- ===== src/Sim/Isolation.antt =====
-- Tables that share row maps after a fork or a mark of internal/runtime/sandbox do not see each other's
-- writes.
use pacific_coast.Base.{
  ℕ, String, true, ◌==◌, nat_eq, string_eq, ==_refl, ◌≤◌, ◌<◌, ◌≡◌, ◌≢◌, inl, inr, refl, sym, ap,
  ◌∙◌, arith, Bool-cases,
}
use mathlib.Core.Path.{subst}
use pacific_coast.Sim.Table.{Heap, Table}
use pacific_coast.Sim.World.{World, Op, contents, operate, act}
use pacific_coast.Sim.Kept.{Kept, Safe, operate-Kept}
use pacific_coast.Sim.Moved.{Allowed, Moved, own, fresh, captured, operate-Moved}

module _ {V : Type 0} where
  -- a table's map exists, and two tables have the same one only if it has been captured
  pub record IsValid (w : World V) : Type 0 where
    pub made : (i : ℕ) → (w.tables i).rows < w.heap.fresh
    pub apart :
        (i j : ℕ)
        → i ≢ j
        → (w.tables i).rows ≡ (w.tables j).rows
        → (w.heap.cells (w.tables i).rows).shared ≡ true

  -- operations that are allowed, on tables other than one
  pub data Elsewhere (print : V → String) (j : ℕ) (w : World V) : World V → Type 0 where
    here : Elsewhere print j w w
    acts :
        {v : World V} (i : ℕ) (op : Op V)
        → i ≢ j
        → Allowed op v.heap
        → Elsewhere print j w v
        → Elsewhere print j w (act print i op v)

  -- a map of another table is safe from the writer
  apart-Safe :
      (w : World V) (i j : ℕ) → IsValid w → i ≢ j → Safe (w.tables j).rows (w.tables i) w.heap
  apart-Safe w i j v n = (
    v.made j,
    elim (Bool-cases ((w.tables i).rows == (w.tables j).rows)) [
      | inl same ↦
          let e : (w.tables i).rows ≡ (w.tables j).rows = ground (arith, same) in
          inl (ap (λ p. (w.heap.cells p).shared) (sym e) ∙ v.apart i j n e)
      | inr other ↦ inr (λ e. ground (arith, other, e))
    ],
  )

  act-table :
      (print : V → String) (i j : ℕ) (op : Op V) (w : World V)
      → i ≢ j
      → (act print i op w).tables j ≡ w.tables j
  unfolding act
  act-table print i j op w n = ground (arith, nat_eq.decides j i, n)

  act-own :
      (print : V → String) (i : ℕ) (op : Op V) (w : World V)
      → (act print i op w).tables i ≡ (operate print op (w.tables i) w.heap).0
  unfolding act
  act-own print i op w = ground (arith, ==_refl i)

  act-heap :
      (print : V → String) (i : ℕ) (op : Op V) (w : World V)
      → (act print i op w).heap ≡ (operate print op (w.tables i) w.heap).1
  unfolding act
  act-heap print i op w = refl

  -- the table that an operation is on, against another
  Moved-apart :
      (w : World V) (i j : ℕ) (t2 : Table) (h2 : Heap V)
      → IsValid w
      → i ≢ j
      → Kept (w.tables j).rows w.heap h2
      → Moved (w.tables i) w.heap t2 h2
      → t2.rows ≡ (w.tables j).rows
      → (h2.cells t2.rows).shared ≡ true
  Moved-apart w i j t2 h2 v n k (own m o) e =
      ap (λ p. (h2.cells p).shared) e
      ∙ k.still (ap (λ p. (w.heap.cells p).shared) (sym e ∙ m) ∙ v.apart i j n (sym m ∙ e))
  Moved-apart w i j t2 h2 v n k (fresh a b) e = ground (arith, v.made j)
  Moved-apart w i j t2 h2 v n k (captured a b o) e = b

  Moved-older :
      (t : Table) (h : Heap V) (t2 : Table) (h2 : Heap V) → Moved t h t2 h2 → h.fresh ≤ h2.fresh
  Moved-older t h t2 h2 (own m o) = o
  Moved-older t h t2 h2 (fresh c d) = omega arith
  Moved-older t h t2 h2 (captured c d o) = o

  Moved-made :
      (t : Table) (h : Heap V) (t2 : Table) (h2 : Heap V)
      → t.rows < h.fresh
      → Moved t h t2 h2
      → t2.rows < h2.fresh
  Moved-made t h t2 h2 a (own m o) = omega (arith, a, m)
  Moved-made t h t2 h2 a (fresh c d) = d
  Moved-made t h t2 h2 a (captured c d o) = omega (arith, c)

  -- the tables after an operation
  made-own :
      (print : V → String) (i : ℕ) (op : Op V) (w : World V)
      → Allowed op w.heap
      → IsValid w
      → ((act print i op w).tables i).rows < (act print i op w).heap.fresh
  unfolding act
  made-own print i op w a v = ground (
    arith,
    ==_refl i,
    Moved-made (w.tables i) w.heap (operate print op (w.tables i) w.heap).0
        (operate print op (w.tables i) w.heap).1 (v.made i)
        (operate-Moved print op (w.tables i) w.heap a),
  )

  made_other :
      (print : V → String) (i j : ℕ) (op : Op V) (w : World V)
      → Allowed op w.heap
      → IsValid w
      → i ≢ j
      → ((act print i op w).tables j).rows < (act print i op w).heap.fresh
  unfolding act
  made_other print i j op w a v n = omega (
    arith,
    ap (λ t. t.rows) (act-table print i j op w n),
    v.made j,
    Moved-older (w.tables i) w.heap (operate print op (w.tables i) w.heap).0
        (operate print op (w.tables i) w.heap).1 (operate-Moved print op (w.tables i) w.heap a),
  )

  apart-own :
      (print : V → String) (i j : ℕ) (op : Op V) (w : World V)
      → Allowed op w.heap
      → IsValid w
      → i ≢ j
      → ((act print i op w).tables i).rows ≡ ((act print i op w).tables j).rows
      → ((act print i op w).heap.cells ((act print i op w).tables i).rows).shared ≡ true
  unfolding act operate
  apart-own print i j op w a v n e =
      let (t2, h2) = operate print op (w.tables i) w.heap in
      let o = ap (λ t. t.rows) (act-own print i op w) in
      let u = ap (λ t. t.rows) (act-table print i j op w n) in
      ap (λ p. (h2.cells p).shared) o
      ∙ Moved-apart w i j t2 h2 v n
          (operate-Kept print op (w.tables j).rows (w.tables i) w.heap (apart-Safe w i j v n))
          (operate-Moved print op (w.tables i) w.heap a) (sym o ∙ e ∙ u)

  apart_others :
      (print : V → String) (i j k : ℕ) (op : Op V) (w : World V)
      → IsValid w
      → i ≢ j
      → i ≢ k
      → j ≢ k
      → ((act print i op w).tables j).rows ≡ ((act print i op w).tables k).rows
      → ((act print i op w).heap.cells ((act print i op w).tables j).rows).shared ≡ true
  unfolding act operate
  apart_others print i j k op w v n m d e =
      let (t2, h2) = operate print op (w.tables i) w.heap in
      let x = ap (λ t. t.rows) (act-table print i j op w n) in
      let y = ap (λ t. t.rows) (act-table print i k op w m) in
      ap (λ p. (h2.cells p).shared) x
      ∙ (operate-Kept print op (w.tables j).rows (w.tables i) w.heap (apart-Safe w i j v n)).still
          (v.apart j k d (sym x ∙ e ∙ y))

  act-IsValid :
      (print : V → String) (i : ℕ) (op : Op V) (w : World V)
      → Allowed op w.heap
      → IsValid w
      → IsValid (act print i op w)
  act-IsValid print i op w a v =
      let w2 = act print i op w in
      record {
        made = λ j. elim (Bool-cases (j == i)) [
          | inl same ↦
              subst (λ q. (w2.tables q).rows < w2.heap.fresh) (ground (arith, same))
                (made-own print i op w a v)
          | inr other ↦ made_other print i j op w a v (λ q. ground (arith, other, q))
        ];
        apart = λ j k n e. elim (Bool-cases (j == i)) [
          | inl same ↦
              let eq : j ≡ i = ground (arith, same) in
              ap (λ q. (w2.heap.cells (w2.tables q).rows).shared) eq
              ∙ apart-own print i k op w a v (λ q. n (eq ∙ q))
                  (ap (λ q. (w2.tables q).rows) (sym eq) ∙ e)
          | inr other ↦ elim (Bool-cases (k == i)) [
            | inl too ↦
                let eq : k ≡ i = ground (arith, too) in
                let rows = e ∙ ap (λ q. (w2.tables q).rows) eq in
                ap (λ p. (w2.heap.cells p).shared) rows
                ∙ apart-own print i j op w a v (λ q. n (sym q ∙ sym eq)) (sym rows)
            | inr neither ↦
                apart_others print i j k op w v (λ q. ground (arith, other, q))
                  (λ q. ground (arith, neither, q)) n e
          ]
        ];
      }

  -- In a valid world, in which every table's map exists and two tables have the same map only if it
  -- has been captured, allowed operations on other tables leave a table and its rows as they were, and
  -- the world valid.
  pub contents-Elsewhere :
      (print : V → String) (j : ℕ) (w v : World V)
      → IsValid w
      → Elsewhere print j w v
      → (v.tables j ≡ w.tables j)
        × (contents (v.tables j).rows v.heap ≡ contents (w.tables j).rows w.heap)
        × IsValid v
  unfolding act operate
  contents-Elsewhere print j w v valid here = (refl, refl, valid)
  contents-Elsewhere print j w v valid (acts {v = u} i op n a steps) =
      let (table, rows, still) = contents-Elsewhere print j w u valid steps in
      let same = act-table print i j op u n in
      (
        same ∙ table,
        ap (λ t. contents t.rows (act print i op u).heap) same
            ∙ (operate-Kept print op (u.tables j).rows (u.tables i) u.heap
                (apart-Safe u i j still n)).same
            ∙ rows,
        act-IsValid print i op u a still,
      )
