-- ===== src/Sim/Marks.antt =====
-- A mark of internal/runtime/sandbox/marks.go brings every table back.
use pacific_coast.Base.{
  ℕ, String, Bool, true, false, Option, none, some, List, [], ◌∷◌, ◌==◌, nat_eq, string_eq, ==_refl,
  get, has, ◌<◌, ◌≡◌, ◌≢◌, ◌⊎◌, refl, sym, ap, ◌∙◌, arith, Bool-cases, inl, inr,
}
use mathlib.Core.List.{Memᴰ}
use pacific_coast.Sim.Table.{Row, replace_rows}
use pacific_coast.Sim.World.{World, Op, installing, clearing, contents, operate, act, act_all}
use pacific_coast.Sim.Kept.{Captured, act_all-Captured}
use pacific_coast.Sim.Pool.{
  Pool, capture_into, capture_pointers, install_one, install_all, clear_one, clear_missing,
  replace_from_pointers,
}
use pacific_coast.Sim.Captures.{Unique, act-Captured, capture_into-Mem, capture_into-Unique}

-- two names have two tables
abbrev pub Injective : Pool → Type 0
Injective pool = (a b : String) (i : ℕ) → get pool a ≡ some i → get pool b ≡ some i → a ≡ b

module _ {V : Type 0} (print : V → String) where
  -- the table of a name during a restoration
  record Restored (i p : ℕ) (m : List (String × Row V)) (w : World V) : Type 0 where
    pointer : (w.tables i).rows ≡ p
    frozen : Captured p m w.heap

  act_other : (i j : ℕ) (op : Op V) (w : World V) → i ≢ j → (act print i op w).tables j ≡ w.tables j
  unfolding act
  act_other i j op w n = ground (arith, nat_eq.decides j i, n)

  install-own : (i p : ℕ) (w : World V) → ((act print i (installing p) w).tables i).rows ≡ p
  unfolding act operate replace_rows
  install-own i p w = ground (arith, ==_refl i)

  install_one-Captured :
      (o : Option ℕ) (q p : ℕ) (m : List (String × Row V)) (w : World V)
      → Captured p m w.heap
      → Captured p m (install_one print o q w).heap
  install_one-Captured none q p m w c = c
  install_one-Captured (some i) q p m w c = act-Captured print i (installing q) p m w c

  install_one_other :
      (o : Option ℕ) (q j : ℕ) (w : World V)
      → o ≢ some j
      → (install_one print o q w).tables j ≡ w.tables j
  install_one_other none q j w n = refl
  install_one_other (some i) q j w n = act_other i j (installing q) w (λ e. n (ap some e))

  -- names that are not the table's own leave it
  install_all_other :
      (pool : Pool) (snap : Pool) (qn : String) (i p : ℕ) (m : List (String × Row V)) (w : World V)
      → Injective pool
      → get pool qn ≡ some i
      → get snap qn ≡ none
      → Restored i p m w
      → Restored i p m (install_all print pool snap w)
  unfolding install_all
  install_all_other pool [] qn i p m w inj g n r = r
  install_all_other pool ((a, q) ∷ snap) qn i p m w inj g n r =
      let apart : (a == qn) ≡ false = ground (arith, n) in
      let rest : get snap qn ≡ none = ground (arith, n) in
      let other =
        install_one_other (get pool a) q i w
          (λ e. ground (arith, apart, string_eq.decides a qn, inj a qn i e g)) in
      install_all_other pool snap qn i p m (install_one print (get pool a) q w) inj g rest (record {
        pointer = ap (λ t. t.rows) other ∙ r.pointer;
        frozen = install_one-Captured (get pool a) q p m w r.frozen;
      })

  install_all-Restored :
      (pool : Pool) (snap : Pool) (qn : String) (i p : ℕ) (m : List (String × Row V)) (w : World V)
      → Injective pool
      → Unique snap
      → get pool qn ≡ some i
      → get snap qn ≡ some p
      → Captured p m w.heap
      → Restored i p m (install_all print pool snap w)
  unfolding install_all
  install_all-Restored pool [] qn i p m w inj u g s c = ground (arith, s)
  install_all-Restored pool ((a, q) ∷ snap) qn i p m w inj u g s c =
      let w2 = install_one print (get pool a) q w in
      let c2 = install_one-Captured (get pool a) q p m w c in
      elim (Bool-cases (a == qn)) [
        | inl same ↦
            let it : a ≡ qn = ground (arith, same, string_eq.decides a qn) in
            let value : q ≡ p = ground (arith, s, same) in
            install_all_other pool snap qn i p m w2 inj g (ap (get snap) (sym it) ∙ u.0) (record {
              pointer =
                  ap (λ o. ((install_one print o q w).tables i).rows) (ap (get pool) it ∙ g)
                  ∙ install-own i q w
                  ∙ value;
              frozen = c2;
            })
        | inr apart ↦
            install_all-Restored pool snap qn i p m w2 inj u.1 g (ground (arith, s, apart)) c2
      ]

  clear_one-Restored :
      (there : Bool) (o : Option ℕ) (i p : ℕ) (m : List (String × Row V)) (w : World V)
      → (there ≡ true) ⊎ (o ≢ some i)
      → Restored i p m w
      → Restored i p m (clear_one print there o w)
  clear_one-Restored true o i p m w h r = r
  clear_one-Restored false none i p m w h r = r
  clear_one-Restored false (some j) i p m w (inl e) r = ground (arith, e)
  clear_one-Restored false (some j) i p m w (inr n) r = record {
    pointer = ap (λ t. t.rows) (act_other j i clearing w (λ e. n (ap some e))) ∙ r.pointer;
    frozen = act-Captured print j clearing p m w r.frozen;
  }

  clear_missing-Restored :
      (names : List String) (pool snap : Pool) (qn : String) (i p : ℕ) (m : List (String × Row V))
      (w : World V)
      → Injective pool
      → get pool qn ≡ some i
      → has snap qn ≡ true
      → Restored i p m w
      → Restored i p m (clear_missing print names pool snap w)
  unfolding clear_missing
  clear_missing-Restored [] pool snap qn i p m w inj g s r = r
  clear_missing-Restored (a ∷ names) pool snap qn i p m w inj g s r =
      clear_missing-Restored names pool snap qn i p m (clear_one print (has snap a) (get pool a) w)
        inj g s
        (clear_one-Restored (has snap a) (get pool a) i p m w
          (elim (Bool-cases (a == qn)) [
            | inl same ↦
                let it : a ≡ qn = ground (arith, same, string_eq.decides a qn) in
                inl (ap (has snap) it ∙ s)
            | inr apart ↦ inr (λ e. ground (arith, apart, string_eq.decides a qn, inj a qn i e g))
          ])
          r)

-- A sandbox marks its tables; after any operations on any tables, its own or those of other sandboxes,
-- the mark is restored. Then every table of the catalog that the sandbox had has its rows of the time
-- of the mark, if different names have different tables.
pub replace_from_pointers-capture_pointers :
    {V : Type 0} (print : V → String) (names : List String) (pool : Pool) (ops : List (ℕ × Op V))
    (w : World V) (qn : String) (i : ℕ)
    → Injective pool
    → Memᴰ qn names
    → get pool qn ≡ some i
    → (w.tables i).rows < w.heap.fresh
    → let (mark, marked) = capture_pointers print names pool w in
      let v = replace_from_pointers print names pool mark (act_all print ops marked) in
      contents (v.tables i).rows v.heap ≡ contents (w.tables i).rows w.heap
unfolding capture_pointers replace_from_pointers
replace_from_pointers-capture_pointers print names pool ops w qn i inj mem g made =
    let p = (w.tables i).rows in
    let m = contents p w.heap in
    let (mark, marked) = capture_into print names pool [] w in
    let k =
      capture_into-Mem print names pool qn i p m [] w mem g
        (record { pointer = refl; made = made; rows = refl }) in
    let u = capture_into-Unique print names pool [] w tt in
    let later = act_all print ops marked in
    let c = act_all-Captured print ops p m marked k.frozen in
    let r = install_all-Restored print pool mark qn i p m later inj u g k.kept c in
    let there : has mark qn ≡ true = ground (arith, k.kept) in
    let done =
      clear_missing-Restored print names pool mark qn i p m (install_all print pool mark later) inj
        g there r in
    ap
      (λ n.
        contents n (clear_missing print names pool mark (install_all print pool mark later)).heap)
      done.pointer
    ∙ done.frozen.holds
