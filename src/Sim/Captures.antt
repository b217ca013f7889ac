-- ===== src/Sim/Captures.antt =====
-- Each table that a mark of internal/runtime/sandbox/marks.go holds stays captured.
use pacific_coast.Base.{
  ℕ, String, Bool, true, false, Option, none, some, List, [], ◌∷◌, ◌==◌, nat_eq, string_eq, get,
  put, get-put, ◌<◌, ◌≡◌, refl, sym, ap, ◌∙◌, arith, if◌then◌else◌,
}
use mathlib.Core.List.{Memᴰ}
use pacific_coast.Sim.Table.{Row}
use pacific_coast.Sim.World.{World, Op, capturing, contents, operate, act, act_all}
use pacific_coast.Sim.Kept.{capture-Kept, Captured, capture-Captured, act_all-Captured}
use pacific_coast.Sim.Pool.{Pool, capture_one, capture_into}

-- no name stands twice
abbrev pub Unique : Pool → Type 0
Unique [] = Unit
Unique ((qn, p) ∷ rest) = (get rest qn ≡ none) × Unique rest

put-Unique : (m : Pool) (k : String) (p : ℕ) → Unique m → Unique (put m k p)
put-Unique [] k p u = (refl, tt)
put-Unique ((j, q) ∷ m) k p u = ground (
  arith,
  u.0,
  put-Unique m k p u.1,
  get-put m k j p,
  string_eq.decides j k,
  string_eq.decides k j,
)

same_index : (i j : ℕ) → some i ≡ some j → i ≡ j
same_index i j e = ground (arith, e)

replaced_value :
    (same : Bool) (q p : ℕ) (o : Option ℕ)
    → (same ≡ true → q ≡ p)
    → o ≡ some p
    → (if same then some q else o) ≡ some p
replaced_value true q p o h e = ap some (h refl)
replaced_value false q p o h e = e

module _ {V : Type 0} (print : V → String) where
  pub act-Captured :
      (i : ℕ) (op : Op V) (p : ℕ) (m : List (String × Row V)) (w : World V)
      → Captured p m w.heap
      → Captured p m (act print i op w).heap
  unfolding act_all
  act-Captured i op p m w c = act_all-Captured print ((i, op) ∷ []) p m w c

  -- the table of a name during a capture: its map is captured, and the mark has it
  pub record Marked (qn : String) (p : ℕ) (m : List (String × Row V)) (out : Pool) (w : World V)
      : Type 0 where
    pub kept : get out qn ≡ some p
    pub frozen : Captured p m w.heap

  capturing-tables : (i j : ℕ) (w : World V) → (act print i capturing w).tables j ≡ w.tables j
  unfolding act operate
  capturing-tables i j w = ground (arith, nat_eq.decides j i, ap w.tables {x = j} {y = i})

  capture_one-tables :
      (qn : String) (o : Option ℕ) (out : Pool) (w : World V) (j : ℕ)
      → (capture_one print qn o out w).1.tables j ≡ w.tables j
  capture_one-tables qn none out w j = refl
  capture_one-tables qn (some i) out w j = capturing-tables i j w

  capture_one-Marked :
      (a : String) (o : Option ℕ) (qn : String) (p : ℕ) (m : List (String × Row V)) (out : Pool)
      (w : World V)
      → ((i : ℕ) → a ≡ qn → o ≡ some i → (w.tables i).rows ≡ p)
      → Marked qn p m out w
      → Marked qn p m (capture_one print a o out w).0 (capture_one print a o out w).1
  capture_one-Marked a none qn p m out w h k = k
  capture_one-Marked a (some i) qn p m out w h k = record {
    kept =
        get-put out a qn (w.tables i).rows
        ∙ replaced_value (a == qn) (w.tables i).rows p (get out qn)
            (λ e. h i (ground (arith, e, string_eq.decides a qn)) refl) k.kept;
    frozen = act-Captured i capturing p m w k.frozen;
  }

  capture_into-Marked :
      (names : List String) (pool : Pool) (qn : String) (i p : ℕ) (m : List (String × Row V))
      (out : Pool) (w : World V)
      → get pool qn ≡ some i
      → (w.tables i).rows ≡ p
      → Marked qn p m out w
      → Marked qn p m
          (capture_into print names pool out w).0
          (capture_into print names pool out w).1
  unfolding capture_into
  capture_into-Marked [] pool qn i p m out w g e k = k
  capture_into-Marked (a ∷ names) pool qn i p m out w g e k =
      let (out2, w2) = capture_one print a (get pool a) out w in
      capture_into-Marked names pool qn i p m out2 w2 g
        (ap (λ t. t.rows) (capture_one-tables a (get pool a) out w i) ∙ e)
        (capture_one-Marked a (get pool a) qn p m out w
          (λ i2 s o.
            ap (λ j. (w.tables j).rows) (same_index i2 i (sym o ∙ ap (get pool) s ∙ g)) ∙ e)
          k)

  -- a map before its capture
  pub record Present (i p : ℕ) (m : List (String × Row V)) (w : World V) : Type 0 where
    pub pointer : (w.tables i).rows ≡ p
    pub made : p < w.heap.fresh
    pub rows : contents p w.heap ≡ m

  capture_one-Present :
      (a : String) (o : Option ℕ) (i p : ℕ) (m : List (String × Row V)) (out : Pool) (w : World V)
      → Present i p m w
      → Present i p m (capture_one print a o out w).1
  unfolding act operate
  capture_one-Present a none i p m out w k = k
  capture_one-Present a (some j) i p m out w k =
      let kept = capture-Kept p (w.tables j) w.heap in
      record {
        pointer = ap (λ t. t.rows) (capturing-tables j i w) ∙ k.pointer;
        made = omega (arith, k.made, kept.older);
        rows = kept.same ∙ k.rows;
      }

  capture_one-own :
      (a : String) (o : Option ℕ) (qn : String) (i p : ℕ) (m : List (String × Row V)) (out : Pool)
      (w : World V)
      → qn ≡ a
      → o ≡ some i
      → Present i p m w
      → Marked qn p m (capture_one print a o out w).0 (capture_one print a o out w).1
  capture_one-own a none qn i p m out w e g k = ground (arith, g)
  capture_one-own a (some j) qn i p m out w e g k =
      let own : (w.tables j).rows ≡ p =
        ap (λ n. (w.tables n).rows) (same_index j i g) ∙ k.pointer in
      let captured = capture-Captured print j w (omega (arith, own, k.made)) in
      record {
        kept = get-put out a qn (w.tables j).rows ∙ ground (arith, string_eq.decides a qn, e, own);
        frozen = record {
          made = omega (arith, captured.made, own);
          frozen =
              ap (λ n. ((act print j capturing w).heap.cells n).shared) (sym own) ∙ captured.frozen;
          holds =
              ap (λ n. contents n (act print j capturing w).heap) (sym own)
              ∙ captured.holds
              ∙ ap (λ n. contents n w.heap) own
              ∙ k.rows;
        };
      }

  -- a name that the catalog has is captured
  pub capture_into-Mem :
      (names : List String) (pool : Pool) (qn : String) (i p : ℕ) (m : List (String × Row V))
      (out : Pool) (w : World V)
      → Memᴰ qn names
      → get pool qn ≡ some i
      → Present i p m w
      → Marked qn p m
          (capture_into print names pool out w).0
          (capture_into print names pool out w).1
  unfolding capture_into
  capture_into-Mem [] pool qn i p m out w mem g k = elim mem [ ]
  capture_into-Mem (a ∷ names) pool qn i p m out w (Memᴰ.head e) g k =
      let (out2, w2) = capture_one print a (get pool a) out w in
      capture_into-Marked names pool qn i p m out2 w2 g
        (capture_one-Present a (get pool a) i p m out w k).pointer
        (capture_one-own a (get pool a) qn i p m out w e (ap (get pool) (sym e) ∙ g) k)
  capture_into-Mem (a ∷ names) pool qn i p m out w (Memᴰ.tail mem) g k =
      let (out2, w2) = capture_one print a (get pool a) out w in
      capture_into-Mem names pool qn i p m out2 w2 mem g
        (capture_one-Present a (get pool a) i p m out w k)

  capture_one-Unique :
      (a : String) (o : Option ℕ) (out : Pool) (w : World V)
      → Unique out
      → Unique (capture_one print a o out w).0
  capture_one-Unique a none out w u = u
  capture_one-Unique a (some i) out w u = put-Unique out a (w.tables i).rows u

  pub capture_into-Unique :
      (names : List String) (pool out : Pool) (w : World V)
      → Unique out
      → Unique (capture_into print names pool out w).0
  unfolding capture_into
  capture_into-Unique [] pool out w u = u
  capture_into-Unique (a ∷ names) pool out w u =
      let (out2, w2) = capture_one print a (get pool a) out w in
      capture_into-Unique names pool out2 w2 (capture_one-Unique a (get pool a) out w u)
