-- ===== src/Paging/Order.antt =====
-- What the predicate of internal/runtime/pagination.go means on a row, against the order of the pages.
use pacific_coast.Base.{
  ℕ, String, Bool, true, false, List, [], ◌∷◌, ◌++◌, not, ◌&&◌, ◌||◌, ◌+◌, ◌≡◌, refl, arith,
}
use pacific_coast.Paging.Keyset.{
  KeysetColumn, Bound, Operator, is_greater, is_less, Fragment, row_value, nested_or, all_asc,
  all_desc, bounds, alternatives, keyset_fragment,
}

-- how a row's column compares to the value of a placeholder
pub data Ordering : Type 0 where
  below equal above : Ordering

module _ (order : String → ℕ → Ordering) where
  abbrev pub is_equal : Bound → Bool
  is_equal b = elim (order b.0 b.1) [ below ↦ false | equal ↦ true | above ↦ false ]

  abbrev pub holds : Operator → Ordering → Bool
  holds is_greater above = true
  holds is_less below = true
  holds op o = false

  -- Postgres compares rows by the first column that differs
  abbrev pub row_order : List Bound → Ordering
  row_order [] = equal
  row_order (b ∷ bs) =
      let rest = row_order bs in
      elim (order b.0 b.1) [ below ↦ below | equal ↦ rest | above ↦ above ]

  abbrev pub all_equal : List Bound → Bool
  all_equal [] = true
  all_equal (b ∷ bs) = is_equal b && all_equal bs

  abbrev pub any_holds : List (List Bound × Operator × Bound) → Bool
  any_holds [] = false
  any_holds ((es, op, b) ∷ alts) = (all_equal es && holds op (order b.0 b.1)) || any_holds alts

  -- the fragment's meaning in SQL
  unfoldable pub meaning : Fragment → Bool
  meaning (row_value op bs) = holds op (row_order bs)
  meaning (nested_or alts) = any_holds alts

  -- a row comes after the cursor's in the order of the pages: by the first column that differs, upwards
  -- or downwards as that column is ordered
  unfoldable pub comes_after : ℕ → List KeysetColumn → Bool
  comes_after n [] = false
  comes_after n (c ∷ cs) =
      let rest = comes_after (n + 1) cs in
      elim (order c.quoted_ident n) [ below ↦ c.desc | equal ↦ rest | above ↦ not c.desc ]

  all_equal-append :
      (xs : List Bound) (b : Bound) → all_equal (xs ++ b ∷ []) ≡ (all_equal xs && is_equal b)
  all_equal-append [] b = ground arith
  all_equal-append (x ∷ xs) b = ground (arith, all_equal-append xs b)

  row_order-asc :
      (n : ℕ) (cs : List KeysetColumn)
      → all_asc cs ≡ true
      → holds is_greater (row_order (bounds n cs)) ≡ comes_after n cs
  unfolding comes_after
  row_order-asc n [] h = refl
  row_order-asc n (c ∷ cs) h = ground (arith, h, row_order-asc (n + 1) cs)

  row_order-desc :
      (n : ℕ) (cs : List KeysetColumn)
      → all_desc cs ≡ true
      → holds is_less (row_order (bounds n cs)) ≡ comes_after n cs
  unfolding comes_after
  row_order-desc n [] h = refl
  row_order-desc n (c ∷ cs) h = ground (arith, h, row_order-desc (n + 1) cs)

  any_holds-alternatives :
      (before : List Bound) (n : ℕ) (cs : List KeysetColumn)
      → any_holds (alternatives before n cs) ≡ (all_equal before && comes_after n cs)
  unfolding comes_after
  any_holds-alternatives before n [] = ground arith
  any_holds-alternatives before n (c ∷ cs) = ground (
    arith,
    all_equal-append before (c.quoted_ident, n),
    any_holds-alternatives (before ++ (c.quoted_ident, n) ∷ []) (n + 1) cs,
  )

  -- On a row without NULL, the predicate holds exactly if the row comes after the cursor's in the order
  -- of the pages, whichever of the three forms it has: one direction for all columns, or mixed ones.
  pub meaning-keyset_fragment :
      (n : ℕ) (cols : List KeysetColumn) → meaning (keyset_fragment n cols) ≡ comes_after n cols
  unfolding meaning keyset_fragment
  meaning-keyset_fragment n cols =
      ground (arith, row_order-asc n cols, row_order-desc n cols, any_holds-alternatives [] n cols)
