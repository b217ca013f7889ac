-- ===== src/Paging/Keyset.antt =====
-- The predicate and the ORDER BY of a page, internal/runtime/pagination.go. A fragment is built as data
-- and printed, so that it has both a text and a meaning.
use pacific_coast.Base.{
  ℕ, String, Bool, true, List, [], ◌∷◌, ◌++◌, ◌==◌, nat_eq, cat, not, ◌&&◌, length, if◌then◌else◌,
  ◌+◌, pos, format_int,
}

pub record KeysetColumn : Type 0 where
  pub quoted_ident : String
  pub desc : Bool

-- a column against a placeholder
abbrev pub Bound : Type 0
Bound = String × ℕ

pub data Operator : Type 0 where
  is_greater is_less : Operator

-- a row comparison, or alternatives that each hold some columns equal and then advance
pub data Fragment : Type 0 where
  row_value : Operator → List Bound → Fragment
  nested_or : List (List Bound × Operator × Bound) → Fragment

abbrev pub all_asc : List KeysetColumn → Bool
all_asc [] = true
all_asc (c ∷ cs) = not c.desc && all_asc cs

abbrev pub all_desc : List KeysetColumn → Bool
all_desc [] = true
all_desc (c ∷ cs) = c.desc && all_desc cs

-- each column with its placeholder
abbrev pub bounds : ℕ → List KeysetColumn → List Bound
bounds n [] = []
bounds n (c ∷ cs) = (c.quoted_ident, n) ∷ bounds (n + 1) cs

abbrev pub advancing : KeysetColumn → Operator
advancing c = if c.desc then is_less else is_greater

abbrev pub alternatives : List Bound → ℕ → List KeysetColumn → List (List Bound × Operator × Bound)
alternatives before n [] = []
alternatives before n (c ∷ cs) =
    (before, advancing c, (c.quoted_ident, n))
    ∷ alternatives (before ++ (c.quoted_ident, n) ∷ []) (n + 1) cs

unfoldable pub keyset_fragment : ℕ → List KeysetColumn → Fragment
keyset_fragment n cols =
    if all_asc cols
    then row_value is_greater (bounds n cols)
    else if all_desc cols
    then row_value is_less (bounds n cols)
    else nested_or (alternatives [] n cols)

abbrev pub join : String → List String → String
join sep [] = ""
join sep (s ∷ []) = s
join sep (s ∷ t ∷ ts) = cat s (cat sep (join sep (t ∷ ts)))

abbrev pub placeholder : ℕ → String
placeholder n = cat "$" (format_int (pos n))

abbrev pub op_text : Operator → String
op_text is_greater = ">"
op_text is_less = "<"

abbrev pub idents : List Bound → List String
idents [] = []
idents (b ∷ bs) = b.0 ∷ idents bs

abbrev pub placeholders : List Bound → List String
placeholders [] = []
placeholders (b ∷ bs) = placeholder b.1 ∷ placeholders bs

-- the equalities of an alternative and then its comparison
abbrev pub conditions : List Bound → Operator × Bound → List String
conditions [] (op, b) = cat b.0 (cat " " (cat (op_text op) (cat " " (placeholder b.1)))) ∷ []
conditions (e ∷ es) c = cat e.0 (cat " = " (placeholder e.1)) ∷ conditions es c

abbrev pub printed_alternatives : List (List Bound × Operator × Bound) → List String
printed_alternatives [] = []
printed_alternatives ((es, op, b) ∷ alts) =
    cat "(" (cat (join " AND " (conditions es (op, b))) ")") ∷ printed_alternatives alts

unfoldable pub print_fragment : Fragment → String
print_fragment (row_value op bs) = cat "(" (
    cat (join ", " (idents bs))
      (cat ") " (cat (op_text op) (cat " (" (cat (join ", " (placeholders bs)) ")")))))
print_fragment (nested_or alts) = cat "(" (cat (join " OR " (printed_alternatives alts)) ")")

-- no predicate, a predicate with its arguments, or columns and values that do not match
pub data Keyset (A : Type 0) : Type 0 where
  no_cursor : Keyset A
  predicate : String → List A → Keyset A
  cursor_mismatch : ℕ → ℕ → Keyset A

unfoldable pub keyset_predicate : {A : Type 0} → List KeysetColumn → List A → ℕ → Keyset A
keyset_predicate cols [] n = no_cursor
keyset_predicate cols (a ∷ vs) n =
    if length cols == length (a ∷ vs)
    then predicate (print_fragment (keyset_fragment n cols)) (a ∷ vs)
    else cursor_mismatch (length cols) (length (a ∷ vs))

abbrev pub order_terms : List KeysetColumn → List String
order_terms [] = []
order_terms (c ∷ cs) = cat c.quoted_ident (if c.desc then " DESC" else " ASC") ∷ order_terms cs

unfoldable pub order_by_clause_from_keyset : List KeysetColumn → String
order_by_clause_from_keyset [] = ""
order_by_clause_from_keyset (c ∷ cs) = cat " ORDER BY " (join ", " (order_terms (c ∷ cs)))
