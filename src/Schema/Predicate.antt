-- ===== src/Schema/Predicate.antt =====
-- Predicates of partial indexes (PredExpr of internal/dsl/ir.go), and the key that the diff compares
-- them by (CanonicalKey of internal/dsl/predsql/predsql.go).
use pacific_coast.Base.{
  Bool, true, false, ◌&&◌, ◌||◌, not, List, Option, none, some, String, cat, ◌==◌, string_eq,
  if◌then◌else◌, format_int, format_bool,
}
use pacific_coast.Schema.Defaults.{DefaultValue, DefaultKind, string_kind, int_kind, bool_kind}

pub data PredKind : Type 0 where
  compare_pred null_pred expr_pred : PredKind

pub data OperandKind : Type 0 where
  column literal_operand : OperandKind

pub record PredOperand : Type 0 where
  pub kind : OperandKind
  pub name : String
  pub literal : Option DefaultValue

pub record PredExpr : Type 0 where
  pub kind : PredKind
  pub op : String
  pub left : Option PredOperand
  pub right : Option PredOperand
  pub arg : Option PredOperand
  pub negated : Bool
  pub text : String
  pub cols : List String

pub record LegacyPred : Type 0 where
  pub field : String
  pub is_null : Bool
  pub op : String
  pub literal : Option DefaultValue

abbrev is_column : OperandKind → Bool
is_column column = true
is_column literal_operand = false

unfoldable pub is_legacy_compare_op : String → Bool
is_legacy_compare_op op =
    op == "=" || op == "!=" || op == "<" || op == "<=" || op == ">" || op == ">="

abbrev legacy_kind : DefaultKind → Bool
legacy_kind string_kind = true
legacy_kind int_kind = true
legacy_kind bool_kind = true
legacy_kind _ = false

unfoldable pub is_legacy_literal : Option DefaultValue → Bool
is_legacy_literal none = false
is_legacy_literal (some d) = legacy_kind d.kind

legacy_null : Option PredOperand → Bool → Option LegacyPred
legacy_null none negated = none
legacy_null (some a) negated =
    if is_column a.kind
    then some (record { field = a.name; is_null = not negated; op = ""; literal = none })
    else none

legacy_compare : Option PredOperand → Option PredOperand → String → Option LegacyPred
unfolding is_legacy_compare_op is_legacy_literal
legacy_compare none right op = none
legacy_compare (some l) none op = none
legacy_compare (some l) (some r) op =
    if is_column l.kind
      && not (is_column r.kind)
      && is_legacy_compare_op op
      && is_legacy_literal r.literal
    then some (record { field = l.name; is_null = false; op = op; literal = r.literal })
    else none

-- The flat form of the two shapes that older servers wrote.
unfoldable pub as_legacy : PredExpr → Option LegacyPred
unfolding legacy_null legacy_compare
as_legacy p = elim p.kind [
  | null_pred ↦ legacy_null p.arg p.negated
  | compare_pred ↦ legacy_compare p.left p.right p.op
  | expr_pred ↦ none
]

literal_tag : DefaultValue → String
literal_tag d = elim d.kind [
  | string_kind ↦ cat " s:" d.str
  | int_kind ↦ cat " i:" (format_int d.int)
  | bool_kind ↦ cat " b:" (format_bool d.bool)
  | _ ↦ ""
]

unfoldable pub legacy_literal_tag : Option DefaultValue → String
unfolding literal_tag
legacy_literal_tag none = ""
legacy_literal_tag (some d) = literal_tag d

legacy_key : LegacyPred → String
unfolding legacy_literal_tag
legacy_key l =
    if l.op == ""
    then (if l.is_null
        then cat "|" (cat l.field " is null")
        else cat "|" (cat l.field " is not null"))
    else cat "|" (cat l.field (cat " " (cat l.op (legacy_literal_tag l.literal))))

unfoldable pub canonical_key : Option PredExpr → String
unfolding as_legacy legacy_key
canonical_key none = ""
canonical_key (some p) = elim (as_legacy p) [ some l ↦ legacy_key l | none ↦ cat "|" p.text ]
