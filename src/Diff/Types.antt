-- ===== src/Diff/Types.antt =====
-- Field types in internal/codegen/diff.go: structural equality, and the class of a change of type.
use pacific_coast.Base.{
  bool_eq, ℕ, Bool, false, ◌&&◌, ◌||◌, not, Option, some, [], ◌∷◌, String, ◌==◌, nat_eq, string_eq,
  ltb, if◌then◌else◌, get,
}
use pacific_coast.Schema.{TypeSpec, FieldType, no_elem, with_elem, spec}
use pacific_coast.Diff.Change.{ChangeClass, additive, backfill_required, breaking}

spec_equal : TypeSpec → TypeSpec → Bool
spec_equal a b =
    a.name == b.name
    && bool_eq a.array b.array
    && a.vec_dim == b.vec_dim
    && a.len == b.len
    && a.num_p == b.num_p
    && a.num_s == b.num_s
    && bool_eq a.has_num_p b.has_num_p

unfoldable pub type_equal : FieldType → FieldType → Bool
unfolding spec_equal
type_equal (no_elem s) (no_elem t) = spec_equal s t
type_equal (no_elem s) (with_elem t u) = spec_equal s t && not s.array
type_equal (with_elem s r) (no_elem t) = spec_equal s t && not s.array
type_equal (with_elem s r) (with_elem t u) = spec_equal s t && (not s.array || type_equal r u)

-- the table `intRank`
abbrev pub int_rank : String → Option ℕ
int_rank = get (("smallint", 1) ∷ ("int", 2) ∷ ("bigint", 3) ∷ [])

abbrev ranks_ascend : Option ℕ → Option ℕ → Bool
ranks_ascend (some o) (some n) = ltb o n
ranks_ascend _ _ = false

unfoldable pub is_widening : String → String → Bool
is_widening old_name new_name = ranks_ascend (int_rank old_name) (int_rank new_name)

unfoldable pub is_narrowing : String → String → Bool
is_narrowing old_name new_name = ranks_ascend (int_rank new_name) (int_rank old_name)

classify_numeric : TypeSpec → TypeSpec → ChangeClass
classify_numeric o n =
    if ltb n.num_p o.num_p || ltb n.num_s o.num_s then backfill_required else additive

classify_varchar : TypeSpec → TypeSpec → ChangeClass
classify_varchar o n =
    if not (n.len == 0) && (o.len == 0 || ltb n.len o.len) then backfill_required else additive

classify_same_name : TypeSpec → TypeSpec → ChangeClass
unfolding classify_numeric classify_varchar
classify_same_name o n =
    if o.name == "numeric"
    then classify_numeric o n
    else if o.name == "varchar"
    then classify_varchar o n
    else additive

unfoldable pub classify_type_change : FieldType → FieldType → ChangeClass
unfolding classify_same_name is_widening is_narrowing
classify_type_change old_type new_type =
    if not (bool_eq o.array n.array)
    then breaking
    else if o.name == "vector" && n.name == "vector"
    then (if not (o.vec_dim == n.vec_dim) then breaking else additive)
    else if o.name == n.name
    then classify_same_name o n
    else if is_widening o.name n.name
    then additive
    else if is_narrowing o.name n.name
    then backfill_required
    else backfill_required
  where
    o : TypeSpec
    o = spec old_type

    n : TypeSpec
    n = spec new_type
