-- ===== src/Schema/Defaults.antt =====
-- Default of internal/dsl/ir.go, and Go's `==` on it.
use pacific_coast.Base.{
  bool_eq, ℕ, ◌%◌, ◌^◌, Bool, ◌&&◌, ◌||◌, not, String, ◌==◌, nat_eq, string_eq, ltb, ℤ, int_beq,
}

pub data DefaultKind : Type 0 where
  string_kind int_kind float_kind bool_kind now_kind raw_kind : DefaultKind

abbrev pub default_kind_code : DefaultKind → ℕ
default_kind_code string_kind = 0
default_kind_code int_kind = 1
default_kind_code float_kind = 2
default_kind_code bool_kind = 3
default_kind_code now_kind = 4
default_kind_code raw_kind = 5

-- `float` is the 64 bits of the IEEE 754 number.
pub record DefaultValue : Type 0 where
  pub kind : DefaultKind
  pub str : String
  pub int : ℤ
  pub float : ℕ
  pub bool : Bool

is_nan : ℕ → Bool
is_nan x = ltb 0x7ff0_0000_0000_0000 (x % 2 ^ 63)

-- Go's `==` on float64: a NaN equals nothing, and the two zeros are equal.
unfoldable pub float_beq : ℕ → ℕ → Bool
unfolding is_nan
float_beq x y = not (is_nan x) && not (is_nan y) && (x == y || (x % 2 ^ 63 == 0 && y % 2 ^ 63 == 0))

unfoldable pub default_beq : DefaultValue → DefaultValue → Bool
default_beq a b =
    default_kind_code a.kind == default_kind_code b.kind
    && a.str == b.str
    && int_beq a.int b.int
    && float_beq a.float b.float
    && bool_eq a.bool b.bool
