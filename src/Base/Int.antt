-- ===== src/Base/Int.antt =====
-- Go's int64 as a signed number, and how strconv prints it.
use Prim.Native.Nat.{ℕ, zero, suc, ◌/◌, ◌%◌}
use Prim.Native.String.{String}
use mathlib.Core.Bool.{Bool, false}
use pacific_coast.Base.Tests.{ltb, if◌then◌else◌}
use pacific_coast.Base.Eq.{◌==◌, nat_eq}

-- `negsuc n` is -(n + 1).
pub data ℤ : Type 0 where
  pos : ℕ → ℤ
  negsuc : ℕ → ℤ

abbrev pub int_beq : ℤ → ℤ → Bool
int_beq (pos a) (pos b) = a == b
int_beq (negsuc a) (negsuc b) = a == b
int_beq _ _ = false

-- s + t on Go's strings
abbrev pub cat : String → String → String
cat s t = Prim.Native.String.◌++◌ s t

digit : ℕ → String
digit d =
    if d == 0
    then "0"
    else if d == 1
    then "1"
    else if d == 2
    then "2"
    else if d == 3
    then "3"
    else if d == 4
    then "4"
    else if d == 5
    then "5"
    else if d == 6
    then "6"
    else if d == 7
    then "7"
    else if d == 8
    then "8"
    else "9"

-- The decimal digits of `n`, most significant first, before `acc`. More fuel than digits is enough.
digits_from : ℕ → ℕ → String → String
unfolding digit
digits_from zero n acc = acc
digits_from (suc f) n acc =
    let rest = digits_from f (n / 10) (cat (digit (n % 10)) acc) in
    if ltb n 10 then cat (digit n) acc else rest

unfoldable pub format_int : ℤ → String
unfolding digits_from
format_int (pos n) = digits_from (suc n) n ""
format_int (negsuc n) = cat "-" (digits_from (suc (suc n)) (suc n) "")

abbrev pub format_bool : Bool → String
format_bool b = if b then "true" else "false"
