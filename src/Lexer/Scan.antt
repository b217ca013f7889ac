-- ===== src/Lexer/Scan.antt =====
-- The loops of internal/dsl/lexer.go. Each goes through the bytes that are left and gives how many it
-- consumes, by which the cursor then moves.
use pacific_coast.Base.{
  ℕ, zero, suc, Bool, true, false, Option, none, some, List, [], ◌∷◌, ◌++◌, ◌==◌, nat_eq, ◌&&◌,
  ◌||◌, if◌then◌else◌, ◌+◌, ◌-◌,
}
use pacific_coast.Lexer.Token.{
  LexError, unterminated_escape, unknown_escape, newline_in_string, end_in_string,
}
use pacific_coast.Lexer.Cursor.{Unicode, newline, next_is, ascii_digit, peek_rune, is_ident_rune}

-- `n` more bytes and then the count, if the rest is not refused
abbrev pub more : ℕ → Option ℕ → Option ℕ
more n none = none
more n (some k) = some (n + k)

-- where skipWhitespaceAndComments stands: between tokens, in a line comment, at the second byte of an
-- opening mark, in a block comment, at the second byte of its closing mark
pub data Blank : Type 0 where
  between in_line opening in_block closing : Blank

abbrev pub is_space : ℕ → Bool
is_space b = b == 32 || b == 9 || b == 13

unfoldable pub blank_length : Blank → List ℕ → ℕ
blank_length m [] = 0
blank_length between (b ∷ bs) = elim (is_space b || b == newline) [
  | true ↦ suc (blank_length between bs)
  | false ↦ elim (b == 47 && next_is 47 bs) [
    | true ↦ suc (blank_length in_line bs)
    | false ↦ elim (b == 47 && next_is 42 bs) [ true ↦ suc (blank_length opening bs) | false ↦ 0 ]
  ]
]
blank_length in_line (b ∷ bs) = elim (b == newline) [
  | true ↦ suc (blank_length between bs)
  | false ↦ suc (blank_length in_line bs)
]
blank_length opening (b ∷ bs) = suc (blank_length in_block bs)
blank_length in_block (b ∷ bs) = elim (b == 42 && next_is 47 bs) [
  | true ↦ suc (blank_length closing bs)
  | false ↦ suc (blank_length in_block bs)
]
blank_length closing (b ∷ bs) = suc (blank_length between bs)

-- how a string ends, and the bytes consumed after its opening quote
pub data StringScan : Type 0 where
  scanned : List ℕ → ℕ → StringScan
  broken : LexError → ℕ → StringScan

abbrev pub after : ℕ → StringScan → StringScan
after n (scanned buf k) = scanned buf (n + k)
after n (broken e k) = broken e (n + k)

-- the byte that an escape stands for
abbrev pub escape : ℕ → Option ℕ
escape e =
    if e == 34 || e == 92
    then some e
    else if e == 110
    then some 10
    else if e == 116
    then some 9
    else none

-- the loop of scanString; `buf` holds what was read
unfoldable pub scan_body : List ℕ → List ℕ → StringScan
scan_body buf [] = broken end_in_string 0
scan_body buf (b ∷ []) =
    if b == 34
    then scanned buf 1
    else if b == 92
    then broken unterminated_escape 1
    else if b == newline
    then broken newline_in_string 0
    else broken end_in_string 1
scan_body buf (b ∷ e ∷ bs) = elim (b == 34) [
  | true ↦ scanned buf 1
  | false ↦ elim (b == 92) [
    | true ↦ elim (escape e) [
      | none ↦ broken unknown_escape 0
      | some c ↦ after 2 (scan_body (buf ++ c ∷ []) bs)
    ]
    | false ↦ elim (b == newline) [
      | true ↦ broken newline_in_string 0
      | false ↦ after 1 (scan_body (buf ++ b ∷ []) (e ∷ bs))
    ]
  ]
]

unfoldable pub digits_length : List ℕ → ℕ
digits_length [] = 0
digits_length (b ∷ bs) = elim (ascii_digit b) [ true ↦ suc (digits_length bs) | false ↦ 0 ]

-- the loop over the runes of an identifier; `skip` bytes of the last rune are still to be passed
unfoldable pub ident_length : Unicode → ℕ → List ℕ → ℕ
ident_length u skip [] = 0
ident_length u (suc skip) (b ∷ bs) = suc (ident_length u skip bs)
ident_length u zero (b ∷ bs) =
    let (r, size) = peek_rune u b bs in
    elim (is_ident_rune u r) [ true ↦ suc (ident_length u (size - 1) bs) | false ↦ 0 ]

-- where captureWherePredicate stands: outside a string, in one, behind a backslash in one
pub data Where : Type 0 where
  outside in_string escaped : Where

unfoldable pub where_length : Where → List ℕ → ℕ
where_length m [] = 0
where_length outside (b ∷ bs) = elim (b == newline || b == 125 || (b == 47 && next_is 47 bs)) [
  | true ↦ 0
  | false ↦ elim (b == 34) [
    | true ↦ suc (where_length in_string bs)
    | false ↦ suc (where_length outside bs)
  ]
]
where_length in_string (b ∷ bs) = elim (b == 92) [
  | true ↦ suc (where_length escaped bs)
  | false ↦ elim (b == 34) [
    | true ↦ suc (where_length outside bs)
    | false ↦ elim (b == newline) [ true ↦ 0 | false ↦ suc (where_length in_string bs) ]
  ]
]
where_length escaped (b ∷ bs) = suc (where_length in_string bs)

unfoldable pub spaces_length : List ℕ → ℕ
spaces_length [] = 0
spaces_length (b ∷ bs) = elim (is_space b) [ true ↦ suc (spaces_length bs) | false ↦ 0 ]

-- strings.TrimRight(s, " \t\r")
unfoldable pub trim_right : List ℕ → List ℕ
trim_right [] = []
trim_right (b ∷ bs) =
    let rest = trim_right bs in
    elim rest [ [] ↦ if is_space b then [] else b ∷ [] | c ∷ cs ↦ b ∷ c ∷ cs ]

-- where captureRawSQLBody stands: outside strings and comments; in a string with the given quote; at
-- the second of two quotes in it; in a line comment; in block comments of the given depth, and at the
-- second byte of a mark that leads to such a depth
pub data Sql : Type 0 where
  plain : Sql
  quoted : ℕ → Sql
  doubled : ℕ → Sql
  comment : Sql
  nested : ℕ → Sql
  marked : ℕ → Sql

-- after the closing mark of a block comment, by the depth that is left
abbrev pub in_depth : ℕ → Sql
in_depth zero = plain
in_depth (suc d) = nested (suc d)

-- `depth` braces are open besides the one of the block; `none` is the end of the source
unfoldable pub sql_length : Sql → ℕ → List ℕ → Option ℕ
sql_length m depth [] = none
sql_length plain zero (b ∷ bs) = elim (b == 125) [
  | true ↦ some 0
  | false ↦ elim (b == 123) [
    | true ↦ more 1 (sql_length plain 1 bs)
    | false ↦ elim (b == 39 || b == 34) [
      | true ↦ more 1 (sql_length (quoted b) 0 bs)
      | false ↦ elim (b == 45 && next_is 45 bs) [
        | true ↦ more 1 (sql_length comment 0 bs)
        | false ↦ elim (b == 47 && next_is 42 bs) [
          | true ↦ more 1 (sql_length (marked 1) 0 bs)
          | false ↦ more 1 (sql_length plain 0 bs)
        ]
      ]
    ]
  ]
]
sql_length plain (suc d) (b ∷ bs) = elim (b == 125) [
  | true ↦ more 1 (sql_length plain d bs)
  | false ↦ elim (b == 123) [
    | true ↦ more 1 (sql_length plain (suc (suc d)) bs)
    | false ↦ elim (b == 39 || b == 34) [
      | true ↦ more 1 (sql_length (quoted b) (suc d) bs)
      | false ↦ elim (b == 45 && next_is 45 bs) [
        | true ↦ more 1 (sql_length comment (suc d) bs)
        | false ↦ elim (b == 47 && next_is 42 bs) [
          | true ↦ more 1 (sql_length (marked 1) (suc d) bs)
          | false ↦ more 1 (sql_length plain (suc d) bs)
        ]
      ]
    ]
  ]
]
sql_length (quoted q) depth (b ∷ bs) = elim (b == q) [
  | true ↦ elim (next_is q bs) [
    | true ↦ more 1 (sql_length (doubled q) depth bs)
    | false ↦ more 1 (sql_length plain depth bs)
  ]
  | false ↦ more 1 (sql_length (quoted q) depth bs)
]
sql_length (doubled q) depth (b ∷ bs) = more 1 (sql_length (quoted q) depth bs)
sql_length comment depth (b ∷ bs) = elim (b == newline) [
  | true ↦ more 1 (sql_length plain depth bs)
  | false ↦ more 1 (sql_length comment depth bs)
]
sql_length (nested d) depth (b ∷ bs) = elim (b == 47 && next_is 42 bs) [
  | true ↦ more 1 (sql_length (marked (d + 1)) depth bs)
  | false ↦ elim (b == 42 && next_is 47 bs) [
    | true ↦ more 1 (sql_length (marked (d - 1)) depth bs)
    | false ↦ more 1 (sql_length (nested d) depth bs)
  ]
]
sql_length (marked d) depth (b ∷ bs) = more 1 (sql_length (in_depth d) depth bs)
