-- ===== src/Lexer/Next.antt =====
-- One token of internal/dsl/lexer.go, by its first rune. A scanner gives the token, the bytes it
-- consumes and what it changes in the lexer besides its cursor.
use pacific_coast.Base.{
  ℕ, zero, suc, String, Bool, true, false, Option, none, some, List, [], ◌∷◌, ◌==◌, nat_eq, ◌&&◌,
  ◌||◌, not, if◌then◌else◌, ◌+◌, length, take, codes,
}
use pacific_coast.Lexer.Token.{
  TokenKind, tok_arg_placeholder, tok_colon, tok_comma, tok_d_colon, tok_dot, tok_duration,
  tok_equals, tok_error, tok_float, tok_ge, tok_gt, tok_ident, tok_int, tok_l_brace, tok_l_bracket,
  tok_l_paren, tok_le, tok_lt, tok_not_eq, tok_partial, tok_r_brace, tok_r_bracket, tok_r_paren,
  tok_string, tok_touches, tok_where, keywords, unterminated_sql, lone_bang, no_name_after_dollar,
  unexpected_character, Value, text, problem,
}
use pacific_coast.Lexer.Cursor.{
  Unicode, next_is, ascii_digit, peek_rune, is_ident_start, is_ident_rune,
}
use pacific_coast.Lexer.Scan.{
  StringScan, scanned, broken, scan_body, digits_length, ident_length, plain, sql_length,
}

-- what a token changes: `captured` is the body of a raw SQL block, the others the lexer's flags
pub data Effect : Type 0 where
  nothing arm_raw_sql disarm_raw_sql see_partial clear_partial arm_where : Effect
  captured : List ℕ → Effect

pub record Scan : Type 0 where
  pub kind : TokenKind
  pub value : Value
  pub size : ℕ
  pub effect : Effect

abbrev pub scan : TokenKind → Value → ℕ → Scan
scan k v n = record { kind = k; value = v; size = n; effect = nothing }

unfoldable pub drop : ℕ → List ℕ → List ℕ
drop zero bs = bs
drop (suc n) [] = []
drop (suc n) (b ∷ bs) = drop n bs

-- the case of `{`: in an armed lexer the body of a raw SQL block follows; when it has no end, all is
-- consumed
abbrev pub raw_sql : Option ℕ → List ℕ → Scan
raw_sql none bs = record {
  kind = tok_error;
  value = problem unterminated_sql;
  size = suc (length bs);
  effect = disarm_raw_sql;
}
raw_sql (some n) bs = record {
  kind = tok_l_brace;
  value = text (123 ∷ []);
  size = suc n;
  effect = captured (take n bs);
}

unfoldable pub scan_l_brace : Bool → List ℕ → Scan
scan_l_brace true bs = raw_sql (sql_length plain 0 bs) bs
scan_l_brace false bs = scan tok_l_brace (text (123 ∷ [])) 1

-- the tokens of one byte; `}` has a case of its own
unfoldable pub one_byte : ℕ → Option TokenKind
one_byte r =
    if r == 40
    then some tok_l_paren
    else if r == 41
    then some tok_r_paren
    else if r == 91
    then some tok_l_bracket
    else if r == 93
    then some tok_r_bracket
    else if r == 44
    then some tok_comma
    else if r == 61
    then some tok_equals
    else if r == 46
    then some tok_dot
    else none

-- the runes that a second byte may follow: that byte, the kind with it, the kind and value without
unfoldable pub two_bytes : ℕ → Option (ℕ × TokenKind × TokenKind × Value)
two_bytes r =
    if r == 58
    then some (58, tok_d_colon, tok_colon, text (58 ∷ []))
    else if r == 60
    then some (61, tok_le, tok_lt, text (60 ∷ []))
    else if r == 62
    then some (61, tok_ge, tok_gt, text (62 ∷ []))
    else if r == 33
    then some (61, tok_not_eq, tok_error, problem lone_bang)
    else none

-- the case of `$`: the name behind it is the token's value
unfoldable pub scan_placeholder : Unicode → List ℕ → Scan
scan_placeholder u [] = scan tok_error (problem no_name_after_dollar) 1
scan_placeholder u (b ∷ bs) =
    let n = ident_length u 0 (b ∷ bs) in
    elim (is_ident_start u (peek_rune u b bs).0) [
      | true ↦ scan tok_arg_placeholder (text (take n (b ∷ bs))) (suc n)
      | false ↦ scan tok_error (problem no_name_after_dollar) 1
    ]

-- behind the opening quote
abbrev pub string_token : StringScan → Scan
string_token (scanned buf n) = scan tok_string (text buf) (suc n)
string_token (broken e n) = scan tok_error (problem e) (suc n)

unfoldable pub scan_string : List ℕ → Scan
scan_string bs = string_token (scan_body [] bs)

-- `.` and a digit
abbrev pub fraction : List ℕ → Bool
fraction [] = false
fraction (b ∷ []) = false
fraction (b ∷ d ∷ bs) = b == 46 && ascii_digit d

-- s, m, h or d, and then no rune of an identifier
unfoldable pub unit_suffix : Unicode → List ℕ → Bool
unit_suffix u [] = false
unit_suffix u (c ∷ []) = c == 115 || c == 109 || c == 104 || c == 100
unit_suffix u (c ∷ n ∷ bs) =
    (c == 115 || c == 109 || c == 104 || c == 100) && not (is_ident_rune u n)

unfoldable pub scan_int_or_duration : Unicode → List ℕ → Scan
scan_int_or_duration u bs =
    let n = digits_length bs in
    let rest = drop n bs in
    let k = n + 1 + digits_length (drop 1 rest) in
    if fraction rest
    then scan tok_float (text (take k bs)) k
    else if unit_suffix u rest
    then scan tok_duration (text (take (n + 1) bs)) (n + 1)
    else scan tok_int (text (take n bs)) n

abbrev pub same_bytes : List ℕ → List ℕ → Bool
same_bytes [] [] = true
same_bytes [] (c ∷ cs) = false
same_bytes (b ∷ bs) [] = false
same_bytes (b ∷ bs) (c ∷ cs) = b == c && same_bytes bs cs

unfoldable pub find_keyword : List (String × TokenKind) → List ℕ → Option TokenKind
find_keyword [] name = none
find_keyword (k ∷ ks) name = elim (same_bytes (codes k.0) name) [
  | true ↦ some k.1
  | false ↦ find_keyword ks name
]

-- the lookup in `keywords`
unfoldable pub keyword : List ℕ → Option TokenKind
keyword name = find_keyword keywords name

-- what a keyword arms
abbrev pub armed_by : Bool → TokenKind → Effect
armed_by saw tok_touches = arm_raw_sql
armed_by saw tok_partial = see_partial
armed_by true tok_where = arm_where
armed_by saw k = nothing

abbrev pub name_token : Option TokenKind → Bool → List ℕ → Scan
name_token none saw name = scan tok_ident (text name) (length name)
name_token (some k) saw name = record {
  kind = k;
  value = text name;
  size = length name;
  effect = armed_by saw k;
}

unfoldable pub scan_ident_or_keyword : Unicode → Bool → List ℕ → Scan
scan_ident_or_keyword u saw bs =
    let name = take (ident_length u 0 bs) bs in name_token (keyword name) saw name

-- the last cases of the switch: a string, a number, a name, or a rune that starts no token
abbrev pub scan_word : Unicode → Bool → ℕ → ℕ → ℕ → List ℕ → Scan
scan_word u saw r size b bs =
    if r == 34
    then scan_string bs
    else if ascii_digit r
    then scan_int_or_duration u (b ∷ bs)
    else if is_ident_start u r
    then scan_ident_or_keyword u saw (b ∷ bs)
    else scan tok_error (problem unexpected_character) size

-- the switch of next on the first rune; `b` is its first byte
unfoldable pub scan_token : Unicode → (armed saw : Bool) → ℕ → List ℕ → Scan
scan_token u armed saw b bs =
    let (r, size) = peek_rune u b bs in
    elim (r == 123) [
      | true ↦ scan_l_brace armed bs
      | false ↦ elim (r == 125) [
        | true ↦ record {
          kind = tok_r_brace;
          value = text (125 ∷ []);
          size = size;
          effect = clear_partial;
        }
        | false ↦ elim (one_byte r) [
          | some k ↦ scan k (text (r ∷ [])) size
          | none ↦ elim (two_bytes r) [
            | some q ↦
                if next_is q.0 (drop size (b ∷ bs))
                then scan q.1 (text (r ∷ q.0 ∷ [])) (size + 1)
                else scan q.2 q.3 size
            | none ↦ scan_word u saw r size b bs
          ]
        ]
      ]
    ]
