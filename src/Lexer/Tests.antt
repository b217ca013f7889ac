-- ===== src/Lexer/Tests.antt =====
-- The lexer of internal/dsl/lexer.go on small sources.
use pacific_coast.Base.{
  String, true, false, Option, none, some, List, [], ◌∷◌, map, codes, ◌≡◌, refl, arith, inl,
}
use pacific_coast.Lexer.Token.{
  TokenKind, Token, text, tok_eof, tok_ident, tok_l_brace, tok_r_brace, tok_duration, tok_d_colon,
  tok_touches, tok_l_paren, tok_r_paren, tok_string, tok_float, tok_partial, tok_where,
}
use pacific_coast.Lexer.Cursor.{
  Unicode, advance, advance_over, peek_rune, is_ident_start, is_ident_rune, position, step,
}
use pacific_coast.Lexer.Scan.{
  blank_length, ident_length, digits_length, scan_body, spaces_length, sql_length, trim_right,
  where_length,
}
use pacific_coast.Lexer.Next.{
  scan_token, one_byte, two_bytes, scan_ident_or_keyword, keyword, find_keyword, drop,
  scan_int_or_duration, scan_l_brace, scan_string, unit_suffix,
}
use pacific_coast.Lexer.Run.{
  Lexer, new_lexer, next_scanned, next_at, moved, finish, capture_where_predicate, next, lex, here,
  enough,
}
use pacific_coast.Lexer.Terminates.{lex-terminates, EndsInEof}
use pacific_coast.Lexer.Strings.{next-escaped_text, escaped_text}
use pacific_coast.Lexer.RawSql.{ordinary, doubled_text, SqlText, empty, byte, string}
use pacific_coast.Lexer.RawBlock.{next-SqlText}
use pacific_coast.Lexer.Follows.{InOrder}
use pacific_coast.Lexer.Order.{lex-placed}

-- every rune beyond ASCII is one byte of U+FFFD
abbrev ascii_only : Unicode
ascii_only = record {
  decode_rune = λ bs. (65533, 1);
  is_letter = λ r. false;
  is_digit = λ r. false;
  decode_rune_size = λ b bs. (omega arith, omega arith);
  decode_rune_beyond = λ b bs h. omega arith;
}

kinds : Option (List Token) → List TokenKind
kinds none = []
kinds (some ts) = map (λ t. t.kind) ts

lexed : String → List TokenKind
lexed s = kinds (lex ascii_only 30 (new_lexer "f" (codes s)))

some_kinds : lexed "::10m 3.5 // x" ≡ tok_d_colon ∷ tok_duration ∷ tok_float ∷ tok_eof ∷ []
unfolding lexed kinds lex next new_lexer next_scanned next_at moved advance blank_length finish
    scan_token peek_rune one_byte two_bytes is_ident_start scan_ident_or_keyword keyword
    find_keyword ident_length is_ident_rune drop advance_over position step scan_int_or_duration
    scan_l_brace scan_string unit_suffix capture_where_predicate digits_length scan_body
    spaces_length sql_length trim_right where_length
some_kinds = refl

-- a raw SQL block
raw_kinds :
    lexed "touches(a){ '}' }"
    ≡ tok_touches ∷ tok_l_paren ∷ tok_ident ∷ tok_r_paren ∷ tok_l_brace ∷ tok_string ∷ tok_r_brace
      ∷ tok_eof ∷ []
unfolding lexed kinds lex next new_lexer next_scanned next_at moved advance blank_length finish
    scan_token peek_rune one_byte two_bytes is_ident_start scan_ident_or_keyword keyword
    find_keyword ident_length is_ident_rune drop advance_over position step scan_l_brace sql_length
raw_kinds = refl

-- behind `partial`, a predicate is one string
predicate_kinds :
    lexed "partial where a ~ 1\n}"
    ≡ tok_partial ∷ tok_where ∷ tok_string ∷ tok_r_brace ∷ tok_eof ∷ []
unfolding lexed kinds lex next new_lexer next_scanned next_at moved advance blank_length finish
    scan_token peek_rune one_byte two_bytes is_ident_start scan_ident_or_keyword keyword
    find_keyword ident_length is_ident_rune drop advance_over position step capture_where_predicate
    where_length spaces_length trim_right
predicate_kinds = refl

lex-terminates_example :
    (ts : List Token) × (lex ascii_only (enough (codes "a {")) (new_lexer "f" (codes "a {"))
      ≡ some ts)
    × EndsInEof ts
lex-terminates_example = lex-terminates ascii_only "f" (codes "a {")

lex-placed_example :
    (ts : List Token) × (lex ascii_only (enough (codes "a\nb")) (new_lexer "f" (codes "a\nb"))
      ≡ some ts)
    × InOrder "f" (codes "a\nb") 0 ts
lex-placed_example = lex-placed ascii_only "f" (codes "a\nb")

-- at a string of a quote and a letter
abbrev at_string : Lexer
at_string = record (new_lexer "f" []) {
  cursor = record { rest = 34 ∷ 92 ∷ 34 ∷ 97 ∷ 34 ∷ 125 ∷ []; pos = 7; line = 1; col = 8 };
}

next-escaped_text_example :
    ((next ascii_only at_string).0
      ≡ record { kind = tok_string; value = text (34 ∷ 97 ∷ []); pos = here at_string })
    × ((next ascii_only at_string).1.cursor.rest ≡ 125 ∷ [])
unfolding new_lexer escaped_text
next-escaped_text_example =
    next-escaped_text ascii_only at_string (34 ∷ 97 ∷ []) (125 ∷ []) refl refl refl

-- an armed lexer at a block with a brace in a string
abbrev at_block : Lexer
at_block = record (new_lexer "f" []) {
  armed_for_raw_sql = true;
  cursor = record { rest = 123 ∷ 97 ∷ 39 ∷ 125 ∷ 39 ∷ 125 ∷ 125 ∷ []; pos = 0; line = 1; col = 1 };
}

brace_in_string : SqlText (97 ∷ 39 ∷ 125 ∷ 39 ∷ [])
unfolding ordinary doubled_text
brace_in_string = byte refl (string (125 ∷ []) (inl refl) refl empty)

next-SqlText_example :
    let (open_brace, l2) = next ascii_only at_block in
    let (sql, l3) = next ascii_only l2 in
    (open_brace ≡ record { kind = tok_l_brace; value = text (123 ∷ []); pos = here at_block })
    × (sql
        ≡ record { kind = tok_string; value = text (97 ∷ 39 ∷ 125 ∷ 39 ∷ []); pos = here at_block })
    × (l3.cursor.rest ≡ 125 ∷ 125 ∷ [])
    × (l3.armed_for_raw_sql ≡ false)
    × (l3.pending ≡ [])
unfolding new_lexer
next-SqlText_example =
    next-SqlText ascii_only at_block (97 ∷ 39 ∷ 125 ∷ 39 ∷ []) (125 ∷ []) refl refl refl refl
      brace_in_string
