-- ===== src/Lexer/Sizes.antt =====
-- How far the scanners of internal/dsl/lexer.go go: every token but the last consumes a byte.
use pacific_coast.Base.{
  ℕ, zero, suc, Bool, true, false, Option, none, some, List, [], ◌∷◌, nat_eq, ◌≤◌, ◌<◌, length,
  take, ◌≡◌, refl, arith,
}
use pacific_coast.Lexer.Token.{TokenKind}
use pacific_coast.Lexer.Cursor.{Unicode, ascii_digit, peek_rune, is_ident_start, is_ident_rune}
use pacific_coast.Lexer.Scan.{
  StringScan, scanned, broken, scan_body, digits_length, ident_length, plain, sql_length,
}
use pacific_coast.Lexer.Next.{
  keyword, drop, raw_sql, scan_l_brace, string_token, scan_string, scan_int_or_duration, name_token,
  scan_ident_or_keyword, scan_word, scan_token,
}

pub length-drop : (n : ℕ) (bs : List ℕ) → length (drop n bs) ≤ length bs
unfolding drop
length-drop zero bs = omega arith
length-drop (suc n) [] = omega arith
length-drop (suc n) (b ∷ bs) = omega (arith, length-drop n bs)

pub length-drop_cons : (n b : ℕ) (bs : List ℕ) → 1 ≤ n → length (drop n (b ∷ bs)) ≤ length bs
unfolding drop
length-drop_cons zero b bs h = omega arith
length-drop_cons (suc n) b bs h = length-drop n bs

length-take_cons : (n b : ℕ) (bs : List ℕ) → 1 ≤ n → 1 ≤ length (take n (b ∷ bs))
length-take_cons zero b bs h = omega arith
length-take_cons (suc n) b bs h = omega arith

module _ (u : Unicode) where
  peek_rune_size : (b : ℕ) (bs : List ℕ) → 1 ≤ (peek_rune u b bs).1
  unfolding peek_rune
  peek_rune_size b bs = ground (arith, u.decode_rune_size b bs)

  -- a rune of ASCII is its byte
  peek_rune_ascii : (b : ℕ) (bs : List ℕ) → (peek_rune u b bs).0 < 128 → (peek_rune u b bs).0 ≡ b
  unfolding peek_rune
  peek_rune_ascii b bs h = ground (arith, u.decode_rune_beyond b bs)

  start_rune : (r : ℕ) → is_ident_start u r ≡ true → is_ident_rune u r ≡ true
  unfolding is_ident_start is_ident_rune
  start_rune r h = ground arith

  ident_length_pos :
      (b : ℕ) (bs : List ℕ)
      → is_ident_start u (peek_rune u b bs).0 ≡ true
      → 1 ≤ ident_length u 0 (b ∷ bs)
  unfolding ident_length
  ident_length_pos b bs h = ground (arith, start_rune (peek_rune u b bs).0 h)

  digits_length_pos :
      (b : ℕ) (bs : List ℕ) → ascii_digit (peek_rune u b bs).0 ≡ true → 1 ≤ digits_length (b ∷ bs)
  unfolding digits_length
  digits_length_pos b bs h = ground (arith, peek_rune_ascii b bs)

  int_size : (bs : List ℕ) → 1 ≤ digits_length bs → 1 ≤ (scan_int_or_duration u bs).size
  unfolding scan_int_or_duration
  int_size bs h = ground arith

  name_size :
      (k : Option TokenKind) (saw : Bool) (name : List ℕ)
      → (name_token k saw name).size ≡ length name
  name_size none saw name = refl
  name_size (some k) saw name = refl

  ident_size :
      (saw : Bool) (b : ℕ) (bs : List ℕ)
      → 1 ≤ ident_length u 0 (b ∷ bs)
      → 1 ≤ (scan_ident_or_keyword u saw (b ∷ bs)).size
  unfolding scan_ident_or_keyword
  ident_size saw b bs h =
      let name = take (ident_length u 0 (b ∷ bs)) (b ∷ bs) in
      omega (
        arith,
        name_size (keyword name) saw name,
        length-take_cons (ident_length u 0 (b ∷ bs)) b bs h,
      )

  string_size : (s : StringScan) → 1 ≤ (string_token s).size
  string_size (scanned buf n) = omega arith
  string_size (broken e n) = omega arith

  word_size :
      (saw : Bool) (b : ℕ) (bs : List ℕ)
      → 1 ≤ (scan_word u saw (peek_rune u b bs).0 (peek_rune u b bs).1 b bs).size
  unfolding scan_string
  word_size saw b bs = ground (
    arith,
    string_size (scan_body [] bs),
    peek_rune_size b bs,
    digits_length_pos b bs,
    int_size (b ∷ bs),
    ident_length_pos b bs,
    ident_size saw b bs,
  )

  raw_sql_size : (n : Option ℕ) (bs : List ℕ) → 1 ≤ (raw_sql n bs).size
  raw_sql_size none bs = omega arith
  raw_sql_size (some n) bs = omega arith

  l_brace_size : (armed : Bool) (bs : List ℕ) → 1 ≤ (scan_l_brace armed bs).size
  unfolding scan_l_brace
  l_brace_size true bs = raw_sql_size (sql_length plain 0 bs) bs
  l_brace_size false bs = omega arith

  -- a token that is not the end of the source consumes at least one byte
  pub scan_token_size :
      (armed saw : Bool) (b : ℕ) (bs : List ℕ) → 1 ≤ (scan_token u armed saw b bs).size
  unfolding scan_token
  scan_token_size armed saw b bs =
      ground (arith, l_brace_size armed bs, word_size saw b bs, peek_rune_size b bs)
