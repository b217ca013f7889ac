-- ===== src/Lexer/Cursor.antt =====
-- The low-level cursor of internal/dsl/lexer.go. The source is its bytes, and the cursor holds those
-- that are not yet read; nothing reads behind it. What `unicode` and `unicode/utf8` say of runes
-- beyond ASCII is a parameter.
use pacific_coast.Base.{
  ℕ, zero, suc, String, Bool, true, false, List, [], ◌∷◌, ◌==◌, nat_eq, ◌&&◌, ◌||◌, leb, ltb,
  if◌then◌else◌, ◌+◌, ◌≤◌, length,
}
use pacific_coast.Lexer.Token.{Position}

-- utf8.DecodeRune gives a rune and its size, at least one byte and at most all; a first byte beyond
-- ASCII gives a rune beyond ASCII, or RuneError, which is beyond it too.
pub record Unicode : Type 0 where
  pub decode_rune : List ℕ → ℕ × ℕ
  pub is_letter : ℕ → Bool
  pub is_digit : ℕ → Bool
  pub decode_rune_size :
      (b : ℕ) (bs : List ℕ)
      → (1 ≤ (decode_rune (b ∷ bs)).1) × ((decode_rune (b ∷ bs)).1 ≤ suc (length bs))
  pub decode_rune_beyond : (b : ℕ) (bs : List ℕ) → 128 ≤ b → 128 ≤ (decode_rune (b ∷ bs)).0

pub record Cursor : Type 0 where
  pub rest : List ℕ
  pub pos : ℕ
  pub line : ℕ
  pub col : ℕ

abbrev pub newline : ℕ
newline = 10

-- one byte; at the end of the source nothing moves
unfoldable pub step : ℕ → List ℕ → Cursor → Cursor
step b bs c = record {
  rest = bs;
  pos = c.pos + 1;
  line = if b == newline then c.line + 1 else c.line;
  col = if b == newline then 1 else c.col + 1;
}

-- `advance` on the bytes that are left
unfoldable pub advance_over : ℕ → List ℕ → Cursor → Cursor
unfolding step
advance_over zero bs c = c
advance_over (suc n) [] c = c
advance_over (suc n) (b ∷ bs) c = advance_over n bs (step b bs c)

unfoldable pub advance : ℕ → Cursor → Cursor
unfolding advance_over
advance n c = advance_over n c.rest c

unfoldable pub position : String → Cursor → Position
position file c = record { file = file; line = c.line; col = c.col; byte = c.pos }

-- the next byte is the given one
abbrev pub next_is : ℕ → List ℕ → Bool
next_is b [] = false
next_is b (c ∷ cs) = c == b

abbrev pub in_range : ℕ → ℕ → ℕ → Bool
in_range lo hi b = leb lo b && leb b hi

abbrev pub ascii_digit : ℕ → Bool
ascii_digit b = in_range 48 57 b

abbrev pub ascii_letter : ℕ → Bool
ascii_letter b = in_range 65 90 b || in_range 97 122 b

module _ (u : Unicode) where
  -- a byte below utf8.RuneSelf is a rune of its own; the source is not at its end
  unfoldable pub peek_rune : ℕ → List ℕ → ℕ × ℕ
  peek_rune b bs = elim (ltb b 128) [ true ↦ (b, 1) | false ↦ u.decode_rune (b ∷ bs) ]

  unfoldable pub is_ident_start : ℕ → Bool
  is_ident_start r = r == 95 || (if ltb r 128 then ascii_letter r else u.is_letter r)

  unfoldable pub is_ident_rune : ℕ → Bool
  is_ident_rune r =
      r == 95
      || (if ltb r 128 then ascii_letter r || ascii_digit r else u.is_letter r || u.is_digit r)
