-- ===== src/Lexer/Places.antt =====
-- The positions that internal/dsl/lexer.go gives its tokens, against the source text.
use pacific_coast.Base.{
  ℕ, zero, suc, String, Bool, false, List, [], ◌∷◌, ◌++◌, append_assoc, append-nil, ◌==◌, nat_eq,
  ==_refl, if◌then◌else◌, ◌||◌, count, count-append, ◌+◌, length, length-append, ◌≡◌, refl, sym, ap,
  ◌∙◌, arith,
}
use mathlib.Core.Path.{subst}
use pacific_coast.Lexer.Token.{Position}
use pacific_coast.Lexer.Cursor.{Cursor, newline, step, advance_over, position}

abbrev has_newline : List ℕ → Bool
has_newline [] = false
has_newline (b ∷ bs) = b == newline || has_newline bs

-- what follows the last newline
unfoldable pub last_line : List ℕ → List ℕ
last_line [] = []
last_line (b ∷ bs) =
    let rest = last_line bs in if has_newline bs then rest else if b == newline then bs else b ∷ bs

-- the position behind a text: lines and columns count from 1, and columns are bytes
unfoldable pub place : String → List ℕ → Position
place file before = record {
  file = file;
  line = 1 + count (λ b. b == newline) before;
  col = 1 + length (last_line before);
  byte = length before;
}

has_newline-snoc :
    (bs : List ℕ) (b : ℕ) → has_newline (bs ++ b ∷ []) ≡ (has_newline bs || b == newline)
has_newline-snoc [] b = ground arith
has_newline-snoc (c ∷ bs) b = ground (arith, has_newline-snoc bs b)

last_line-newline : (bs : List ℕ) → last_line (bs ++ newline ∷ []) ≡ []
unfolding last_line
last_line-newline [] = refl
last_line-newline (b ∷ bs) =
    ground (arith, last_line-newline bs, has_newline-snoc bs newline, ==_refl newline)

last_line-byte :
    (bs : List ℕ) (b : ℕ)
    → (b == newline) ≡ false
    → last_line (bs ++ b ∷ []) ≡ last_line bs ++ b ∷ []
unfolding last_line
last_line-byte [] b h = ground (arith)
last_line-byte (c ∷ bs) b h = ground (arith, last_line-byte bs b h, has_newline-snoc bs b)

module _ (src : List ℕ) where
  -- a cursor that has read a part of the source
  abbrev pub Behind : List ℕ → Cursor → Type 0
  Behind before c =
      (src ≡ before ++ c.rest)
      × (c.pos ≡ length before)
      × (c.line ≡ 1 + count (λ b. b == newline) before)
      × (c.col ≡ 1 + length (last_line before))

  step-Behind :
      (before : List ℕ) (b : ℕ) (bs : List ℕ) (c : Cursor)
      → c.rest ≡ b ∷ bs
      → Behind before c
      → Behind (before ++ b ∷ []) (step b bs c)
  unfolding step
  step-Behind before b bs c h k = (
    k.0 ∙ ap (λ r. before ++ r) h ∙ sym (append_assoc before (b ∷ []) bs),
    ground (arith, k.1, length-append before (b ∷ [])),
    ground (arith, k.2, count-append (λ b. b == newline) before (b ∷ [])),
    ground (
      arith,
      k.3,
      last_line-newline before,
      last_line-byte before b,
      length-append (last_line before) (b ∷ []),
    ),
  )

  pub advance_over-Behind :
      (n : ℕ) (bs before : List ℕ) (c : Cursor)
      → c.rest ≡ bs
      → Behind before c
      → (more : List ℕ) × Behind (before ++ more) (advance_over n bs c)
  unfolding advance_over step
  advance_over-Behind zero bs before c h k =
      ([], subst (λ b. Behind b c) (sym (append-nil before)) k)
  advance_over-Behind (suc n) [] before c h k =
      ([], subst (λ b. Behind b c) (sym (append-nil before)) k)
  advance_over-Behind (suc n) (b ∷ bs) before c h k =
      let (more, behind) =
        advance_over-Behind n bs (before ++ b ∷ []) (step b bs c) refl
          (step-Behind before b bs c h k) in
      (
        b ∷ more,
        subst (λ p. Behind p (advance_over n bs (step b bs c))) (append_assoc before (b ∷ []) more)
            behind,
      )

  pub position-Behind :
      (file : String) (before : List ℕ) (c : Cursor)
      → Behind before c
      → position file c ≡ place file before
  unfolding position place
  position-Behind file before c h = ground (arith, h)
