-- ===== src/Lexer/Terminates.antt =====
-- The loop of Lex in internal/dsl/lexer.go comes to the end of every source.
use pacific_coast.Base.{
  ℕ, zero, suc, String, Bool, true, false, some, List, [], ◌∷◌, length-append, ◌+◌, ◌*◌, ◌≤◌, ◌<◌,
  length, ◌≡◌, refl, arith, inl, inr, ◌≢◌, Bool-cases,
}
use pacific_coast.Lexer.Token.{text, tok_string, TokenKind, Token, Position, tok_eof}
use pacific_coast.Lexer.Cursor.{Unicode, Cursor, step, advance, advance_over}
use pacific_coast.Lexer.Scan.{between, blank_length, outside, where_length, spaces_length}
use pacific_coast.Lexer.Next.{
  Effect, nothing, arm_raw_sql, disarm_raw_sql, see_partial, clear_partial, arm_where, captured,
  Scan, scan_token, drop,
}
use pacific_coast.Lexer.Sizes.{length-drop, length-drop_cons, scan_token_size}
use pacific_coast.Lexer.Run.{
  here, Lexer, new_lexer, moved, apply_effect, finish, capture_where_predicate, next_at,
  next_scanned, next, next_by, is_eof, lex, enough,
}

advance_over-rest :
    (n : ℕ) (bs : List ℕ) (c : Cursor) → c.rest ≡ bs → (advance_over n bs c).rest ≡ drop n bs
unfolding advance_over drop step
advance_over-rest zero bs c h = h
advance_over-rest (suc n) [] c h = h
advance_over-rest (suc n) (b ∷ bs) c h = advance_over-rest n bs (step b bs c) refl

pub moved-rest : (n : ℕ) (l : Lexer) → (moved n l).cursor.rest ≡ drop n l.cursor.rest
unfolding moved advance
moved-rest n l = advance_over-rest n l.cursor.rest l.cursor refl

-- the tokens that may still come: a byte is worth three, a pending token two, an armed predicate one
abbrev armed_weight : Bool → ℕ
armed_weight true = 1
armed_weight false = 0

unfoldable weight : Lexer → ℕ
weight l = 3 * length l.cursor.rest + 2 * length l.pending + armed_weight l.armed_for_where

weight-apply_effect :
    (e : Effect) (p : Position) (l : Lexer) → weight (apply_effect e p l) ≤ weight l + 2
unfolding weight
weight-apply_effect nothing p l = omega arith
weight-apply_effect arm_raw_sql p l = omega arith
weight-apply_effect disarm_raw_sql p l = omega arith
weight-apply_effect see_partial p l = omega arith
weight-apply_effect clear_partial p l = omega arith
weight-apply_effect arm_where p l = omega arith
weight-apply_effect (captured body) p l =
    ground (
      arith,
      length-append l.pending (record { kind = tok_string; value = text body; pos = p } ∷ []),
    )

weight-moved : (n : ℕ) (l : Lexer) → weight (moved n l) ≤ weight l
unfolding weight moved
weight-moved n l = ground (arith, moved-rest n l, length-drop n l.cursor.rest)

weight-moved_cons :
    (n b : ℕ) (bs : List ℕ) (l : Lexer)
    → l.cursor.rest ≡ b ∷ bs
    → 1 ≤ n
    → weight (moved n l) + 3 ≤ weight l
unfolding weight moved
weight-moved_cons n b bs l h k = ground (arith, moved-rest n l, length-drop_cons n b bs k)

weight-finish :
    (s : Scan) (b : ℕ) (bs : List ℕ) (l : Lexer)
    → l.cursor.rest ≡ b ∷ bs
    → 1 ≤ s.size
    → weight (finish s l).1 < weight l
unfolding finish
weight-finish s b bs l h k = omega (
  arith,
  weight-apply_effect s.effect (here l) (moved s.size l),
  weight-moved_cons s.size b bs l h k,
)

weight-next_at :
    (u : Unicode) (bs : List ℕ) (l : Lexer)
    → l.cursor.rest ≡ bs
    → is_eof (next_at u bs l).0.kind ≡ false
    → weight (next_at u bs l).1 < weight l
unfolding next_at
weight-next_at u [] l h k = ground arith
weight-next_at u (b ∷ bs) l h k =
    let s = scan_token u l.armed_for_raw_sql l.saw_partial b bs in
    weight-finish s b bs l h (scan_token_size u l.armed_for_raw_sql l.saw_partial b bs)

weight-next_scanned :
    (u : Unicode) (l : Lexer)
    → is_eof (next_scanned u l).0.kind ≡ false
    → weight (next_scanned u l).1 < weight l
unfolding next_scanned
weight-next_scanned u l k =
    let l2 = moved (blank_length between l.cursor.rest) l in
    omega (
      arith,
      weight-next_at u l2.cursor.rest l2 refl k,
      weight-moved (blank_length between l.cursor.rest) l,
    )

capture_weight : (l : Lexer) → weight (capture_where_predicate l).1 ≤ weight l
unfolding capture_where_predicate
capture_weight l =
    let l2 = moved (spaces_length l.cursor.rest) l in
    omega (
      arith,
      weight-moved (spaces_length l.cursor.rest) l,
      weight-moved (where_length outside l2.cursor.rest) l2,
    )

weight-next_by :
    (u : Unicode) (ts : List Token) (armed : Bool) (l : Lexer)
    → l.pending ≡ ts
    → l.armed_for_where ≡ armed
    → is_eof (next_by u ts armed l).0.kind ≡ false
    → weight (next_by u ts armed l).1 < weight l
unfolding weight
weight-next_by u (t ∷ ts) armed l h a k = ground arith
weight-next_by u [] true l h a k =
    ground (arith, capture_weight (record l { armed_for_where = false }))
weight-next_by u [] false l h a k = weight-next_scanned u l k

-- a token that is not the last leaves less to do
weight-next :
    (u : Unicode) (l : Lexer) → is_eof (next u l).0.kind ≡ false → weight (next u l).1 < weight l
unfolding next
weight-next u l k = weight-next_by u l.pending l.armed_for_where l refl refl k

is_eof_kind : (k : TokenKind) → is_eof k ≡ true → k ≡ tok_eof
is_eof_kind tok_eof h = refl
is_eof_kind k h = ground arith

eof_ne : (k : TokenKind) → k ≡ tok_eof → is_eof k ≢ false
eof_ne k e h = ground arith

-- one tok_eof, at the end
abbrev pub EndsInEof : List Token → Type 0
EndsInEof [] = ¬ Unit
EndsInEof (t ∷ []) = t.kind ≡ tok_eof
EndsInEof (t ∷ s ∷ ts) = (t.kind ≢ tok_eof) × EndsInEof (s ∷ ts)

ends-cons :
    (t : Token) (ts : List Token) → is_eof t.kind ≡ false → EndsInEof ts → EndsInEof (t ∷ ts)
ends-cons t [] h k = elim (k tt) [ ]
ends-cons t (s ∷ ts) h k = (λ e. eof_ne t.kind e h, k)

lex_within :
    (u : Unicode) (n : ℕ) (l : Lexer)
    → weight l < n
    → (ts : List Token) × (lex u n l ≡ some ts) × EndsInEof ts
unfolding lex
lex_within u zero l h = ground arith
lex_within u (suc n) l h = elim (Bool-cases (is_eof (next u l).0.kind)) [
  | inl e ↦ ((next u l).0 ∷ [], ground arith, is_eof_kind (next u l).0.kind e)
  | inr e ↦
      let (ts, lexed, ends) = lex_within u n (next u l).1 (omega (arith, weight-next u l e)) in
      ((next u l).0 ∷ ts, ground (arith, lexed), ends-cons (next u l).0 ts e ends)
]

-- With fuel for three tokens a byte and one more, lexing any source gives a token list, and it has
-- exactly one tok_eof, its last token.
pub lex-terminates :
    (u : Unicode) (file : String) (src : List ℕ)
    → (ts : List Token) × (lex u (enough src) (new_lexer file src) ≡ some ts) × EndsInEof ts
unfolding weight new_lexer
lex-terminates u file src = lex_within u (enough src) (new_lexer file src) (omega arith)
