-- ===== src/Lexer/Run.antt =====
-- The lexer's state and its loop, `next` and `Lex` of internal/dsl/lexer.go.
use pacific_coast.Base.{
  ℕ, zero, suc, String, Bool, true, false, Option, none, some, List, [], ◌∷◌, ◌++◌, ◌+◌, ◌*◌,
  length, take,
}
use pacific_coast.Lexer.Token.{TokenKind, Token, Position, text, tok_eof, tok_string}
use pacific_coast.Lexer.Cursor.{Unicode, Cursor, advance, position}
use pacific_coast.Lexer.Scan.{
  between, blank_length, outside, where_length, spaces_length, trim_right,
}
use pacific_coast.Lexer.Next.{
  Effect, nothing, arm_raw_sql, disarm_raw_sql, see_partial, clear_partial, arm_where, captured,
  Scan, scan_token,
}

pub record Lexer : Type 0 where
  pub file : String
  pub cursor : Cursor
  pub armed_for_raw_sql : Bool
  pub saw_partial : Bool
  pub armed_for_where : Bool
  pub pending : List Token

unfoldable pub new_lexer : String → List ℕ → Lexer
new_lexer file src = record {
  file = file;
  cursor = record { rest = src; pos = 0; line = 1; col = 1 };
  armed_for_raw_sql = false;
  saw_partial = false;
  armed_for_where = false;
  pending = [];
}

unfoldable pub moved : ℕ → Lexer → Lexer
moved n l = record l { cursor = advance n l.cursor }

-- the next byte's position
abbrev pub here : Lexer → Position
here l = position l.file l.cursor

abbrev pub apply_effect : Effect → Position → Lexer → Lexer
apply_effect nothing start l = l
apply_effect arm_raw_sql start l = record l { armed_for_raw_sql = true }
apply_effect disarm_raw_sql start l = record l { armed_for_raw_sql = false }
apply_effect see_partial start l = record l { saw_partial = true }
apply_effect clear_partial start l = record l { saw_partial = false }
apply_effect arm_where start l = record l { armed_for_where = true; saw_partial = false }
apply_effect (captured body) start l = record l {
  armed_for_raw_sql = false;
  pending = l.pending ++ record { kind = tok_string; value = text body; pos = start } ∷ [];
}

-- the scanned token, which starts where the lexer stands
unfoldable pub finish : Scan → Lexer → Token × Lexer
finish s l = (
  record { kind = s.kind; value = s.value; pos = here l },
  apply_effect s.effect (here l) (moved s.size l),
)

-- captureWherePredicate, behind the spaces it skips
abbrev pub predicate_token : ℕ → Lexer → Token × Lexer
predicate_token n l = (
  record { kind = tok_string; value = text (trim_right (take n l.cursor.rest)); pos = here l },
  moved n l,
)

unfoldable pub capture_where_predicate : Lexer → Token × Lexer
capture_where_predicate l =
    let l2 = moved (spaces_length l.cursor.rest) l in
    predicate_token (where_length outside l2.cursor.rest) l2

-- behind blanks and comments: the end of the source, or the first byte of a token
unfoldable pub next_at : Unicode → List ℕ → Lexer → Token × Lexer
next_at u [] l = (record { kind = tok_eof; value = text []; pos = here l }, l)
next_at u (b ∷ bs) l = finish (scan_token u l.armed_for_raw_sql l.saw_partial b bs) l

unfoldable pub next_scanned : Unicode → Lexer → Token × Lexer
next_scanned u l =
    let l2 = moved (blank_length between l.cursor.rest) l in next_at u l2.cursor.rest l2

-- next, by what is pending and whether a predicate is to be captured
abbrev pub next_by : Unicode → List Token → Bool → Lexer → Token × Lexer
next_by u (t ∷ ts) armed l = (t, record l { pending = ts })
next_by u [] true l = capture_where_predicate (record l { armed_for_where = false })
next_by u [] false l = next_scanned u l

unfoldable pub next : Unicode → Lexer → Token × Lexer
next u l = next_by u l.pending l.armed_for_where l

abbrev pub is_eof : TokenKind → Bool
is_eof tok_eof = true
is_eof k = false

abbrev pub then_tokens : Token → Option (List Token) → Option (List Token)
then_tokens t none = none
then_tokens t (some ts) = some (t ∷ ts)

-- the tokens up to and including the first tok_eof; `none` is fuel that is used up
unfoldable pub lex : Unicode → ℕ → Lexer → Option (List Token)
lex u zero l = none
lex u (suc n) l =
    let (t, rest) = next u l in
    elim (is_eof t.kind) [ true ↦ some (t ∷ []) | false ↦ then_tokens t (lex u n rest) ]

-- enough fuel for a source
abbrev pub enough : List ℕ → ℕ
enough src = 3 * length src + 1
