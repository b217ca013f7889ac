-- ===== src/Lexer/RawBlock.antt =====
-- The tokens of a raw SQL block of internal/dsl/lexer.go.
use pacific_coast.Base.{
  ℕ, suc, Bool, true, false, some, List, [], ◌∷◌, ◌++◌, ◌+◌, length, take, ◌≡◌, refl, ap, ◌∙◌,
  arith,
}
use pacific_coast.Lexer.Token.{Token, text, tok_string, tok_l_brace}
use pacific_coast.Lexer.Cursor.{Unicode, peek_rune}
use pacific_coast.Lexer.Scan.{blank_length, plain, sql_length, more}
use pacific_coast.Lexer.Next.{captured, Scan, drop, raw_sql, scan_l_brace, scan_token}
use pacific_coast.Lexer.Run.{Lexer, here, moved, finish, next_by, next}
use pacific_coast.Lexer.Terminates.{moved-rest}
use pacific_coast.Lexer.Strings.{next-start, drop-append}
use pacific_coast.Lexer.RawSql.{SqlText, sql_length-text}

take-append : (xs ys : List ℕ) → take (length xs) (xs ++ ys) ≡ xs
take-append [] ys = refl
take-append (x ∷ xs) ys = ap (λ zs. x ∷ zs) (take-append xs ys)

-- what a block with the given body scans to
abbrev block : List ℕ → Scan
block body = record {
  kind = tok_l_brace;
  value = text (123 ∷ []);
  size = suc (length body);
  effect = captured body;
}

scan_token-open :
    (u : Unicode) (saw : Bool) (bs : List ℕ)
    → scan_token u true saw 123 bs ≡ raw_sql (sql_length plain 0 bs) bs
unfolding scan_token peek_rune scan_l_brace
scan_token-open u saw bs = refl

sql_length-end : (rest : List ℕ) → sql_length plain 0 (125 ∷ rest) ≡ some 0
unfolding sql_length
sql_length-end rest = refl

scans_block :
    (u : Unicode) (saw : Bool) (body rest : List ℕ)
    → SqlText body
    → scan_token u true saw 123 (body ++ 125 ∷ rest) ≡ block body
scans_block u saw body rest t =
    let bs = body ++ 125 ∷ rest in
    let size : length body + 0 ≡ length body = omega arith in
    scan_token-open u saw bs
    ∙ ap (λ k. raw_sql k bs)
        (sql_length-text 0 rest t ∙ ap (more (length body)) (sql_length-end rest))
    ∙ ap (λ n. raw_sql (some n) bs) size
    ∙ ap (λ b. record (block body) { effect = captured b }) (take-append body (125 ∷ rest))

next-pending :
    (u : Unicode) (l : Lexer) (t : Token) (ts : List Token)
    → l.pending ≡ t ∷ ts
    → next u l ≡ (t, record l { pending = ts })
unfolding next
next-pending u l t ts h = ap (λ p. next_by u p l.armed_for_where l) h

module _ (u : Unicode) (l : Lexer) (body rest : List ℕ) where
  behind_block :
      l.cursor.rest ≡ 123 ∷ body ++ 125 ∷ rest → (finish (block body) l).1.cursor.rest ≡ 125 ∷ rest
  unfolding finish
  behind_block h =
      moved-rest (suc (length body)) l
      ∙ ap (drop (suc (length body))) h
      ∙ drop-append (123 ∷ body) (125 ∷ rest)

  -- A lexer that `touches` has armed and `where` has not, with no pending token, at a brace, any SQL text
  -- and the closing brace: the next two tokens are the brace and the whole text as one string, both at the brace's
  -- position; the lexer then stands at the closing brace and is no longer armed. Braces in the text
  -- that pair up, or stand in SQL strings or comments, do not end the block.
  pub next-SqlText :
      l.pending ≡ []
      → l.armed_for_where ≡ false
      → l.armed_for_raw_sql ≡ true
      → l.cursor.rest ≡ 123 ∷ body ++ 125 ∷ rest
      → SqlText body
      → let (open_brace, l2) = next u l in
        let (sql, l3) = next u l2 in
        (open_brace ≡ record { kind = tok_l_brace; value = text (123 ∷ []); pos = here l })
        × (sql ≡ record { kind = tok_string; value = text body; pos = here l })
        × (l3.cursor.rest ≡ 125 ∷ rest)
        × (l3.armed_for_raw_sql ≡ false)
        × (l3.pending ≡ [])
  unfolding finish blank_length moved
  next-SqlText p a r h t =
      let bs = body ++ 125 ∷ rest in
      let sql : Token = record { kind = tok_string; value = text body; pos = here l } in
      let l2 = (finish (block body) l).1 in
      let e =
        next-start u l 123 bs p a h refl
        ∙ ap (λ armed. finish (scan_token u armed l.saw_partial 123 bs) l) r
        ∙ ap (λ s. finish s l) (scans_block u l.saw_partial body rest t) in
      let f = ap (λ n. next u n.1) e ∙ next-pending u l2 sql [] (ap (λ ts. ts ++ sql ∷ []) p) in
      (
        ap (λ n. n.0) e,
        ap (λ n. n.0) f,
        ap (λ n. n.1.cursor.rest) f ∙ behind_block h,
        ap (λ n. n.1.armed_for_raw_sql) f,
        ap (λ n. n.1.pending) f,
      )
