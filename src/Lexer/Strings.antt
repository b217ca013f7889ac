-- ===== src/Lexer/Strings.antt =====
-- String tokens of internal/dsl/lexer.go.
use pacific_coast.Base.{
  ℕ, suc, Bool, false, List, [], ◌∷◌, ◌++◌, ◌==◌, nat_eq, append-nil, append_assoc, if◌then◌else◌,
  ◌||◌, ◌+◌, length, length-append, ◌≡◌, refl, sym, ap, ◌∙◌, arith,
}
use pacific_coast.Lexer.Token.{text, tok_string}
use pacific_coast.Lexer.Cursor.{Unicode, advance, advance_over, newline, peek_rune}
use pacific_coast.Lexer.Scan.{StringScan, scanned, after, scan_body, between, blank_length}
use pacific_coast.Lexer.Next.{
  nothing, Scan, scan, drop, string_token, scan_string, scan_token, one_byte, two_bytes,
}
use pacific_coast.Lexer.Terminates.{moved-rest}
use pacific_coast.Lexer.Run.{
  apply_effect, Lexer, here, moved, finish, next_at, next_scanned, next, next_by,
}

-- a string as the DSL writes it, without its quotes
unfoldable pub escaped_text : List ℕ → List ℕ
escaped_text [] = []
escaped_text (b ∷ bs) =
    let rest = escaped_text bs in
    if b == 34 || b == 92
    then 92 ∷ b ∷ rest
    else if b == 10
    then 92 ∷ 110 ∷ rest
    else if b == 9
    then 92 ∷ 116 ∷ rest
    else b ∷ rest

scan_body-ordinary :
    (buf : List ℕ) (b : ℕ) (bs : List ℕ)
    → (b == 34) ≡ false
    → (b == 92) ≡ false
    → (b == newline) ≡ false
    → scan_body buf (b ∷ bs) ≡ after 1 (scan_body (buf ++ b ∷ []) bs)
unfolding scan_body
scan_body-ordinary buf b [] h k m = ground arith
scan_body-ordinary buf b (e ∷ bs) h k m = ground arith

after_scanned :
    (s : StringScan) (buf : List ℕ) (n k : ℕ) → s ≡ scanned buf k → after n s ≡ scanned buf (n + k)
after_scanned s buf n k h = ap (after n) h

scan_body-escaped_text :
    (buf bs rest : List ℕ)
    → scan_body buf (escaped_text bs ++ 34 ∷ rest)
      ≡ scanned (buf ++ bs) (length (escaped_text bs) + 1)
unfolding scan_body escaped_text
scan_body-escaped_text buf [] [] = ground (arith, append-nil buf)
scan_body-escaped_text buf [] (r ∷ rest) = ground (arith, append-nil buf)
scan_body-escaped_text buf (b ∷ bs) rest = ground (
  arith,
  scan_body-escaped_text (buf ++ b ∷ []) bs rest,
  append_assoc buf (b ∷ []) bs,
  scan_body-ordinary buf b (escaped_text bs ++ 34 ∷ rest),
)

pub drop-append : (xs ys : List ℕ) → drop (length xs) (xs ++ ys) ≡ ys
unfolding drop
drop-append [] ys = refl
drop-append (x ∷ xs) ys = drop-append xs ys

scan_token-quote :
    (u : Unicode) (armed saw : Bool) (bs : List ℕ)
    → scan_token u armed saw 34 bs ≡ string_token (scan_body [] bs)
unfolding scan_token peek_rune one_byte two_bytes scan_string
scan_token-quote u armed saw bs = refl

-- with nothing pending and no predicate to capture, a token is scanned where no blank is skipped
pub next-start :
    (u : Unicode) (l : Lexer) (b : ℕ) (bs : List ℕ)
    → l.pending ≡ []
    → l.armed_for_where ≡ false
    → l.cursor.rest ≡ b ∷ bs
    → blank_length between (b ∷ bs) ≡ 0
    → next u l ≡ finish (scan_token u l.armed_for_raw_sql l.saw_partial b bs) l
unfolding next next_scanned moved advance advance_over next_at
next-start u l b bs p a h k =
    ap (λ ts. next_by u ts l.armed_for_where l) p
    ∙ ap (λ armed. next_by u [] armed l) a
    ∙ ap (λ n. next_at u (moved n l).cursor.rest (moved n l)) (ap (blank_length between) h ∙ k)
    ∙ ap (λ r. next_at u r l) h

-- behind a token of `n` bytes
pub finish-rest :
    (s : Scan) (l : Lexer) (xs ys : List ℕ)
    → s.effect ≡ nothing
    → l.cursor.rest ≡ xs ++ ys
    → s.size ≡ length xs
    → (finish s l).1.cursor.rest ≡ ys
unfolding finish
finish-rest s l xs ys e h k =
    ap (λ f. (apply_effect f (here l) (moved s.size l)).cursor.rest) e
    ∙ moved-rest s.size l
    ∙ ap (λ n. drop n l.cursor.rest) k
    ∙ ap (drop (length xs)) h
    ∙ drop-append xs ys

module _ (u : Unicode) (l : Lexer) (bs rest : List ℕ) where
  -- In a lexer that has no pending token, captures no predicate and stands at a quote, any bytes,
  -- escaped the way the DSL writes a string, and a quote: the next token is the string of these
  -- bytes, at the first quote's position, and the lexer then stands behind the closing quote.
  pub next-escaped_text :
      l.pending ≡ []
      → l.armed_for_where ≡ false
      → l.cursor.rest ≡ 34 ∷ escaped_text bs ++ 34 ∷ rest
      → ((next u l).0 ≡ record { kind = tok_string; value = text bs; pos = here l })
        × ((next u l).1.cursor.rest ≡ rest)
  unfolding finish blank_length
  next-escaped_text p a h =
      let body = escaped_text bs ++ 34 ∷ rest in
      let s = scan tok_string (text bs) (suc (length (escaped_text bs) + 1)) in
      let scans : scan_token u l.armed_for_raw_sql l.saw_partial 34 body ≡ s =
        scan_token-quote u l.armed_for_raw_sql l.saw_partial body
        ∙ ap string_token (scan_body-escaped_text [] bs rest) in
      let e = next-start u l 34 body p a h refl ∙ ap (λ t. finish t l) scans in
      (
        ap (λ r. r.0) e,
        ap (λ r. r.1.cursor.rest) e
            ∙ finish-rest s l (34 ∷ escaped_text bs ++ 34 ∷ []) rest refl
                (h ∙ ap (λ r. 34 ∷ r) (sym (append_assoc (escaped_text bs) (34 ∷ []) rest)))
                (ground (arith, length-append (escaped_text bs) (34 ∷ []))),
      )
