-- ===== src/Lexer/RawSql.antt =====
-- Raw SQL blocks of internal/dsl/lexer.go: the text that SQL's own lexical rules allow between the
-- braces.
use pacific_coast.Base.{
  ℕ, zero, suc, Bool, true, false, Option, none, some, List, [], ◌∷◌, ◌++◌, ◌==◌, nat_eq, ==_refl,
  append_assoc, if◌then◌else◌, ◌||◌, ◌&&◌, All, ◌+◌, length, length-append, ◌≡◌, refl, ap, ◌∙◌,
  arith, ◌⊎◌,
}
use pacific_coast.Lexer.Cursor.{next_is, newline}
use pacific_coast.Lexer.Scan.{more, plain, quoted, comment, nested, sql_length}

-- the content of a string as SQL writes it, its quotes doubled
unfoldable pub doubled_text : ℕ → List ℕ → List ℕ
doubled_text q [] = []
doubled_text q (b ∷ bs) = let rest = doubled_text q bs in if b == q then q ∷ q ∷ rest else b ∷ rest

-- the rest of block comments, `n` of which are open
pub data BlockComment : ℕ → List ℕ → Type 0 where
  last_close : BlockComment 1 (42 ∷ 47 ∷ [])
  shallower :
      {n : ℕ} {bs : List ℕ} → BlockComment (suc n) bs → BlockComment (suc (suc n)) (42 ∷ 47 ∷ bs)
  deeper : {n : ℕ} {bs : List ℕ} → BlockComment (suc n) bs → BlockComment n (47 ∷ 42 ∷ bs)
  inside :
      {n b : ℕ} {bs : List ℕ}
      → (b == 47 && next_is 42 bs) ≡ false
      → (b == 42 && next_is 47 bs) ≡ false
      → BlockComment n bs
      → BlockComment n (b ∷ bs)

-- a byte that starts neither a brace, nor a string, nor a comment
unfoldable pub ordinary : ℕ → List ℕ → Bool
ordinary b bs =
    if b == 123 || b == 125 || b == 39 || b == 34
    then false
    else if b == 45
    then (if next_is 45 bs then false else true)
    else if b == 47
    then (if next_is 42 bs then false else true)
    else true

-- SQL text: bytes, strings and quoted names, both kinds of comment, and braces that pair up
pub data SqlText : List ℕ → Type 0 where
  empty : SqlText []
  byte : {b : ℕ} {bs : List ℕ} → ordinary b bs ≡ true → SqlText bs → SqlText (b ∷ bs)
  string :
      {q : ℕ} {bs : List ℕ} (s : List ℕ)
      → (q ≡ 39) ⊎ (q ≡ 34)
      → next_is q bs ≡ false
      → SqlText bs
      → SqlText (q ∷ doubled_text q s ++ q ∷ bs)
  line_comment :
      {bs : List ℕ} (c : List ℕ)
      → All (λ b. (b == newline) ≡ false) c
      → SqlText bs
      → SqlText (45 ∷ 45 ∷ c ++ newline ∷ bs)
  block_comment : {bs cs : List ℕ} → BlockComment 1 cs → SqlText bs → SqlText (47 ∷ 42 ∷ cs ++ bs)
  braces : {cs bs : List ℕ} → SqlText cs → SqlText bs → SqlText (123 ∷ cs ++ 125 ∷ bs)

more-more : (m n : ℕ) (k : Option ℕ) → more m (more n k) ≡ more (m + n) k
more-more m n none = refl
more-more m n (some k) = ground arith

more_zero : (k : Option ℕ) → k ≡ more 0 k
more_zero none = refl
more_zero (some n) = ground arith

more-then :
    (m n : ℕ) {k : ℕ} {x y : Option ℕ} (z : Option ℕ)
    → m + n ≡ k
    → x ≡ more m y
    → y ≡ more n z
    → x ≡ more k z
more-then m n z e h k = h ∙ ap (more m) k ∙ more-more m n z ∙ ap (λ i. more i z) e

two_more : {x : Option ℕ} (z : Option ℕ) (n : ℕ) → x ≡ more n z → more 1 (more 1 x) ≡ more (2 + n) z
two_more z n h =
    ground (arith, ap (λ y. more 1 (more 1 y)) h, more-more 1 n z, more-more 1 (1 + n) z)

sql_length-doubled_text :
    (q d : ℕ) (s rest : List ℕ)
    → next_is q rest ≡ false
    → sql_length (quoted q) d (doubled_text q s ++ q ∷ rest)
      ≡ more (length (doubled_text q s) + 1) (sql_length plain d rest)
unfolding sql_length doubled_text
sql_length-doubled_text q d [] rest h = ground (arith, ==_refl q)
sql_length-doubled_text q d (b ∷ s) rest h = ground (
  arith,
  ==_refl q,
  sql_length-doubled_text q d s rest h,
  more-more 1 (length (doubled_text q s) + 1) (sql_length plain d rest),
  more-more 2 (length (doubled_text q s) + 1) (sql_length plain d rest),
)

sql_length-line :
    (d : ℕ) (c rest : List ℕ)
    → All (λ b. (b == newline) ≡ false) c
    → sql_length comment d (c ++ newline ∷ rest) ≡ more (length c + 1) (sql_length plain d rest)
unfolding sql_length
sql_length-line d [] rest h = ground arith
sql_length-line d (b ∷ c) rest h =
    ground
      (arith, sql_length-line d c rest h.1, more-more 1 (length c + 1) (sql_length plain d rest))

-- a block comment does not end in an open mark
next_is-block :
    {n : ℕ} {cs : List ℕ} (q : ℕ) (rest : List ℕ)
    → BlockComment n cs
    → next_is q (cs ++ rest) ≡ next_is q cs
next_is-block q rest last_close = refl
next_is-block q rest (shallower h) = refl
next_is-block q rest (deeper h) = refl
next_is-block q rest (inside a b h) = refl

sql_length-block :
    (d : ℕ) (rest : List ℕ) (n : ℕ) (cs : List ℕ)
    → BlockComment (suc n) cs
    → sql_length (nested (suc n)) d (cs ++ rest) ≡ more (length cs) (sql_length plain d rest)
unfolding sql_length
sql_length-block d rest zero cs last_close = ground (arith, more-more 1 1 (sql_length plain d rest))
sql_length-block d rest (suc n) bs (shallower {bs = cs} h) = ground (
  arith,
  sql_length-block d rest n cs h,
  more-more 1 1 (more (length cs) (sql_length plain d rest)),
  more-more 2 (length cs) (sql_length plain d rest),
)
sql_length-block d rest n bs (deeper {bs = cs} h) = ground (
  arith,
  sql_length-block d rest (suc n) cs h,
  more-more 1 1 (more (length cs) (sql_length plain d rest)),
  more-more 2 (length cs) (sql_length plain d rest),
)
sql_length-block d rest n bs (inside {b = b} {bs = cs} f g h) = ground (
  arith,
  f,
  g,
  next_is-block 42 rest h,
  next_is-block 47 rest h,
  sql_length-block d rest n cs h,
  more-more 1 (length cs) (sql_length plain d rest),
)

next_is-brace :
    (q : ℕ) (bs rest : List ℕ) → (125 == q) ≡ false → next_is q (bs ++ 125 ∷ rest) ≡ next_is q bs
next_is-brace q [] rest h = h
next_is-brace q (b ∷ bs) rest h = refl

not_brace : (q : ℕ) → (q ≡ 39) ⊎ (q ≡ 34) → (125 == q) ≡ false
not_brace q h = ground arith

module _ (rest : List ℕ) where
  sql_length-ordinary :
      (d b : ℕ) (bs : List ℕ)
      → ordinary b bs ≡ true
      → sql_length plain d (b ∷ bs ++ 125 ∷ rest) ≡ more 1 (sql_length plain d (bs ++ 125 ∷ rest))
  unfolding sql_length ordinary
  sql_length-ordinary zero b bs h =
      ground (arith, next_is-brace 45 bs rest refl, next_is-brace 42 bs rest refl)
  sql_length-ordinary (suc d) b bs h =
      ground (arith, next_is-brace 45 bs rest refl, next_is-brace 42 bs rest refl)

sql_length-string :
    (d q : ℕ) (s rest : List ℕ)
    → (q ≡ 39) ⊎ (q ≡ 34)
    → next_is q rest ≡ false
    → sql_length plain d (q ∷ doubled_text q s ++ q ∷ rest)
      ≡ more (1 + (length (doubled_text q s) + 1)) (sql_length plain d rest)
unfolding sql_length
sql_length-string zero q s rest h k = ground (
  arith,
  sql_length-doubled_text q 0 s rest k,
  more-more 1 (length (doubled_text q s) + 1) (sql_length plain 0 rest),
)
sql_length-string (suc d) q s rest h k = ground (
  arith,
  sql_length-doubled_text q (suc d) s rest k,
  more-more 1 (length (doubled_text q s) + 1) (sql_length plain (suc d) rest),
)

sql_length-line_comment :
    (d : ℕ) (c rest : List ℕ)
    → All (λ b. (b == newline) ≡ false) c
    → sql_length plain d (45 ∷ 45 ∷ c ++ newline ∷ rest)
      ≡ more (2 + (length c + 1)) (sql_length plain d rest)
unfolding sql_length
sql_length-line_comment zero c rest h =
    two_more (sql_length plain 0 rest) (length c + 1) (sql_length-line 0 c rest h)
sql_length-line_comment (suc d) c rest h =
    two_more (sql_length plain (suc d) rest) (length c + 1) (sql_length-line (suc d) c rest h)

sql_length-BlockComment :
    (d : ℕ) (cs rest : List ℕ)
    → BlockComment 1 cs
    → sql_length plain d (47 ∷ 42 ∷ cs ++ rest) ≡ more (2 + length cs) (sql_length plain d rest)
unfolding sql_length
sql_length-BlockComment zero cs rest h =
    two_more (sql_length plain 0 rest) (length cs) (sql_length-block 0 rest 0 cs h)
sql_length-BlockComment (suc d) cs rest h =
    two_more (sql_length plain (suc d) rest) (length cs) (sql_length-block (suc d) rest 0 cs h)

sql_length-open :
    (d : ℕ) (bs : List ℕ) → sql_length plain d (123 ∷ bs) ≡ more 1 (sql_length plain (suc d) bs)
unfolding sql_length
sql_length-open zero bs = refl
sql_length-open (suc d) bs = refl

sql_length-close :
    (d : ℕ) (bs : List ℕ) → sql_length plain (suc d) (125 ∷ bs) ≡ more 1 (sql_length plain d bs)
unfolding sql_length
sql_length-close d bs = refl

pub sql_length-text :
    {body : List ℕ} (d : ℕ) (rest : List ℕ)
    → SqlText body
    → sql_length plain d (body ++ 125 ∷ rest) ≡ more (length body) (sql_length plain d (125 ∷ rest))
sql_length-text d rest empty = more_zero (sql_length plain d (125 ∷ rest))
sql_length-text d rest (byte {b = b} {bs = bs} h t) =
    more-then 1 (length bs) (sql_length plain d (125 ∷ rest)) (omega arith)
      (sql_length-ordinary rest d b bs h) (sql_length-text d rest t)
sql_length-text d rest (string {q = q} {bs = bs} s h k t) =
    let ds = doubled_text q s in
    ap (λ r. sql_length plain d (q ∷ r)) (append_assoc ds (q ∷ bs) (125 ∷ rest))
    ∙ more-then (1 + (length ds + 1)) (length bs) (sql_length plain d (125 ∷ rest))
        (omega (arith, length-append ds (q ∷ bs)))
        (sql_length-string d q s (bs ++ 125 ∷ rest) h (next_is-brace q bs rest (not_brace q h) ∙ k))
        (sql_length-text d rest t)
sql_length-text d rest (line_comment {bs = bs} c h t) =
    ap (λ r. sql_length plain d (45 ∷ 45 ∷ r)) (append_assoc c (newline ∷ bs) (125 ∷ rest))
    ∙ more-then (2 + (length c + 1)) (length bs) (sql_length plain d (125 ∷ rest))
        (omega (arith, length-append c (newline ∷ bs)))
        (sql_length-line_comment d c (bs ++ 125 ∷ rest) h) (sql_length-text d rest t)
sql_length-text d rest (block_comment {bs = bs} {cs = cs} h t) =
    ap (λ r. sql_length plain d (47 ∷ 42 ∷ r)) (append_assoc cs bs (125 ∷ rest))
    ∙ more-then (2 + length cs) (length bs) (sql_length plain d (125 ∷ rest))
        (omega (arith, length-append cs bs)) (sql_length-BlockComment d cs (bs ++ 125 ∷ rest) h)
        (sql_length-text d rest t)
sql_length-text d rest (braces {cs = cs} {bs = bs} h t) =
    let inner = bs ++ 125 ∷ rest in
    let z = sql_length plain d (125 ∷ rest) in
    ap (λ r. sql_length plain d (123 ∷ r)) (append_assoc cs (125 ∷ bs) (125 ∷ rest))
    ∙ more-then 1 (length cs + (1 + length bs)) z (omega (arith, length-append cs (125 ∷ bs)))
        (sql_length-open d (cs ++ 125 ∷ inner))
        (more-then (length cs) (1 + length bs) z refl (sql_length-text (suc d) inner h)
          (more-then 1 (length bs) z refl (sql_length-close d inner) (sql_length-text d rest t)))
