-- ===== src/Lexer/Order.antt =====
-- The tokens of internal/dsl/lexer.go come in the order of the source.
use pacific_coast.Base.{
  ℕ, zero, suc, String, Bool, true, false, Option, none, some, List, [], ◌∷◌, ◌≤◌, ◌≡◌, refl, arith,
}
use mathlib.Core.Path.{subst}
use pacific_coast.Lexer.Token.{Token}
use pacific_coast.Lexer.Cursor.{Unicode}
use pacific_coast.Lexer.Run.{Lexer, new_lexer, next, is_eof, then_tokens, lex, enough}
use pacific_coast.Lexer.Terminates.{lex-terminates}
use pacific_coast.Lexer.Places.{last_line}
use pacific_coast.Lexer.Follows.{Placed, InOrder, Sound, next-Follows}

module _ (file : String) (src : List ℕ) where
  abbrev ResultInOrder : ℕ → Option (List Token) → Type 0
  ResultInOrder m none = Unit
  ResultInOrder m (some ts) = InOrder file src m ts

  cons-InOrder :
      (m : ℕ) (last : Bool) (t : Token) (r : Option (List Token))
      → m ≤ t.pos.byte
      → Placed file src t
      → ResultInOrder t.pos.byte r
      → ResultInOrder m (elim last [ true ↦ some (t ∷ []) | false ↦ then_tokens t r ])
  cons-InOrder m true t r h p q = (h, p, tt)
  cons-InOrder m false t none h p q = tt
  cons-InOrder m false t (some ts) h p q = (h, p, q)

  lex-InOrder :
      (m : ℕ) (u : Unicode) (n : ℕ) (l : Lexer) → Sound file src m l → ResultInOrder m (lex u n l)
  unfolding lex
  lex-InOrder m u zero l s = tt
  lex-InOrder m u (suc n) l s =
      let (t, l2) = next u l in
      let f = next-Follows file src m u l s in
      cons-InOrder m (is_eof t.kind) t (lex u n l2) f.0 f.1 (lex-InOrder t.pos.byte u n l2 f.2)

  start-Sound : Sound file src 0 (new_lexer file src)
  unfolding new_lexer last_line
  start-Sound = record {
    before = [];
    behind = (refl, refl, refl, refl);
    queued = omega arith;
    same_file = refl;
  }

-- The tokens of any source: each stands behind a part of the source at the position of that part's
-- end, by its bytes, by the newlines in it and by the bytes behind the last of these; and no token
-- stands before the one ahead of it.
pub lex-placed :
    (u : Unicode) (file : String) (src : List ℕ)
    → (ts : List Token) × (lex u (enough src) (new_lexer file src) ≡ some ts)
      × InOrder file src 0 ts
lex-placed u file src =
    let (ts, lexed, ends) = lex-terminates u file src in
    (
      ts,
      lexed,
      subst (ResultInOrder file src 0) lexed
          (lex-InOrder file src 0 u (enough src) (new_lexer file src) (start-Sound file src)),
    )
