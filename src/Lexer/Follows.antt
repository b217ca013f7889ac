-- ===== src/Lexer/Follows.antt =====
-- Each token of internal/dsl/lexer.go, against the part of the source that the lexer has read.
use pacific_coast.Base.{
  ℕ, String, Bool, true, false, List, [], ◌∷◌, ◌++◌, ◌≤◌, length-append, ◌≡◌, refl, sym, ap, ◌∙◌,
  arith,
}
use mathlib.Core.Path.{subst}
use pacific_coast.Lexer.Token.{Token, text, tok_string}
use pacific_coast.Lexer.Cursor.{Unicode, advance, position}
use pacific_coast.Lexer.Scan.{between, blank_length, outside, where_length, spaces_length}
use pacific_coast.Lexer.Next.{
  Effect, nothing, arm_raw_sql, disarm_raw_sql, see_partial, clear_partial, arm_where, captured,
  Scan, scan_token,
}
use pacific_coast.Lexer.Run.{
  predicate_token, Lexer, here, moved, apply_effect, finish, capture_where_predicate, next_at,
  next_scanned, next, next_by,
}
use pacific_coast.Lexer.Places.{place, Behind, advance_over-Behind, position-Behind}

module _ (file : String) (src : List ℕ) where
  -- a token stands behind a part of the source, at the position of that part's end
  abbrev pub Placed : Token → Type 0
  Placed t = (before rest : List ℕ) × (src ≡ before ++ rest) × (t.pos ≡ place file before)

  -- placed tokens, from the byte `m` on, in the order of the source
  abbrev pub InOrder : ℕ → List Token → Type 0
  InOrder m [] = Unit
  InOrder m (t ∷ ts) = (m ≤ t.pos.byte) × Placed t × InOrder t.pos.byte ts

  -- the same, and none beyond the byte `hi`
  abbrev pub Queued : ℕ → List Token → ℕ → Type 0
  Queued m [] hi = m ≤ hi
  Queued m (t ∷ ts) hi = (m ≤ t.pos.byte) × Placed t × Queued t.pos.byte ts hi

  Queued-weaken : (m : ℕ) (ts : List Token) (hi k : ℕ) → hi ≤ k → Queued m ts hi → Queued m ts k
  Queued-weaken m [] hi k h q = omega arith
  Queued-weaken m (t ∷ ts) hi k h q = (q.0, q.1, Queued-weaken t.pos.byte ts hi k h q.2)

  Queued-snoc :
      (m : ℕ) (ts : List Token) (t : Token) (hi : ℕ)
      → Placed t
      → t.pos.byte ≤ hi
      → Queued m ts t.pos.byte
      → Queued m (ts ++ t ∷ []) hi
  Queued-snoc m [] t hi p h q = (q, p, h)
  Queued-snoc m (s ∷ ts) t hi p h q = (q.0, q.1, Queued-snoc s.pos.byte ts t hi p h q.2)

  -- a lexer whose tokens from now on stand at `m` or later
  pub record Sound (m : ℕ) (l : Lexer) : Type 0 where
    pub before : List ℕ
    pub behind : Behind src before l.cursor
    pub queued : Queued m l.pending l.cursor.pos
    pub same_file : l.file ≡ file

  Sound-moved : (m n : ℕ) (l : Lexer) → Sound m l → Sound m (moved n l)
  unfolding moved advance
  Sound-moved m n l s =
      let (more, behind) =
        advance_over-Behind src n l.cursor.rest s.before l.cursor refl s.behind in
      record {
        before = s.before ++ more;
        behind = behind;
        queued =
            Queued-weaken m l.pending l.cursor.pos (moved n l).cursor.pos
              (omega (arith, s.behind, behind, length-append s.before more)) s.queued;
        same_file = s.same_file;
      }

  Placed-here : (m : ℕ) (l : Lexer) (t : Token) → Sound m l → t.pos ≡ here l → Placed t
  Placed-here m l t s e = (
    s.before,
    l.cursor.rest,
    s.behind.0,
    e
        ∙ ap (λ f. position f l.cursor) s.same_file
        ∙ position-Behind src file s.before l.cursor s.behind,
  )

  here_byte : (l : Lexer) (t : Token) → t.pos ≡ here l → t.pos.byte ≡ l.cursor.pos
  unfolding position
  here_byte l t e = ap (λ p. p.byte) e

  Queued-bound : (m : ℕ) (ts : List Token) (hi : ℕ) → Queued m ts hi → m ≤ hi
  Queued-bound m [] hi q = q
  Queued-bound m (t ∷ ts) hi q = omega (arith, q.0, Queued-bound t.pos.byte ts hi q.2)

  -- a token and the lexer behind it
  abbrev pub Follows : ℕ → Token × Lexer → Type 0
  Follows m r = (m ≤ r.0.pos.byte) × Placed r.0 × Sound r.0.pos.byte r.1

  -- with nothing pending the lexer goes on from where it stands
  Sound-from : (m k : ℕ) (l : Lexer) → l.pending ≡ [] → k ≤ l.cursor.pos → Sound m l → Sound k l
  Sound-from m k l p h s = record {
    before = s.before;
    behind = s.behind;
    queued = subst (λ ts. Queued k ts l.cursor.pos) (sym p) h;
    same_file = s.same_file;
  }

  Sound-effect :
      (m : ℕ) (e : Effect) (l0 l : Lexer)
      → l.pending ≡ []
      → m ≤ (here l0).byte
      → (here l0).byte ≤ l.cursor.pos
      → Placed (record { kind = tok_string; value = text []; pos = here l0 })
      → Sound m l
      → Sound m (apply_effect e (here l0) l)
  Sound-effect m nothing l0 l p h k q s = s
  Sound-effect m arm_raw_sql l0 l p h k q s = record {
    before = s.before;
    behind = s.behind;
    queued = s.queued;
    same_file = s.same_file;
  }
  Sound-effect m disarm_raw_sql l0 l p h k q s = record {
    before = s.before;
    behind = s.behind;
    queued = s.queued;
    same_file = s.same_file;
  }
  Sound-effect m see_partial l0 l p h k q s = record {
    before = s.before;
    behind = s.behind;
    queued = s.queued;
    same_file = s.same_file;
  }
  Sound-effect m clear_partial l0 l p h k q s = record {
    before = s.before;
    behind = s.behind;
    queued = s.queued;
    same_file = s.same_file;
  }
  Sound-effect m arm_where l0 l p h k q s = record {
    before = s.before;
    behind = s.behind;
    queued = s.queued;
    same_file = s.same_file;
  }
  Sound-effect m (captured body) l0 l p h k q s = record {
    before = s.before;
    behind = s.behind;
    queued =
        subst
          (λ ts.
            Queued m (ts ++ record { kind = tok_string; value = text body; pos = here l0 } ∷ [])
              l.cursor.pos)
          (sym p) (h, q, k);
    same_file = s.same_file;
  }

  moved_pos : (m n : ℕ) (l : Lexer) → Sound m l → l.cursor.pos ≤ (moved n l).cursor.pos
  unfolding moved advance
  moved_pos m n l s =
      let (more, behind) =
        advance_over-Behind src n l.cursor.rest s.before l.cursor refl s.behind in
      omega (arith, s.behind, behind, length-append s.before more)

  finish-Follows :
      (m : ℕ) (c : Scan) (l : Lexer) → l.pending ≡ [] → Sound m l → Follows m (finish c l)
  unfolding finish moved position
  finish-Follows m c l p s =
      let k = l.cursor.pos in
      let t : Token = record { kind = tok_string; value = text []; pos = here l } in
      let placed = Placed-here m l t s refl in
      (
        Queued-bound m l.pending k s.queued,
        placed,
        Sound-effect k c.effect l (moved c.size l) p (omega arith) (moved_pos m c.size l s) placed
            (Sound-from m k (moved c.size l) p (moved_pos m c.size l s) (Sound-moved m c.size l s)),
      )

  next_at-Follows :
      (m : ℕ) (u : Unicode) (bs : List ℕ) (l : Lexer)
      → l.pending ≡ []
      → Sound m l
      → Follows m (next_at u bs l)
  unfolding next_at position
  next_at-Follows m u [] l p s = (
    Queued-bound m l.pending l.cursor.pos s.queued,
    Placed-here m l (record { kind = tok_string; value = text []; pos = here l }) s refl,
    Sound-from m l.cursor.pos l p (omega arith) s,
  )
  next_at-Follows m u (b ∷ bs) l p s =
      finish-Follows m (scan_token u l.armed_for_raw_sql l.saw_partial b bs) l p s

  predicate-Follows :
      (m n : ℕ) (l : Lexer) → l.pending ≡ [] → Sound m l → Follows m (predicate_token n l)
  unfolding position moved
  predicate-Follows m n l p s = (
    Queued-bound m l.pending l.cursor.pos s.queued,
    Placed-here m l (record { kind = tok_string; value = text []; pos = here l }) s refl,
    Sound-from m l.cursor.pos (moved n l) p (moved_pos m n l s) (Sound-moved m n l s),
  )

  next_by-Follows :
      (m : ℕ) (u : Unicode) (ts : List Token) (armed : Bool) (l : Lexer)
      → l.pending ≡ ts
      → Sound m l
      → Follows m (next_by u ts armed l)
  unfolding next_scanned capture_where_predicate moved
  next_by-Follows m u (t ∷ ts) armed l p s =
      let q = subst (λ xs. Queued m xs l.cursor.pos) p s.queued in
      (
        q.0,
        q.1,
        record { before = s.before; behind = s.behind; queued = q.2; same_file = s.same_file },
      )
  next_by-Follows m u [] true l p s =
      let l1 = record l { armed_for_where = false } in
      let s1 : Sound m l1 = record {
        before = s.before;
        behind = s.behind;
        queued = s.queued;
        same_file = s.same_file;
      } in
      let n = spaces_length l.cursor.rest in
      let l2 = moved n l1 in
      predicate-Follows m (where_length outside l2.cursor.rest) l2 p (Sound-moved m n l1 s1)
  next_by-Follows m u [] false l p s =
      let n = blank_length between l.cursor.rest in
      let l2 = moved n l in next_at-Follows m u l2.cursor.rest l2 p (Sound-moved m n l s)

  pub next-Follows : (m : ℕ) (u : Unicode) (l : Lexer) → Sound m l → Follows m (next u l)
  unfolding next
  next-Follows m u l s = next_by-Follows m u l.pending l.armed_for_where l refl s
