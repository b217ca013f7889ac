-- ===== src/Ring/Slots.antt =====
-- The slots of the ring of internal/obs/logring.go after records are appended one after another.
use pacific_coast.Base.{
  ℕ, some, List, [], ◌∷◌, ◌++◌, nat_eq, ==_refl, ltb, ◌+◌, ◌-◌, ◌%◌, ◌^◌, ◌≤◌, ◌<◌, All, All-append,
  length, length-append, ◌≡◌, ◌≢◌, sym, ap, ◌∙◌, arith, append-nil, append_assoc, Bool-cases, inl,
  inr,
}
use mathlib.Core.Path.{subst}
use native.Mathlib.Nat.{mod-lt, mod-eq_of_lt, mod-add-mod, mod-eq-sub-mod}
use pacific_coast.Ring.State.{Record, Slots, LogRing, claim, stored, publish, append}

-- the records in the order they were appended, each with its number
abbrev pub numbered : ℕ → List Record → List Record
numbered m [] = []
numbered m (r ∷ rs) = record r { seq = m } ∷ numbered (m + 1) rs

unfoldable pub append_all : List Record → LogRing → LogRing
append_all [] r = r
append_all (x ∷ xs) r = append_all xs (append x r)

shifted_apart : (n a d : ℕ) → 1 ≤ d → d < n → ((a + d) % n) ≢ (a % n)
shifted_apart n a d h k e =
    let y = a % n + d in
    let z = y - n in
    let x_small = mod-lt a {m = n} (omega arith) in
    elim (Bool-cases (ltb y n)) [
      | inl less ↦
          let small : y < n = ground (arith, less) in
          omega (arith, mod-eq_of_lt small, mod-add-mod a n d, e)
      | inr more ↦
          let large : n ≤ y = ground (arith, more) in
          let small : z < n = omega arith in
          omega (arith, mod-eq-sub-mod large, mod-eq_of_lt small, mod-add-mod a n d, e)
    ]

-- two numbers less than a ring apart are in different slots
pub slots_apart : (n a b : ℕ) → a < b → b < a + n → (b % n) ≢ (a % n)
slots_apart n a b h k e =
    let d : a + (b - a) ≡ b = omega arith in
    shifted_apart n a (b - a) (omega arith) (omega arith) (ap (λ c. c % n) d ∙ e)

-- every record that is not yet overwritten stands in its slot
-- a record's slot holds it, as long as no more than `n` records are appended in all
abbrev pub Kept : ℕ → ℕ → Slots → Record → Type 0
Kept size n slots rec = (n < rec.seq + size) → slots (rec.seq % size) ≡ some rec

abbrev pub InWindow : ℕ → ℕ → Slots → List Record → Type 0
InWindow size n slots log = All (Kept size n slots) log

-- the state after the records of `log`
pub record Written (log : List Record) (r : LogRing) : Type 0 where
  pub heads : r.head ≡ length log
  pub sized : 1 ≤ r.size
  pub holds : InWindow r.size (length log) r.slots (numbered 1 log)

numbered-append :
    (m : ℕ) (xs : List Record) (x : Record)
    → numbered m (xs ++ x ∷ []) ≡ numbered m xs ++ record x { seq = m + length xs } ∷ []
numbered-append m [] x = ap (λ k. record x { seq = k } ∷ []) (omega arith)
numbered-append m (y ∷ xs) x = ground (arith, numbered-append (m + 1) xs x)

-- a further record overwrites only one that falls out of the window
holds_after :
    (m : ℕ) (xs : List Record) (n size : ℕ) (slots : Slots) (x : Record)
    → m + length xs ≡ n + 1
    → x.seq ≡ n + 1
    → InWindow size n slots (numbered m xs)
    → InWindow size (n + 1) (stored (x.seq % size) x slots) (numbered m xs)
holds_after m [] n size slots x e f h = tt
holds_after m (y ∷ xs) n size slots x e f h = (
  λ k. ground (arith, k, h.0, slots_apart size m x.seq),
  holds_after (m + 1) xs n size slots x (omega (arith, e)) f h.1,
)

pub append-Written :
    (log : List Record) (r : LogRing) (x : Record)
    → length log + 1 < 2 ^ 64
    → Written log r
    → Written (log ++ x ∷ []) (append x r)
unfolding append claim publish
append-Written log r x h w =
    let n = length log in
    let seq = (r.head + 1) % 2 ^ 64 in
    let y = record x { seq = seq } in
    let small : seq ≡ n + 1 = ap (λ k. (k + 1) % 2 ^ 64) w.heads ∙ mod-eq_of_lt h in
    let longer : length (log ++ x ∷ []) ≡ n + 1 = length-append log (x ∷ []) in
    let old = holds_after 1 log n r.size r.slots y (omega arith) small w.holds in
    let new : InWindow r.size (n + 1) (stored (seq % r.size) y r.slots) (y ∷ []) =
      (λ k. ground (arith, ==_refl (seq % r.size)), tt) in
    let all =
      All-append (Kept r.size (n + 1) (stored (seq % r.size) y r.slots)) (numbered 1 log) (y ∷ [])
        old new in
    let log_then : numbered 1 (log ++ x ∷ []) ≡ numbered 1 log ++ y ∷ [] =
      numbered-append 1 log x
      ∙ ap (λ k. numbered 1 log ++ record x { seq = k } ∷ []) (omega (arith, small)) in
    record {
      heads = small ∙ sym longer;
      sized = w.sized;
      holds =
          subst
            (λ k. InWindow r.size k (stored (seq % r.size) y r.slots) (numbered 1 (log ++ x ∷ [])))
            (sym longer)
            (subst (InWindow r.size (n + 1) (stored (seq % r.size) y r.slots)) (sym log_then) all);
    }

pub append_all-Written :
    (log xs : List Record) (r : LogRing)
    → length log + length xs < 2 ^ 64
    → Written log r
    → Written (log ++ xs) (append_all xs r)
unfolding append_all
append_all-Written log [] r h w = subst (λ l. Written l r) (sym (append-nil log)) w
append_all-Written log (x ∷ xs) r h w =
    subst (λ l. Written l (append_all xs (append x r))) (append_assoc log (x ∷ []) xs)
      (append_all-Written (log ++ x ∷ []) xs (append x r)
        (omega (arith, h, length-append log (x ∷ [])))
        (append-Written log r x (omega (arith, h)) w))
