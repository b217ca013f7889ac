-- ===== src/Ring/Turns.antt =====
-- The loop of a poll of internal/obs/logring.go ends within as many turns as the ring has slots, as long
-- as the head is not the last number of a uint64.
use pacific_coast.Base.{
  ℕ, zero, suc, true, false, some, List, [], leb, ◌+◌, ◌-◌, ◌%◌, ◌^◌, ◌≤◌, ◌<◌, ◌≡◌, refl, ap, ◌∙◌,
  arith,
}
use native.Mathlib.Nat.{mod-eq_of_lt}
use pacific_coast.Ring.State.{
  Record, Slots, LogRing, holding, held, collect, sorted, sort_by_seq, earliest_from, since,
}

-- the records of `count` numbers from `i` on
unfoldable pub gathered : (ℕ → Slots) → ℕ → ℕ → ℕ → List Record
gathered load size zero i = []
gathered load size (suc count) i = holding i (load i (i % size)) (gathered load size count (i + 1))

pub collect-gathered :
    (load : ℕ → Slots) (size fuel count head i : ℕ)
    → head + 1 < 2 ^ 64
    → i + count ≡ head + 1
    → count ≤ fuel
    → collect load size fuel head i ≡ some (gathered load size count i)
unfolding collect gathered
collect-gathered load size zero zero head i h e f = ground (arith, e)
collect-gathered load size zero (suc count) head i h e f = absurd (omega (arith, f))
collect-gathered load size (suc fuel) zero head i h e f = ground (arith, e)
collect-gathered load size (suc fuel) (suc count) head i h e f =
    let more : leb i head ≡ true = ground (arith, e) in
    let next : (i + 1) % 2 ^ 64 ≡ i + 1 = mod-eq_of_lt (omega (arith, e, h)) in
    let rest =
      ap (collect load size fuel head) next
      ∙ collect-gathered load size fuel count head (i + 1) h (omega (arith, e))
          (omega (arith, f)) in
    rw more (ap (held i (load i (i % size))) rest)

pub earliest_to : (size head k : ℕ) → k < head → earliest_from size head k ≤ head + 1
unfolding earliest_from
earliest_to size head k h = ground arith

earliest_turns : (size head k : ℕ) → head + 1 - earliest_from size head k ≤ size
unfolding earliest_from
earliest_turns size head k = ground arith

pub since_caught_up :
    (load : ℕ → Slots) (r : LogRing) (k : ℕ)
    → leb r.head k ≡ true
    → since load r k ≡ some ([], r.head)
unfolding since
since_caught_up load r k h = rw h refl

pub since_behind :
    (load : ℕ → Slots) (r : LogRing) (k : ℕ)
    → r.head + 1 < 2 ^ 64
    → leb r.head k ≡ false
    → let e = earliest_from r.size r.head k in
      since load r k ≡ some (sort_by_seq (gathered load r.size (r.head + 1 - e) e), r.head)
unfolding since
since_behind load r k h late =
    let e = earliest_from r.size r.head k in
    let more : e ≤ r.head + 1 = earliest_to r.size r.head k (ground (arith, late)) in
    let all =
      collect-gathered load r.size r.size (r.head + 1 - e) r.head e h (omega (arith, more))
        (earliest_turns r.size r.head k) in
    rw late (ap (sorted r.head) all)
