-- ===== src/Ring/Window.antt =====
-- What a poll of the ring of internal/obs/logring.go gives when no writer is at work.
use pacific_coast.Base.{
  ℕ, zero, suc, some, List, [], ◌∷◌, nat_eq, ==_refl, ◌&&◌, ltb, leb, ◌+◌, ◌-◌, ◌*◌, ℤ, ◌%◌, ◌^◌,
  ◌≤◌, ◌<◌, All, keep, length, ◌≡◌, refl, sym, ap, ◌∙◌, arith, Bool-cases, inl, inr,
}
use mathlib.Core.Path.{subst}
use pacific_coast.Ring.State.{
  doubled_until, Record, Slots, LogRing, new_log_ring, ring_size, claim, publish, append,
  insert_by_seq, sort_by_seq, earliest_from, since_now, least_size,
}
use pacific_coast.Ring.Turns.{gathered, since_caught_up, since_behind}
use pacific_coast.Ring.Slots.{InWindow, Written, append_all, append_all-Written, numbered}

-- the loop of a poll, where each number's slot still holds its record
gathered-numbered :
    (load : ℕ → Slots) (size i : ℕ) (xs : List Record)
    → All (λ rec. load rec.seq (rec.seq % size) ≡ some rec) (numbered i xs)
    → gathered load size (length xs) i ≡ numbered i xs
unfolding gathered
gathered-numbered load size i [] h = refl
gathered-numbered load size i (x ∷ xs) h =
    ground (arith, h.0, gathered-numbered load size (i + 1) xs h.1, ==_refl i)

insert_first :
    (i : ℕ) (x : Record) (xs : List Record)
    → insert_by_seq (record x { seq = i }) (numbered (i + 1) xs) ≡ numbered i (x ∷ xs)
unfolding insert_by_seq
insert_first i x [] = refl
insert_first i x (y ∷ xs) = ground arith

sort_numbered : (i : ℕ) (xs : List Record) → sort_by_seq (numbered i xs) ≡ numbered i xs
unfolding sort_by_seq insert_by_seq
sort_numbered i [] = refl
sort_numbered i (x ∷ xs) =
    ap (insert_by_seq (record x { seq = i })) (sort_numbered (i + 1) xs) ∙ insert_first i x xs

abbrev from_seq : ℕ → List Record → List Record
from_seq e xs = keep (λ rec. leb e rec.seq) xs

from_seq-numbered :
    (e i : ℕ) (xs : List Record) → e ≤ i → from_seq e (numbered i xs) ≡ numbered i xs
from_seq-numbered e i [] h = refl
from_seq-numbered e i (x ∷ xs) h = ground (arith, from_seq-numbered e (i + 1) xs)

from_seq_beyond : (e i : ℕ) (xs : List Record) → i + length xs ≤ e → from_seq e (numbered i xs) ≡ []
from_seq_beyond e i [] h = refl
from_seq_beyond e i (x ∷ xs) h = ground (arith, from_seq_beyond e (i + 1) xs)

-- the records from a number on are a suffix
suffix_kept :
    (i e : ℕ) (xs : List Record)
    → i ≤ e
    → e ≤ i + length xs
    → (ys : List Record) × (length ys ≡ i + length xs - e)
      × (from_seq e (numbered i xs) ≡ numbered e ys)
suffix_kept i e [] h k = ([], omega arith, refl)
suffix_kept i e (x ∷ xs) h k = elim (Bool-cases (leb e i)) [
  | inl now ↦ (x ∷ xs, ground (arith, now), ground (arith, now, from_seq-numbered e (i + 1) xs))
  | inr later ↦
      let (ys, long, kept) = suffix_kept (i + 1) e xs (ground (arith, later)) (omega arith) in
      (ys, ground (arith, later, long), ground (arith, later, kept))
]

-- what the poll keeps, by number
same_window :
    (size n k s : ℕ)
    → 1 ≤ size
    → 1 ≤ s
    → (ltb k s && ltb n (s + size)) ≡ leb (earliest_from size n k) s
unfolding earliest_from
same_window size n k s h p = ground arith

keep_same_window :
    (size n k i : ℕ) (xs : List Record)
    → 1 ≤ size
    → 1 ≤ i
    → keep (λ rec. ltb k rec.seq && ltb n (rec.seq + size)) (numbered i xs)
      ≡ from_seq (earliest_from size n k) (numbered i xs)
keep_same_window size n k i [] h p = refl
keep_same_window size n k i (x ∷ xs) h p =
    ground (arith, same_window size n k i h p, keep_same_window size n k (i + 1) xs h)

window_held :
    (size n e i : ℕ) (slots : Slots) (xs : List Record)
    → n < e + size
    → InWindow size n slots (numbered i xs)
    → All (λ rec. slots (rec.seq % size) ≡ some rec) (from_seq e (numbered i xs))
window_held size n e i slots [] h w = tt
window_held size n e i slots (x ∷ xs) h w =
    ground (arith, w.0, window_held size n e (i + 1) slots xs h w.1)

size-append_all : (xs : List Record) (r : LogRing) → (append_all xs r).size ≡ r.size
unfolding append_all append claim publish
size-append_all [] r = refl
size-append_all (x ∷ xs) r = size-append_all xs (append x r)

earliest_beyond : (size n k : ℕ) → n ≤ k → 1 + n ≤ earliest_from size n k
unfolding earliest_from
earliest_beyond size n k h = ground arith

earliest_within :
    (size n k : ℕ)
    → 1 ≤ size
    → k < n
    → (1 ≤ earliest_from size n k)
      × (earliest_from size n k ≤ n)
      × (n < earliest_from size n k + size)
unfolding earliest_from
earliest_within size n k h p = ground arith

gathered-Written :
    (r : LogRing) (k : ℕ) (xs : List Record)
    → Written xs r
    → k < length xs
    → let e = earliest_from r.size (length xs) k in
      sort_by_seq (gathered (λ i. r.slots) r.size (length xs + 1 - e) e)
      ≡ from_seq e (numbered 1 xs)
gathered-Written r k xs w h =
    let n = length xs in
    let e = earliest_from r.size n k in
    let (low, high, near) = earliest_within r.size n k w.sized h in
    let (ys, long, kept) = suffix_kept 1 e xs low (omega (arith, high)) in
    let held =
      subst (All (λ rec. r.slots (rec.seq % r.size) ≡ some rec)) kept
        (window_held r.size n e 1 r.slots xs near w.holds) in
    let count : n + 1 - e ≡ length ys = omega (arith, long) in
    ap (λ c. sort_by_seq (gathered (λ i. r.slots) r.size c e)) count
    ∙ ap sort_by_seq (gathered-numbered (λ i. r.slots) r.size e ys held)
    ∙ sort_numbered e ys
    ∙ sym kept

since-Written :
    (r : LogRing) (k : ℕ) (xs : List Record)
    → length xs + 1 < 2 ^ 64
    → Written xs r
    → since_now r k
      ≡ some (
        keep (λ rec. ltb k rec.seq && ltb (length xs) (rec.seq + r.size)) (numbered 1 xs),
        length xs,
      )
since-Written r k xs small w =
    let n = length xs in
    let window = keep_same_window r.size n k 1 xs w.sized (omega arith) in
    elim (Bool-cases (leb r.head k)) [
      | inl caught ↦
          let done : n ≤ k = ground (arith, caught, w.heads) in
          since_caught_up (λ i. r.slots) r k caught
          ∙ ap (λ h. some ([], h)) w.heads
          ∙ ap (λ l. some (l, n))
              (sym (
                window
                ∙ from_seq_beyond (earliest_from r.size n k) 1 xs
                    (earliest_beyond r.size n k done)))
      | inr late ↦
          let more : k < n = ground (arith, late, w.heads) in
          since_behind (λ i. r.slots) r k (omega (arith, w.heads)) late
          ∙ ap
              (λ h. some (
                sort_by_seq (
                    gathered (λ i. r.slots) r.size (h + 1 - earliest_from r.size h k)
                      (earliest_from r.size h k)),
                h,
              ))
              w.heads
          ∙ ap (λ l. some (l, n)) (gathered-Written r k xs w more ∙ sym window)
    ]

-- a ring has a slot
doubled_until-pos : (n size m : ℕ) → 1 ≤ size → 1 ≤ doubled_until n size m
unfolding doubled_until
doubled_until-pos zero size m h = h
doubled_until-pos (suc n) size m h = ground (arith, doubled_until-pos n (size * 2) m)

ring_size-pos : (m : ℤ) → 1 ≤ ring_size m
unfolding ring_size
ring_size-pos m = ground (arith, doubled_until-pos 63 1 (least_size m) (omega arith))

new_log_ring-Written : (m : ℤ) → Written [] (new_log_ring m)
unfolding new_log_ring
new_log_ring-Written m = record { heads = refl; sized = ring_size-pos m; holds = tt }

-- After fewer than 2^64 - 1 records are appended to a new ring, one after another, a poll ends and gives
-- those that the reader has not seen and that are among the last as many as the ring has slots, each as
-- it was appended but for its number, in the order they were appended, and the number of the last one.
pub since_now-append_all :
    (min_size : ℤ) (since_seq : ℕ) (xs : List Record)
    → length xs + 1 < 2 ^ 64
    → since_now (append_all xs (new_log_ring min_size)) since_seq
      ≡ some (
        keep
            (λ rec. ltb since_seq rec.seq && ltb (length xs) (rec.seq + ring_size min_size))
            (numbered 1 xs),
        length xs,
      )
unfolding new_log_ring
since_now-append_all m k xs h =
    let r = append_all xs (new_log_ring m) in
    since-Written r k xs h
      (append_all-Written [] xs (new_log_ring m) (omega (arith, h)) (new_log_ring-Written m))
    ∙ ap
        (λ size. some (
          keep (λ rec. ltb k rec.seq && ltb (length xs) (rec.seq + size)) (numbered 1 xs),
          length xs,
        ))
        (size-append_all xs (new_log_ring m))
