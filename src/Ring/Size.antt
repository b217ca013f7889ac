-- ===== src/Ring/Size.antt =====
-- The number of slots that NewLogRing of internal/obs/logring.go makes.
use pacific_coast.Base.{
  ℕ, zero, suc, ltb, ◌+◌, ◌*◌, ◌^◌, ◌≤◌, ◌<◌, min, max, ◌≡◌, refl, sym, ap, ◌∙◌, arith, Bool-cases,
  inl, inr, ℤ, pos, negsuc,
}
use mathlib.Core.Path.{subst}
use native.Mathlib.Numerals.{add-one}
use native.Mathlib.Nat.{mul_assoc, pow-suc, pow-succ'}
use pacific_coast.Ring.State.{capped, doubled_until, least_size, max_slots, ring_size}

pow_next : (j : ℕ) → 2 ^ j * 2 ≡ 2 ^ (j + 1)
pow_next j = sym (ap (λ k. 2 ^ k) (add-one j) ∙ pow-suc 2 j)

doubled_until-power : (n j m : ℕ) → (k : ℕ) × (doubled_until n (2 ^ j) m ≡ 2 ^ k)
unfolding doubled_until
doubled_until-power zero j m = (j, refl)
doubled_until-power (suc n) j m = elim (Bool-cases (ltb (2 ^ j) m)) [
  | inl small ↦
      let (k, power) = doubled_until-power n (j + 1) m in
      (k, ground (arith, small, ap (λ size. doubled_until n size m) (pow_next j) ∙ power))
  | inr large ↦ (j, ground (arith, large))
]

shifted : (size n : ℕ) → size * 2 ^ suc n ≡ size * 2 * 2 ^ n
shifted size n = ap (λ k. size * k) (pow-succ' 2 n) ∙ sym (mul_assoc size 2 (2 ^ n))

doubled_until-enough : (n size m : ℕ) → m ≤ size * 2 ^ n → m ≤ doubled_until n size m
unfolding doubled_until
doubled_until-enough zero size m h = ground (arith, h)
doubled_until-enough (suc n) size m h =
    let again : m ≤ size * 2 * 2 ^ n = subst (λ k. m ≤ k) (shifted size n) h in
    ground (arith, doubled_until-enough n (size * 2) m again)

doubled_until-least : (n size m : ℕ) → size < 2 * m → doubled_until n size m < 2 * m
unfolding doubled_until
doubled_until-least zero size m h = h
doubled_until-least (suc n) size m h = ground (arith, doubled_until-least n (size * 2) m)

-- the number of slots asked for, where a negative one asks for none
abbrev pub asked_slots : ℤ → ℕ
asked_slots (negsuc n) = 0
asked_slots (pos n) = n

least_size-max : (m : ℤ) → least_size m ≡ max (asked_slots m) 2
unfolding least_size
least_size-max (negsuc n) = refl
least_size-max (pos n) = ground arith

-- For every size asked for that a Go `int` can hold, be it negative, a new ring's size is a power of two
-- between 2 and 2^20, at least as large as asked for where the cap allows it, and less than twice as
-- large as asked for, where fewer than two are taken for two.
pub ring_size-bounds :
    (m : ℤ)
    → asked_slots m < 2 ^ 63
    → ((k : ℕ) × (ring_size m ≡ 2 ^ k))
      × (2 ≤ ring_size m)
      × (ring_size m ≤ max_slots)
      × (min (asked_slots m) max_slots ≤ ring_size m)
      × (ring_size m < 2 * max (asked_slots m) 2)
unfolding ring_size
ring_size-bounds m h =
    let asked = max (asked_slots m) 2 in
    let size = doubled_until 63 1 asked in
    let enough = doubled_until-enough 63 1 asked (omega arith) in
    let least = doubled_until-least 63 1 asked (omega arith) in
    let (k, power) = doubled_until-power 63 0 asked in
    let sized : ring_size m ≡ capped size =
      ap (λ a. capped (doubled_until 63 1 a)) (least_size-max m) in
    elim (Bool-cases (ltb max_slots size)) [
      | inl large ↦
          let all : ring_size m ≡ max_slots = sized ∙ ground (arith, large) in
          (
            (20, all),
            omega (arith, all),
            omega (arith, all),
            omega (arith, all),
            ground (arith, all, large, least),
          )
      | inr fits ↦
          let all : ring_size m ≡ size = sized ∙ ground (arith, fits) in
          (
            (k, all ∙ power),
            omega (arith, all, enough),
            ground (arith, all, fits),
            omega (arith, all, enough),
            omega (arith, all, least),
          )
    ]
