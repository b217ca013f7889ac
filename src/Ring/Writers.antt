-- ===== src/Ring/Writers.antt =====
-- Writers of the ring of internal/obs/logring.go at work at once, and a poll among them: a writer
-- claims its number and stores its record in two steps, and a poll's Loads come between any of these.
use pacific_coast.Base.{
  ℕ, zero, suc, Option, none, some, List, [], ◌∷◌, ◌++◌, ◌==◌, nat_eq, leb, ◌+◌, ◌-◌, ◌%◌, ◌^◌, ℤ,
  ◌≤◌, ◌<◌, All, ◌≡◌, refl, sym, ap, ◌∙◌, arith, Bool-cases, inl, inr,
}
use mathlib.Core.Path.{subst}
use pacific_coast.Ring.Turns.{gathered, earliest_to, since_caught_up, since_behind}
use mathlib.Core.List.{Memᴰ}
use pacific_coast.Ring.State.{
  Record, Slots, LogRing, new_log_ring, claim, stored, publish, holding, insert_by_seq, sort_by_seq,
  earliest_from, since,
}

-- the ring, the records that have a number, and those of them that are still to be stored
pub record Writing : Type 0 where
  pub ring : LogRing
  pub log : List Record
  pub waiting : List Record

abbrev pub started : ℤ → Writing
started min_size = record { ring = new_log_ring min_size; log = []; waiting = [] }

abbrev pub claiming : Record → Writing → Writing
claiming rec w =
    let (seq, ring) = claim w.ring in
    record {
      ring = ring;
      log = w.log ++ record rec { seq = seq } ∷ [];
      waiting = record rec { seq = seq } ∷ w.waiting;
    }

pub data Step (w : Writing) : Writing → Type 0 where
  claims : (rec : Record) → Step w (claiming rec w)
  stores :
      (before : List Record) (rec : Record) (after : List Record)
      → w.waiting ≡ before ++ rec ∷ after
      → Step w (record { ring = publish rec w.ring; log = w.log; waiting = before ++ after })

pub data Reach (w : Writing) : Writing → Type 0 where
  here : Reach w w
  next : {v x : Writing} → Reach w v → Step v x → Reach w x

-- numbers that grow, above `lo` and up to `hi`
abbrev pub Ascending : ℕ → List Record → ℕ → Type 0
Ascending lo [] hi = Unit
Ascending lo (r ∷ rs) hi = (lo < r.seq) × (r.seq ≤ hi) × Ascending r.seq rs hi

Mem-append : {x : Record} (xs ys : List Record) → Memᴰ x xs → Memᴰ x (xs ++ ys)
Mem-append [] ys m = elim m [ ]
Mem-append (z ∷ xs) ys (Memᴰ.head e) = Memᴰ.head e
Mem-append (z ∷ xs) ys (Memᴰ.tail m) = Memᴰ.tail (Mem-append xs ys m)

Mem_last : (xs : List Record) (x : Record) → Memᴰ x (xs ++ x ∷ [])
Mem_last [] x = Memᴰ.head refl
Mem_last (y ∷ xs) x = Memᴰ.tail (Mem_last xs x)

Mem_mid : (xs : List Record) (x : Record) (ys : List Record) → Memᴰ x (xs ++ x ∷ ys)
Mem_mid [] x ys = Memᴰ.head refl
Mem_mid (y ∷ xs) x ys = Memᴰ.tail (Mem_mid xs x ys)

Mem_rest :
    {y : Record} (xs : List Record) (x : Record) (ys : List Record)
    → Memᴰ y (xs ++ ys)
    → Memᴰ y (xs ++ x ∷ ys)
Mem_rest [] x ys m = Memᴰ.tail m
Mem_rest (z ∷ xs) x ys (Memᴰ.head e) = Memᴰ.head e
Mem_rest (z ∷ xs) x ys (Memᴰ.tail m) = Memᴰ.tail (Mem_rest xs x ys m)

Mem_new :
    (log waiting : List Record) (x : Record)
    → ((p : Record) → Memᴰ p waiting → Memᴰ p log)
    → (p : Record) → Memᴰ p (x ∷ waiting)
    → Memᴰ p (log ++ x ∷ [])
Mem_new log waiting x h p (Memᴰ.head e) =
    subst (λ q. Memᴰ q (log ++ x ∷ [])) (sym e) (Mem_last log x)
Mem_new log waiting x h p (Memᴰ.tail m) = Mem-append log (x ∷ []) (h p m)

-- all that the slots hold, and all that waits, was given its number by a claim
record FromLog (w : Writing) : Type 0 where
  slots_in : (i : ℕ) (p : Record) → w.ring.slots i ≡ some p → Memᴰ p w.log
  waiting_in : (p : Record) → Memᴰ p w.waiting → Memᴰ p w.log

stored_in :
    (log : List Record) (slots : Slots) (j : ℕ) (rec : Record)
    → ((i : ℕ) (p : Record) → slots i ≡ some p → Memᴰ p log)
    → Memᴰ rec log
    → (i : ℕ) (p : Record) → stored j rec slots i ≡ some p
    → Memᴰ p log
stored_in log slots j rec h m i p e = elim (Bool-cases (i == j)) [
  | inl same ↦ let it : rec ≡ p = ground (arith, same, e) in subst (λ q. Memᴰ q log) it m
  | inr other ↦ h i p (ground (arith, other, e))
]

Step-FromLog : {w v : Writing} → FromLog w → Step w v → FromLog v
unfolding claim publish
Step-FromLog {w} f (claims rec) = record {
  slots_in =
      λ i p e. Mem-append w.log (record rec { seq = (claim w.ring).0 } ∷ []) (f.slots_in i p e);
  waiting_in =
      λ p m. Mem_new w.log w.waiting (record rec { seq = (claim w.ring).0 }) f.waiting_in p m;
}
Step-FromLog {w} f (stores before rec after e) = record {
  slots_in =
      stored_in w.log w.ring.slots (rec.seq % w.ring.size) rec f.slots_in
        (f.waiting_in rec (subst (Memᴰ rec) (sym e) (Mem_mid before rec after)));
  waiting_in = λ p m. f.waiting_in p (subst (Memᴰ p) (sym e) (Mem_rest before rec after m));
}

Reach-FromLog : {w v : Writing} → FromLog w → Reach w v → FromLog v
Reach-FromLog f here = f
Reach-FromLog f (next r s) = Step-FromLog (Reach-FromLog f r) s

started-FromLog : (min_size : ℤ) → FromLog (started min_size)
unfolding new_log_ring
started-FromLog m = record { slots_in = λ i p e. ground (arith, e); waiting_in = λ p k. elim k [ ] }

-- no step takes a record out of the log
Step-log : {w v : Writing} (p : Record) → Step w v → Memᴰ p w.log → Memᴰ p v.log
unfolding claim
Step-log {w} p (claims rec) m = Mem-append w.log (record rec { seq = (claim w.ring).0 } ∷ []) m
Step-log p (stores before rec after e) m = m

Reach-log : {w v : Writing} (p : Record) → Reach w v → Memᴰ p w.log → Memᴰ p v.log
Reach-log p here m = m
Reach-log p (next r s) m = Step-log p s (Reach-log p r m)

-- a poll's list: its records are of the log, and their numbers grow
module _ (log : List Record) (load : ℕ → Slots)
    (logged : (n i : ℕ) (p : Record) → load n i ≡ some p → Memᴰ p log) where
  holding-logged :
      (i : ℕ) (o : Option Record) (out : List Record)
      → ((p : Record) → o ≡ some p → Memᴰ p log)
      → All (λ rec. Memᴰ rec log) out
      → All (λ rec. Memᴰ rec log) (holding i o out)
  holding-logged i none out h a = a
  holding-logged i (some p) out h a = ground (arith, h p refl, a)

  gathered-logged : (size count i : ℕ) → All (λ rec. Memᴰ rec log) (gathered load size count i)
  unfolding gathered
  gathered-logged size zero i = tt
  gathered-logged size (suc count) i =
      holding-logged i (load i (i % size)) (gathered load size count (i + 1)) (logged i (i % size))
        (gathered-logged size count (i + 1))

Ascending-weaken :
    (lo k : ℕ) (rs : List Record) (hi : ℕ) → lo ≤ k → Ascending k rs hi → Ascending lo rs hi
Ascending-weaken lo k [] hi h a = tt
Ascending-weaken lo k (r ∷ rs) hi h a = (omega (arith, a.0), a.1, a.2)

holding-Ascending :
    (lo i : ℕ) (o : Option Record) (out : List Record) (hi : ℕ)
    → lo < i
    → i ≤ hi
    → Ascending i out hi
    → Ascending lo (holding i o out) hi
holding-Ascending lo i none out hi h k a = Ascending-weaken lo i out hi (omega arith) a
holding-Ascending lo i (some p) out hi h k a = elim (Bool-cases (p.seq == i)) [
  | inl same ↦
      let it : i ≡ p.seq = ground (arith, same) in
      let kept : p ∷ out ≡ holding i (some p) out = ground (arith, same) in
      subst (λ l. Ascending lo l hi) kept
        (omega (arith, it, h), omega (arith, it, k), subst (λ n. Ascending n out hi) it a)
  | inr other ↦
      let skipped : out ≡ holding i (some p) out = ground (arith, other) in
      subst (λ l. Ascending lo l hi) skipped (Ascending-weaken lo i out hi (omega arith) a)
]

gathered-Ascending :
    (load : ℕ → Slots) (size count i lo hi : ℕ)
    → lo < i
    → i + count ≤ hi + 1
    → Ascending lo (gathered load size count i) hi
unfolding gathered
gathered-Ascending load size zero i lo hi h k = tt
gathered-Ascending load size (suc count) i lo hi h k =
    holding-Ascending lo i (load i (i % size)) (gathered load size count (i + 1)) hi h
      (omega (arith, k))
      (gathered-Ascending load size count (i + 1) i hi (omega arith) (omega (arith, k)))

insert_below :
    (r : Record) (rs : List Record) (hi : ℕ) → Ascending r.seq rs hi → insert_by_seq r rs ≡ r ∷ rs
unfolding insert_by_seq
insert_below r [] hi a = refl
insert_below r (s ∷ rs) hi a = ground (arith, a.0)

sort-Ascending : (lo : ℕ) (rs : List Record) (hi : ℕ) → Ascending lo rs hi → sort_by_seq rs ≡ rs
unfolding sort_by_seq insert_by_seq
sort-Ascending lo [] hi a = refl
sort-Ascending lo (r ∷ rs) hi a =
    ap (insert_by_seq r) (sort-Ascending r.seq rs hi a.2) ∙ insert_below r rs hi a.2

earliest_above : (size head k : ℕ) → k < earliest_from size head k
unfolding earliest_from
earliest_above size head k = ground arith

-- what a poll promises
abbrev pub Polled : List Record → ℕ → List Record × ℕ → Type 0
Polled log since_seq r = All (λ rec. Memᴰ rec log) r.0 × Ascending since_seq r.0 r.1

since-Polled :
    (log : List Record) (load : ℕ → Slots) (r : LogRing) (k : ℕ)
    → ((n i : ℕ) (p : Record) → load n i ≡ some p → Memᴰ p log)
    → r.head + 1 < 2 ^ 64
    → (out : List Record × ℕ) × (since load r k ≡ some out) × Polled log k out
since-Polled log load r k logged small =
    let e = earliest_from r.size r.head k in
    let count = r.head + 1 - e in
    elim (Bool-cases (leb r.head k)) [
      | inl caught ↦ (([], r.head), since_caught_up load r k caught, (tt, tt))
      | inr behind ↦
          let recs = gathered load r.size count e in
          let grows =
            gathered-Ascending load r.size count e k r.head (earliest_above r.size r.head k)
              (omega (arith, earliest_to r.size r.head k (ground (arith, behind)))) in
          (
            (recs, r.head),
            since_behind load r k small behind
                ∙ ap (λ l. some (l, r.head)) (sort-Ascending k recs r.head grows),
            (gathered-logged log load logged r.size count e, grows),
          )
    ]

-- Writers append to a new ring at once, in any order of their steps, and a poll reads the head in one
-- state, where it is less than 2^64 - 1, and each number's slot in a state of its own, all of them before
-- the last state. The poll ends, every record it gives was appended and has the number it was given; the numbers grow strictly from above
-- the reader's to at most the head's.
pub since-writers :
    (min_size : ℤ) (since_seq : ℕ) (seen : ℕ → Writing) (last : Writing)
    → ((n : ℕ) → Reach (started min_size) (seen n))
    → ((n : ℕ) → Reach (seen n) last)
    → (seen 0).ring.head + 1 < 2 ^ 64
    → (out : List Record × ℕ) × (since (λ n. (seen n).ring.slots) (seen 0).ring since_seq
        ≡ some out)
      × Polled last.log since_seq out
since-writers m k seen last reached goes_on small =
    since-Polled last.log (λ n. (seen n).ring.slots) (seen 0).ring k
      (λ n i p e.
        Reach-log p (goes_on n) ((Reach-FromLog (started-FromLog m) (reached n)).slots_in i p e))
      small
