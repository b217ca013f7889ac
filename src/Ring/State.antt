-- ===== src/Ring/State.antt =====
-- The ring and its operations, internal/obs/logring.go. `seq & mask` is written as the remainder by
-- the number of slots, which is a power of two.
use pacific_coast.Base.{
  ℕ, zero, suc, String, true, false, Option, none, some, List, [], ◌∷◌, ◌==◌, nat_eq, ltb, leb,
  if◌then◌else◌, ◌+◌, ◌-◌, ◌*◌, ◌%◌, ◌^◌, map, ℤ, pos, negsuc,
}

pub record Record : Type 0 where
  pub seq : ℕ
  pub time : ℕ
  pub level : ℤ
  pub msg : String
  pub attrs : List (String × String)

-- what the slots' pointers lead to
abbrev pub Slots : Type 0
Slots = ℕ → Option Record

pub record LogRing : Type 0 where
  pub size : ℕ
  pub slots : Slots
  pub head : ℕ

-- the loop of NewLogRing, on fuel; `int` has no value that needs more than 63 doublings
unfoldable pub doubled_until : ℕ → ℕ → ℕ → ℕ
doubled_until zero size min_size = size
doubled_until (suc n) size min_size =
    let rest = doubled_until n (size * 2) min_size in if ltb size min_size then rest else size

abbrev pub max_slots : ℕ
max_slots = 1048576

abbrev pub capped : ℕ → ℕ
capped size = if ltb max_slots size then max_slots else size

-- `if minSize < 2 { minSize = 2 }`, and the number as an unsigned one
unfoldable pub least_size : ℤ → ℕ
least_size (negsuc n) = 2
least_size (pos n) = if ltb n 2 then 2 else n

unfoldable pub ring_size : ℤ → ℕ
ring_size min_size = capped (doubled_until 63 1 (least_size min_size))

unfoldable pub new_log_ring : ℤ → LogRing
new_log_ring min_size = record { size = ring_size min_size; slots = λ i. none; head = 0 }

-- head.Add(1): the number a writer wins, and the ring with it
unfoldable pub claim : LogRing → ℕ × LogRing
claim r = let seq = (r.head + 1) % 2 ^ 64 in (seq, record r { head = seq })

abbrev pub stored : ℕ → Record → Slots → Slots
stored i rec slots j = elim (j == i) [ true ↦ some rec | false ↦ slots j ]

-- the Store of a record that has its number
unfoldable pub publish : Record → LogRing → LogRing
publish rec r = record r { slots = stored (rec.seq % r.size) rec r.slots }

unfoldable pub append : Record → LogRing → LogRing
append rec r = let (seq, claimed) = claim r in publish (record rec { seq = seq }) claimed

unfoldable pub head_seq : LogRing → ℕ
head_seq r = r.head

-- the slot holds the record of the number that is read
abbrev pub holding : ℕ → Option Record → List Record → List Record
holding i none out = out
holding i (some p) out = if p.seq == i then p ∷ out else out

abbrev pub held : ℕ → Option Record → Option (List Record) → Option (List Record)
held i o none = none
held i o (some out) = some (holding i o out)

-- the first pass of Since, from the number `i` on, on fuel for its turns; none if it goes on after them.
-- `i++` on a uint64 wraps. Other writers go on meanwhile, so each number is looked up in the slots as
-- they are at its own Load.
unfoldable pub collect : (ℕ → Slots) → ℕ → ℕ → ℕ → ℕ → Option (List Record)
collect load size zero head i = if leb i head then none else some []
collect load size (suc fuel) head i =
    let rest = collect load size fuel head ((i + 1) % 2 ^ 64) in
    if leb i head then held i (load i (i % size)) rest else some []

-- sort.Slice by Seq
unfoldable pub insert_by_seq : Record → List Record → List Record
insert_by_seq x [] = x ∷ []
insert_by_seq x (y ∷ ys) =
    let rest = insert_by_seq x ys in if ltb y.seq x.seq then y ∷ rest else x ∷ y ∷ ys

unfoldable pub sort_by_seq : List Record → List Record
sort_by_seq [] = []
sort_by_seq (x ∷ xs) = insert_by_seq x (sort_by_seq xs)

-- the first number that can still be there and that the reader has not seen
unfoldable pub earliest_from : ℕ → ℕ → ℕ → ℕ
earliest_from size head since_seq =
    let earliest = if ltb size head then head - size + 1 else 1 in
    if leb earliest since_seq then since_seq + 1 else earliest

abbrev pub sorted : ℕ → Option (List Record) → Option (List Record × ℕ)
sorted head none = none
sorted head (some out) = some (sort_by_seq out, head)

-- as many turns as the ring has slots; none if the loop has not ended then
unfoldable pub since : (ℕ → Slots) → LogRing → ℕ → Option (List Record × ℕ)
since load r since_seq =
    if leb r.head since_seq
    then some ([], r.head)
    else sorted r.head (collect load r.size r.size r.head (earliest_from r.size r.head since_seq))

-- a poll that no writer disturbs
abbrev pub since_now : LogRing → ℕ → Option (List Record × ℕ)
since_now r since_seq = since (λ i. r.slots) r since_seq

-- what slog hands a handler, its attribute values of a type of slog's own
pub record Entry (V : Type 0) : Type 0 where
  pub time : ℕ
  pub level : ℤ
  pub message : String
  pub attrs : List (String × V)

-- RingHandler.Handle: the next handler's error, or else the ring with the record; `text` is
-- slog.Value.String
unfoldable pub handle :
    {V E : Type 0} → (V → String) → (Entry V → Option E) → Entry V → LogRing → Option E × LogRing
handle text next rec r = elim (next rec) [
  | some e ↦ (some e, r)
  | none ↦ (
    none,
    append
        (record {
          seq = 0;
          time = rec.time;
          level = rec.level;
          msg = rec.message;
          attrs = map (λ a. (a.0, text a.1)) rec.attrs;
        })
        r,
  )
]
