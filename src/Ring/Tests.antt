-- ===== src/Ring/Tests.antt =====
-- The ring of internal/obs/logring.go with two slots, and the theorems at it.
use pacific_coast.Base.{
  ℕ, String, none, some, List, [], ◌∷◌, ◌++◌, ltb, ◌&&◌, keep, ◌+◌, ◌^◌, ◌≤◌, ◌<◌, ◌≡◌, refl, arith,
  pos, negsuc, ◌-◌,
}
use pacific_coast.Ring.State.{
  Record, handle, max_slots, new_log_ring, ring_size, doubled_until, least_size, claim, publish,
  append, collect, insert_by_seq, sort_by_seq, earliest_from, since, since_now,
}
use pacific_coast.Ring.Slots.{numbered, append_all}
use pacific_coast.Ring.Window.{since_now-append_all}
use pacific_coast.Ring.Size.{ring_size-bounds}
use pacific_coast.Ring.Writers.{
  Writing, started, claiming, claims, stores, Reach, here, next, Polled, since-writers,
}

abbrev line : String → Record
line s = record { seq = 0; time = 5; level = pos 0; msg = s; attrs = [] }

abbrev three : List Record
three = line "a" ∷ line "b" ∷ line "c" ∷ []

-- the first of three records is overwritten
last_two :
    since_now (append_all three (new_log_ring (pos 1))) 0
    ≡ some (record (line "b") { seq = 2 } ∷ record (line "c") { seq = 3 } ∷ [], 3)
unfolding append_all new_log_ring ring_size least_size doubled_until append claim publish since
    earliest_from collect sort_by_seq insert_by_seq
last_two = refl

-- what the next handler refuses is not in the ring
refused :
    handle {V = String} {E = String}
      (λ v. v)
      (λ r. some "closed")
      (record { time = 1; level = pos 0; message = "a"; attrs = [] })
      (new_log_ring (negsuc 3))
    ≡ (some "closed", new_log_ring (negsuc 3))
unfolding handle
refused = refl

since_now-append_all_example :
    since_now (append_all three (new_log_ring (pos 2))) 1
    ≡ some
        (keep (λ rec. ltb 1 rec.seq && ltb 3 (rec.seq + ring_size (pos 2))) (numbered 1 three), 3)
since_now-append_all_example = since_now-append_all (pos 2) 1 three (omega arith)

ring_size-bounds_example :
    ((k : ℕ) × (ring_size (negsuc 999) ≡ 2 ^ k))
    × (2 ≤ ring_size (negsuc 999))
    × (ring_size (negsuc 999) ≤ max_slots)
    × (0 ≤ ring_size (negsuc 999))
    × (ring_size (negsuc 999) < 4)
ring_size-bounds_example = ring_size-bounds (negsuc 999) (omega arith)

-- The loop does not end if the head is the last number of a uint64.
endless : since_now (record { size = 2; slots = λ i. none; head = 2 ^ 64 - 1 }) 0 ≡ none
unfolding since earliest_from collect
endless = refl

-- two writers, of which the second has stored its record first
abbrev both_claimed : Writing
both_claimed = claiming (line "b") (claiming (line "a") (started (pos 2)))

abbrev second_stored : Writing
second_stored = record {
  ring = publish (record (line "b") { seq = 2 }) both_claimed.ring;
  log = both_claimed.log;
  waiting = [] ++ record (line "a") { seq = 1 } ∷ [];
}

second_stored-Reach : Reach (started (pos 2)) second_stored
unfolding claim new_log_ring publish
second_stored-Reach =
    next (next (next here (claims (line "a"))) (claims (line "b")))
      (stores [] (record (line "b") { seq = 2 }) (record (line "a") { seq = 1 } ∷ []) refl)

since-writers_example :
    (out : List Record × ℕ) × (since (λ n. second_stored.ring.slots) second_stored.ring 0
      ≡ some out)
    × Polled second_stored.log 0 out
unfolding claim new_log_ring publish
since-writers_example =
    since-writers (pos 2) 0 (λ n. second_stored) second_stored (λ n. second_stored-Reach)
      (λ n. here) (omega arith)
