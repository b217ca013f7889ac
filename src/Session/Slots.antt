-- ===== src/Session/Slots.antt =====
-- How many rows the dispatcher may have in flight on a session, and what a full outbox does.
use mathlib.Core.Path.{ap₂}
use pacific_coast.Base.{
  ℕ, zero, suc, ℤ, pos, negsuc, refl, true, false, none, some, List, [], ◌∷◌, nat_eq, string_eq,
  ==_refl, if◌then◌else◌, ◌+◌, length, contains, arith, ◌≡◌, ap, ◌∙◌, ◌≤◌, ◌<◌, get, put, has,
  get-put,
}
use pacific_coast.Session.State.{
  Dispatch, InflightRow, Session, outbox_cap, available_slots, append_event, inflight_row,
  track_dispatch, untrack, record_dispatch, count_up, count_down, free_slots, mark_drained,
}
use pacific_coast.Session.Expiry.{ack_ids, find_expired_acks}
use pacific_coast.Session.Invariant.{
  IsSound, dispatch-IsSound, record_dispatch-old, record_dispatch-new,
}
use pacific_coast.Session.Maps.{delete-put, length-put, length-delete, put-unique_keys}
use pacific_coast.Session.Deadlines.{acks_of, ack_ids-get}

count_down-count_up : (c : ℤ) → count_down (count_up c) ≡ c
count_down-count_up (pos n) = refl
count_down-count_up (negsuc zero) = refl
count_down-count_up (negsuc (suc n)) = refl

-- A dispatch of a new row to a session whose outbox is full, undisturbed by other calls, fails, and
-- leaves the session as it was.
pub record_dispatch-undone :
    (d : Dispatch) (now lease_until ack_deadline : ℕ) (s : Session)
    → outbox_cap s ≤ length s.outbox
    → get s.inflight d.job_id ≡ none
    → record_dispatch d now lease_until ack_deadline s ≡ (false, s)
unfolding track_dispatch
record_dispatch-undone d now lease_until ack_deadline s full new =
    record_dispatch-new d now lease_until ack_deadline s (ground arith) (ground (arith, new))
    ∙ ap (λ t. (false, t)) (back new)
  where
    back :
        get s.inflight d.job_id ≡ none
        → untrack d.job_id (track_dispatch d now lease_until ack_deadline s) ≡ s
    back new =
        let m = delete-put s.inflight d.job_id (inflight_row d now lease_until ack_deadline) new in
        let c : count_down
              (if has s.inflight d.job_id then s.inflight_counter else count_up s.inflight_counter)
            ≡ s.inflight_counter =
          ground (arith, new, count_down-count_up s.inflight_counter) in
        ap₂ (λ m n. record s { inflight = m; inflight_counter = n }) m c

-- The dispatches of one pass, each recorded in turn.
abbrev pub record_all : ℕ → ℕ → ℕ → List Dispatch → Session → Session
record_all now lease_until ack_deadline [] s = s
record_all now lease_until ack_deadline (d ∷ ds) s =
    record_all now lease_until ack_deadline ds (record_dispatch d now lease_until ack_deadline s).1

dispatch_more :
    (d : Dispatch) (now lease_until ack_deadline : ℕ) (s : Session)
    → IsSound s
    → (length (record_dispatch d now lease_until ack_deadline s).1.inflight ≤ length s.inflight + 1)
unfolding record_dispatch track_dispatch append_event
dispatch_more d now lease_until ack_deadline s i =
    let row = inflight_row d now lease_until ack_deadline in
    ground (
      arith,
      length-put s.inflight d.job_id row,
      length-delete (put s.inflight d.job_id row) d.job_id,
    )

record_all_more :
    (now lease_until ack_deadline : ℕ) (ds : List Dispatch) (s : Session)
    → IsSound s
    → length (record_all now lease_until ack_deadline ds s).inflight ≤ length s.inflight + length ds
record_all_more now lease_until ack_deadline [] s i = omega arith
record_all_more now lease_until ack_deadline (d ∷ ds) s i =
    let s2 = (record_dispatch d now lease_until ack_deadline s).1 in
    omega (
      arith,
      dispatch_more d now lease_until ack_deadline s i,
      record_all_more now lease_until ack_deadline ds s2
          (dispatch-IsSound d now lease_until ack_deadline s i),
    )

record_all-IsSound :
    (now lease_until ack_deadline : ℕ) (ds : List Dispatch) (s : Session)
    → IsSound s
    → IsSound (record_all now lease_until ack_deadline ds s)
record_all-IsSound now lease_until ack_deadline [] s i = i
record_all-IsSound now lease_until ack_deadline (d ∷ ds) s i =
    record_all-IsSound now lease_until ack_deadline ds
      (record_dispatch d now lease_until ack_deadline s).1
      (dispatch-IsSound d now lease_until ack_deadline s i)

-- A pass that dispatches at most as many rows as a session has slots, while no other call is made on
-- the session: on a sound session with at most maxInFlight rows in flight, the map still has at most
-- maxInFlight rows, and the counter is their number; and a drained session has no slots.
pub available_slots-record_all :
    (now lease_until ack_deadline : ℕ) (ds : List Dispatch) (s : Session)
    → IsSound s
    → length s.inflight ≤ s.max_in_flight
    → length ds ≤ available_slots s
    → let after = record_all now lease_until ack_deadline ds s in
      (length after.inflight ≤ s.max_in_flight)
      × (after.inflight_counter ≡ pos (length after.inflight))
      × (available_slots (mark_drained s) ≡ 0)
unfolding available_slots mark_drained
available_slots-record_all now lease_until ack_deadline ds s i h k =
    let counted = (record_all-IsSound now lease_until ack_deadline ds s i).0 in
    let more = record_all_more now lease_until ack_deadline ds s i in
    let slots = ap (free_slots s.max_in_flight) i.0 in
    (ground (arith, more, slots), counted, ground arith)

-- A dispatch of a row that is in flight already, to a session whose outbox is full, fails, and yet
-- replaces the row: whatever ack it had is gone, and once the new deadline has passed the row is
-- found as one whose ack is missing.
pub record_dispatch-forgotten_ack :
    (d : Dispatch) (now later lease_until ack_deadline : ℕ) (row : InflightRow) (s : Session)
    → IsSound s
    → outbox_cap s ≤ length s.outbox
    → get s.inflight d.job_id ≡ some row
    → ack_deadline < later
    → ((record_dispatch d now lease_until ack_deadline s).0 ≡ false)
      × (contains
            (find_expired_acks later (record_dispatch d now lease_until ack_deadline s).1)
            d.job_id
          ≡ true)
unfolding track_dispatch find_expired_acks
record_dispatch-forgotten_ack d now later lease_until ack_deadline row s i full old late =
    let e =
      record_dispatch-old d now lease_until ack_deadline s (ground arith) (ground (arith, old)) in
    let r = inflight_row d now lease_until ack_deadline in
    let m = put s.inflight d.job_id r in
    (
      ap (λ p. p.0) e,
      ap (λ p. contains (ack_ids later p.1.inflight) d.job_id) e
          ∙ ack_ids-get later m d.job_id (put-unique_keys s.inflight d.job_id r i.2)
          ∙ ap (acks_of later) (get-put s.inflight d.job_id d.job_id r)
          ∙ ground (arith, ==_refl d.job_id),
    )
