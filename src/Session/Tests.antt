-- ===== src/Session/Tests.antt =====
-- A session with one row, and the theorems at it.
use pacific_coast.Base.{
  length, ℕ, true, false, some, [], ◌∷◌, nat_eq, string_eq, ◌+◌, contains, arith, ◌≡◌, ◌↔◌, refl,
  ◌≤◌, ◌<◌, get, pos, negsuc,
}
use pacific_coast.Session.State.{
  Dispatch, dispatch, goodbye, OpenSession, InflightRow, Session, clamp_in_flight, new_session,
  available_slots, inflight_row, record_dispatch, mark_drained, store_row, remove_inflight,
}
use pacific_coast.Session.Expiry.{find_expired_acks, find_expired_leases}
use pacific_coast.Session.Invariant.{IsSound}
use pacific_coast.Session.Calls.{
  counting, sending, undoing, uncounting, begin_dispatch, begin_remove, resume, quiet, dispatching,
  removing, going, Reach, here, next,
}
use pacific_coast.Session.Overlap.{IsOrderly, new_session-IsOrderly}
use pacific_coast.Session.Alone.{record_dispatch-remove_inflight-Reach}
use pacific_coast.Session.Deadlines.{find_expired_leases-lease_expired}
use pacific_coast.Session.Slots.{
  record_dispatch-undone, record_all, available_slots-record_all, record_dispatch-forgotten_ack,
}

abbrev open_mail : OpenSession
open_mail = record {
  queue = "default";
  job_names = "shop.Mail" ∷ [];
  max_in_flight = pos 2;
  pod_id = "pod";
  version = "1";
}

abbrev start : Session
start = new_session "s1" 100 open_mail "shop" [] []

abbrev mail : ℕ → Dispatch
mail id = record {
  job_id = id;
  job_name = "shop.Mail";
  queue = "default";
  args = "{}";
  attempts = 1;
  max_retries = 3;
  timeout_ms = 0;
  scheduled_for = "";
  enqueued_at = "";
  trace_ctx = "";
}

abbrev mail_row : InflightRow
mail_row = inflight_row (mail 7) 110 200 150

abbrev busy : Session
busy = record start {
  outbox = dispatch (mail 1) ∷ dispatch (mail 2) ∷ goodbye ∷ goodbye ∷ goodbye ∷ goodbye ∷ [];
  inflight = (7, mail_row) ∷ [];
  inflight_counter = pos 1;
}

-- The limit of a session is clamped, and a dispatch is recorded.
start_slots : available_slots start ≡ 2
unfolding available_slots new_session clamp_in_flight
start_slots = refl

no_limit : clamp_in_flight (negsuc 4) ≡ 1
unfolding clamp_in_flight
no_limit = refl

busy-IsSound : IsSound busy
unfolding new_session clamp_in_flight
busy-IsSound = ground arith

abbrev dispatched : Session
dispatched = (record_dispatch (mail 7) 110 200 150 start).1

dispatched-Reach :
    Reach (quiet start) (quiet dispatched) × Reach (quiet start) (quiet (remove_inflight 7 start).1)
dispatched-Reach = record_dispatch-remove_inflight-Reach (mail 7) 110 200 150 7 start

record_dispatch-remove_inflight-Reach_example :
    Reach (quiet busy) (quiet (record_dispatch (mail 8) 110 200 150 busy).1)
    × Reach (quiet busy) (quiet (remove_inflight 7 busy).1)
record_dispatch-remove_inflight-Reach_example =
    record_dispatch-remove_inflight-Reach (mail 8) 110 200 150 7 busy

new_session-IsOrderly_example : IsOrderly (quiet dispatched)
new_session-IsOrderly_example =
    new_session-IsOrderly "s1" 100 open_mail "shop" [] [] (quiet dispatched) dispatched-Reach.0

-- A removal between the send that fails and its undo: the row of another job is in flight, and the counter
-- is zero.
late_undo :
    Reach
      (quiet busy)
      (record { session = record busy { inflight_counter = pos 0 }; tasks = []; late = 1 })
unfolding begin_dispatch begin_remove resume store_row new_session clamp_in_flight
late_undo =
    next
      (next
        (next
          (next
            (next
              (next (next here (dispatching (mail 8) 110 200 150))
                (going 110 [] (counting (mail 8)) [] refl))
              (going 110 [] (sending (mail 8) false) [] refl))
            (removing 8))
          (going 110 [] (undoing 8) (uncounting ∷ []) refl))
        (going 110 [] uncounting (uncounting ∷ []) refl))
      (going 110 [] uncounting [] refl)

find_expired_leases-lease_expired_example :
    (get (find_expired_leases 300 30 60 busy) 7 ≡ some "lease_expired") ↔ (
      (row : InflightRow) × (get busy.inflight 7 ≡ some row)
      × (row.ack_received ≡ true)
      × (row.lease_until + 30 < 300))
find_expired_leases-lease_expired_example =
    find_expired_leases-lease_expired 300 30 60 7 busy busy-IsSound

record_dispatch-undone_example : record_dispatch (mail 8) 120 200 150 busy ≡ (false, busy)
unfolding new_session clamp_in_flight
record_dispatch-undone_example = record_dispatch-undone (mail 8) 120 200 150 busy (omega arith) refl

available_slots-record_all_example :
    let after = record_all 110 200 150 (mail 7 ∷ mail 8 ∷ []) start in
    (length after.inflight ≤ start.max_in_flight)
    × (after.inflight_counter ≡ pos (length after.inflight))
    × (available_slots (mark_drained start) ≡ 0)
unfolding available_slots new_session clamp_in_flight
available_slots-record_all_example =
    available_slots-record_all 110 200 150 (mail 7 ∷ mail 8 ∷ []) start (ground arith) (omega arith)
      (omega arith)

abbrev acked_row : InflightRow
acked_row = record mail_row { ack_received = true }

abbrev acked : Session
acked = record busy { inflight = (7, acked_row) ∷ [] }

acked-IsSound : IsSound acked
unfolding new_session clamp_in_flight
acked-IsSound = ground arith

record_dispatch-forgotten_ack_example :
    ((record_dispatch (mail 7) 120 200 150 acked).0 ≡ false)
    × (contains (find_expired_acks 300 (record_dispatch (mail 7) 120 200 150 acked).1) 7 ≡ true)
unfolding new_session clamp_in_flight
record_dispatch-forgotten_ack_example =
    record_dispatch-forgotten_ack (mail 7) 120 300 200 150 acked_row acked acked-IsSound
      (omega arith) refl (omega arith)
