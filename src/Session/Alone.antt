-- ===== src/Session/Alone.antt =====
-- A call on a session of internal/server/jobsdispatcher/session.go that no other call disturbs.
use mathlib.Core.Path.{subst}
use pacific_coast.Base.{
  ℕ, Bool, true, false, Option, none, some, [], ◌∷◌, ◌++◌, nat_eq, ltb, length, arith, Bool-cases,
  inl, inr, ◌≡◌, refl, sym, get, delete, has, get-put, ==_refl,
}
use pacific_coast.Session.State.{
  Dispatch, dispatch, InflightRow, Session, outbox_cap, append_event, inflight_row,
  dispatched_event, store_row, track_dispatch, untrack, record_dispatch, remove_inflight,
}
use pacific_coast.Session.Invariant.{record_dispatch-room, record_dispatch-old, record_dispatch-new}
use pacific_coast.Session.Calls.{
  Task, counting, sending, noting, undoing, uncounting, begin_dispatch, begin_remove, resume, Busy,
  quiet, advanced, Step, dispatching, removing, going, Reach, here, next,
}

-- a call with one thing still to do
abbrev doing : Task → Session → Busy
doing t s = record { session = s; tasks = t ∷ []; late = 0 }

then_to : {w v x : Busy} → Reach w v → {y : Busy} → Step v y → y ≡ x → Reach w x
then_to {w = w} r st e = subst (Reach w) e (next r st)

module _ (d : Dispatch) (now lease_until ack_deadline : ℕ) (s : Session) where
  abbrev row_stored : Session
  row_stored = store_row d now lease_until ack_deadline s

  abbrev tracked : Session
  tracked = track_dispatch d now lease_until ack_deadline s

  before_send :
      (dup : Bool) → has s.inflight d.job_id ≡ dup → Reach (quiet s) (doing (sending d dup) tracked)
  unfolding begin_dispatch resume track_dispatch store_row
  before_send true h = then_to here (dispatching d now lease_until ack_deadline) (rw h refl)
  before_send false h =
      then_to
        (then_to {x = doing (counting d) row_stored} here
          (dispatching d now lease_until ack_deadline) (rw h refl))
        (going now [] (counting d) [] refl) (rw h refl)

  -- what the send leaves of a call, with room and without
  sent :
      ltb (length s.outbox) (outbox_cap s) ≡ true
      → (dup : Bool)
      → Reach (doing (sending d dup) tracked) (
          quiet (
            append_event
              (dispatched_event d now)
              (record tracked { outbox = s.outbox ++ dispatch d ∷ [] })))
  unfolding resume track_dispatch
  sent room dup =
      then_to
        (then_to {x = doing (noting d) (record tracked { outbox = s.outbox ++ dispatch d ∷ [] })}
          here (going now [] (sending d dup) [] refl) (rw room refl))
        (going now [] (noting d) [] refl) refl

  kept :
      ltb (length s.outbox) (outbox_cap s) ≡ false
      → Reach (doing (sending d true) tracked) (quiet tracked)
  unfolding resume track_dispatch
  kept full = then_to here (going now [] (sending d true) [] refl) (rw full refl)

  stored_has : has tracked.inflight d.job_id ≡ true
  unfolding track_dispatch
  stored_has = ground (
    arith,
    get-put s.inflight d.job_id d.job_id (inflight_row d now lease_until ack_deadline),
    ==_refl d.job_id,
  )

  not_sent :
      ltb (length s.outbox) (outbox_cap s) ≡ false
      → advanced now [] (sending d false) [] (doing (sending d false) tracked)
        ≡ doing (undoing d.job_id) tracked
  unfolding resume track_dispatch
  not_sent h = rw h refl

  undone :
      ltb (length s.outbox) (outbox_cap s) ≡ false
      → Reach (doing (sending d false) tracked) (quiet (untrack d.job_id tracked))
  unfolding resume
  undone full =
      then_to
        (then_to
          {x = doing uncounting (record tracked { inflight = delete tracked.inflight d.job_id })}
          (then_to {x = doing (undoing d.job_id) tracked} here
            (going now [] (sending d false) [] refl) (not_sent full))
          (going now [] (undoing d.job_id) [] refl) (rw stored_has refl))
        (going now [] uncounting [] refl) refl

Reach_all : {w v x : Busy} → Reach w v → Reach v x → Reach w x
Reach_all r here = r
Reach_all r (next q st) = next (Reach_all r q) st

removed :
    (id : ℕ) (s : Session) (o : Option InflightRow)
    → get s.inflight id ≡ o
    → Reach (quiet s) (quiet (remove_inflight id s).1)
unfolding remove_inflight begin_remove resume
removed id s none e = then_to here (removing id) (rw e refl)
removed id s (some row) e =
    then_to
      (then_to {x = doing uncounting (record s { inflight = delete s.inflight id })} here
        (removing id) (rw e refl))
      (going 0 [] uncounting [] refl) (rw e refl)

pub record_dispatch-remove_inflight-Reach :
    (d : Dispatch) (now lease_until ack_deadline id : ℕ) (s : Session)
    → Reach (quiet s) (quiet (record_dispatch d now lease_until ack_deadline s).1)
      × Reach (quiet s) (quiet (remove_inflight id s).1)
record_dispatch-remove_inflight-Reach d now lease_until ack_deadline id s =
    (dispatched, removed id s (get s.inflight id) refl)
  where
    dispatched : Reach (quiet s) (quiet (record_dispatch d now lease_until ack_deadline s).1)
    dispatched = elim (Bool-cases (ltb (length s.outbox) (outbox_cap s))) [
      | inl room ↦
          subst (λ p. Reach (quiet s) (quiet p.1))
            (sym (record_dispatch-room d now lease_until ack_deadline s room))
            (Reach_all (before_send d now lease_until ack_deadline s (has s.inflight d.job_id) refl)
              (sent d now lease_until ack_deadline s room (has s.inflight d.job_id)))
      | inr full ↦ elim (Bool-cases (has s.inflight d.job_id)) [
        | inl old ↦
            subst (λ p. Reach (quiet s) (quiet p.1))
              (sym (record_dispatch-old d now lease_until ack_deadline s full old))
              (Reach_all (before_send d now lease_until ack_deadline s true old)
                (kept d now lease_until ack_deadline s full))
        | inr new ↦
            subst (λ p. Reach (quiet s) (quiet p.1))
              (sym (record_dispatch-new d now lease_until ack_deadline s full new))
              (Reach_all (before_send d now lease_until ack_deadline s false new)
                (undone d now lease_until ack_deadline s full))
      ]
    ]
