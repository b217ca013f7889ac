-- ===== src/Session/Overlap.antt =====
-- What a session of internal/server/jobsdispatcher/session.go keeps while calls overlap.
use mathlib.Core.Path.{subst}
use pacific_coast.Base.{
  ℕ, String, true, Option, none, some, List, [], ◌∷◌, ◌++◌, nat_eq, ◌+◌, length, length-append,
  count, count-append, arith, Bool-cases, inl, inr, ◌≡◌, refl, ap, ◌∙◌, ◌≤◌, get, put, delete, has,
  pos,
}
use pacific_coast.Session.State.{
  Dispatch, dispatch, OpenSession, InflightRow, SessionEvent, Session, outbox_cap,
  session_event_cap, new_session, append_event, inflight_row, dispatched_event, store_row,
  ack_found, record_ack, mark_drained, close, drop_first,
}
use pacific_coast.Session.Calls.{
  Task, counting, sending, noting, undoing, uncounting, begin_dispatch, begin_remove, resume, Busy,
  quiet, begun, Step, dispatching, removing, going, acking, logging, handing, draining, closing,
  Reach, here, next,
}
use pacific_coast.Session.Maps.{
  length-put, length-delete, IsFiled, put-IsFiled, delete-IsFiled, unique_keys, put-unique_keys,
  delete-unique_keys,
}
use pacific_coast.Session.Invariant.{
  IsSound, length-drop_first, acked-IsSound, log-IsSound, new-IsSound,
}
use pacific_coast.Session.Counter.{
  is_counting, is_uncounting, IsCounted, one_more, same, going-IsCounted,
}

abbrev pub IsShaped : Session → Type 0
IsShaped s =
    IsFiled s.inflight
    × (unique_keys s.inflight ≡ true)
    × (length s.events ≤ session_event_cap)
    × (length s.outbox ≤ outbox_cap s)
    × (1 ≤ s.max_in_flight)
    × (s.max_in_flight ≤ 256)

abbrev pub IsOrderly : Busy → Type 0
IsOrderly w = IsCounted w.tasks w.late w.session × IsShaped w.session

-- the parts of a call that change the shape of the session
stored-IsShaped :
    (d : Dispatch) (now lease_until ack_deadline : ℕ) (s : Session)
    → IsShaped s
    → IsShaped (store_row d now lease_until ack_deadline s)
unfolding store_row
stored-IsShaped d now lease_until ack_deadline s i =
    let row = inflight_row d now lease_until ack_deadline in
    ground (
      arith,
      put-IsFiled s.inflight d.job_id row refl i.0,
      put-unique_keys s.inflight d.job_id row i.1,
    )

deleted-IsShaped :
    (id : ℕ) (s : Session) → IsShaped s → IsShaped (record s { inflight = delete s.inflight id })
deleted-IsShaped id s i =
    ground (arith, delete-IsFiled s.inflight id i.0, delete-unique_keys s.inflight id i.1)

-- the session with a counter that is right
counted_right : Session → Session
counted_right s = record s { inflight_counter = pos (length s.inflight) }

right-IsSound : (s : Session) → IsShaped s → IsSound (counted_right s)
unfolding counted_right
right-IsSound s i = (refl, i.0, i.1, i.2, i.3, i.4, i.5)

noted-IsShaped : (e : SessionEvent) (s : Session) → IsShaped s → IsShaped (append_event e s)
unfolding append_event counted_right
noted-IsShaped e s i =
    let j = log-IsSound e (counted_right s) (right-IsSound s i) in (j.1, j.2, j.3, j.4, j.5, j.6)

going-IsShaped : (now : ℕ) (t : Task) (s : Session) → IsShaped s → IsShaped (resume now t s).0
unfolding resume
going-IsShaped now (counting d) s i = i
going-IsShaped now (sending d dup) s i = ground (arith, length-append s.outbox (dispatch d ∷ []))
going-IsShaped now (noting d) s i = noted-IsShaped (dispatched_event d now) s i
going-IsShaped now (undoing id) s i = deleted-IsShaped id s i
going-IsShaped now uncounting s i = i

logged-IsCounted :
    (e : SessionEvent) (w : Busy)
    → IsCounted w.tasks w.late w.session
    → IsCounted w.tasks w.late (append_event e w.session)
unfolding append_event
logged-IsCounted e w h = h

handed-IsShaped : (s : Session) → IsShaped s → IsShaped (record s { outbox = drop_first s.outbox })
handed-IsShaped s i = ground (arith, length-drop_first s.outbox)

begun-IsOrderly :
    (d : Dispatch) (now lease_until ack_deadline : ℕ) (w : Busy)
    → IsOrderly w
    → IsOrderly (begun (begin_dispatch d now lease_until ack_deadline w.session) w)
unfolding begin_dispatch store_row
begun-IsOrderly d now lease_until ack_deadline w i =
    let s = w.session in
    let m = put s.inflight d.job_id (inflight_row d now lease_until ack_deadline) in
    let long = length-put s.inflight d.job_id (inflight_row d now lease_until ack_deadline) in
    let n = count is_counting w.tasks + w.late in
    let k = length s.inflight + count is_uncounting w.tasks in
    elim (Bool-cases (has s.inflight d.job_id)) [
      | inl old ↦
          let more = sending d true ∷ [] in
          (
            rw old (
                same n (count is_counting (w.tasks ++ more) + w.late) k
                  (length m + count is_uncounting (w.tasks ++ more)) s.inflight_counter i.0
                  (omega (arith, count-append is_counting w.tasks more))
                  (ground (arith, old, long, count-append is_uncounting w.tasks more))),
            stored-IsShaped d now lease_until ack_deadline s i.1,
          )
      | inr new ↦
          let more = counting d ∷ [] in
          (
            rw new (
                same (n + 1) (count is_counting (w.tasks ++ more) + w.late) (k + 1)
                  (length m + count is_uncounting (w.tasks ++ more)) s.inflight_counter
                  (one_more n k s.inflight_counter i.0)
                  (omega (arith, count-append is_counting w.tasks more))
                  (ground (arith, new, long, count-append is_uncounting w.tasks more))),
            stored-IsShaped d now lease_until ack_deadline s i.1,
          )
    ]

removed-IsOrderly :
    (id : ℕ) (w : Busy) → IsOrderly w → IsOrderly (begun (begin_remove id w.session) w)
unfolding begin_remove
removed-IsOrderly id w i =
    let s = w.session in
    let n = count is_counting w.tasks + w.late in
    let k = length s.inflight + count is_uncounting w.tasks in
    elim (Bool-cases (has s.inflight id)) [
      | inl there ↦
          let more = uncounting ∷ [] in
          rw there (
            same n (count is_counting (w.tasks ++ more) + w.late) k
                (length (delete s.inflight id) + count is_uncounting (w.tasks ++ more))
                s.inflight_counter i.0 (omega (arith, count-append is_counting w.tasks more))
                (ground (
                  arith,
                  there,
                  length-delete s.inflight id,
                  count-append is_uncounting w.tasks more,
                )),
            deleted-IsShaped id s i.1,
          )
      | inr gone ↦ rw gone (
        same n (count is_counting (w.tasks ++ []) + w.late) k
            (length s.inflight + count is_uncounting (w.tasks ++ [])) s.inflight_counter i.0
            (omega (arith, count-append is_counting w.tasks []))
            (omega (arith, count-append is_uncounting w.tasks [])),
        i.1,
      )
    ]

acked-IsOrderly :
    (now id : ℕ) (w : Busy) (o : Option InflightRow)
    → get w.session.inflight id ≡ o
    → IsOrderly w
    → IsOrderly (record w { session = (ack_found now id w.session o).1 })
unfolding counted_right
acked-IsOrderly now id w none e i = i
acked-IsOrderly now id w (some row) e i = elim (Bool-cases row.ack_received) [
  | inl a ↦ rw a i
  | inr a ↦
      let s = w.session in
      let new : InflightRow = record row { ack_received = true } in
      let j = acked-IsSound id row (counted_right s) e (right-IsSound s i.1) in
      let long : length s.inflight ≡ length (put s.inflight id new) = ground (arith, j.0) in
      let counted = i.0 ∙ ap (λ n. pos (n + count is_uncounting w.tasks)) long in
      rw a (counted, (j.1, j.2, j.3, j.4, j.5, j.6))
]

Step-IsOrderly : {w v : Busy} → Step w v → IsOrderly w → IsOrderly v
unfolding mark_drained close record_ack
Step-IsOrderly {w = w} (dispatching d a b c) i = begun-IsOrderly d a b c w i
Step-IsOrderly {w = w} (removing id) i = removed-IsOrderly id w i
Step-IsOrderly {w = w} (going now before t after e) i = (
  going-IsCounted now before t after w.late w.session
      (subst (λ ts. IsCounted ts w.late w.session) e i.0),
  going-IsShaped now t w.session i.1,
)
Step-IsOrderly {w = w} (acking now id) i =
    acked-IsOrderly now id w (get w.session.inflight id) refl i
Step-IsOrderly {w = w} (logging e) i = (logged-IsCounted e w i.0, noted-IsShaped e w.session i.1)
Step-IsOrderly {w = w} handing i = (i.0, handed-IsShaped w.session i.1)
Step-IsOrderly draining i = i
Step-IsOrderly closing i = i

Reach-IsOrderly : {w v : Busy} → Reach w v → IsOrderly w → IsOrderly v
Reach-IsOrderly here i = i
Reach-IsOrderly (next r st) i = Step-IsOrderly st (Reach-IsOrderly r i)

-- Every state that is reached from a new session, by any calls whose parts come in any order: the counter
-- differs from the number of rows in flight by the calls that have still to count or uncount their row,
-- and by one for each undo of a dispatch that found its row gone already, which makes the counter too
-- small. Each row is filed under its own id and no id twice, there are at most 50 events, the outbox
-- holds at most four envelopes more than the limit of rows, and that limit is between 1 and 256.
pub new_session-IsOrderly :
    (id : String) (now : ℕ) (o : OpenSession) (caller : String) (aliases : List String)
    (heartbeats : List (String × ℕ)) (w : Busy)
    → Reach (quiet (new_session id now o caller aliases heartbeats)) w
    → IsOrderly w
unfolding new_session
new_session-IsOrderly id now o caller aliases heartbeats w r =
    let i = new-IsSound id now o caller aliases heartbeats in
    Reach-IsOrderly r (refl, (i.1, i.2, i.3, i.4, i.5, i.6))
