-- ===== src/Session/Calls.antt =====
-- The calls on a session of internal/server/jobsdispatcher/session.go, cut where the lock is released:
-- recordDispatch and removeInflight change the counter, the outbox and the events outside the section
-- in which they change the map, so that other calls may come between.
use pacific_coast.Base.{
  ℕ, Bool, true, false, List, [], ◌∷◌, ◌++◌, nat_eq, ltb, if◌then◌else◌, ◌+◌, length, delete, has,
  ◌≡◌,
}
use pacific_coast.Session.State.{
  Dispatch, dispatch, SessionEvent, Session, outbox_cap, append_event, dispatched_event, store_row,
  count_up, count_down, record_ack, mark_drained, close, drop_first,
}

-- What a call has still to do: to add one to the counter, to send, to note the dispatch, to take its row
-- out again, to take one from the counter.
pub data Task : Type 0 where
  counting : Dispatch → Task
  sending : Dispatch → Bool → Task
  noting : Dispatch → Task
  undoing : ℕ → Task
  uncounting : Task

-- recordDispatch up to its first Unlock
unfoldable pub begin_dispatch : Dispatch → ℕ → ℕ → ℕ → Session → Session × List Task
begin_dispatch d now lease_until ack_deadline s = (
  store_row d now lease_until ack_deadline s,
  (if has s.inflight d.job_id then sending d true else counting d) ∷ [],
)

-- removeInflight up to its Unlock
unfoldable pub begin_remove : ℕ → Session → Session × List Task
begin_remove id s =
    if has s.inflight id
    then (record s { inflight = delete s.inflight id }, uncounting ∷ [])
    else (s, [])

-- The next part of a call, and what it has to do after that. With a full outbox only a dispatch of a new
-- row is undone.
unfoldable pub resume : ℕ → Task → Session → Session × List Task
resume now (counting d) s =
    (record s { inflight_counter = count_up s.inflight_counter }, sending d false ∷ [])
resume now (sending d dup) s =
    if ltb (length s.outbox) (outbox_cap s)
    then (record s { outbox = s.outbox ++ dispatch d ∷ [] }, noting d ∷ [])
    else (s, if dup then [] else undoing d.job_id ∷ [])
resume now (noting d) s = (append_event (dispatched_event d now) s, [])
resume now (undoing id) s = (record s { inflight = delete s.inflight id }, uncounting ∷ [])
resume now uncounting s = (record s { inflight_counter = count_down s.inflight_counter }, [])

-- an undo whose row is in the map no more
abbrev pub late_by : Task → Session → ℕ
late_by (undoing id) s = if has s.inflight id then 0 else 1
late_by _ s = 0

-- A session, the calls at work on it, and how many undos have come too late.
pub record Busy : Type 0 where
  pub session : Session
  pub tasks : List Task
  pub late : ℕ

abbrev pub quiet : Session → Busy
quiet s = record { session = s; tasks = []; late = 0 }

-- a call that begins
abbrev pub begun : Session × List Task → Busy → Busy
begun (s, more) w = record w { session = s; tasks = w.tasks ++ more }

-- a call that goes on, among the others
abbrev pub advanced : ℕ → List Task → Task → List Task → Busy → Busy
advanced now before t after w =
    let (s, more) = resume now t w.session in
    record { session = s; tasks = before ++ (more ++ after); late = w.late + late_by t w.session }

-- What may happen next: a dispatch or a removal begins, any call goes on by one part, or one of the calls
-- that have only one part is made; `handing` is the stream's taking of an envelope.
pub data Step (w : Busy) : Busy → Type 0 where
  dispatching :
      (d : Dispatch) (now lease_until ack_deadline : ℕ)
      → Step w (begun (begin_dispatch d now lease_until ack_deadline w.session) w)
  removing : (id : ℕ) → Step w (begun (begin_remove id w.session) w)
  going :
      (now : ℕ) (before : List Task) (t : Task) (after : List Task)
      → w.tasks ≡ before ++ t ∷ after
      → Step w (advanced now before t after w)
  acking : (now id : ℕ) → Step w (record w { session = (record_ack now id w.session).1 })
  logging : (e : SessionEvent) → Step w (record w { session = append_event e w.session })
  handing :
      Step w (record w { session = record w.session { outbox = drop_first w.session.outbox } })
  draining : Step w (record w { session = mark_drained w.session })
  closing : Step w (record w { session = close w.session })

pub data Reach (w : Busy) : Busy → Type 0 where
  here : Reach w w
  next : {v x : Busy} → Reach w v → Step v x → Reach w x
