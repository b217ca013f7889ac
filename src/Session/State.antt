-- ===== src/Session/State.antt =====
-- A connected worker, internal/server/jobsdispatcher/session.go, and the messages of proto.go that its
-- outbox holds. Each method takes the session and returns it, as it does if no other call runs at the
-- same time; Session.Overlap has the calls cut into the parts between which others may come. The
-- counter, an int32, is an integer, which fewer than 2^31 calls keep within it. Times are milliseconds, and a method that reads the clock takes the time. A channel is the list of what it
-- holds, and the metrics are left out.
use pacific_coast.Base.{
  ℕ, zero, suc, String, Bool, true, false, Option, none, some, List, [], ◌∷◌, ◌++◌, nat_eq,
  string_eq, ltb, leb, if◌then◌else◌, ◌+◌, ◌-◌, length, cat, contains, get, put, delete, has, ℤ,
  pos, negsuc,
}

pub record Dispatch : Type 0 where
  pub job_id : ℕ
  pub job_name : String
  pub queue : String
  pub args : String
  pub attempts : ℕ
  pub max_retries : ℕ
  pub timeout_ms : ℕ
  pub scheduled_for : String
  pub enqueued_at : String
  pub trace_ctx : String

pub data Envelope : Type 0 where
  dispatch : Dispatch → Envelope
  revoke : ℕ → String → Envelope
  goodbye : Envelope

pub record OpenSession : Type 0 where
  pub queue : String
  pub job_names : List String
  pub max_in_flight : ℤ
  pub pod_id : String
  pub version : String

pub record InflightRow : Type 0 where
  pub job_id : ℕ
  pub job_name : String
  pub dispatched_at : ℕ
  pub lease_until : ℕ
  pub ack_received : Bool
  pub ack_by : ℕ
  pub timeout_ms : ℕ

pub record SessionEvent : Type 0 where
  pub at_time : ℕ
  pub kind : String
  pub job_id : ℕ
  pub job_name : String
  pub note : String

pub record Session : Type 0 where
  pub id : String
  pub caller : String
  pub aliases : List String
  pub queue : String
  pub pod_id : String
  pub version : String
  pub job_names : List String
  pub max_in_flight : ℕ
  pub outbox : List Envelope
  pub inflight : List (ℕ × InflightRow)
  pub inflight_counter : ℤ
  pub drained : Bool
  pub last_heartbeat : ℕ
  pub connected_at : ℕ
  pub closed : Bool
  pub events : List SessionEvent
  pub lease_pending : List ℕ
  pub per_job_heartbeat : List (String × ℕ)

-- MinMaxInFlight and MaxMaxInFlight of proto.go, on what the worker declared
unfoldable pub clamp_in_flight : ℤ → ℕ
clamp_in_flight (negsuc n) = 1
clamp_in_flight (pos n) = if ltb n 1 then 1 else if ltb 256 n then 256 else n

-- the outbox holds maxInFlight+4 envelopes
abbrev pub outbox_cap : Session → ℕ
outbox_cap s = s.max_in_flight + 4

abbrev pub session_event_cap : ℕ
session_event_cap = 50

-- `id` is what uuid.NewString gives
unfoldable pub new_session :
    String → ℕ → OpenSession → String → List String → List (String × ℕ) → Session
unfolding clamp_in_flight
new_session id now o caller aliases heartbeats = record {
  id = id;
  caller = caller;
  aliases = aliases;
  queue = o.queue;
  pod_id = o.pod_id;
  version = o.version;
  job_names = o.job_names;
  max_in_flight = clamp_in_flight o.max_in_flight;
  outbox = [];
  inflight = [];
  inflight_counter = pos 0;
  drained = false;
  last_heartbeat = now;
  connected_at = now;
  closed = false;
  events = [];
  lease_pending = [];
  per_job_heartbeat = heartbeats;
}

unfoldable pub lease_dur_for : Session → String → ℕ → ℕ
lease_dur_for s name fallback = elim (get s.per_job_heartbeat name) [
  | none ↦ fallback
  | some d ↦ if ltb 0 d then d else fallback
]

unfoldable pub claimed_by : Session → String
claimed_by s = cat "dispatcher/" s.id

abbrev pub free_slots : ℕ → ℤ → ℕ
free_slots limit (pos n) = if ltb limit n then 0 else limit - n
free_slots limit (negsuc n) = limit + (n + 1)

unfoldable pub available_slots : Session → ℕ
available_slots s = if s.drained then 0 else free_slots s.max_in_flight s.inflight_counter

-- inflightCounter.Add(1) and inflightCounter.Add(-1)
abbrev pub count_up : ℤ → ℤ
count_up (pos n) = pos (suc n)
count_up (negsuc zero) = pos 0
count_up (negsuc (suc n)) = negsuc n

abbrev pub count_down : ℤ → ℤ
count_down (pos zero) = negsuc 0
count_down (pos (suc n)) = pos n
count_down (negsuc n) = negsuc (suc n)

unfoldable pub handles_job : Session → String → Bool
handles_job s name = contains s.job_names name

abbrev pub drop_first {ℓ} : {A : Type ℓ} → List A → List A
drop_first [] = []
drop_first (x ∷ xs) = xs

unfoldable pub append_event : SessionEvent → Session → Session
append_event e s = record s {
  events =
      (if leb session_event_cap (length s.events) then drop_first s.events else s.events) ++ e ∷ [];
}

abbrev pub inflight_row : Dispatch → ℕ → ℕ → ℕ → InflightRow
inflight_row d now lease_until ack_deadline = record {
  job_id = d.job_id;
  job_name = d.job_name;
  dispatched_at = now;
  lease_until = lease_until;
  ack_received = false;
  ack_by = ack_deadline;
  timeout_ms = d.timeout_ms;
}

-- the first critical section of recordDispatch
unfoldable pub store_row : Dispatch → ℕ → ℕ → ℕ → Session → Session
store_row d now lease_until ack_deadline s = record s {
  inflight = put s.inflight d.job_id (inflight_row d now lease_until ack_deadline);
}

-- the part of recordDispatch before the send: the row is in flight
unfoldable pub track_dispatch : Dispatch → ℕ → ℕ → ℕ → Session → Session
track_dispatch d now lease_until ack_deadline s = record s {
  inflight = put s.inflight d.job_id (inflight_row d now lease_until ack_deadline);
  inflight_counter =
      if has s.inflight d.job_id then s.inflight_counter else count_up s.inflight_counter;
}

-- the undo of a row that was not in flight before
abbrev pub untrack : ℕ → Session → Session
untrack id s = record s {
  inflight = delete s.inflight id;
  inflight_counter = count_down s.inflight_counter;
}

abbrev pub dispatched_event : Dispatch → ℕ → SessionEvent
dispatched_event d now = record {
  at_time = now;
  kind = "dispatched";
  job_id = d.job_id;
  job_name = d.job_name;
  note = "";
}

unfoldable pub record_dispatch : Dispatch → ℕ → ℕ → ℕ → Session → Bool × Session
unfolding track_dispatch append_event
record_dispatch d now lease_until ack_deadline s =
    let t = track_dispatch d now lease_until ack_deadline s in
    if ltb (length s.outbox) (outbox_cap s)
    then (
      true,
      append_event (dispatched_event d now) (record t { outbox = s.outbox ++ dispatch d ∷ [] }),
    )
    else if has s.inflight d.job_id
    then (false, t)
    else (false, untrack d.job_id t)

-- recordAck by what it finds; the clock never goes back, so time.Since is a difference of natural
-- numbers
abbrev pub ack_found : ℕ → ℕ → Session → Option InflightRow → (Bool × ℕ) × Session
ack_found now id s none = ((false, 0), s)
ack_found now id s (some row) = if row.ack_received then ((true, 0), s) else (
  (true, now - row.dispatched_at),
  record s { inflight = put s.inflight id (record row { ack_received = true }) },
)

unfoldable pub record_ack : ℕ → ℕ → Session → (Bool × ℕ) × Session
record_ack now id s = ack_found now id s (get s.inflight id)

abbrev pub remove_found : ℕ → Session → Option InflightRow → Option InflightRow × Session
remove_found id s none = (none, s)
remove_found id s (some row) = (some row, untrack id s)

unfoldable pub remove_inflight : ℕ → Session → Option InflightRow × Session
remove_inflight id s = remove_found id s (get s.inflight id)

unfoldable pub mark_drained : Session → Session
mark_drained s = record s { drained = true }

unfoldable pub close : Session → Session
close s = record s { closed = true }
