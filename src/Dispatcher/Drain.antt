-- ===== src/Dispatcher/Drain.antt =====
-- The loop of the drain of internal/server/jobsdispatcher/dispatcher.go on one claimed row, once
-- pickSession has found a session for it, and the handlers of the messages that settle a row. The
-- metrics, the counters for the console and the texts of errors in events are left out, and the calls
-- of the database succeed unless a parameter says otherwise. A call on the session is taken to end
-- before another one begins.
use pacific_coast.Base.{
  ℕ, String, Bool, true, false, Option, none, some, List, [], ◌∷◌, ◌==◌, nat_eq, string_eq, ◌&&◌,
  not, ltb, if◌then◌else◌, ◌+◌, get, put,
}
use pacific_coast.Schema.{Ir}
use pacific_coast.Queue.Table.{Tables}
use pacific_coast.Queue.Claim.{ClaimedRow, bind_claim, extend_lease}
use pacific_coast.Queue.Settle.{release_row}
use pacific_coast.Session.State.{
  Session, SessionEvent, Dispatch, claimed_by, append_event, record_dispatch, close,
}
use pacific_coast.Dispatcher.Authz.{AuthzError, check_single_authz}

-- A session, the tables of the queue, and the dispatcher's map from rows in flight to the ids of
-- their sessions.
pub record World : Type 0 where
  pub session : Session
  pub tables : Tables
  pub owner : List (ℕ × String)

-- The times that the code reads on the way: `leased`, `acked_from` and `noted` from the pod's clock,
-- by time.Now() for the lease, for the ack and in the session, and `extended` and `released` from the
-- database's, by now() in ExtendLease and ReleaseRow. `extended` is none if ExtendLease fails.
pub record Clocks : Type 0 where
  pub leased : ℕ
  pub acked_from : ℕ
  pub noted : ℕ
  pub extended : Option ℕ
  pub released : ℕ

unfoldable pub bind_claim_to_session : ℕ → Session → Tables → Tables
bind_claim_to_session id s t = bind_claim id (claimed_by s) s.id t

-- time.Format, of a package that is not part of the repository, is a parameter
unfoldable pub build_dispatch : (ℕ → String) → ClaimedRow → Dispatch
build_dispatch format r = record {
  job_id = r.id;
  job_name = r.job_name;
  queue = "";
  args = r.args;
  attempts = r.attempts;
  max_retries = r.max_retries;
  timeout_ms = r.timeout_ms;
  scheduled_for = if r.scheduled_for == 0 then "" else format r.scheduled_for;
  enqueued_at = if r.enqueued_at == 0 then "" else format r.enqueued_at;
  trace_ctx = elim r.trace_ctx [ none ↦ "" | some t ↦ t ];
}

-- the budget of a job that differs from the one of the queue
unfoldable pub own_heartbeat : Session → ℕ → String → Option ℕ
own_heartbeat s budget name = elim (get s.per_job_heartbeat name) [
  | none ↦ none
  | some d ↦ if ltb 0 d && not (d == budget) then some d else none
]

abbrev pub bump_lease : Option ℕ → ℕ → Session → Option ℕ → Tables → Tables
bump_lease none id s own t = t
bump_lease (some now) id s none t = t
bump_lease (some now) id s (some d) t = extend_lease now (id ∷ []) (claimed_by s) d t

-- the deadline that the session is told; the one of the claim if ExtendLease fails
abbrev pub row_lease : Option ℕ → ℕ → ℕ → Option ℕ → ℕ
row_lease none now lease_until own = lease_until
row_lease (some extended) now lease_until none = lease_until
row_lease (some extended) now lease_until (some d) = now + d

abbrev pub rejected_event : ℕ → ClaimedRow → SessionEvent
rejected_event now row = record {
  at_time = now;
  kind = "authz_rejected_post_open";
  job_id = row.id;
  job_name = row.job_name;
  note = "";
}

-- after the row is recorded, or the outbox was full
abbrev pub recorded : Clocks → ClaimedRow → World → Bool × Session → World
recorded at row w (true, s) = record w { session = s; owner = put w.owner row.id s.id }
recorded at row w (false, s) = record w {
  session = close s;
  tables = release_row at.released row.id (claimed_by s) "outbox_full" w.tables;
}

-- bind the claim, bump the lease, and record the dispatch
unfoldable pub send_row : (ℕ → String) → Clocks → ℕ → ℕ → ℕ → ClaimedRow → World → World
unfolding bind_claim_to_session own_heartbeat build_dispatch
send_row format at lease_until budget ack_timeout row w =
    let s = w.session in
    let own = own_heartbeat s budget row.job_name in
    let t = bump_lease at.extended row.id s own (bind_claim_to_session row.id s w.tables) in
    recorded at row (record w { tables = t })
      (record_dispatch (build_dispatch format row) at.noted
        (row_lease at.extended at.leased lease_until own) (at.acked_from + ack_timeout) s)

abbrev pub is_error : Option AuthzError → Bool
is_error none = false
is_error (some e) = true

-- the authorisation at dispatch, which is left out if the schema could not be loaded
abbrev pub rejected : Session → ClaimedRow → Option Ir → Bool
rejected s row none = false
rejected s row (some ir) = is_error (check_single_authz s.caller s.aliases row.job_name (some ir))

abbrev pub reject_row : Clocks → ClaimedRow → World → World
reject_row at row w = record w {
  session = append_event (rejected_event at.noted row) w.session;
  tables =
      release_row at.released row.id
        (claimed_by (append_event (rejected_event at.noted row) w.session)) "authz_rejected"
        w.tables;
}

unfoldable pub drain_row :
    (ℕ → String) → Clocks → ℕ → ℕ → ℕ → Option Ir → ClaimedRow → World → World
unfolding send_row
drain_row format at lease_until budget ack_timeout ir row w =
    if rejected w.session row ir
    then reject_row at row w
    else send_row format at lease_until budget ack_timeout row w
