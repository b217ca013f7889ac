-- ===== src/Dispatcher/Sent.antt =====
-- A row that the dispatcher sends: the session, the tables and the map of owners agree on it.
use mathlib.Core.Path.{subst}
use pacific_coast.Queue.Settle.{back_to_pending, release_row}
use pacific_coast.Session.Slots.{record_dispatch-undone}
use pacific_coast.Base.{
  ℕ, String, false, Option, none, some, List, [], ◌∷◌, ◌++◌, ◌==◌, nat_eq, string_eq, ==_refl, ◌&&◌,
  keep, ◌+◌, length, cat, contains, All, arith, ◌≡◌, refl, sym, ap, ◌∙◌, ◌≤◌, ◌<◌, get, get-put,
}
use pacific_coast.Schema.{Ir}
use pacific_coast.Queue.Table.{pending, JobRow, Tables, jobs_with}
use pacific_coast.Queue.Rows.{jobs_with-update_where}
use pacific_coast.Queue.Claim.{
  update_where, ClaimedRow, is_holder, extend_lease, bound_row, bind_claim, extended_row,
}
use pacific_coast.Session.State.{
  dispatch, Session, outbox_cap, claimed_by, append_event, inflight_row, track_dispatch, close,
}
use pacific_coast.Session.Invariant.{record_dispatch-room}
use pacific_coast.Dispatcher.Drain.{
  World, Clocks, bind_claim_to_session, build_dispatch, own_heartbeat, bump_lease, row_lease,
  send_row, rejected, drain_row, recorded,
}
use pacific_coast.Dispatcher.Outcomes.{bound_leases}

-- The deadline that a sent row has in the tables: that of the claim, or the job's own heartbeat after the
-- time that the database read in ExtendLease.
abbrev pub table_lease : Option ℕ → ℕ → Option ℕ → ℕ
table_lease none lease_until own = lease_until
table_lease (some extended) lease_until none = lease_until
table_lease (some extended) lease_until (some d) = extended + d

count-bind_claim :
    (at : Option ℕ) (id : ℕ) (s : Session) (own : Option ℕ) (t : Tables)
    → jobs_with id (bump_lease at id s own (bind_claim_to_session id s t)).jobs
      ≡ jobs_with id t.jobs
unfolding bind_claim_to_session bind_claim extend_lease
count-bind_claim none id s own t =
    jobs_with-update_where (λ r. r.id == id) (bound_row (claimed_by s) s.id) t.jobs id (λ r. refl)
count-bind_claim (some now) id s none t =
    jobs_with-update_where (λ r. r.id == id) (bound_row (claimed_by s) s.id) t.jobs id (λ r. refl)
count-bind_claim (some now) id s (some d) t =
    jobs_with-update_where (λ r. contains (id ∷ []) r.id && is_holder (claimed_by s) r.claimed_by)
      (extended_row (now + d))
      (update_where (λ r. r.id == id) (bound_row (claimed_by s) s.id) t.jobs) id (λ r. refl)
    ∙ jobs_with-update_where (λ r. r.id == id) (bound_row (claimed_by s) s.id) t.jobs id (λ r. refl)

-- The rows with an id are held by a session, with the given deadline.
abbrev pub IsHeld : ℕ → Session → ℕ → List JobRow → Type 0
IsHeld id s lease jobs =
    All (λ r. (r.claimed_by ≡ some (claimed_by s)) × (r.claimed_until ≡ some lease))
      (keep (λ r. r.id == id) jobs)

bound-IsHeld :
    (id lease : ℕ) (s : Session) (jobs : List JobRow)
    → All (λ r. r.claimed_until ≡ some lease) (keep (λ r. r.id == id) jobs)
    → IsHeld id s lease (update_where (λ r. r.id == id) (bound_row (claimed_by s) s.id) jobs)
bound-IsHeld id lease s [] h = tt
bound-IsHeld id lease s (r ∷ jobs) h = ground (arith, bound-IsHeld id lease s jobs)

bumped-IsHeld :
    (at : Option ℕ) (id lease_until : ℕ) (s : Session) (t : Tables) (own : Option ℕ)
    → All (λ r. r.claimed_until ≡ some lease_until) (keep (λ r. r.id == id) t.jobs)
    → IsHeld id s
        (table_lease at lease_until own)
        (bump_lease at id s own (bind_claim_to_session id s t)).jobs
unfolding bind_claim_to_session bind_claim extend_lease
bumped-IsHeld none id lease_until s t own h = bound-IsHeld id lease_until s t.jobs h
bumped-IsHeld (some now) id lease_until s t none h = bound-IsHeld id lease_until s t.jobs h
bumped-IsHeld (some now) id lease_until s t (some d) h = bound_leases now id d s t.jobs

pub drain_row-sent :
    (format : ℕ → String) (at : Clocks) (lease_until budget ack_timeout : ℕ) (ir : Option Ir)
    (row : ClaimedRow) (w : World)
    → rejected w.session row ir ≡ false
    → length w.session.outbox < outbox_cap w.session
    → All (λ r. r.claimed_until ≡ some lease_until) (keep (λ r. r.id == row.id) w.tables.jobs)
    → let after = drain_row format at lease_until budget ack_timeout ir row w in
      let own = own_heartbeat w.session budget row.job_name in
      let lease = row_lease at.extended at.leased lease_until own in
      let d = build_dispatch format row in
      (get after.session.inflight row.id
        ≡ some (inflight_row d at.noted lease (at.acked_from + ack_timeout)))
      × (after.session.outbox ≡ w.session.outbox ++ dispatch d ∷ [])
      × (get after.owner row.id ≡ some w.session.id)
      × (jobs_with row.id after.tables.jobs ≡ jobs_with row.id w.tables.jobs)
      × IsHeld row.id w.session (table_lease at.extended lease_until own) after.tables.jobs
unfolding drain_row send_row append_event track_dispatch build_dispatch
drain_row-sent format at lease_until budget ack_timeout ir row w ok room until =
    let s = w.session in
    let own = own_heartbeat s budget row.job_name in
    let lease = row_lease at.extended at.leased lease_until own in
    let d = build_dispatch format row in
    let t = bump_lease at.extended row.id s own (bind_claim_to_session row.id s w.tables) in
    let out : drain_row format at lease_until budget ack_timeout ir row w
        ≡ send_row format at lease_until budget ack_timeout row w =
      rw ok refl in
    let sent =
      out
      ∙ ap (recorded at row (record w { tables = t })) (
          record_dispatch-room d at.noted lease (at.acked_from + ack_timeout) s
            (ground (arith, room))) in
    (
      ap (λ w. get w.session.inflight row.id) sent
          ∙ get-put s.inflight row.id row.id
              (inflight_row d at.noted lease (at.acked_from + ack_timeout))
          ∙ ground (arith, ==_refl row.id),
      ap (λ w. w.session.outbox) sent,
      ap (λ w. get w.owner row.id) sent
          ∙ get-put w.owner row.id row.id s.id
          ∙ ground (arith, ==_refl row.id),
      ap (λ w. jobs_with row.id w.tables.jobs) sent
          ∙ count-bind_claim at.extended row.id s own w.tables,
      subst (λ w. IsHeld row.id s (table_lease at.extended lease_until own) w.tables.jobs)
          (sym sent) (bumped-IsHeld at.extended row.id lease_until s w.tables own until),
    )

dead-bump_lease :
    (at : Option ℕ) (id : ℕ) (s : Session) (own : Option ℕ) (t : Tables)
    → (bump_lease at id s own (bind_claim_to_session id s t)).dead ≡ t.dead
unfolding bind_claim_to_session bind_claim extend_lease
dead-bump_lease none id s own t = refl
dead-bump_lease (some now) id s none t = refl
dead-bump_lease (some now) id s (some d) t = refl

released_pending :
    (now id lease : ℕ) (s : Session) (msg : String) (jobs : List JobRow)
    → IsHeld id s lease jobs
    → All
        (λ r. (r.status ≡ pending) × (r.claimed_by ≡ none) × (r.claimed_until ≡ none))
        (keep
          (λ r. r.id == id)
          (update_where
            (λ r. r.id == id && is_holder (claimed_by s) r.claimed_by)
            (back_to_pending now msg)
            jobs))
released_pending now id lease s msg [] h = tt
released_pending now id lease s msg (r ∷ jobs) h =
    ground (arith, released_pending now id lease s msg jobs, ==_refl (claimed_by s))

-- A claimed row whose job the session may run, and that is not in flight on it, when the outbox of the
-- session is full: the session is closed and otherwise as it was, the dispatcher's map and the
-- dead-letter table stay, and no row of the jobs with its id is lost, each of which is pending again
-- with no holder and no deadline.
pub drain_row-full :
    (format : ℕ → String) (at : Clocks) (lease_until budget ack_timeout : ℕ) (ir : Option Ir)
    (row : ClaimedRow) (w : World)
    → rejected w.session row ir ≡ false
    → outbox_cap w.session ≤ length w.session.outbox
    → get w.session.inflight row.id ≡ none
    → All (λ r. r.claimed_until ≡ some lease_until) (keep (λ r. r.id == row.id) w.tables.jobs)
    → let after = drain_row format at lease_until budget ack_timeout ir row w in
      (after.session ≡ close w.session)
      × (after.owner ≡ w.owner)
      × (after.tables.dead ≡ w.tables.dead)
      × (jobs_with row.id after.tables.jobs ≡ jobs_with row.id w.tables.jobs)
      × All
          (λ r. (r.status ≡ pending) × (r.claimed_by ≡ none) × (r.claimed_until ≡ none))
          (keep (λ r. r.id == row.id) after.tables.jobs)
unfolding drain_row send_row build_dispatch release_row
drain_row-full format at lease_until budget ack_timeout ir row w ok full new until =
    let s = w.session in
    let own = own_heartbeat s budget row.job_name in
    let lease = row_lease at.extended at.leased lease_until own in
    let d = build_dispatch format row in
    let t = bump_lease at.extended row.id s own (bind_claim_to_session row.id s w.tables) in
    let out : drain_row format at lease_until budget ack_timeout ir row w
        ≡ send_row format at lease_until budget ack_timeout row w =
      rw ok refl in
    let released =
      out
      ∙ ap (recorded at row (record w { tables = t }))
          (record_dispatch-undone d at.noted lease (at.acked_from + ack_timeout) s full new) in
    (
      ap (λ w. w.session) released,
      ap (λ w. w.owner) released,
      ap (λ w. w.tables.dead) released ∙ dead-bump_lease at.extended row.id s own w.tables,
      ap (λ w. jobs_with row.id w.tables.jobs) released
          ∙ jobs_with-update_where (λ r. r.id == row.id && is_holder (claimed_by s) r.claimed_by)
              (back_to_pending at.released (cat "released:" "outbox_full")) t.jobs row.id
              (λ r. refl)
          ∙ count-bind_claim at.extended row.id s own w.tables,
      subst
          (λ w.
            All (λ r. (r.status ≡ pending) × (r.claimed_by ≡ none) × (r.claimed_until ≡ none))
              (keep (λ r. r.id == row.id) w.tables.jobs))
          (sym released)
          (released_pending at.released row.id (table_lease at.extended lease_until own) s
            (cat "released:" "outbox_full") t.jobs
            (bumped-IsHeld at.extended row.id lease_until s w.tables own until)),
    )
