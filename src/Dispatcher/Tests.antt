-- ===== src/Dispatcher/Tests.antt =====
-- A schema with one job, a claimed row, and the theorems at them.
use mathlib.Core.List.{Memᴰ}
use pacific_coast.Base.{
  ℕ, String, true, false, none, some, [], ◌∷◌, ◌==◌, nat_eq, string_eq, keep, cat, All, arith, ◌≡◌,
  ◌↔◌, refl, ap, get, pos,
}
use pacific_coast.Schema.{Ir, Job, job_id}
use pacific_coast.Queue.Table.{pending, JobRow, jobs_with, dead_with}
use pacific_coast.Queue.Claim.{claim_row, ClaimedRow, claimed_row}
use pacific_coast.Queue.Settle.{submitted_row}
use pacific_coast.Session.State.{
  dispatch, goodbye, Session, clamp_in_flight, new_session, claimed_by, append_event, inflight_row,
  track_dispatch, record_dispatch, close,
}
use pacific_coast.Dispatcher.Authz.{
  not_authorized, lookup_job, job_visible_to, check_single_authz, check_worker_authz,
  check_worker_authz-check_single_authz, IsAllowed,
}
use pacific_coast.Dispatcher.Drain.{
  World, Clocks, build_dispatch, own_heartbeat, row_lease, drain_row,
}
use pacific_coast.Dispatcher.Handlers.{FailMessage, handle_fail}
use pacific_coast.Dispatcher.Outcomes.{drain_row-rejected, handle_fail-unreadable}
use pacific_coast.Dispatcher.Sent.{IsHeld, table_lease, drain_row-sent, drain_row-full}

abbrev mail_job : Job
mail_job = record {
  name = "Mail";
  namespace = "shop";
  retries = 3;
  timeout_ms = 0;
  heartbeat_ms = 0;
  queue = "default";
  visible_to = "shop";
}

abbrev ir : Ir
ir = record { version = 1; entities = []; queries = []; procedures = []; jobs = mail_job ∷ [] }

abbrev claimed_mail : JobRow
claimed_mail =
    claim_row 200 "dispatcher/pod" 900 "dispatched" "pod"
      (submitted_row 100 7 "shop.Mail" "default" "{}" 3 none none "shop" none)

abbrev row : ClaimedRow
row = claimed_row claimed_mail

abbrev worker : String → Session
worker caller =
    new_session "s1" 100
      (record {
        queue = "default";
        job_names = "shop.Mail" ∷ [];
        max_in_flight = pos 2;
        pod_id = "w";
        version = "1";
      })
      caller [] []

abbrev world : String → World
world caller = record {
  session = worker caller;
  tables = record { jobs = claimed_mail ∷ []; dead = [] };
  owner = [];
}

abbrev format : ℕ → String
format t = "2026-01-01T00:00:00Z"

-- the clock of the database is one ahead
abbrev at : Clocks
at = record { leased = 300; acked_from = 300; noted = 300; extended = some 301; released = 302 }

abbrev full_world : World
full_world = record (world "shop") {
  session = record (worker "shop") {
    outbox = goodbye ∷ goodbye ∷ goodbye ∷ goodbye ∷ goodbye ∷ goodbye ∷ [];
  };
}

abbrev busy_world : World
busy_world = record (world "shop") {
  session = (record_dispatch (build_dispatch format row) 300 900 400 (worker "shop")).1;
}

check_worker_authz-check_single_authz_example :
    ((check_single_authz "shop" [] "shop.Mail" (some ir) ≡ none)
      ↔ IsAllowed "shop" [] ir "shop.Mail")
    × ((check_worker_authz "shop" [] ("shop.Mail" ∷ []) (some ir) ≡ none)
        ↔ All (IsAllowed "shop" [] ir) ("shop.Mail" ∷ []))
check_worker_authz-check_single_authz_example =
    check_worker_authz-check_single_authz "shop" [] ("shop.Mail" ∷ []) "shop.Mail" ir

-- The caller that the job names may run it, and another one may not.
check_shop : check_single_authz "shop" [] "shop.Mail" (some ir) ≡ none
unfolding check_single_authz lookup_job job_visible_to job_id
check_shop = refl

check_other : check_single_authz "other" [] "shop.Mail" (some ir) ≡ some not_authorized
unfolding check_single_authz lookup_job job_visible_to job_id
check_other = refl

drain_row-rejected_example :
    let after = drain_row format at 900 600 100 (some ir) row (world "other") in
    (after.tables ≡ (world "other").tables)
    × (after.session.outbox ≡ (worker "other").outbox)
    × (after.session.inflight ≡ (worker "other").inflight)
    × (after.owner ≡ [])
unfolding new_session claimed_by claim_row submitted_row
drain_row-rejected_example =
    drain_row-rejected format at 900 600 100 ir row "pod" not_authorized (world "other") check_other
      (λ e. cc) held
  where
    held :
        (r : JobRow)
        → Memᴰ r (claimed_mail ∷ [])
        → r.id ≡ row.id
        → r.claimed_by ≡ some (cat "dispatcher/" "pod")
    held r (Memᴰ.head e) i = ap (λ r. r.claimed_by) e
    held r (Memᴰ.tail m) i = elim m [ ]

drain_row-sent_example :
    let after = drain_row format at 900 600 100 (some ir) row (world "shop") in
    let own = own_heartbeat (worker "shop") 600 "shop.Mail" in
    let lease = row_lease (some 301) 300 900 own in
    let d = build_dispatch format row in
    (get after.session.inflight 7 ≡ some (inflight_row d 300 lease 400))
    × (after.session.outbox ≡ dispatch d ∷ [])
    × (get after.owner 7 ≡ some "s1")
    × (jobs_with 7 after.tables.jobs ≡ 1)
    × IsHeld 7 (worker "shop") (table_lease (some 301) 900 own) after.tables.jobs
unfolding new_session clamp_in_flight claim_row submitted_row
drain_row-sent_example =
    drain_row-sent format at 900 600 100 (some ir) row (world "shop") (cc check_shop) (omega arith)
      (refl, tt)

drain_row-full_example :
    let after = drain_row format at 900 600 100 (some ir) row full_world in
    (after.session ≡ close full_world.session)
    × (after.owner ≡ [])
    × (after.tables.dead ≡ [])
    × (jobs_with 7 after.tables.jobs ≡ 1)
    × All
        (λ r. (r.status ≡ pending) × (r.claimed_by ≡ none) × (r.claimed_until ≡ none))
        (keep (λ r. r.id == 7) after.tables.jobs)
unfolding new_session clamp_in_flight claim_row submitted_row
drain_row-full_example =
    drain_row-full format at 900 600 100 (some ir) row full_world (cc check_shop) (omega arith) refl
      (refl, tt)

abbrev fail_mail : FailMessage
fail_mail = record { job_id = 7; error = "no route"; retry = true }

handle_fail-unreadable_example :
    let after = handle_fail false 300 fail_mail busy_world in
    (jobs_with 7 after.tables.jobs ≡ 0) × (dead_with 7 after.tables.dead ≡ 1)
unfolding record_dispatch track_dispatch append_event new_session clamp_in_flight claim_row
    submitted_row build_dispatch
handle_fail-unreadable_example =
    handle_fail-unreadable 300 fail_mail (inflight_row (build_dispatch format row) 300 900 400)
      busy_world refl refl (λ i. ground arith) refl
