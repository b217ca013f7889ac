-- ===== src/Dispatcher/Outcomes.antt =====
-- What the dispatcher does to a row: sent, rejected, settled.
use mathlib.Core.List.{Memᴰ}
use pacific_coast.Base.{
  ℕ, String, true, false, some, List, [], ◌∷◌, ◌==◌, nat_eq, string_eq, ==_refl, ◌&&◌, keep, ◌+◌,
  cat, contains, All, arith, ◌≡◌, ◌≢◌, refl, sym, ap, ◌∙◌, get,
}
use pacific_coast.Schema.{Ir}
use pacific_coast.Queue.Table.{JobRow, jobs_with, dead_with}
use pacific_coast.Queue.Claim.{update_where, ClaimedRow, is_holder, extended_row, bound_row}
use pacific_coast.Queue.Ids.{HasUniqueIds}
use pacific_coast.Queue.Outcomes.{stale_holder-unchanged, report_failure-last}
use pacific_coast.Session.State.{
  InflightRow, Session, claimed_by, append_event, remove_found, remove_inflight,
}
use pacific_coast.Dispatcher.Authz.{check_single_authz, AuthzError}
use pacific_coast.Dispatcher.Drain.{
  is_error, World, Clocks, rejected, reject_row, drain_row, rejected_event,
}
use pacific_coast.Dispatcher.Handlers.{FailMessage, lookup_attempts, handle_fail, failed_row}

rejected-some :
    (s : Session) (row : ClaimedRow) (ir : Ir) (e : AuthzError)
    → check_single_authz s.caller s.aliases row.job_name (some ir) ≡ some e
    → rejected s row (some ir) ≡ true
rejected-some s row ir e h = ap is_error h

-- A claimed row whose job the session may not run is not sent: the outbox, the rows in flight and the
-- dispatcher's map stay. And it is not given back either: as long as the row is still held under the
-- name of the pod, which is not the name of the session, the tables stay, so that the row remains
-- running until its lease is over.
pub drain_row-rejected :
    (format : ℕ → String) (at : Clocks) (lease_until budget ack_timeout : ℕ) (ir : Ir)
    (row : ClaimedRow) (pod : String) (e : AuthzError) (w : World)
    → check_single_authz w.session.caller w.session.aliases row.job_name (some ir) ≡ some e
    → cat "dispatcher/" pod ≢ claimed_by w.session
    → ((r : JobRow)
        → Memᴰ r w.tables.jobs
        → r.id ≡ row.id
        → r.claimed_by ≡ some (cat "dispatcher/" pod))
    → let after = drain_row format at lease_until budget ack_timeout (some ir) row w in
      (after.tables ≡ w.tables)
      × (after.session.outbox ≡ w.session.outbox)
      × (after.session.inflight ≡ w.session.inflight)
      × (after.owner ≡ w.owner)
unfolding drain_row append_event claimed_by
drain_row-rejected format at lease_until budget ack_timeout ir row pod e w h differ held =
    let s = append_event (rejected_event at.noted row) w.session in
    let unheld =
      stale_holder-unchanged at.released [] row.id (claimed_by s) 0 "authz_rejected" w.tables
        (λ r m c k.
          differ (
            some-injective (sym (held r m (ground (arith, c, nat_eq.decides row.id r.id))) ∙ k))) in
    let same = unheld.1 in
    let r = rejected-some w.session row ir e h in
    let out : drain_row format at lease_until budget ack_timeout (some ir) row w
        ≡ reject_row at row w =
      rw r refl in
    (
      ap (λ w. w.tables) out ∙ same,
      ap (λ w. w.session.outbox) out,
      ap (λ w. w.session.inflight) out,
      ap (λ w. w.owner) out,
    )
  where
    some-injective : {a b : String} → some a ≡ some b → a ≡ b
    some-injective h = cc

-- each row with an id of the list is bound and its lease is as given
pub bound_leases :
    (now id d : ℕ) (s : Session) (jobs : List JobRow)
    → All
        (λ r. (r.claimed_by ≡ some (claimed_by s)) × (r.claimed_until ≡ some (now + d)))
        (keep
          (λ r. r.id == id)
          (update_where
            (λ r. contains (id ∷ []) r.id && is_holder (claimed_by s) r.claimed_by)
            (extended_row (now + d))
            (update_where (λ r. r.id == id) (bound_row (claimed_by s) s.id) jobs)))
bound_leases now id d s [] = tt
bound_leases now id d s (r ∷ jobs) = ground (
  arith,
  bound_leases now id d s jobs,
  ==_refl (claimed_by s),
  nat_eq.decides id r.id,
  nat_eq.decides r.id id,
)

-- When the database does not answer the lookup of the attempts, a failure for which the worker asks a
-- retry buries the job all the same, however many attempts it has left.
pub handle_fail-unreadable :
    (now : ℕ) (f : FailMessage) (row : InflightRow) (w : World)
    → f.retry ≡ true
    → get w.session.inflight f.job_id ≡ some row
    → HasUniqueIds w.tables
    → jobs_with f.job_id w.tables.jobs ≡ 1
    → let after = handle_fail false now f w in
      (jobs_with f.job_id after.tables.jobs ≡ 0) × (dead_with f.job_id after.tables.dead ≡ 1)
unfolding handle_fail remove_inflight lookup_attempts
handle_fail-unreadable now f row w retry found unique one =
    let (u, ok, gone, dead) =
      report_failure-last now f.job_id 1 0 f.error w.tables unique one (omega arith) in
    let out : (failed_row false now f w (remove_found f.job_id w.session (some row))).tables ≡ u =
      rw (retry, ok) refl in
    let after =
      ap (λ o. (failed_row false now f w (remove_found f.job_id w.session o)).tables) found ∙ out in
    (
      ap (λ t. jobs_with f.job_id t.jobs) after ∙ gone,
      ap (λ t. dead_with f.job_id t.dead) after ∙ dead,
    )
