-- ===== src/Dispatcher/Handlers.antt =====
-- The handlers of the messages by which a worker settles a row: handleComplete and handleFail of
-- internal/server/jobsdispatcher/dispatcher.go.
use pacific_coast.Base.{
  ℕ, String, Bool, Option, none, some, List, [], ◌∷◌, ◌==◌, nat_eq, if◌then◌else◌, delete, keep,
}
use pacific_coast.Queue.Table.{JobRow, Tables}
use pacific_coast.Queue.Settle.{mark_complete, move_to_dlq, report_failure}
use pacific_coast.Session.State.{Session, SessionEvent, InflightRow, append_event, remove_inflight}
use pacific_coast.Dispatcher.Drain.{World}

abbrev pub settled_event : ℕ → String → ℕ → String → String → SessionEvent
settled_event now kind id name note = record {
  at_time = now;
  kind = kind;
  job_id = id;
  job_name = name;
  note = note;
}

-- a statement that fails is logged, and changes nothing
abbrev pub logged : Tables → Option Tables → Tables
logged t none = t
logged t (some u) = u

abbrev pub completed : ℕ → ℕ → World → Option InflightRow × Session → World
completed now id w (none, s) = w
completed now id w (some row, s) = record w {
  session = append_event (settled_event now "completed" id row.job_name "") s;
  tables = mark_complete now id w.tables;
  owner = delete w.owner id;
}

unfoldable pub handle_complete : ℕ → ℕ → World → World
handle_complete now id w = completed now id w (remove_inflight id w.session)

pub record FailMessage : Type 0 where
  pub job_id : ℕ
  pub error : String
  pub retry : Bool

-- the attempts and the budget of the first row that the SELECT returns; no row is an error
abbrev pub first_attempts : List JobRow → Option (ℕ × ℕ)
first_attempts [] = none
first_attempts (r ∷ rows) = some (r.attempts, r.max_retries)

-- `readable` tells whether the database answers
unfoldable pub lookup_attempts : Bool → ℕ → Tables → Option (ℕ × ℕ)
lookup_attempts readable id t =
    if readable then first_attempts (keep (λ r. r.id == id) t.jobs) else none

abbrev pub failure : ℕ → FailMessage → Tables → Option (ℕ × ℕ) → Option Tables
failure now f t none = report_failure now f.job_id 1 0 f.error t
failure now f t (some (attempts, max_retries)) =
    report_failure now f.job_id attempts max_retries f.error t

abbrev pub failed_row : Bool → ℕ → FailMessage → World → Option InflightRow × Session → World
failed_row readable now f w (none, s) = w
failed_row readable now f w (some row, s) =
    if f.retry
    then record w {
      session = append_event (settled_event now "failed" f.job_id row.job_name f.error) s;
      tables =
          logged w.tables (failure now f w.tables (lookup_attempts readable f.job_id w.tables));
      owner = delete w.owner f.job_id;
    }
    else record w {
      session = append_event (settled_event now "failed" f.job_id row.job_name "dlq") s;
      tables = logged w.tables (move_to_dlq now f.job_id f.error w.tables);
      owner = delete w.owner f.job_id;
    }

unfoldable pub handle_fail : Bool → ℕ → FailMessage → World → World
handle_fail readable now f w = failed_row readable now f w (remove_inflight f.job_id w.session)
