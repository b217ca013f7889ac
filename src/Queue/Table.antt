-- ===== src/Queue/Table.antt =====
-- The tables of the job queue, migrations/infra/0006_jobs.up.sql with the columns that 0008 and 0016
-- add, as the statements of clients/go/jobs/sql.go read and write them. A nullable column is an
-- `Option`; ids are positive and times are milliseconds, both natural numbers.
use pacific_coast.Base.{◌≡◌, ℕ, String, Bool, true, false, Option, List, ◌==◌, nat_eq, count, ◌+◌}

pub data JobStatus : Type 0 where
  pending : JobStatus
  running : JobStatus
  complete : JobStatus
  failed : JobStatus

abbrev pub is_pending : JobStatus → Bool
is_pending pending = true
is_pending running = false
is_pending complete = false
is_pending failed = false

abbrev pub is_running : JobStatus → Bool
is_running pending = false
is_running running = true
is_running complete = false
is_running failed = false

pub record JobRow : Type 0 where
  pub id : ℕ
  pub job_name : String
  pub queue : String
  pub args : String
  pub status : JobStatus
  pub attempts : ℕ
  pub max_retries : ℕ
  pub timeout_ms : Option ℕ
  pub last_error : Option String
  pub last_error_at : Option ℕ
  pub claimed_by : Option String
  pub claimed_until : Option ℕ
  pub scheduled_for : ℕ
  pub started_at : Option ℕ
  pub completed_at : Option ℕ
  pub enqueued_at : ℕ
  pub submitted_by : Option String
  pub trace_ctx : Option String
  pub worker_kind : Option String
  pub worker_session_id : Option String

pub record DeadRow : Type 0 where
  pub id : ℕ
  pub job_name : String
  pub queue : String
  pub args : String
  pub attempts : ℕ
  pub max_retries : ℕ
  pub last_error : Option String
  pub last_error_at : Option ℕ
  pub moved_at : ℕ
  pub enqueued_at : ℕ
  pub submitted_by : Option String

pub record Tables : Type 0 where
  pub jobs : List JobRow
  pub dead : List DeadRow

-- How many rows of either table have the id.
abbrev pub jobs_with : ℕ → List JobRow → ℕ
jobs_with i = count (λ r. r.id == i)

abbrev pub dead_with : ℕ → List DeadRow → ℕ
dead_with i = count (λ r. r.id == i)

abbrev pub rows_with : ℕ → Tables → ℕ
rows_with i t = jobs_with i t.jobs + dead_with i t.dead

-- ORDER BY, which the database does: it returns the same rows.
pub record Planner : Type 0 where
  pub order_by : (JobRow → ℕ) → List JobRow → List JobRow
  pub order_by_count :
      (key : JobRow → ℕ) (q : JobRow → Bool) (rows : List JobRow)
      → count q (order_by key rows) ≡ count q rows
