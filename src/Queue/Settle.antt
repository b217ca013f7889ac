-- ===== src/Queue/Settle.antt =====
-- The statements of clients/go/jobs/sql.go that settle a row, and RetryDeadJob and the insertion of
-- SubmitJob of internal/server/admin/jobs.go. A statement that breaks a primary key fails, and its
-- transaction is rolled back: `none`.
use pacific_coast.Base.{
  ℕ, String, Bool, false, Option, none, some, List, [], ◌∷◌, ◌++◌, ◌==◌, nat_eq, string_eq, ◌&&◌,
  ◌||◌, not, ltb, leb, keep, take, map, if◌then◌else◌, ◌+◌, length, cat, contains,
}
use pacific_coast.Queue.Table.{
  pending, complete, is_pending, is_running, JobRow, DeadRow, Tables, Planner, jobs_with, dead_with,
}
use pacific_coast.Queue.Claim.{update_where, has_budget, is_holder}

abbrev pub completed_row : ℕ → JobRow → JobRow
completed_row now r = record r {
  status = complete;
  completed_at = some now;
  claimed_by = none;
  claimed_until = none;
  worker_session_id = none;
}

unfoldable pub mark_complete : ℕ → ℕ → Tables → Tables
mark_complete now id t = record t {
  jobs = update_where (λ r. r.id == id) (completed_row now) t.jobs;
}

-- the SET by which a row goes back to pending with an error text
abbrev pub back_to_pending : ℕ → String → JobRow → JobRow
back_to_pending now msg r = record r {
  status = pending;
  last_error = some msg;
  last_error_at = some now;
  claimed_by = none;
  claimed_until = none;
  worker_session_id = none;
}

-- the SELECT of the columns of jobs_dead; moved_at has the default now()
unfoldable pub dead_row : ℕ → String → JobRow → DeadRow
dead_row now msg r = record {
  id = r.id;
  job_name = r.job_name;
  queue = r.queue;
  args = r.args;
  attempts = r.attempts;
  max_retries = r.max_retries;
  last_error = some msg;
  last_error_at = some now;
  moved_at = now;
  enqueued_at = r.enqueued_at;
  submitted_by = r.submitted_by;
}

-- Some row to be inserted has an id that stands in the table already.
abbrev pub key_taken : List DeadRow → List JobRow → Bool
key_taken dead [] = false
key_taken dead (r ∷ rows) = not (dead_with r.id dead == 0) || key_taken dead rows

-- INSERT INTO jobs_dead SELECT ... WHERE p, then DELETE FROM jobs WHERE p
unfoldable pub move_where : (JobRow → Bool) → ℕ → String → Tables → Option Tables
move_where p now msg t =
    let rows = keep p t.jobs in
    if key_taken t.dead rows
    then none
    else some (record {
      jobs = keep (λ r. not (p r)) t.jobs;
      dead = t.dead ++ map (dead_row now msg) rows;
    })

unfoldable pub move_to_dlq : ℕ → ℕ → String → Tables → Option Tables
unfolding move_where
move_to_dlq now id msg t = move_where (λ r. r.id == id) now msg t

unfoldable pub report_failure : ℕ → ℕ → ℕ → ℕ → String → Tables → Option Tables
report_failure now id attempts max_retries msg t =
    if leb max_retries attempts
    then move_to_dlq now id msg t
    else some (record t { jobs = update_where (λ r. r.id == id) (back_to_pending now msg) t.jobs })

-- claimed_until < now() - interval '5 minutes', which is not true of NULL
abbrev pub long_over : ℕ → Option ℕ → Bool
long_over now none = false
long_over now (some t) = ltb (t + 300000) now

-- the WHERE of the CTE `exhausted`
unfoldable pub exhausted : ℕ → String → JobRow → Bool
exhausted now queue r =
    r.queue == queue
    && not (has_budget r)
    && (is_pending r.status || (is_running r.status && long_over now r.claimed_until))

module _ (db : Planner) where
  -- the CTE `exhausted`: ORDER BY id, SKIP LOCKED and LIMIT
  unfoldable pub exhausted_ids : (ℕ → Bool) → ℕ → String → ℕ → List JobRow → List ℕ
  exhausted_ids locked now queue limit jobs =
      map (λ r. r.id)
        (take limit
          (db.order_by (λ r. r.id) (keep (λ r. exhausted now queue r && not (locked r.id)) jobs)))

  unfoldable pub sweep_exhausted_to_dlq : (ℕ → Bool) → ℕ → String → ℕ → Tables → Option (Tables × ℕ)
  sweep_exhausted_to_dlq locked now queue limit t =
      let ids = exhausted_ids locked now queue limit t.jobs in
      elim (move_where (λ r. contains ids r.id) now "retries exhausted (swept)" t) [
        | none ↦ none
        | some u ↦ some (u, length (keep (λ r. contains ids r.id) t.jobs))
      ]

unfoldable pub release_row : ℕ → ℕ → String → String → Tables → Tables
release_row now id claimed_by reason t = record t {
  jobs =
      update_where (λ r. r.id == id && is_holder claimed_by r.claimed_by)
        (back_to_pending now (cat "released:" reason)) t.jobs;
}

-- the row that SubmitJob inserts, with the id that the sequence of the table gives
unfoldable pub submitted_row :
    ℕ → ℕ → String → String → String → ℕ → Option ℕ → Option ℕ → String → Option String → JobRow
submitted_row now id name queue args max_retries timeout scheduled submitted_by trace = record {
  id = id;
  job_name = name;
  queue = queue;
  args = args;
  status = pending;
  attempts = 0;
  max_retries = max_retries;
  timeout_ms = timeout;
  last_error = none;
  last_error_at = none;
  claimed_by = none;
  claimed_until = none;
  scheduled_for = elim scheduled [ none ↦ now | some s ↦ s ];
  started_at = none;
  completed_at = none;
  enqueued_at = now;
  submitted_by = some submitted_by;
  trace_ctx = trace;
  worker_kind = none;
  worker_session_id = none;
}

-- the row that RetryDeadJob inserts; the columns that it does not name have their defaults
unfoldable pub retried_row : ℕ → DeadRow → JobRow
retried_row now r = record {
  id = r.id;
  job_name = r.job_name;
  queue = r.queue;
  args = r.args;
  status = pending;
  attempts = 0;
  max_retries = r.max_retries;
  timeout_ms = none;
  last_error = none;
  last_error_at = none;
  claimed_by = none;
  claimed_until = none;
  scheduled_for = now;
  started_at = none;
  completed_at = none;
  enqueued_at = r.enqueued_at;
  submitted_by = r.submitted_by;
  trace_ctx = none;
  worker_kind = none;
  worker_session_id = none;
}

abbrev pub job_taken : List JobRow → List DeadRow → Bool
job_taken jobs [] = false
job_taken jobs (r ∷ rows) = not (jobs_with r.id jobs == 0) || job_taken jobs rows

pub data RetryError : Type 0 where
  disabled : RetryError
  reinsert_failed : RetryError
  not_found : RetryError

pub data RetryResult : Type 0 where
  refused : RetryError → RetryResult
  retried : Tables → RetryResult

unfoldable pub retry_dead_job : Bool → ℕ → ℕ → Tables → RetryResult
retry_dead_job allow_apply_mutation now id t =
    let rows = keep (λ r. r.id == id) t.dead in
    if not allow_apply_mutation
    then refused disabled
    else if job_taken t.jobs rows
    then refused reinsert_failed
    else if length rows == 0
    then refused not_found
    else retried (record {
      jobs = t.jobs ++ map (retried_row now) rows;
      dead = keep (λ r. not (r.id == id)) t.dead;
    })
