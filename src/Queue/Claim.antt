-- ===== src/Queue/Claim.antt =====
-- The statements of clients/go/jobs/sql.go that take and keep a lease. The rows that another
-- transaction has locked, which SKIP LOCKED passes over, are a parameter.
use pacific_coast.Base.{
  ℕ, String, Bool, true, false, Option, none, some, List, [], ◌∷◌, ◌==◌, nat_eq, string_eq, ◌&&◌,
  ◌||◌, not, ltb, leb, max, keep, take, map, if◌then◌else◌, ◌+◌, contains,
}
use pacific_coast.Queue.Table.{running, is_pending, is_running, JobRow, Tables, Planner}

-- UPDATE ... SET ... WHERE
abbrev pub update_where : (JobRow → Bool) → (JobRow → JobRow) → List JobRow → List JobRow
update_where p f = map (λ r. if p r then f r else r)

-- claimed_until IS NULL OR claimed_until < now()
abbrev pub lease_over : ℕ → Option ℕ → Bool
lease_over now none = true
lease_over now (some t) = ltb t now

-- job_name = ANY($7), a condition of the statement only if there are names
abbrev pub name_allowed : List String → String → Bool
name_allowed [] name = true
name_allowed (n ∷ names) name = contains (n ∷ names) name

-- attempts < GREATEST(max_retries, 1)
abbrev pub has_budget : JobRow → Bool
has_budget r = ltb r.attempts (max r.max_retries 1)

-- the WHERE of the CTE `ready`
unfoldable pub claimable : ℕ → String → List String → JobRow → Bool
claimable now queue names r =
    r.queue == queue
    && leb r.scheduled_for now
    && has_budget r
    && (is_pending r.status || (is_running r.status && lease_over now r.claimed_until))
    && name_allowed names r.job_name

-- NULLIF($6, '')
abbrev pub null_if_empty : String → Option String
null_if_empty s = if s == "" then none else some s

-- COALESCE(j.started_at, now())
abbrev pub coalesce_now : ℕ → Option ℕ → Option ℕ
coalesce_now now none = some now
coalesce_now now (some t) = some t

-- the SET of the claim
unfoldable pub claim_row : ℕ → String → ℕ → String → String → JobRow → JobRow
claim_row now claimed_by lease_until worker_kind session r = record r {
  status = running;
  attempts = r.attempts + 1;
  claimed_by = some claimed_by;
  claimed_until = some lease_until;
  started_at = coalesce_now now r.started_at;
  worker_kind = some worker_kind;
  worker_session_id = null_if_empty session;
}

pub record ClaimedRow : Type 0 where
  pub id : ℕ
  pub job_name : String
  pub args : String
  pub attempts : ℕ
  pub max_retries : ℕ
  pub timeout_ms : ℕ
  pub enqueued_at : ℕ
  pub scheduled_for : ℕ
  pub trace_ctx : Option String

-- the RETURNING of the claim, with COALESCE(j.timeout_ms, 0)
abbrev pub claimed_row : JobRow → ClaimedRow
claimed_row r = record {
  id = r.id;
  job_name = r.job_name;
  args = r.args;
  attempts = r.attempts;
  max_retries = r.max_retries;
  timeout_ms = elim r.timeout_ms [ none ↦ 0 | some t ↦ t ];
  enqueued_at = r.enqueued_at;
  scheduled_for = r.scheduled_for;
  trace_ctx = r.trace_ctx;
}

module _ (db : Planner) where
  -- the CTE `ready`: ORDER BY, SKIP LOCKED and LIMIT
  unfoldable pub ready : (ℕ → Bool) → ℕ → String → List String → ℕ → List JobRow → List ℕ
  ready locked now queue names limit jobs =
      map (λ r. r.id)
        (take limit (
          db.order_by (λ r. r.scheduled_for)
            (keep (λ r. claimable now queue names r && not (locked r.id)) jobs)))

  -- the rows are returned in the order of the table; the database leaves their order open
  unfoldable pub claim_rows :
      (ℕ → Bool)
      → ℕ
      → String
      → List String
      → ℕ
      → String
      → ℕ
      → String
      → String
      → Tables
      → Tables × List ClaimedRow
  claim_rows locked now queue names limit claimed_by lease_until worker_kind session t =
      let ids = ready locked now queue names limit t.jobs in
      let claim = claim_row now claimed_by lease_until worker_kind session in
      (
        record t { jobs = update_where (λ r. contains ids r.id) claim t.jobs },
        map (λ r. claimed_row (claim r)) (keep (λ r. contains ids r.id) t.jobs),
      )

-- the SET of bindClaimToSession of internal/server/jobsdispatcher/dispatcher.go
abbrev pub bound_row : String → String → JobRow → JobRow
bound_row claimed_by session r = record r {
  claimed_by = some claimed_by;
  worker_session_id = some session;
}

-- its UPDATE, which asks only for the id
unfoldable pub bind_claim : ℕ → String → String → Tables → Tables
bind_claim id claimed_by session t = record t {
  jobs = update_where (λ r. r.id == id) (bound_row claimed_by session) t.jobs;
}

-- claimed_by = $3, never true of NULL
abbrev pub is_holder : String → Option String → Bool
is_holder who none = false
is_holder who (some c) = c == who

abbrev pub extended_row : ℕ → JobRow → JobRow
extended_row until r = record r { claimed_until = some until }

-- with no ids the source does not send the statement, which would change nothing
unfoldable pub extend_lease : ℕ → List ℕ → String → ℕ → Tables → Tables
extend_lease now ids claimed_by extension t = record t {
  jobs =
      update_where (λ r. contains ids r.id && is_holder claimed_by r.claimed_by)
        (extended_row (now + extension)) t.jobs;
}
