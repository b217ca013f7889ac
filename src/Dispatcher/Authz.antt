-- ===== src/Dispatcher/Authz.antt =====
-- Who may run a job, internal/server/jobsdispatcher/authz.go. An error is told by its kind.
use mathlib.Core.List.{Memᴰ}
use pacific_coast.Base.{
  String, Bool, true, Option, none, some, List, [], ◌∷◌, ◌==◌, string_eq, ==_refl, ◌||◌, not,
  if◌then◌else◌, contains, All, ◌≡◌, refl, sym, ap, ◌∙◌, ◌↔◌, ◌⊎◌, arith, Bool-cases, inl, inr,
}
use pacific_coast.Schema.{Job, Ir, job_id}

pub data AuthzError : Type 0 where
  no_ir : AuthzError
  unknown_job : AuthzError
  not_authorized : AuthzError

abbrev pub find_job : String → List Job → Option Job
find_job id [] = none
find_job id (j ∷ jobs) = let rest = find_job id jobs in if job_id j == id then some j else rest

unfoldable pub lookup_job : Ir → String → Option Job
lookup_job ir id = find_job id ir.jobs

unfoldable pub job_visible_to : Job → String → List String → Bool
job_visible_to job caller aliases =
    job.visible_to == ""
    || job.visible_to == "*"
    || job.visible_to == caller
    || contains aliases job.visible_to

-- what CheckSingleAuthz makes of the job that it finds
abbrev pub check_found : String → List String → Option Job → Option AuthzError
check_found caller aliases none = some unknown_job
check_found caller aliases (some job) =
    if not (job_visible_to job caller aliases) then some not_authorized else none

unfoldable pub check_single_authz : String → List String → String → Option Ir → Option AuthzError
check_single_authz caller aliases name none = some no_ir
check_single_authz caller aliases name (some ir) = check_found caller aliases (lookup_job ir name)

-- what one turn of the loop of CheckWorkerAuthz makes of the job that it finds, and of the other turns
abbrev pub check_turn : String → List String → Option Job → Option AuthzError → Option AuthzError
check_turn caller aliases none rest = some unknown_job
check_turn caller aliases (some job) rest =
    if not (job_visible_to job caller aliases) then some not_authorized else rest

abbrev pub check_names : String → List String → Ir → List String → Option AuthzError
check_names caller aliases ir [] = none
check_names caller aliases ir (name ∷ names) =
    let rest = check_names caller aliases ir names in
    check_turn caller aliases (lookup_job ir name) rest

unfoldable pub check_worker_authz :
    String → List String → List String → Option Ir → Option AuthzError
check_worker_authz caller aliases names none = some no_ir
check_worker_authz caller aliases names (some ir) = check_names caller aliases ir names

-- The caller may run the job: it is visible to all, or to the caller by its name or by an alias.
abbrev pub MayRun : String → List String → Job → Type 0
MayRun caller aliases job =
    (job.visible_to ≡ "")
    ⊎ (job.visible_to ≡ "*")
    ⊎ (job.visible_to ≡ caller)
    ⊎ Memᴰ job.visible_to aliases

-- The first job of the schema with the name may be run by the caller.
abbrev pub IsAllowed : String → List String → Ir → String → Type 0
IsAllowed caller aliases ir name =
    (job : Job) × (lookup_job ir name ≡ some job) × MayRun caller aliases job

contains-Mem : (names : List String) (a : String) → contains names a ≡ true → Memᴰ a names
contains-Mem [] a h = ground arith
contains-Mem (x ∷ names) a h = elim (Bool-cases (x == a)) [
  | inl same ↦ Memᴰ.head (ground (arith, same, string_eq.decides x a))
  | inr other ↦ Memᴰ.tail (contains-Mem names a (ground (arith, other)))
]

Mem-contains : (names : List String) (a : String) → Memᴰ a names → contains names a ≡ true
Mem-contains [] a m = elim m [ ]
Mem-contains (x ∷ names) a (Memᴰ.head e) = ground (arith, e, ==_refl a)
Mem-contains (x ∷ names) a (Memᴰ.tail m) = ground (arith, Mem-contains names a m)

visible-MayRun :
    (caller : String) (aliases : List String) (job : Job)
    → job_visible_to job caller aliases ≡ true
    → MayRun caller aliases job
unfolding job_visible_to
visible-MayRun caller aliases job h =
    let v = job.visible_to in
    elim (Bool-cases (v == "")) [
      | inl e ↦ inl (ground (arith, e, string_eq.decides v ""))
      | inr a ↦ elim (Bool-cases (v == "*")) [
        | inl e ↦ inr (inl (ground (arith, e, string_eq.decides v "*")))
        | inr b ↦ elim (Bool-cases (v == caller)) [
          | inl e ↦ inr (inr (inl (ground (arith, e, string_eq.decides v caller))))
          | inr c ↦ inr (inr (inr (contains-Mem aliases v (ground (arith, a, b, c)))))
        ]
      ]
    ]

MayRun-visible :
    (caller : String) (aliases : List String) (job : Job)
    → MayRun caller aliases job
    → job_visible_to job caller aliases ≡ true
unfolding job_visible_to
MayRun-visible caller aliases job (inl e) = ground (arith, string_eq.decides job.visible_to "", e)
MayRun-visible caller aliases job (inr (inl e)) =
    ground (arith, string_eq.decides job.visible_to "*", e)
MayRun-visible caller aliases job (inr (inr (inl e))) =
    ground (arith, string_eq.decides job.visible_to caller, e)
MayRun-visible caller aliases job (inr (inr (inr m))) =
    ground (arith, Mem-contains aliases job.visible_to m)

found-IsAllowed :
    (caller : String) (aliases : List String) (ir : Ir) (name : String) (o : Option Job)
    → lookup_job ir name ≡ o
    → (check_found caller aliases o ≡ none) ↔ IsAllowed caller aliases ir name
found-IsAllowed caller aliases ir name none e =
    (λ h. ground (arith, h), λ a. ground (arith, e, a.1))
found-IsAllowed caller aliases ir name (some job) e = (
  λ h. (job, e, visible-MayRun caller aliases job (ground (arith, h))),
  λ a.
      let same : a.0 ≡ job = ground (arith, e, a.1) in
      let seen : job_visible_to job caller aliases ≡ true =
        ap (λ j. job_visible_to j caller aliases) (sym same)
        ∙ MayRun-visible caller aliases a.0 a.2 in
      ground (arith, seen),
)

single-IsAllowed :
    (caller : String) (aliases : List String) (ir : Ir) (name : String)
    → (check_single_authz caller aliases name (some ir) ≡ none) ↔ IsAllowed caller aliases ir name
unfolding check_single_authz
single-IsAllowed caller aliases ir name =
    found-IsAllowed caller aliases ir name (lookup_job ir name) refl

turn-IsAllowed :
    (caller : String) (aliases : List String) (ir : Ir) (name : String) (o : Option Job)
    (rest : Option AuthzError)
    → lookup_job ir name ≡ o
    → (check_turn caller aliases o rest ≡ none) ↔ (IsAllowed caller aliases ir name × (rest ≡ none))
turn-IsAllowed caller aliases ir name none rest e =
    (λ h. ground (arith, h), λ a. ground (arith, e, a.0.1))
turn-IsAllowed caller aliases ir name (some job) rest e =
    elim (Bool-cases (job_visible_to job caller aliases)) [
      | inl seen ↦ (
        λ h. ((job, e, visible-MayRun caller aliases job seen), ground (arith, h, seen)),
        λ a. ground (arith, a.1, seen),
      )
      | inr hidden ↦ (
        λ h. ground (arith, h, hidden),
        λ a.
            let same : a.0.0 ≡ job = ground (arith, e, a.0.1) in
            let seen : job_visible_to job caller aliases ≡ true =
              ap (λ j. job_visible_to j caller aliases) (sym same)
              ∙ MayRun-visible caller aliases a.0.0 a.0.2 in
            ground (arith, seen, hidden),
      )
    ]

names-IsAllowed :
    (caller : String) (aliases names : List String) (ir : Ir)
    → (check_names caller aliases ir names ≡ none) ↔ All (IsAllowed caller aliases ir) names
names-IsAllowed caller aliases [] ir = (λ h. tt, λ h. refl)
names-IsAllowed caller aliases (name ∷ names) ir =
    let rest = names-IsAllowed caller aliases names ir in
    let turn =
      turn-IsAllowed caller aliases ir name (lookup_job ir name)
        (check_names caller aliases ir names) refl in
    (λ h. let a = turn.0 h in (a.0, rest.0 a.1), λ a. turn.1 (a.0, rest.1 a.1))

pub check_worker_authz-check_single_authz :
    (caller : String) (aliases names : List String) (name : String) (ir : Ir)
    → ((check_single_authz caller aliases name (some ir) ≡ none) ↔ IsAllowed caller aliases ir name)
      × ((check_worker_authz caller aliases names (some ir) ≡ none)
          ↔ All (IsAllowed caller aliases ir) names)
unfolding check_worker_authz
check_worker_authz-check_single_authz caller aliases names name ir =
    (single-IsAllowed caller aliases ir name, names-IsAllowed caller aliases names ir)
