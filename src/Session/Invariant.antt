-- ===== src/Session/Invariant.antt =====
-- What every call on a session keeps, if no other call runs at the same time.
use mathlib.Core.Path.{subst}
use pacific_coast.Base.{
  ℕ, String, Bool, true, false, Option, none, some, List, [], ◌∷◌, ◌++◌, nat_eq, string_eq, ==_refl,
  ltb, if◌then◌else◌, ◌-◌, length, length-append, arith, Bool-cases, inl, inr, ◌≡◌, refl, sym, ap,
  pos, ◌≤◌, get, put, has, get-put,
}
use pacific_coast.Session.State.{
  Dispatch, dispatch, OpenSession, InflightRow, SessionEvent, Session, clamp_in_flight, outbox_cap,
  session_event_cap, new_session, drop_first, append_event, inflight_row, track_dispatch, untrack,
  count_up, count_down, dispatched_event, record_dispatch, ack_found, record_ack, remove_found,
  remove_inflight,
}
use pacific_coast.Session.Maps.{
  length-put, length-delete, IsFiled, put-IsFiled, delete-IsFiled, get-IsFiled, unique_keys,
  put-unique_keys, delete-unique_keys,
}

abbrev pub IsSound : Session → Type 0
IsSound s =
    (s.inflight_counter ≡ pos (length s.inflight))
    × IsFiled s.inflight
    × (unique_keys s.inflight ≡ true)
    × (length s.events ≤ session_event_cap)
    × (length s.outbox ≤ outbox_cap s)
    × (1 ≤ s.max_in_flight)
    × (s.max_in_flight ≤ 256)

pub length-drop_first {ℓ} : {A : Type ℓ} (xs : List A) → length (drop_first xs) ≡ length xs - 1
length-drop_first [] = refl
length-drop_first (x ∷ xs) = omega arith

pub log-IsSound : (e : SessionEvent) (s : Session) → IsSound s → IsSound (append_event e s)
unfolding append_event
log-IsSound e s i = ground (
  arith,
  length-drop_first s.events,
  length-append s.events (e ∷ []),
  length-append (drop_first s.events) (e ∷ []),
)

track-IsSound :
    (d : Dispatch) (now lease_until ack_deadline : ℕ) (s : Session)
    → IsSound s
    → IsSound (track_dispatch d now lease_until ack_deadline s)
unfolding track_dispatch
track-IsSound d now lease_until ack_deadline s i = ground (
  arith,
  length-put s.inflight d.job_id (inflight_row d now lease_until ack_deadline),
  put-IsFiled s.inflight d.job_id (inflight_row d now lease_until ack_deadline) refl i.1,
  put-unique_keys s.inflight d.job_id (inflight_row d now lease_until ack_deadline) i.2,
  ap count_up i.0,
)

untrack-IsSound :
    (id : ℕ) (s : Session) → IsSound s → has s.inflight id ≡ true → IsSound (untrack id s)
untrack-IsSound id s i h = ground (
  arith,
  length-delete s.inflight id,
  delete-IsFiled s.inflight id i.1,
  delete-unique_keys s.inflight id i.2,
  ap count_down i.0,
)

has-put : (m : List (ℕ × InflightRow)) (k : ℕ) (v : InflightRow) → has (put m k v) k ≡ true
has-put m k v = ground (arith, get-put m k k v, ==_refl k)

sent-IsSound :
    (d : Dispatch) (s : Session)
    → IsSound s
    → ltb (length s.outbox) (outbox_cap s) ≡ true
    → IsSound (record s { outbox = s.outbox ++ dispatch d ∷ [] })
sent-IsSound d s i h = ground (arith, length-append s.outbox (dispatch d ∷ []))

module _ (d : Dispatch) (now lease_until ack_deadline : ℕ) (s : Session) where
  -- recordDispatch with room in the outbox, and without room for an old and for a new id
  pub record_dispatch-room :
      ltb (length s.outbox) (outbox_cap s) ≡ true
      → record_dispatch d now lease_until ack_deadline s ≡ (
        true,
        append_event
            (dispatched_event d now)
            (record (track_dispatch d now lease_until ack_deadline s) {
              outbox = s.outbox ++ dispatch d ∷ [];
            }),
      )
  unfolding record_dispatch
  record_dispatch-room h = rw h refl

  pub record_dispatch-old :
      ltb (length s.outbox) (outbox_cap s) ≡ false
      → has s.inflight d.job_id ≡ true
      → record_dispatch d now lease_until ack_deadline s
        ≡ (false, track_dispatch d now lease_until ack_deadline s)
  unfolding record_dispatch
  record_dispatch-old h k = rw h (if-true _ _ _ k)
    where
      if-true : (b : Bool) (x y : Bool × Session) → b ≡ true → (if b then x else y) ≡ x
      if-true b x y e = rw e refl

  pub record_dispatch-new :
      ltb (length s.outbox) (outbox_cap s) ≡ false
      → has s.inflight d.job_id ≡ false
      → record_dispatch d now lease_until ack_deadline s
        ≡ (false, untrack d.job_id (track_dispatch d now lease_until ack_deadline s))
  unfolding record_dispatch
  record_dispatch-new h k = rw h (if-false _ _ _ k)
    where
      if-false : (b : Bool) (x y : Bool × Session) → b ≡ false → (if b then x else y) ≡ y
      if-false b x y e = rw e refl

  pub dispatch-IsSound : IsSound s → IsSound (record_dispatch d now lease_until ack_deadline s).1
  unfolding track_dispatch
  dispatch-IsSound i =
      let t = track-IsSound d now lease_until ack_deadline s i in
      elim (Bool-cases (ltb (length s.outbox) (outbox_cap s))) [
        | inl room ↦
            subst (λ p. IsSound p.1) (sym (record_dispatch-room room))
              (log-IsSound (dispatched_event d now) _
                (sent-IsSound d (track_dispatch d now lease_until ack_deadline s) t room))
        | inr full ↦ elim (Bool-cases (has s.inflight d.job_id)) [
          | inl old ↦ subst (λ p. IsSound p.1) (sym (record_dispatch-old full old)) t
          | inr new ↦
              subst (λ p. IsSound p.1) (sym (record_dispatch-new full new))
                (untrack-IsSound d.job_id (track_dispatch d now lease_until ack_deadline s) t
                  (has-put s.inflight d.job_id (inflight_row d now lease_until ack_deadline)))
        ]
      ]

pub acked-IsSound :
    (id : ℕ) (row : InflightRow) (s : Session)
    → get s.inflight id ≡ some row
    → IsSound s
    → IsSound (record s { inflight = put s.inflight id (record row { ack_received = true }) })
acked-IsSound id row s e i =
    let new : InflightRow = record row { ack_received = true } in
    ground (
      arith,
      length-put s.inflight id new,
      put-IsFiled s.inflight id new (get-IsFiled s.inflight id row i.1 e) i.1,
      put-unique_keys s.inflight id new i.2,
    )

ack_found-IsSound :
    (now id : ℕ) (s : Session) (o : Option InflightRow)
    → get s.inflight id ≡ o
    → IsSound s
    → IsSound (ack_found now id s o).1
ack_found-IsSound now id s none e i = i
ack_found-IsSound now id s (some row) e i = elim (Bool-cases row.ack_received) [
  | inl a ↦ rw a i
  | inr a ↦ rw a (acked-IsSound id row s e i)
]

remove_found-IsSound :
    (id : ℕ) (s : Session) (o : Option InflightRow)
    → get s.inflight id ≡ o
    → IsSound s
    → IsSound (remove_found id s o).1
remove_found-IsSound id s none e i = i
remove_found-IsSound id s (some row) e i = untrack-IsSound id s i (ground (arith, e))

pub ack-IsSound : (now id : ℕ) (s : Session) → IsSound s → IsSound (record_ack now id s).1
unfolding record_ack
ack-IsSound now id s = ack_found-IsSound now id s (get s.inflight id) refl

pub remove-IsSound : (id : ℕ) (s : Session) → IsSound s → IsSound (remove_inflight id s).1
unfolding remove_inflight
remove-IsSound id s = remove_found-IsSound id s (get s.inflight id) refl

pub new-IsSound :
    (id : String) (now : ℕ) (o : OpenSession) (caller : String) (aliases : List String)
    (heartbeats : List (String × ℕ))
    → IsSound (new_session id now o caller aliases heartbeats)
unfolding new_session clamp_in_flight
new-IsSound id now o caller aliases heartbeats = ground arith
