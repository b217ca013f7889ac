-- ===== src/Session/Deadlines.antt =====
-- Which rows in flight the two sweeps revoke.
use pacific_coast.Base.{
  ℕ, String, Bool, true, false, Option, none, some, List, [], ◌∷◌, nat_eq, string_eq, ==_refl, ◌+◌,
  contains, arith, Bool-cases, inl, inr, ◌≡◌, ◌≢◌, ◌↔◌, refl, sym, ap, ◌∙◌, ◌<◌, get, put, has,
  get-put,
}
use pacific_coast.Session.State.{InflightRow, Session, ack_found, record_ack}
use pacific_coast.Session.Expiry.{
  ack_expired, ack_ids, find_expired_acks, expiry_reason, lease_ids, find_expired_leases,
}
use pacific_coast.Session.Invariant.{IsSound}
use pacific_coast.Session.Maps.{unique_keys, put-unique_keys}

-- whether an id that is in flight, or not, is found by findExpiredAcks
abbrev pub acks_of : ℕ → Option InflightRow → Bool
acks_of now none = false
acks_of now (some row) = ack_expired now row

abbrev reason_of : ℕ → ℕ → ℕ → Option InflightRow → Option String
reason_of now lease_grace timeout_grace none = none
reason_of now lease_grace timeout_grace (some row) = expiry_reason now lease_grace timeout_grace row

ack_ids-absent :
    (now : ℕ) (m : List (ℕ × InflightRow)) (i : ℕ)
    → has m i ≡ false
    → contains (ack_ids now m) i ≡ false
ack_ids-absent now [] i h = refl
ack_ids-absent now ((k, row) ∷ m) i h = ground (arith, ack_ids-absent now m i)

pub ack_ids-get :
    (now : ℕ) (m : List (ℕ × InflightRow)) (i : ℕ)
    → unique_keys m ≡ true
    → contains (ack_ids now m) i ≡ acks_of now (get m i)
ack_ids-get now [] i u = refl
ack_ids-get now ((k, row) ∷ m) i u =
    ground (arith, ack_ids-get now m i, ack_ids-absent now m i, nat_eq.decides k i)

lease_ids-absent :
    (now lease_grace timeout_grace : ℕ) (m : List (ℕ × InflightRow)) (i : ℕ)
    → has m i ≡ false
    → get (lease_ids now lease_grace timeout_grace m) i ≡ none
lease_ids-absent now lg tg [] i h = refl
lease_ids-absent now lg tg ((k, row) ∷ m) i h = ground (arith, lease_ids-absent now lg tg m i)

lease_ids-get :
    (now lease_grace timeout_grace : ℕ) (m : List (ℕ × InflightRow)) (i : ℕ)
    → unique_keys m ≡ true
    → get (lease_ids now lease_grace timeout_grace m) i
      ≡ reason_of now lease_grace timeout_grace (get m i)
lease_ids-get now lg tg [] i u = refl
lease_ids-get now lg tg ((k, row) ∷ m) i u =
    ground (arith, lease_ids-get now lg tg m i, lease_ids-absent now lg tg m i, nat_eq.decides k i)

-- In a sound session, no row is found both by findExpiredAcks and by findExpiredLeases, so one sweep
-- of both revokes it at most once.
pub find_expired_leases-find_expired_acks :
    (now lease_grace timeout_grace id : ℕ) (s : Session)
    → IsSound s
    → contains (find_expired_acks now s) id ≡ true
    → get (find_expired_leases now lease_grace timeout_grace s) id ≡ none
unfolding find_expired_acks find_expired_leases
find_expired_leases-find_expired_acks now lg tg id s i h =
    ground (arith, ack_ids-get now s.inflight id i.2, lease_ids-get now lg tg s.inflight id i.2)

reasons-differ : ◌≢◌ {A = Option String} (some "timeout_exceeded") (some "lease_expired")
reasons-differ e = cc

-- In a sound session, findExpiredLeases gives "lease_expired" for exactly the acked rows whose
-- deadline is more than the grace ago.
pub find_expired_leases-lease_expired :
    (now lease_grace timeout_grace id : ℕ) (s : Session)
    → IsSound s
    → (get (find_expired_leases now lease_grace timeout_grace s) id ≡ some "lease_expired") ↔ (
        (row : InflightRow) × (get s.inflight id ≡ some row)
        × (row.ack_received ≡ true)
        × (row.lease_until + lease_grace < now))
unfolding find_expired_leases
find_expired_leases-lease_expired now lg tg id s i = (
  λ h. found (get s.inflight id) refl (sym (lease_ids-get now lg tg s.inflight id i.2) ∙ h),
  λ h.
      lease_ids-get now lg tg s.inflight id i.2
      ∙ ap (reason_of now lg tg) h.1
      ∙ ground (arith, h.2, h.3),
)
  where
    found :
        (o : Option InflightRow)
        → get s.inflight id ≡ o
        → reason_of now lg tg o ≡ some "lease_expired"
        → (row : InflightRow) × (get s.inflight id ≡ some row)
          × (row.ack_received ≡ true)
          × (row.lease_until + lg < now)
    found none e h = cc
    found (some row) e h = (row, e, acked row h, late row h)
      where
        acked :
            (row : InflightRow)
            → expiry_reason now lg tg row ≡ some "lease_expired"
            → row.ack_received ≡ true
        acked row h = ground arith

        late :
            (row : InflightRow)
            → expiry_reason now lg tg row ≡ some "lease_expired"
            → row.lease_until + lg < now
        late row h = ground (arith, reasons-differ)

-- In a sound session, right after the ack of a row is recorded, findExpiredAcks does not find the row,
-- whatever the time.
pub find_expired_acks-record_ack :
    (now later id : ℕ) (s : Session)
    → IsSound s
    → contains (find_expired_acks later (record_ack now id s).1) id ≡ false
unfolding find_expired_acks record_ack
find_expired_acks-record_ack now later id s i = go (get s.inflight id) refl
  where
    go :
        (o : Option InflightRow)
        → get s.inflight id ≡ o
        → contains (ack_ids later (ack_found now id s o).1.inflight) id ≡ false
    go none e = ack_ids-absent later s.inflight id (ground (arith, e))
    go (some row) e = elim (Bool-cases row.ack_received) [
      | inl a ↦
          rw a (ack_ids-get later s.inflight id i.2 ∙ ap (acks_of later) e ∙ ground (arith, a))
      | inr a ↦ rw a (
          let m = put s.inflight id (record row { ack_received = true }) in
          ack_ids-get later m id (put-unique_keys s.inflight id _ i.2)
          ∙ ap (acks_of later) (get-put s.inflight id id _)
          ∙ ground (arith, ==_refl id))
    ]
