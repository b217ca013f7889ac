-- ===== src/Session/Expiry.antt =====
-- The deadlines of rows in flight: findExpiredAcks and findExpiredLeases of
-- internal/server/jobsdispatcher/session.go, and the heartbeat of dispatcher.go that moves them.
use pacific_coast.Base.{
  ℕ, String, Bool, Option, none, some, List, [], ◌∷◌, nat_eq, ◌&&◌, not, ltb, if◌then◌else◌, ◌+◌,
}
use pacific_coast.Session.State.{InflightRow, Session}

-- one turn of the loop of findExpiredAcks
abbrev pub ack_expired : ℕ → InflightRow → Bool
ack_expired now row = not row.ack_received && ltb row.ack_by now

abbrev pub ack_ids : ℕ → List (ℕ × InflightRow) → List ℕ
ack_ids now [] = []
ack_ids now ((id, row) ∷ m) =
    let rest = ack_ids now m in if ack_expired now row then id ∷ rest else rest

-- the order of a range over the map is open; here it is the order of the list
unfoldable pub find_expired_acks : ℕ → Session → List ℕ
find_expired_acks now s = ack_ids now s.inflight

-- why a row is revoked, one turn of the loop of findExpiredLeases
abbrev pub expiry_reason : ℕ → ℕ → ℕ → InflightRow → Option String
expiry_reason now lease_grace timeout_grace row =
    if not row.ack_received
    then none
    else if ltb (row.lease_until + lease_grace) now
    then some "lease_expired"
    else if ltb 0 row.timeout_ms
    then (if ltb (row.dispatched_at + (row.timeout_ms + timeout_grace)) now
        then some "timeout_exceeded"
        else none)
    else none

abbrev pub lease_ids : ℕ → ℕ → ℕ → List (ℕ × InflightRow) → List (ℕ × String)
lease_ids now lease_grace timeout_grace [] = []
lease_ids now lease_grace timeout_grace ((id, row) ∷ m) =
    let rest = lease_ids now lease_grace timeout_grace m in
    elim (expiry_reason now lease_grace timeout_grace row) [
      | none ↦ rest
      | some reason ↦ (id, reason) ∷ rest
    ]

unfoldable pub find_expired_leases : ℕ → ℕ → ℕ → Session → List (ℕ × String)
find_expired_leases now lease_grace timeout_grace s =
    lease_ids now lease_grace timeout_grace s.inflight
