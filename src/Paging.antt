-- ===== src/Paging.antt =====
-- Keyset pagination, internal/runtime/pagination.go: page tokens, and the predicate that goes on behind
-- a token's row.
pub mod Keyset
pub mod Order
pub mod Token
pub mod RoundTrip
pub mod Tests
