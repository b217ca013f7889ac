-- ===== src/Lexer.antt =====
-- The lexer of the DSL, internal/dsl/lexer.go.
pub mod Token
pub mod Cursor
pub mod Scan
pub mod Next
pub mod Run
pub mod Sizes
pub mod Terminates
pub mod Strings
pub mod RawSql
pub mod RawBlock
pub mod Places
pub mod Follows
pub mod Order
pub mod Tests
