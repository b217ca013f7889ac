-- ===== src/Lib.antt =====
-- Verification of parts of atlantis: the lexer of its DSL, the schema diff, the job queue, the log ring,
-- the tables of its sandbox, and keyset pagination.
--
-- A schema written in the DSL is read as tokens (internal/dsl/lexer.go) and resolved to an IR
-- (internal/dsl/ir.go). To apply a new schema the
-- server computes its difference from the one in force (internal/codegen/diff.go), and by the class of
-- the difference applies it at once, runs a backfill, or refuses until an operator agrees. The jobs
-- that a schema declares wait in two Postgres tables. Workers take them by the statements of
-- clients/go/jobs/sql.go: one that reads the database itself, or the dispatcher of
-- internal/server/jobsdispatcher, which sends them to remote workers, each a session. What the server logs goes to a ring of records that
-- the console polls (internal/obs/logring.go). A sandbox runs queries on tables in memory
-- (internal/runtime/sandbox/sim), whose state marks and forks capture without a copy.
--
-- Base: Go's maps, sort.Strings, integers and their printing, lists and counts of their items, and the
--   order in which `range` visits a map, which is a parameter.
-- Schema: the IR, internal/dsl/ir.go and ast.go. Schema.Predicate has CanonicalKey of
--   internal/dsl/predsql/predsql.go.
-- Diff.Change, Types, Equal, Field, Entity and Compute: internal/codegen/diff.go from its data types up
--   to ComputeDiff. The function diffX is diff_x; a function that changes a *Diff takes and returns it.
--   Diff.Changes gives the changes of each part as a list; Extend, Classes, Names, Reported, Removal,
--   Empty, Merged, Order and Storage are the proofs.
-- Queue.Table: the tables jobs and jobs_dead, migrations/infra/0006_jobs.up.sql. Queue.Claim and Settle:
--   the statements of clients/go/jobs/sql.go, the UPDATE of bindClaimToSession, and RetryDeadJob and the insertion of SubmitJob of
--   internal/server/admin/jobs.go. A statement is a function on the two tables and is one step, since
--   it is one transaction; what the database does by itself, ORDER BY and the rows that others have
--   locked, is a parameter. Queue.Steps has every statement as a step; Rows, Ids, Leases, Outcomes and
--   Sweep are the proofs.
-- Session.State and Expiry: internal/server/jobsdispatcher/session.go. A method takes the session and
--   returns it, as it does while no other method runs. Session.Calls cuts recordDispatch and
--   removeInflight where they release the lock, and lets the parts of calls come in any order.
--   Session.Maps, Invariant, Deadlines, Slots, Counter, Overlap and Alone are the proofs.
-- Dispatcher.Authz: internal/server/jobsdispatcher/authz.go. Dispatcher.Drain: of dispatcher.go, what
--   drainOnce does with one claimed row once a session is picked for it. Dispatcher.Handlers: its
--   handleComplete and handleFail. They change a World: a session, the tables, and the map of owners.
--   Dispatcher.Outcomes and Sent are the proofs.
--
-- Lexer.Token: internal/dsl/token.go. Lexer.Cursor, Scan, Next and Run: internal/dsl/lexer.go, the cursor,
--   the loops that consume bytes, the scanners by first rune, and next and Lex over the lexer's state.
--   A text is its bytes. What Go's unicode packages say of runes beyond ASCII is the parameter Unicode.
--   Lexer.Sizes, Terminates, Follows, Strings, RawSql, RawBlock, Places and Order are the proofs; RawSql has the
--   grammar of the text in a raw SQL block.
-- Ring.State: internal/obs/logring.go. The slots are a function from indices, and a poll takes the slots as
--   they are at each of its loads. Ring.Writers has the two steps of an append as a relation. Ring.Slots,
--   Turns, Window, Size and Writers are the proofs.
-- Sim.Table: internal/runtime/sandbox/sim/table.go, over a heap of row maps. Sim.World: all tables over one
--   heap, and what may be done to one of them, one operation after another. Sim.Pool: of sim/pool.go the
--   capture that a mark holds (marks.go), and its restoration. Sim.Kept, Moved, Isolation, Rows, Captures and Marks are the proofs.
-- Paging.Token and Keyset: internal/runtime/pagination.go. A predicate is built as a Fragment, which
--   Keyset prints and Paging.Order gives its meaning in SQL; protobuf, base64 and the time type are the
--   parameter Wire. Paging.Order and RoundTrip are the proofs.
--
-- The dispatcher reads the pod's clock and the database's, which Clocks keeps apart. Its steps on a row are
-- taken to run while no other call is made on the session.
--
-- Fuel is used where a loop has no list to go through. Lex has three for each byte and one, since each
-- token but the last consumes a byte, takes a pending token or captures a predicate; the loop that
-- doubles the size of a ring has 63, since an int is below 2^63; the loop of a poll has as many turns as the
-- ring has slots. They are proved enough, the last one if the head is below 2^64 - 1. Integers that
-- the code reads from unsigned literals or from the database's counters are natural numbers.
--
-- Not modelled: the parser and the lowering to the IR, the emitters of code and SQL, the caches, the
-- executor, the rest of the pool and the service of the sandbox, the entity and admin services, the other handlers and the loops
-- of the dispatcher, the direct worker, the console, and the command lines. Of the queue, LISTEN, failures
-- of the connection and the columns for progress and workflows are left out.
pub mod Base
pub mod Schema
pub mod Diff
pub mod Queue
pub mod Session
pub mod Dispatcher
pub mod Lexer
pub mod Ring
pub mod Sim
pub mod Paging
