-- ===== src/Lib.antt =====
-- The billing core of the panel: what its Go packages under internal/ compute, and why it is right.
--
-- How the program works. Nodes report traffic; `internal/domain/traffic.go` checks a report and
-- turns it into billed bytes. The Flusher bills them against the user's ladder of subscriptions in
-- `internal/metering/ladder.go`, which splits the amount by `internal/domain/quota.go` in deduction
-- order, writes ledger rows, and moves the counters of the subscriptions whose current period the
-- bucket belongs to (`internal/domain/reset.go`). Orders follow the state machine of
-- `internal/domain/order.go`, a change of plan is priced by `internal/domain/plan.go` over the periods
-- of `internal/domain/period.go`, and balances are kept by `internal/domain/money.go`. Admin actions
-- publish on the bus of `internal/events/bus.go`, whose subscribers update ladders, nodes and
-- caches. Subscription responses are assembled by `internal/subplane/ir.go` from the nodes that the
-- user's groups and the client's dialect (`internal/subplane/capability.go`) admit; which client it
-- is, `internal/subplane/detect.go` reads off the request. API responses are written by
-- `internal/platform/httpx/json.go`, which encodes a response before it sends any of it, and
-- credentials are wrapped by `internal/platform/secret/secret.go`.
--
-- Which file models which part.
--   Base        shared names: Booleans, lists, integers and int64 words, association lists for Go
--               maps, the stable sort, string comparison, texts as bytes
--   Time        instants of package time, as nanoseconds since the zero time, and its calendar
--   Domain/Traffic, Money, Order, Quota, Reset, Period, Plan
--               the files of internal/domain of those names: one definition per function, under
--               its name in snake case
--   Metering/Ladder
--               ladder.go: `QuotaLadder` is the map from users to subscriptions; each method takes
--               it and returns the new one beside its result
--   Metering/Memory
--               ladder.go again, over a memory of slices and timestamps that it shares with its
--               callers; what they and it may do, in any order, is the relation `Trace`
--   Metering/Reports
--               the check and the arithmetic of traffic.go in front of the ladder's `Attribute`
--   Subplane/Client, Detect, Capability, Ir
--               the versions and the detection of detect.go (a scan by index is a split of the
--               string), capability.go, ir.go
--   Events/Bus  bus.go: the registry, `Publish` as a walk over the subscribers that threads the
--               world they act on, and `VerifyWiring`; in Flights, `Publish` as a relation of small
--               steps, several calls of it at once and registrations between any two steps. The
--               `Error` method of a handler's error, which `Publish` calls, may panic
--   Platform/Secret, Httpx
--               secret.go, with a heap of boxes that is passed along, and json.go, over any writer
-- The modules below each of these hold its laws, named for what they prove, and its runs (Tests).
--
-- Conventions. An int64 is an integer, and every operation on one wraps as the machine does
-- (Base/Word). A string that the program compares with constants is a data type with one
-- constructor for all other strings; where it compares arbitrary strings it is a string. A nil
-- pointer is `none`. A Go map is an association list or a function, and iteration over one, whose
-- order Go leaves open, is in order of insertion. Slices and pointers are values, but for
-- those of secrets (Platform/Secret) and of the ladder in Metering/Memory, where an address is a
-- number and a fresh one is the next. A method that holds the lock for its whole body is one step,
-- so concurrent callers are sequences of steps. Loops are recursion on the list that the loop
-- walks. Two functions count fuel: the search for a word, index by index as it is written, which is
-- given one round more than the text has bytes (Subplane/Detect/NeedleTermination), and the decimal
-- print that the round trip of versions compares with, whose fuel n + 1 exceeds the number of its
-- digits (Subplane/Detect/Digits).
--
-- Not modelled: the database and its migrations, scripts, and what only formats a text (the decimal
-- print of an amount, the words of an error). Handlers of the bus, the settings of a
-- node, the payload of an event, the calendar and the time zones, Unicode's lower case, the HTTP
-- writer and the JSON coder are parameters; what a theorem relies on in them is a named record of
-- their documented behaviour (Time/Gregorian, Domain/Reset/Calendar, Platform/Httpx/Answers and Refusals), which a
-- concrete instance is shown to have.
pub mod Base
pub mod Time
pub mod Domain
pub mod Metering
pub mod Subplane
pub mod Platform
pub mod Events
