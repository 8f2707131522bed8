-- ===== src/Lib.antt =====
-- The trading core of this repository: the crates under rust/crates that hold its own rules, without
-- the processes, sockets and databases around them.
--
-- A strategy (rust/crates/pg-strategy/src/lib.rs) turns a signal into an order intent. The risk checks
-- (pg-risk/src/lib.rs) let a signal or an intent through. An accepted intent becomes an order record
-- (pg-oms/src/lib.rs), which follows what the venue reports of it; the fills go back to the strategy.
-- Reconciliation (pg-reconcile/src/lib.rs) compares the records with the venue's snapshots
-- (pg-execution/src/lib.rs) and holds the assets on which they disagree. The orchestrator
-- (pg-orchestrator/src/lib.rs) joins them: it journals an order before it hands it to a venue, settles
-- what the venue answers, and runs the recovery and the reconciliation. A venue is an adapter: the
-- simulated one (pg-execution/src/shadow.rs), or a composite of one per instrument (composite.rs). The
-- fills go to a ledger (pg-store/src/fill_ledger.rs). The rule graph (pg-strategy/src/policy) decides on
-- entries and exits. The matching primitive
-- (pg-execution/src/matching.rs) executes orders in simulation. The depth bridge
-- (pg-marketdata/src/binance_depth.rs) builds the book of a symbol. The runtime
-- (pg-runtime/src/lib.rs) reads the configuration and keeps the checklist of the start.
--
-- Files and code:
--   Types      pg-types/src: Types/Defs is lib.rs, Types/Advanced is advanced_order.rs, Types/Keys the
--              derived order of AssetKey.
--   Oms        OrderRecord and its methods. Oms/Lifecycle runs any list of calls.
--   Risk       evaluate_signal, evaluate_order.
--   Strategy   Machine is validate, new, on_signal and what they call; Progress is
--              on_intent_fill_progress and on_intent_filled; Control is the other methods. Histories
--              runs any list of calls.
--   Execution  the snapshots and errors of the adapters, the adapter trait as a record over a world W,
--              and the search by client id.
--   Orchestrator  Session is the calls on the store and the adapters: a method is a function from a
--              session, which holds the world and the calls made so far, to a result and a session.
--              Dispatch, Cancel, Recovery and Cycle are the methods of DurableExecution, Snapshot and
--              Ownership the functions beside them. Traces has the rules for laws of the calls.
--   Shadow     the simulated venue: Book is ShadowBook, Adapter its implementation of the interface.
--   Composite  the adapter that routes by instrument.
--   Store      Fills is ExecutionFill, Ledger its insertion as a transaction on the tables.
--   Policy     the rule graph of a strategy.
--   Matching   Match is match_order and its helpers; Coordinator is CompositeCoordinator.
--   Reconcile  Defs is the data and the gates on exposure, Compare is reconcile, and Issues is an
--              independent description of what it should report.
--   Runtime    Config is RunConfig, Gates is StartupChecklist.
--   Depth      Bridge is the data and the parsing of levels, Update is push, install_snapshot, apply.
--   Prelude, Decimal, Float and Samples are shared: BTreeMap is an ascending list of pairs, a result is
--   a value, a method on `&mut self` returns the new value and its result.
--
-- Parameters. Decimal is rust_decimal's type as an interface (Decimal.antt): comparisons go through the
-- number of units of 10^-28, and theorems that need its arithmetic assume IsLawful, which is exactness
-- where the exact result fits 96 bits. The operators that panic on overflow are total there. Float is
-- f64 with no laws. A Uuid is a number; new ones and the text of one are arguments, as are the process
-- environment, the parsing of decimals and, for the rule graph, what turns a decimal and a count into
-- an f64 (Conversions, in Policy.antt). A u64 is a number, and where the code checks an overflow
-- the bound is written out.
--
-- The store and the adapters of the orchestrator are records of functions on a world W of any kind, so
-- that the theorems hold for every database and venue. A JSON payload is a constructor. In the ledger a
-- query is a search through the rows of a table, and `now()` is an argument.
--
-- Loops are recursion on lists, so no fuel is used; the digits of a u64 are at most twenty.
--
-- Not modelled: the daemons (pg-core), the adapters of real venues, the database and the queries of
-- pg-store beside the fill ledger, concurrent calls and poisoned locks, failures of the connection in
-- the ledger, the merge of fills in the composite adapter, the other modules of pg-strategy and
-- pg-marketdata, pg-dream, pg-sim, pg-control, metrics, the Python code and the deployment files. They
-- are input and output, floating-point formulas, or layers above the modelled crates. Serialization and
-- texts of debugging are left out everywhere.
pub mod Prelude
pub mod Decimal
pub mod Types
pub mod Oms
pub mod Matching
pub mod Float
pub mod Risk
pub mod Strategy
pub mod Execution
pub mod Reconcile
pub mod Runtime
pub mod Depth
pub mod Orchestrator
pub mod Shadow
pub mod Policy
pub mod Composite
pub mod Store
mod Samples
