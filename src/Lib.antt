-- ===== src/Lib.antt =====
-- SparkX, a query engine that runs SQL queries on several workers: the coordinator that schedules the
-- tasks of a query, the messages between it and the workers, the fragments in which plans travel, the
-- expressions in them, the pruning of row groups by their statistics, the store of shuffled blocks, and
-- the memory budget and the cancellation signal of a query.
--
-- How the parts interact. A client submits the stages of a query to the coordinator. Workers register,
-- send heartbeats and poll for assignments; an assignment is a partition of a stage whose
-- dependencies have succeeded, under a lease. A worker reports the end of a task with the blocks that
-- it wrote, and the coordinator commits them as the output of the partition. A lease that expires, or
-- a worker that falls silent, sends the partition to its next attempt. Every entry point that takes a
-- time advances the clock first. The plan of a stage is encoded into the stage's fragment when the
-- stage is made; the coordinator checks a fragment without a catalog, and the worker decodes it with
-- its own. A scan asks the pruning for each row group of a Parquet file, then reads the groups that are
-- kept and evaluates the filters on them.
--
-- Files and the code that they model:
-- - Protocol, with its children Ids, Stages, Tasks, Blocks and Messages: src/cluster/protocol.rs. The
--   functions `validate_...` are the methods `validate` and `validate_for` of the types.
--   Protocol/Dependencies is about the dependency lists.
-- - Coordinator: src/cluster/coordinator.rs. State has the data; Workers, Submit, Time, Assign,
--   Updates, Cancel and Status the methods of `Coordinator`, under their names (`cancel` for
--   `cancel_query`); Calls the entry points, and `run`, which serves a list of calls. A method that
--   changes the state returns its outcome beside the new state, so that what was written before an
--   early return stays written. A long method is split at its first write: what it reads and tests
--   is one function that answers a `Result`, and what it writes another.
--   The proofs: Lifecycle has the transition diagram of a partition and that every call follows it,
--   Commit what follows for histories; Attempts the bound on
--   attempts, with Keeps, which lifts what the methods keep to histories; Panics
--   that no call panics; Slots the accounting of worker slots; Time/Expiry and Due the
--   clock; Reports, Assignments, Outputs, Repeated, Cancelled and Refused single
--   methods.
-- - Expr: src/query/expr.rs without `simplify` and the conversions between arrays and scalars. Names has
--   how an expression is written, Schemas the search for a column, Typing `data_type`, Evaluate
--   `evaluate`. The proofs: Order has the laws of `partial_compare`, Kernels the types of the operators'
--   answers; Sound and Narrow compare the types of planning with those of evaluation.
-- - Plan: `PhysicalPlan` of src/runtime/execution.rs, the sort keys and join types of
--   src/query/logical.rs, and the registered tables of src/storage/catalog.rs.
-- - PlanCodec: src/cluster/plan_codec.rs. Wire has the messages, Codes the enumerations and checked
--   numbers, Exprs and Schemas their namesakes, Encode `encode_plan`, Decode `decode_plan` and Validate
--   `validate_wire_plan` and the envelope; Fragments also has `StagePlan::from_physical_plan` and
--   `decode_physical_plan` of src/cluster/protocol.rs. The proofs: RoundTrip with Schemas and Plans,
--   Accepted with Lists, Fragments and Aliases; Encodable is about which plans have a message.
-- - Pruning: src/storage/pruning.rs. The proofs: Bounds is about one comparison, Rows, Coerced, Operands
--   and Described about the values at one row, and Sound about whole filters.
-- - BlockStore: `MemoryBlockStore` of src/cluster/block_store.rs.
-- - QueryMemory: src/runtime/memory.rs, as clients whose atomic accesses interleave.
-- - Cancellation: src/runtime/cancellation.rs, as waiters and cancellers that interleave.
-- - Error: src/error.rs, and the ways in which a call ends. Text, BTreeMap and Base have what the
--   source uses of Rust's texts, maps, lists and machine integers.
-- - Scenarios: the theorems at concrete inputs.
--
-- Conventions. Identifiers are the values that they wrap. The map of a `BTreeMap` is its list of
-- entries in the order of the keys. `u32` and `u64` are numbers, whose saturating, checked and wrapping
-- operations are written out; a theorem that needs a range says so. An error message is the format
-- string of the source with the interpolated values left out. The check of an encoded plan fragment,
-- `PhysicalPlanCodec::validate_fragment`, is an argument of Protocol and Coordinator; the theorems hold
-- for any such check, that no call panics for any that does not panic itself.
-- Where the coordinator writes through an `expect`, by an index or by a subtraction, a check beside
-- the write answers the panic; a panic ends the run, so nothing reads the state that it leaves.
-- Loops run over a list or a tree, but for two on fuel: `display_nat` has as many rounds as the
-- number and one more, of which each takes a digit off, and `f64_from` 23 rounds for the 23 bits of
-- a fraction. The loop of `QueryMemory::reserve`, which other clients can hold up, is a step of its
-- schedule, and without other clients goes on after an exchange that fails spuriously.
--
-- Expressions and plans. A `f64` is its 64 bits, with the order of Rust's `partial_cmp` written out on
-- them; a `usize` has 64 bits. The arrays of Arrow and its kernels are an argument, `Arrow`, whose
-- documented types and, at a row, values are the hypotheses `TypeLaws` and `RowLaws`; the Protobuf
-- library is an argument that writes and reads messages; how a float and an Arrow type are written are
-- arguments, `Formats`; a table is anything with a schema. The metadata of a schema, a `HashMap`, is
-- its entries in the order of the keys, which is the order in which the codec writes them. A message
-- whose only part is a `oneof` is that `oneof`. An index out of range is a panic of the model; only the
-- pruning counts a Parquet column that its row group lacks as one without statistics.
--
-- Not modelled: the execution of plans, the simplification of expressions, the SQL front end, the
-- logical plans with the optimizer and the planner, the transports (control and data plane), the
-- worker's loop, the block store on disk, and the programs.
pub mod Base
pub mod BTreeMap
pub mod Text
pub mod Error
pub mod Expr
pub mod Plan
pub mod PlanCodec
pub mod Pruning
pub mod Protocol
pub mod Coordinator
pub mod BlockStore
pub mod QueryMemory
pub mod Cancellation
pub mod Scenarios
