-- ===== src/Lib.antt =====
-- Verification of Kiln (crates/), the executor of a box that serves local models: it is switched
-- between modes, admits work units into a priority set, drains them one at a time through a graph of
-- gated cells, and answers each with a verdict.
--
-- The parts and their files. Every aggregate of the program has the same shape, events folded into a
-- state by `evolve` and a guard `decide`; Decider names the shape and the histories of it.
--   Switch        crates/switch: the mode of the box and its status view
--   Exploration   crates/exploration: the session of the explorer
--   Interface     crates/interface: the work unit, its validation (`validate`), what it requires of a
--                 box (`requirements`), the manifest and the distance to it (`missing_for`), verdicts,
--                 the canonical contract and its mapping (`From<CanonicalWorkUnit>`)
--   Queue         crates/queue: the lifecycle of a unit, whole-unit admission, the views of the set
--   Execution     crates/execution: the run, the dependency walk (`walk_cells`), the reduction to a
--                 verdict, the protected oracle
--   Host          crates/host: the one serving host, its view, the backend seam `ResidencyHost`, and
--                 the production backend with its commands (Ssh)
--   Sandbox       crates/sandbox: the sandbox and lease lifecycles; Local the place of a workspace
--   Serving       crates/serving: the resident set, work batches, `schedule_batches`; Http the request
--                 to a served model and the reading of its answer, OpenAi the worker over it
--   Stream        crates/stream: the log decider, the reconciliation view, the durable log
--   Engine        crates/executor: the engine that joins them. State is `Engine`; Control the switch
--                 and the explorer; Residency the launch and retirement of the server, with the calls
--                 that they make to the backend; Queueing admission and reprioritisation; Drain
--                 `drain_one`; Invariant what holds between operations; Operations any sequence of
--                 calls; Loop the drain loop of crates/cli/src/main.rs (`cmd_run`); Isolated the
--                 production drain (`drain_one_isolated`): Order the order of the cells
--                 (`topo_order`), Cells the loop that calls the worker, Drain the whole, Delivery the
--                 work of git (baseline, clone, patch, landing), Loop the loop that serves (`cmd_serve`)
--   Cli           crates/cli/src/main.rs: the commands that change the engine, as an exit code and what
--                 is saved; Serve the choice of the worker and the oracle; Main the dispatch
--                 (`main`), what it loads and saves, and histories of command lines; Lines what stream and
--                 status print
--   Conform       crates/cli/src/conform.rs: the conformance runner; Deciders and Services its function
--                 for each aggregate, Requests its main, Replays what its readings give
--   Prelude       lists, texts, machine words, sorted dictionaries, results
--   Samples       tests, and each theorem applied to concrete inputs
--
-- Conventions. An i64 counter is the bit pattern below 2^64 of its value and wraps, as a release build
-- does; a u32 wraps at 2^32. A refused command is `err` with the name of the invariant. A panic of the
-- source is `none`. BTreeMap and BTreeSet are sorted lists of entries. JSON values are a parameter `V`
-- with the questions that the code asks of a value (`Json`); the answers of an oracle, of a backend, of
-- the readiness probe, of a shell, of serde_json (`Codec`) and of a disk write are arguments.
--
-- Fuel. `walk_cells` loops over the pending cells; each round takes one, so the number of cells is
-- enough (Execution/Walk/Covers); so it is for the queue of `topo_order`, where each round takes a
-- position that enters it once (Engine/Isolated/Order). The drain loop has the source's own backstop of
-- 10,001 attempts. The trims of Prelude.Text take one round for each character.
--
-- Git is a parameter too: the code that delivers gives it lists of arguments and reads back whether it
-- succeeded and what it printed.
--
-- The log's file is its lines and what stands behind the last line break; a write that fails leaves any
-- disk, with part of a line or a whole one. The state file is what it loads as: a write of it ends
-- written, untouched or spoiled, since `std::fs::write` empties the file first, and a spoiled file loads
-- as a fresh box. `main` is none, a panic, when an argument is not Unicode or a line cannot be printed.
--
-- Not modelled: network and processes, with the polling of an endpoint; messages other than the lines of
-- stream and status; the text of the state file, which is taken to load as it was saved, or not at all;
-- the text of JSON, hashing and serialisation (libraries); the floating-point rate of crates/queue; the
-- copying of a seed into a workspace (`seed_workspace`, `copy_dir_excluding`); a log that is not
-- Unicode; the test csharp_live. In the isolated drain provisioning, cloning, seeding,
-- the landing and the teardown are answers (`Seams`), and what the code does through them is a list of
-- effects; an error of a write to the workspace, which the code passes over, has no effect.
pub mod Prelude
pub mod Decider
pub mod Switch
pub mod Exploration
pub mod Queue
pub mod Host
pub mod Sandbox
pub mod Interface
pub mod Execution
pub mod Engine
pub mod Serving
pub mod Stream
pub mod Cli
pub mod Conform
pub mod Samples
