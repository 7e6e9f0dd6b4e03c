-- ===== src/Lib.antt =====
-- A verification library for hypercarry, a funding-rate monitor and order-execution tool for
-- perpetual futures. It models the execution crate, crates/hypercarry-execution/src, whose parts
-- interact as follows. A host turns an intent into a validated order under a venue's market metadata
-- (model.rs), derives a client order identifier from it (identity.rs), asks the risk policy for a
-- decision (risk.rs), and then follows the order through a state machine that the venue's
-- observations drive (lifecycle.rs), whose transitions it journals (journal.rs). Requests to the
-- venue pass a throttle, and failed ones are retried by a policy (reliability.rs). A dry run stops
-- before any request (dry_run.rs), and the simulator replays an order against market frames
-- (simulator.rs). In front of mainnet stands a gate that asks for reviewed evidence, fresh health and
-- a heartbeat (mainnet.rs). Of the analytics it models the evaluation of a carry trade,
-- crates/hypercarry-core/src/carry.rs, and the prediction of the next funding rate from premium
-- samples, crates/hypercarry-core/src/predictor.rs, which use none of these; of the storage the
-- dataset of settled funding, whose commit merges rows into daily partitions and then advances the
-- checkpoints from which a collector resumes (crates/hypercarry-storage/src/dataset.rs); and of the
-- mainnet services the two that act on their own: the policy of the signer, which tests every action before it is signed, and
-- the watchdog, which keeps a cancellation scheduled at the venue while the executor lives and closes
-- the position when it does not (crates/hypercarry-mainnet-services/src/policy.rs and watchdog.rs).
--
-- Files and code:
-- * Execution/Model models model.rs: `OrderIntent::limit` and `validate` are `limit` and
--   `validate_intent`, `MarketMetadata::new` and `validate` are `new_metadata` and
--   `validate_metadata`, `ValidatedOrder::resolve` and `validate` are `resolve` and
--   `validate_order`.
-- * Execution/Identity models identity.rs: `derive` is split into `preimage`, the bytes that are
--   hashed, and `derive`, with SHA-256 as a parameter; `Display` and `FromStr` are `to_string` and
--   `from_str`.
-- * Execution/Lifecycle models lifecycle.rs: `transition` returns the machine after it, `recover`
--   replays a list of transitions.
-- * Execution/Reliability models reliability.rs: `admit` returns the throttle after it, with the
--   decision or the error; `action` is the retry policy.
-- * Execution/Risk models risk.rs: `evaluate` in the order of the source, cut in four at its early
--   returns; the snapshot source and the kill switch are given by their results.
-- * Execution/Journal models journal.rs: `FileJournal::open`, `append` and `read_journal` are
--   `open_journal`, `append_file` and `read_journal`; a file is its text, and the outcome of each
--   write is given. `OrderStateMachine::recover_from_journal` of lifecycle.rs is there too.
-- * Execution/DryRun models dry_run.rs over any journal that meets the interface `Journal`, which
--   Execution/DryRun/Memory fills for the memory journal.
-- * Execution/Simulator models simulator.rs: `simulate` is a loop over the frames, `replay_frames`.
-- * Execution/Mainnet models mainnet.rs and signing.rs: Evidence the evidence and the canary
--   configuration, Gate the health checks, `check_submission`, `authorize` and the dead-man switch.
--   The JSON payloads under the digests, and SHA-256, are parameters.
-- * Core/Carry models carry.rs: `CarryTrade::evaluate` and its four parts, and `annualized_return`.
-- * Core/Predictor models predictor.rs: `PremiumSample::new`, `PredictionRequest::new` and
--   `RealizedSettlement::new` are `new_sample`, `new_request` and `new_settlement`; in
--   Core/Predictor/Forecast `predict_next_hour` fills the five-second slots, a list in the order of
--   its keys, by the loop `fill_slots`, and `forecast` is the rest of it.
-- * Services/Policy models `RuntimeConfig` and `ServicePolicy::validate`, Services/Signing
--   `validate_request` and the actions it compares with, as JSON values of Base/Json.
-- * Services/Watchdog models watchdog.rs: `run` is `run` over a list of rounds, each the answers that
--   the clock, the files, the signer and the venue give in it; `submit` and `emergency` are those of
--   the source. Services/Watchdog/World keeps the state and the trace of what is written and
--   submitted, Services/Watchdog/Spec is the protocol as an automaton that reads the trace.
-- * Storage models the rows of crates/hypercarry-storage/src/settled_funding.rs and `merge_records` of
--   dataset.rs; a map is a list in the order of its keys (Base/Ordered). Storage/Dataset and
--   Storage/Commit model the files of a dataset and `commit`: what each test, read and write
--   gives is a parameter, so is the date of a time, and a step returns the files after it with its result.
-- * Execution/Error models error.rs. A fallible function returns a `Result` of a value, an error or a
--   panic: the operators of decimals panic where the checked operations return `None`.
--
-- Numbers and text. `Decimal` of rust_decimal is third-party code: Decimal.antt states its operations
-- and its documented laws as an interface, and Decimal/Fixed.antt is an implementation on which the
-- examples run. An `i64` is an integer of Base/Int.antt with checked operations, a `u64` a natural
-- number below 2^64, a string a list of code points, with UTF-8 where the code counts bytes. Every
-- loop of the code is over a list; only the printing of a number (Base/Text.antt) runs on fuel, one
-- more than the number.
--
-- Left out: the JSON and Parquet forms, error messages, the system clock, sockets, signing, and the
-- files themselves, whose tests, reads and writes are parameters. The other crates (the other core analytics,
-- recorder, venue, supervisor, executor, command line) are not modelled, nor is the part of the services
-- that reads paths, calls the venue or checks signatures, nor the parsing and replay of recorded
-- payloads and the walk-forward evaluation in predictor.rs, nor the reading of whole streams in
-- dataset.rs.
--
-- Base holds the shared helpers, Examples the runs and the theorems on concrete inputs.
pub mod Base
pub mod Decimal
pub mod Core
pub mod Execution
pub mod Services
pub mod Storage
pub mod Examples
