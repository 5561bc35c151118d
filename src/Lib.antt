-- ===== src/Lib.antt =====
-- Verification of ProjectWorldWide: the coordinator that leases training data to clusters, the
-- rounds in which their results are collected, and parts of the planner.
--
-- The program trains one model on several supercomputers. A central coordinator (src/pww/darl) owns
-- the only map of which blocks of the corpus are unassigned, leased or committed. Clusters acquire
-- leases on spans of positions, send heartbeats, and commit blocks once a checkpoint covers them;
-- leases that fall silent are reaped and their blocks go back to the free pool, or to quarantine
-- after too many attempts. No block may ever be with two clusters or be lost. The coordinator wraps
-- the lease table in a journal, snapshots and an HTTP endpoint. A second service (src/pww/central)
-- runs the rounds: it asks live clusters to train, waits for their results and hands them to a
-- strategy, which merges them into the global model that the central node keeps on disk. The
-- planner (src/pww/plan) sizes a run beforehand and follows its jobs. A cluster reads the blocks
-- that it holds from token files (src/pww/titan/shards.py).
--
-- Parts, and where they are modelled:
--   Prelude            Boolean tests, lists, results (Python's exceptions as values) and dicts
--   Darl.Interval      class IntervalSet of src/pww/darl/table.py, the free pool; the children Cover,
--                      Add, Take and Remove prove what `add`, `take_near` and `remove` do to it
--   Darl.Floats        the float operations of the table, a parameter with no laws assumed, total where
--                      Python's are defined
--   Darl.Lease         the records of table.py: BlockState, Lease, ClusterRecord, Grant
--   Darl.Table         LeaseTable: its state, `_reset_epoch`, `advance_epoch`, `register`; its children
--                      Reclaim (`_reclaim`, `reap`, `release`), Hold (`heartbeat`, `commit`),
--                      Sizing (`_grant_size`), Steal (`_steal`) and Acquire (`acquire`)
--   Darl.Blocks        counting blocks by state; how pool, leases and counters agree with them
--   Darl.Valid         the invariant of the table, and a child for each operation that keeps it
--   Darl.Space         src/pww/darl/space.py: BlockSpace and `blocks_for_phase`
--   Darl.Table.Verify  `verify`, the check that is run before every snapshot
--   Darl.Table.Durable `snapshot`, `restore` and `replay_lease`
--   Darl.Server        class Coordinator of src/pww/darl/server.py: the operations around the table, the
--                      journal, `save_snapshot`, `tick`, `_replay` and `load`; its child Routes is
--                      `do_POST`, Life the histories of a coordinator with crashes and restarts; Sound,
--                      Operations, Answers, Replaying, Recovery and Retry are about what holds along them, Lost
--                      about a refused release and a restart
--   Darl.Client        the spans of class LeaseSession of src/pww/darl/client.py; its child Watermarks
--                      is about each operation, Histories about their interleavings
--   Darl.Samples       a small table for the tests
--   Darl.Tests, Darl.Server.Tests, Darl.Client.Tests, Central.Tests, Plan.Tests, Titan.Tests,
--   Central.Global.Tests, Central.Names.Tests, Central.Strategy.Tests,
--   Central.Blobs.Tests, Plan.Steps.Tests
--                      runs, and each theorem at a concrete input
--   Central.Members    class HttpClientManager of src/pww/central/httpround.py
--   Central.Round      class RoundState and the POST endpoint of httpround.py
--   Central.Driver     `wait_for_all`, `_collect` and `run_rounds` of httpround.py
--   Central.Global     class GlobalState of src/pww/central/globalstate.py: the global model and the books,
--                      `initialise_from_file` and restarts; its child Merging is `merge`, Shapes and Fedmom are
--                      about its checks and its loops over tensors, Merge and Outcomes about `merge` on
--                      every branch, Books about whose tokens are in, History about crashes
--   Central.Names      the names of blobs of src/pww/fedproto.py, and `safe_name` of
--                      src/pww/central/blobstore.py; its child Safe is about the one accepting the other
--   Central.Blobs      class BlobStore of blobstore.py, its uploads and its files; its child Received is about
--                      the end of an upload
--   Central.Strategy   the blob transport of class PWWFedMom of src/pww/central/strategy.py; its child
--                      Unique is about duplicate clusters, Counted about which replies count, Blobs
--                      about publishing and pruning, Rounds about a whole round
--   Central.Pace       `_observe_fit_results`, `_update_jensen` and `_next_inner_steps` of strategy.py: how many
--                      steps a round has
--   Plan.Steps         the learning rates, the Jensen controller and the schedules of
--                      src/pww/plan/rounds.py; its child Schedules is about histories of draws, Agree about
--                      the strategy's own rule
--   Plan.Budget        `plan_epochs` of src/pww/plan/budget.py
--   Plan.Jobs          `fold` of src/pww/plan/state.py
--   Titan.Shards       the corpus of src/pww/titan/shards.py; its children Reading and Windows are about
--                      which tokens a window holds
--
-- Choices. A method of LeaseTable is a function from a table to a result that holds the new table;
-- a raised exception is `err`, and the caller keeps the old table. Times and rates are values of an
-- abstract type of floats, so that no theorem depends on rounding, but for two hypotheses: the order
-- of some literals, and `math.ceil(a / b)` of `plan_epochs`, a parameter, which is the exact ceiling
-- below 2 ** 53. A lease id, the text `e<epoch>-b<start>-<seq>`, is
-- its three numbers. The bytearray `_state` is a function of the position, of which the part below
-- `num_blocks` counts. `self.leases` is the list of its values in insertion order, looked up by id.
-- Time stamps of events and the texts of exceptions are left out. `round`, `** 2` and the functions
-- of Python's math module are the record MathOps of Darl.Floats, where `round` may raise. Loops recur on their list or on
-- the number of rounds left: the loop of `take_near` ends after `max_spans` rounds, since each
-- round adds a span. The loop of `receive` has the announced number of bytes for fuel, which is
-- enough, since each round takes a byte at least; in the numerals of Central.Names the fuel is the
-- number itself. The journal and the snapshot are a list of entries and a record in the
-- coordinator's state. Both servers hold one lock per operation, so threads are explicit sequences
-- of operations: a relation Step in Darl.Server.Life, and in Central.Driver a list of wake-ups,
-- each with what has been submitted before it. torch is the two records Formats and Tensors of
-- Central.Global, with no laws assumed; a file of tensors is a dict, and a crash between two writes
-- of files is a step of its own. A file that `merge` replaces is a new value, so a blob that is
-- linked to the old one keeps it, as a hard link does. A restart begins from the files and nothing
-- else.
--
-- Not modelled: the OverflowError of float() and the errors of int() for integers and floats out of
-- their range, once a payload has been read (a body that cannot be read is a request of its own);
-- negative numbers and other than texts for cluster ids in payloads; sockets, headers, JSON texts and the command lines; a torn last line of the
-- journal; `status` and its texts; the texts of reasons; of the rounds, the wait for `min_clients`
-- and the check that all clusters have one config; of the client (src/pww/darl/client.py) requests
-- and their retries, waiting, prefetching and `release_all`; the client of the rounds
-- (src/pww/http_round_client.py); of the strategy the inline transport, checkpoints, metrics and
-- configure_fit; crashes while a first model is adopted or a blob is published; of the blob store
-- `prune`, `usage` and its HTTP side; of the planner all but the parts above; of the shards, the
-- manifest's JSON and hashes; the other training code, which is tensors and third-party libraries;
-- of the block space, the seeded shuffle (a parameter) and the digest.
pub mod Prelude
pub mod Darl
pub mod Central
pub mod Plan
pub mod Titan
