-- ===== src/Lib.antt =====
-- SwiftRoute, the SubGrid Automaton Protocol: a gateway that sells compute tickets, routes each job to
-- a zone with surplus energy, runs it in a MicroVM behind a WireGuard tunnel, freezes it on grid events,
-- charges for it and mints a signed receipt.
--
-- The parts, with the file of the program and the file that models it:
--   Config        src/config.py: the settings and their defaults.
--   Pricing       src/pricing.py: StateVector, calculate_fees, calculate_pricing.
--   Router        src/router.py: the zone clients, _zone_score, find_optimal_zone.
--   Sge           src/sge.py: SyntheticGridElasticity with its handlers.
--   Persistence   src/persistence.py: the SQLite tables and the statements run on them.
--   Payments      src/payments.py: the mock and the Stripe processor (Payments/Mock, Payments/Stripe)
--                 and the protocol that joins them (Payments/Processor). Theorems stand in
--                 Payments/Balances, Payments/Refunds and Payments/Credits.
--   Tunnel        src/tunnel_manager.py: WireGuardTunnelManager.
--   Vm            src/vm_manager.py: MicroVMManager.
--   Receipts      src/receipts.py: ReceiptGenerator.generate, verify and to_json; its keys on disk and in
--                 the class are Receipts/Keys.
--   JobQueue      src/job_queue.py: the jobs and the queue (JobQueue/Jobs), the worker's world
--                 (JobQueue/World), _process_job (JobQueue/Worker) and the steps of the worker and of
--                 the other tasks (JobQueue/Steps). Its theorems stand in
--                 JobQueue/Mirror (the database's statuses),
--                 JobQueue/Freeze (frozen jobs), JobQueue/Kept (what the managers keep), and
--                 JobQueue/Cleanup, JobQueue/Ending and JobQueue/Unpaid (the end of a job).
--   ScriptValidator  src/script_validator.py: the checks of a syntax tree and the walk over it.
--   Gateway       src/gateway.py: buy_ticket and get_job_status, which tie the parts together; grid_webhook
--                 (Gateway/Grid), with theorems in Gateway/Ticket and Gateway/Webhook;
--                 RateLimitMiddleware (Gateway/RateLimit), with its reference in
--                 Gateway/RateLimit/Window/Reference; tunnel_route_and_price (Gateway/Quote);
--                 the balance and the payouts (Gateway/Payouts); the Stripe webhook
--                 (Gateway/StripeEvents) and the calls of Stripe (Gateway/StripeCalls,
--                 Gateway/Checkout); the start and the end of the program, with start_worker and
--                 stop_worker of src/job_queue.py, and health (Gateway/Lifespan). The registry of
--                 ids stands in JobQueue/World.
--   SetupScript   scripts/setup_stripe_webhook.py, beside the endpoint of the same purpose
--                 (SetupScript/Agreement).
--   Shim          bin/firecracker.py: win_to_wsl and what main makes of its arguments, with theorems in
--                 Shim/Paths and Shim/Arguments.
-- Float is the interface of Python's floats, with the laws of IEEE 754 arithmetic and of `round` that
-- the proofs use as a record of hypotheses, IsIeee; Fixed is an instance in millionths that runs
-- the tests and in which Payments/Credits counts exactly. Host is what the managers use of the
-- operating system, Json the flat objects that are stored and signed, Prelude the shared names with dictionaries (Prelude/Dict), integers
-- (Prelude/Int) and texts (Prelude/Text). Tests holds the concrete runs.
--
-- How state is modelled: an operation takes the state that it changes and returns the new one. A
-- Python exception is a constructor of the result, or `none`. The clock's readings, fresh ids and
-- keys are arguments (no keys where loading them raises); libraries (Stripe, httpx, cryptography,
-- json.dumps, hashlib, wg-quick, Firecracker) are records of functions, and so are base64, the UTF-8 decoder and Python's parser.
-- A coroutine is cut at the places where another task can run: the worker's place is a Phase, and a
-- run is a list of events, each with the environment that it meets. A job object is identified by
-- its id, so the queue holds ids and a change of the object is a change of the dictionary.
--
-- Bounds: numbers of Python are unbounded and so are ℕ and ℤ here. There are three fuels: `show` prints a
-- number n in at most n + 1 steps, since each step divides it by ten; the walk over a syntax tree has a
-- step for each node of the tree, and running out of fuel is an answer of its own, `unfinished`; the
-- loop over the wrapper's arguments has a step for each argument and one more.
--
-- Not modelled: HTTP and FastAPI, the log, the reading of environment variables and of command lines,
-- list_jobs of src/persistence.py (nothing calls it), faults of the disk other than those of writing
-- keys and configurations, the processes of the VMs beyond their pids and the process that the
-- wrapper starts, bin/firecracker.cmd (a batch file of the wrapper's purpose), and the endpoints of src/gateway.py that answer a constant or a text file. The
-- answers of the endpoints hold what is read of the objects, without constant entries.
pub mod Prelude
pub mod Float
pub mod Fixed
pub mod Config
pub mod Pricing
pub mod Router
pub mod Sge
pub mod Json
pub mod Persistence
pub mod Payments
pub mod Host
pub mod Tunnel
pub mod Vm
pub mod Receipts
pub mod JobQueue
pub mod ScriptValidator
pub mod Gateway
pub mod SetupScript
pub mod Shim
pub mod Tests
