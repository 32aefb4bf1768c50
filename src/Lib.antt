-- ===== src/Lib.antt =====
-- py_app_runner is an asynchronous service framework. This library models the parts of it that decide
-- something: which worker holds a job, what a migration run leaves behind, who receives a message,
-- who is let through.
--
-- The parts, by file. Paths are relative to src/py_app_runner.
--   Queue/Job: Job of queue/job.py. `_release_delay` is the field `release_request`.
--   Queue/Errors: fit_error of queue/driver_pg.py, over code points with their UTF-8 lengths.
--   Queue/Pg: PgQueue of queue/driver_pg.py. Tables holds the two tables and the conditions of the SQL
--     statements, Push `push`, Reserve `reserve` with `_candidate`, `_claim`, `_read` and `_to_job`,
--     Completion `delete`, `release`, `fail` and `_move_to_failed`, Reports the counts, `retry_failed`
--     and `forget_failed`. A statement is one step; the statements of other connections may stand
--     between any two of them, as functions on the tables that the definitions take.
--   Queue/Redis: driver_redis.py. Store holds the keys and the commands that the scripts send, Push
--     `_PUSH`, Completion `_COMPLETE`, `_RELEASE` and `_FAIL`, Reserve `_RESERVE`, Reports `_REQUEUE`,
--     `_FORGET` and the counts, each with the methods of RedisQueue that call it. A script is one step;
--     what others do between two scripts of one method is a parameter of it.
--     Aged, Handed, Attempts, Settled and Stale follow a claim, Kept the place of every job, Unique the keys of a push.
--   Queue/Worker: worker.py. Loop is `run` with one job and its failure, over an abstract queue,
--     handler, clock and signal; Backoff is `backoff`.
--   Migrations: Text and Discovery model migrations/discovery.py, States states.py, Tracker the rows of
--     tracker.py and tracker_sqlite.py, Apply and Baseline the commands of commands.py. A command takes
--     the database and gives the exit code and the database.
--   Wbcm: Connections models factory.py and device_connections.py of wbcm, which have the same code,
--     Messages the fan-out and Stream the routes of wb_connection_manager.py. An effect is a call put on
--     the loop of a connection.
--   Throttle: throttle/throttle.py, the script and the operations over the hash of one key.
--   Requests: client_ip.py, pagination.py and decorators.py of request_handler. Decorators and Audited
--     hold the decorators as functions on actions, an action being a function on its handler and the
--     world; rate_limit counts by the model of the throttle. Borrowed, Guarded and RateLimited hold
--     the proofs.
--   Crypto: Envelope models crypto/envelope.py and Fields crypto/fields.py, over bytes and texts as lists
--     of numbers; the cipher, base64, UTF-8, the HMAC and the nonces are parameters. Framing, KeyCache,
--     Opened and Authentic hold the proofs.
--   Cron: Execute models the in-process lock and the runs of cron/execute.py as steps that interleave,
--     Commands the choice of the jobs and the exit code of cron/commands.py; Overlap holds the proof.
--   ApiKeys: Abilities models api_keys/abilities.py and Keys the parts of api_keys/keys.py that decide;
--     Allows holds the proof.
--   Audit: Values models `same` of audit/diff.py with the readings it compares by, Diff `mask` and
--     `between`; Redacted and Symmetric hold the proofs.
--   Prelude: Boolean tests, lists over the native numbers, and Python's signed integers.
--
-- How the parts interact: a worker reserves a job from the driver, runs its handler and deletes,
-- releases or fails the job under the claim that the reserve wrote. A rate-limited action asks the
-- throttle. The check of an API key reads addresses as the request handling does, and its texts as
-- crypto does. The modules of a part are used by that part and by nothing else but this; the proofs stand
-- beside the definitions they are about.
--
-- Bounds and fuel. A moment is a natural number of seconds. `reserve` makes the five rounds of
-- CLAIM_ROUNDS for each queue, which is a bound of the code. The worker's loop runs on a number of
-- turns, since the code's loop need not end; the theorem on draining queues gives a number of turns
-- that is enough. All else is structural.
--
-- What the Redis server decides is the record `Redis`: the ids of stream entries, the entry that
-- XAUTOCLAIM hands over, and ties in a sorted set. `IsRedis` asks that no id is used twice and that
-- XAUTOCLAIM hands over an entry of the stream.
--
-- What is taken as given: JSON encoding and decoding, decimals and dates, the library ipaddress and the execution of a
-- migration's SQL are parameters. A transaction is atomic, and the claim of a candidate keeps the row
-- locked until it ends. `push` is modelled on a connection with or without a transaction open. A load
-- of a migration file is what `load_migration` gives for its path: that function reads the file,
-- matches its name and hashes it, and is not modelled. A tracking table that is missing and one that
-- is empty are the same. The limits of the columns' types, and a failure of `make_db_wrapper`, are not
-- modelled. What the commands print and the logging are not
-- modelled, nor are the durations of a sleep.
--
-- Not modelled: the list of failed rows, the handlers' lookup, the audit events, the cron schedule and its loop,
-- the commands on API keys, the rotation of keys, passwords, the bridge and its sockets, the dispatch of
-- requests to services, and the runner, its ticks and timers.
mod Prelude
pub mod Queue
pub mod Migrations
pub mod Wbcm
pub mod Throttle
pub mod Requests
pub mod Crypto
pub mod Cron
pub mod ApiKeys
pub mod Audit
