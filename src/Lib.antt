-- ===== src/Lib.antt =====
-- TestingHQ (testinghq/): a command-line tool that sends synthetic inbound mail to a webhook
-- and asks the system behind it what it made of each message. This library models its decision
-- code.
--
-- How the parts interact. `core` holds what every tool shares: exit codes, the grading of one
-- response. `compare` reads two run artifacts, aligns their records and grades each pair with
-- `core/report.py`. `pipeline` stamps a tag on every message, sends it, polls the store
-- through an adapter until it holds still, and judges what it found: `verify` grades every
-- message, `ledger` reconciles the records with what was sent, `redeliver` judges repeated and
-- threaded messages, `loop` asks whether machine mail was answered, and `steady` compares the
-- labels of variants. `sigcheck` signs requests, and the senders share a token bucket.
-- `barrage` fires load at a rate through a pool of worker threads and accounts for every
-- request.
--
-- Files.
--   Prelude: the library's shared names, texts as lists of code points, dicts as association lists
--     in insertion order, decimal notation, integers, sorting.
--   Core/ExitCodes: testinghq/core/exit_codes.py.
--   Core/Report: testinghq/core/report.py. `classify_record`, `flag_for_record` and
--     `compute_summary` have the names they have there; a record is a record of what the code
--     reads with `.get`.
--   Core/RateLimit: testinghq/core/ratelimit.py. `try_pass` and `acquire_pass` are what the methods do
--     with the lock held, so that threads are a list of events; `Bound` is about such lists and
--     `Termination` about a thread that is alone.
--   Core/Guardrails: testinghq/core/guardrails.py, private hosts and synthetic addresses.
--   Core/Targets: testinghq/core/targets.py. `resolve_target` takes the targets that `load_config`
--     read, and a refusal is a constructor of `Resolution`.
--   Compare: testinghq/compare/runs.py. `align` is `_align`, `comparable` is `_comparable`,
--     `compare` is `compare`, whose loop body is `compare_pair`.
--   Barrage/Run: the slots of testinghq/barrage/runner.py. `send_begin` and `send_end` are what `_Run.send`
--     does with the lock held, before the hook and behind it, `freeze` and `finalise` have the names
--     they have there. `Steps` lets threads take the lock in any order, and `Told` holds
--     what the records tell of the requests.
--   Barrage/Executor: `PoolExecutor` of testinghq/barrage/executor.py. `get_item`, `discard`,
--     `start_task` and `finish_task` are the parts of `_work`, `submit` is `submit`, `begin_shutdown` and
--     `go_on` are `shutdown`, cut where another thread may come in. `Moves` holds the steps and the
--     invariant, `Workers` and `Kept` that they keep it.
--   Barrage/Report: testinghq/barrage/report.py. The parent holds the properties of a `Sample`, the
--     counts and the percentiles, `Buckets` holds `bucketize`, `Knee` holds `_judge` and `find_knee`, and
--     `Samples` the `samples_from_records` of testinghq/barrage/fire.py. An exception is a constructor.
--   Pipeline/Http: `_pace`, `_backoff` and `_request` of `HttpJsonAdapter` in
--     testinghq/pipeline/adapters.py. A round of the loop is `attempt_once`, and an exception is a
--     constructor of `Failure`.
--   Pipeline/Pages: `_collect` of the same class, up to the mapping of the records. A page that is asked for
--     is a parameter.
--   Pipeline/Mailbox: `MailboxAdapter` of the same file, with the names it has there; a file is its identity,
--     its time of change and its bytes.
--   Pipeline/Readback: the dataclasses of testinghq/pipeline/readback.py; `Fields` has their checks and
--     `Normalize` the comparable forms of values.
--   Pipeline/Expectations: testinghq/pipeline/expectations.py. A check has the name it has there, less
--     the underscore; `sender_ok`, `subject_ok` and so on are its comparison behind the guards.
--   Pipeline/Messages: testinghq/pipeline/messages.py, the tags. A ValueError is a result.
--   Pipeline/Settle: `read_back_all` of testinghq/pipeline/common.py. Its variables are the records
--     `Answers` and `Watch`, the body of its loop is `poll_once`, and an `Environment` gives the
--     clock, the sleep and the adapter. `History` says of the complete polls what the variables are
--     to hold, `Trace` ties the two, `Rule` and `Termination` hold the theorems.
--   Pipeline/Ledger: testinghq/pipeline/ledger.py. `Tags` and `Strays` sort enumerated records,
--     `Account` reconciles, `Enumerate` lists the store, `Verdict` holds the verdict, what the
--     readback does to it and `reconcile`, the part of `execute` that follows the sending.
--     `Content` fills the grader that the ledger takes with `evaluate_sequence`.
--   Pipeline/Verify: testinghq/pipeline/verify.py. `grade`, `summarize`, `verdict_of` and
--     `exit_code_for` have the names they have there, and `verify_after` is the end of `execute`.
--   Pipeline/Redeliver: testinghq/pipeline/redeliver.py. `Judge` holds `judge_scenario`, whose findings
--     are constructors in place of sentences, and `Run` holds `judge_run`, `verdict_of` and the end of
--     `execute`. A ScenarioError is a constructor of `Judged`.
--   Pipeline/Loop: testinghq/pipeline/loop.py. `judge_one` and `judge` have the names they have there;
--     `Outbound` holds what is done with the mail of the sink and `loop_code`, the end of `execute`.
--     `Counted`, `Merged` and `Attributed` hold what is new, merged and attributed, by itself.
--   Pipeline/Steady: testinghq/pipeline/steady.py. A `StabilityReport` is the record `Stability` of its
--     properties, and `gate` gives the reason for its exit code.
--   Pipeline/Der: the DER of testinghq/pipeline/sigcheck.py; a SigcheckError is a constructor of
--     `DerError`.
--   Each Examples file runs the definitions of its directory on small data.
--
-- Times are whole ticks, and so are the quiet window, the budget and the poll interval; the
-- floats of the code and their rounding are not modelled. A comparison of a difference with a
-- span is written as one of sums. The token bucket counts nanoseconds and thousand millionths of
-- a token, its rate is a whole number of tokens per second, and a wait is exact, a number of
-- nanoseconds over the rate, which a sleep may fall short of by a nanosecond at most. In the
-- report of barrage a rate times a tick is so many parts of a request (`parts` to a request),
-- thresholds are whole hundredths, a percentile is taken at one of the three fractions that the
-- code asks for, where floats and exact numbers give the same rank for up to a million values at
-- least, and the tolerance of 1e-9 falls away, since times are exact. A rate of steady is a
-- fraction, and a rate of at most 0.05 is 20 times the one number at most the other.
--
-- Fuel. The loops of the http adapter run over the retries and the pages that are left. The
-- `while` loop of `read_back_all` takes fuel. A round that goes on sleeps for a tick or more
-- unless the deadline has passed, so more fuel than the budget has ticks is enough; the theorem
-- on termination says so of every environment in which time passes (`IsTimely`). The loop of
-- `acquire` takes fuel, and two rounds are enough where time passes (`IsAdditive`).
-- `ancestry_of` takes as many rounds as there are deliveries, since every round sees another
-- tag; more rounds give the same. `_der_children` takes as many rounds as there are bytes, since
-- every round reads two or more; `bit_length` takes as many as the number, which has no more
-- bits than that.
--
-- Parameters. `lower` in Core stands for Python's `str.lower`, of which nothing is assumed.
-- `Strings` holds what the pipeline uses of `str` and of Unicode; where a theorem needs it, 0
-- to 9 are digits. `Net` holds what the guardrails use of `ipaddress`, `urlsplit`,
-- `getaddresses`, DNS and `str`, of which nothing is assumed. `repr` is Python's, used to
-- order records. `Grader` stands for the grading of a message in the ledger, and
-- `content_grader` fills it. `Words` holds what the comparable forms of values use of `str`,
-- of Unicode and of `getaddresses`, and `Patterns` the regular expressions of the checks and
-- `unescape`; nothing is assumed of either. `key` is the JSON of a record, by which outbound
-- mail is told apart. `read_line`, `tag_of` and `to_readback` are what the mailbox does with
-- one line or one record. `World` is the clock, the sleep, the client and the random source of
-- the http adapter; time passes in a sleep and in a request, not between two readings of the
-- clock. `Timer` is the clock and the sleep of a token bucket.
--
-- Threads. A step of the pool is what one thread does between two points where another may
-- come in; `submit` and `shutdown` are called by one thread, and `shutdown` once, as `run`
-- does. A worker takes a slot once, and its hook returns at most once.
--
-- Not modelled: terminal rendering, the sentences that explain a result, the JSON of an
-- artifact, reading and writing files, the network, an interrupt from the keyboard, the
-- generation of mail, the elliptic curve of sigcheck.
pub mod Prelude
pub mod Core
pub mod Compare
pub mod Barrage
pub mod Pipeline
