-- ===== src/Lib.antt =====
-- CoreLab: booking GPUs, the life of a reservation and of its script, the scheduler that drives
-- both, the links between users and Linux accounts, and the limits on requests.
--
-- The program. A laboratory's members book windows of GPUs on shared servers. The service
-- (backend/corelab_backend/services/reservation_service.py) checks and inserts the rows, edits
-- and cancels them, and owns the two state machines of a row: its status and its script's. The
-- scheduler (services/reservation_scheduler.py) starts and ends reservations by the clock,
-- dispatches scripts to the server's agent, and reaps dispatches that the agent never
-- acknowledged. The agent reports a script's start, output and end, which
-- services/script_lifecycle_service.py writes to the row. Each of them writes audit rows
-- (services/audit_service.py), notifications (services/notification_service.py) and frames for
-- the owner's sockets, all in the database session of one request, which db.py commits or rolls
-- back. A reservation runs on a Linux account, which a user is linked to by a proof or by an
-- administrator (services/account_link_service.py), or asks for
-- (services/account_link_request_service.py); the agent writes the user's key to the account's
-- authorized_keys, and takes it out when the link is revoked. A middleware limits how many
-- requests a user makes, and locks a subject after failures. Users log in with a password, and
-- get theirs by a one-time token (services/auth_service.py); administrators create, promote and
-- disable them (services/user_service.py), and a disabled user loses links and grants.
--
-- The files. Data: the status columns with their transition tables (Status), the tables with the
-- CHECK constraints of models/reservation.py and the 65535 bytes of its TEXT columns, which MySQL
-- refuses to exceed in its strict mode (Row), the exceptions (Error), the methods of `str` that
-- the program calls (Strings). Session: what a session holds (Tables), actions that may raise
-- (Exec), the side records (Write), and rules for reasoning about tables (Rows, Rule). Booking:
-- `_window_active_reservations` and `_classify_conflict` (Conflict), the checks without a lock
-- (Validate), the times as they are given (Given), `create_reservation_batch` (Create),
-- `preview_conflicts` (Preview), `modify_reservation` (Modify), and what they do to the load of a
-- GPU (Capacity). Lifecycle: `transition_to_*` (Transition), `update_script_status`,
-- `mark_script_dispatched` and the log tail (Script), `cancel_reservation` and `cancel_group`
-- (Cancel), the agent's events (Events), and the state machines as relations (Moves). Scheduler:
-- the first three actions of `_tick_body` (Tick), the fourth and the transaction (Watchdog),
-- loops whose rounds return (Loop) and the progress of a tick (Progress),
-- `with_serializable_retry` (Retry). Api: the end of a request and of a push (Request), and
-- sequences of operations (History). Recommender: services/schedule_recommender.py, with its
-- sweep (Sweep), where its windows lie (Spans, Sound), and windows that cannot be booked
-- (Defects). Accounts: the tables (Tables), the writers of account_link_service.py (Links,
-- Revoke) with sequences of them (Unique, Keeps) and what a revocation and an upgrade leave
-- (Revoked, Removed), and the writers of account_link_request_service.py (Requests, with Approve
-- and Retry) with the decisions of a request (Decisions) and its key (Stranded, Pushed).
-- RateLimit: the in-process window of backend/corelab_backend/middleware/rate_limit.py (Window),
-- the budget of requests (Budget) and the lock after failures (Lock). Agent: the handlers of
-- agent/corelab_agent/authorized_keys.py (AuthorizedKeys), a line of the file (Line), its
-- rewriting (Rewrite), and pushing and revoking one after the other (RoundTrip, Restore, Hidden);
-- and agent/corelab_agent/grace_tracker.py (Grace). Users: the tables (Tables), the keys of
-- services/ssh_key_service.py and ssh_key_helpers.py (Keys), `authenticate`, security.py and
-- `get_current_user` of auth_dependencies.py (Login), setup tokens and invites (Tokens),
-- `activate` (Activate), the operations of user_service.py (Manage) with the cascade of
-- `disable_user` (Access), and sequences of all of them (Operations, Admins). Tests: sample
-- states, and the theorems at them.
--
-- Conventions. A session is passed through the code explicitly; what was written before an
-- exception stays written until the transaction's end decides. The session factory has autoflush
-- off, and an ORM object is the row with its primary key in the session: an attribute assignment
-- is an update of that row, and a flush is where the constraints refuse it; a flush in Accounts
-- checks the unique constraint of the table that was written. An instant is a number of
-- microseconds, of milliseconds in RateLimit and Users. The times of a request that creates or
-- edits reservations are the readings of their clocks, which the code takes for UTC without a
-- conversion (`replace(tzinfo=None)`), and the start of a script has the offset of its window (an
-- edit's is converted to UTC before); the preview takes the times with their offsets, or without
-- (Booking/Given). A script is its UTF-8 bytes, other text its code points. The clock, the UUID
-- of a group and the tables that the services only read are parts of the session or arguments, as
-- is what becomes of a call of the agent: a reply, offline or timed out, or any other exception,
-- which the services do not handle and which undoes what they wrote. Arguments are also the
-- subject of a token and the fingerprint that `base64` and `hashlib` give a key; in Users the
-- packages for hashing and randomness are one record of functions, with the collation by which
-- the database compares names, and the theorem that needs it states what bcrypt promises as a
-- hypothesis. Loops run over lists, and the retries over the attempts left, so nothing needs fuel
-- beyond the source's own bound. The counters that the scheduler only logs are left out; the rows
-- that it counts are collected in lists.
--
-- Not modelled: concurrent transactions (each operation runs alone, as its locks and the
-- isolation level intend), the texts composed for display, request addresses, the RPC that
-- follows a tick's commit, the cancel of a running script with its wait for the agent, the path
-- of the rate limits through Redis, the agent's mock mode and its temporary files, in Users the
-- rollback of a request after an error that its endpoint does not expect, the lists that only
-- read, the actor and the lab of the audit rows on links, requests and users, the setup wizard
-- and the endpoints that send invitations, and the rest of the program (policies, alerts,
-- telemetry, most of the agent, the frontend).
pub mod Prelude
pub mod Data
pub mod Session
pub mod Booking
pub mod Lifecycle
pub mod Scheduler
pub mod Api
pub mod RateLimit
pub mod Agent
pub mod Recommender
pub mod Accounts
pub mod Users
pub mod Tests
