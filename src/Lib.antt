-- ===== src/Lib.antt =====
-- Pantau is an agentless server monitor: it reaches its hosts over SSH, checks them against desired
-- rules, records incidents, metrics and diagnoses in SQLite, and serves a web dashboard and a public
-- status page. This library models its own logic, by component:
--
--   Logger       internal/logger/logger.go: the event broadcaster with its ring buffer and its
--                subscribers (Broadcast, Subscribe, History), the redaction of secrets (RedactAttrs,
--                RedactString, IsSensitiveKey) and the slog handler that feeds it (Handle, Emit).
--   Totp         internal/web/totp.go: GenerateOTP, ValidateTOTP, HashRecoveryCode and
--                ValidateRecoveryCode.
--   Auth         internal/web/server.go: authMiddleware, issueSession, handleLogin, handleLogin2FA,
--                handle2FASetup, handle2FAEnable, handle2FADisable, handleChangePassword and
--                handleLogout on one server state, and any sequence of requests of them (Requests).
--   RateLimiter  internal/web/rate_limiter.go: the sharded token buckets (Allow), the reaper
--                (StartReaper) and resolveClientIP.
--   Store        internal/store/db.go: the tables and statements that the inspector uses.
--   Shell        shellQuote of internal/inspector, internal/storagetriage, internal/netdiag,
--                internal/transfer and internal/web, and how a POSIX shell reads its result.
--   Inspector    internal/inspector/inspector.go: evaluateRule and parseDf (Verdicts, Files, Rules),
--                evaluateDesiredRules (Drift) and InspectHostWithTimeout (Outcome).
--   StatusPage   internal/store/status_page.go and updateStatusPageRollups of internal/inspector:
--                daily rollups (RecordDailyRollup, in Uptime), the status of a target (Targets), the
--                90 days (History), incidents (Incidents) and GetPublicStatusSummary (Overall).
--   Reclaim      internal/storagetriage/storagetriage.go: ValidateReclaimRequest, the two tests of
--                file names, and the command line of ExecuteReclaim.
--   Triage       the same file: CheckThrottle, and RunTriage with its guard against two calls for a
--                host, as steps of any interleaving, with scripts that linger after a cancellation.
--   Updater      internal/updater/updater.go: CompareVersions.
--   Netdiag      internal/netdiag: AnalyzeHops (Netdiag), the lines of a trace (Parsers), what the other
--                commands print (Outputs), ExecuteProbe (Probe), the request of a triage (Request),
--                ExecuteTriage (Verdict) and the cycle of automatic triage (Auto). Decimal numbers
--                are in millionths; regular expressions and package net are parameters.
--   Transfer     internal/transfer/transfer.go: the life of a transfer job as events (Transfer), and the
--                manager with its list (Manager). A percentage is its whole part. A history has at most
--                seven events of the job's own goroutines, so that no fuel is needed.
--   Terminal     internal/web/handlers_native_terminal.go: texts of the native terminal (Terminal), how
--                bash reads them (Bash, Shells), which terminal is started (Launch), authorized_keys (Keys), tickets and their handlers
--                (Tickets).
--   Snapshot     internal/snapshot/snapshot.go: the encrypted file (Snapshot), the GitHub client (GitHub),
--                and backups and restores (Backup).
--   Tunnel       internal/web/handlers_tunnel.go: the routes of a tunnel (Tunnel) and the pool of its
--                connections (Pool).
--   Updater/Install
--                internal/updater/updater.go: Check with its cache, and ApplyUpdate.
--   Main         main.go: the settings of the start, the port to listen on (Ports), and a cycle of
--                inspections (Cycle).
--   Instance     internal/instance/guard.go: Acquire and Close as steps of processes in any order, on
--                systems with flock.
-- Common holds what they share: Boolean tests, lists, texts as lists of bytes, maps as association
-- lists with the laws of lookup, integers and decimal numerals. The Examples modules run the
-- definitions on concrete inputs.
--
-- How the parts interact: the login handlers of Auth call the validation of Totp; the checks of
-- Inspector quote their arguments with Shell and read and write the tables of Store; the
-- status page reads the same tables and the rollups that an inspection records. The rate limiter and
-- the logger stand alone: the other parts call them.
--
-- Conventions. A method under a mutex, and a handler between two reads of the clock, is one step; a
-- sequence of steps is a list or a chain of a step relation, so that every interleaving is some
-- sequence. Times are natural numbers: of seconds, of nanoseconds in RateLimiter, Triage and
-- the cycles of Main, of microseconds in Netdiag. An int is a natural number where the code keeps it from
-- being negative, and otherwise the ℤ of Common.Int; no number here comes near
-- 2^63 but the poll interval of Main, whose wrap is written out. Floats are exact
-- numbers. Errors of the database are left out: each handler that reads a row has the branch for a
-- missing row. Loops are structural recursion over the list they range over, with no fuel but the
-- twenty digits of a numeral and the 32 bits of a hash.
--
-- Parameters, with what is asked of them where a theorem needs it: the decoders and HMAC-SHA1 of the
-- standard library (20 bytes long), bcrypt, the parsing of IP addresses, the answers of a host to the
-- commands that are run on it, and the float formats of fmt.
--
-- Not modelled: HTTP and WebSocket transport and JSON, SQLite itself, SSH (internal/sshrunner), the
-- file system, process and terminal handling, the embedded user interface, and the parts that the
-- manifest lists as such.
pub mod Common
pub mod Logger
pub mod Totp
pub mod Auth
pub mod RateLimiter
pub mod Store
pub mod Shell
pub mod Inspector
pub mod StatusPage
pub mod Reclaim
pub mod Triage
pub mod Updater
pub mod Netdiag
pub mod Transfer
pub mod Terminal
pub mod Snapshot
pub mod Tunnel
pub mod Instance
pub mod Main
