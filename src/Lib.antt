-- ===== src/Lib.antt =====
-- Kiln: a self-hosted CI/CD platform. A control plane in Go (server/) signs users in, authorizes their
-- requests, turns a push into a run of jobs, and hands queued jobs to runners under leases; a runner
-- (runner/) executes a job in a container and masks secret values before its output leaves the host.
--
-- Which file models which part:
--
-- Domain, Domain.Role: server/internal/domain/run.go, role.go and the sentinel errors of errors.go.
-- Engine.States: server/internal/engine/states.go, the edges of the run and job state machines,
--   RunTransition, JobTransition, InitialRunStatus and RunOutcome. A Go error is an Option of the
--   sentinel that it wraps.
-- Engine.Parse: server/internal/engine/spec/parse.go. Engine.Yaml has the node walkers,
--   Engine.Yaml.Structure checkStructure, Engine.Images imagePattern as a regular expression and its
--   matcher, Engine.Parse.Jobs the jobs and Parse itself. A parser
--   is a function of the problems found so far; a closure that fills in a variable is a function of the
--   value being built. Names of the model: read_document is the method parse.
-- Engine.Spec, Engine.Spec.Glob: the triggers and the branch globs of server/internal/engine/spec/spec.go. The
-- two rows of the matcher's table are lists that the outer loop makes anew. Only the tokenizer takes
-- fuel, one round for each byte of the pattern; more fuel gives the same tokens.
-- Authz, Authz.Policy: server/internal/auth/authz: the policy table with every action, Check,
--   RoleAllows and AllowsAction. The membership lookup, an interface that the store implements, is a
--   function argument; its answer is a role or an error.
-- Mask: the streaming writer of runner/internal/mask/mask.go. Writer is the Go struct, and write,
--   close and emit its methods; the arrays and loops of emit are mark, scan and render. Mask.Compile is
--   the part of New that builds the pattern table and the prefilter from the patterns, and
--   addWrapPieces. The underlying io.Writer is a function argument over a state of its own, with
--   whether it failed. The mutex is left out: each call is atomic.
-- Engine.Dag: server/internal/engine/dag/dag.go. Plan is index_nodes, link_nodes and the loop kahn, whose
--   fuel is the number of nodes; Advance is in Engine.Dag.Progress. A Go map is an association list, or
--   a function where it is only read.
-- Leases: the job table: the guarded updates of server/internal/store/db/leases.sql.go and runs.sql.go,
--   and the methods of store/leases.go and store/runs.go that the scheduler calls. An update selects
--   rows of a list and sets columns; the columns of the log, of the steps and of the needs are left
--   out. Leases.Changes lists the calls and what their callers check first. A transaction's locks make
--   each call atomic, so a history is a list of calls; other errors of the database are left out.
-- Scheduler: server/internal/scheduler/progress.go and lease.go over the tables of runs, jobs and
--   runners. A call on the store is a state function that may fail; InTx rolls its writes back on an
--   error, as pgx.BeginTxFunc documents, and a call that joins a transaction runs bare. The clock, the random lease ids, the observer
--   of run changes, sanitizeReason and the printing of a duration are arguments. The ticker of
--   RunReaper is left out.
-- Runs: the transactions of CancelRun and ApproveRun in server/internal/service/runs/runs.go over the
--   same tables. Authorization and the first read of the run come before them; the audit log is an
--   argument.
-- Secrets: server/internal/secrets: the contexts, Seal and Open of seal.go; Secrets.Local is local.go, and
--   Secrets.Keyring keyring.go. The cipher and the key derivation are records of functions, whose
--   documented laws are hypotheses; random bytes, the hash, readings of the clock and,
--   in the key ring, the key wrapper's answer to each call are arguments.
-- Paging: server/internal/service/paging/paging.go and server/internal/platform/ids/ids.go. An id is made
--   of two words of 64 bits; the shifts of encode are divisions and remainders.
-- Upload: runner/internal/agent/upload.go: Write and flush, each round of the loop a function of the
--   server's answer. The loop has fuel; writes between the locked sections of a flush are left out, as
--   are the pauses, the channels and the log lines.
-- Base: shared names, Boolean tests, lists over the native numbers, and equality.
--
-- Texts that the code only compares are String; texts that it walks are lists of bytes, numbers below
-- 256. Go's int is ℕ where it cannot be negative, and ℤ for a rank. Apart from the
-- tokenizer, each loop runs over a list or a count that the code fixes before it starts.
--
-- Not modelled: the encodings that New masks (hex, base64, URL and JSON escapes), the Vault wrapper, sessions
-- and tokens, the GitHub integration, logs, rate limits, configuration, and the CLI.
-- HTTP and gRPC glue, generated code and the web and desktop clients are left out too.
pub mod Base
pub mod Domain
pub mod Engine
pub mod Authz
pub mod Leases
pub mod Scheduler
pub mod Runs
pub mod Secrets
pub mod Paging
pub mod Upload
pub mod Mask
