-- ===== src/Lib.antt =====
-- hermeshooks runs webhooks at set times. Clients schedule jobs through a REST API; a job is a row of a
-- Postgres table, in a partition. Worker processes register with the API, and each takes the jobs of its
-- partition that are due, makes the HTTP request, and stores how it went. When workers come and go, the
-- API deals the jobs out again among the partitions of the workers there are.
--
-- Entities            internal/entities: jobs, executions, users, statuses.
-- Storage.Models      internal/storage/models.go: rows, and the conversions from and to entities.
-- Storage.Sql         statements, round trips that may fail, and transactions with a deferred rollback:
--                     `Sql A` is a function from a database to a result and the database after it.
--                     Children: rules for what every block of statements keeps or returns.
-- Storage.Columns     the constraints of migrations/ that an INSERT meets.
-- Storage.Due         SelectJobsForExecution of internal/storage/db.go.
-- Storage.Balance     ReBalance of internal/storage/db.go and its statements. Storage.Balance.Even is about
--                     how many jobs each partition has afterwards.
-- Storage.Queries     the other functions of internal/storage/db.go, one row each.
-- Storage.Listen      Listen of internal/storage/db.go.
-- Storage.Connect     New and Close of internal/storage/db.go.
-- Storage.Ids         the ids of jobs, and what the operations do to them.
-- Common.Power        ExpSquaring of internal/common/common.go.
-- Common.Retry        RetryDo of internal/common/common.go.
-- Common.Random       RandomString of internal/common/common.go.
-- Cryptoutils         internal/cryptoutils/cryptoutils.go: keys and hashes, with their sizes.
-- Workers             internal/services/workers/workers.go: the registry (Workers), the goroutines that
--                     watch it and the histories of its events (Workers.Events), rebalance
--                     (Workers.Rebalance). Workers.Balancer is the step relation of StartReBalancer, its
--                     channel and those who send into it.
-- Monitor             internal/worker/monitor.go: a round of the loop that selects jobs and waits.
-- Worker              internal/worker/worker.go: a worker process that registers, reports its health and
--                     leaves. Worker.Wire joins it to the router of the API; Worker.Pipeline is the step
--                     relation of the goroutines and channels of monitor.go and executor.go.
-- Life                the life of jobs as users know it: an abstract machine over cards, and the histories
--                     of the operations that write the table of jobs.
-- Executor            internal/worker/executor.go: one job carried out and stored.
-- ScheduledJobs       internal/services/scheduledjobs/scheduled_jobs.go: Schedule and Get.
-- Auth                internal/services/auth/auth.go: the middleware, InternalApi, Signup. Auth.Keys
--                     joins it to Cryptoutils.
-- Rest                internal/rest: the handlers, their validation, errors as responses (Rest.Errors), and
--                     the router with its middlewares (Rest.Router); what is logged (Rest.Log), and the
--                     server around the router (Rest.Server).
-- Cmd                 cmd/hermeshooks/main.go: the configurations, and the commands that start a server
--                     (Cmd.Server) or a worker (Cmd.Worker), or insert fixtures (Cmd.Fixtures).
--                     Cmd.Boots joins the first two over the wire.
-- Prelude             lists, Boolean tests, sorting and tables, shared by all.
-- Tests               concrete systems, and the theorems applied to them.
--
-- A function keeps its name, in snake_case. Times are nanoseconds since Go's zero time; an `int` that the
-- program never makes negative is a natural number, and others are integers. ExpSquaring works on 64-bit
-- patterns; its loop halves the exponent, so its 64 rounds are enough for every one. RetryDo recurses on
-- the attempts that are left, the fixtures on the jobs that are left, and lists on themselves; nothing else
-- loops.
--
-- The goroutines of a worker interleave freely: Worker.Pipeline.Step has one constructor for each thing that
-- one of them may do next, beside what other workers and the API do to the table. A request to the API is
-- served in one step; over the wire of Worker.Wire a handler that waits for ever is the client's timeout.
--
-- Parameters: the database server (which round trips fail, and whether a commit that fails was carried
-- out, in which order it meets rows, what a VARCHAR stores, what a TIMESTAMP keeps of a time: less than a
-- microsecond is cut off), the order in which Go ranges over a map, the HTTP client, net/http on the wire,
-- JSON, the cryptographic libraries, envconfig, the parsing of connection strings, of URLs and of
-- addresses, uuids, random bytes and numbers, and clocks. But in Auth.Keys and Cmd, a hash and a new key
-- are parameters, too.
--
-- Not modelled. Transactions run one after another: SELECT ... FOR UPDATE and the isolation level are not
-- in the model. The range of INTEGER columns other than `retries` and the saturation of time.Sub are left
-- out. Texts are without the character NUL, which Postgres does not store, and times are before the year
-- 10000. A time in a condition is compared to the nanosecond. A statement that fails outside of a
-- transaction has had no effect. The worker service's calls each run as one step under its lock, and a
-- goroutine's turn is a step; a lock that is never released is in the model. A LIMIT of zero is no limit,
-- as the query builder has it. A call that fails is its error alone, without the values that the code
-- returns beside it. The pipeline of a worker has no rebalance in it, which may set claimed jobs back.
-- Timers say only when something may happen. What pgdriver does with a connection string that it cannot
-- read, NewLogger, StatsPrinter and the example program are not modelled.
pub mod Prelude
pub mod Entities
pub mod Storage
pub mod Common
pub mod Cryptoutils
pub mod Workers
pub mod Executor
pub mod Monitor
pub mod ScheduledJobs
pub mod Auth
pub mod Rest
pub mod Worker
pub mod Life
pub mod Cmd
pub mod Tests
