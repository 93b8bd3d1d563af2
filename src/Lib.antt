-- ===== src/Lib.antt =====
-- The core of tmidb-core, a time series server in Go: its memory cache, its process manager, its
-- logger, its IPC server, the supervisor's configuration, logs, copies and backups, and the
-- middleware and the query language of its HTTP API.
--
-- Parts. The supervisor starts the other programs through the process manager, which answers
-- the messages of the command line client over IPC. The API answers HTTP requests: a request
-- passes the middleware (version, paging, authentication), and the handlers parse its
-- parameters into filters for the database. The cache keeps values by key for a time. The
-- logger writes what the processes print to a file for each of them.
--
-- Base: what the parts share. A Go string is a list of bytes (`Text`), an int or int64 that may
-- be negative an integer (`ℤ`), and a map with string keys an association list in the order in
-- which a `range` loop meets it (Base/Dict). Base/Strings is what is used of Go's packages
-- strings and strconv.
--
-- Cache (internal/cache/memory_cache.go). Cache/Pattern is `matchPattern` with `split` and
-- `indexOf`; Cache/Store is the state `MemoryCache` with `Set`, `Get`, `Delete`,
-- `DeletePattern`, `Clear`, `Exists`, `Keys`, `Stats`, `performCleanup`, `evictOldest` and
-- `Close`; Cache/Invalidate is `GetString`, `GetJSON`, `SetJSON`, `InvalidateCategory` and
-- `InvalidateTarget`. Each operation is a function on the state, as each holds the mutex;
-- `Get`, which gives it up between its test of the expiry and its deletion, has its second half
-- apart (`get_expired`). Cache/Trace is the relation of the steps, with the order of iteration
-- free to change between them. A time is the nanoseconds since Go's zero time, and is an
-- argument; `performCleanup`, which reads the clock for each entry, takes a time for each key.
-- The loop of `split` runs on fuel, one more than the length of the text: it gets shorter by
-- the separator in each round, so the fuel is enough. `HitRate` is kept as the operands of its
-- quotient.
--
-- Process (internal/process/manager.go). Process/Control is `RegisterProcess`, `StartProcess`,
-- `StopProcess`, `RestartProcess`, `AttachProcess`; Process/Watch one report of `watchProcess`
-- and of `watchAttachedProcess`; Process/Stats the lists and the statistics; Process/Handlers
-- the answers to messages. What the operating system answers (whether a process could be
-- launched, whether it is still there at each look) is an argument, and the signals sent are a
-- result. The wait for an end has at most five looks, as in the source. Each call is run to its
-- end; the watchers' reports come between calls. Process/Shutdown is `Stop` with
-- `forceStopAll`.
--
-- Api. Api.antt is the context of a request, with `c.Locals` as fields. Api/Version and
-- Api/Pagination are internal/api/middleware/version.go, Api/Token is token_auth.go,
-- Api/Session is auth.go; Api/Bearer and Api/Claims describe, apart from that code, the header
-- that bears a token and what claims grant, and Api/Granted and Api/Paged compare the code with
-- such descriptions. Api/Query is internal/api/handlers/query_parser.go, Api/Chain is
-- `setupVersionedRoutes` in internal/api/routes/routes.go. fiber's `c.Next()`, the hash, the
-- database and the session store are arguments. In Api/Query a pattern `^(.+)op(.+)$` is the
-- last occurrence of the operator with text on both sides; the pattern's dot does not match a
-- line feed, and parameters are taken to hold none.
--
-- Logger (internal/logger/manager.go). Logger/Writer is `Write` and `rotate`, Logger/Policies
-- is `SetLogPolicy`, `GetLogPolicy`, `GetWriter` and `WriteLog`, Logger/Retention
-- `cleanupComponentLogs` and `cleanupOldLogs`. What the file system answers is an argument; a
-- file's content is the list of its entries, with those that the buffer still holds.
--
-- Ipc (internal/ipc/server.go, types.go, and `handleLogStream` and `streamLogsToConnection` of
-- internal/supervisor/supervisor.go). Ipc/Stream is the log streams: the channels lie in a
-- store, since the table and the goroutines share them, and a panic of a send or of a close is
-- `none`. Ipc/Table is the table of connections, Ipc/Serve the loop of `handleConnection`,
-- which runs on fuel over a sequence of turns; a turn that ends the loop makes the fuel up to
-- it enough. Ipc/Trace is the relation of the steps of all goroutines: accepting a connection
-- and registering it are two steps, as the source does the second in a new goroutine.
-- encoding/json, the handlers, the identifiers of connections and what a read returns are
-- arguments. A handler that panics or never returns gives `none`; of the supervisor's handlers
-- only that of log streams touches the streams (Ipc/Behaved), and nothing else is asked of the
-- others.
--
-- Supervisor (internal/supervisor/supervisor.go). Supervisor/Keys and Supervisor/Store are the
-- configuration and the messages that read, set, import and reset it, Supervisor/Validate
-- `handleConfigValidate`. Supervisor/Recent is `handleGetLogs` with the readers of log files,
-- where a panic is `none` and the library's sort takes the code's comparison; Supervisor/Logged
-- says apart from the code what log files hold. Supervisor/Copy is the copy sessions with their
-- messages, Supervisor/Stop `handleCopyStop`, and Supervisor/Worker the goroutines, each with a
-- place in its code; Supervisor/Session runs any sequence of requests and of steps of
-- goroutines. The source writes the fields of a session one after another without a lock, so a
-- goroutine's status, error, count of bytes and end time, and the two writes of a request to
-- stop, are steps of their own. Sessions lie in a store, since the table and the goroutines
-- share them.
--
-- Backup (internal/supervisor/supervisor.go). Backup/Archive is what the components of a backup
-- write and what those of a restore read, Backup/Perform `performBackup` and `performRestore`,
-- Backup/Table the messages and their tables, Backup/Listing the messages that list and verify
-- backups, Backup/Verify `verifyBackup`. An archive is the list of its entries. The loop of
-- `verifyBackup` runs on fuel, one round for each entry and one for the end.
--
-- Not modelled: the rest of the supervisor, the command line client, the IPC client, the database
-- layer and its SQL, migrations, the bus and data consumers, the configuration, the other
-- handlers, `VersionMiddlewareOld`, and in the process manager the capture of output and logs:
-- input and output, SQL, or not yet done. Interleavings inside a locked region are not modelled
-- either, nor are failures of the runtime other than those of a closed channel and of a slice of
-- log entries.
pub mod Base
pub mod Cache
pub mod Process
pub mod Api
pub mod Logger
pub mod Ipc
pub mod Supervisor
pub mod Backup
