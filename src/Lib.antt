-- ===== src/Lib.antt =====
-- Zaman captures SIP traffic, by itself and from HEP agents, keeps counters and the latest
-- records, writes the records to PostgreSQL, and serves reports; a web front end adds users and
-- logins. This library models the capture core, the database writer, the API with its reports, and
-- the front end's accounts and gate, and proves what they promise.
--
-- The parts, and the files that model them:
-- - Core: core-go/main.go. Config is loadConfig over a function for the environment. Metrics, Ring
--   and the queue in front of the writer make up State, which all workers share; queue is the
--   `select` with a default that drops a record when 4096 are waiting.
-- - Sip: core-go/sip.go. parse_sip is parseSIP, Sip.Redact redactSIP, Sip.Record makeRecord,
--   Sip.Echo echoAllowed and buildEcho, Sip.Worker the body of sipWorker for one datagram.
-- - Hep: core-go/hep.go. hep_decode is hepDecode, Hep.Auth the password and the allow list,
--   Hep.Handle handleHEPPacket, Hep.Drain drainHEPFrames for any handler of a frame, Hep.Session
--   hepTCPSession over the list of its reads and a connection of hepTLSWorker. Hep.Format writes
--   the wire format down independently.
-- - Workers: main starts the workers; here they are steps on State, and Reach is a run of them in
--   any order.
-- - Db: core-go/db.go. Db.CallState is the upsert of call_state, Db.Batch dbBatchInsert over the
--   three tables, Db.Writer flush and the loop of dbWriter, Db.Record the json.Unmarshal of a
--   record that makeRecord wrote, Db.Partitions the daily partitions and their retention.
-- - Reports: core-go/reports.go. Reports quotes values in SQL and CSV, Reports.Clause builds the
--   conditions and limits of the queries, Reports.Number, Reports.Agents, Reports.Trends,
--   Reports.Calls and Reports.Messages are the figures and the JSON over the rows of a query,
--   Reports.Realtime and Reports.Anomalies also the counts that their queries make;
--   Reports.Grouped is the grouping of the tables; Reports.Templates has the Sprintf templates of
--   the rows as the code spells them.
-- - Api: core-go/api.go. Api is the middleware in front of every route (apiRateLimiter, clientIP,
--   requireAuth); Api.Routes the handlers that pass parameters on or answer from the cache,
--   Api.Message, Api.Export, Api.AlertConfig, Api.Stats, Api.Related, Api.Delete and Api.Health
--   the others. Api.Alerts is a tick of core-go/alerts.go.
-- - Cache, Probe and Qos: core-go/cache.go, core-go/probe.go and core-go/qos.go.
-- - Web: web/main.go. Web.User, Web.Token and Web.Session are hashPW, makeToken, verifyToken,
--   getUser and doLogin, Web.Users the users file and its handlers, Web.Limiter the limiter and
--   /login, Web.Stores the saved searches and the node names, Web.Front the proxy and the static
--   pages with the core behind them, Web.Secret loadOrCreateSecret.
-- - Text: what of Go's library these parts use, and jesc, under the names of the library: split is
--   strings.Split, cut the first part of a split in two, trim_space, to_lower, sscanf, atoi,
--   Base64. Text.Json.Value is JSON as the code writes it, piece by piece, and a reader of it.
-- - Base: names of the libraries passed on, tests on numbers, lists by native numbers. Tests
--   applies each result at a concrete input.
--
-- The parts interact through the queue and the tables: a worker makes a record and queues its
-- text, the writer reads a batch of texts back and inserts it, and the reports, the cache and the
-- alerts read the tables. Every request goes through the middleware, and the front end forwards to
-- it with the core's key.
--
-- State is passed on: an operation takes the state as its last argument and returns it. Errors are
-- values: none, or a constructor of the answer.
--
-- Text is a list of bytes. ToLower, ToUpper and EqualFold work on ASCII; TrimSpace and Fields know
-- all white space of Unicode in UTF-8. Offsets into a buffer are what is left of the buffer. A
-- number that the code keeps in 16 or 32 bits is built from bytes, so it has no other values;
-- ports, identifiers and statuses that are parsed are checked against int64; counters and the
-- ring's index are numbers without a bound, which no run can count to 2^63. The text that %v
-- prints of a number of a parsed JSON is that of a float64 which holds it exactly, below 2^53.
-- Times are milliseconds or seconds since the epoch, those of partitions since the year 0.
--
-- Loops whose end is not plain are on fuel: hepDecode's on the length of the packet and
-- drainHEPFrames's on the length of the buffer. Each round takes a byte or more away, and the
-- theorems on both loops hold for this fuel; the ones for streams state every frame that is
-- handled, so no frame is lost to the fuel. The walk over RTCP packets and the reader of JSON have
-- the length of their text, and theorems show that it is enough. Only the calls of /api/stats have
-- no bound, so the theorem on them is for any fuel.
--
-- Parameters: the environment, the clock and the format of a day, the MAC (HMAC-SHA256 in
-- hexadecimal), json.Unmarshal in the writer (Db.Record gives it for the texts of makeRecord),
-- floating-point numbers, net.ParseIP, random texts, the answers of PostgreSQL, the builders of
-- the reports behind a route, and what a socket reads.
--
-- Not modelled: listening and deadlines, the interleaving of single counters inside a step, SQL
-- beyond the statements of the batch and the conditions, counts and groups of the reports (so the
-- order and the limit of the lists of calls and messages), the GeoIP lookup, the reading of the
-- alerts' configuration by their worker, the reading of files that are served, the login page, the
-- preferences of users, the bodies of the alerts' posts, a failed write of a file, and the older
-- core in src/core, which is in another language.
pub mod Base
pub mod Text
pub mod Core
pub mod Sip
pub mod Hep
pub mod Workers
pub mod Db
pub mod Reports
pub mod Api
pub mod Cache
pub mod Probe
pub mod Qos
pub mod Web
pub mod Tests
