-- ===== src/Lib.antt =====
-- Verification of mtlogin: a daemon that keeps an M-Team account alive. At the times of a crontab it
-- logs in (or reuses a stored login), opens a browsing session, reads the profile, updates the time of
-- the last visit, and tells the user by a notification how it went.
--
-- The parts, and the files that model them:
--
-- internal/domain (error.go, errno.go, identity.go, login_request.go, profile.go): Domain.antt,
--   Domain/Codes.antt; the Go error values it is used with: Errors.antt. An error is a tree of
--   wrappers; `errors.Is` and `errors.As` walk it.
-- internal/store (store.go, leveldb.go): Store.antt, one function per method of LevelDBStore, on the
--   database and the epoch. LevelDB is not part of the repository: Store/Database.antt takes it as a
--   parameter with its documented behaviour. Store/Contract.antt is what the clients rely on, and
--   Store/Implements.antt shows that leveldb.go fulfils it. Store/Opening.antt has Open and Close.
-- internal/refresh: Refresh/Message.antt (message.go), Refresh/Contracts.antt (contracts.go: the
--   login, the browsing client and the notifier, as parameters), Refresh/Checks.antt (checks.go),
--   Refresh/Auth.antt (auth_manager.go), Refresh/Service.antt (service.go and auth.go).
--
-- internal/runtime: Runtime.antt (runtime.go). The atomic operations of TryRun and Stop are steps of
--   numbered calls, and an interleaving is a list of steps. In Runtime/Exclusion.antt the invariants of
--   all interleavings, in Runtime/Alone.antt a call that runs undisturbed.
--
-- pkg/apikit/internal/mtproto (response.go) with apimtauth/errors.go, apimtbrowse/errors.go and the
--   error mapping of internal/app/mteam_adapter.go: Protocol.antt. A response of the server becomes an
--   error of the protocol, then of the package that sent the request, then a business code, by which
--   internal/refresh decides whether the login has expired.
-- pkg/apicore: Context.antt (context.go, with pkg/log/context.go), Http.antt (types.go, client.go,
--   headers.go, tripper_proxy.go, request bodies of logging.go), Logging.antt (tripper_logging.go,
--   logging.go, ToHTTPHeader) and TlsClient.antt (tlsclient.go), where requests and calls of Close are
--   steps that are interleaved; TlsClient/Options.antt reads the options of an HTTP client. Logging/Exchange.antt puts the logging before the clients, which the
--   other files model without it.
-- pkg/apikit/internal/mttransport: Transport.antt, the round trippers that put the identity of a session
--   into its requests and take a new DID from the responses.
-- pkg/apikit/apimtauth (client.go, login.go, totp.go) and pkg/util/string.go: Login.antt.
-- pkg/apikit/apimtbrowse: Forum.antt (forum.go), `BrowseForum` over the phases of a session,
--   Forum/Phases.antt, the phases over its requests, and Browse.antt (client.go, session.go, system.go,
--   profile.go, member.go), the requests over the transport. Browse/Client.antt puts the adapter of
--   internal/app (mteam_adapter.go) before them: it is the client of Refresh/Contracts.antt.
-- internal/scheduler (scheduler.go): Scheduler.antt. Start, Stop and the jobs are steps in any order.
-- pkg/log: Log.antt (sanitize.go, message.go), over JSON values (Json.antt), and Log/Context.antt
--   (context.go, and pkg/util/log_id.go), the contexts as far as the log ids go.
-- pkg/apikit/apinotify: Notify/Channels.antt (the config.go of the six channels), Notify/Post.antt (their
--   Send), Notify/Manager.antt (manager.go, config.go, errors.go, message.go, base/base.go, and
--   notify_adapter.go of internal/app), Notify/Desk.antt (manager.go with its lock: calls of Notify and
--   Close as steps in any order), and Notify/Loading.antt (LoadConfig, with LoadTOML of pkg/conf).
--   Notify/Adapter.antt shows that the manager behind its adapter is the notifier of
--   Refresh/Contracts.antt, where its channels leave the store alone.
-- pkg/conf (app.go, loader.go), apimtauth/config.go, apimtbrowse/config.go and internal/app/config.go:
--   Config.antt.
-- internal/app/app.go and main.go: App.antt. Of what New builds the model keeps which parts are open.
--   App/Assembly.antt puts the service together, as New does, from the client of the login behind its
--   adapter (mteam_adapter.go), the sessions, the notifications and the store, over one TLS client;
--   App/Success.antt follows a run of it, by what Refresh/Service/Success.antt says of any run.
--
-- Scopes.antt: the round trippers that NewClient of apimtauth and NewManager of apinotify put before the
--   one TLS client, and which of their requests carry cookies.
--
-- Each of these has the theorems in files of its own below it; Tests/ has concrete inputs.
--
-- A run reads and writes the identity through the contract of the store, with the epoch that it read:
-- a reset moves the epoch on, so that an older run cannot write its identity back.
--
-- State is passed explicitly: a Go function on shared state takes the state and returns it. Where the
-- order or the arguments of calls matter, Refresh/Calls.antt notes each call in a list; only theorems
-- read it. The order in which Go ranges over a map is an argument (RangeOrder). A context is the value
-- of what it was derived from; when it ends is not modelled: a call under an ended context is one that
-- returns an error. A value beside a non-nil error is modelled only where a caller reads it. uint64
-- epochs wrap at 2 ^ 64. The fuel of `decimal` is the number that is printed and so at least the number
-- of its digits; that of `login_fuel` is 2, as a login calls itself once at most. Floating-point
-- formatting is a parameter (Format).
--
-- The libraries that the code calls (JSON, TOML, crontabs, base32, HMAC, string trimming, float64,
-- LevelDB, the random source and the clock) are parameters, records of functions named in the file that
-- uses them. A nil receiver, which no caller has, is left out.
--
-- The goroutines of Manager.Notify run one after the other in any order, each as a whole; in
-- Notify/Desk.antt in any order with those of other calls. A request of the TLS client that has its HTTP
-- client ends by a step of its own, in any order with the others.
--
-- Not modelled: the loggers, which only write (pkg/log: logger.go, formatter.go, hook.go), the trippers
-- Headers and Header of pkg/apicore, which nothing uses, and Start and RunOnce of internal/app, which
-- are calls with any result. Regular expressions, addresses and multipart bodies are parameters.
pub mod Prelude
pub mod Decimal
pub mod Errors
pub mod Context
pub mod Http
pub mod Domain
pub mod Json
pub mod Store
pub mod Refresh
pub mod Runtime
pub mod Scheduler
pub mod Protocol
pub mod Log
pub mod Forum
pub mod Transport
pub mod Browse
pub mod Notify
pub mod TlsClient
pub mod Scopes
pub mod Logging
pub mod Login
pub mod Config
pub mod App
pub mod Tests
