-- ===== src/Lib.antt =====
-- A model of cognitiveosd, the background daemon of CognitiveOS (a Go program). The daemon owns a
-- Unix socket on which clients and MCP servers send JSON messages, one to a line. It talks to a
-- small raw model over another socket, which guards what the system does, to an inference engine
-- over HTTP, which runs the Wide Model, and to MCP processes over pipes, which hold the tools. A
-- client's prompt goes to the raw model, then to the Wide Model, whose text may call tools; what the
-- tools give goes back into the Wide Model's next prompt. System codes (wake, idle, security, reset,
-- unlock) change the daemon's state, and shut it down.
--
-- The files, and the code that they model:
-- - Config: internal/config/config.go (FromTOML, FromEnv, Derive, EnsureDirs) and the flags of
--   cmd/cognitiveosd/main.go.
-- - Protocol, Json: internal/daemon/types.go, the payloads and how encoding/json reads them;
--   Protocol.Decoding is the reading, Protocol.Env holds what the daemon talks to, Protocol.Uuid is
--   uuidV4.
-- - Wide: internal/daemon/wide_client.go. The client is a record of what it knows, and each method
--   gives the next client with its result.
-- - Raw: internal/daemon/raw_client.go, the connection and, in Raw.Requests, the five requests.
-- - Mcp: internal/daemon/mcp_lifecycle.go, the table of servers; Mcp.Rpc is Invoke, Mcp.Metadata is
--   fetchManifestMetadata, Mcp.Names reads the tools' names, Mcp.Cgroup is setupCgroup, Mcp.Process
--   is Spawn, DiscoverTools, Wait and the health checks, with Mcp.Process.Steps their interleaving;
--   Mcp.Silent says when an invocation waits for ever.
-- - Registry: the part of internal/daemon/daemon.go that reads patches and loads models
--   (buildModelRegistry, mergeSystemPrompts, hotSwapWideModel, loadWideModel).
-- - Audit: internal/daemon/audit.go, the figures of a resource audit.
-- - Daemon: the daemon's state (daemon.go) and its connections (socket.go); Daemon.Clients is the
--   table of clients, Daemon.Shutdown is shutdown, Daemon.Idle the idle timer, Daemon.Reports the
--   audit's saved and sent reports.
-- - Socket: internal/daemon/socket.go, the listener and ReadLoop; Socket.Table is the life of the
--   connections, as a step relation, and Socket.Replies what a connection gets for a line.
-- - Startup: New and Run of daemon.go; Startup.Patches is spawnPatchMCPServers and a round of the
--   tuning monitor.
-- - MockRaw: internal/testutil/rawmodel/raw_model_mock.go, the raw model of the tests;
--   MockRaw.Serving is its loop over a connection, MockRaw.Lifetime its start and its stop.
-- - Tools: parseToolCalls of internal/daemon/handlers.go.
-- - Handlers: the handlers of handlers.go; Handlers.Codes is handleSystemCode, Handlers.Loop toolLoop,
--   Handlers.Prompt processPrompt, and Handlers.Dispatch HandleMessage of daemon.go.
-- - Daemon.Evolution: how an action may change the daemon's parts, which is by their own operations
--   (Raw.Asked, Wide.Driven, Mcp.Process.Managed), and what a shutdown has taken down before it runs
--   commands; the files Moving hold it for each action. Life: all that comes to a daemon from its
--   start on, one turn behind the other, and what holds throughout.
-- - Prelude: shared names, tests on numbers, texts, dictionaries, paths. Tests: worlds and daemons in
--   which the theorems are applied.
--
-- Each handler is an action: a function from the daemon's state to an outcome, which is that it
-- returned, that it panicked (a nil pointer, a failed type assertion, a slice out of its bounds, a
-- channel closed twice), or that it waits for ever, for a lock that it holds or for an MCP process
-- that is silent. A goroutine that a handler starts is put on a list, and run_task runs it as one
-- step. A Go map is a list of pairs in any order, so that a statement about every list holds for
-- every order in which range visits the map.
--
-- What is not under the repository's control is a parameter, the record Env: the answers of the raw
-- model, the engine and the MCP processes, which may be different each time; the answers of the
-- package registry; the text of a JSON document; the clock, the identifiers drawn, and the disk.
--
-- Recursion is on lists and texts, but for the tool loop, whose fuel is the code's own bound of ten
-- rounds, and the decimal digits of a number, whose fuel is the number itself.
--
-- Not modelled: log lines and the log file; the signals' delivery and the goroutines' leaving when
-- the daemon is done; a random source that fails; tests and build files. A goroutine's step is one
-- piece: the interleaving within a handler, which takes in the half second that shutdown pauses,
-- and within Spawn between its registering and its discovering, is left out, and the panic of the
-- audit's ticker comes where its goroutine is started. A process that never answers DiscoverTools
-- counts as one without tools that is waited for, as Spawn comes to Wait when such a process ends.
-- ReadLoop as a whole has no other goroutine between its lines; the step relations take one line
-- at a time.
--
-- A lock is not part of the state. What a goroutine that is stuck holds for ever (clientsMu in a
-- shutdown, the locks of the manager and the server in an Invoke) would keep others from going on;
-- in the step relations they go on all the same, so the relations hold more than can come, and
-- what is stated of all that comes later is what does not happen or what stays as it is. What is
-- stated of a single handler or goroutine is said of it as a step during which no other one holds
-- a lock that it takes.
pub mod Prelude
pub mod Json
pub mod Config
pub mod Protocol
pub mod Wide
pub mod Raw
pub mod Mcp
pub mod Registry
pub mod Audit
pub mod Daemon
pub mod Tools
pub mod Handlers
pub mod Socket
pub mod Startup
pub mod Life
pub mod MockRaw
pub mod Tests
