-- ===== src/Lib.antt =====
-- agent-runtime-mcp: an MCP server that shows the panes of a tmux server as channels, and a web console
-- that is its client. The server (src/) lists, reads and writes panes through a command runner. The
-- console (console/src/) keeps a bounded history of what it sent and of what it saw, projects it into
-- turns, and has two adapters that start tmux themselves: one that creates and removes sessions, and
-- one that attaches a terminal. Its history hub observes channels while they are viewed, and its HTTP
-- application is the only way in: it asks the server, tells the event bus, which the hub listens to, and
-- calls the two adapters. A guard decides on which address the console may listen.
--
-- Base: numbers, lists, text as a list of code points, UTF-8, `split` and `join`, digits.
-- Console.History (console/src/history.ts): Entry has the entries, Ring is HistoryRing with one function
--   per method (`push`, `update`, `get`, `snapshot`; the loop of `evict` is `evict_from`), DiffTail is
--   diffTail, Raw is formatRawTranscript. A mutation of `update` is any function on entries; it cannot
--   change the ring but through its result. An entry without an id gets one from the ring.
-- Console.Projection (console/src/projection.ts): projectConversation; the turns are kept newest first
--   while the loop runs, since it only changes the last one.
-- Console.BindGuard (console/src/bind-guard.ts): Address has parseIpv4, parseIpv6 and the keys. The
--   interfaces of the host are an argument. evaluateBindAddress calls itself once on an embedded IPv4
--   address, so that its fuel is 2.
-- Console.Tmux: what the two adapters share, the pattern of session names, the scope and socket.
-- Console.TerminalAttach (console/src/terminal-attach.ts): reservations and terminals are numbered in
--   the order in which they are made; the calls of node-pty are kept in a list. Whether a spawn throws
--   is an argument of `commit`.
-- Console.SessionLifecycle (console/src/session-lifecycle.ts): `realpath` and `resolve` are parameters;
--   Substitute is the language's `replaceAll` with its patterns.
-- Console.Config (console/src/config.ts): the settings that are numbers, flags or names.
-- Console.Events (console/src/events.ts): the event bus.
-- Console.McpClient (console/src/mcp-client.ts): connecting with attempts and a cool-down, cut at each
--   `await` into steps; the outcome of an attempt and the clock are arguments. Calls is `call`, from
--   what the protocol client gives on.
-- Console.Json: values that JSON.parse gives, as far as the code tests them.
-- Console.HistoryHub (console/src/observer.ts): the state of one channel with what changes it at once;
--   Blocks has its output blocks, recordConsoleEvent and pull; Loop has runLoop and the poll timer, cut
--   at each `await` into steps, between which any other step may come; Manager is the class, whose calls
--   and answers are a list in any order. Quiet, Begun, Order, Keeps, Watched, OnlyCurrent,
--   OpenBlock and Lifted say what each step keeps.
-- Console.HttpApp (console/src/http-app.ts): Router is createRequestHandler, with Mutations
--   (handleMutation; Asked says what a body asks for) and Lifecycle (handleLifecycle); Upgrade is createUpgradeHandler and Bridge is
--   bridgeTerminal. The state of all components is the record `App`, the rest of the world the record
--   `World`. The outcome of the handshake of a WebSocket is an argument.
-- Runtime.Errors, Runtime.Input (src/errors.ts, src/input.ts): channel errors, and what may be written.
-- Runtime.TmuxBackend (src/tmux-backend.ts, src/types.ts): the command runner is a function from the
--   commands before and the command to its answer, so that each theorem holds for any tmux server;
--   commands are kept in a list. Commands has the runner and its failures, Sending is
--   writeText and sendControl, Utf8 is takeLastUtf8Bytes, Config is resolveConfig, Panes parses the lines
--   of tmux and the identifiers of channels.
-- Runtime.Tools (src/mcp.ts, src/phase-diagnostics.ts): runTool and invokeTool; Spans has the phases
--   that a call reports.
-- Runtime.Observation (src/observation.ts): one observer with its samples, its history and its lease;
--   Cursors has the cursors and their checks. The size of the history as JSON is a parameter. Complete
--   has the theorem on what an accepted cursor finds.
-- Examples: each theorem at a concrete input.
--
-- Not modelled: messages of errors, time stamps that the code takes from the clock, headers of replies,
-- the waiters and the sample queue of the observation manager (src/observation.ts), the sampler of the
-- tmux backend, the Devin adapter, the registration of the tools with the SDK, start-up and shutdown,
-- and the browser's JavaScript. A listener that throws when it is given its first snapshot is left out.
-- A number of JavaScript that must be an integer is a natural number or `other`; text that came in as
-- another type than a string is refused before these functions are reached, or is a constructor of its
-- own.
pub mod Base
pub mod Console
pub mod Runtime
pub mod Examples
