-- ===== src/Lib.antt =====
-- The VPS agent, agent/ of the repository: a Go program that runs on a node, takes commands from a
-- controller over a websocket, carries them out through a privileged helper, and remembers their
-- results in a journal, so that a command is carried out at most once.
--
-- The parts and how they meet. A message arrives as an envelope that holds a command (Protocol). The
-- executor (Executor) looks the request id up in the journal (Journal), validates the command
-- (Protocol, Validation), claims the id, carries out the action through the operations of the node,
-- and records the result in the journal, which writes itself to a file before it answers. One of the
-- actions, the change of the exit address, is a machine of its own (WarpChange) that arms a recovery
-- watchdog, turns WARP off and on, and compares the addresses. The manager (Manager) starts that
-- machine and turns WARP on and off for the other actions; below it the runner (Helper) starts the
-- privileged helper, of which the upgrade of the two binaries is modelled (Upgrade). The session
-- (Session) reads the messages from the websocket (Websocket), acknowledges commands, hands them to
-- the executor and sends what comes back; between sessions it waits (Backoff).
--
-- Which file models which part:
--   Common               error values as errors.As and errors.Is see them, strict JSON decoding
--                        (decodeStrict, decode), bytes and instants
--   Chars                anchored patterns over character classes
--   Validation/Rules     agent/internal/validation/validation.go: NodeID, RequestID, UnitName,
--                        AdapterName
--   Validation/Paths     AbsolutePath
--   Journal/Entries      agent/internal/journal/journal.go: Entry, fileData, Journal, Lookup, Count,
--                        trimLocked, serializedSizeLocked, rebuildIndexLocked
--   Journal/Disk         persistLocked, replaceFile, decode
--   Journal/Store        Record (record_entry), Open (open_journal)
--   Protocol/Actions     agent/internal/protocol/protocol.go: actionSet, IsStateChanging, Actions
--   Protocol/Messages    New, Marshal, DecodeEnvelope, DecodeCommand
--   Protocol/Commands    ValidateCommand, validateParameters, the decoding of parameters
--   Backoff              agent/internal/backoff/backoff.go: Next, Reset
--   Websocket/Reading    agent/internal/wsclient/client.go: ReadMessage, appendLimited
--   Websocket/Frames     readFrame, writeFrame
--   Executor/Results     agent/internal/action/executor.go: Result, persist, fromJournal, Recent,
--                        errorCode
--   Executor/Dispatch    execute, backupXUI, restoreXUI
--   Executor/Requests    Execute, claim, release
--   WarpChange/Machine   agent/internal/warpchange/state.go: Options, Machine, Result, finish, codeOf,
--                        messageForCode; the states and snapshots of agent/internal/model/model.go
--   WarpChange/Steps     step, withIP, currentState, waitFor, recoverOn
--   WarpChange/Attempts  the loop of Run and its body
--   WarpChange/Run       Run around the loop, with the deferred disarming of the watchdog
--   Manager/Waiting      agent/internal/warp/manager.go: waitWarp, waitXUI, OperationError
--   Manager/Operations   GetIP, GetIPs, toggle, ChangeIP, RestartXUI, SetTimings
--   Texts                what the agent uses of package strings
--   Upgrade/Versions     agent/cmd/vps-agent-helper/upgrade.go: parseReleaseVersion,
--                        compareReleaseVersions
--   Upgrade/Assets       downloadURL, allowedReleaseHost, parseChecksums, downloadVerifiedAsset,
--                        resolveLatestRelease
--   Upgrade/Files        the file system under the upgrade, every call of which can fail
--   Upgrade/Binaries     prepareBinaryUpdate, commitBinaryUpdates, rollbackBinaryUpdates,
--                        cleanupStagedUpdates
--   Upgrade/Run          upgrade, scheduleUpgradeRestart
--   Helper/Output        agent/internal/helper/helper.go: limitedBuffer, with the ReadFrom of the buffer
--                        that it embeds, by which os/exec fills it
--   Helper/Executable    validateExecutable, validateOwner, findPrivilegeEscalator
--   Helper/Calls         callOutputWithTimeout, callJSONWithTimeout
--   Helper/Operations    the methods of Runner and of its watchdog, NewRunner
--   Helper/Backups       BackupPath
--   Session/Loop         agent/internal/agent/agent.go: session, handleMessage, send
-- The other files of these folders hold proofs, and Tests holds runs and an instance of each result.
--
-- How state and operations correspond to the code. A method that changes its receiver is a function
-- from the state to the state and its result. The journal is a record with the fields of Journal, its
-- map a list of pairs; next to it stands the content of its file and of the temporary file (Store).
-- Every call of the file system has an outcome given from outside (Outcomes), so that a theorem is
-- about every way in which writing can fail. An instant is a natural number of nanoseconds after the
-- zero time of Go, which is 0.
--
-- The binaries of the upgrade are files with an identity, as links keep it; whether the n-th call of
-- the file system fails is given from outside. The session is a function of the events that select
-- meets, in any order; the collections and executions beside it are counted and listed.
--
-- What is taken as a parameter: encoding/json (Codec, Json, PayloadCodec), the operations of
-- manager, collector, upgrader, installer and transport (Node, Installer, Transport), the clock,
-- the HTTP client and SHA-256 (Net), the running of commands (Exec), the draws of the random
-- generator, and what surrounds a session
-- (Peer). What is assumed of encoding/json is that it reads back what it wrote, only where a
-- theorem says so.
--
-- Loops. The trimming of the journal is recursion on its entries; it stops when they are used up.
-- The attempts of a change are recursion on the number that is left. A wait has no bound
-- of its own but its context: it has fuel, one unit for each poll, and a run without enough of it
-- has no value. Instants and durations are nanoseconds, and every sleep takes at least one, so
-- that fuel beyond the longest timeout (180 seconds) and the step timeout is enough. The waits of the manager
-- end with the context of their caller, and fuel beyond the time left to it is enough.
--
-- Not modelled: the mutexes (one call is one step, and the step of another goroutine can come between
-- admit and perform of the executor; in the session the execution of a command with the sending of its
-- result is one event, and executions go on behind the end of a session, which is left out), panics
-- other than an index out of range, the configuration, the opening of a websocket, the loop around
-- sessions, the privileged helper but for its upgrade, the status collector, and the controller in
-- server/.
mod Prelude
pub mod Common
pub mod Chars
pub mod Validation
pub mod Journal
pub mod Protocol
pub mod Executor
pub mod WarpChange
pub mod Manager
pub mod Texts
pub mod Upgrade
pub mod Helper
pub mod Session
pub mod Backoff
pub mod Websocket
mod Tests
