-- ===== src/Lib.antt =====
-- Kanedias runs coding agents in Incus instances. The manager (internal/manager, internal/server)
-- starts one supervisor for each root session; a supervisor (internal/supervisor) owns one session,
-- talks to its agent over RPC, publishes the agent's events, holds the agent's questions, and owns
-- the supervisors of its direct children, whose events it forwards and whose results it awaits.
-- This library models the part of that which decides: what is accepted, kept, ordered, delivered
-- and refused. A step of a model is a critical section of the code, and where goroutines race the
-- theorems hold for every sequence of steps.
--
-- Base         the shared vocabulary: Boolean tests on the native numbers, uint64 counters that
--              wrap (`u64`), Go's int (`ℤ`), results with an error, lists, maps as association
--              lists, strings (str_eq, str_lt, is_blank for strings.TrimSpace), sort.Slice.
-- Event        EventEnvelope of internal/supervisor/events.go.
-- Mailbox      internal/eventmailbox/mailbox.go: a bounded queue and the goroutine that delivers
--              it. Mailbox has the operations under the mutex (New, Send, Close, Abort), with the
--              flags that stand for its channels; Mailbox.System has the dispatch goroutine as a
--              place in its loop and a schedule of acts. Time is the choice of the timer's case.
-- Broker       internal/supervisor/events.go: Broker has the ring of retained events, Broker.World
--              the subscriptions over a heap of mailboxes, with PublishLocal, Forward, Subscribe,
--              the unsubscription and Close. What publishMu serialises is one step.
-- Mirror       internal/manager/mirror.go: the manager's bounded copy of a broker's stream.
-- Lifecycle    internal/supervisor/lifecycle.go: the states of a session and the legal moves.
-- Contract     internal/supervisor/contract: error codes, their HTTP status, and the validation
--              of a request for a child.
-- Identity     internal/supervisor/identity.go: NewIdentity and what it admits.
-- Questions    internal/supervisor/questions.go: the dialogs that wait for an answer. Answer is
--              two steps, with the send between them; timers are steps that name their question
--              by a handle, which stands for the pointer.
-- Results      internal/supervisor/result.go and internal/supervisor/contract/types.go: terminal
--              results, and the cell that holds one. Complete is split where it leaves the mutex.
-- Handoff      internal/supervisor/result.go: the validation of a handoff, Handoff and
--              AcknowledgeHandoff, with completeHandoff of internal/supervisor/local.go.
-- Verifier     internal/supervisor/handoff_verifier.go: the check of a handoff against GitHub, whose answer
--              to git is a parameter.
-- ReadTask     internal/supervisor/result.go: RunReadTask with submitPrompt and
--              lastAssistantText, on the events that its loop takes.
-- Policy       internal/config/model_policy.go: the models of a session and its workers.
-- Config       internal/config/server.go and config.go: the limits of events, the settings of the server
--              with its hostname, the catalog of models, and the validation of the whole.
-- Children     internal/supervisor/children.go: the entry of a child, with the claims that decide
--              between acceptance and cancellation, and the registry of children.
-- Session      internal/supervisor/local.go: a local session, all but Snapshot. A response of the agent
--              and a drained event are steps that race, and so are the halves of an event and of bind; where a
--              session fails over a binding, the lifecycle, the clear of its questions and the close
--              of the RPC are three steps, and `failing` counts the clears that are still to come.
-- RpcClient    internal/supervisor/pirpc/client.go: the calls of an agent that wait for responses,
--              the rounds of the reader, and the end of the client.
-- Workspace    internal/config/workspace_start.go: slugs, repositories and the start of a session.
-- Protocol     internal/supervisor/process/protocol.go: bootstraps and messages with their
--              validation; Protocol.Wire has encoding and strict decoding, Protocol.Reporter the
--              child's end, with a step for each critical section.
-- Spawn        internal/supervisor/process/spawn.go: the parent's end of those messages; Spawn.Start
--              has WaitReady, whose probe of the socket is a parameter.
-- Gate         internal/supervisor/node.go: the gate of a node's RPC calls, with QuiesceRPC.
-- Tree         internal/manager/tree.go: the check of a snapshot of all sessions of a root. A
--              NodeSnapshot (internal/supervisor/local.go) is a node over the list of its children.
-- Attachments  internal/attachments/image.go: the images of a message.
-- Messages     internal/server/messages.go: the upload of a message with its images.
-- Security     internal/server/security.go: the sessions of browsers and the boundary of requests that
--              write.
-- Router       internal/supervisor/router.go: the child to which a request for a session goes, and the
--              snapshot of a tree; a NodeSnapshot is that of Tree.
-- Fanout       internal/manager/notify.go: revisions sent to subscribers over bounded channels.
-- Launch       internal/manager/launch.go: a browser's request for a session, resolved against the models
--              and workers of Policy and the repositories of Workspace.
-- Projection   internal/manager/projection.go: the events of a session as the items that a browser shows.
--              Projection.Library is the standard library's part: JSON, path.Ext, strings.ToLower.
--
-- How the parts meet: Broker.World runs the mailboxes of Mailbox.System; Mirror keeps the events
-- that a broker numbers; Identity takes the kinds and contexts of Contract; Handoff builds the
-- results of Results in the name of an Identity and moves a session along Lifecycle; ReadTask reads
-- the events of Event after the number that the broker gives as the boundary; Session joins Identity,
-- Lifecycle and Questions; a bootstrap of Protocol carries a policy of Policy, a start of Workspace and
-- a request of Contract, and its messages the results of Results. Config holds the configuration of
-- Policy and ends in its policy; Launch resolves a request against the same catalog and the repositories
-- of Workspace; Messages makes the images of Attachments; Router searches the trees of Tree; Projection
-- shows the events of Event.
--
-- Parameters, for code that is not in the repository: net/netip, the reader of a multipart request,
-- http.DetectContentType, sha256, the server's clock, the parsers of hosts and URLs, decoding JSON and
-- json.Valid, git, the replies of an agent, the verifier and the reporter of a handoff (interfaces),
-- path/filepath, encoding/json in Protocol as a codec over any type of bytes, and the cancellation of a
-- context, which is a choice. A string is valid UTF-8. Copies of slices are values.
-- Bounds and fuel: only Tree.walk runs on fuel, the number of the nodes of the snapshot, since each
-- round takes one node from the stack and pushes its children. Other loops are recursion on a list,
-- and a goroutine's loop is the schedule of its acts, so that its progress is a theorem about
-- schedules. Counters of
-- type uint64 wrap at 2 ^ 64; theorems that need it assume fewer events than that.
-- Not modelled: the sockets, files and processes around these parts (internal/supervisorapi, the
-- processes of internal/supervisor/process, the discovery, monitoring and spawning of internal/manager),
-- the pages and the other handlers of internal/server, the rest of the node that composes the parts
-- (internal/supervisor/node.go), the packages that drive Incus (internal/incusclient, internal/image,
-- internal/network, internal/workspace, internal/supervisor/provision), the proxy (internal/proxy and the
-- library in third_party/goproxy), the command line (cmd), the reading of the configuration file, and the
-- order of the actions of a child's cleanup.
pub mod Base
pub mod Event
pub mod Mailbox
pub mod Broker
pub mod Mirror
pub mod Lifecycle
pub mod Contract
pub mod Identity
pub mod Questions
pub mod Results
pub mod Handoff
pub mod Policy
pub mod ReadTask
pub mod Children
pub mod Session
pub mod RpcClient
pub mod Workspace
pub mod Protocol
pub mod Tree
pub mod Spawn
pub mod Gate
pub mod Projection
pub mod Config
pub mod Attachments
pub mod Messages
pub mod Verifier
pub mod Security
pub mod Router
pub mod Fanout
pub mod Launch
