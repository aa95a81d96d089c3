-- ===== src/Lib.antt =====
-- Agenda distribuida: a shared agenda whose nodes keep one replicated log by a Raft-like consensus and
-- apply its committed entries to a SQLite database each.
--
-- The program's parts and their files here (paths of the program are from the repository's root):
--   Messages        models.go, interfaces.go: log entries and the requests between nodes
--   Decimal, Text   the decimal texts of counters; what is used of Go's package strings
--   RaftLog         the queries of consensus.go on the table raft_log (storage.go); Order and Numbered
--                   hold what is known of logs in order and of logs without gaps
--   Peers           peers.go, EnvPeerStore
--   Node            the state of ConsensusImpl with its tables, persistMeta, loadState
--   AppendEntries   HandleAppendEntries: observe_leader, reset_timer, check_prev, store_entries and
--                   learn_commit are its stretches in order
--   RequestVote     HandleRequestVote
--   Commit          activePeers, recalculateCommitIndex
--   Ops, Apply      the operation names of raft_apply.go; applyCommitted, isIgnorableApplyError,
--                   waitForApplied, HasAppliedEvent, RecordAppliedEvent
--   Election        startElection, runPreVote, electionTimeout
--   Replication     broadcastAppendEntries and the heartbeat branch of loop
--   Propose         Propose, replicateAndCommit
--   Recovery        raft_meta against the memory
--   RaftHttp        raft_http.go: LeaderWriteMiddleware and validateClusterHMAC
--   Ids             the deterministic ids of utils.go
--   Users, Groups   storage.go on the tables users, groups and group_members
--   Appointments, Notifications, Participants
--                   storage.go on the tables appointments, participants and notifications
--   Tables          these tables together, and the texts that Go's libraries make
--   Invitations     CreateGroupAppointment, with its transaction
--   RaftUsers, RaftGroups, RaftAppointments
--                   the operations of raft_apply.go on them
--   Payloads        the payloads as encoding/json writes and reads them
--   RaftApplier     NewRaftApplier: the switch on the operation's name
--   DomainPropose   domain_propose.go: the entry that each change proposes
--   Service         what a call of a service does to the tables, whether it returns or fails
--   GroupService, AppointmentService, AgendaService
--                   services.go
--   Handlers        http_handlers_scaffold.go: the requests that change groups, members, appointments,
--                   invitations and accounts, and whether they do the same through the log and
--                   without it; Tokens has what a token says, Sessions the login and the
--                   middleware, with auth.go, and Reading the requests that only list
--   ClusterNodes    storage.go on the table cluster_nodes
--   Discovery       discovery.go and heartbeat.go: who is a peer
--   ClusterHttp     cluster_http.go: joining, leaving, and the lists for other nodes
--   Events          storage.go on the tables events and audit_logs
--   Recording       storage.go: the events that its operations append, which the reconcilers read; Decoded
--                   fills the structs of the reconcilers from them
--   Reconcilers     reconciler_*.go: what a leader asks its peers for, and what it proposes to repair
--   WebSocket       websocket.go: the registered connections and their channels
--   Samples         a small cluster and small tables on which the theorems are tried
--
-- How they interact: a change is proposed to the leader (Propose), numbered and appended to its log
-- (RaftLog), sent to the peers (Replication), which store it (AppendEntries); the leader then moves its
-- commit index (Commit) and applies what is committed (Apply). Election and RequestVote choose leaders,
-- Discovery the peers. On the leader the Reconcilers read what other nodes have recorded
-- and propose what is missing. A service checks a caller's request against the tables and proposes the entry
-- that DomainPropose builds, or writes to the tables where the node leads nothing; on every node
-- RaftApplier does what the committed entry says.
--
-- The model. A method that holds the lock is one function of the state; a method that frees it between
-- stretches has one function for each, and startElection takes the requests handled in between as an
-- argument. SQLite is not part of the program: a `Database` says which of its calls fail while a method
-- runs, and `healthy` is the one where none does. The network is a list of answers in their order of
-- arrival, or a function from requests to answers. Where such a list ends, a timer has fired.
--
-- Bounds. Terms and indexes are natural numbers: the program starts them at 0 and only raises them, or
-- sets them to received ones; negative numbers in a request, and a term that passes 2^63 - 1, are
-- outside the model. Loops over rows, entries and answers are structural. `catch_up` and
-- `broadcast_retrying` take the source's own limits on attempts, 5, as fuel. `emit` takes the number that
-- it prints as fuel, which is more than its digits.
--
-- Times are whole seconds in the domain's tables and nanoseconds in Discovery, Events and Reconcilers,
-- counted from 1970; times that RFC 3339 cannot write are outside the model, and so are processes in a
-- zone other than UTC, where SQLite compares the texts of times otherwise than the times.
--
-- Parameters. `Digest` holds the hash and Go's string functions behind the ids, `Env` the texts that
-- fmt and encoding/json make for notifications, `Codec` what encoding/json does to the payloads
-- (`IsFaithful` is its promise that what was written reads back), `Credentials` the packages for
-- passwords and addresses, `Jwt` the package jwt (`IsSound` is what it documents), `Site` a node's
-- clock and its Propose, `Layout` package time's RFC 3339 (`IsRfc3339` is what it keeps of a time),
-- `Surroundings` what a reconciler has around it, `Format` fmt's %q and the times in events, and
-- `WsEnv` what a request for a connection calls. The state machine is a parameter of Apply, and
-- `raft_applier` is the program's own.
--
-- Not modelled: logging, which calls append audit rows, tickers and goroutines as such, HTTP, JSON and
-- sockets, two runs of applyCommitted at once, the broadcast goroutines of several peers in parallel,
-- the events that an applied entry appends again, the columns created_at and updated_at of the other
-- tables, the bodies of HTTP answers, and handlers.go, whose handlers nothing calls.
pub mod Prelude
pub mod Messages
pub mod RaftLog
pub mod Decimal
pub mod Ids
pub mod Users
pub mod RaftUsers
pub mod Groups
pub mod RaftGroups
pub mod Notifications
pub mod Appointments
pub mod Tables
pub mod Invitations
pub mod RaftAppointments
pub mod Payloads
pub mod RaftApplier
pub mod DomainPropose
pub mod Service
pub mod GroupService
pub mod Participants
pub mod AppointmentService
pub mod AgendaService
pub mod ClusterNodes
pub mod Discovery
pub mod Events
pub mod Recording
pub mod Peers
pub mod Node
pub mod AppendEntries
pub mod RequestVote
pub mod Text
pub mod Commit
pub mod Ops
pub mod Apply
pub mod Election
pub mod Replication
pub mod Propose
pub mod Recovery
pub mod ClusterHttp
pub mod WebSocket
pub mod Reconcilers
pub mod Handlers
pub mod RaftHttp
pub mod Samples
