-- ===== src/Lib.antt =====
-- openvpn-docker: the control plane of an OpenVPN container. Its core decides which client has which
-- IPv4 address, what a changed configuration entails, which durable operation may go on, and which
-- iptables rules the instance owns. The files below follow that core:
--
--   Domain          internal/domain/address.go: Address, Network and their checks (NewAddress,
--                   NewNetwork, Family); below it Config (config.go and the client record of
--                   client.go), Ids (client.go: ValidUUID, ValidClientName, NewClient, GenerateUUID)
--                   and Sets (comparing, counting and sorting).
--   Ipam            internal/ipam/ipv4.go: NewIPv4Layout splits a network into a static and a dynamic
--                   range; ValidateStaticSet and NextStatic work in the static one.
--   Workflow        internal/config/workflow.go: snapshots and BuildPlan; NewView of
--                   internal/config/yaml.go.
--   Yaml            internal/config/yaml.go: normalize, normalizeEndpoint and FromView of a decoded
--                   document; Endpoint has the assumptions on net/netip and strings.ToLower.
--   Configuration   internal/configuration/plan.go: remapAddresses, and BuildPlan in Build.
--   Client          internal/client/mutation.go (planCreateAssignment) and internal/client/address.go
--                   (the planning half of applyAddressesLocked).
--   Selection       internal/client/query.go: selectors, selection, and the targets of a batch edit.
--   Store           the records of internal/store/sqlite; Validate is validateClientState of
--                   client_state.go, and Journal is journal.go. Rows and Tables are the statements on
--                   the tables and the unique indexes of migrations.go; Commits, Clients and Addressing
--                   are the transactions of client_operation.go, client_lifecycle_operation.go,
--                   client_address_operation.go, client_state.go and the artifact half of
--                   artifact_operation.go; Consistent is what they keep, and Requests are runs of them.
--   State           internal/state/state.go: Scan is the diagnosis of an installation, read from a
--                   record of all that it looks at; Reported and Healthy say what a report means.
--   ApiKey          internal/store/sqlite/api_key.go, and internal/apikey/service.go in Token and
--                   Service; Access says who is let in, and Calls are runs of Create and Delete.
--   Compatibility   internal/compatibility/contract.go: Validate of a decoded contract.
--   Artifact        internal/artifact/local.go: the files of an operation, its manifest in memory and
--                   on the disk, and which system calls fail. Calls has Install, Commit and Rollback,
--                   Stage has BeginOperation, OpenOperation, Stage and Remove, and runs of such
--                   calls; Safe, Open, Keys, Holding and Found say when an entry can be rolled back,
--                   and Entries, Install, Undo, Rollback and Adding follow the calls step by step.
--   Recovery        internal/recovery/operations.go: what the journal decides of one operation.
--   Network         internal/network/network.go: Reconcile and Cleanup as a list of iptables calls.
--                   Scope says which calls are in scope after which, and its children follow the steps.
--   Actions         code that changes a state and may fail, and its pre- and postconditions.
--   Prelude         shared names, results in place of Go's error values, lists and tests.
--   Examples        data that the tests share.
--
-- The planners read the store's records, ask Ipam for a layout and an address, and return what the
-- callers then commit by a transaction of Store; an operation of the journal covers such a commit.
--
-- Parameters: the text functions of net/netip, strings.ToLower, path.Clean, json.Valid, SHA-256,
-- base64, the JSON of a view, the random bytes and identifiers, whether SQLite accepts a transaction
-- beyond the indexes that are written out, the files, loads, renderings and certificate checks that
-- a scan reads, and the answers of iptables, which may depend on all earlier calls. A time is the
-- number of seconds from Go's zero time. Numbers of 32 bits keep their wrap-around. NextStatic runs
-- on the number of candidates that are left in its range, and removeJump on the 64 rounds of its
-- source, so neither can run out early.
--
-- Failures of the artifact store: each system call of an operation is a tick, which fails or not by a
-- list that the theorems leave open; a call that fails changes nothing, except that a manifest can be
-- in place when its last sync fails. A crash is a failure after which OpenOperation reads the saved
-- manifest. A rename, and the removal of the operation's folder, are one step each, and what a call
-- has done is on the disk when the next one starts. Lstat tells a missing file from one that is there.
-- The checks of the parents of a target are part of a tick. Stage is given a whole file.
--
-- Not modelled: the YAML and JSON decoders, sockets, processes, the text of SQL, its migrations and
-- the loads from rows; the commits of a configuration and of a repair; the composition of files,
-- certificates and commits in the client lifecycle; snapshots, the syntax of manifests and the locks of
-- the artifact store; the broker, the runtime, the loops of recovery, and repair; PKI, templates, the
-- HTTP API and the command line.
mod Prelude
pub mod Actions
pub mod Domain
pub mod Workflow
pub mod Yaml
pub mod Artifact
pub mod Recovery
pub mod Ipam
pub mod Store
pub mod Configuration
pub mod Client
pub mod Selection
pub mod Network
pub mod State
pub mod ApiKey
pub mod Compatibility
pub mod Examples
