-- ===== src/Lib.antt =====
-- A model of the egress manager: a daemon that checks and stores what an operator asks for, plans
-- port forwards and proxies, applies them to the host as journalled operations, and after a crash
-- rolls back what was left half done.
--
-- The parts, from the request to the host:
--   * internal/auth lets an operator in: Auth.Password (password.go), Auth.Session (session.go)
--     and Auth.Service (service.go: `Login`, `ProvisionAdmin`), over the tables of
--     Database.Accounts.
--   * internal/domain checks what an operator asks for: Domain.Identifier (common.go: identifiers
--     and names), Domain.Forward and Domain.Firewall (forward.go), Domain.Route (route.go),
--     Domain.Outbound and Domain.Endpoint (outbound.go), Domain.Relay (relay.go), Domain.Haproxy
--     (haproxy.go), Domain.Xray (xray.go), Domain.Health (health.go) and Domain.Transaction
--     (transaction.go: the states of an operation and the allowed transitions). A joined error is
--     the list of its messages, Domain.Issue.
--   * internal/config/port.go chooses the port of the program itself: Config.Port.
--   * internal/nat/plan.go turns forwards into a plan: Nat.Ranges (ports), Nat.Prepare
--     (`prepareForwards`, `enforceSafety`, `rejectDuplicates`) and, with nft.go, Nat.Render
--     (`BuildNFTPlan`, `renderNFT`). It asks internal/inventory (Inventory.Conflict:
--     `DetectConflicts`) whether a forward hits a listener.
--   * internal/nat/executor.go applies a plan: Nat.Executor (`Execute`, `rollback`,
--     `restoreSnapshot`, `inspect`), Nat.Executor.Recovery (`Recover`) and Nat.Executor.Undo
--     (rollback.go: `RollbackCommitted`), over the entries of journal.go. Nat.Plan holds the tests
--     of a plan.
--   * internal/haproxy/plan.go turns frontends and backends into a plan: Haproxy.Text (`Settings`,
--     `render`), Haproxy.Parse (`ParseState`) and Haproxy.Plan (`BuildPlan`,
--     `filterOwnedListeners`). It asks Inventory.Conflict too.
--   * internal/haproxy/executor.go and rollback.go apply that plan: Haproxy.Executor (the files,
--     the commands, `verify`) and Haproxy.Executor.Apply (`Execute`, `restore`, `Recover`,
--     `RollbackCommitted`).
--   * What the two executors have in common, `rollback`, `failWithRollback` and the calls of the
--     journal, is written once in Journal.Protocol, with its proofs in Journal.Outcome,
--     Journal.Rollback and Journal.Guard; the way to restore the host is an argument there.
--   * internal/database/operation.go is the journal: Database (`CreateOperation`,
--     `TransitionOperation`, `Operation`, `UnfinishedOperations`) and Database.History
--     (`CommittedOperations`, `DeleteFinishedOperationsBefore`). Journal is the executor's view of
--     it; Database.Ledger is that view of the database. Database.Accounts has the accounts,
--     sessions, login attempts and settings of store.go, with Database.Accounts.Sweep for its
--     clean-ups, and Database.Forwards the port forwards of forward.go.
--   * internal/reliability runs the recovery of each component when the daemon starts
--     (Reliability: `Coordinator.Run`), remembers its reports (Reliability.Tracker), watches the
--     daemon's dependencies (Reliability.Monitor: `RunOnce`), tells what state the journal is in
--     (Reliability.Status: `Inspect`) and names the owner of its lock (Reliability.Lock).
--   * internal/secrets/protector.go seals the snapshots in the journal: Secrets.
--   * Net holds the addresses and prefixes of net/netip, System the boundary to commands and
--     System.Files the calls of os and path/filepath.
--
-- How code is written down: a method that acts is a `Step` (Effect) on the state of the host and of
-- the journal, which gives a result and the state that it leaves, also behind an error. A command's
-- effect on the host, the file system, the Runtime API of HAProxy, the verifier, the cipher, the
-- hashes and encodings of the standard library and the text of addresses are parameters; what the
-- code relies on of them is a record of laws (Nat.Executor.Contract, Haproxy.Executor.Contract,
-- Secrets.Aead, Auth.Password.Primitives, Auth.Session.Secrecy, Inventory.AddrText), and Scenarios
-- has instances of them. A statement on the journal may be refused at any time, by a function on
-- the number of the statement, and any command may fail. So a crash is covered as a run in which
-- every later call fails. Numbers are natural numbers; the conversions to uint16 and uint32 are
-- written as remainders, and where a theorem needs that an input fits its type, it says so
-- (`Fits`). Fuel counts the digits that a number is printed with: five for a port, ten for 32 bits,
-- twenty for 64; each is enough for every number of its type. The 64 random attempts at a port are
-- the code's own bound, and how often HAProxy is asked for its state before the deadline is a
-- parameter. Every other loop runs over a list.
--
-- Not modelled: the iptables engine of internal/nat (an argument of `execute` and of
-- `recover_one`), internal/haproxy/runtime.go (the number of the process that it reads is a
-- parameter), the executor of internal/routeengine, the files and processes of the lock and the
-- monitor's goroutines (a run of the monitor takes the probes' outcomes in the order in which they
-- arrive), the rest of the database, internal/routing, the outbounds of singbox, xray and
-- interfaceoutbound, the API, and the wiring of the daemon.
pub mod Base
pub mod Net
pub mod Domain
pub mod Inventory
pub mod System
pub mod Secrets
pub mod Effect
pub mod Journal
pub mod Database
pub mod Nat
pub mod Reliability
pub mod Config
pub mod Haproxy
pub mod Auth
mod Scenarios
