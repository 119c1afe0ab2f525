-- ===== src/Lib.antt =====
-- The sandbox control plane: the session service with its repository, the transaction control, and
-- the runtime pool control.
--
-- The session service keeps the sessions of a tenant: it creates, starts, stops, destroys and
-- reconciles them, calls the providers of runtimes under a lease, and stores each move through a
-- repository. The transaction control and the pool control are registries of their own, for the
-- transactions of a workspace and for the slots of prepared capacity.
--
-- Provider/ models crates/sdkwork-sandbox-provider-spi/src, as far as the session service uses it.
--   Capability, Assurance                           capability.rs
--   Error, Descriptor, Requests                     error.rs, provider.rs; the trait is a record of calls
--
-- Session/ models the data of crates/sdkwork-intelligence-sandbox-service/src.
--   Kinds, Ledger, Model                            model.rs: the states, the ledger, a session
--   Error                                           error.rs, and the errors of repository.rs
--   Lease, Persisted                                repository.rs: the lease, the test of the stored form
--   Model/{Moves,Room,Delta}                        the moves, the bound of the ledger, what a save writes
--   Persisted/{Replay,Stored}                       the stored form as a predicate, and what keeps it
--   Persisted/{Lives,Lifecycle}                     the lives of a session as relations
--
-- Service/ models the methods of crates/sdkwork-intelligence-sandbox-service/src/service.rs, with
-- command.rs and reconciliation.rs.
--   Action                                          a method: from the world to the world and a result
--   Interface                                       the repository as a record of calls, the service
--   Calls, Create, BringUp, Start, Stop, Destroy, Reconcile
--                                                   service.rs, a file for the methods of one kind
--   Ensures, Lawful                                 what an action leaves, the laws of the collaborators
--   Stored, Stored/{Moves,Calls,BringUp,Down,Start,Reconcile,Pages,Sessions}
--                                                   the sessions that the service saves
--
-- Memory/ models crates/sdkwork-intelligence-sandbox-repository-memory/src/lib.rs.
--   Keys, Defs, Leases, Saves                       the state and the calls of the repository
--   Command                                         a call as data, a history of calls
--   Fencing, Fencing/Supersession                   the tokens of leases
--   Reads                                           what was written is read
--   Port, Valid                                     the service over this repository
--
-- Transaction/ models crates/sdkwork-intelligence-sandbox-transaction-control/src. A workspace runtime
-- transaction is begun for a session, completes 21 stages in a fixed order, each with a fingerprint
-- as its evidence, and is released when it is finished, or compensated or quarantined.
--   Error, State, Stage, Checkpoint, Compensation   error.rs, state.rs, stage.rs, checkpoint.rs,
--                                                   compensation.rs
--   Request                                         the request that registry.rs declares
--   Registry/{Record,Begin,Advance,Candidate,Release,Failure}
--                                                   registry.rs, a file for the methods of one kind
--   Registry/Command                                a call as data, one call, a history of calls
--   Registry/{Invariant,Records,Preservation}       the invariant of the registry, and that calls keep
--                                                   it
--   Registry/{Safety,Finality,Fencing,Acceptance,Replay}
--                                                   what follows for the users of the registry
--
-- Pool/ models crates/sdkwork-intelligence-sandbox-pool-control/src. A slot of prepared capacity is
-- registered, marked ready with evidence, claimed for a session under a fencing token, sanitized
-- when the claim is released, and quarantined or retired.
--   Bounds, Error, SlotState, ClaimState, PoolClass, Assurance
--                                                   bounds.rs, error.rs, state.rs, slot.rs
--   Records                                         identity.rs, fencing.rs, slot.rs, claim.rs, port.rs
--   Registry/{Defs,Prepare,Claim,Ready,Release,Withdraw,Reconcile,Targets}
--                                                   registry.rs, a file for the methods of one kind
--   Registry/Command                                a call as data, one call, a history of calls
--   Registry/{Slots,Lifetimes}                      what calls do to the slots
--   Registry/{Indexed,Exclusion}                    the indexes of the active claims
--   Registry/{Acceptance,Replay,Fencing,Attempts}, Registry/Release/Repetition,
--   Registry/Reconcile/{Bounds,Rounds}, Registry/Targets/Budgets
--                                                   claims, tokens, failed attempts, reconciliations
--
-- Base/ holds what all share: tests on numbers, lists, results with the two forms of `?`, signed
-- integers, texts and maps.
--
-- How the code corresponds to the model. A name of the code stands without the words `sandbox_` and
-- `Sandbox` that every name of these crates has, and a method without the noun of its module:
-- `sandbox_claim_pool_slot` is Pool/Registry/Claim.claim, `sandbox_begin` is
-- Transaction/Registry/Begin.begin. A method of a registry is a function from the registry to the
-- registry and a `Result`; since a mutex is held from its first read to its last write, one call is
-- one step, and the orders of calls are the lists of commands. What a method wrote before it returned
-- an error is kept. The clock is an argument `now` of each method that reads it. A lock that is
-- poisoned by a panic is not modelled.
--
-- A `String` is the list of its bytes. A `BTreeMap` is an association list that `insert` keeps in the
-- order of its keys. An `i64` that may be negative is an integer; a version, a token of the pool and
-- a counter are natural numbers, whose saturating and checked additions are written out with their
-- tops (i64::MAX, u32::MAX, u64::MAX). A `usize` counts entries of a map in memory, and so does not reach
-- its top.
--
-- The loop over rounds in `sandbox_reconcile_pool_slots` has one unit of fuel for each claim and one
-- more. No tenant has more expired claims than there are claims, so a round without progress comes
-- before the fuel ends. Every other loop is structural.
--
-- In the session service a method is a function from a world to the world and a result, for any
-- world. The repository and the providers are records of functions on that world; an answer `none`
-- of a provider stands for one that did not come within the time limit. The identities that the
-- service generates come from a further function. A start and the reconciliation of a start do the
-- same from the allocation on, and so share BringUp; the model has the calls in the order of the code.
-- A call whose result the code ignores is made, and its result dropped.
--
-- In the repository in memory a map whose key is a pair is a map of maps. Its lock is held for the
-- whole of a call. Instants, durations and the Unix time are milliseconds, and natural numbers: the
-- clock stands after the year 1970.
--
-- Not modelled: formatting for display and the logs; the host preparation port of the pool, which is a
-- trait without an implementation in the crate; the checks that the constructor of the session service
-- makes of its time limits and of its list of providers; the snapshot of a session, which protects the
-- reference of an allocation by a cipher, and the repository that bounds each call in time; the
-- parsing of identities; the commands that run in a sandbox; the repository over SQL; the registry of
-- instances; the authorities for snapshots, templates, builds, launches and workers, the workers, and
-- the HTTP surface.
pub mod Base
pub mod Transaction
pub mod Pool
pub mod Provider
pub mod Session
pub mod Service
pub mod Memory
