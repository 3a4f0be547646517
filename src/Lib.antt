-- ===== src/Lib.antt =====
-- Verification library of codex-sub-proxy, a proxy that serves an OpenAI-compatible API from
-- subscription accounts of the Codex service.
--
-- The program and its parts. A request is authenticated by an API key; the key's policy limits what
-- it may use, so before a request goes upstream the handler asks the quota store to admit it, and a
-- lease of the handler ends the admission, by a reconciliation with the usage or by a release. The
-- upstream broker chooses an account by one of three selectors, binds the request to it and calls
-- its client, whose credential a refresher keeps current. A chat stream turns the events of the
-- upstream service into chunks, and settles the lease at the terminal event. The usage is priced by
-- the price list in force. Credentials and conversation bodies
-- are stored in encrypted envelopes.
--
-- Quota (internal/apikey/quota.go, with Policy of internal/apikey/key.go). The database is a record
-- of four lists of rows, in the order of their keys: states, period buckets, rolling admissions and
-- reservations (Types, Rows). Policy and Limits have validateQuotaPolicy, validateQuotaRequest,
-- validateQuotaUsage, quotaAdd, periodStartAt and the limit checks; Admit has QuotaStore.Admit;
-- Settle has Reconcile and Release with beginQuotaFinalization, applyFinalizingReservation and
-- releasePendingReservation; Recover has RecoverPending. The other files are proofs: Balance states
-- when the tables agree, Opening to Granting and Cleanup to Admissions are about Admit, Closing to
-- Outcomes about the end of a reservation, Recovery and Recovered about RecoverPending, Final about
-- states that are never left, Lockout about a refusal that lasts.
-- Keys (internal/apikey/key.go and store.go): the records of keys and Authorizer.Authenticate; Store
-- has CreateTx and AuthorizePrincipal. Sound and Granted are about who passes, Form and Created about a
-- key that has just been made.
-- Lease (internal/server/quota.go): the lease of a request handler and what it asks for.
-- Accounts (internal/codex/accounts.go): the accounts and the selectors.
-- Broker (internal/server/broker.go): Broker has the profiles and ProfileBroker.profile, Calls the
-- five upstream calls and the update of a model catalog.
-- Chat (internal/server/chat.go; the records of internal/codex/contracts.go in Types): Output has the
-- completion that is sent in one piece, chatCompletionPayload with chatResponseOutput; Stream the
-- state of a stream, chatStreamState, and its methods; Event its method event, which calls the lease
-- at a terminal event. Sent says what the client has been sent, and holds the rules for methods that
-- can fail; Streamed has the invariant; Tools, Methods, Arguments, Finding, Reconciled, Kept and
-- Handled show that each method keeps it; Announced is about the end of a stream; Frozen, Called,
-- Complete and Valid about the arguments of finished calls. Heads says which tool calls have been
-- announced, next to those of a completion; Announcing, Steady, Matched, Reconciling and Finishing
-- follow them through the terminal event. Delivered, Terminal and Run put these together.
-- Affinity (internal/server/session.go): the hash under which a session keeps its account.
-- Pricing (internal/server/pricing.go): EstimateUsageCost and AllocateSubscriptionCost.
-- Refresher (internal/codex/refresh.go): the state under its mutex, the rounds of Credential and
-- Snapshot; Run has runRefresh as the steps of a goroutine, cut where callers can act in between, and
-- the steps of all of them in any order. What waitForRefresh gives is an argument of a round.
-- Flight is the proof that one refresh runs at a time, Waiting is about the answers of calls, Ends
-- about a refresh that fails for good, Agreement about the two kinds of round.
-- Envelope (internal/envelope/envelope.go): keys, Encrypt and Decrypt.
-- Prelude has the shared lists, tables, results and tests.
--
-- Conventions. Identifiers and other texts that are only compared are numbers, 0 for the blank or
-- empty one. Times are nanoseconds, with 0 for the zero time; the clock, the fresh identifiers and
-- the nonces are arguments. An int64 that the code tests for its sign comes in as an integer and goes
-- on, once tested, as a natural number; overflow checks are written out against the largest int64. A
-- float64 is given by its bits. A transaction is a function on the tables; an error rolls it back,
-- that is, gives back the tables it was called with. Transactions come one after another. Where the
-- bytes of a text matter, as in a chat stream, a raw key or a hash, it is a list of bytes.
--
-- Fuel. RecoverPending loops until both batches are empty; the model's loop has one round more than
-- there are rows to recover, which is enough, as each round ends at least one of them.
--
-- Not modelled: HTTP, JSON, OAuth, the journal of responses, artifacts, retention, backup and the
-- administration pages; database failures other than a missing row or a taken key. AES-GCM,
-- HMAC-SHA256, SHA-256, the tags of the validator, strings.TrimSpace, the checks of UTF-8 and JSON,
-- the writer of a stream, the transports, the callbacks and the registry of models are parameters;
-- of AES-GCM it is assumed that opening gives back what was sealed and that a tag has 16 bytes, and
-- of HMAC-SHA256 that a digest has 32 bytes.
pub mod Prelude
pub mod Quota
pub mod Lease
pub mod Accounts
pub mod Broker
pub mod Pricing
pub mod Refresher
pub mod Keys
pub mod Affinity
pub mod Envelope
pub mod Chat
