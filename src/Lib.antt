-- ===== src/Lib.antt =====
-- secretmediabot: a model of the core of the Telegram bot in this repository.
--
-- The bot lets a member of a chat send a secret (a whisper) that one other member opens by a button.
-- Its services keep all state in PostgreSQL through internal/repository, whose calls are the steps
-- of the program: a reservation, a completion, a lease and a cleanup are each one transaction.
--
-- Base: tests, lists, integers, tables with a key, and statements over selected rows.
--   Base/Table: reads and updates by a primary key; Base/Table/Laws: how they act on a row.
--   Base/Select: subqueries with ORDER BY and LIMIT, and the UPDATE and DELETE of what they select.
-- Domain: internal/domain.
--   Domain/Status: the string types of a life cycle, `IsValid` and `CanTransitionTo`.
--   Domain/Lifecycle: the same transitions drawn as relations.
--   Domain/Content, Domain/Draft, Domain/Whisper, Domain/Events: the values, their constructors
--   (`NewDraft`, `NewWhisper`) and `Validate`, with the first error that it returns.
--   Domain/User: users and chats of user.go and chat.go, and the normalized username.
-- Repository: internal/repository.
--   Repository/Rows: a row is a record, a table is a list of rows, Db holds all tables.
--   Repository/Tx: a database action maps Db to a result and a Db; a transaction that returns an
--   error is rolled back. Repository/Success is about actions that succeed,
--   Repository/Statements holds the statements that several files issue.
--   Repository/Mapping: loadWhisperProjection and toDomain of mapping.go.
--   Repository/Opening: opening.go. Reserve is ReserveOpen, Finish is CompleteOpen and FailOpen,
--   Audit holds recordDeniedOpen and its neighbours, Content is loadDeliveryContent. Tally counts
--   the events of a whisper, Capped bounds them by its status, Once runs sequences of calls.
--   Granted is about the reservations that ReserveOpen returns, Clear and Ambiguous about its answer
--   that a delivery is ambiguous, Delivered about a CompleteOpen that succeeds.
--   Repository/Cleanup: cleanup.go. Run is RunCleanup, Keeps and Recorded say what it leaves alone.
--   Repository/Updates: updates.go. Leases, Processed and Attempts are about Telegram updates,
--   Deletions about the jobs that delete messages.
--   Repository/Publish: publish.go. Steps and Path follow a whisper through publication.
--   Repository/Drafts: drafts.go. Quota is about CreateDraft, Lease about the ingest lease.
--   Repository/Finalize: finalize.go. Checks is validateFinalization, Rows the rows that are
--   inserted, Stored what the inserts leave alone, Success what FinalizeDraft has done when it
--   returns; Moves and Path follow a draft through the calls of both files.
--   Repository/Identity: identity.go. Lookup is about FindObservedUserByUsername, Merge about the
--   upserts.
--   Repository/Guest: guest.go, from the ingest of a secret to its delivery. Params and Values hold
--   what callers pass and see, Create is CreateGuestRequest and MarkGuestEnvelope, Claim is
--   ClaimGuestTarget and ClaimGuestOpen, Closing the end of an opening and cancellation, Jobs the
--   deletion jobs and two lookups. Moves draws the states of a request, Traced and Path follow one
--   request through the calls, Jobs/Deleted a job, and Granted is about the reservations that
--   ClaimGuestOpen returns.
-- Token: internal/token, on the bytes of the callback data; Token/Canonical is about the parser.
-- Crypto: internal/secretcrypto; Crypto/Binding is about the associated data, Crypto/RoundTrip
--   about the keyring.
-- Service: internal/service. Service/Stored is crypto.go and encryptInput of ingest.go, and
--   Service/RoundTrip follows a payload through the rows of the repository.
-- Tests: the theorems at concrete inputs.
--
-- Conventions. `now` and `time.Now()`, `uuid.New()` and the text of a UUID are arguments. Instants
-- are natural numbers of nanoseconds, 0 is the zero time; a difference that would go below 0 is 0.
-- Identifiers of Telegram are signed integers without a bound, serial keys are natural numbers, a
-- hash is a list of bytes. Rows that other transactions hold, which SKIP LOCKED passes over, are an
-- argument. Row locks make the transactions on one row follow each other, so a concurrent run is a
-- sequence of calls. Errors of the connection are left out: a statement fails only by a constraint.
-- Of the constraints the model has the primary keys, the unique columns of the rows that it inserts,
-- the one unfinished draft of a sender, the size of a media row, the outcomes that the CHECK of
-- whisper_open_events admits, and the references of a member to its chat and user, of a guest request
-- to its chat and of a guest payload to its request; the rows of users, chats and members that a draft
-- refers to are an argument. All functions are structural recursions, no fuel is used. base64, SHA-256,
-- AES-GCM, the text of a UUID and lower case beyond ASCII are arguments of the definitions that use
-- them, and what the theorems need of their documented behaviour is a hypothesis.
--
-- Not modelled: FindRecentTargetsForSender and the owner operations in internal/repository (RunCleanup
-- is modelled without the tables of guest requests, users and chats); the CHECK constraints of the
-- tables of guest requests; the other use cases of internal/service; internal/app, internal/bot,
-- internal/telegram, internal/command, and configuration, metrics and HTTP.
pub mod Base
pub mod Domain
pub mod Repository
pub mod Token
pub mod Crypto
pub mod Service
pub mod Tests
