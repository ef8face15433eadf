-- ===== src/Lib.antt =====
-- SigmaProof: the proofs that a document was committed to in a batch, as the Go code makes, packs
-- and checks them.
--
-- The parts of the program and how they meet. A document is hashed and committed to with a nonce
-- (pkg/proof/commitment). The commitments of a batch are the leaves of an RFC 6962 tree
-- (pkg/proof/merkle), whose size and root stand in a manifest (pkg/proof/batch). A package
-- (pkg/proof/package.go) carries the witness, the manifest, the index and the sibling path, and the
-- report (pkg/proof/verify.go) checks a document against a package. The Paperless agent
-- (integrations/paperless/agent) turns an event into a plan, fetches the document it names and
-- submits it for ingestion, one event at a time or in a pass over all that are ready. The store
-- (internal/storage) keeps, for each tenant, the witnesses of ingested documents, freezes pending
-- ones into a batch with its manifest, records what became of its submission, and exports the
-- package of a member.
--
-- Which file models which part. The children of a module hold its proofs.
--   Prelude, Bytes, Errors   lists, results, big-endian words and array copies; `Errors.Error` has
--                            one constructor for each error that the code makes
--   Sha                      crypto/sha256, a parameter: any function into 32 bytes; `Collision` is
--                            a pair of different inputs with one digest
--   Reader                   io.Reader behind io.LimitReader: the bytes it gives, and whether an
--                            error ends them
--   Merkle                   pkg/proof/merkle/merkle.go: leaf, node, split, Root (`root`), Path
--                            (`path`), Verify (`verify`, whose closure is `rebuild`)
--   Commitment               pkg/proof/commitment/commitment.go: Encode (`encode`), Compute, New,
--                            Verify, hashDocument (`hash_document`), Parse
--   Batch                    pkg/proof/batch/manifest.go: validate, New, MarshalBinary, Parse,
--                            Digest, Verify
--   Package                  pkg/proof/package.go: MarshalBinary, Parse, Read, CreateUnanchored,
--                            and pathLength (`path_length`, in Package/Depth)
--   Report                   pkg/proof/verify.go: the four checks, Verify, IntegrityVerified
--   Storage/Types, /Records  internal/storage/store.go: the records and checks of texts; the buckets
--                            of a tenant, decode, newID, tenant, evidence, frozen
--   Storage/Bolt             go.etcd.io/bbolt, an interface with the laws of its buckets; `update` is
--                            a transaction that is kept only if it succeeds and commits
--   Storage/Open             the transaction of Open
--   Storage/Ingest           Ingest
--   Storage/Documents        IngestDocument, find
--   Storage/Freeze, /Submit  Freeze; RecordSubmission and Outbox
--   Storage/Export           Evidence (`get_evidence`), Batch (`get_batch`), UnanchoredPackage
--   Storage/View, /State     what a transaction holds of a tenant, and the records in it
--   Storage/Effects, /Persist, /History
--                            what one call does to the records, what it keeps of them, and
--                            sequences of calls (`Step`, `Reaches`)
--   Agent/Planner            integrations/paperless/agent/planner.go: PlanIngest (`plan_ingest`),
--                            stableKey, writebackOnly, validText
--   Agent/Runner             integrations/paperless/agent/runner.go: Handle (`handle`), boundedBytes
--   Agent/Reconcile          integrations/paperless/agent/reconcile.go: Run (`run`)
--   Agent/Webhook            integrations/paperless/agent/webhook.go: ServeHTTP (`serve_http`),
--                            Handle (`handle_request`), validSignature, WebhookPayload
--   Cli                      internal/cli/run.go: Run, verify, create, openRegular, writePrivateFile, over
--                            a `System` of flags, files and output; the laws of the files stand in
--                            Cli/Files
--   Agent/Failures           the errors of the agent
--   Text                     Go strings as bytes: utf8.ValidString, strings.TrimSpace, encoding/hex and
--                            the like
--   Tests                    runs on concrete inputs, with a toy digest for SHA-256, a database in
--                            memory and records as lists of texts
--
-- How code is written here. A byte is a number below 256, an array a list; a result with an error
-- is `Outcome`. A struct's array fields have a fixed size in Go; here `IsHash` says so where a
-- theorem needs it. The nonce that the random source gives is an argument, `none` where it fails.
-- uint64 arithmetic is over the natural numbers, with the wrap-around written out in `len64`'s
-- argument; the other differences never go below 0.
--
-- The agent's fetcher, ingester and event source are interfaces in the source, which other parts
-- implement. They are functions that may fail and may change a world, of any type. `Handle` and
-- `Run` pass that world on in the order of their calls. Errors they return are only passed on.
--
-- The store is over two interfaces. `Bolt` is the database: a tree of buckets, each named by its
-- path, whose writes may fail; its laws say what is read behind a write, that a cursor goes through
-- a bucket by ascending keys, and that a sequence counts up to a uint64. `Json` writes and reads
-- records; its laws hold for records of valid texts. A call of the store takes the database and
-- gives its result and the database behind it. What crypto/rand gives is a list of draws; where it
-- is used up the model says `out_of_draws`, which the code does not have. `ingest_document` is
-- three transactions, and takes a function for what other calls do to the database in between; a
-- `Step` is one call with any arguments, and `Reaches` any sequence of them by any tenants.
--
-- The command line is over a `System`, whose calls change a world and say whether they succeeded.
-- `FileSystem` says what is at a path and how the calls change it: a temporary file is new and empty,
-- a write appends, a link is refused where something is, and no call changes another file.
--
-- Bounds and fuel. `root` has as many rounds as there are entries and `path` one more, since each
-- call is on a strictly shorter list. `rebuild` has 65 rounds and `path_length` 64: each round
-- halves a power of two that bounds the size, and a uint64 is below 2^64. Trimming a text takes a
-- byte in each round, so its length is enough rounds. Where `path` or `rebuild` had no round left
-- they would give `out_of_fuel`, an error that the code does not have.
--
-- Not modelled: the HTTP server (internal/server), the agent's HTTP fetcher, and the entry points
-- under cmd. Of the store, the checks of the file before Open and closing the database are left
-- out; of the command line, the texts of its messages and closing the files it read. Closing a
-- fetched document and writing an answer's JSON are left out; HMAC and JSON decoding are parameters
-- of the webhook. SHA-256 is not defined: what rests on its strength says that the claim holds or a
-- collision is at hand.
pub mod Prelude
pub mod Bytes
pub mod Errors
pub mod Sha
pub mod Merkle
pub mod Reader
pub mod Commitment
pub mod Batch
pub mod Package
pub mod Report
pub mod Text
pub mod Storage
pub mod Cli
pub mod Agent
pub mod Tests
