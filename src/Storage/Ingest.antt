-- ===== src/Storage/Ingest.antt =====
-- store.go: Ingest.
use sigmaproof.Prelude.{
  ℕ, Bool, true, false, ◌&&◌, ◌||◌, not, Option, none, some, List, [], ◌==◌, if◌then◌else◌, ok, err,
  ◌>>=◌,
}
use sigmaproof.Bytes.{Bytes}
use sigmaproof.Sha.{Sha256}
use sigmaproof.Commitment.{compute}
use sigmaproof.Storage.Types.{
  Source, Evidence, IngestRequest, Stored, conflict, invalid, corrupt, valid_text, valid_source,
  source_equal, witness_equal,
}
use sigmaproof.Storage.Bolt.{Bolt, Database, update, bolt_put}
use sigmaproof.Storage.Records.{
  Json, bucket_path, keys_bucket, sources_bucket, evidence_bucket, pending_bucket, sequence_key,
  new_id, tenant, evidence,
}

-- A look-up, or a second one where the first finds nothing.
abbrev pub or_else : Option Bytes → Option Bytes → Option Bytes
or_else none second = second
or_else (some id) second = some id

-- What is new is marked.
abbrev pub Ingestion : Type 0
Ingestion = Evidence × Bool

unfoldable pub valid_request : IngestRequest → Bool
valid_request req = valid_text req.tenant && valid_text req.key && valid_source req.source

unfoldable pub new_evidence : IngestRequest → Bytes → ℕ → Evidence
new_evidence req id sequence = record {
  id = id;
  sequence = sequence;
  source = req.source;
  witness = req.witness;
  batch_id = [];
  index = 0;
}

module _ ⦃bolt : Bolt⦄ ⦃json : Json⦄ ⦃sha : Sha256⦄ where
  -- The id under which a request is known, by its key or else by its source.
  unfoldable pub known_id : Database → Bytes → Bytes → Source → ℕ → Option Bytes
  known_id tx name key source rep =
      or_else (bolt.get tx (bucket_path name keys_bucket) key)
        (bolt.get tx (bucket_path name sources_bucket) (json.source_key source rep))

  -- A retry: the same record, known by this key from now on too.
  unfoldable pub ingest_known : Database → IngestRequest → Evidence → Stored (Ingestion × Database)
  ingest_known tx req e =
      if not (source_equal e.source req.source) || not (witness_equal e.witness req.witness)
      then err conflict
      else do
        tx' ← bolt_put tx (bucket_path req.tenant keys_bucket) req.key e.id
        ok ((e, false), tx')

  -- The four writes of a new record.
  unfoldable pub write_new : Database → IngestRequest → Evidence → Stored (Ingestion × Database)
  write_new tx req e = do
    tx1 ← bolt_put tx (bucket_path req.tenant evidence_bucket) e.id (json.evidence_data e)
    tx2 ← bolt_put tx1 (bucket_path req.tenant keys_bucket) req.key e.id
    tx3 ←
        bolt_put tx2 (bucket_path req.tenant sources_bucket)
          (json.source_key req.source req.witness.representation) e.id
    tx4 ← bolt_put tx3 (bucket_path req.tenant pending_bucket) (sequence_key e.sequence) e.id
    ok ((e, true), tx4)

  -- `NextSequence`, where 0 is what a wrapped counter gives.
  unfoldable pub ingest_sequenced :
      IngestRequest → Bytes → Option (ℕ × Database) → Stored (Ingestion × Database)
  ingest_sequenced req id none = err corrupt
  ingest_sequenced req id (some (sequence, tx)) =
      if sequence == 0 then err corrupt else write_new tx req (new_evidence req id sequence)

  unfoldable pub ingest_new :
      List (Option Bytes) → Database → IngestRequest → Stored (Ingestion × Database)
  ingest_new draws tx req = do
    id ← new_id draws (bolt.get tx (bucket_path req.tenant evidence_bucket))
    ingest_sequenced req id (bolt.next_sequence tx (bucket_path req.tenant evidence_bucket))

  unfoldable pub ingest_at :
      List (Option Bytes) → Database → IngestRequest → Option Bytes → Stored (Ingestion × Database)
  ingest_at draws tx req none = ingest_new draws tx req
  ingest_at draws tx req (some id) = do e ← evidence tx req.tenant id; ingest_known tx req e

  -- `ingest`, in a transaction.
  unfoldable pub ingest_tx :
      List (Option Bytes) → IngestRequest → Database → Stored (Ingestion × Database)
  ingest_tx draws req db = do
    tx ← tenant db req.tenant true
    ingest_at draws tx req (known_id tx req.tenant req.key req.source req.witness.representation)

  -- The commitment is computed only to see whether the witness is supported.
  unfoldable pub ingest :
      List (Option Bytes) → IngestRequest → Database → Stored Ingestion × Database
  ingest draws req db =
      if not (valid_request req) then (err invalid, db) else elim (compute req.witness) [
        | err e ↦ (err invalid, db)
        | ok c ↦ update (ingest_tx draws req) db
      ]
