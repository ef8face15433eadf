-- ===== src/Storage/Freeze.antt =====
-- store.go: Freeze, which binds pending evidence to a new batch.
use sigmaproof.Prelude.{
  ℕ, zero, suc, ◌+◌, false, ◌||◌, not, Option, none, some, List, [], ◌∷◌, map, length, ◌==◌,
  if◌then◌else◌, ok, err, ◌>>=◌, ◌>>◌, ℤ,
}
use sigmaproof.Bytes.{Bytes, bytes_equal}
use sigmaproof.Sha.{Sha256}
use sigmaproof.Errors.{Outcome}
use sigmaproof.Commitment.{Digest, compute}
use sigmaproof.Batch
use sigmaproof.Storage.Types.{
  Evidence, FrozenBatch, Stored, conflict, invalid, corrupt, no_pending, proof_failed,
  submission_not_submitted, valid_text, valid_limit, limit_count, int_equal,
}
use sigmaproof.Storage.Bolt.{Bolt, Database, update, bolt_put, bolt_delete}
use sigmaproof.Storage.Records.{
  Json, bucket_path, evidence_bucket, pending_bucket, batches_bucket, batch_keys_bucket,
  outbox_bucket, sequence_key, new_id, or_corrupt, tenant, evidence, frozen,
}

-- An error of a proof package, passed on.
abbrev pub or_proof_failed : {A : Type 0} → Outcome A → Stored A
or_proof_failed (err e) = err (proof_failed e)
or_proof_failed (ok a) = ok a

-- A member of a batch and its commitment.
abbrev pub Member : Type 0
Member = Evidence × Digest

abbrev pub member_id : Member → Bytes
member_id m = m.0.id

abbrev pub member_commitment : Member → Digest
member_commitment m = m.1

unfoldable pub check_pending : Bytes → Evidence → Stored (Unit {0})
check_pending k e =
    if not (bytes_equal k (sequence_key e.sequence)) || not (length e.batch_id == 0)
    then err corrupt
    else ok tt

unfoldable pub check_members : List Member → Stored (List Member)
check_members [] = err no_pending
check_members (m ∷ ms) = ok (m ∷ ms)

-- A member with its place in the batch.
unfoldable pub batched : Bytes → ℕ → Evidence → Evidence
batched id i e = record e { batch_id = id; index = i }

unfoldable pub new_batch : Bytes → ℤ → Bytes → List Member → FrozenBatch
new_batch id limit manifest ms = record {
  id = id;
  limit = limit;
  evidence_ids = map member_id ms;
  manifest = manifest;
  submission_state = submission_not_submitted;
  submission_ref = [];
}

module _ ⦃bolt : Bolt⦄ ⦃json : Json⦄ ⦃sha : Sha256⦄ where
  -- The body of the first loop, for one entry of the pending bucket.
  unfoldable pub collect_one : Database → Bytes → Bytes × Bytes → Stored Member
  collect_one tx name (k, id) = do
    e ← evidence tx name id
    check_pending k e
    c ← or_corrupt (compute e.witness)
    ok (e, c)

  unfoldable pub collect : Database → Bytes → ℕ → List (Bytes × Bytes) → Stored (List Member)
  collect tx name zero entries = ok []
  collect tx name (suc n) [] = ok []
  collect tx name (suc n) (entry ∷ entries) = do
    m ← collect_one tx name entry
    ms ← collect tx name n entries
    ok (m ∷ ms)

  -- The second loop, from the index `i`.
  unfoldable pub bind_members : Bytes → Bytes → ℕ → List Member → Database → Stored Database
  bind_members name id i [] tx = ok tx
  bind_members name id i ((e, c) ∷ ms) tx = do
    tx1 ← bolt_put tx (bucket_path name evidence_bucket) e.id (json.evidence_data (batched id i e))
    tx2 ← bolt_delete tx1 (bucket_path name pending_bucket) (sequence_key e.sequence)
    bind_members name id (i + 1) ms tx2

  -- The batch record, its request key and its outbox entry.
  unfoldable pub write_batch :
      Bytes → Bytes → FrozenBatch → Database → Stored (FrozenBatch × Database)
  write_batch name key b tx = do
    tx1 ← bolt_put tx (bucket_path name batches_bucket) b.id (json.batch_data b)
    tx2 ← bolt_put tx1 (bucket_path name batch_keys_bucket) key b.id
    tx3 ← bolt_put tx2 (bucket_path name outbox_bucket) b.id b.manifest
    ok (b, tx3)

  unfoldable pub freeze_members :
      List (Option Bytes)
      → Bytes
      → Bytes
      → ℤ
      → Database
      → List Member
      → Stored (FrozenBatch × Database)
  freeze_members draws name key limit tx ms = do
    m ← or_proof_failed (Batch.new (map member_commitment ms))
    manifest ← or_proof_failed (Batch.marshal_binary m)
    id ← new_id draws (bolt.get tx (bucket_path name batches_bucket))
    tx' ← bind_members name id 0 ms tx
    write_batch name key (new_batch id limit manifest ms) tx'

  unfoldable pub freeze_pending :
      List (Option Bytes) → Bytes → Bytes → ℤ → Database → Stored (FrozenBatch × Database)
  freeze_pending draws name key limit tx = do
    found ← collect tx name (limit_count limit) (bolt.entries tx (bucket_path name pending_bucket))
    ms ← check_members found
    freeze_members draws name key limit tx ms

  -- A retry with a key that has a batch.
  unfoldable pub freeze_known : ℤ → Database → FrozenBatch → Stored (FrozenBatch × Database)
  freeze_known limit tx b = if not (int_equal b.limit limit) then err conflict else ok (b, tx)

  unfoldable pub freeze_at :
      List (Option Bytes)
      → Bytes
      → Bytes
      → ℤ
      → Database
      → Option Bytes
      → Stored (FrozenBatch × Database)
  freeze_at draws name key limit tx none = freeze_pending draws name key limit tx
  freeze_at draws name key limit tx (some id) = do b ← frozen tx name id; freeze_known limit tx b

  -- `freeze`, in a transaction.
  unfoldable pub freeze_tx :
      List (Option Bytes) → Bytes → Bytes → ℤ → Database → Stored (FrozenBatch × Database)
  freeze_tx draws name key limit db = do
    tx ← tenant db name false
    freeze_at draws name key limit tx (bolt.get tx (bucket_path name batch_keys_bucket) key)

  unfoldable pub freeze :
      List (Option Bytes) → Bytes → Bytes → ℤ → Database → Stored FrozenBatch × Database
  freeze draws name key limit db =
      if not (valid_text name) || not (valid_text key) || not (valid_limit limit)
      then (err invalid, db)
      else update (freeze_tx draws name key limit) db
