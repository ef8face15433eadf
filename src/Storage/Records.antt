-- ===== src/Storage/Records.antt =====
-- store.go: the buckets of a tenant and the records in them. encoding/json is a parameter, with the
-- laws that a record of valid texts is read back from what was written, and that what names a source
-- tells sources of valid texts apart. Marshalling such records never fails.
use sigmaproof.Prelude.{
  ℕ, ◌≡◌, ◌≤◌, Bool, true, ◌&&◌, ◌||◌, not, Option, none, some, List, [], ◌∷◌, length, ltb, leb,
  ◌==◌, if◌then◌else◌, ok, err, ◌>>=◌,
}
use sigmaproof.Bytes.{Bytes, IsU64, codes, bytes_equal}
use sigmaproof.Bytes.Words.{put_uint64}
use sigmaproof.Sha.{Sha256}
use sigmaproof.Errors.{Outcome}
use sigmaproof.Text.{hex}
use sigmaproof.Commitment.{encode, compute, IsWitness}
use sigmaproof.Batch.{Manifest}
use sigmaproof.Batch
use sigmaproof.Storage.Types.{
  Source, Evidence, FrozenBatch, Stored, not_found, corrupt, random_failed, out_of_draws,
  max_record_bytes, submission_not_submitted, valid_id, valid_source, valid_limit, limit_count,
  valid_reference, valid_submission_state,
}
use sigmaproof.Storage.Bolt.{Bolt, BucketPath, Database, bolt_create}

-- A record as the store writes it: its texts are valid, its id has 32 hexadecimal digits, its batch
-- is an id or empty, its witness is one that can be encoded, and its numbers fit their fields.
pub record IsEvidence (e : Evidence) : Type 0 where
  pub id_digits : valid_id e.id ≡ true
  pub source_texts : valid_source e.source ≡ true
  pub batch_digits : (length e.batch_id == 0 || valid_id e.batch_id) ≡ true
  pub witness_sizes : IsWitness e.witness
  pub witness_encodes : (d : Bytes) × (encode e.witness ≡ ok d)
  pub sequence_word : IsU64 e.sequence
  pub index_word : IsU64 e.index

unfoldable pub all_ids : List Bytes → Bool
all_ids [] = true
all_ids (id ∷ ids) = valid_id id && all_ids ids

pub record IsFrozenBatch (b : FrozenBatch) : Type 0 where
  pub id_digits : valid_id b.id ≡ true
  pub limit_range : valid_limit b.limit ≡ true
  pub within : leb (length b.evidence_ids) (limit_count b.limit) ≡ true
  pub ids_digits : all_ids b.evidence_ids ≡ true
  pub manifest_size : length b.manifest ≡ Batch.encoded_size
  pub state : valid_submission_state b.submission_state ≡ true
  pub reference : valid_reference b.submission_ref ≡ true

pub record Json : Type 0 where
  pub evidence_data : Evidence → Bytes
  pub read_evidence : Bytes → Option Evidence
  pub batch_data : FrozenBatch → Bytes
  pub read_batch : Bytes → Option FrozenBatch
  -- `sourceKey`
  pub source_key : Source → ℕ → Bytes
  pub read-evidence_data : (e : Evidence) → IsEvidence e → read_evidence (evidence_data e) ≡ some e
  pub evidence_data_size :
      (e : Evidence) → IsEvidence e → length (evidence_data e) ≤ max_record_bytes
  -- the arrays of a witness have their sizes, and the words are words
  pub read_evidence_sizes :
      (d : Bytes) (e : Evidence)
      → read_evidence d ≡ some e
      → IsWitness e.witness × IsU64 e.sequence × IsU64 e.index
  pub read-batch_data : (b : FrozenBatch) → IsFrozenBatch b → read_batch (batch_data b) ≡ some b
  pub batch_data_size :
      (b : FrozenBatch) → IsFrozenBatch b → length (batch_data b) ≤ max_record_bytes
  pub source_key_injective :
      (s t : Source) (r q : ℕ)
      → valid_source s ≡ true
      → valid_source t ≡ true
      → source_key s r ≡ source_key t q
      → (s ≡ t) × (r ≡ q)

abbrev pub tenants_path : BucketPath
tenants_path = codes "tenants" ∷ []

abbrev pub tenant_path : Bytes → BucketPath
tenant_path name = codes "tenants" ∷ name ∷ []

abbrev pub bucket_path : Bytes → Bytes → BucketPath
bucket_path name bucket = codes "tenants" ∷ name ∷ bucket ∷ []

abbrev pub evidence_bucket : Bytes
evidence_bucket = codes "evidence"

abbrev pub keys_bucket : Bytes
keys_bucket = codes "keys"

abbrev pub sources_bucket : Bytes
sources_bucket = codes "sources"

abbrev pub pending_bucket : Bytes
pending_bucket = codes "pending"

abbrev pub batches_bucket : Bytes
batches_bucket = codes "batches"

abbrev pub batch_keys_bucket : Bytes
batch_keys_bucket = codes "batch_keys"

abbrev pub outbox_bucket : Bytes
outbox_bucket = codes "outbox"

abbrev pub tenant_buckets : List Bytes
tenant_buckets =
    evidence_bucket ∷ keys_bucket ∷ sources_bucket ∷ pending_bucket ∷ batches_bucket
    ∷ batch_keys_bucket ∷ outbox_bucket ∷ []

-- `sequenceKey`
abbrev pub sequence_key : ℕ → Bytes
sequence_key n = put_uint64 n

-- `decode`, with the reader of the record's type.
unfoldable pub decode : {A : Type 0} → (Bytes → Option A) → Option Bytes → Stored A
decode read none = err not_found
decode read (some d) =
    if ltb max_record_bytes (length d)
    then err corrupt
    else elim (read d) [ none ↦ err corrupt | some a ↦ ok a ]

-- Any error of a proof package, where the store reports its record as corrupt.
abbrev pub or_corrupt : {A : Type 0} → Outcome A → Stored A
or_corrupt (err e) = err corrupt
or_corrupt (ok a) = ok a

-- `newID`: the draws of 16 random bytes, none where the source fails.
unfoldable pub new_id : List (Option Bytes) → (Bytes → Option Bytes) → Stored Bytes
new_id [] found = err out_of_draws
new_id (none ∷ draws) found = err random_failed
new_id (some raw ∷ draws) found = elim (found (hex raw)) [
  | none ↦ ok (hex raw)
  | some d ↦ new_id draws found
]

unfoldable pub check_evidence : ⦃sha : Sha256⦄ → Bytes → Evidence → Stored Evidence
check_evidence id e =
    if not (bytes_equal e.id id)
      || not (valid_id id)
      || e.sequence == 0
      || not (valid_source e.source)
    then err corrupt
    else do c ← or_corrupt (compute e.witness); ok e

-- Records from before submissions were stored have no state.
unfoldable pub with_state : FrozenBatch → FrozenBatch
with_state b =
    if length b.submission_state == 0
    then record b { submission_state = submission_not_submitted }
    else b

unfoldable pub check_frozen : Bytes → FrozenBatch → Manifest → Stored FrozenBatch
check_frozen id b m =
    if not (bytes_equal b.id id)
      || not (valid_id id)
      || not (valid_limit b.limit)
      || ltb (limit_count b.limit) (length b.evidence_ids)
      || not (length b.evidence_ids == m.size)
      || not (valid_submission_state b.submission_state)
      || not (valid_reference b.submission_ref)
    then err corrupt
    else ok b

module _ ⦃bolt : Bolt⦄ where
  unfoldable pub has_buckets : Database → Bytes → List Bytes → Bool
  has_buckets tx name [] = true
  has_buckets tx name (b ∷ bs) = bolt.has tx (bucket_path name b) && has_buckets tx name bs

  unfoldable pub create_buckets : Bytes → List Bytes → Database → Stored Database
  create_buckets name [] tx = ok tx
  create_buckets name (b ∷ bs) tx = do
    tx' ← bolt_create tx (bucket_path name b)
    create_buckets name bs tx'

  unfoldable pub create_tenant : Database → Bytes → Stored Database
  create_tenant tx name = do
    tx' ← bolt_create tx (tenant_path name)
    create_buckets name tenant_buckets tx'

  -- The tenant's bucket, made where it is missing and the caller wants it.
  unfoldable pub open_tenant : Database → Bytes → Bool → Stored Database
  open_tenant tx name create =
      if bolt.has tx (tenant_path name)
      then ok tx
      else if not create
      then err not_found
      else create_tenant tx name

  unfoldable pub check_tenant : Bytes → Database → Stored Database
  check_tenant name tx = if has_buckets tx name tenant_buckets then ok tx else err corrupt

  -- `tenant`: the transaction in which the tenant's buckets are there.
  unfoldable pub tenant : Database → Bytes → Bool → Stored Database
  tenant tx name create =
      if not (bolt.has tx tenants_path)
      then err corrupt
      else do tx' ← open_tenant tx name create; check_tenant name tx'

  module _ ⦃json : Json⦄ where
    unfoldable pub evidence : ⦃sha : Sha256⦄ → Database → Bytes → Bytes → Stored Evidence
    evidence tx name id = do
      e ← decode json.read_evidence (bolt.get tx (bucket_path name evidence_bucket) id)
      check_evidence id e

    unfoldable pub frozen : Database → Bytes → Bytes → Stored FrozenBatch
    frozen tx name id = do
      b ← decode json.read_batch (bolt.get tx (bucket_path name batches_bucket) id)
      m ← or_corrupt (Batch.parse b.manifest)
      check_frozen id (with_state b) m
