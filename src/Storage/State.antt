-- ===== src/Storage/State.antt =====
-- The records that a view holds.
use sigmaproof.Prelude.{◌≡◌, refl, Option, ◌>>=◌}
use sigmaproof.Bytes.{Bytes}
use sigmaproof.Sha.{Sha256}
use sigmaproof.Batch.{Manifest}
use sigmaproof.Batch
use sigmaproof.Storage.Types.{Evidence, FrozenBatch, Stored}
use sigmaproof.Storage.Bolt.{Bolt, Database}
use sigmaproof.Storage.Records.{
  Json, evidence_bucket, batches_bucket, or_corrupt, decode, check_evidence, with_state,
  check_frozen, evidence, frozen,
}
use sigmaproof.Storage.View.{View, view}

module _ ⦃json : Json⦄ ⦃sha : Sha256⦄ where
  abbrev pub evidence_of : Bytes → Option Bytes → Stored Evidence
  evidence_of id d = decode json.read_evidence d >>= check_evidence id

  abbrev pub checked_batch : Bytes → FrozenBatch → Stored FrozenBatch
  checked_batch id b = or_corrupt (Batch.parse b.manifest) >>= check_frozen id (with_state b)

  abbrev pub batch_of : Bytes → Option Bytes → Stored FrozenBatch
  batch_of id d = decode json.read_batch d >>= checked_batch id

  -- The evidence and the batch under an id.
  abbrev pub evidence_at : View → Bytes → Stored Evidence
  evidence_at v id = evidence_of id (v.cell evidence_bucket id)

  abbrev pub batch_at : View → Bytes → Stored FrozenBatch
  batch_at v id = batch_of id (v.cell batches_bucket id)

  pub evidence-view :
      ⦃bolt : Bolt⦄ (tx : Database) (name id : Bytes)
      → evidence tx name id ≡ evidence_at (view tx name) id
  unfolding evidence
  evidence-view tx name id = refl

  pub frozen-view :
      ⦃bolt : Bolt⦄ (tx : Database) (name id : Bytes)
      → frozen tx name id ≡ batch_at (view tx name) id
  unfolding frozen
  frozen-view tx name id = refl
