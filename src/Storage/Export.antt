-- ===== src/Storage/Export.antt =====
-- store.go: what is read from the store: Evidence, Batch and UnanchoredPackage.
pub mod Members
pub mod Verified
use sigmaproof.Prelude.{
  ℕ, zero, suc, ◌+◌, ◌≡◌, Bool, true, false, ◌||◌, not, Option, none, some, List, [], ◌∷◌, length,
  get_elem?, ◌==◌, if◌then◌else◌, ok, err, ◌>>=◌, ◌>>◌,
}
use sigmaproof.Bytes.{Bytes, bytes_equal}
use sigmaproof.Sha.{Sha256}
use sigmaproof.Commitment.{Digest, compute}
use sigmaproof.Batch
use sigmaproof.Batch.{Manifest}
use sigmaproof.Merkle
use sigmaproof.Package.{Package}
use sigmaproof.Storage.Types.{
  Evidence, FrozenBatch, StoreError, Stored, invalid, corrupt, not_batched, valid_text, valid_id,
}
use sigmaproof.Storage.Bolt.{Bolt, Database}
use sigmaproof.Storage.Records.{Json, or_corrupt, tenant, evidence, frozen}
use sigmaproof.Storage.Freeze.{or_proof_failed}

-- The member at the index of the evidence is the evidence.
unfoldable pub is_member_at : Bytes → Option Bytes → Bool
is_member_at id none = false
is_member_at id (some member) = bytes_equal member id

unfoldable pub check_member : Bytes → ℕ → Evidence → Stored (Unit {0})
check_member batch_id i e =
    if not (bytes_equal e.batch_id batch_id) || not (e.index == i) then err corrupt else ok tt

module _ ⦃sha : Sha256⦄ where
  unfoldable pub check_root : List Digest → Manifest → Stored (Unit {0})
  check_root cs m = if not (bytes_equal (Merkle.root cs) m.root) then err corrupt else ok tt

  unfoldable pub build_package : Evidence → FrozenBatch → List Digest → Stored Package
  build_package e b cs = do
    m ← or_corrupt (Batch.parse b.manifest)
    check_root cs m
    path ← or_proof_failed (Merkle.path cs e.index)
    ok (record { witness = e.witness; manifest = m; index = e.index; path = path })

module _ ⦃bolt : Bolt⦄ ⦃json : Json⦄ ⦃sha : Sha256⦄ where
  unfoldable pub get_evidence : Bytes → Bytes → Database → Stored Evidence
  get_evidence name id db =
      if not (valid_text name) || not (valid_id id)
      then err invalid
      else do tx ← tenant db name false; evidence tx name id

  unfoldable pub get_batch : Bytes → Bytes → Database → Stored FrozenBatch
  get_batch name id db =
      if not (valid_text name) || not (valid_id id)
      then err invalid
      else do tx ← tenant db name false; frozen tx name id

  -- The loop over the members, from the index `i`: their commitments.
  unfoldable pub entries_from : Database → Bytes → Bytes → ℕ → List Bytes → Stored (List Digest)
  entries_from tx name batch_id i [] = ok []
  entries_from tx name batch_id i (id ∷ ids) = do
    e ← evidence tx name id
    check_member batch_id i e
    c ← or_corrupt (compute e.witness)
    cs ← entries_from tx name batch_id (i + 1) ids
    ok (c ∷ cs)

  -- Behind the batch of the evidence.
  unfoldable pub package_in : Database → Bytes → Bytes → Evidence → FrozenBatch → Stored Package
  package_in tx name id e b =
      if not (is_member_at id (get_elem? b.evidence_ids e.index))
      then err corrupt
      else do cs ← entries_from tx name b.id 0 b.evidence_ids; build_package e b cs

  unfoldable pub package_of : Database → Bytes → Bytes → Evidence → Stored Package
  package_of tx name id e =
      if length e.batch_id == 0
      then err not_batched
      else do b ← frozen tx name e.batch_id; package_in tx name id e b

  unfoldable pub unanchored_package : Bytes → Bytes → Database → Stored Package
  unanchored_package name id db =
      if not (valid_text name) || not (valid_id id)
      then err invalid
      else do tx ← tenant db name false; e ← evidence tx name id; package_of tx name id e
