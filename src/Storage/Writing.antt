-- ===== src/Storage/Writing.antt =====
-- What is written is read back.
use sigmaproof.Prelude.{◌<◌, ◌≡◌, refl, ap, ◌∙◌, true, some, length, ok, ◌>>=◌, >>=-eq-ok, arith}
use sigmaproof.Bytes.{Bytes, bytes_equal, bytes_equal_iff, bytes_equal_refl}
use sigmaproof.Sha.{Sha256}
use sigmaproof.Commitment.{Digest, Witness, encode, compute}
use sigmaproof.Batch
use sigmaproof.Batch.{Manifest}
use sigmaproof.Storage.Types.{
  Evidence, FrozenBatch, valid_submission_state, submission_not_submitted, submission_unknown,
  submission_submitted,
}
use sigmaproof.Storage.Records.{
  Json, IsEvidence, IsFrozenBatch, or_corrupt, check_evidence, with_state, check_frozen,
}
use sigmaproof.Storage.State.{evidence_of, batch_of, checked_batch}
use sigmaproof.Storage.Reading.{decode_of}

state_length : (state : Bytes) → valid_submission_state state ≡ true → 0 < length state
unfolding valid_submission_state
state_length state h = ground (
  arith,
  λ (e : bytes_equal state submission_not_submitted ≡ true).
      ap length ((bytes_equal_iff state submission_not_submitted).0 e),
  λ (e : bytes_equal state submission_unknown ≡ true).
      ap length ((bytes_equal_iff state submission_unknown).0 e),
  λ (e : bytes_equal state submission_submitted ≡ true).
      ap length ((bytes_equal_iff state submission_submitted).0 e),
)

with_state_valid :
    (b : FrozenBatch) → valid_submission_state b.submission_state ≡ true → with_state b ≡ b
unfolding with_state
with_state_valid b h = ground (arith, state_length b.submission_state h)

module _ ⦃sha : Sha256⦄ where
  pub compute_encodes :
      (w : Witness) (c : Digest) → compute w ≡ ok c → (d : Bytes) × (encode w ≡ ok d)
  unfolding compute
  compute_encodes w c h = let (d, e, r) = >>=-eq-ok (encode w) _ h in (d, e)

  encode_computes :
      (e : Evidence) (d : Bytes)
      → encode e.witness ≡ ok d
      → (c : Digest) × (compute e.witness ≡ ok c)
  unfolding compute
  encode_computes e d h = rw h (_, refl)

  pub check_evidence_of :
      (e : Evidence) → IsEvidence e → 0 < e.sequence → check_evidence e.id e ≡ ok e
  unfolding check_evidence
  check_evidence_of e h pos =
      let (d, encodes) = h.witness_encodes in
      let (c, commits) = encode_computes e d encodes in
      rw (bytes_equal_refl e.id, h.id_digits, h.source_texts, commits) (ground (arith, pos))

module _ ⦃json : Json⦄ ⦃sha : Sha256⦄ where
  pub evidence_of-written :
      (e : Evidence)
      → IsEvidence e
      → 0 < e.sequence
      → evidence_of e.id (some (json.evidence_data e)) ≡ ok e
  evidence_of-written e h pos =
      ap (λ t. t >>= check_evidence e.id)
        (decode_of json.read_evidence (json.evidence_data e) e (json.evidence_data_size e h)
          (json.read-evidence_data e h))
      ∙ check_evidence_of e h pos

  pub batch_of-written :
      (b : FrozenBatch) (m : Manifest)
      → IsFrozenBatch b
      → Batch.parse b.manifest ≡ ok m
      → length b.evidence_ids ≡ m.size
      → batch_of b.id (some (json.batch_data b)) ≡ ok b
  unfolding check_frozen
  batch_of-written b m h p n =
      ap (λ t. t >>= checked_batch b.id)
        (decode_of json.read_batch (json.batch_data b) b (json.batch_data_size b h)
          (json.read-batch_data b h))
      ∙ ap (λ t. or_corrupt t >>= check_frozen b.id (with_state b)) p
      ∙ ap (λ t. check_frozen b.id t m) (with_state_valid b h.state)
      ∙ rw (bytes_equal_refl b.id, h.id_digits, h.limit_range, h.state, h.reference)
          (ground (arith, n, h.within))
