-- ===== src/Storage/Persist/Submission.antt =====
-- Recording a submission changes one batch, and only what it says of its submission.
use mathlib.Core.Path.{subst}
use sigmaproof.Prelude.{
  ◌≡◌, refl, ap, sym, ◌∙◌, Bool, true, some, if◌then◌else◌, ok, ok-injective, arith, Bool-cases,
  inl, inr,
}
use sigmaproof.Bytes.{Bytes, bytes_equal, bytes_equal_iff}
use sigmaproof.Sha.{Sha256}
use sigmaproof.Batch.Codec.{parse_sound}
use sigmaproof.Storage.Types.{FrozenBatch, valid_id, valid_submission_state, valid_reference}
use sigmaproof.Storage.Records.{Json, all_ids, evidence_bucket, batches_bucket}
use sigmaproof.Storage.Submit.{is_submitted, with_submission}
use sigmaproof.Storage.View.{View}
use sigmaproof.Storage.State.{evidence_of, batch_of, batch_at}
use sigmaproof.Storage.Reading.{IsBatch, batch_of-IsBatch}
use sigmaproof.Storage.Writing.{batch_of-written}
use sigmaproof.Storage.Effects.Submit.{write_state}
use sigmaproof.Storage.Persist.{KeptBatch-refl, Persists}

module _ ⦃json : Json⦄ ⦃sha : Sha256⦄ where
  pub submission-written :
      (id state reference : Bytes) (b : FrozenBatch)
      → IsBatch id b
      → all_ids b.evidence_ids ≡ true
      → valid_submission_state state ≡ true
      → valid_reference reference ≡ true
      → batch_of id (some (json.batch_data (with_submission state reference b)))
        ≡ ok (with_submission state reference b)
  unfolding with_submission
  submission-written id state reference b h all vs vr =
      let (root, valid, size) = parse_sound b.manifest h.manifest_of h.parsed in
      ap (λ t. batch_of t (some (json.batch_data (with_submission state reference b))))
        (sym h.own_id)
      ∙ batch_of-written (with_submission state reference b) h.manifest_of
          (record {
            id_digits = ap valid_id h.own_id ∙ h.id_digits;
            limit_range = h.limit_range;
            within = ground (arith, h.within);
            ids_digits = all;
            manifest_size = size;
            state = vs;
            reference = vr;
          })
          h.parsed h.count

  write_state-batches :
      (v : View) (id j : Bytes) (b : FrozenBatch)
      → (write_state id b v).cell batches_bucket j
        ≡ (if bytes_equal id j then some (json.batch_data b) else v.cell batches_bucket j)
  unfolding bytes_equal
  write_state-batches v id j b = refl

  write_state-evidence :
      (v : View) (id j : Bytes) (b : FrozenBatch)
      → (write_state id b v).cell evidence_bucket j ≡ v.cell evidence_bucket j
  unfolding bytes_equal
  write_state-evidence v id j b = refl

  pub submission-Persists :
      (v : View) (id state reference : Bytes) (b : FrozenBatch)
      → batch_at v id ≡ ok b
      → valid_submission_state state ≡ true
      → valid_reference reference ≡ true
      → (is_submitted b.submission_state ≡ true → is_submitted state ≡ true)
      → Persists v (write_state id (with_submission state reference b) v)
  submission-Persists v id state reference b there vs vr final = record {
    evidence_kept = λ j e h. (e, ap (evidence_of j) (write_state-evidence v id j b1) ∙ h, inl refl);
    batch_kept = λ j x h all. elim (Bool-cases (bytes_equal id j)) [
      | inl same ↦
          let is_j = (bytes_equal_iff id j).0 same in
          let is_b : b ≡ x = ok-injective (sym there ∙ ap (batch_at v) is_j ∙ h) in
          let own = subst (λ t. IsBatch t b) is_j (batch_of-IsBatch id _ b there) in
          (
            with_submission state reference b,
            ap (batch_of j) (write_state-batches v id j b1)
                ∙ ap
                    (λ (t : Bool).
                      batch_of j (if t then some (json.batch_data b1) else v.cell batches_bucket j))
                    same
                ∙ submission-written j state reference b own
                    (ap (λ (t : FrozenBatch). all_ids t.evidence_ids) is_b ∙ all) vs vr,
            (
              state,
              reference,
              ap (with_submission state reference) is_b,
              λ g. final (ap (λ (t : FrozenBatch). is_submitted t.submission_state) is_b ∙ g),
            ),
          )
      | inr other ↦ (
        x,
        ap (batch_of j) (write_state-batches v id j b1)
            ∙ ap
                (λ (t : Bool).
                  batch_of j (if t then some (json.batch_data b1) else v.cell batches_bucket j))
                other
            ∙ h,
        KeptBatch-refl x,
      )
    ];
  }
    where
      b1 : FrozenBatch
      b1 = with_submission state reference b
