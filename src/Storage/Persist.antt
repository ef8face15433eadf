-- ===== src/Storage/Persist.antt =====
-- What every call of the store keeps of the records that can be read.
pub mod Binding
pub mod Submission
use mathlib.Core.Path.{subst}
use sigmaproof.Prelude.{
  ℕ, zero, suc, ◌+◌, ◌≤◌, ◌<◌, ◌^◌, ◌≡◌, ◌≢◌, ◌⊎◌, refl, ap, sym, ◌∙◌, Bool, true, false, ◌||◌,
  ◌&&◌, Option, none, some, List, [], ◌∷◌, All, map, length, ◌==◌, if◌then◌else◌, ok, err, ◌>>=◌,
  arith, Bool-cases, inl, inr, ℤ,
}
use sigmaproof.Bytes.{Bytes, IsU64, bytes_equal, bytes_equal_iff, bytes_equal_refl}
use sigmaproof.Sha.{Sha256}
use sigmaproof.Commitment.{Digest, compute}
use sigmaproof.Batch
use sigmaproof.Batch.{Manifest}
use sigmaproof.Storage.Types.{
  Evidence, FrozenBatch, IngestRequest, Stored, valid_id, valid_submission_state, valid_reference,
  limit_count, valid_limit,
}
use sigmaproof.Storage.Bolt.{Bolt, Database}
use sigmaproof.Storage.Records.{
  Json, IsEvidence, IsFrozenBatch, all_ids, decode, evidence_bucket, keys_bucket, pending_bucket,
  batches_bucket, batch_keys_bucket, outbox_bucket, sources_bucket, sequence_key,
}
use sigmaproof.Storage.Ingest.{Ingestion, new_evidence}
use sigmaproof.Storage.Freeze.{Member, batched, new_batch}
use sigmaproof.Storage.Submit.{is_submitted, with_submission}
use sigmaproof.Storage.View.{View, view, write, Changes}
use sigmaproof.Storage.State.{evidence_of, batch_of, evidence_at, batch_at}
use sigmaproof.Storage.Reading.{IsRecord, IsBatch, evidence_of-IsRecord, batch_of-IsBatch}
use sigmaproof.Storage.Writing.{compute_encodes, evidence_of-written, batch_of-written}
use sigmaproof.Storage.Effects.Ingest.{Known, Fresh, write_record}
use sigmaproof.Storage.Effects.Freeze.{Frozen, Refrozen, bind_view, batch_view}
use sigmaproof.Storage.Effects.Pending.{IsPending}
use sigmaproof.Storage.Effects.Submit.{Submitted, write_state}

-- A record keeps all its fields, but it may be bound to a batch once.
abbrev pub KeptEvidence : Evidence → Evidence → Type 0
KeptEvidence e e' =
    (e ≡ e')
    ⊎ ((e.batch_id ≡ []) × ((id : Bytes) × (i : ℕ) × (valid_id id ≡ true) × (e' ≡ batched id i e)))

-- A batch keeps all but its submission, and stays submitted.
abbrev pub KeptBatch : FrozenBatch → FrozenBatch → Type 0
KeptBatch b b' =
    (state : Bytes) × (reference : Bytes) × (b' ≡ with_submission state reference b)
    × (is_submitted b.submission_state ≡ true → is_submitted state ≡ true)

KeptEvidence-trans : (a b c : Evidence) → KeptEvidence a b → KeptEvidence b c → KeptEvidence a c
unfolding batched
KeptEvidence-trans a b c (inl e) k = subst (λ t. KeptEvidence t c) (sym e) k
KeptEvidence-trans a b c (inr (free, (id, i, digits, e))) (inl f) =
    inr (free, (id, i, digits, sym f ∙ e))
KeptEvidence-trans a b c (inr (free, (id, i, digits, e))) (inr (free', (id', i', digits', f))) =
    inr (free, (id', i', digits', f ∙ ap (batched id' i') e))

pub KeptBatch-refl : (b : FrozenBatch) → KeptBatch b b
unfolding with_submission
KeptBatch-refl b = (b.submission_state, b.submission_ref, refl, λ h. h)

KeptBatch-trans : (a b c : FrozenBatch) → KeptBatch a b → KeptBatch b c → KeptBatch a c
unfolding with_submission
KeptBatch-trans a b c (s, r, e, final) (s', r', f, final') = (
  s',
  r',
  f ∙ ap (with_submission s' r') e,
  λ h. final' (ap (λ t. is_submitted t.submission_state) e ∙ final h),
)

module _ ⦃json : Json⦄ ⦃sha : Sha256⦄ where
  pub record Persists (v w : View) : Type 0 where
    pub evidence_kept :
        (id : Bytes) (e : Evidence)
        → evidence_at v id ≡ ok e
        → (e' : Evidence) × (evidence_at w id ≡ ok e') × KeptEvidence e e'
    pub batch_kept :
        (id : Bytes) (b : FrozenBatch)
        → batch_at v id ≡ ok b
        → all_ids b.evidence_ids ≡ true
        → (b' : FrozenBatch) × (batch_at w id ≡ ok b') × KeptBatch b b'

  pub Persists-refl : (v : View) → Persists v v
  Persists-refl v = record {
    evidence_kept = λ id e h. (e, h, inl refl);
    batch_kept = λ id b h all. (b, h, KeptBatch-refl b);
  }

  KeptBatch-ids : (b b' : FrozenBatch) → KeptBatch b b' → b'.evidence_ids ≡ b.evidence_ids
  unfolding with_submission
  KeptBatch-ids b b' (s, r, e, final) = ap (λ t. t.evidence_ids) e

  pub Persists-trans : (u v w : View) → Persists u v → Persists v w → Persists u w
  Persists-trans u v w a b = record {
    evidence_kept = λ id e h.
        let (e1, h1, k1) = a.evidence_kept id e h in
        let (e2, h2, k2) = b.evidence_kept id e1 h1 in (e2, h2, KeptEvidence-trans e e1 e2 k1 k2);
    batch_kept = λ id x h all.
        let (x1, h1, k1) = a.batch_kept id x h all in
        let (x2, h2, k2) = b.batch_kept id x1 h1 (ap all_ids (KeptBatch-ids x x1 k1) ∙ all) in
        (x2, h2, KeptBatch-trans x x1 x2 k1 k2);
  }

  pub evidence_still :
      (id : Bytes) (o o' : Option Bytes) (e : Evidence)
      → ((d : Bytes) → o ≡ some d → o' ≡ some d)
      → evidence_of id o ≡ ok e
      → evidence_of id o' ≡ ok e
  unfolding decode
  evidence_still id none o' e more h = cc
  evidence_still id (some d) o' e more h = ap (evidence_of id) (more d refl) ∙ h

  pub batch_still :
      (id : Bytes) (o o' : Option Bytes) (b : FrozenBatch)
      → ((d : Bytes) → o ≡ some d → o' ≡ some d)
      → batch_of id o ≡ ok b
      → batch_of id o' ≡ ok b
  unfolding decode
  batch_still id none o' b more h = cc
  batch_still id (some d) o' b more h = ap (batch_of id) (more d refl) ∙ h

  -- Cells that stand stay.
  pub cells-Persists :
      (v w : View)
      → ((id d : Bytes) → v.cell evidence_bucket id ≡ some d → w.cell evidence_bucket id ≡ some d)
      → ((id d : Bytes) → v.cell batches_bucket id ≡ some d → w.cell batches_bucket id ≡ some d)
      → Persists v w
  cells-Persists v w he hb = record {
    evidence_kept = λ id e h. (e, evidence_still id _ _ e (he id) h, inl refl);
    batch_kept = λ id b h all. (b, batch_still id _ _ b (hb id) h, KeptBatch-refl b);
  }

  pub write_record-Persists :
      (req : IngestRequest) (e : Evidence) (v : View) (n : ℕ)
      → v.cell evidence_bucket e.id ≡ none
      → Persists v (write_record req e (record v { last = n }))
  unfolding bytes_equal
  write_record-Persists req e v n free = cells-Persists v _ (λ id d h. still id d h) (λ id d h. h)
    where
      still :
          (id d : Bytes)
          → v.cell evidence_bucket id ≡ some d
          → (if bytes_equal e.id id then some (json.evidence_data e) else v.cell evidence_bucket id)
            ≡ some d
      still id d h = elim (Bool-cases (bytes_equal e.id id)) [
        | inl same ↦
            absurd (cc (free, h, ap (v.cell evidence_bucket) ((bytes_equal_iff e.id id).0 same)))
        | inr other ↦
            ap (λ (t : Bool). if t then some (json.evidence_data e) else v.cell evidence_bucket id)
              other
            ∙ h
      ]

  pub write_key-Persists : (k id : Bytes) (v : View) → Persists v (write keys_bucket k (some id) v)
  unfolding bytes_equal
  write_key-Persists k id v = cells-Persists v _ (λ j d h. h) (λ j d h. h)
