-- ===== src/Storage/Persist/Binding.antt =====
-- Freezing binds each member once, and touches no batch that is there.
use sigmaproof.Prelude.{
  ℕ, ◌+◌, ◌≤◌, ◌<◌, ◌^◌, ◌≡◌, refl, ap, sym, ◌∙◌, Bool, true, none, some, List, [], ◌∷◌, All,
  length, if◌then◌else◌, ok, ok-injective, arith, Bool-cases, inl, inr, ℤ,
}
use sigmaproof.Bytes.{Bytes, IsU64, bytes_equal, bytes_equal_iff}
use sigmaproof.Sha.{Sha256}
use sigmaproof.Storage.Types.{Evidence, FrozenBatch, valid_id, limit_count, valid_limit}
use sigmaproof.Storage.Records.{Json, evidence_bucket, pending_bucket, batches_bucket, sequence_key}
use sigmaproof.Storage.Freeze.{Member, batched}
use sigmaproof.Storage.View.{View, write}
use sigmaproof.Storage.State.{evidence_of, evidence_at}
use sigmaproof.Storage.Reading.{IsRecord, evidence_of-IsRecord}
use sigmaproof.Storage.Writing.{compute_encodes, evidence_of-written}
use sigmaproof.Storage.Effects.Freeze.{bind_view, batch_view}
use sigmaproof.Storage.Effects.Pending.{IsPending}
use sigmaproof.Storage.Persist.{KeptEvidence, KeptBatch-refl, Persists, batch_still}

module _ ⦃json : Json⦄ ⦃sha : Sha256⦄ where
  pub bound-written :
      (id bid : Bytes) (i : ℕ) (e : Evidence)
      → IsRecord id e
      → valid_id bid ≡ true
      → IsU64 i
      → evidence_of e.id (some (json.evidence_data (batched bid i e))) ≡ ok (batched bid i e)
  unfolding batched
  bound-written id bid i e h digits word =
      evidence_of-written (batched bid i e)
        (record {
          id_digits = ap valid_id h.own_id ∙ h.id_digits;
          source_texts = h.source_texts;
          batch_digits = rw digits (ground arith);
          witness_sizes = h.sizes;
          witness_encodes = compute_encodes e.witness h.commitment h.commits;
          sequence_word = h.sequence_word;
          index_word = word;
        })
        h.positive

  -- The records of a view, in a later one.
  abbrev Keeps : View → View → Type 0
  Keeps u v =
      (id : Bytes) (e : Evidence)
      → evidence_at u id ≡ ok e
      → (e' : Evidence) × (evidence_at v id ≡ ok e') × KeptEvidence e e'

  bind_one-Keeps :
      (u v : View) (bid : Bytes) (i : ℕ) (m : Member)
      → valid_id bid ≡ true
      → IsU64 i
      → IsPending u m
      → Keeps u v
      → Keeps u (
          write pending_bucket
            (sequence_key m.0.sequence)
            none
            (write evidence_bucket m.0.id (some (json.evidence_data (batched bid i m.0))) v))
  unfolding bytes_equal
  bind_one-Keeps u v bid i m digits word p keeps id e h =
      elim (Bool-cases (bytes_equal m.0.id id)) [
        | inl same ↦
            let is_id = (bytes_equal_iff m.0.id id).0 same in
            let is_m : m.0 ≡ e = ok-injective (sym p.stored ∙ ap (evidence_at u) is_id ∙ h) in
            (
              batched bid i m.0,
              ap
                    (λ (t : Bool). evidence_of id (
                      if t
                      then some (json.evidence_data (batched bid i m.0))
                      else v.cell evidence_bucket id))
                    same
                  ∙ ap (λ t. evidence_of t (some (json.evidence_data (batched bid i m.0))))
                      (sym is_id)
                  ∙ bound-written m.0.id bid i m.0 (evidence_of-IsRecord m.0.id _ m.0 p.stored)
                      digits word,
              inr (
                ap (λ (t : Evidence). t.batch_id) (sym is_m) ∙ p.unbatched,
                (bid, i, digits, ap (batched bid i) is_m),
              ),
            )
        | inr other ↦
            let (e', there, kept) = keeps id e h in
            (
              e',
              ap
                    (λ (t : Bool). evidence_of id (
                      if t
                      then some (json.evidence_data (batched bid i m.0))
                      else v.cell evidence_bucket id))
                    other
                  ∙ there,
              kept,
            )
      ]

  bind_view-Keeps :
      (u : View) (bid : Bytes) (i : ℕ) (ms : List Member) (v : View)
      → valid_id bid ≡ true
      → i + length ms < 2 ^ 64
      → All (IsPending u) ms
      → Keeps u v
      → Keeps u (bind_view bid i ms v)
  bind_view-Keeps u bid i [] v digits word p keeps = keeps
  bind_view-Keeps u bid i (m ∷ ms) v digits word (one, p) keeps =
      bind_view-Keeps u bid (i + 1) ms _ digits (omega (arith, word)) p
        (bind_one-Keeps u v bid i m digits (omega (arith, word)) one keeps)

  bind_view-batches :
      (bid : Bytes) (i : ℕ) (ms : List Member) (v : View)
      → (j : Bytes) → (bind_view bid i ms v).cell batches_bucket j ≡ v.cell batches_bucket j
  unfolding bytes_equal
  bind_view-batches bid i [] v j = refl
  bind_view-batches bid i (m ∷ ms) v j = bind_view-batches bid (i + 1) ms _ j

  pub batch_view-evidence :
      (v : View) (key : Bytes) (b : FrozenBatch)
      → (j : Bytes) → (batch_view key b v).cell evidence_bucket j ≡ v.cell evidence_bucket j
  unfolding bytes_equal
  batch_view-evidence v key b j = refl

  pub batch_view-batches :
      (v : View) (key : Bytes) (b : FrozenBatch)
      → (j : Bytes)
      → (batch_view key b v).cell batches_bucket j
        ≡ (if bytes_equal b.id j then some (json.batch_data b) else v.cell batches_bucket j)
  unfolding bytes_equal
  batch_view-batches v key b j = refl

  pub limit_small : (l : ℤ) → valid_limit l ≡ true → limit_count l ≤ 1024
  unfolding valid_limit limit_count
  limit_small (ℤ.pos n) h = ground (arith, h)
  limit_small (ℤ.negsuc n) h = cc

  -- A batch is made under an id that names nothing, of members that were pending.
  pub freeze-Persists :
      (v : View) (key bid : Bytes) (b : FrozenBatch) (ms : List Member) (limit : ℤ)
      → b.id ≡ bid
      → valid_id bid ≡ true
      → valid_limit limit ≡ true
      → length ms ≤ limit_count limit
      → All (IsPending v) ms
      → v.cell batches_bucket bid ≡ none
      → Persists v (batch_view key b (bind_view bid 0 ms v))
  freeze-Persists v key bid b ms limit own digits small within p free = record {
    evidence_kept = λ id e h.
        let (e', there, kept) =
          bind_view-Keeps v bid 0 ms v digits (omega (arith, within, limit_small limit small)) p
            (λ j x g. (x, g, inl refl)) id e h in
        (
          e',
          ap (evidence_of id) (batch_view-evidence (bind_view bid 0 ms v) key b id) ∙ there,
          kept,
        );
    batch_kept = λ id x h all. (x, batch_still id _ _ x (still id) h, KeptBatch-refl x);
  }
    where
      still :
          (id d : Bytes)
          → v.cell batches_bucket id ≡ some d
          → (batch_view key b (bind_view bid 0 ms v)).cell batches_bucket id ≡ some d
      still id d h =
          batch_view-batches (bind_view bid 0 ms v) key b id
          ∙ elim (Bool-cases (bytes_equal b.id id)) [
            | inl same ↦ absurd (
                cc (
                  free,
                  h,
                  ap (v.cell batches_bucket) (sym own ∙ (bytes_equal_iff b.id id).0 same),
                ))
            | inr other ↦
                ap
                  (λ (t : Bool).
                    if t
                    then some (json.batch_data b)
                    else (bind_view bid 0 ms v).cell batches_bucket id)
                  other
                ∙ bind_view-batches bid 0 ms v id
                ∙ h
          ]
