-- ===== src/Storage/History/Isolation.antt =====
-- A call that fails changes nothing, and a call for one tenant changes no record of another.
use sigmaproof.Prelude.{
  ◌≡◌, ◌≢◌, refl, ap, sym, ◌∙◌, not, ◌||◌, Option, List, ok, err, Bool-cases, inl, inr, ℤ,
}
use sigmaproof.Bytes.{Bytes}
use sigmaproof.Sha.{Sha256}
use sigmaproof.Errors.{Outcome}
use sigmaproof.Commitment.{Digest, compute}
use sigmaproof.Storage.Types.{
  IngestRequest, Stored, StoreError, invalid, valid_text, valid_id, valid_limit,
  valid_submission_state, valid_reference,
}
use sigmaproof.Storage.Bolt.{Bolt, Database, update}
use sigmaproof.Storage.Records.{Json, evidence, frozen}
use sigmaproof.Storage.Ingest.{Ingestion, ingest, ingest_tx, valid_request}
use sigmaproof.Storage.Freeze.{freeze, freeze_tx}
use sigmaproof.Storage.Submit.{record_submission, submission_tx}
use sigmaproof.Storage.View.{view}
use sigmaproof.Storage.State.{evidence_at, batch_at, evidence-view, frozen-view}
use sigmaproof.Storage.Draws.{IsDraws}
use sigmaproof.Storage.Effects.Ingest.{ingest_tx-effect}
use sigmaproof.Storage.Effects.Freeze.{freeze_tx-effect}
use sigmaproof.Storage.Effects.Submit.{submission_tx-effect}
use sigmaproof.Storage.History.{Step, ingests, freezes, submits, update_inv}

module _ ⦃bolt : Bolt⦄ ⦃json : Json⦄ ⦃sha : Sha256⦄ where
  -- A call for the tenant with its result: the database is the same where it fails, and the
  -- records of every other tenant are the same in any case.
  abbrev Contained : {A : Type 0} → Bytes → Database → Stored A × Database → Type 0
  Contained {A = A} name db r =
      ((x : StoreError) → r.0 ≡ err x → r.1 ≡ db)
      × ((m : Bytes) → name ≢ m → view r.1 m ≡ view db m)

  fails_Contained :
      {A : Type 0} (name : Bytes) (db : Database) (x : StoreError)
      → Contained {A = A} name db (err x, db)
  fails_Contained name db x = (λ y h. refl, λ m h. refl)

  update-Contained :
      {A : Type 0} (name : Bytes) (f : Database → Stored (A × Database)) (db : Database)
      → ((a : A) (t : Database) → f db ≡ ok (a, t) → (m : Bytes) → name ≢ m → view t m ≡ view db m)
      → Contained name db (update f db)
  update-Contained name f db h = elim (update_inv f db (f db) refl) [
    | inl same ↦ (λ x e. same, λ m other. ap (λ t. view t m) same)
    | inr (a, t, done, e) ↦ (
      λ x failed. cc (sym (ap (λ r. r.0) e) ∙ failed),
      λ m other. ap (λ r. view r.1 m) e ∙ h a t done m other,
    )
  ]

  ingest-Contained :
      (draws : List (Option Bytes)) (req : IngestRequest) (db : Database)
      → IsDraws draws
      → Contained req.tenant db (ingest draws req db)
  unfolding ingest
  ingest-Contained draws req db d = elim (Bool-cases (valid_request req)) [
    | inr bad ↦ rw bad (fails_Contained req.tenant db invalid)
    | inl fine ↦ rw fine (go (compute req.witness))
  ]
    where
      go :
          (c : Outcome Digest)
          → Contained req.tenant db (elim c as (λ x. Stored Ingestion × Database) [
            | err e ↦ (err invalid, db)
            | ok c ↦ update (ingest_tx draws req) db
          ])
      go (err e) = fails_Contained req.tenant db invalid
      go (ok c) = update-Contained req.tenant (ingest_tx draws req) db λ r t h m other.
          elim (ingest_tx-effect draws req db t r d h) [
            | inl k ↦ k.effect.others m other
            | inr k ↦ k.effect.others m other
          ]

  freeze-Contained :
      (draws : List (Option Bytes)) (name key : Bytes) (limit : ℤ) (db : Database)
      → IsDraws draws
      → Contained name db (freeze draws name key limit db)
  unfolding freeze
  freeze-Contained draws name key limit db d =
      elim (Bool-cases (not (valid_text name) || not (valid_text key) || not (valid_limit limit))) [
        | inl bad ↦ rw bad (fails_Contained name db invalid)
        | inr fine ↦ rw fine (
            update-Contained name (freeze_tx draws name key limit) db λ b t h m other.
              elim (freeze_tx-effect draws name key limit db t b d h) [
                | inl k ↦ ap (λ s. view s m) (sym k.unchanged)
                | inr k ↦ k.effect.others m other
              ])
      ]

  submission-Contained :
      (name id state reference : Bytes) (db : Database)
      → Contained name db (record_submission name id state reference db)
  unfolding record_submission
  submission-Contained name id state reference db =
      elim (Bool-cases (
        not (valid_text name)
        || not (valid_id id)
        || not (valid_submission_state state)
        || not (valid_reference reference))) [
          | inl bad ↦ rw bad (fails_Contained name db invalid)
          | inr fine ↦ rw fine (
              update-Contained name (submission_tx name id state reference) db λ b t h m other.
                (submission_tx-effect name id state reference db t b h).effect.others m other)
        ]

  -- The tenant of a call.
  unfoldable pub caller : (s t : Database) → Step s t → Bytes
  caller s t (ingests draws req d) = req.tenant
  caller s t (freezes draws name key limit d) = name
  caller s t (submits name id state reference) = name

  step-views : (s t : Database) (k : Step s t) (m : Bytes) → caller s t k ≢ m → view t m ≡ view s m
  unfolding caller
  step-views s t (ingests draws req d) m h = (ingest-Contained draws req s d).1 m h
  step-views s t (freezes draws name key limit d) m h =
      (freeze-Contained draws name key limit s d).1 m h
  step-views s t (submits name id state reference) m h =
      (submission-Contained name id state reference s).1 m h

  -- A call for one tenant, whether it succeeds or fails, changes no record and no batch of another.
  pub step_isolated :
      (s t : Database) (k : Step s t) (m id : Bytes)
      → caller s t k ≢ m
      → (evidence t m id ≡ evidence s m id) × (frozen t m id ≡ frozen s m id)
  step_isolated s t k m id h =
      let same = step-views s t k m h in
      (
        evidence-view t m id ∙ ap (λ v. evidence_at v id) same ∙ sym (evidence-view s m id),
        frozen-view t m id ∙ ap (λ v. batch_at v id) same ∙ sym (frozen-view s m id),
      )
