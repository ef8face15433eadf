-- ===== src/Storage/History.antt =====
-- The calls of the store, one behind another, and what no sequence of them undoes.
pub mod Exports
pub mod Records
pub mod Batches
pub mod Isolation
pub mod Documents
pub mod Bound
pub mod Freezing
use mathlib.Core.Path.{subst}
use sigmaproof.Prelude.{
  ℕ, ◌≡◌, ◌≢◌, ◌⊎◌, refl, ap, sym, ◌∙◌, Bool, true, false, not, ◌||◌, Option, none, some, List,
  if◌then◌else◌, ok, err, Result, arith, Bool-cases, inl, inr, ℤ,
}
use sigmaproof.Bytes.{Bytes, bytes_equal, bytes_equal_iff, bytes-cases}
use sigmaproof.Sha.{Sha256}
use sigmaproof.Commitment.{Digest, compute}
use sigmaproof.Errors.{Outcome}
use sigmaproof.Storage.Types.{
  IngestRequest, FrozenBatch, Stored, invalid, valid_text, valid_id, valid_limit,
  valid_submission_state, valid_reference,
}
use sigmaproof.Storage.Bolt.{Bolt, BucketPath, Database, update}
use sigmaproof.Storage.Records.{Json}
use sigmaproof.Storage.Ingest.{Ingestion, ingest, ingest_tx, valid_request, new_evidence}
use sigmaproof.Storage.Freeze.{freeze, freeze_tx, new_batch}
use sigmaproof.Storage.Submit.{record_submission, submission_tx, with_submission}
use sigmaproof.Storage.View.{View, view, Changes, Changes-refl}
use sigmaproof.Storage.Draws.{IsDraws}
use sigmaproof.Storage.Effects.Ingest.{Known, Fresh, ingest_tx-effect}
use sigmaproof.Storage.Effects.Freeze.{Frozen, Refrozen, freeze_tx-effect}
use sigmaproof.Storage.Effects.Submit.{Submitted, submission_tx-effect}
use sigmaproof.Storage.Persist.{
  Persists, Persists-refl, Persists-trans, write_record-Persists, write_key-Persists,
}
use sigmaproof.Storage.Persist.Binding.{freeze-Persists}
use sigmaproof.Storage.Persist.Submission.{submission-Persists}

module _ ⦃bolt : Bolt⦄ ⦃json : Json⦄ ⦃sha : Sha256⦄ where
  -- One call that writes, for any tenant, whether it succeeds or fails.
  pub data Step (db : Database) : Database → Type 0 where
    ingests :
        (draws : List (Option Bytes)) (req : IngestRequest)
        → IsDraws draws
        → Step db (ingest draws req db).1
    freezes :
        (draws : List (Option Bytes)) (name key : Bytes) (limit : ℤ)
        → IsDraws draws
        → Step db (freeze draws name key limit db).1
    submits :
        (name id state reference : Bytes) → Step db (record_submission name id state reference db).1

  pub data Reaches (db : Database) : Database → Type 0 where
    here : Reaches db db
    then_step : {s t : Database} → Reaches db s → Step s t → Reaches db t

  -- What a call keeps: the records of each tenant, and the buckets.
  pub record Keeps (s t : Database) : Type 0 where
    pub records : (name : Bytes) → Persists (view s name) (view t name)
    pub buckets : (p : BucketPath) → bolt.has s p ≡ true → bolt.has t p ≡ true

  Keeps-refl : (s : Database) → Keeps s s
  Keeps-refl s = record { records = λ name. Persists-refl (view s name); buckets = λ p h. h }

  Changes-Keeps :
      (name : Bytes) (s t : Database) (f : View → View)
      → Changes name s t f
      → Persists (view s name) (f (view s name))
      → Keeps s t
  Changes-Keeps name s t f c p = record {
    records = λ m. elim (bytes-cases name m) [
      | inl same ↦
          subst (λ n. Persists (view s n) (view t n)) same
            (subst (Persists (view s name)) (sym c.here) p)
      | inr other ↦ subst (Persists (view s m)) (sym (c.others m other)) (Persists-refl (view s m))
    ];
    buckets = c.buckets;
  }

  -- An update keeps the database, or has the effect of its function.
  pub update_inv :
      {A : Type 0} (f : Database → Stored (A × Database)) (db : Database)
      → (r : Stored (A × Database)) → f db ≡ r
      → ((update f db).1 ≡ db)
        ⊎ ((a : A) × (t : Database) × (f db ≡ ok (a, t)) × (update f db ≡ (ok a, t)))
  unfolding update
  update_inv f db (err e) s = inl (rw (update, s) refl)
  update_inv f db (ok (a, t)) s = elim (Bool-cases (bolt.commits t)) [
    | inl done ↦ inr (a, t, s, rw (update, s, done) refl)
    | inr refused ↦ inl (rw (update, s, refused) refl)
  ]

  update-Keeps :
      {A : Type 0} (f : Database → Stored (A × Database)) (db : Database)
      → ((a : A) (t : Database) → f db ≡ ok (a, t) → Keeps db t)
      → Keeps db (update f db).1
  update-Keeps f db h = elim (update_inv f db (f db) refl) [
    | inl same ↦ subst (Keeps db) (sym same) (Keeps-refl db)
    | inr (a, t, done, e) ↦ subst (Keeps db) (sym (ap (λ r. r.1) e)) (h a t done)
  ]

  ingest-Keeps :
      (draws : List (Option Bytes)) (req : IngestRequest) (db : Database)
      → IsDraws draws
      → Keeps db (ingest draws req db).1
  unfolding ingest new_evidence
  ingest-Keeps draws req db d = elim (Bool-cases (valid_request req)) [
    | inr bad ↦ rw bad (Keeps-refl db)
    | inl fine ↦ rw fine (go (compute req.witness))
  ]
    where
      go :
          (c : Outcome Digest)
          → Keeps db
              (elim c as (λ x. Stored Ingestion × Database) [
                | err e ↦ (err invalid, db)
                | ok c ↦ update (ingest_tx draws req) db
              ]).1
      go (err e) = Keeps-refl db
      go (ok c) = update-Keeps (ingest_tx draws req) db λ r t h.
          elim (ingest_tx-effect draws req db t r d h) [
            | inl k ↦
                Changes-Keeps req.tenant db t _ k.effect
                  (write_key-Persists req.key r.0.id (view db req.tenant))
            | inr k ↦ Changes-Keeps req.tenant db t _ k.effect (
                write_record-Persists req (new_evidence req k.id k.sequence) (view db req.tenant)
                  k.sequence k.free)
          ]

  freeze-Keeps :
      (draws : List (Option Bytes)) (name key : Bytes) (limit : ℤ) (db : Database)
      → IsDraws draws
      → Keeps db (freeze draws name key limit db).1
  unfolding freeze new_batch
  freeze-Keeps draws name key limit db d =
      elim (Bool-cases (not (valid_text name) || not (valid_text key) || not (valid_limit limit))) [
        | inl bad ↦ rw bad (Keeps-refl db)
        | inr fine ↦ rw fine (
            update-Keeps (freeze_tx draws name key limit) db λ b t h.
              elim (freeze_tx-effect draws name key limit db t b d h) [
                | inl k ↦ subst (Keeps db) k.unchanged (Keeps-refl db)
                | inr k ↦ Changes-Keeps name db t _ k.effect (
                    freeze-Persists (view db name) key k.id (new_batch k.id limit k.bytes k.members)
                      k.members limit refl k.id_digits (ground (arith, fine)) k.within k.pending
                      k.free)
              ])
      ]

  submission-Keeps :
      (name id state reference : Bytes) (db : Database)
      → Keeps db (record_submission name id state reference db).1
  unfolding record_submission
  submission-Keeps name id state reference db =
      elim (Bool-cases (
        not (valid_text name)
        || not (valid_id id)
        || not (valid_submission_state state)
        || not (valid_reference reference))) [
          | inl bad ↦ rw bad (Keeps-refl db)
          | inr fine ↦ rw fine (
              update-Keeps (submission_tx name id state reference) db λ b t h.
                let k = submission_tx-effect name id state reference db t b h in
                Changes-Keeps name db t _ k.effect (
                  submission-Persists (view db name) id state reference k.before k.there
                    (ground (arith, fine)) (ground (arith, fine)) k.final))
        ]

  Step-Keeps : (s t : Database) → Step s t → Keeps s t
  Step-Keeps s t (ingests draws req d) = ingest-Keeps draws req s d
  Step-Keeps s t (freezes draws name key limit d) = freeze-Keeps draws name key limit s d
  Step-Keeps s t (submits name id state reference) = submission-Keeps name id state reference s

  pub Reaches-Keeps : (s t : Database) → Reaches s t → Keeps s t
  Reaches-Keeps s t here = Keeps-refl s
  Reaches-Keeps s t (then_step {s = u} r k) =
      let a = Reaches-Keeps s u r in
      let b = Step-Keeps u t k in
      record {
        records = λ name. Persists-trans _ _ _ (a.records name) (b.records name);
        buckets = λ p h. b.buckets p (a.buckets p h);
      }
