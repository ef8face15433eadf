-- ===== src/Storage/History/Documents.antt =====
-- IngestDocument: the record that is returned is of the request's source and document.
use mathlib.Core.Path.{subst}
use sigmaproof.Prelude.{
  ◌≡◌, ◌⊎◌, refl, ap, sym, ◌∙◌, Bool, Option, none, some, List, ok, err, >>=-eq-ok, ok-injective,
  Bool-cases, inl, inr,
}
use sigmaproof.Bytes.{Bytes, bytes_equal, bytes_equal_iff}
use sigmaproof.Errors.{Outcome}
use sigmaproof.Sha.{Sha256}
use sigmaproof.Commitment
use sigmaproof.Commitment.{Witness, Digest, compute, hash_document, new_witness}
use sigmaproof.Commitment.Document.{new_inv, verify_iff}
use sigmaproof.Storage.Types.{
  Evidence, IngestRequest, DocumentIngestRequest, Stored, invalid, conflict,
}
use sigmaproof.Storage.Bolt.{Bolt, Database, update}
use sigmaproof.Storage.Records.{Json, or_corrupt}
use sigmaproof.Storage.Ingest.{Ingestion, valid_request, ingest, ingest_tx, new_evidence}
use sigmaproof.Storage.Documents.{
  valid_document_request, witness_request, check_existing, check_raced, or_conflict, or_invalid,
  find, find_opened, find_request, ingest_found, ingest_witness, after_ingest, ingest_document,
}
use sigmaproof.Storage.Draws.{IsDraws}
use sigmaproof.Storage.Effects.Ingest.{Known, Fresh, ingest_tx-effect}
use sigmaproof.Storage.History.Batches.{update-ok}
use sigmaproof.Storage.Equal.{
  source_equal_sound, witness_equal_sound, or_conflict_inv, or_invalid_inv, check_found_inv,
}

module _ ⦃bolt : Bolt⦄ ⦃json : Json⦄ ⦃sha : Sha256⦄ where
  -- The record is of the source, the representation and the document of a request.
  abbrev pub IsFor : DocumentIngestRequest → Evidence → Type 0
  IsFor req e =
      (e.source ≡ req.source)
      × (e.witness.representation ≡ req.representation)
      × (hash_document req.document req.max_bytes ≡ ok e.witness.document_digest)

  find_request_inv :
      (req : DocumentIngestRequest) (db : Database) (e : Evidence)
      → find_request req db ≡ ok (some e)
      → (e.source ≡ req.source) × (e.witness.representation ≡ req.representation)
  unfolding find_request find
  find_request_inv req db e h =
      let (found, _, g) =
        >>=-eq-ok (find_opened req.tenant req.key req.source req.representation _) _ h in
      check_found_inv req.source req.representation found e g

  check_existing-IsFor :
      (req : DocumentIngestRequest) (e x : Evidence) (b : Bool)
      → (e.source ≡ req.source) × (e.witness.representation ≡ req.representation)
      → check_existing req e ≡ ok (x, b)
      → IsFor req x
  unfolding check_existing
  check_existing-IsFor req e x b (source, rep) h =
      let (c, k, g) = >>=-eq-ok (or_corrupt (compute e.witness)) _ h in
      let (u, verified, same) =
        >>=-eq-ok (or_conflict (Commitment.verify req.document e.witness c req.max_bytes)) _ g in
      let (_, hashes) =
        (verify_iff req.document e.witness c req.max_bytes).0 (
          or_conflict_inv (Commitment.verify req.document e.witness c req.max_bytes) tt verified) in
      subst (IsFor req) (ap (λ (t : Ingestion). t.0) (ok-injective same)) (source, rep, hashes)

  check_raced-IsFor :
      (req : DocumentIngestRequest) (w : Witness) (r : Stored (Option Evidence)) (db : Database)
      (x : Evidence) (b : Bool)
      → find_request req db ≡ r
      → hash_document req.document req.max_bytes ≡ ok w.document_digest
      → check_raced w r ≡ ok (x, b)
      → IsFor req x
  unfolding check_raced
  check_raced-IsFor req w (err e) db x b s hashes h = cc
  check_raced-IsFor req w (ok none) db x b s hashes h = cc
  check_raced-IsFor req w (ok (some e)) db x b s hashes h =
      elim (Bool-cases (bytes_equal e.witness.document_digest w.document_digest)) [
        | inr other ↦ let g = rw other at h in cc g
        | inl same ↦
            let g = rw same at h in
            let (source, rep) = find_request_inv req db e s in
            subst (IsFor req) (ap (λ (t : Ingestion). t.0) (ok-injective g)) (
              source,
              rep,
              hashes
                  ∙ ap ok
                      (sym ((bytes_equal_iff e.witness.document_digest w.document_digest).0 same)),
            )
      ]

  ingest_inv :
      (draws : List (Option Bytes)) (req : IngestRequest) (db db' : Database) (r : Ingestion)
      → IsDraws draws
      → ingest draws req db ≡ (ok r, db')
      → Known req db db' r ⊎ Fresh req db db' r
  unfolding ingest
  ingest_inv draws req db db' r d h = elim (Bool-cases (valid_request req)) [
    | inr bad ↦ let g = rw bad at h in cc (ap (λ t. t.0) g)
    | inl fine ↦ let g = rw fine at h in go (compute req.witness) g
  ]
    where
      go :
          (c : Outcome Digest)
          → (elim c as (λ x. Stored Ingestion × Database) [
            | err e ↦ (err invalid, db)
            | ok c ↦ update (ingest_tx draws req) db
          ])
            ≡ (ok r, db')
          → Known req db db' r ⊎ Fresh req db db' r
      go (err e) g = cc (ap (λ t. t.0) g)
      go (ok c) g =
          ingest_tx-effect draws req db db' r d (update-ok (ingest_tx draws req) db db' r _ refl g)

  ingested-IsFor :
      (req : DocumentIngestRequest) (w : Witness) (db db' : Database) (r : Ingestion)
      → w.representation ≡ req.representation
      → hash_document req.document req.max_bytes ≡ ok w.document_digest
      → Known (witness_request req w) db db' r ⊎ Fresh (witness_request req w) db db' r
      → IsFor req r.0
  unfolding witness_request new_evidence
  ingested-IsFor req w db db' r rep hashes (inl k) =
      let (same_rep, same_digest) = witness_equal_sound r.0.witness w k.same_witness in
      (
        source_equal_sound r.0.source req.source k.same_source,
        same_rep ∙ rep,
        hashes ∙ ap ok (sym same_digest),
      )
  ingested-IsFor req w db db' r rep hashes (inr k) =
      subst (λ (t : Ingestion). IsFor req t.0) k.made (refl, rep, hashes)

  after_ingest-IsFor :
      (draws : List (Option Bytes)) (req : DocumentIngestRequest) (w : Witness)
      (others : Database → Database) (db db' : Database) (r : Ingestion)
      (run : Stored Ingestion × Database)
      → IsDraws draws
      → w.representation ≡ req.representation
      → hash_document req.document req.max_bytes ≡ ok w.document_digest
      → ingest draws (witness_request req w) db ≡ run
      → after_ingest req w others run ≡ (ok r, db')
      → IsFor req r.0
  unfolding after_ingest
  after_ingest-IsFor draws req w others db db' r (err conflict, t) d rep hashes s h =
      check_raced-IsFor req w (find_request req (others t)) (others t) r.0 r.1 refl hashes
        (ap (λ x. x.0) h)
  after_ingest-IsFor draws req w others db db' r (ok x, t) d rep hashes s h =
      let is_r : x ≡ r = ok-injective (ap (λ y. y.0) h) in
      ingested-IsFor req w db t r rep hashes
        (ingest_inv draws (witness_request req w) db t r d (s ∙ ap (λ y. (ok y, t)) is_r))
  after_ingest-IsFor draws req w others db db' r (err e, t) d rep hashes s h = cc (ap (λ y. y.0) h)

  ingest_witness-IsFor :
      (draws : List (Option Bytes)) (random : Option Bytes) (req : DocumentIngestRequest)
      (others : Database → Database) (db db' : Database) (r : Ingestion)
      (made : Stored (Witness × Digest))
      → IsDraws draws
      → or_invalid (Commitment.new req.document req.representation req.max_bytes random) ≡ made
      → ingest_witness draws req others made db ≡ (ok r, db')
      → IsFor req r.0
  unfolding ingest_witness new_witness
  ingest_witness-IsFor draws random req others db db' r (err e) d s h = cc (ap (λ y. y.0) h)
  ingest_witness-IsFor draws random req others db db' r (ok (w, c)) d s h =
      let (digest, x, hashes, _, _, is) =
        new_inv req.document req.representation req.max_bytes random w c (
          or_invalid_inv (Commitment.new req.document req.representation req.max_bytes random)
            (w, c) s) in
      after_ingest-IsFor draws req w others (others db) db' r _ d
        (ap (λ (t : Witness). t.representation) is)
        (hashes ∙ ap (λ (t : Witness). ok t.document_digest) (sym is)) refl h

  ingest_found-IsFor :
      (draws : List (Option Bytes)) (random : Option Bytes) (req : DocumentIngestRequest)
      (others : Database → Database) (db db' : Database) (r : Ingestion)
      (found : Stored (Option Evidence))
      → IsDraws draws
      → find_request req db ≡ found
      → ingest_found draws random req others found db ≡ (ok r, db')
      → IsFor req r.0
  unfolding ingest_found
  ingest_found-IsFor draws random req others db db' r (err e) d s h = cc (ap (λ y. y.0) h)
  ingest_found-IsFor draws random req others db db' r (ok none) d s h =
      ingest_witness-IsFor draws random req others db db' r _ d refl h
  ingest_found-IsFor draws random req others db db' r (ok (some e)) d s h =
      check_existing-IsFor req e r.0 r.1 (find_request_inv req db e s) (ap (λ y. y.0) h)

  -- The record that `ingest_document` returns, new, found, or made by another call in the meantime,
  -- is of the request's source and representation, and the request's document hashes, under its
  -- limit, to the digest of the record, whatever other calls do to the database in between.
  pub ingest_document-IsFor :
      (draws : List (Option Bytes)) (random : Option Bytes) (req : DocumentIngestRequest)
      (others : Database → Database) (db db' : Database) (e : Evidence) (is_new : Bool)
      → IsDraws draws
      → ingest_document draws random req others db ≡ (ok (e, is_new), db')
      → (e.source ≡ req.source)
        × (e.witness.representation ≡ req.representation)
        × (hash_document req.document req.max_bytes ≡ ok e.witness.document_digest)
  unfolding ingest_document
  ingest_document-IsFor draws random req others db db' e is_new d h =
      elim (Bool-cases (valid_document_request req)) [
        | inr bad ↦ let g = rw bad at h in cc (ap (λ y. y.0) g)
        | inl fine ↦
            let g = rw fine at h in
            ingest_found-IsFor draws random req others db db' (e, is_new) _ d refl g
      ]
