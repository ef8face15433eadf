-- ===== src/Storage/Documents.antt =====
-- store.go: IngestDocument, and find.
use sigmaproof.Prelude.{
  ℕ, Bool, true, false, ◌&&◌, ◌||◌, not, Option, none, some, List, ◌==◌, if◌then◌else◌, ok, err,
  ◌>>=◌, ℤ, pos, negsuc, max_int64,
}
use sigmaproof.Bytes.{Bytes, bytes_equal}
use sigmaproof.Sha.{Sha256}
use sigmaproof.Errors.{Outcome}
use sigmaproof.Reader.{Reader}
use sigmaproof.Commitment.{Witness, Digest, compute, original, derived}
use sigmaproof.Commitment
use sigmaproof.Storage.Types.{
  Source, Evidence, IngestRequest, DocumentIngestRequest, Stored, conflict, invalid, not_found,
  valid_text, valid_source, source_equal,
}
use sigmaproof.Storage.Bolt.{Bolt, Database}
use sigmaproof.Storage.Records.{Json, or_corrupt, tenant, evidence}
use sigmaproof.Storage.Ingest.{Ingestion, known_id, ingest}

-- `req.MaxBytes < 0 || req.MaxBytes == math.MaxInt64`
unfoldable pub valid_max : ℤ → Bool
valid_max (negsuc n) = false
valid_max (pos n) = not (n == max_int64)

abbrev pub has_reader : Option Reader → Bool
has_reader none = false
has_reader (some r) = true

unfoldable pub valid_document_request : DocumentIngestRequest → Bool
valid_document_request req =
    valid_text req.tenant
    && valid_text req.key
    && valid_source req.source
    && (req.representation == original || req.representation == derived)
    && has_reader req.document
    && valid_max req.max_bytes

unfoldable pub check_found : Source → ℕ → Option Evidence → Stored (Option Evidence)
check_found source rep none = ok none
check_found source rep (some e) =
    if not (source_equal e.source source) || not (e.witness.representation == rep)
    then err conflict
    else ok (some e)

unfoldable pub or_conflict : {A : Type 0} → Outcome A → Stored A
or_conflict (err e) = err conflict
or_conflict (ok a) = ok a

unfoldable pub or_invalid : {A : Type 0} → Outcome A → Stored A
or_invalid (err e) = err invalid
or_invalid (ok a) = ok a

-- Behind a conflict: another call may have ingested the same document in the meantime.
unfoldable pub check_raced : Witness → Stored (Option Evidence) → Stored Ingestion
check_raced w (err e) = err e
check_raced w (ok none) = err conflict
check_raced w (ok (some e)) =
    if bytes_equal e.witness.document_digest w.document_digest then ok (e, false) else err conflict

unfoldable pub witness_request : DocumentIngestRequest → Witness → IngestRequest
witness_request req w = record {
  tenant = req.tenant;
  key = req.key;
  source = req.source;
  witness = w;
}

module _ ⦃bolt : Bolt⦄ ⦃json : Json⦄ ⦃sha : Sha256⦄ where
  -- The record of a known id; none where there is no id.
  unfoldable pub find_record : Database → Bytes → Option Bytes → Stored (Option Evidence)
  find_record tx name none = ok none
  find_record tx name (some id) = do e ← evidence tx name id; ok (some e)

  -- The view transaction of `find`: a tenant that is not there has no record.
  unfoldable pub find_opened :
      Bytes → Bytes → Source → ℕ → Stored Database → Stored (Option Evidence)
  find_opened name key source rep (err not_found) = ok none
  find_opened name key source rep (err e) = err e
  find_opened name key source rep (ok tx) = find_record tx name (known_id tx name key source rep)

  unfoldable pub find : Database → Bytes → Bytes → Source → ℕ → Stored (Option Evidence)
  find db name key source rep = do
    found ← find_opened name key source rep (tenant db name false)
    check_found source rep found

  -- The document against the witness of a record that was found.
  unfoldable pub check_existing : DocumentIngestRequest → Evidence → Stored Ingestion
  check_existing req e = do
    c ← or_corrupt (compute e.witness)
    _ ← or_conflict (Commitment.verify req.document e.witness c req.max_bytes)
    ok (e, false)

  unfoldable pub find_request : DocumentIngestRequest → Database → Stored (Option Evidence)
  find_request req db = find db req.tenant req.key req.source req.representation

  unfoldable pub after_ingest :
      DocumentIngestRequest
      → Witness
      → (Database → Database)
      → Stored Ingestion × Database
      → Stored Ingestion × Database
  after_ingest req w others (err conflict, db) =
      let db' = others db in (check_raced w (find_request req db'), db')
  after_ingest req w others (err e, db) = (err e, db)
  after_ingest req w others (ok r, db) = (ok r, db)

  unfoldable pub ingest_witness :
      List (Option Bytes)
      → DocumentIngestRequest
      → (Database → Database)
      → Stored (Witness × Digest)
      → Database
      → Stored Ingestion × Database
  ingest_witness draws req others (err e) db = (err e, db)
  ingest_witness draws req others (ok (w, c)) db =
      after_ingest req w others (ingest draws (witness_request req w) (others db))

  unfoldable pub ingest_found :
      List (Option Bytes)
      → Option Bytes
      → DocumentIngestRequest
      → (Database → Database)
      → Stored (Option Evidence)
      → Database
      → Stored Ingestion × Database
  ingest_found draws random req others (err e) db = (err e, db)
  ingest_found draws random req others (ok (some e)) db = (check_existing req e, db)
  ingest_found draws random req others (ok none) db =
      ingest_witness draws req others
        (or_invalid (Commitment.new req.document req.representation req.max_bytes random)) db

  -- `IngestDocument`; `others` is what other calls do to the database between its transactions, and
  -- `nonce` what the random source gives.
  unfoldable pub ingest_document :
      List (Option Bytes)
      → Option Bytes
      → DocumentIngestRequest
      → (Database → Database)
      → Database
      → Stored Ingestion × Database
  ingest_document draws nonce req others db =
      if not (valid_document_request req)
      then (err invalid, db)
      else ingest_found draws nonce req others (find_request req db) db
