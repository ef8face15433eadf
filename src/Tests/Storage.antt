-- ===== src/Tests/Storage.antt =====
-- Runs of the store on a database in memory: a document is ingested, frozen, exported and submitted.
use sigmaproof.Prelude.{
  ◌≡◌, refl, Bool, true, false, [], ◌∷◌, some, Option, ok, err, ℤ, pos, replicate,
}
use sigmaproof.Bytes.{Bytes, codes, bytes_equal}
use sigmaproof.Bytes.Words.{put_uint64, uint64}
use sigmaproof.Text.{hex, valid_string, contains_nul, decode_hex, hex_value}
use sigmaproof.Text
use sigmaproof.Reader.{Reader, stream, read_limited}
use sigmaproof.Merkle
use sigmaproof.Merkle.{leaf, root, root_fuel}
use sigmaproof.Commitment.{
  original, preimage, read_random, hash_document, hash_read, compute, new_witness,
}
use sigmaproof.Commitment
use sigmaproof.Batch.{validate, blank, write_manifest}
use sigmaproof.Batch
use sigmaproof.Package
use sigmaproof.Package.{Package}
use sigmaproof.Storage.Types.{
  DocumentIngestRequest, Evidence, Stored, valid_text, valid_id, valid_source, valid_limit,
  limit_count, valid_submission_state, valid_reference,
}
use sigmaproof.Storage.Bolt.{update, bolt_create, bolt_put, bolt_delete, path_equal, precedes}
use sigmaproof.Storage.Records.{
  decode, new_id, check_evidence, with_state, check_frozen, has_buckets, create_buckets,
  create_tenant, open_tenant, check_tenant, tenant, evidence, frozen,
}
use sigmaproof.Storage.Ingest.{
  known_id, ingest_new, ingest_at, ingest_tx, ingest_sequenced, write_new, new_evidence,
  valid_request, ingest,
}
use sigmaproof.Storage.Documents.{
  find_opened, find_record, find, find_request, check_found, ingest_document, ingest_found,
  ingest_witness, or_invalid, witness_request, after_ingest, valid_document_request, valid_max,
}
use sigmaproof.Storage.Freeze.{freeze}
use sigmaproof.Storage.Freeze
use sigmaproof.Storage.Export.{unanchored_package}
use sigmaproof.Storage.Export
use sigmaproof.Storage.Export.Verified.{exported_then_verify}
use sigmaproof.Report.{integrity_verified, verify}
use sigmaproof.Storage.Open.{open_store, open_tx, create_schema}
use sigmaproof.Tests.Package.{document, created}
use sigmaproof.Tests.Commitment.{nonce}
use sigmaproof.Tests.Toy.{toy}
use sigmaproof.Tests.Json.{fields_json}
use sigmaproof.Tests.Memory.{memory}
use sigmaproof.Tests.Buckets.{Files}

abbrev failed : {A : Type 0} → Stored A → Bool
failed (ok a) = false
failed (err e) = true

abbrev pub tenant_name : Bytes
tenant_name = codes "acme"

abbrev pub empty_store : Files
empty_store = (open_store []).1

open_runs : failed (open_store []).0 ≡ false
unfolding open_store open_tx create_schema update bytes_equal bolt_create bolt_put path_equal
open_runs = refl

abbrev pub request : DocumentIngestRequest
request = record {
  tenant = tenant_name;
  key = codes "k1";
  source = record { source_instance = codes "p"; object = codes "1"; version = codes "v" };
  representation = original;
  document = document;
  max_bytes = pos 3;
}

abbrev pub raw_id : Bytes
raw_id = replicate 16 7

abbrev pub evidence_id : Bytes
evidence_id = hex raw_id

abbrev pub ingested : Files
ingested = (ingest_document (some raw_id ∷ []) (some nonce) request (λ db. db) empty_store).1

pub ingest_runs :
    (ingest_document (some raw_id ∷ []) (some nonce) request (λ db. db) empty_store).0
    ≡ ok (
      record {
        id = evidence_id;
        sequence = 1;
        source = request.source;
        witness = created.witness;
        batch_id = [];
        index = 0;
      },
      true,
    )
unfolding open_store open_tx create_schema update bytes_equal bolt_create bolt_put path_equal
    precedes hex Text.following ingest_document ingest_found ingest_witness or_invalid
    witness_request after_ingest valid_document_request valid_max ingest ingest_tx ingest_at
    ingest_new ingest_sequenced write_new new_evidence known_id valid_request find_opened
    find_record find find_request check_found valid_text valid_source valid_string contains_nul
    Text.valid_from Commitment.new read_random hash_document hash_read read_limited compute
    Commitment.encode preimage new_witness decode new_id has_buckets create_buckets create_tenant
    open_tenant check_tenant tenant
ingest_runs = refl

abbrev pub raw_batch : Bytes
raw_batch = replicate 16 9

abbrev pub batch_id : Bytes
batch_id = hex raw_batch

abbrev pub frozen_store : Files
frozen_store = (freeze (some raw_batch ∷ []) tenant_name (codes "b1") (pos 2) ingested).1

pub package_runs : unanchored_package tenant_name evidence_id frozen_store ≡ ok created
unfolding open_store open_tx create_schema update bytes_equal bolt_create bolt_put bolt_delete
    path_equal precedes hex Text.following ingest_document ingest_found ingest_witness or_invalid
    witness_request after_ingest valid_document_request valid_max ingest ingest_tx ingest_at
    ingest_new ingest_sequenced write_new new_evidence known_id valid_request find_opened
    find_record find find_request check_found valid_text valid_source valid_string contains_nul
    Text.valid_from Commitment.new read_random hash_document hash_read read_limited compute
    Commitment.encode preimage new_witness decode new_id has_buckets create_buckets create_tenant
    open_tenant check_tenant tenant valid_id decode_hex hex_value Text.push_byte evidence
    check_evidence freeze Freeze.freeze_tx Freeze.freeze_at Freeze.freeze_pending Freeze.collect
    Freeze.collect_one Freeze.check_pending Freeze.check_members Freeze.freeze_members
    Freeze.bind_members Freeze.batched Freeze.write_batch Freeze.new_batch valid_limit limit_count
    Batch.new validate blank Batch.marshal_binary write_manifest Batch.parse root root_fuel leaf
    frozen with_state check_frozen valid_submission_state valid_reference unanchored_package
    Export.package_of Export.package_in Export.build_package Export.entries_from Export.check_member
    Export.check_root Export.is_member_at Merkle.path Merkle.path_fuel put_uint64 Batch.fields
    uint64
package_runs = refl

exported_then_verify_example :
    (e : Evidence) × (evidence frozen_store tenant_name evidence_id ≡ ok e)
    × (created.witness ≡ e.witness)
    × ((d : Bytes) × (Package.marshal_binary created ≡ ok d)
        × ((document : Option Reader) (max : ℤ)
            → Commitment.hash_document document max ≡ ok e.witness.document_digest
            → integrity_verified (verify document (some (stream d)) max) ≡ true))
exported_then_verify_example =
    exported_then_verify frozen_store tenant_name evidence_id created package_runs
