-- ===== src/Tests/History.antt =====
-- The store behind a sequence of calls, on the runs of the store.
use sigmaproof.Prelude.{◌≡◌, ◌≢◌, arith, refl, ap, true, [], ◌∷◌, some, none, length, ok, pos}
use sigmaproof.Bytes.{Bytes, codes, bytes_equal}
use sigmaproof.Bytes.Words.{put_uint64, uint64}
use sigmaproof.Text.{hex, valid_string, contains_nul, decode_hex, hex_value}
use sigmaproof.Text
use sigmaproof.Reader.{read_limited}
use sigmaproof.Merkle
use sigmaproof.Merkle.{leaf, root, root_fuel}
use sigmaproof.Commitment.{
  original, preimage, read_random, hash_document, hash_read, compute, new_witness,
}
use sigmaproof.Commitment
use sigmaproof.Batch.{validate, blank, write_manifest}
use sigmaproof.Batch
use sigmaproof.Package.{Package}
use sigmaproof.Storage.Types.{
  Evidence, FrozenBatch, valid_text, valid_id, valid_source, valid_limit, limit_count,
  valid_submission_state, valid_reference,
}
use sigmaproof.Storage.Bolt.{update, bolt_create, bolt_put, bolt_delete, path_equal, precedes}
use sigmaproof.Storage.Records.{
  decode, new_id, check_evidence, with_state, check_frozen, has_buckets, create_buckets,
  create_tenant, open_tenant, check_tenant, tenant, evidence, frozen,
}
use sigmaproof.Storage.Ingest.{
  known_id, ingest_new, ingest_at, ingest_tx, ingest_sequenced, write_new, new_evidence,
  valid_request, ingest,
}
use sigmaproof.Storage.Documents.{
  find_opened, find_record, find, find_request, check_found, ingest_document, ingest_found,
  ingest_witness, or_invalid, witness_request, after_ingest, valid_document_request, valid_max,
}
use sigmaproof.Storage.Freeze.{freeze}
use sigmaproof.Storage.Freeze
use sigmaproof.Storage.Export.{unanchored_package}
use sigmaproof.Storage.Export
use sigmaproof.Storage.Open.{open_store, open_tx, create_schema}
use sigmaproof.Tests.Package.{created}
use sigmaproof.Tests.Commitment.{nonce}
use sigmaproof.Tests.Toy.{toy}
use sigmaproof.Tests.Json.{fields_json}
use sigmaproof.Tests.Memory.{memory}
use sigmaproof.Tests.Buckets.{Files}
use sigmaproof.Storage.Submit.{record_submission}
use sigmaproof.Storage.Export.{get_evidence, get_batch}
use sigmaproof.Storage.Types.{submission_submitted, valid_submission_state}
use sigmaproof.Storage.Draws.{IsDraws}
use sigmaproof.Storage.Persist.{KeptEvidence, KeptBatch}
use sigmaproof.Storage.History.{Reaches, here, then_step, Step, freezes, submits}
use sigmaproof.Storage.History.Exports.{unanchored_package-Reaches}
use sigmaproof.Storage.History.Records.{get_evidence-Reaches}
use sigmaproof.Storage.History.Batches.{get_batch-Reaches, freeze-get_batch}
use sigmaproof.Storage.History.Isolation.{caller, step_isolated}
use sigmaproof.Storage.History.Documents.{ingest_document-IsFor}
use sigmaproof.Storage.Records.{all_ids, bucket_path, batch_keys_bucket}
use sigmaproof.Storage.History.Freezing.{freeze-unanchored_package}
use sigmaproof.Tests.Storage.{
  tenant_name, empty_store, request, raw_id, evidence_id, ingested, raw_batch, batch_id,
  frozen_store, ingest_runs, package_runs,
}

id-IsDraws : IsDraws (some raw_id ∷ [])
id-IsDraws = ((refl, ground arith), tt)

batch-IsDraws : IsDraws (some raw_batch ∷ [])
batch-IsDraws = ((refl, ground arith), tt)

abbrev submitted_store : Files
submitted_store = (record_submission tenant_name batch_id submission_submitted [] frozen_store).1

submission-Reaches : Reaches frozen_store submitted_store
submission-Reaches = then_step here (submits tenant_name batch_id submission_submitted [])

freeze-Reaches : Reaches ingested frozen_store
freeze-Reaches =
    then_step here (freezes (some raw_batch ∷ []) tenant_name (codes "b1") (pos 2) batch-IsDraws)

unanchored_package-Reaches_example :
    unanchored_package tenant_name evidence_id submitted_store ≡ ok created
unanchored_package-Reaches_example =
    unanchored_package-Reaches tenant_name evidence_id created frozen_store submitted_store
      submission-Reaches package_runs

abbrev stored : Evidence
stored = record {
  id = evidence_id;
  sequence = 1;
  source = request.source;
  witness = created.witness;
  batch_id = [];
  index = 0;
}

ingest_document-IsFor_example :
    (stored.source ≡ request.source)
    × (stored.witness.representation ≡ request.representation)
    × (hash_document request.document request.max_bytes ≡ ok stored.witness.document_digest)
ingest_document-IsFor_example =
    ingest_document-IsFor (some raw_id ∷ []) (some nonce) request (λ db. db) empty_store ingested
      stored true id-IsDraws (ap (λ r. (r, ingested)) ingest_runs)

evidence_runs : get_evidence tenant_name evidence_id ingested ≡ ok stored
unfolding get_evidence open_store open_tx create_schema update bytes_equal bolt_create bolt_put
    bolt_delete path_equal precedes hex Text.following ingest_document ingest_found ingest_witness
    or_invalid witness_request after_ingest valid_document_request valid_max ingest ingest_tx
    ingest_at ingest_new ingest_sequenced write_new new_evidence known_id valid_request find_opened
    find_record find find_request check_found valid_text valid_source valid_string contains_nul
    Text.valid_from Commitment.new read_random hash_document hash_read read_limited compute
    Commitment.encode preimage new_witness decode new_id has_buckets create_buckets create_tenant
    open_tenant check_tenant tenant valid_id decode_hex hex_value Text.push_byte evidence
    check_evidence freeze Freeze.freeze_tx Freeze.freeze_at Freeze.freeze_pending Freeze.collect
    Freeze.collect_one Freeze.check_pending Freeze.check_members Freeze.freeze_members
    Freeze.bind_members Freeze.batched Freeze.write_batch Freeze.new_batch valid_limit limit_count
    Batch.new validate blank Batch.marshal_binary write_manifest Batch.parse root root_fuel leaf
    frozen with_state check_frozen valid_submission_state valid_reference unanchored_package
    Export.package_of Export.package_in Export.build_package Export.entries_from Export.check_member
    Export.check_root Export.is_member_at Merkle.path Merkle.path_fuel put_uint64 Batch.fields
    uint64
evidence_runs = refl

get_evidence-Reaches_example :
    (e : Evidence) × (get_evidence tenant_name evidence_id frozen_store ≡ ok e)
    × KeptEvidence stored e
get_evidence-Reaches_example =
    get_evidence-Reaches tenant_name evidence_id stored ingested frozen_store freeze-Reaches
      evidence_runs

abbrev batch : FrozenBatch
batch = record {
  id = batch_id;
  limit = pos 2;
  evidence_ids = evidence_id ∷ [];
  manifest = write_manifest created.manifest;
  submission_state = codes "not_submitted";
  submission_ref = [];
}

freeze_runs : (freeze (some raw_batch ∷ []) tenant_name (codes "b1") (pos 2) ingested).0 ≡ ok batch
unfolding open_store open_tx create_schema update bytes_equal bolt_create bolt_put bolt_delete
    path_equal precedes hex Text.following ingest_document ingest_found ingest_witness or_invalid
    witness_request after_ingest valid_document_request valid_max ingest ingest_tx ingest_at
    ingest_new ingest_sequenced write_new new_evidence known_id valid_request find_opened
    find_record find find_request check_found valid_text valid_source valid_string contains_nul
    Text.valid_from Commitment.new read_random hash_document hash_read read_limited compute
    Commitment.encode preimage new_witness decode new_id has_buckets create_buckets create_tenant
    open_tenant check_tenant tenant valid_id decode_hex hex_value Text.push_byte evidence
    check_evidence freeze Freeze.freeze_tx Freeze.freeze_at Freeze.freeze_pending Freeze.collect
    Freeze.collect_one Freeze.check_pending Freeze.check_members Freeze.freeze_members
    Freeze.bind_members Freeze.batched Freeze.write_batch Freeze.new_batch valid_limit limit_count
    Batch.new validate blank Batch.marshal_binary write_manifest Batch.parse root root_fuel leaf
    frozen with_state check_frozen valid_submission_state valid_reference unanchored_package
    Export.package_of Export.package_in Export.build_package Export.entries_from Export.check_member
    Export.check_root Export.is_member_at Merkle.path Merkle.path_fuel put_uint64 Batch.fields
    uint64
freeze_runs = refl

frozen_runs : get_batch tenant_name batch_id frozen_store ≡ ok batch
frozen_runs =
    (freeze-get_batch (some raw_batch ∷ []) tenant_name (codes "b1") (pos 2) ingested frozen_store
      batch batch-IsDraws (ap (λ r. (r, frozen_store)) freeze_runs)).0

new_key : memory.get ingested (bucket_path tenant_name batch_keys_bucket) (codes "b1") ≡ none
unfolding open_store open_tx create_schema update bytes_equal bolt_create bolt_put bolt_delete
    path_equal precedes hex Text.following ingest_document ingest_found ingest_witness or_invalid
    witness_request after_ingest valid_document_request valid_max ingest ingest_tx ingest_at
    ingest_new ingest_sequenced write_new new_evidence known_id valid_request find_opened
    find_record find find_request check_found valid_text valid_source valid_string contains_nul
    Text.valid_from Commitment.new read_random hash_document hash_read read_limited compute
    Commitment.encode preimage new_witness decode new_id has_buckets create_buckets create_tenant
    open_tenant check_tenant tenant valid_id decode_hex hex_value Text.push_byte evidence
    check_evidence freeze Freeze.freeze_tx Freeze.freeze_at Freeze.freeze_pending Freeze.collect
    Freeze.collect_one Freeze.check_pending Freeze.check_members Freeze.freeze_members
    Freeze.bind_members Freeze.batched Freeze.write_batch Freeze.new_batch valid_limit limit_count
    Batch.new validate blank Batch.marshal_binary write_manifest Batch.parse root root_fuel leaf
    frozen with_state check_frozen valid_submission_state valid_reference unanchored_package
    Export.package_of Export.package_in Export.build_package Export.entries_from Export.check_member
    Export.check_root Export.is_member_at Merkle.path Merkle.path_fuel put_uint64 Batch.fields
    uint64
new_key = refl

freeze-unanchored_package_example :
    (p : Package) × (unanchored_package tenant_name evidence_id frozen_store ≡ ok p)
    × (p.index ≡ 0)
    × (Batch.marshal_binary p.manifest ≡ ok batch.manifest)
freeze-unanchored_package_example =
    freeze-unanchored_package (some raw_batch ∷ []) tenant_name (codes "b1") (pos 2) ingested
      frozen_store batch 0 evidence_id batch-IsDraws new_key
      (ap (λ r. (r, frozen_store)) freeze_runs) refl

batch_ids : all_ids batch.evidence_ids ≡ true
unfolding all_ids valid_id hex decode_hex hex_value Text.push_byte
batch_ids = refl

get_batch-Reaches_example :
    (b : FrozenBatch) × (get_batch tenant_name batch_id submitted_store ≡ ok b) × KeptBatch batch b
get_batch-Reaches_example =
    get_batch-Reaches tenant_name batch_id batch frozen_store submitted_store submission-Reaches
      batch_ids frozen_runs

abbrev other_tenant : Bytes
other_tenant = codes "b"

abbrev freeze_call : Step ingested frozen_store
freeze_call = freezes (some raw_batch ∷ []) tenant_name (codes "b1") (pos 2) batch-IsDraws

other_caller : caller ingested frozen_store freeze_call ≢ other_tenant
unfolding caller
other_caller e = cc (ap length e)

step_isolated_example :
    (evidence frozen_store other_tenant evidence_id ≡ evidence ingested other_tenant evidence_id)
    × (frozen frozen_store other_tenant evidence_id ≡ frozen ingested other_tenant evidence_id)
step_isolated_example =
    step_isolated ingested frozen_store freeze_call other_tenant evidence_id other_caller
