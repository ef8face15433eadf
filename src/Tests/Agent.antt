-- ===== src/Tests/Agent.antt =====
-- The agent on two events, with a fetcher that always finds the same document and an ingester that
-- keeps the keys it was given.
use sigmaproof.Prelude.{
  ℕ, arith, err, ◌<◌, ◌≡◌, ◌⊎◌, ◌↔◌, refl, true, false, not, none, some, List, [], ◌∷◌, ok, pos,
  All, length,
}
use sigmaproof.Bytes.{Bytes, codes, bytes_equal}
use sigmaproof.Sha.{Collision}
use sigmaproof.Reader.{stream}
use sigmaproof.Commitment.{original}
use sigmaproof.Agent.Failures.{Attempt, invalid_event}
use sigmaproof.Text
use sigmaproof.Text.{
  trim_space, trim_front, strip_one, strip_prefix, has_suffix, valid_string, valid_from, following,
  contains_nul,
}
use sigmaproof.Agent.Planner
use sigmaproof.Agent.Planner.{
  all_allowed, valid_event, valid_text, known_representation, plan_known, validate_source,
  event_source, Event, Plan, archive_output, is_allowed, original_upload, ready_plan, key_parts,
  plan_ingest, writeback_only,
}
use sigmaproof.Agent.Planner.Writeback.{IsAmong, writeback_only_iff}
use sigmaproof.Agent.Planner.Plans.{plan_ingest_iff}
use sigmaproof.Agent.Planner.Ready.{IsReadyPlan, IsWriteback, skip_plan}
use sigmaproof.Agent.Planner.Binding.{Agree, plan_key_binding}
use sigmaproof.Agent.Runner.{
  Runner, Handled, FetchRequest, FetchResult, Ingested, bounded_bytes, handle,
}
use sigmaproof.Storage.Types.{DocumentIngestRequest}
use sigmaproof.Agent.Runner.Bounded.{IsBounded, bounded_bytes_iff}
use sigmaproof.Agent.Runner.Submitting.{Submitted}
use sigmaproof.Agent.Runner.Handling.{Skipped, handle_iff}
use sigmaproof.Agent.Webhook.{
  Packages, Webhook, Request, serve_http, handle_request, forward, received, limited, checked,
  WebhookPayload, payload_event, decoded_event, body_limit, read_body, mac_matches, header_name,
  trim_prefix, error_answer, answer, valid_signature,
}
use sigmaproof.Text.{decode_hex, push_byte, hex_value}
use sigmaproof.Agent.Webhook.Signed.{IsSigned, handle_request-IsSigned, serve_http-IsSigned}
use sigmaproof.Prelude.{ℕ, arith, err, ◌<◌, if◌then◌else◌, ◌++◌}
use sigmaproof.Bytes.{bytes_equal}
use sigmaproof.Reader.{read_limited}
use sigmaproof.Agent.Failures.{Failure}
use sigmaproof.Agent.Planner.{is_allowed}
use sigmaproof.Agent.Runner.{
  handle_plan, handle_planned, handle_limited, handle_fetched, submit, ingest_request,
  fetch_request, byte_limit, read_all, bounded_read, handled,
}
use sigmaproof.Agent.Reconcile.{EventSource, Reconciler, list_limit, ReconcileReport, run}
use sigmaproof.Agent.Reconcile.Passes.{Reports, run-Reports}
use sigmaproof.Tests.Toy.{toy}

abbrev Keys : Type 0
Keys = List Bytes

abbrev event_one : Event
event_one = record {
  tenant = codes "t";
  source_instance = codes "p";
  document_id = codes "7";
  version = codes "v1";
  event_id = codes "e1";
  representation = original_upload;
  changed_fields = codes "title" ∷ [];
}

-- An event without a tenant, which no plan accepts.
abbrev event_two : Event
event_two = record event_one { tenant = [] }

abbrev fetch_one : FetchRequest → Keys → Attempt FetchResult × Keys
fetch_one request keys =
    (ok (record { version = request.version; document = some (stream (1 ∷ 2 ∷ 3 ∷ [])) }), keys)

abbrev ingest_one : DocumentIngestRequest → Keys → Attempt Ingested × Keys
ingest_one request keys = (ok (codes "id", not (is_allowed request.key keys)), request.key ∷ keys)

abbrev runner_one : Runner Keys
runner_one = record {
  fetcher = some fetch_one;
  ingester = some ingest_one;
  evidence_fields = codes " proof " ∷ [];
  max_bytes = pos 3;
}

abbrev list_two : EventSource Keys
list_two limit keys = (ok (event_two ∷ event_one ∷ []), keys)

abbrev reconciler_one : Reconciler Keys
reconciler_one = record { source = some list_two; runner = runner_one; limit = pos 0 }

abbrev plan_one : Plan
plan_one = ready_plan event_one original

abbrev result_one : Handled
result_one = record { plan = plan_one; evidence_id = codes "id"; created = true; skipped = false }

-- The same event with no changed fields, and so with the same key.
abbrev event_three : Event
event_three = record event_one { changed_fields = [] }

plan_one_runs : plan_ingest event_one (codes " proof " ∷ []) ≡ (plan_one, none)
unfolding plan_ingest writeback_only all_allowed is_allowed trim_space trim_front strip_one
    strip_prefix Text.reverse valid_event valid_text valid_string valid_from following contains_nul
    known_representation bytes_equal plan_known validate_source event_source has_suffix ready_plan
plan_one_runs = refl

plan_three_runs : plan_ingest event_three (codes " proof " ∷ []) ≡ (plan_one, none)
unfolding plan_ingest writeback_only all_allowed is_allowed trim_space trim_front strip_one
    strip_prefix Text.reverse valid_event valid_text valid_string valid_from following contains_nul
    known_representation bytes_equal plan_known validate_source event_source has_suffix ready_plan
plan_three_runs = refl

-- The event without a tenant.
plan_two_runs :
    plan_ingest event_two (codes " proof " ∷ []) ≡ (Planner.empty_plan, some invalid_event)
unfolding plan_ingest writeback_only all_allowed is_allowed trim_space trim_front strip_one
    strip_prefix Text.reverse valid_event valid_text valid_string valid_from following contains_nul
    known_representation bytes_equal plan_known validate_source event_source has_suffix ready_plan
plan_two_runs = refl

run-Reports_example :
    (report : ReconcileReport) × (keys : Keys) × (run reconciler_one [] ≡ (ok report, keys))
    × Reports runner_one [] (event_two ∷ event_one ∷ []) report keys
unfolding list_limit
run-Reports_example =
    run-Reports reconciler_one list_two 1024 (event_two ∷ event_one ∷ []) [] [] refl refl refl

handle_iff_example :
    (handle runner_one event_one [] ≡ (ok result_one, plan_one.idempotency_key ∷ [])) ↔ (
      (plan : Plan) × (plan_ingest event_one runner_one.evidence_fields ≡ (plan, none))
      × (Skipped plan [] result_one (plan_one.idempotency_key ∷ [])
          ⊎ ((plan.ingest ≡ true)
              × Submitted runner_one event_one plan [] result_one (plan_one.idempotency_key ∷ []))))
handle_iff_example = handle_iff runner_one event_one [] (plan_one.idempotency_key ∷ []) result_one

plan_ingest_iff_example : (plan_ingest event_one (codes " proof " ∷ []) ≡ (plan_one, none)) ↔ (
    (IsWriteback event_one (codes " proof " ∷ []) × (plan_one ≡ skip_plan))
    ⊎ ((¬ IsWriteback event_one (codes " proof " ∷ [])) × IsReadyPlan event_one plan_one))
plan_ingest_iff_example = plan_ingest_iff event_one (codes " proof " ∷ []) plan_one

plan_key_binding_example : Agree event_one event_three ⊎ Collision
unfolding ready_plan
plan_key_binding_example =
    plan_key_binding event_one event_three (codes " proof " ∷ []) (codes " proof " ∷ []) plan_one
      plan_one plan_one_runs refl plan_three_runs refl refl

writeback_only_iff_example : (writeback_only (codes "proof " ∷ []) (codes " proof" ∷ []) ≡ true) ↔ (
    (0 < length (codes "proof " ∷ [])) × All (IsAmong (codes " proof" ∷ [])) (codes "proof " ∷ []))
writeback_only_iff_example = writeback_only_iff (codes "proof " ∷ []) (codes " proof" ∷ [])

bounded_bytes_iff_example :
    (bounded_bytes (stream (1 ∷ 2 ∷ 3 ∷ [])) 3 ≡ ok (1 ∷ 2 ∷ 3 ∷ []))
    ↔ IsBounded (stream (1 ∷ 2 ∷ 3 ∷ [])) 3 (1 ∷ 2 ∷ 3 ∷ [])
bounded_bytes_iff_example = bounded_bytes_iff (stream (1 ∷ 2 ∷ 3 ∷ [])) 3 (1 ∷ 2 ∷ 3 ∷ [])

abbrev payload_one : WebhookPayload
payload_one = record {
  tenant = event_one.tenant;
  source_instance = event_one.source_instance;
  document_id = event_one.document_id;
  version = event_one.version;
  event_id = event_one.event_id;
  representation = event_one.representation;
  changed_fields = event_one.changed_fields;
}

-- A stand-in for the HMAC, and a decoder that finds the one payload in the one body.
abbrev packages_one : Packages
packages_one = record {
  mac = λ secret body. secret ++ body;
  decode = λ body. some (payload_one, bytes_equal body (1 ∷ []));
}

abbrev hook_one : Webhook Keys
hook_one = record {
  runner = runner_one;
  secret = 171 ∷ [];
  signature_header = [];
  max_body_bytes = pos 0;
}

abbrev request_one : Request
request_one = record {
  method = codes "POST";
  header = λ name. codes "sha256=aB01";
  body = stream (1 ∷ []);
}

abbrev answered : ℕ × Bytes
answered = (201, [])

serve_http_runs :
    serve_http packages_one hook_one request_one [] ≡ (answered, plan_one.idempotency_key ∷ [])
unfolding serve_http handle_request forward received limited checked decoded_event payload_event
    body_limit read_body mac_matches header_name trim_prefix decode_hex push_byte hex_value
    error_answer answer valid_signature handle handle_plan handle_planned handle_limited
    handle_fetched submit ingest_request fetch_request byte_limit bounded_bytes read_all
    bounded_read read_limited handled plan_ingest writeback_only all_allowed is_allowed trim_space
    trim_front strip_one strip_prefix Text.reverse valid_event valid_text valid_string valid_from
    following contains_nul known_representation bytes_equal plan_known validate_source event_source
    has_suffix ready_plan
serve_http_runs = refl

serve_http-IsSigned_example :
    (request_one.method ≡ codes "POST")
    × ((event : Event) × (result : Handled) × IsSigned packages_one hook_one request_one event
        × (handle runner_one event [] ≡ (ok result, plan_one.idempotency_key ∷ []))
        × (answered.0 ≡ (if result.created then 201 else 200)))
serve_http-IsSigned_example =
    serve_http-IsSigned packages_one hook_one request_one [] (plan_one.idempotency_key ∷ [])
      answered.0 [] serve_http_runs (omega arith)

handle_request-IsSigned_example :
    ((e : Failure) × (handle_request packages_one hook_one request_one [] ≡ (err e, [])))
    ⊎ ((event : Event) × IsSigned packages_one hook_one request_one event
        × (handle_request packages_one hook_one request_one [] ≡ handle runner_one event []))
handle_request-IsSigned_example = handle_request-IsSigned packages_one hook_one request_one []
