-- ===== src/Agent/Runner.antt =====
-- integrations/paperless/agent/runner.go: plan, fetch and submit one event. The fetcher and the
-- ingester are interfaces of the source; here they are functions that may change a world `W`.
-- Closing the fetched document is left out.
pub mod Bounded
pub mod Submitting
pub mod Handling
use sigmaproof.Prelude.{
  ℕ, zero, suc, ◌+◌, ◌*◌, ◌^◌, Bool, true, false, ◌&&◌, ◌||◌, not, Option, none, some, List, [],
  length, ltb, ◌==◌, if◌then◌else◌, Result, ok, err, ℤ, pos, negsuc, max_int64,
}
use sigmaproof.Bytes.{Bytes, bytes_equal}
use sigmaproof.Sha.{Sha256}
use sigmaproof.Reader.{Reader, stream, read_limited}
use sigmaproof.Storage.Types.{DocumentIngestRequest}
use sigmaproof.Agent.Failures.{
  Failure, Attempt, not_configured, version_changed, missing_document, oversized_fetch,
  document_read_failed,
}
use sigmaproof.Agent.Planner.{Event, Plan, plan_ingest}
use sigmaproof.Storage.Types.{Source}

abbrev pub default_max_document_bytes : ℕ
default_max_document_bytes = 64 * 2 ^ 20

pub record FetchRequest : Type 0 where
  pub source_instance : Bytes
  pub document_id : Bytes
  pub version : Bytes
  pub representation : Bytes

pub record FetchResult : Type 0 where
  pub version : Bytes
  pub document : Option Reader

-- What `IngestDocument` returns: the id of the evidence and whether it is new.
abbrev pub Ingested : Type 0
Ingested = Bytes × Bool

pub record Runner (W : Type 0) : Type 0 where
  pub fetcher : Option (FetchRequest → W → Attempt FetchResult × W)
  pub ingester : Option (DocumentIngestRequest → W → Attempt Ingested × W)
  pub evidence_fields : List Bytes
  pub max_bytes : ℤ

-- The struct `Result` of the source.
pub record Handled : Type 0 where
  pub plan : Plan
  pub evidence_id : Bytes
  pub created : Bool
  pub skipped : Bool

unfoldable pub bounded_read : ℕ → Result Failure Bytes → Attempt Bytes
bounded_read max (err e) = err e
bounded_read max (ok data_read) =
    if ltb max (length data_read) then err (oversized_fetch max) else ok data_read

unfoldable pub read_all : Reader → ℕ → Attempt Bytes
read_all r limit = elim (read_limited r limit) [ ok d ↦ ok d | err e ↦ err document_read_failed ]

unfoldable pub bounded_bytes : Reader → ℕ → Attempt Bytes
bounded_bytes r max =
    if max == 0 || max == max_int64
    then err not_configured
    else bounded_read max (read_all r (max + 1))

unfoldable pub fetch_request : Event → FetchRequest
fetch_request event = record {
  source_instance = event.source_instance;
  document_id = event.document_id;
  version = event.version;
  representation = event.representation;
}

unfoldable pub ingest_request : Plan → ℕ → Bytes → DocumentIngestRequest
ingest_request plan max document = record {
  tenant = plan.tenant;
  key = plan.idempotency_key;
  source = plan.source;
  representation = plan.representation;
  document = some (stream document);
  max_bytes = pos max;
}

-- The limit in force; none where it is negative.
unfoldable pub byte_limit : ℤ → Option ℕ
byte_limit (negsuc n) = none
byte_limit (pos zero) = some default_max_document_bytes
byte_limit (pos (suc n)) = some (suc n)

unfoldable pub handled : Plan → Attempt Ingested → Attempt Handled
handled plan (err e) = err e
handled plan (ok (id, created)) =
    ok (record { plan = plan; evidence_id = id; created = created; skipped = false })

module _ {W : Type 0} where
  unfoldable pub submit :
      (DocumentIngestRequest → W → Attempt Ingested × W)
      → Plan
      → ℕ
      → Attempt Bytes
      → W
      → Attempt Handled × W
  submit ingest plan max (err e) w = (err e, w)
  submit ingest plan max (ok document) w =
      let (r, w') = ingest (ingest_request plan max document) w in (handled plan r, w')

  -- `Handle` behind the fetch.
  unfoldable pub handle_fetched :
      (DocumentIngestRequest → W → Attempt Ingested × W)
      → Event
      → Plan
      → ℕ
      → Attempt FetchResult
      → W
      → Attempt Handled × W
  handle_fetched ingest event plan max (err e) w = (err e, w)
  handle_fetched ingest event plan max (ok fetched) w =
      if not (length fetched.version == 0) && not (bytes_equal fetched.version event.version)
      then (err version_changed, w)
      else elim fetched.document [
        | none ↦ (err missing_document, w)
        | some r ↦ submit ingest plan max (bounded_bytes r max) w
      ]

  unfoldable pub handle_limited :
      (FetchRequest → W → Attempt FetchResult × W)
      → (DocumentIngestRequest → W → Attempt Ingested × W)
      → Event
      → Plan
      → Option ℕ
      → W
      → Attempt Handled × W
  handle_limited fetch ingest event plan none w = (err not_configured, w)
  handle_limited fetch ingest event plan (some max) w =
      let (fetched, w') = fetch (fetch_request event) w in
      handle_fetched ingest event plan max fetched w'

  unfoldable pub handle_planned : Runner W → Event → Plan → W → Attempt Handled × W
  handle_planned runner event plan w = elim runner.fetcher [
    | none ↦ (err not_configured, w)
    | some fetch ↦ elim runner.ingester [
      | none ↦ (err not_configured, w)
      | some ingest ↦ handle_limited fetch ingest event plan (byte_limit runner.max_bytes) w
    ]
  ]

  unfoldable pub handle_plan : Runner W → Event → Plan × Option Failure → W → Attempt Handled × W
  handle_plan runner event (plan, some e) w = (err e, w)
  handle_plan runner event (plan, none) w =
      if not plan.ingest
      then (ok (record { plan = plan; evidence_id = []; created = false; skipped = true }), w)
      else handle_planned runner event plan w

  unfoldable pub handle : ⦃sha : Sha256⦄ → Runner W → Event → W → Attempt Handled × W
  handle runner event w = handle_plan runner event (plan_ingest event runner.evidence_fields) w
