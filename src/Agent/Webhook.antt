-- ===== src/Agent/Webhook.antt =====
-- integrations/paperless/agent/webhook.go: a signed request that brings an event to the runner.
-- The packages crypto/hmac and encoding/json are parameters, in `Packages`; writing the JSON of
-- the answer is left out, its status and error code are not.
pub mod Signed
use sigmaproof.Prelude.{
  ℕ, zero, suc, ◌+◌, ◌-◌, ◌*◌, ◌^◌, Bool, true, false, ◌&&◌, not, Option, none, some, List, [], ◌∷◌,
  length, ltb, leb, ◌==◌, if◌then◌else◌, ok, err, ℤ, pos, negsuc,
}
use sigmaproof.Bytes.{Bytes, codes, bytes_equal}
use sigmaproof.Sha.{Sha256}
use sigmaproof.Reader.{Reader, stream, broken}
use sigmaproof.Agent.Failures.{
  Failure, Attempt, webhook_not_configured, webhook_signature, webhook_body,
}
use sigmaproof.Text.{decode_hex, trim_space, strip_prefix}
use sigmaproof.Agent.Planner.{Event}
use sigmaproof.Agent.Runner.{Runner, Handled}
use sigmaproof.Agent.Runner

abbrev pub default_signature_header : Bytes
default_signature_header = codes "X-SigmaProof-Signature"

abbrev pub default_webhook_max_bytes : ℕ
default_webhook_max_bytes = 64 * 2 ^ 10

-- The JSON object of a request; its texts keep the names of the event's fields.
pub record WebhookPayload : Type 0 where
  pub tenant : Bytes
  pub source_instance : Bytes
  pub document_id : Bytes
  pub version : Bytes
  pub event_id : Bytes
  pub representation : Bytes
  pub changed_fields : List Bytes

-- The method `event` of the payload.
unfoldable pub payload_event : WebhookPayload → Event
payload_event payload = record {
  tenant = payload.tenant;
  source_instance = payload.source_instance;
  document_id = payload.document_id;
  version = payload.version;
  event_id = payload.event_id;
  representation = payload.representation;
  changed_fields = payload.changed_fields;
}

-- `mac` is the HMAC over SHA-256 of a secret and a body. `decode` reads the first JSON value as a
-- payload without unknown fields, and says whether nothing follows it.
pub record Packages : Type 0 where
  pub mac : Bytes → Bytes → Bytes
  pub decode : Bytes → Option (WebhookPayload × Bool)

pub record Webhook (W : Type 0) : Type 0 where
  pub runner : Runner W
  pub secret : Bytes
  pub signature_header : Bytes
  pub max_body_bytes : ℤ

-- What the source reads of a request; `header` gives the empty text for a header that is not there.
pub record Request : Type 0 where
  pub method : Bytes
  pub header : Bytes → Bytes
  pub body : Reader

-- `strings.TrimPrefix`
unfoldable pub trim_prefix : Bytes → Bytes → Bytes
trim_prefix prefix d = elim (strip_prefix prefix d) [ none ↦ d | some rest ↦ rest ]

unfoldable pub header_name : Bytes → Bytes
header_name value =
    if length (trim_space value) == 0 then default_signature_header else trim_space value

unfoldable pub mac_matches : Option Bytes → Bytes → Bool
mac_matches none expected = false
mac_matches (some signature) expected = bytes_equal signature expected

-- Reading `http.MaxBytesReader` to its end: a longer body is an error.
unfoldable pub read_body : Reader → ℕ → Attempt Bytes
read_body (stream d) max = if leb (length d) max then ok d else err webhook_body
read_body (broken d) max = err webhook_body

-- The limit in force; none where it is negative.
unfoldable pub body_limit : ℤ → Option ℕ
body_limit (negsuc n) = none
body_limit (pos zero) = some default_webhook_max_bytes
body_limit (pos (suc n)) = some (suc n)

unfoldable pub decoded_event : Option (WebhookPayload × Bool) → Attempt Event
decoded_event none = err webhook_body
decoded_event (some (payload, at_end)) =
    if at_end then ok (payload_event payload) else err webhook_body

-- The status and the code of an error.
unfoldable pub error_answer : Failure → ℕ × Bytes
error_answer webhook_not_configured = (500, codes "not_configured")
error_answer webhook_signature = (401, codes "invalid_signature")
error_answer _ = (400, codes "invalid_request")

unfoldable pub answer : Attempt Handled → ℕ × Bytes
answer (err e) = error_answer e
answer (ok result) = (if result.created then 201 else 200, [])

module _ (packages : Packages) where
  unfoldable pub valid_signature : Bytes → (Bytes → Bytes) → Bytes → Bytes → Bool
  valid_signature name header body secret =
      let got = trim_space (header name) in
      if length got == 0
      then false
      else mac_matches (decode_hex (trim_prefix (codes "sha256=") got)) (packages.mac secret body)

  -- The checks of `Handle`, up to the event that it hands to the runner.
  unfoldable pub checked : {W : Type 0} → Webhook W → Request → Attempt Bytes → Attempt Event
  checked hook request (err e) = err e
  checked hook request (ok body) =
      if not (valid_signature (header_name hook.signature_header) request.header body hook.secret)
      then err webhook_signature
      else decoded_event (packages.decode body)

  unfoldable pub limited : {W : Type 0} → Webhook W → Request → Option ℕ → Attempt Event
  limited hook request none = err webhook_not_configured
  limited hook request (some max) = checked hook request (read_body request.body max)

  unfoldable pub received : {W : Type 0} → Webhook W → Request → Attempt Event
  received hook request =
      if length hook.secret == 0
      then err webhook_not_configured
      else limited hook request (body_limit hook.max_body_bytes)

  module _ ⦃sha : Sha256⦄ {W : Type 0} where
    unfoldable pub forward : Webhook W → Attempt Event → W → Attempt Handled × W
    forward hook (err e) w = (err e, w)
    forward hook (ok event) w = Runner.handle hook.runner event w

    unfoldable pub handle_request : Webhook W → Request → W → Attempt Handled × W
    handle_request hook request w = forward hook (received hook request) w

    -- The answer, by its status and error code, and the world behind it.
    unfoldable pub serve_http : Webhook W → Request → W → (ℕ × Bytes) × W
    serve_http hook request w =
        if not (bytes_equal request.method (codes "POST"))
        then ((405, codes "method_not_allowed"), w)
        else let (result, w') = handle_request hook request w in (answer result, w')
