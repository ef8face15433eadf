-- ===== src/Agent/Webhook/Signed.antt =====
-- Nothing happens for a request that is not signed.
use sigmaproof.Prelude.{
  ℕ, ◌≤◌, ◌<◌, ◌≡◌, ◌⊎◌, refl, ap, ap₂, sym, ◌∙◌, Bool, true, false, Option, none, some, length,
  leb, leb→le, ◌==◌, if◌then◌else◌, ok, err, ok-injective, Bool-cases, Result-cases, inl, inr,
  arith,
}
use sigmaproof.Bytes.{Bytes, codes, bytes_equal, bytes_equal_iff}
use sigmaproof.Sha.{Sha256}
use sigmaproof.Reader.{Reader, stream, broken}
use sigmaproof.Agent.Failures.{
  Failure, Attempt, webhook_not_configured, webhook_signature, webhook_body, invalid_event,
  not_configured, version_changed, missing_document, oversized_fetch, document_read_failed,
  reconciler_not_configured, other,
}
use sigmaproof.Text.{trim_space}
use sigmaproof.Agent.Planner.{Event}
use sigmaproof.Agent.Runner
use sigmaproof.Agent.Runner.{Handled}
use sigmaproof.Agent.Webhook.{
  answer, error_answer, Packages, WebhookPayload, payload_event, Webhook, Request, read_body,
  body_limit, decoded_event, header_name, trim_prefix, mac_matches, valid_signature, checked,
  limited, received, forward, handle_request, serve_http,
}
use sigmaproof.Text.{decode_hex}

-- A request as it must be to reach the runner: its body ends within the limit, decodes to a payload
-- and nothing more, whose fields are those of the event, and carries the HMAC of just that body under a secret that is not empty.
pub record IsSigned (packages : Packages) {W : Type 0} (hook : Webhook W) (request : Request)
    (event : Event) : Type 0 where
  pub content : Bytes
  pub max : ℕ
  pub body : request.body ≡ stream content
  pub has_limit : body_limit hook.max_body_bytes ≡ some max
  pub within : length content ≤ max
  pub has_secret : 0 < length hook.secret
  pub signature :
      decode_hex (
        trim_prefix
          (codes "sha256=")
          (trim_space (request.header (header_name hook.signature_header))))
      ≡ some (packages.mac hook.secret content)
  pub payload : WebhookPayload
  pub decodes : packages.decode content ≡ some (payload, true)
  pub event_of : event ≡ record {
    tenant = payload.tenant;
    source_instance = payload.source_instance;
    document_id = payload.document_id;
    version = payload.version;
    event_id = payload.event_id;
    representation = payload.representation;
    changed_fields = payload.changed_fields;
  }

mac_inv : (s : Option Bytes) (expected : Bytes) → mac_matches s expected ≡ true → s ≡ some expected
unfolding mac_matches
mac_inv none expected e = cc
mac_inv (some s) expected e = ap some ((bytes_equal_iff s expected).0 e)

body_inv :
    (r : Reader) (max : ℕ) (d : Bytes) → read_body r max ≡ ok d → (r ≡ stream d) × (length d ≤ max)
unfolding read_body
body_inv (stream c) max d e = elim (Bool-cases (leb (length c) max)) [
  | inl short ↦
      let h = rw short at e in
      let same : c ≡ d = ok-injective h in
      (ap stream same, omega (arith, leb→le _ _ short, ap (length {A = ℕ}) same))
  | inr long ↦ let h = rw long at e in cc h
]
body_inv (broken c) max d e = cc

decoded_event_inv :
    (o : Option (WebhookPayload × Bool)) (event : Event)
    → decoded_event o ≡ ok event
    → (payload : WebhookPayload) × (o ≡ some (payload, true)) × (event ≡ payload_event payload)
unfolding decoded_event
decoded_event_inv none event e = cc
decoded_event_inv (some (x, true)) event e = (x, refl, sym (ok-injective e))
decoded_event_inv (some (x, false)) event e = cc

error_answer-ge : (e : Failure) → 400 ≤ (error_answer e).0
unfolding error_answer
error_answer-ge webhook_not_configured = omega arith
error_answer-ge webhook_signature = omega arith
error_answer-ge webhook_body = omega arith
error_answer-ge invalid_event = omega arith
error_answer-ge not_configured = omega arith
error_answer-ge version_changed = omega arith
error_answer-ge missing_document = omega arith
error_answer-ge (oversized_fetch max) = omega arith
error_answer-ge document_read_failed = omega arith
error_answer-ge reconciler_not_configured = omega arith
error_answer-ge (other d) = omega arith

answer_success :
    (a : Attempt Handled) (status : ℕ)
    → (answer a).0 ≡ status
    → status < 300
    → (result : Handled) × (a ≡ ok result) × (status ≡ (if result.created then 201 else 200))
unfolding answer
answer_success (err e) status same s = absurd (omega (arith, error_answer-ge e))
answer_success (ok result) status same s = (result, refl, sym same)

module _ (packages : Packages) where
  signature_inv :
      (name : Bytes) (header : Bytes → Bytes) (body secret : Bytes)
      → valid_signature packages name header body secret ≡ true
      → decode_hex (trim_prefix (codes "sha256=") (trim_space (header name)))
        ≡ some (packages.mac secret body)
  unfolding valid_signature
  signature_inv name header body secret e =
      elim (Bool-cases (length (trim_space (header name)) == 0)) [
        | inl empty ↦ let h = rw empty at e in cc h
        | inr there ↦ let h = rw there at e in mac_inv _ (packages.mac secret body) h
      ]

  module _ {W : Type 0} where
    checked_inv :
        (hook : Webhook W) (request : Request) (a : Attempt Bytes) (event : Event)
        → checked packages hook request a ≡ ok event
        → (d : Bytes) × (a ≡ ok d)
          × (valid_signature packages
                (header_name hook.signature_header)
                request.header
                d
                hook.secret
              ≡ true)
          × ((payload : WebhookPayload) × (packages.decode d ≡ some (payload, true))
              × (event ≡ payload_event payload))
    unfolding checked
    checked_inv hook request (err x) event e = cc
    checked_inv hook request (ok d) event e =
        let name = header_name hook.signature_header in
        elim (Bool-cases (valid_signature packages name request.header d hook.secret)) [
          | inl valid ↦
              let h = rw valid at e in
              (d, refl, valid, decoded_event_inv (packages.decode d) event h)
          | inr invalid ↦ let h = rw invalid at e in cc h
        ]

    limited_inv :
        (hook : Webhook W) (request : Request) (limit : Option ℕ) (event : Event)
        → limited packages hook request limit ≡ ok event
        → (max : ℕ) × (limit ≡ some max)
          × (checked packages hook request (read_body request.body max) ≡ ok event)
    unfolding limited
    limited_inv hook request none event e = cc
    limited_inv hook request (some max) event e = (max, refl, e)

    received-IsSigned :
        (hook : Webhook W) (request : Request) (event : Event)
        → received packages hook request ≡ ok event
        → IsSigned packages hook request event
    unfolding received payload_event
    received-IsSigned hook request event e = elim (Bool-cases (length hook.secret == 0)) [
      | inl unset ↦ let h = rw unset at e in absurd (cc h)
      | inr set ↦
          let h = rw set at e in
          let (max, l, c) = limited_inv hook request (body_limit hook.max_body_bytes) event h in
          let (d, r, s, (payload, q, v)) =
            checked_inv hook request (read_body request.body max) event c in
          let (b, w) = body_inv request.body max d r in
          record {
            content = d;
            max = max;
            body = b;
            has_limit = l;
            within = w;
            has_secret = ground (arith, set);
            signature =
                signature_inv (header_name hook.signature_header) request.header d hook.secret s;
            payload = payload;
            decodes = q;
            event_of = v;
          }
    ]

  module _ ⦃sha : Sha256⦄ {W : Type 0} where
    -- Whatever `Handle` of the webhook does, it either leaves the world as it was and returns an
    -- error, or the request is signed and what happens is the runner's handling of its event.
    pub handle_request-IsSigned :
        (hook : Webhook W) (request : Request) (w : W)
        → ((e : Failure) × (handle_request packages hook request w ≡ (err e, w)))
          ⊎ ((event : Event) × IsSigned packages hook request event
              × (handle_request packages hook request w ≡ Runner.handle hook.runner event w))
    unfolding handle_request forward
    handle_request-IsSigned hook request w = elim (Result-cases (received packages hook request)) [
      | inl (event, e) ↦
          inr (event, received-IsSigned hook request event e, ap (λ t. forward packages hook t w) e)
      | inr (x, e) ↦ inl (x, ap (λ t. forward packages hook t w) e)
    ]

    -- The webhook answers with status 200 or 201 only to a POST request that is signed and whose
    -- event the runner handled with a result; 201 says that the evidence is new.
    pub serve_http-IsSigned :
        (hook : Webhook W) (request : Request) (w w' : W) (status : ℕ) (code : Bytes)
        → serve_http packages hook request w ≡ ((status, code), w')
        → status < 300
        → (request.method ≡ codes "POST")
          × ((event : Event) × (result : Handled) × IsSigned packages hook request event
              × (Runner.handle hook.runner event w ≡ (ok result, w'))
              × (status ≡ (if result.created then 201 else 200)))
    unfolding serve_http
    serve_http-IsSigned hook request w w' status code e s =
        elim (Bool-cases (bytes_equal request.method (codes "POST"))) [
          | inr unposted ↦
              let h = rw unposted at e in
              let t : 405 ≡ status = ap (λ t. t.0.0) h in absurd (omega arith)
          | inl post ↦
              let h = rw post at e in
              let (result, a, t) =
                answer_success (handle_request packages hook request w).0 status (ap (λ t. t.0.0) h)
                  s in
              let world : (handle_request packages hook request w).1 ≡ w' = ap (λ t. t.1) h in
              let all : handle_request packages hook request w ≡ (ok result, w') =
                ap₂ (λ r v. (r, v)) a world in
              elim (handle_request-IsSigned hook request w) [
                | inl (x, failed) ↦
                    let clash : err x ≡ ok result = ap (λ t. t.0) (sym failed ∙ all) in
                    absurd (cc clash)
                | inr (event, signed, ran) ↦ (
                  (bytes_equal_iff request.method (codes "POST")).0 post,
                  (event, result, signed, sym ran ∙ all, t),
                )
              ]
        ]
