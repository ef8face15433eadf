-- ===== src/Agent/Runner/Submitting.antt =====
-- The part of `Handle` behind the plan: what a success has done, and that nothing else succeeds.
use sigmaproof.Prelude.{
  ℕ, zero, suc, ◌*◌, ◌^◌, ◌<◌, ℤ, pos, negsuc, some_eq, ◌==◌, ◌≡◌, ◌⊎◌, ◌↔◌, refl, ap, sym, ◌∙◌,
  false, not, ◌&&◌, Option, none, some, Option-cases, Bool-cases, [], ◌∷◌, length, ok, err,
  ok-injective, arith, inl, inr,
}
use sigmaproof.Bytes.{Bytes, bytes_equal, bytes_equal_iff}
use sigmaproof.Reader.{Reader, stream}
use sigmaproof.Agent.Failures.{Failure, Attempt}
use sigmaproof.Agent.Planner.{Event, Plan}
use sigmaproof.Agent.Runner.{
  Runner, Handled, FetchRequest, FetchResult, Ingested, fetch_request, ingest_request, byte_limit,
  bounded_bytes, handled, submit, handle_fetched, handle_limited, handle_planned,
}
use sigmaproof.Storage.Types.{DocumentIngestRequest}
use sigmaproof.Agent.Runner.Bounded.{IsBounded, bounded_bytes_iff}

same_version_iff :
    (v u : Bytes) → ((not (length v == 0) && not (bytes_equal v u)) ≡ false) ↔ ((v ≡ []) ⊎ (v ≡ u))
same_version_iff v u = (to v, from v)
  where
    to : (v : Bytes) → (not (length v == 0) && not (bytes_equal v u)) ≡ false → (v ≡ []) ⊎ (v ≡ u)
    to [] e = inl refl
    to (x ∷ v) e = inr ((bytes_equal_iff (x ∷ v) u).0 (ground arith))

    from : (v : Bytes) → (v ≡ []) ⊎ (v ≡ u) → (not (length v == 0) && not (bytes_equal v u)) ≡ false
    from [] e = refl
    from (x ∷ v) (inl e) = cc
    from (x ∷ v) (inr e) = ground (arith, (bytes_equal_iff (x ∷ v) u).1 e)

byte_limit_iff :
    (limit : ℤ) (max : ℕ)
    → (byte_limit limit ≡ some max)
      ↔ (((limit ≡ pos 0) × (max ≡ 64 * 2 ^ 20)) ⊎ ((limit ≡ pos max) × (0 < max)))
unfolding byte_limit
byte_limit_iff limit max = (to limit, from limit)
  where
    to :
        (limit : ℤ)
        → byte_limit limit ≡ some max
        → ((limit ≡ pos 0) × (max ≡ 64 * 2 ^ 20)) ⊎ ((limit ≡ pos max) × (0 < max))
    to (negsuc n) e = cc
    to (pos zero) e = inl (refl, sym (some_eq e))
    to (pos (suc n)) e = inr (ap pos (some_eq e), omega (arith, some_eq e))

    from :
        (limit : ℤ)
        → ((limit ≡ pos 0) × (max ≡ 64 * 2 ^ 20)) ⊎ ((limit ≡ pos max) × (0 < max))
        → byte_limit limit ≡ some max
    from limit (inl (e, m)) = rw (e, m)
    from (negsuc n) (inr (e, m)) = cc
    from (pos zero) (inr (e, m)) = let z : 0 ≡ max = cc in absurd (omega arith)
    from (pos (suc n)) (inr (e, m)) = let same : suc n ≡ max = cc in ap some same

-- A call that changes the world has a result or an error.
call-cases :
    {A W : Type 0} (c : Attempt A × W)
    → ((a : A) × (w : W) × (c ≡ (ok a, w))) ⊎ ((f : Failure) × (w : W) × (c ≡ (err f, w)))
call-cases (ok a, w) = inl (a, w, refl)
call-cases (err f, w) = inr (f, w, refl)

module _ {W : Type 0} where
  -- The plan was submitted: what was fetched under the fields of the event has its version, or names
  -- none, and its bytes, read in full and within the limit, went to the ingester with the fields of
  -- the plan. The limit is that of the runner, or 64 MiB where that is 0.
  pub record Submitted (runner : Runner W) (event : Event) (plan : Plan) (w : W) (result : Handled)
      (w' : W) : Type 0 where
    pub fetch : FetchRequest → W → Attempt FetchResult × W
    pub ingest : DocumentIngestRequest → W → Attempt Ingested × W
    pub max : ℕ
    pub fetched : FetchResult
    pub between : W
    pub document : Reader
    pub content : Bytes
    pub evidence : Ingested
    pub has_fetcher : runner.fetcher ≡ some fetch
    pub has_ingester : runner.ingester ≡ some ingest
    pub has_limit :
        ((runner.max_bytes ≡ pos 0) × (max ≡ 64 * 2 ^ 20))
        ⊎ ((runner.max_bytes ≡ pos max) × (0 < max))
    pub fetches :
        fetch
          (record {
            source_instance = event.source_instance;
            document_id = event.document_id;
            version = event.version;
            representation = event.representation;
          })
          w
        ≡ (ok fetched, between)
    pub same_version : (fetched.version ≡ []) ⊎ (fetched.version ≡ event.version)
    pub has_document : fetched.document ≡ some document
    pub bounded : IsBounded document max content
    pub ingests :
        ingest
          (record {
            tenant = plan.tenant;
            key = plan.idempotency_key;
            source = plan.source;
            representation = plan.representation;
            document = some (stream content);
            max_bytes = pos max;
          })
          between
        ≡ (ok evidence, w')
    pub gives :
        result
        ≡ record { plan = plan; evidence_id = evidence.0; created = evidence.1; skipped = false }

  pub Submitted-handle :
      {runner : Runner W} {event : Event} {plan : Plan} {w : W} {result : Handled} {w' : W}
      → Submitted runner event plan w result w'
      → handle_planned runner event plan w ≡ (ok result, w')
  unfolding handle_planned handle_limited handle_fetched submit handled fetch_request ingest_request
  Submitted-handle {runner = runner} {event = event} h = rw (
    h.has_fetcher,
    h.has_ingester,
    (byte_limit_iff runner.max_bytes h.max).1 h.has_limit,
    h.fetches,
    (same_version_iff h.fetched.version event.version).1 h.same_version,
    h.has_document,
    (bounded_bytes_iff h.document h.max h.content).1 h.bounded,
    h.ingests,
    h.gives,
  )

  submit_inv :
      (ingest : DocumentIngestRequest → W → Attempt Ingested × W) (plan : Plan) (max : ℕ)
      (a : Attempt Bytes) (w w' : W) (result : Handled)
      → submit ingest plan max a w ≡ (ok result, w')
      → (b : Bytes) × (x : Ingested) × (a ≡ ok b)
        × (ingest (ingest_request plan max b) w ≡ (ok x, w'))
        × (result ≡ record { plan = plan; evidence_id = x.0; created = x.1; skipped = false })
  unfolding submit handled
  submit_inv ingest plan max (err e) w w' result h = cc
  submit_inv ingest plan max (ok b) w w' result h =
      elim (call-cases (ingest (ingest_request plan max b) w)) [
        | inl (x, w1, e) ↦
            let h' = rw e at h in
            (b, x, refl, e ∙ ap (λ t. (ok x, t.1)) h', sym (ok-injective (ap (λ t. t.0) h')))
        | inr (f, w1, e) ↦ let h' = rw e at h in cc (ap (λ t. t.0) h')
      ]

  fetched_inv :
      (ingest : DocumentIngestRequest → W → Attempt Ingested × W) (event : Event) (plan : Plan)
      (max : ℕ) (a : Attempt FetchResult) (w w' : W) (result : Handled)
      → handle_fetched ingest event plan max a w ≡ (ok result, w')
      → (fetched : FetchResult) × (r : Reader) × (a ≡ ok fetched)
        × ((fetched.version ≡ []) ⊎ (fetched.version ≡ event.version))
        × (fetched.document ≡ some r)
        × (submit ingest plan max (bounded_bytes r max) w ≡ (ok result, w'))
  unfolding handle_fetched
  fetched_inv ingest event plan max (err e) w w' result h = cc
  fetched_inv ingest event plan max (ok f) w w' result h =
      elim (Bool-cases (not (length f.version == 0) && not (bytes_equal f.version event.version))) [
        | inl changed ↦ let h' = rw changed at h in cc (ap (λ t. t.0) h')
        | inr kept ↦
            let h' = rw kept at h in
            elim (Option-cases f.document) [
              | inl none_there ↦ let g = rw none_there at h' in cc (ap (λ t. t.0) g)
              | inr (r, there) ↦
                  let g = rw there at h' in
                  (f, r, refl, (same_version_iff f.version event.version).0 kept, there, g)
            ]
      ]

  limited_inv :
      (fetch : FetchRequest → W → Attempt FetchResult × W)
      (ingest : DocumentIngestRequest → W → Attempt Ingested × W) (event : Event) (plan : Plan)
      (limit : Option ℕ) (w w' : W) (result : Handled)
      → handle_limited fetch ingest event plan limit w ≡ (ok result, w')
      → (max : ℕ) × (limit ≡ some max)
        × (handle_fetched ingest event plan max
              (fetch (fetch_request event) w).0
              (fetch (fetch_request event) w).1
            ≡ (ok result, w'))
  unfolding handle_limited
  limited_inv fetch ingest event plan none w w' result h = cc (ap (λ t. t.0) h)
  limited_inv fetch ingest event plan (some max) w w' result h = (max, refl, h)

  planned_inv :
      (runner : Runner W) (event : Event) (plan : Plan) (w w' : W) (result : Handled)
      → handle_planned runner event plan w ≡ (ok result, w')
      → (fetch : FetchRequest → W → Attempt FetchResult × W) × (ingest : DocumentIngestRequest
          → W
          → Attempt Ingested × W)
        × (runner.fetcher ≡ some fetch)
        × (runner.ingester ≡ some ingest)
        × (handle_limited fetch ingest event plan (byte_limit runner.max_bytes) w ≡ (ok result, w'))
  unfolding handle_planned
  planned_inv runner event plan w w' result h = elim (Option-cases runner.fetcher) [
    | inl missing ↦ let h' = rw missing at h in cc (ap (λ t. t.0) h')
    | inr (fetch, there) ↦
        let h' = rw there at h in
        elim (Option-cases runner.ingester) [
          | inl missing ↦ let g = rw missing at h' in cc (ap (λ t. t.0) g)
          | inr (ingest, too) ↦ let g = rw too at h' in (fetch, ingest, there, too, g)
        ]
  ]

  pub handle_planned-Submitted :
      (runner : Runner W) (event : Event) (plan : Plan) (w w' : W) (result : Handled)
      → handle_planned runner event plan w ≡ (ok result, w')
      → Submitted runner event plan w result w'
  unfolding fetch_request ingest_request
  handle_planned-Submitted runner event plan w w' result h =
      let (fetch, ingest, f, g, h1) = planned_inv runner event plan w w' result h in
      let (max, m, h2) =
        limited_inv fetch ingest event plan (byte_limit runner.max_bytes) w w' result h1 in
      let (a, w1) = fetch (fetch_request event) w in
      let (fetched, r, e, v, d, h3) = fetched_inv ingest event plan max a w1 w' result h2 in
      let (b, x, q, i, same) = submit_inv ingest plan max (bounded_bytes r max) w1 w' result h3 in
      record {
        fetch = fetch;
        ingest = ingest;
        max = max;
        fetched = fetched;
        between = w1;
        document = r;
        content = b;
        evidence = x;
        has_fetcher = f;
        has_ingester = g;
        has_limit = (byte_limit_iff runner.max_bytes max).0 m;
        fetches = ap (λ t. (t, w1)) e;
        same_version = v;
        has_document = d;
        bounded = (bounded_bytes_iff r max b).0 q;
        ingests = i;
        gives = same;
      }
