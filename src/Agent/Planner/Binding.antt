-- ===== src/Agent/Planner/Binding.antt =====
-- The idempotency key of a plan tells events apart.
use sigmaproof.Prelude.{
  ℕ, zero, suc, ◌≡◌, ◌⊎◌, ap, sym, ◌∙◌, true, none, List, [], ◌∷◌, All, inl, inr,
}
use sigmaproof.Bytes.{Bytes, codes}
use sigmaproof.Sha.{Sha256, Collision}
use sigmaproof.Text.{contains_nul}
use sigmaproof.Agent.Planner.{Event, Plan, key_parts, plan_ingest}
use sigmaproof.Agent.Planner.Keys.{HasNoNul, stable_key_binding}
use sigmaproof.Agent.Planner.Ready.{IsReady, IsReadyPlan, stable_key-key_parts}
use sigmaproof.Agent.Planner.Plans.{plan_ingest_iff}

-- Two events agree in what their keys are made of.
pub record Agree (event other : Event) : Type 0 where
  pub tenants : event.tenant ≡ other.tenant
  pub instances : event.source_instance ≡ other.source_instance
  pub documents : event.document_id ≡ other.document_id
  pub versions : event.version ≡ other.version
  pub representations : event.representation ≡ other.representation
  pub event_ids : event.event_id ≡ other.event_id

-- The element of a list of texts at an index, empty where there is none.
text_at : ℕ → List Bytes → Bytes
text_at n [] = []
text_at zero (d ∷ ds) = d
text_at (suc n) (d ∷ ds) = text_at n ds

key_parts-Agree : (event other : Event) → key_parts event ≡ key_parts other → Agree event other
unfolding text_at
key_parts-Agree event other same = record {
  tenants = ap (text_at 0) same;
  instances = ap (text_at 1) same;
  documents = ap (text_at 2) same;
  versions = ap (text_at 3) same;
  representations = ap (text_at 4) same;
  event_ids = ap (text_at 5) same;
}

known-HasNoNul :
    (value : Bytes) (rep : ℕ)
    → ((value ≡ codes "original") × (rep ≡ 1)) ⊎ ((value ≡ codes "archive") × (rep ≡ 2))
    → HasNoNul value
unfolding contains_nul
known-HasNoNul value rep (inl (e, r)) = rw e
known-HasNoNul value rep (inr (e, r)) = rw e

IsReady-HasNoNul : (event : Event) (rep : ℕ) → IsReady event rep → All HasNoNul (key_parts event)
IsReady-HasNoNul event rep h = (
  h.tenant_text.no_nul,
  (
    h.instance_text.no_nul,
    (
      h.document_text.no_nul,
      (
        h.version_text.no_nul,
        (known-HasNoNul event.representation rep h.known, (h.event_text.no_nul, tt)),
      ),
    ),
  ),
)

module _ ⦃sha : Sha256⦄ where
  ingest_ready :
      (event : Event) (fields : List Bytes) (plan : Plan)
      → plan_ingest event fields ≡ (plan, none)
      → plan.ingest ≡ true
      → IsReadyPlan event plan
  ingest_ready event fields plan e i = elim ((plan_ingest_iff event fields plan).0 e) [
    | inl (w, same) ↦ absurd (cc (sym i ∙ ap (λ t. t.ingest) same))
    | inr (n, r) ↦ r
  ]

  -- Two events that are planned for ingestion under one idempotency key, with whatever evidence
  -- fields, agree in tenant, instance, document, version, representation and event id, or there is
  -- a collision.
  pub plan_key_binding :
      (event other : Event) (fields fields' : List Bytes) (plan plan' : Plan)
      → plan_ingest event fields ≡ (plan, none)
      → plan.ingest ≡ true
      → plan_ingest other fields' ≡ (plan', none)
      → plan'.ingest ≡ true
      → plan.idempotency_key ≡ plan'.idempotency_key
      → Agree event other ⊎ Collision
  plan_key_binding event other fields fields' plan plan' e i e' i' same =
      let (rep, h, p) = ingest_ready event fields plan e i in
      let (rep', h', p') = ingest_ready other fields' plan' e' i' in
      let keys =
        stable_key-key_parts event
        ∙ sym (ap (λ t. t.idempotency_key) p)
        ∙ same
        ∙ ap (λ t. t.idempotency_key) p'
        ∙ sym (stable_key-key_parts other) in
      elim (stable_key_binding (key_parts event) (key_parts other) (IsReady-HasNoNul event rep h)
        (IsReady-HasNoNul other rep' h') keys) [
          | inl parts ↦ inl (key_parts-Agree event other parts)
          | inr x ↦ inr x
        ]
