-- ===== src/Agent/Runner/Handling.antt =====
-- What a call of `Handle` that succeeds has done, and that nothing else succeeds.
use sigmaproof.Prelude.{
  ◌≡◌, ◌⊎◌, ◌↔◌, refl, ap, ap₂, sym, ◌∙◌, Bool, true, false, not, Option, none, some, Bool-cases,
  [], if◌then◌else◌, ok, err, ok-injective, inl, inr,
}
use sigmaproof.Sha.{Sha256}
use sigmaproof.Agent.Failures.{Failure, Attempt}
use sigmaproof.Agent.Planner.{Event, Plan, plan_ingest}
use sigmaproof.Agent.Runner.{Runner, Handled, handle_planned, handle_plan, handle}
use sigmaproof.Agent.Runner.Submitting.{Submitted, Submitted-handle, handle_planned-Submitted}

abbrev skip_result : Plan → Handled
skip_result plan = record { plan = plan; evidence_id = []; created = false; skipped = true }

module _ {W : Type 0} where
  -- The plan was for no ingestion, and nothing was done.
  pub record Skipped (plan : Plan) (w : W) (result : Handled) (w' : W) : Type 0 where
    pub planned : plan.ingest ≡ false
    pub unchanged : w' ≡ w
    pub gives : result ≡ record { plan = plan; evidence_id = []; created = false; skipped = true }

  -- What a plan can come to.
  Outcomes : Runner W → Event → Plan → W → Handled → W → Type 0
  Outcomes runner event plan w result w' =
      Skipped plan w result w' ⊎ ((plan.ingest ≡ true) × Submitted runner event plan w result w')

  handle_plan_branch :
      (runner : Runner W) (event : Event) (plan : Plan) (w : W) (b : Bool)
      → plan.ingest ≡ b
      → handle_plan runner event (plan, none) w
        ≡ (if not b then (ok (skip_result plan), w) else handle_planned runner event plan w)
  unfolding handle_plan
  handle_plan_branch runner event plan w b e =
      ap (λ t. if not t then (ok (skip_result plan), w) else handle_planned runner event plan w) e

  handle_plan-Outcomes :
      (runner : Runner W) (event : Event) (planned : Plan × Option Failure) (w w' : W)
      (result : Handled)
      → handle_plan runner event planned w ≡ (ok result, w')
      → (plan : Plan) × (planned ≡ (plan, none)) × Outcomes runner event plan w result w'
  unfolding Outcomes
  handle_plan-Outcomes runner event (plan, some e) w w' result h =
      let h' : ◌≡◌ {A = Attempt Handled × W} (err e, w) (ok result, w') = unfold handle_plan in h in
      cc (ap (λ t. t.0) h')
  handle_plan-Outcomes runner event (plan, none) w w' result h = elim (Bool-cases plan.ingest) [
    | inl e ↦
        let h' = sym (handle_plan_branch runner event plan w true e) ∙ h in
        (plan, refl, inr (e, handle_planned-Submitted runner event plan w w' result h'))
    | inr e ↦
        let h' = sym (handle_plan_branch runner event plan w false e) ∙ h in
        (
          plan,
          refl,
          inl (record {
            planned = e;
            unchanged = sym (ap (λ t. t.1) h');
            gives = sym (ok-injective (ap (λ t. t.0) h'));
          }),
        )
  ]

  Outcomes-handle_plan :
      (runner : Runner W) (event : Event) (plan : Plan) (w w' : W) (result : Handled)
      → Outcomes runner event plan w result w'
      → handle_plan runner event (plan, none) w ≡ (ok result, w')
  unfolding Outcomes
  Outcomes-handle_plan runner event plan w w' result (inl s) =
      handle_plan_branch runner event plan w false s.planned
      ∙ ap₂ (λ r v. (ok r, v)) (sym s.gives) (sym s.unchanged)
  Outcomes-handle_plan runner event plan w w' result (inr (e, s)) =
      handle_plan_branch runner event plan w true e ∙ Submitted-handle s

  -- `handle` succeeds with a result exactly when the event was planned without an error, and the
  -- plan was either for no ingestion, which leaves everything as it was, or it was submitted:
  -- fetcher, ingester and limit were there, the fetch was for the fields of the event and kept its
  -- version or named none, and the whole document, within the limit, was ingested under the fields
  -- of the plan.
  pub handle_iff :
      ⦃sha : Sha256⦄ (runner : Runner W) (event : Event) (w w' : W) (result : Handled)
      → (handle runner event w ≡ (ok result, w')) ↔ (
          (plan : Plan) × (plan_ingest event runner.evidence_fields ≡ (plan, none))
          × (Skipped plan w result w'
              ⊎ ((plan.ingest ≡ true) × Submitted runner event plan w result w')))
  unfolding handle Outcomes
  handle_iff runner event w w' result = (
    handle_plan-Outcomes runner event (plan_ingest event runner.evidence_fields) w w' result,
    λ (plan, e, o).
        ap (λ t. handle_plan runner event t w) e
        ∙ Outcomes-handle_plan runner event plan w w' result o,
  )
