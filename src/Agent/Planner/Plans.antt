-- ===== src/Agent/Planner/Plans.antt =====
-- When `PlanIngest` gives a plan without an error, and what the plan holds.
use sigmaproof.Prelude.{
  ℕ, ◌-◌, ◌≡◌, ◌⊎◌, ◌↔◌, refl, ap, sym, ◌∙◌, true, false, Option, none, some, List, ◌∷◌, ◌++◌, leb,
  arith, inl, inr, length, length-append, drop, drop_left, Bool-cases, some_eq, le→leb,
}
use sigmaproof.Bytes.{Bytes, bytes_equal, bytes_equal_iff}
use sigmaproof.Sha.{Sha256}
use sigmaproof.Commitment.{original, derived}
use sigmaproof.Text.{has_suffix}
use sigmaproof.Agent.Planner.Writeback.{writeback_only_iff}
use sigmaproof.Agent.Planner.{
  Event, Plan, original_upload, archive_output, valid_text, valid_event, writeback_only,
  known_representation, validate_source, event_source, ready_plan, plan_known, plan_ingest,
}
use sigmaproof.Agent.Planner.Ready.{
  Passes, skip_plan, IsWriteback, IsReadyPlan, IsPassedPlan, passed_iff,
}

-- The version of a source ends with its representation, so that test of `validateSource` passes.
has_suffix-append : (v s : Bytes) → has_suffix (v ++ s) s ≡ true
unfolding has_suffix
has_suffix-append v s =
    let front : length (v ++ s) - length s ≡ length v = omega (arith, length-append v s) in
    let back : drop (length (v ++ s) - length s) (v ++ s) ≡ s =
      ap (λ n. drop n (v ++ s)) front ∙ drop_left (length v) v s refl in
    let short : leb (length s) (length (v ++ s)) ≡ true =
      le→leb _ _ (omega (arith, length-append v s)) in
    ground (arith, short, (bytes_equal_iff (drop (length (v ++ s) - length s) (v ++ s)) s).1 back)

abbrev IsKnown : Bytes → ℕ → Bytes → Type 0
IsKnown value rep name =
    (name ≡ value)
    × (((value ≡ original_upload) × (rep ≡ original))
        ⊎ ((value ≡ archive_output) × (rep ≡ derived)))

known_representation-IsKnown :
    (value : Bytes) (rep : ℕ) (name : Bytes)
    → known_representation value ≡ some (rep, name)
    → IsKnown value rep name
unfolding known_representation
known_representation-IsKnown value rep name e =
    elim (Bool-cases (bytes_equal value original_upload)) [
      | inl o ↦
          let h = some_eq (rw o at e) in
          let v = (bytes_equal_iff value original_upload).0 o in
          (sym (ap (λ t. t.1) h) ∙ sym v, inl (v, sym (ap (λ t. t.0) h)))
      | inr n ↦ elim (Bool-cases (bytes_equal value archive_output)) [
        | inl a ↦
            let h = some_eq (rw (n, a) at e) in
            let v = (bytes_equal_iff value archive_output).0 a in
            (sym (ap (λ t. t.1) h) ∙ sym v, inr (v, sym (ap (λ t. t.0) h)))
        | inr m ↦ let h = rw (n, m) at e in cc h
      ]
    ]

IsKnown-known_representation :
    (value : Bytes) (rep : ℕ)
    → ((value ≡ original_upload) × (rep ≡ original)) ⊎ ((value ≡ archive_output) × (rep ≡ derived))
    → known_representation value ≡ some (rep, value)
unfolding known_representation bytes_equal
IsKnown-known_representation value rep (inl (e, r)) = rw (e, r)
IsKnown-known_representation value rep (inr (e, r)) = rw (e, r)

validate_iff :
    (event : Event)
    → (validate_source (event_source event) event.representation ≡ none) ↔ (
        (valid_text (event_source event).object ≡ true)
        × (valid_text (event_source event).version ≡ true))
unfolding validate_source
validate_iff event =
    let ends = suffix event in (λ e. ground (arith, e, ends), λ (a, b). ground (arith, a, b, ends))
  where
    suffix :
        (event : Event) → has_suffix (event_source event).version (58 ∷ event.representation) ≡ true
    suffix event =
        unfold event_source in has_suffix-append event.version (58 ∷ event.representation)

module _ ⦃sha : Sha256⦄ where
  plan_known-Passes :
      (event : Event) (k : Option (ℕ × Bytes)) (plan : Plan)
      → valid_event event ≡ true
      → known_representation event.representation ≡ k
      → plan_known event k ≡ (plan, none)
      → (rep : ℕ) × Passes event rep × (plan ≡ ready_plan event rep)
  unfolding plan_known
  plan_known-Passes event none plan v q e = absurd (cc (ap (λ t. t.1) e))
  plan_known-Passes event (some (rep, name)) plan v q e =
      let (named, known) = known_representation-IsKnown event.representation rep name q in
      let passes : validate_source (event_source event) name ≡ none = ap (λ t. t.1) e in
      let (object, version) = (validate_iff event).0 (rw named at passes) in
      (
        rep,
        record { texts = v; object = object; version = version; known = known },
        sym (ap (λ t. t.0) e),
      )

  Passes-plan_known :
      (event : Event) (rep : ℕ)
      → Passes event rep
      → plan_known event (known_representation event.representation) ≡ (ready_plan event rep, none)
  unfolding plan_known
  Passes-plan_known event rep h =
      ap (plan_known event) (IsKnown-known_representation event.representation rep h.known)
      ∙ ap (λ t. (ready_plan event rep, t)) ((validate_iff event).1 (h.object, h.version))

  plan_ingest_cases :
      (event : Event) (fields : List Bytes) (plan : Plan)
      → plan_ingest event fields ≡ (plan, none)
      → ((writeback_only event.changed_fields fields ≡ true) × (plan ≡ skip_plan))
        ⊎ ((writeback_only event.changed_fields fields ≡ false) × IsPassedPlan event plan)
  unfolding plan_ingest
  plan_ingest_cases event fields plan e =
      elim (Bool-cases (writeback_only event.changed_fields fields)) [
        | inl w ↦ let h = rw w at e in inl (w, sym (ap (λ t. t.0) h))
        | inr n ↦
            let h = rw n at e in
            elim (Bool-cases (valid_event event)) [
              | inl v ↦
                  let g = rw v at h in
                  inr (
                    n,
                    plan_known-Passes event (known_representation event.representation) plan v refl
                        g,
                  )
              | inr x ↦ let g = rw x at h in absurd (cc (ap (λ t. t.1) g))
            ]
      ]

  plan_ingest_of :
      (event : Event) (fields : List Bytes) (plan : Plan)
      → ((writeback_only event.changed_fields fields ≡ true) × (plan ≡ skip_plan))
        ⊎ ((writeback_only event.changed_fields fields ≡ false) × IsPassedPlan event plan)
      → plan_ingest event fields ≡ (plan, none)
  unfolding plan_ingest
  plan_ingest_of event fields plan (inl (w, same)) = rw w (ap (λ t. (t, none)) (sym same))
  plan_ingest_of event fields plan (inr (n, (rep, h, same))) =
      rw (n, h.texts) (Passes-plan_known event rep h ∙ ap (λ t. (t, none)) (sym same))

  -- `plan_ingest` gives a plan without an error exactly for a write-back, where the plan is to do
  -- nothing, and for an event that names a known representation and whose texts and those of its
  -- source have 1 to 256 bytes, are UTF-8 and hold no byte 0, where the plan is to ingest under the
  -- tenant, the source and the representation of the event, with the hash of its six texts as key.
  pub plan_ingest_iff :
      (event : Event) (fields : List Bytes) (plan : Plan)
      → (plan_ingest event fields ≡ (plan, none)) ↔ (
          (IsWriteback event fields × (plan ≡ skip_plan))
          ⊎ ((¬ IsWriteback event fields) × IsReadyPlan event plan))
  plan_ingest_iff event fields plan = (to, from)
    where
      to :
          plan_ingest event fields ≡ (plan, none)
          → (IsWriteback event fields × (plan ≡ skip_plan))
            ⊎ ((¬ IsWriteback event fields) × IsReadyPlan event plan)
      to e = elim (plan_ingest_cases event fields plan e) [
        | inl (w, same) ↦ inl ((writeback_only_iff event.changed_fields fields).0 w, same)
        | inr (n, r) ↦ inr (
          λ w. cc (n, (writeback_only_iff event.changed_fields fields).1 w),
          (passed_iff event plan).0 r,
        )
      ]

      from :
          (IsWriteback event fields × (plan ≡ skip_plan))
            ⊎ ((¬ IsWriteback event fields) × IsReadyPlan event plan)
          → plan_ingest event fields ≡ (plan, none)
      from (inl (w, same)) =
          plan_ingest_of event fields plan
            (inl ((writeback_only_iff event.changed_fields fields).1 w, same))
      from (inr (n, r)) = elim (Bool-cases (writeback_only event.changed_fields fields)) [
        | inl w ↦ absurd (n ((writeback_only_iff event.changed_fields fields).0 w))
        | inr other ↦ plan_ingest_of event fields plan (inr (other, (passed_iff event plan).1 r))
      ]
