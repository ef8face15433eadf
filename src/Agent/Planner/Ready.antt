-- ===== src/Agent/Planner/Ready.antt =====
-- When an event is ready to be ingested, and the plan for it.
use sigmaproof.Prelude.{
  ◌<◌, ◌≤◌, [], All, append-nil, ℕ, ◌≡◌, ◌⊎◌, ◌↔◌, ap, sym, ◌∙◌, true, false, List, ◌∷◌, ◌++◌,
  arith, length,
}
use sigmaproof.Bytes.{Bytes, codes}
use sigmaproof.Sha.{Sha256, sum}
use sigmaproof.Commitment.{original, derived}
use sigmaproof.Text.{valid_string, contains_nul, hex}
use sigmaproof.Storage.Types.{Source}
use sigmaproof.Agent.Planner.Writeback.{IsAmong}
use sigmaproof.Agent.Planner.{
  Event, Plan, original_upload, archive_output, valid_text, valid_event, event_source, ready_plan,
  key_parts, key_frames, stable_key,
}

-- A text that the planner takes.
pub record IsText (d : Bytes) : Type 0 where
  pub nonempty : 0 < length d
  pub short : length d ≤ 256
  pub unicode : valid_string d ≡ true
  pub no_nul : contains_nul d ≡ false

valid_text_iff : (d : Bytes) → (valid_text d ≡ true) ↔ IsText d
unfolding valid_text
valid_text_iff d = (
  λ e. record {
    nonempty = ground (arith, e);
    short = ground (arith, e);
    unicode = ground (arith, e);
    no_nul = ground (arith, e);
  },
  λ h. ground (arith, h.nonempty, h.short, h.unicode, h.no_nul),
)

-- The source that an event stands for; 58 is the code of a colon.
abbrev pub source_of : Event → Source
source_of event = record {
  source_instance = event.source_instance;
  object = codes "paperless-document:" ++ event.document_id;
  version = event.version ++ (58 ∷ event.representation);
}

-- An event whose plan is to ingest: its texts and those of its source can be taken, and it names
-- the original, whose number is 1, or the archive, which is derived and has the number 2.
pub record IsReady (event : Event) (rep : ℕ) : Type 0 where
  pub tenant_text : IsText event.tenant
  pub instance_text : IsText event.source_instance
  pub document_text : IsText event.document_id
  pub version_text : IsText event.version
  pub event_text : IsText event.event_id
  pub object_text : IsText (source_of event).object
  pub source_version_text : IsText (source_of event).version
  pub known :
      ((event.representation ≡ codes "original") × (rep ≡ 1))
      ⊎ ((event.representation ≡ codes "archive") × (rep ≡ 2))

-- The tests of the code for it.
pub record Passes (event : Event) (rep : ℕ) : Type 0 where
  pub texts : valid_event event ≡ true
  pub object : valid_text (event_source event).object ≡ true
  pub version : valid_text (event_source event).version ≡ true
  pub known :
      ((event.representation ≡ original_upload) × (rep ≡ original))
      ⊎ ((event.representation ≡ archive_output) × (rep ≡ derived))

Passes-IsReady : (event : Event) (rep : ℕ) → Passes event rep → IsReady event rep
unfolding valid_event event_source
Passes-IsReady event rep h = record {
  tenant_text = (valid_text_iff event.tenant).0 (ground (arith, h.texts));
  instance_text = (valid_text_iff event.source_instance).0 (ground (arith, h.texts));
  document_text = (valid_text_iff event.document_id).0 (ground (arith, h.texts));
  version_text = (valid_text_iff event.version).0 (ground (arith, h.texts));
  event_text = (valid_text_iff event.event_id).0 (ground (arith, h.texts));
  object_text = (valid_text_iff _).0 h.object;
  source_version_text = (valid_text_iff _).0 h.version;
  known = h.known;
}

IsReady-Passes : (event : Event) (rep : ℕ) → IsReady event rep → Passes event rep
unfolding valid_event event_source
IsReady-Passes event rep h = record {
  texts = ground (
    arith,
    (valid_text_iff event.tenant).1 h.tenant_text,
    (valid_text_iff event.source_instance).1 h.instance_text,
    (valid_text_iff event.document_id).1 h.document_text,
    (valid_text_iff event.version).1 h.version_text,
    (valid_text_iff event.event_id).1 h.event_text,
  );
  object = (valid_text_iff _).1 h.object_text;
  version = (valid_text_iff _).1 h.source_version_text;
  known = h.known;
}

-- The plan of a write-back.
abbrev pub skip_plan : Plan
skip_plan = record {
  ingest = false;
  reason = codes "evidence_writeback_only";
  tenant = [];
  idempotency_key = [];
  source = record { source_instance = []; object = []; version = [] };
  representation = 0;
}

-- Some field changed, and every changed field is among the evidence fields.
abbrev pub IsWriteback : Event → List Bytes → Type 0
IsWriteback event fields =
    (0 < length event.changed_fields) × All (IsAmong fields) event.changed_fields

-- What is hashed for the idempotency key: six texts, each behind a byte 0.
abbrev pub key_bytes : Event → Bytes
key_bytes event =
    0
    ∷ (event.tenant
        ++ (0
            ∷ (event.source_instance
                ++ (0
                    ∷ (event.document_id
                        ++ (0
                            ∷ (event.version
                                ++ (0 ∷ (event.representation ++ (0 ∷ event.event_id))))))))))

module _ ⦃sha : Sha256⦄ where
  -- The plan to ingest an event with a representation.
  abbrev pub plan_for : Event → ℕ → Plan
  plan_for event rep = record {
    ingest = true;
    reason = codes "selected_representation_ready";
    tenant = event.tenant;
    idempotency_key = hex (sum (key_bytes event));
    source = source_of event;
    representation = rep;
  }

  pub stable_key-key_parts :
      (event : Event) → stable_key (key_parts event) ≡ hex (sum (key_bytes event))
  unfolding stable_key key_frames
  stable_key-key_parts event =
      ap
        (λ t. hex (
          sum (
            0
            ∷ (event.tenant
                ++ (0
                    ∷ (event.source_instance
                        ++ (0
                            ∷ (event.document_id
                                ++ (0
                                    ∷ (event.version
                                        ++ (0 ∷ (event.representation ++ (0 ∷ t)))))))))))))
        (append-nil event.event_id)

  ready_plan-plan_for : (event : Event) (rep : ℕ) → ready_plan event rep ≡ plan_for event rep
  unfolding ready_plan event_source
  ready_plan-plan_for event rep =
      ap (λ t. record (plan_for event rep) { idempotency_key = t }) (stable_key-key_parts event)

  -- The plan to ingest a ready event.
  abbrev pub IsReadyPlan : Event → Plan → Type 0
  IsReadyPlan event plan = (rep : ℕ) × IsReady event rep × (plan ≡ plan_for event rep)

  -- As the code makes it.
  abbrev pub IsPassedPlan : Event → Plan → Type 0
  IsPassedPlan event plan = (rep : ℕ) × Passes event rep × (plan ≡ ready_plan event rep)

  pub passed_iff : (event : Event) (plan : Plan) → IsPassedPlan event plan ↔ IsReadyPlan event plan
  passed_iff event plan = (
    λ (rep, h, same). (rep, Passes-IsReady event rep h, same ∙ ready_plan-plan_for event rep),
    λ (rep, h, same). (rep, IsReady-Passes event rep h, same ∙ sym (ready_plan-plan_for event rep)),
  )
