-- ===== src/Agent/Planner.antt =====
-- integrations/paperless/agent/planner.go: the ingestion that an event asks for.
pub mod Keys
pub mod Writeback
pub mod Ready
pub mod Plans
pub mod Binding
use sigmaproof.Prelude.{
  ℕ, Bool, true, false, ◌&&◌, ◌||◌, not, Option, none, some, List, [], ◌∷◌, ◌++◌, map, length, ltb,
  leb, if◌then◌else◌, ◌==◌,
}
use sigmaproof.Bytes.{Bytes, codes, bytes_equal}
use sigmaproof.Sha.{Sha256, sum}
use sigmaproof.Commitment.{original, derived}
use sigmaproof.Storage.Types.{Source}
use sigmaproof.Agent.Failures.{Failure, invalid_event}
use sigmaproof.Text.{trim_space, valid_string, contains_nul, has_suffix, hex}

abbrev pub original_upload : Bytes
original_upload = codes "original"

abbrev pub archive_output : Bytes
archive_output = codes "archive"

pub record Event : Type 0 where
  pub tenant : Bytes
  pub source_instance : Bytes
  pub document_id : Bytes
  pub version : Bytes
  pub event_id : Bytes
  pub representation : Bytes
  pub changed_fields : List Bytes

pub record Plan : Type 0 where
  pub ingest : Bool
  pub reason : Bytes
  pub tenant : Bytes
  pub idempotency_key : Bytes
  pub source : Source
  pub representation : ℕ

abbrev pub empty_source : Source
empty_source = record { source_instance = []; object = []; version = [] }

-- `Plan{}`
abbrev pub empty_plan : Plan
empty_plan = record {
  ingest = false;
  reason = [];
  tenant = [];
  idempotency_key = [];
  source = empty_source;
  representation = 0;
}

unfoldable pub valid_text : Bytes → Bool
valid_text d = ltb 0 (length d) && leb (length d) 256 && valid_string d && not (contains_nul d)

-- A look-up in the map from names to `true`.
unfoldable pub is_allowed : Bytes → List Bytes → Bool
is_allowed field [] = false
is_allowed field (a ∷ allowed) = bytes_equal a field || is_allowed field allowed

unfoldable pub all_allowed : List Bytes → List Bytes → Bool
all_allowed [] allowed = true
all_allowed (f ∷ changed) allowed = is_allowed (trim_space f) allowed && all_allowed changed allowed

unfoldable pub writeback_only : List Bytes → List Bytes → Bool
writeback_only changed evidence_fields =
    if length changed == 0 || length evidence_fields == 0
    then false
    else all_allowed changed (map trim_space evidence_fields)

-- `representation`: the number and the name of a known representation.
unfoldable pub known_representation : Bytes → Option (ℕ × Bytes)
known_representation value =
    if bytes_equal value original_upload
    then some (original, original_upload)
    else if bytes_equal value archive_output
    then some (derived, archive_output)
    else none

-- What `stableKey` writes into the hash.
unfoldable pub key_frames : List Bytes → Bytes
key_frames [] = []
key_frames (part ∷ parts) = 0 ∷ (part ++ key_frames parts)

unfoldable pub validate_source : Source → Bytes → Option Failure
validate_source source rep =
    if not (valid_text source.object)
      || not (valid_text source.version)
      || not (has_suffix source.version (58 ∷ rep))
    then some invalid_event
    else none

unfoldable pub event_source : Event → Source
event_source event = record {
  source_instance = event.source_instance;
  object = codes "paperless-document:" ++ event.document_id;
  version = event.version ++ (58 ∷ event.representation);
}

unfoldable pub valid_event : Event → Bool
valid_event event =
    valid_text event.tenant
    && valid_text event.source_instance
    && valid_text event.document_id
    && valid_text event.version
    && valid_text event.event_id

-- The arguments of `stableKey`, in their order.
abbrev pub key_parts : Event → List Bytes
key_parts event =
    event.tenant ∷ event.source_instance ∷ event.document_id ∷ event.version ∷ event.representation
    ∷ event.event_id ∷ []

module _ ⦃sha : Sha256⦄ where
  unfoldable pub stable_key : List Bytes → Bytes
  stable_key parts = hex (sum (key_frames parts))

  unfoldable pub ready_plan : Event → ℕ → Plan
  ready_plan event rep = record {
    ingest = true;
    reason = codes "selected_representation_ready";
    tenant = event.tenant;
    idempotency_key = stable_key (key_parts event);
    source = event_source event;
    representation = rep;
  }

  -- The last part of `PlanIngest`, for what `representation` found.
  unfoldable pub plan_known : Event → Option (ℕ × Bytes) → Plan × Option Failure
  plan_known event none = (empty_plan, some invalid_event)
  plan_known event (some (rep, source_rep)) =
      (ready_plan event rep, validate_source (event_source event) source_rep)

  -- A plan with an error, which may come with a plan that is not empty.
  unfoldable pub plan_ingest : Event → List Bytes → Plan × Option Failure
  plan_ingest event evidence_fields =
      if writeback_only event.changed_fields evidence_fields
      then (record empty_plan { reason = codes "evidence_writeback_only" }, none)
      else if not (valid_event event)
      then (empty_plan, some invalid_event)
      else plan_known event (known_representation event.representation)
