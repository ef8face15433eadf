-- ===== src/Agent/Reconcile.antt =====
-- integrations/paperless/agent/reconcile.go: one pass over the events that are ready.
pub mod Passes
use sigmaproof.Prelude.{
  ℕ, zero, suc, ◌+◌, Bool, true, false, Option, none, some, List, [], ◌∷◌, ◌++◌, if◌then◌else◌, ok,
  err, ℤ, pos, negsuc,
}
use sigmaproof.Bytes.{Bytes}
use sigmaproof.Sha.{Sha256}
use sigmaproof.Agent.Failures.{Failure, Attempt, reconciler_not_configured}
use sigmaproof.Agent.Planner.{Event}
use sigmaproof.Agent.Runner.{Runner, Handled, handle}

abbrev pub default_reconcile_limit : ℕ
default_reconcile_limit = 1024

-- `EventSource`: `ListReady`, which may change the world.
abbrev pub EventSource : Type 0 → Type 0
EventSource W = ℕ → W → Attempt (List Event) × W

pub record Reconciler (W : Type 0) : Type 0 where
  pub source : Option (EventSource W)
  pub runner : Runner W
  pub limit : ℤ

-- `failure` is the error whose text the source keeps, none where the text is empty.
pub record ReconcileItem : Type 0 where
  pub event : Event
  pub evidence_id : Bytes
  pub created : Bool
  pub skipped : Bool
  pub failure : Option Failure

pub record ReconcileReport : Type 0 where
  pub processed : ℕ
  pub created : ℕ
  pub existing : ℕ
  pub skipped : ℕ
  pub failed : ℕ
  pub items : List ReconcileItem

abbrev pub empty_report : ReconcileReport
empty_report = record {
  processed = 0;
  created = 0;
  existing = 0;
  skipped = 0;
  failed = 0;
  items = [];
}

unfoldable pub make_item : Event → Attempt Handled → ReconcileItem
make_item event (err e) = record {
  event = event;
  evidence_id = [];
  created = false;
  skipped = false;
  failure = some e;
}
make_item event (ok result) = record {
  event = event;
  evidence_id = result.evidence_id;
  created = result.created;
  skipped = result.skipped;
  failure = none;
}

-- The one counter that a result adds to.
unfoldable pub count : Attempt Handled → ReconcileReport → ReconcileReport
count (err e) report = record report { failed = report.failed + 1 }
count (ok result) report =
    if result.skipped
    then record report { skipped = report.skipped + 1 }
    else if result.created
    then record report { created = report.created + 1 }
    else record report { existing = report.existing + 1 }

-- The end of the loop's body.
unfoldable pub append_item : ReconcileItem → ReconcileReport → ReconcileReport
append_item item report = record report {
  processed = report.processed + 1;
  items = report.items ++ (item ∷ []);
}

-- The limit in force; none where it is negative.
unfoldable pub list_limit : ℤ → Option ℕ
list_limit (negsuc n) = none
list_limit (pos zero) = some default_reconcile_limit
list_limit (pos (suc n)) = some (suc n)

module _ ⦃sha : Sha256⦄ {W : Type 0} where
  unfoldable pub run_events : Runner W → List Event → ReconcileReport → W → ReconcileReport × W
  run_events runner [] report w = (report, w)
  run_events runner (event ∷ events) report w =
      let (result, w') = handle runner event w in
      run_events runner events (append_item (make_item event result) (count result report)) w'

  unfoldable pub run_listed : Runner W → Attempt (List Event) → W → Attempt ReconcileReport × W
  run_listed runner (err e) w = (err e, w)
  run_listed runner (ok events) w =
      let (report, w') = run_events runner events empty_report w in (ok report, w')

  unfoldable pub run_limited : EventSource W → Runner W → Option ℕ → W → Attempt ReconcileReport × W
  run_limited list_ready runner none w = (err reconciler_not_configured, w)
  run_limited list_ready runner (some limit) w =
      let (events, w') = list_ready limit w in run_listed runner events w'

  unfoldable pub run : Reconciler W → W → Attempt ReconcileReport × W
  run r w = elim r.source [
    | none ↦ (err reconciler_not_configured, w)
    | some list_ready ↦ run_limited list_ready r.runner (list_limit r.limit) w
  ]
