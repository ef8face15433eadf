-- ===== src/Agent/Reconcile/Passes.antt =====
-- One pass of the reconciler: every event is handled, in order, and every result is counted.
use sigmaproof.Prelude.{
  ℕ, suc, ◌+◌, ◌≡◌, refl, ap, sym, ◌∙◌, Bool, true, false, not, ◌&&◌, none, some, List, [], ◌∷◌,
  ◌++◌, map, length, length-append, if◌then◌else◌, ok, err, arith, append-nil, append_assoc,
}
use mathlib.Core.Path.{subst}
use sigmaproof.Sha.{Sha256}
use sigmaproof.Agent.Failures.{Failure, Attempt}
use sigmaproof.Agent.Planner.{Event}
use sigmaproof.Agent.Runner.{Runner, Handled, handle}
use sigmaproof.Agent.Reconcile.{
  EventSource, Reconciler, ReconcileItem, ReconcileReport, empty_report, make_item, count,
  append_item, list_limit, run_events, run_listed, run_limited, run,
}

abbrev pub has_failed : ReconcileItem → Bool
has_failed item = elim item.failure [ none ↦ false | some e ↦ true ]

abbrev pub was_skipped : ReconcileItem → Bool
was_skipped item = not (has_failed item) && item.skipped

abbrev pub was_created : ReconcileItem → Bool
was_created item = not (has_failed item) && not item.skipped && item.created

abbrev pub was_existing : ReconcileItem → Bool
was_existing item = not (has_failed item) && not item.skipped && not item.created

-- How many items pass a test.
abbrev pub tally : (ReconcileItem → Bool) → List ReconcileItem → ℕ
tally p [] = 0
tally p (item ∷ items) = if p item then suc (tally p items) else tally p items

-- A report grew by the given items, each in the counter of its kind.
pub record Grew (before after : ReconcileReport) (added : List ReconcileItem) : Type 0 where
  pub all_items : after.items ≡ before.items ++ added
  pub all_processed : after.processed ≡ before.processed + length added
  pub all_created : after.created ≡ before.created + tally was_created added
  pub all_existing : after.existing ≡ before.existing + tally was_existing added
  pub all_skipped : after.skipped ≡ before.skipped + tally was_skipped added
  pub all_failed : after.failed ≡ before.failed + tally has_failed added

Grew-nil : (report : ReconcileReport) → Grew report report []
Grew-nil report = record {
  all_items = sym (append-nil report.items);
  all_processed = omega arith;
  all_created = omega arith;
  all_existing = omega arith;
  all_skipped = omega arith;
  all_failed = omega arith;
}

abbrev one_more : Event → Attempt Handled → ReconcileReport → ReconcileReport
one_more event r report = append_item (make_item event r) (count r report)

Grew-one :
    (event : Event) (r : Attempt Handled) (report : ReconcileReport)
    → Grew report (one_more event r report) (make_item event r ∷ [])
unfolding append_item make_item count
Grew-one event (err e) report = ground arith
Grew-one event (ok result) report = ground arith

tally-append :
    (p : ReconcileItem → Bool) (a b : List ReconcileItem) → tally p (a ++ b) ≡ tally p a + tally p b
tally-append p [] b = omega arith
tally-append p (x ∷ a) b = ground (arith, tally-append p a b)

Grew-trans :
    (r s t : ReconcileReport) (a b : List ReconcileItem)
    → Grew r s a
    → Grew s t b
    → Grew r t (a ++ b)
Grew-trans r s t a b g h = record {
  all_items = h.all_items ∙ ap (λ l. l ++ b) g.all_items ∙ append_assoc r.items a b;
  all_processed = omega (arith, length-append a b, g.all_processed, h.all_processed);
  all_created = omega (arith, tally-append was_created a b, g.all_created, h.all_created);
  all_existing = omega (arith, tally-append was_existing a b, g.all_existing, h.all_existing);
  all_skipped = omega (arith, tally-append was_skipped a b, g.all_skipped, h.all_skipped);
  all_failed = omega (arith, tally-append has_failed a b, g.all_failed, h.all_failed);
}

-- A list of items has every item in just one of the four kinds.
tally_kinds :
    (items : List ReconcileItem)
    → tally was_created items
        + tally was_existing items
        + tally was_skipped items
        + tally has_failed items
      ≡ length items
tally_kinds [] = omega arith
tally_kinds (x ∷ items) = ground (arith, tally_kinds items)

module _ ⦃sha : Sha256⦄ {W : Type 0} where
  -- The items of a pass: each event is handled in the world that the one before it left, whether
  -- that one failed or not.
  pub data Pass (runner : Runner W) : W → List Event → List ReconcileItem → W → Type 0 where
    done : (w : W) → Pass runner w [] [] w
    handle_result :
        {w : W} {event : Event} {result : Handled} {w1 : W} {events : List Event}
        {items : List ReconcileItem} {w' : W}
        → handle runner event w ≡ (ok result, w1)
        → Pass runner w1 events items w'
        → Pass runner w
            (event ∷ events)
            (record {
              event = event;
              evidence_id = result.evidence_id;
              created = result.created;
              skipped = result.skipped;
              failure = none;
            }
              ∷ items)
            w'
    handle_error :
        {w : W} {event : Event} {e : Failure} {w1 : W} {events : List Event}
        {items : List ReconcileItem} {w' : W}
        → handle runner event w ≡ (err e, w1)
        → Pass runner w1 events items w'
        → Pass runner w
            (event ∷ events)
            (record {
              event = event;
              evidence_id = [];
              created = false;
              skipped = false;
              failure = some e;
            }
              ∷ items)
            w'

  Pass-handled :
      {runner : Runner W} {w : W} {event : Event} {events : List Event} {items : List ReconcileItem}
      {w' : W} (r : Attempt Handled) (w1 : W)
      → handle runner event w ≡ (r, w1)
      → Pass runner w1 events items w'
      → Pass runner w (event ∷ events) (make_item event r ∷ items) w'
  unfolding make_item
  Pass-handled (ok result) w1 h rest = handle_result h rest
  Pass-handled (err e) w1 h rest = handle_error h rest

  run_events-Pass :
      (runner : Runner W) (events : List Event) (report : ReconcileReport) (w : W)
      → (items : List ReconcileItem) × Pass runner w events items
          (run_events runner events report w).1
        × Grew report (run_events runner events report w).0 items
  unfolding run_events
  run_events-Pass runner [] report w = ([], done w, Grew-nil report)
  run_events-Pass runner (event ∷ events) report w =
      let (r, w') = handle runner event w in
      let next = one_more event r report in
      let (items, pass, grew) = run_events-Pass runner events next w' in
      (
        make_item event r ∷ items,
        Pass-handled r w' refl pass,
        Grew-trans report next (run_events runner events next w').0 (make_item event r ∷ []) items
            (Grew-one event r report) grew,
      )

  -- One item for each event, in the order of the events.
  Pass-events :
      {runner : Runner W} {w w' : W} {events : List Event} {items : List ReconcileItem}
      → Pass runner w events items w'
      → map (λ item. item.event) items ≡ events
  Pass-events (done w) = refl
  Pass-events {events = event ∷ _} (handle_result h rest) = ap (λ es. event ∷ es) (Pass-events rest)
  Pass-events {events = event ∷ _} (handle_error h rest) = ap (λ es. event ∷ es) (Pass-events rest)

  -- What a report says of a pass from one world to another.
  pub record Reports (runner : Runner W) (w : W) (events : List Event) (report : ReconcileReport)
      (w' : W) : Type 0 where
    pub pass : Pass runner w events report.items w'
    pub of_events : map (λ item. item.event) report.items ≡ events
    pub grew : Grew empty_report report report.items
    pub sum_of_kinds :
        report.created + report.existing + report.skipped + report.failed ≡ report.processed

  run_events-Reports :
      (runner : Runner W) (events : List Event) (w : W)
      → Reports runner w events
          (run_events runner events empty_report w).0
          (run_events runner events empty_report w).1
  run_events-Reports runner events w =
      let (items, pass, grew) = run_events-Pass runner events empty_report w in
      let (report, w') = run_events runner events empty_report w in
      let all : report.items ≡ items = grew.all_items in
      let pass' : Pass runner w events report.items w' =
        subst (λ l. Pass runner w events l w') (sym all) pass in
      record {
        pass = pass';
        of_events = Pass-events pass';
        grew = subst (Grew empty_report report) (sym all) grew;
        sum_of_kinds = omega (
          arith,
          tally_kinds items,
          grew.all_processed,
          grew.all_created,
          grew.all_existing,
          grew.all_skipped,
          grew.all_failed,
        );
      }

  -- With a source, a limit that is not negative, and a source that lists its events, a pass never
  -- fails as a whole, whatever happens to single events. Its report has one item for each listed
  -- event, in their order, each with the evidence id and the flags that handling that event
  -- gave in the world that the event before left, or with the error; the counters are the numbers of items of their kind, and add up to those processed.
  pub run-Reports :
      (r : Reconciler W) (list_ready : EventSource W) (limit : ℕ) (events : List Event) (w w1 : W)
      → r.source ≡ some list_ready
      → list_limit r.limit ≡ some limit
      → list_ready limit w ≡ (ok events, w1)
      → (report : ReconcileReport) × (w2 : W) × (run r w ≡ (ok report, w2))
        × Reports r.runner w1 events report w2
  unfolding run run_limited run_listed
  run-Reports r list_ready limit events w w1 e f g = (
    (run_events r.runner events empty_report w1).0,
    (run_events r.runner events empty_report w1).1,
    rw (e, f, g),
    run_events-Reports r.runner events w1,
  )
