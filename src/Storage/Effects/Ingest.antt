-- ===== src/Storage/Effects/Ingest.antt =====
-- Ingest: a record that is known keeps its place, or a new one is written.
use mathlib.Core.Path.{subst}
use sigmaproof.Prelude.{
  ℕ, ◌+◌, ◌%◌, ◌^◌, ◌<◌, ◌≡◌, ◌⊎◌, refl, ap, sym, ◌∙◌, true, false, not, ◌||◌, Option, none, some,
  List, ◌==◌, ok, >>=-eq-ok, ok-injective, arith, inl, inr,
}
use sigmaproof.Bytes.{Bytes}
use sigmaproof.Sha.{Sha256}
use sigmaproof.Storage.Types.{
  Evidence, IngestRequest, corrupt, conflict, valid_id, source_equal, witness_equal,
}
use sigmaproof.Storage.Bolt.{Bolt, Database, bolt_put}
use sigmaproof.Storage.Records.{
  Json, bucket_path, evidence_bucket, keys_bucket, sources_bucket, pending_bucket, sequence_key,
  new_id, tenant, evidence,
}
use sigmaproof.Storage.Ingest.{
  or_else, Ingestion, ingest_known, new_evidence, write_new, ingest_sequenced, ingest_new,
  ingest_at, ingest_tx, known_id,
}
use sigmaproof.Storage.View.{
  View, view, write, Changes, Changes-trans, put-Changes, sequence-Changes,
}
use sigmaproof.Storage.Tenants.{tenant-Changes}
use sigmaproof.Storage.State.{evidence_at, evidence-view}
use sigmaproof.Storage.Reading.{guard_inv}
use sigmaproof.Storage.Draws.{IsDraws, new_id-fresh}

module _ ⦃json : Json⦄ where
  -- The four writes of a new record.
  abbrev pub write_record : IngestRequest → Evidence → View → View
  write_record req e v = write pending_bucket (sequence_key e.sequence) (some e.id) (
      write sources_bucket (json.source_key req.source req.witness.representation) (some e.id) (
        write keys_bucket req.key (some e.id)
          (write evidence_bucket e.id (some (json.evidence_data e)) v)))

module _ ⦃bolt : Bolt⦄ ⦃json : Json⦄ ⦃sha : Sha256⦄ where
  -- A retry: the record was there, with the same source and witness.
  pub record Known (req : IngestRequest) (db db' : Database) (r : Ingestion) : Type 0 where
    pub id : Bytes
    pub there : evidence_at (view db req.tenant) id ≡ ok r.0
    pub not_new : r.1 ≡ false
    pub same_source : source_equal r.0.source req.source ≡ true
    pub same_witness : witness_equal r.0.witness req.witness ≡ true
    pub effect : Changes req.tenant db db' (write keys_bucket req.key (some r.0.id))

  -- A new record, under an id that was free, with the next sequence number.
  pub record Fresh (req : IngestRequest) (db db' : Database) (r : Ingestion) : Type 0 where
    pub id : Bytes
    pub sequence : ℕ
    pub made : (new_evidence req id sequence, true) ≡ r
    pub free : (view db req.tenant).cell evidence_bucket id ≡ none
    pub id_digits : valid_id id ≡ true
    pub next : sequence ≡ ((view db req.tenant).last + 1) % 2 ^ 64
    pub positive : 0 < sequence
    pub unknown_key : (view db req.tenant).cell keys_bucket req.key ≡ none
    pub unknown_source :
        (view db req.tenant).cell sources_bucket
          (json.source_key req.source req.witness.representation)
        ≡ none
    pub effect :
        Changes req.tenant db db'
          (λ v. write_record req (new_evidence req id sequence) (record v { last = sequence }))

  write_new-Changes :
      (req : IngestRequest) (tx tx' : Database) (e : Evidence) (r : Ingestion)
      → write_new tx req e ≡ ok (r, tx')
      → ((e, true) ≡ r) × Changes req.tenant tx tx' (write_record req e)
  unfolding write_new
  write_new-Changes req tx tx' e r h =
      let n = req.tenant in
      let key = json.source_key req.source req.witness.representation in
      let (tx1, w1, r1) =
        >>=-eq-ok (bolt_put tx (bucket_path n evidence_bucket) e.id (json.evidence_data e)) _ h in
      let (tx2, w2, r2) = >>=-eq-ok (bolt_put tx1 (bucket_path n keys_bucket) req.key e.id) _ r1 in
      let (tx3, w3, r3) = >>=-eq-ok (bolt_put tx2 (bucket_path n sources_bucket) key e.id) _ r2 in
      let (tx4, w4, r4) =
        >>=-eq-ok (bolt_put tx3 (bucket_path n pending_bucket) (sequence_key e.sequence) e.id) _
          r3 in
      let done = ok-injective r4 in
      let all =
        Changes-trans n tx tx3 tx4 _ _
          (Changes-trans n tx tx2 tx3 _ _
            (Changes-trans n tx tx1 tx2 _ _
              (put-Changes n evidence_bucket e.id (json.evidence_data e) tx tx1 w1)
              (put-Changes n keys_bucket req.key e.id tx1 tx2 w2))
            (put-Changes n sources_bucket key e.id tx2 tx3 w3))
          (put-Changes n pending_bucket (sequence_key e.sequence) e.id tx3 tx4 w4) in
      (
        ap (λ (t : Ingestion × Database). t.0) done,
        subst (λ t. Changes n tx t (write_record req e))
            (ap (λ (t : Ingestion × Database). t.1) done) all,
      )

  or_else-none : (a b : Option Bytes) → or_else a b ≡ none → (a ≡ none) × (b ≡ none)
  or_else-none none b h = (refl, h)
  or_else-none (some x) b h = cc

  ingest_sequenced-Fresh :
      (req : IngestRequest) (tx tx' : Database) (id : Bytes) (o : Option (ℕ × Database))
      (r : Ingestion)
      → o ≡ bolt.next_sequence tx (bucket_path req.tenant evidence_bucket)
      → (view tx req.tenant).cell evidence_bucket id ≡ none
      → valid_id id ≡ true
      → (view tx req.tenant).cell keys_bucket req.key ≡ none
      → (view tx req.tenant).cell sources_bucket
          (json.source_key req.source req.witness.representation)
        ≡ none
      → ingest_sequenced req id o ≡ ok (r, tx')
      → Fresh req tx tx' r
  unfolding ingest_sequenced
  ingest_sequenced-Fresh req tx tx' id none r s free digits key source h = cc
  ingest_sequenced-Fresh req tx tx' id (some (n, tx1)) r s free digits key source h =
      let (positive, g) = guard_inv (n == 0) corrupt _ (r, tx') h in
      let (next, counted) = sequence-Changes req.tenant tx tx1 n (sym s) in
      let (made, written) = write_new-Changes req tx1 tx' (new_evidence req id n) r g in
      record {
        id = id;
        sequence = n;
        made = made;
        free = free;
        id_digits = digits;
        next = next;
        positive = ground (arith, positive);
        unknown_key = key;
        unknown_source = source;
        effect = Changes-trans req.tenant tx tx1 tx' _ _ counted written;
      }

  ingest_known-Known :
      (req : IngestRequest) (tx tx' : Database) (id : Bytes) (e : Evidence) (r : Ingestion)
      → evidence_at (view tx req.tenant) id ≡ ok e
      → ingest_known tx req e ≡ ok (r, tx')
      → Known req tx tx' r
  unfolding ingest_known
  ingest_known-Known req tx tx' id e r there h =
      let (same, g) =
        guard_inv
          (not (source_equal e.source req.source) || not (witness_equal e.witness req.witness))
          conflict _ (r, tx') h in
      let (tx1, w, g1) =
        >>=-eq-ok (bolt_put tx (bucket_path req.tenant keys_bucket) req.key e.id) _ g in
      let done = ok-injective g1 in
      let is_e : e ≡ r.0 = ap (λ (t : Ingestion × Database). t.0.0) done in
      record {
        id = id;
        there = there ∙ ap ok is_e;
        not_new = sym (ap (λ (t : Ingestion × Database). t.0.1) done);
        same_source =
            subst (λ (t : Evidence). source_equal t.source req.source ≡ true) is_e
              (ground (arith, same));
        same_witness =
            subst (λ (t : Evidence). witness_equal t.witness req.witness ≡ true) is_e
              (ground (arith, same));
        effect =
            subst
              (λ (t : Evidence). Changes req.tenant tx tx' (write keys_bucket req.key (some t.id)))
              is_e
              (subst (λ t. Changes req.tenant tx t (write keys_bucket req.key (some e.id)))
                (ap (λ (t : Ingestion × Database). t.1) done)
                (put-Changes req.tenant keys_bucket req.key e.id tx tx1 w));
      }

  ingest_at-effect :
      (draws : List (Option Bytes)) (req : IngestRequest) (tx tx' : Database) (o : Option Bytes)
      (r : Ingestion)
      → IsDraws draws
      → o ≡ known_id tx req.tenant req.key req.source req.witness.representation
      → ingest_at draws tx req o ≡ ok (r, tx')
      → Known req tx tx' r ⊎ Fresh req tx tx' r
  unfolding ingest_at ingest_new known_id
  ingest_at-effect draws req tx tx' none r d s h =
      let (key, source) = or_else-none _ _ (sym s) in
      let (id, drawn, g) =
        >>=-eq-ok (new_id draws (bolt.get tx (bucket_path req.tenant evidence_bucket))) _ h in
      let (free, digits) = new_id-fresh draws _ id d drawn in
      inr (ingest_sequenced-Fresh req tx tx' id _ r refl free digits key source g)
  ingest_at-effect draws req tx tx' (some id) r d s h =
      let (e, there, g) = >>=-eq-ok (evidence tx req.tenant id) _ h in
      inl (ingest_known-Known req tx tx' id e r (sym (evidence-view tx req.tenant id) ∙ there) g)

  Known-or_Fresh :
      (req : IngestRequest) (s t u : Database) (r : Ingestion)
      → Changes req.tenant s t (λ v. v)
      → Known req t u r ⊎ Fresh req t u r
      → Known req s u r ⊎ Fresh req s u r
  Known-or_Fresh req s t u r c (inl k) = inl (record {
    id = k.id;
    not_new = k.not_new;
    same_source = k.same_source;
    same_witness = k.same_witness;
    there = ap (λ v. evidence_at v k.id) (sym c.here) ∙ k.there;
    effect = Changes-trans req.tenant s t u _ _ c k.effect;
  })
  Known-or_Fresh req s t u r c (inr k) = inr (record {
    id = k.id;
    sequence = k.sequence;
    made = k.made;
    id_digits = k.id_digits;
    positive = k.positive;
    free = ap (λ v. v.cell evidence_bucket k.id) (sym c.here) ∙ k.free;
    next = k.next ∙ ap (λ v. (v.last + 1) % 2 ^ 64) c.here;
    unknown_key = ap (λ v. v.cell keys_bucket req.key) (sym c.here) ∙ k.unknown_key;
    unknown_source =
        ap (λ v. v.cell sources_bucket (json.source_key req.source req.witness.representation))
          (sym c.here)
        ∙ k.unknown_source;
    effect = Changes-trans req.tenant s t u _ _ c k.effect;
  })

  -- A call that succeeds found the record, or made it.
  pub ingest_tx-effect :
      (draws : List (Option Bytes)) (req : IngestRequest) (db db' : Database) (r : Ingestion)
      → IsDraws draws
      → ingest_tx draws req db ≡ ok (r, db')
      → Known req db db' r ⊎ Fresh req db db' r
  unfolding ingest_tx
  ingest_tx-effect draws req db db' r d h =
      let (tx, opened, g) = >>=-eq-ok (tenant db req.tenant true) _ h in
      Known-or_Fresh req db tx db' r (tenant-Changes req.tenant true db tx opened)
        (ingest_at-effect draws req tx db' _ r d refl g)
