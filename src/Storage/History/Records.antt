-- ===== src/Storage/History/Records.antt =====
-- The records that a call returns are still there behind all later calls.
use sigmaproof.Prelude.{◌≡◌, ap, sym, ◌∙◌, true, false, not, ◌||◌, ok, >>=-eq-ok}
use sigmaproof.Bytes.{Bytes}
use sigmaproof.Sha.{Sha256}
use sigmaproof.Storage.Types.{Evidence, FrozenBatch, valid_text, valid_id, invalid}
use sigmaproof.Storage.Bolt.{Bolt, Database}
use sigmaproof.Storage.Records.{Json, tenant, evidence, frozen, all_ids}
use sigmaproof.Storage.Export.{get_evidence}
use sigmaproof.Storage.Tenants.{tenant_read, tenant_mono}
use sigmaproof.Storage.State.{evidence-view, frozen-view}
use sigmaproof.Storage.Reading.{guard_inv}
use sigmaproof.Storage.Persist.{KeptEvidence, KeptBatch}
use sigmaproof.Storage.History.{Reaches, Reaches-Keeps}

module _ ⦃bolt : Bolt⦄ ⦃json : Json⦄ ⦃sha : Sha256⦄ where
  -- A tenant that opened opens behind any calls.
  pub tenant_reached :
      (name : Bytes) (db db' : Database)
      → Reaches db db'
      → tenant db name false ≡ ok db
      → tenant db' name false ≡ ok db'
  tenant_reached name db db' r h = tenant_mono name db db' (Reaches-Keeps db db' r).buckets h

  pub evidence_reached :
      (name id : Bytes) (e : Evidence) (db db' : Database)
      → Reaches db db'
      → evidence db name id ≡ ok e
      → (e' : Evidence) × (evidence db' name id ≡ ok e') × KeptEvidence e e'
  evidence_reached name id e db db' r h =
      let keeps = (Reaches-Keeps db db' r).records name in
      let (e', there, kept) = keeps.evidence_kept id e (sym (evidence-view db name id) ∙ h) in
      (e', evidence-view db' name id ∙ there, kept)

  pub frozen_reached :
      (name id : Bytes) (b : FrozenBatch) (db db' : Database)
      → Reaches db db'
      → frozen db name id ≡ ok b
      → all_ids b.evidence_ids ≡ true
      → (b' : FrozenBatch) × (frozen db' name id ≡ ok b') × KeptBatch b b'
  frozen_reached name id b db db' r h all =
      let keeps = (Reaches-Keeps db db' r).records name in
      let (b', there, kept) = keeps.batch_kept id b (sym (frozen-view db name id) ∙ h) all in
      (b', frozen-view db' name id ∙ there, kept)

  -- A record that can be read can be read behind any later calls of any tenants: it is the same, but
  -- that, where it had no batch, it may have been bound to one, and once.
  pub get_evidence-Reaches :
      (name id : Bytes) (e : Evidence) (db db' : Database)
      → Reaches db db'
      → get_evidence name id db ≡ ok e
      → (e' : Evidence) × (get_evidence name id db' ≡ ok e') × KeptEvidence e e'
  unfolding get_evidence
  get_evidence-Reaches name id e db db' r h =
      let (valid, g) = guard_inv (not (valid_text name) || not (valid_id id)) invalid _ e h in
      let (tx, opened, g1) = >>=-eq-ok (tenant db name false) _ g in
      let same = tenant_read name db tx opened in
      let there = tenant_reached name db db' r (opened ∙ ap ok (sym same)) in
      let (e', stored, kept) =
        evidence_reached name id e db db' r (ap (λ t. evidence t name id) same ∙ g1) in
      (e', rw (valid, there) stored, kept)
