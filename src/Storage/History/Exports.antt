-- ===== src/Storage/History/Exports.antt =====
-- A package that was exported is exported again.
use mathlib.Core.Path.{subst}
use sigmaproof.Prelude.{
  ℕ, ◌+◌, ◌≡◌, refl, ap, sym, ◌∙◌, true, false, not, ◌||◌, List, [], ◌∷◌, length, get_elem?, ◌==◌,
  ok, >>=-eq-ok, ok-injective, inl, inr, arith,
}
use sigmaproof.Bytes.{Bytes}
use sigmaproof.Sha.{Sha256}
use sigmaproof.Commitment.{Digest, compute}
use sigmaproof.Package.{Package}
use sigmaproof.Storage.Types.{
  Evidence, FrozenBatch, valid_text, valid_id, invalid, not_batched, corrupt,
}
use sigmaproof.Storage.Bolt.{Bolt, Database}
use sigmaproof.Storage.Records.{Json, tenant, evidence, frozen, all_ids, or_corrupt}
use sigmaproof.Storage.Submit.{with_submission}
use sigmaproof.Storage.Export.{
  is_member_at, check_member, entries_from, build_package, package_in, package_of,
  unanchored_package,
}
use sigmaproof.Storage.Export.Members.{entries_from_cons}
use sigmaproof.Storage.Tenants.{tenant_read}
use sigmaproof.Storage.State.{evidence-view, frozen-view}
use sigmaproof.Storage.Reading.{guard_inv, evidence_of-IsRecord, batch_of-IsBatch}
use sigmaproof.Storage.Persist.{KeptEvidence, KeptBatch}
use sigmaproof.Storage.History.{Reaches}
use sigmaproof.Storage.History.Records.{tenant_reached, evidence_reached, frozen_reached}

kept_batched : (e e' : Evidence) → (length e.batch_id == 0) ≡ false → KeptEvidence e e' → e ≡ e'
kept_batched e e' h (inl same) = same
kept_batched e e' h (inr (free, k)) = absurd (cc (h, ap (λ (d : Bytes). length d == 0) free))

pub id-nonempty : (id : Bytes) → valid_id id ≡ true → (length id == 0) ≡ false
unfolding valid_id
id-nonempty id h = ground (arith, h)

module _ ⦃bolt : Bolt⦄ ⦃json : Json⦄ ⦃sha : Sha256⦄ where
  -- Evidence that has a batch does not change.
  batched_reached :
      (name id : Bytes) (e : Evidence) (db db' : Database)
      → Reaches db db'
      → (length e.batch_id == 0) ≡ false
      → evidence db name id ≡ ok e
      → evidence db' name id ≡ ok e
  batched_reached name id e db db' r batch h =
      let (e', there, kept) = evidence_reached name id e db db' r h in
      there ∙ ap ok (sym (kept_batched e e' batch kept))

  entries_reached :
      (name bid : Bytes) (i : ℕ) (ids : List Bytes) (cs : List Digest) (db db' : Database)
      → Reaches db db'
      → valid_id bid ≡ true
      → entries_from db name bid i ids ≡ ok cs
      → (entries_from db' name bid i ids ≡ ok cs) × (all_ids ids ≡ true)
  unfolding entries_from all_ids
  entries_reached name bid i [] cs db db' r digits h = (h, refl)
  entries_reached name bid i (id ∷ ids) cs db db' r digits h =
      let (e, stored, g) = >>=-eq-ok (evidence db name id) _ h in
      let (u, checked, g1) = >>=-eq-ok (check_member bid i e) _ g in
      let (c, commits, g2) = >>=-eq-ok (or_corrupt (compute e.witness)) _ g1 in
      let (rest, more, g3) = >>=-eq-ok (entries_from db name bid (i + 1) ids) _ g2 in
      let (k, x, same, entry, _) = entries_from_cons db name bid i id ids cs h in
      let own : entry.record_of ≡ e = ok-injective (sym entry.stored ∙ stored) in
      let in_batch : bid ≡ e.batch_id =
        sym entry.in_batch ∙ ap (λ (t : Evidence). t.batch_id) own in
      let batch = ap (λ (d : Bytes). length d == 0) (sym in_batch) ∙ id-nonempty bid digits in
      let again = batched_reached name id e db db' r batch stored in
      let (later, all) = entries_reached name bid (i + 1) ids rest db db' r digits more in
      let known =
        (evidence_of-IsRecord id _ e (sym (evidence-view db name id) ∙ stored)).id_digits in
      (rw (again, checked, commits, later) g3, rw (known, all) refl)

  package_in-ids :
      (name id : Bytes) (e : Evidence) (b : FrozenBatch) (p : Package) (db db' : Database)
      → Reaches db db'
      → valid_id b.id ≡ true
      → package_in db name id e b ≡ ok p
      → all_ids b.evidence_ids ≡ true
  unfolding package_in
  package_in-ids name id e b p db db' r digits h =
      let (member, g) =
        guard_inv (not (is_member_at id (get_elem? b.evidence_ids e.index))) corrupt _ p h in
      let (cs, entries, g1) = >>=-eq-ok (entries_from db name b.id 0 b.evidence_ids) _ g in
      (entries_reached name b.id 0 b.evidence_ids cs db db' r digits entries).1

  package_in_reached :
      (name id : Bytes) (e : Evidence) (b b' : FrozenBatch) (p : Package) (db db' : Database)
      → Reaches db db'
      → valid_id b.id ≡ true
      → KeptBatch b b'
      → package_in db name id e b ≡ ok p
      → package_in db' name id e b' ≡ ok p
  unfolding package_in build_package with_submission
  package_in_reached name id e b b' p db db' r digits (s, reference, is, final) h =
      let (member, g) =
        guard_inv (not (is_member_at id (get_elem? b.evidence_ids e.index))) corrupt _ p h in
      let (cs, entries, g1) = >>=-eq-ok (entries_from db name b.id 0 b.evidence_ids) _ g in
      let (later, all) = entries_reached name b.id 0 b.evidence_ids cs db db' r digits entries in
      subst (λ (t : FrozenBatch). package_in db' name id e t ≡ ok p) (sym is)
        (rw (member, later) g1)

  -- A package that was exported is exported again, the same, behind any later calls of any tenants.
  pub unanchored_package-Reaches :
      (name id : Bytes) (p : Package) (db db' : Database)
      → Reaches db db'
      → unanchored_package name id db ≡ ok p
      → unanchored_package name id db' ≡ ok p
  unfolding unanchored_package package_of
  unanchored_package-Reaches name id p db db' r h =
      let (valid, g) = guard_inv (not (valid_text name) || not (valid_id id)) invalid _ p h in
      let (tx, opened, g1) = >>=-eq-ok (tenant db name false) _ g in
      let same = tenant_read name db tx opened in
      let there = tenant_reached name db db' r (opened ∙ ap ok (sym same)) in
      let (e, stored, g2) = >>=-eq-ok (evidence tx name id) _ g1 in
      let (batch, g3) = guard_inv (length e.batch_id == 0) not_batched _ p g2 in
      let (b, in_batch, g4) = >>=-eq-ok (frozen tx name e.batch_id) _ g3 in
      let stored_db = ap (λ t. evidence t name id) same ∙ stored in
      let frozen_db = ap (λ t. frozen t name e.batch_id) same ∙ in_batch in
      let package_db = ap (λ t. package_in t name id e b) same ∙ g4 in
      let own =
        batch_of-IsBatch e.batch_id _ b (sym (frozen-view db name e.batch_id) ∙ frozen_db) in
      let digits = ap valid_id own.own_id ∙ own.id_digits in
      let all = package_in-ids name id e b p db db' r digits package_db in
      let again = batched_reached name id e db db' r batch stored_db in
      let (b', there', kept) = frozen_reached name e.batch_id b db db' r frozen_db all in
      rw (valid, there, again, batch, there')
        (package_in_reached name id e b b' p db db' r digits kept package_db)
