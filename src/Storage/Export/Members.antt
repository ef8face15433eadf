-- ===== src/Storage/Export/Members.antt =====
-- What `unanchored_package` has checked when it gives a package.
use mathlib.Core.Path.{subst}
use sigmaproof.Prelude.{
  ℕ, ◌+◌, ◌≡◌, refl, ap, sym, ◌∙◌, true, false, not, ◌||◌, Option, none, some, List, [], ◌∷◌,
  length, get_elem?, ◌==◌, ok, err, >>=-eq-ok, ok-injective, arith, some_eq, zero, suc,
}
use sigmaproof.Bytes.{Bytes, bytes_equal_iff}
use sigmaproof.Sha.{Sha256}
use sigmaproof.Errors.{Outcome}
use sigmaproof.Merkle
use sigmaproof.Commitment.{Digest, compute}
use sigmaproof.Batch
use sigmaproof.Batch.{Manifest}
use sigmaproof.Package.{Package}
use sigmaproof.Storage.Types.{
  Evidence, FrozenBatch, invalid, not_batched, corrupt, valid_text, valid_id,
}
use sigmaproof.Storage.Bolt.{Bolt, Database}
use sigmaproof.Storage.Records.{Json, or_corrupt, tenant, evidence, frozen}
use sigmaproof.Storage.Reading.{or_corrupt_inv, guard_inv}
use sigmaproof.Storage.Tenants.{tenant_read}
use sigmaproof.Storage.Freeze.{or_proof_failed}
use sigmaproof.Storage.Export.{
  is_member_at, check_member, check_root, entries_from, build_package, package_in, package_of,
  unanchored_package,
}

pub or_proof_failed_inv : {A : Type 0} (r : Outcome A) (a : A) → or_proof_failed r ≡ ok a → r ≡ ok a
or_proof_failed_inv (ok b) a e = ap ok (ok-injective e)
or_proof_failed_inv (err x) a e = cc

module _ ⦃bolt : Bolt⦄ ⦃json : Json⦄ ⦃sha : Sha256⦄ where
  -- The member at index `j` of the loop has the commitment at that index, and knows its batch.
  pub record IsEntry (tx : Database) (name batch_id id : Bytes) (i : ℕ) (c : Digest) : Type 0 where
    pub record_of : Evidence
    pub stored : evidence tx name id ≡ ok record_of
    pub in_batch : record_of.batch_id ≡ batch_id
    pub at_index : record_of.index ≡ i
    pub commits : compute record_of.witness ≡ ok c

  pub check_member_inv :
      (batch_id : Bytes) (i : ℕ) (e : Evidence)
      → check_member batch_id i e ≡ ok tt
      → (e.batch_id ≡ batch_id) × (e.index ≡ i)
  unfolding check_member
  check_member_inv batch_id i e h = ground (arith, (bytes_equal_iff e.batch_id batch_id).0)

  pub entries_from_cons :
      (tx : Database) (name batch_id : Bytes) (i : ℕ) (id : Bytes) (ids : List Bytes)
      (cs : List Digest)
      → entries_from tx name batch_id i (id ∷ ids) ≡ ok cs
      → (c : Digest) × (rest : List Digest) × (cs ≡ c ∷ rest)
        × IsEntry tx name batch_id id i c
        × (entries_from tx name batch_id (i + 1) ids ≡ ok rest)
  unfolding entries_from
  entries_from_cons tx name batch_id i id ids cs h =
      let (e, stored, r) = >>=-eq-ok (evidence tx name id) _ h in
      let (u, checked, r1) = >>=-eq-ok (check_member batch_id i e) _ r in
      let (c, commits, r2) = >>=-eq-ok (or_corrupt (compute e.witness)) _ r1 in
      let (rest, more, same) = >>=-eq-ok (entries_from tx name batch_id (i + 1) ids) _ r2 in
      let (in_batch, at_index) = check_member_inv batch_id i e checked in
      (
        c,
        rest,
        sym (ok-injective same),
        record {
          record_of = e;
          stored = stored;
          in_batch = in_batch;
          at_index = at_index;
          commits = or_corrupt_inv (compute e.witness) c commits;
        },
        more,
      )

  -- The commitments are as many as the members.
  length-entries_from :
      (tx : Database) (name batch_id : Bytes) (i : ℕ) (ids : List Bytes) (cs : List Digest)
      → entries_from tx name batch_id i ids ≡ ok cs
      → length cs ≡ length ids
  unfolding entries_from
  length-entries_from tx name batch_id i [] cs h = ap length (sym (ok-injective h))
  length-entries_from tx name batch_id i (id ∷ ids) cs h =
      let (c, rest, same, e, more) = entries_from_cons tx name batch_id i id ids cs h in
      ap length same ∙ ap suc (length-entries_from tx name batch_id (i + 1) ids rest more)

  -- Each is that of the member at its index.
  entries_from_member :
      (tx : Database) (name batch_id : Bytes) (i : ℕ) (ids : List Bytes) (cs : List Digest) (j : ℕ)
      (id : Bytes)
      → entries_from tx name batch_id i ids ≡ ok cs
      → get_elem? ids j ≡ some id
      → (c : Digest) × (get_elem? cs j ≡ some c) × IsEntry tx name batch_id id (i + j) c
  entries_from_member tx name batch_id i [] cs j id h g = cc
  entries_from_member tx name batch_id i (x ∷ ids) cs zero id h g =
      let (c, rest, same, e, more) = entries_from_cons tx name batch_id i x ids cs h in
      let at : IsEntry tx name batch_id id (i + 0) c =
        subst (λ k. IsEntry tx name batch_id id k c) (omega arith)
          (subst (λ y. IsEntry tx name batch_id y i c) (some_eq g) e) in
      (c, ap (λ l. get_elem? l 0) same, at)
  entries_from_member tx name batch_id i (x ∷ ids) cs (suc j) id h g =
      let (c, rest, same, e, more) = entries_from_cons tx name batch_id i x ids cs h in
      let (d, there, entry) = entries_from_member tx name batch_id (i + 1) ids rest j id more g in
      (
        d,
        ap (λ l. get_elem? l (suc j)) same ∙ there,
        subst (λ k. IsEntry tx name batch_id id k d) (omega arith) entry,
      )

  -- A package that the store gives, and the record it is for.
  pub record Exported (db : Database) (name id : Bytes) (p : Package) : Type 0 where
    pub record_of : Evidence
    pub batch : FrozenBatch
    pub commitments : List Digest
    pub commitment : Digest
    pub stored : evidence db name id ≡ ok record_of
    pub in_batch : frozen db name record_of.batch_id ≡ ok batch
    pub at_index : get_elem? batch.evidence_ids record_of.index ≡ some id
    pub same_witness : p.witness ≡ record_of.witness
    pub same_index : p.index ≡ record_of.index
    pub commits : compute p.witness ≡ ok commitment
    pub parsed : Batch.parse batch.manifest ≡ ok p.manifest
    pub entries : entries_from db name batch.id 0 batch.evidence_ids ≡ ok commitments
    pub count : length commitments ≡ length batch.evidence_ids
    pub there : get_elem? commitments p.index ≡ some commitment
    pub root_matches : Merkle.root commitments ≡ p.manifest.root
    pub path_found : Merkle.path commitments p.index ≡ ok p.path

  check_root_inv :
      (cs : List Digest) (m : Manifest) → check_root cs m ≡ ok tt → Merkle.root cs ≡ m.root
  unfolding check_root
  check_root_inv cs m h = ground (arith, (bytes_equal_iff (Merkle.root cs) m.root).0)

  is_member_at_inv : (id : Bytes) (o : Option Bytes) → is_member_at id o ≡ true → o ≡ some id
  unfolding is_member_at
  is_member_at_inv id none h = cc
  is_member_at_inv id (some x) h = ap some ((bytes_equal_iff x id).0 h)

  package_in-Exported :
      (db : Database) (name id : Bytes) (e : Evidence) (b : FrozenBatch) (p : Package)
      → evidence db name id ≡ ok e
      → frozen db name e.batch_id ≡ ok b
      → package_in db name id e b ≡ ok p
      → Exported db name id p
  unfolding package_in build_package
  package_in-Exported db name id e b p se sb h =
      let (member, r) =
        guard_inv (not (is_member_at id (get_elem? b.evidence_ids e.index))) corrupt _ p h in
      let at = is_member_at_inv id (get_elem? b.evidence_ids e.index) (ground (arith, member)) in
      let (cs, entries, r1) = >>=-eq-ok (entries_from db name b.id 0 b.evidence_ids) _ r in
      let (m, parsed, r2) = >>=-eq-ok (or_corrupt (Batch.parse b.manifest)) _ r1 in
      let (u, root, r3) = >>=-eq-ok (check_root cs m) _ r2 in
      let (path, found, same) = >>=-eq-ok (or_proof_failed (Merkle.path cs e.index)) _ r3 in
      let (c, there, entry) =
        entries_from_member db name b.id 0 b.evidence_ids cs e.index id entries at in
      let own : entry.record_of ≡ e = ok-injective (sym entry.stored ∙ se) in
      subst (Exported db name id) (ok-injective same) (record {
        record_of = e;
        batch = b;
        commitments = cs;
        commitment = c;
        stored = se;
        in_batch = sb;
        at_index = at;
        same_witness = refl;
        same_index = refl;
        commits = ap (λ t. compute t.witness) (sym own) ∙ entry.commits;
        parsed = or_corrupt_inv (Batch.parse b.manifest) m parsed;
        entries = entries;
        count = length-entries_from db name b.id 0 b.evidence_ids cs entries;
        there = there;
        root_matches = check_root_inv cs m root;
        path_found = or_proof_failed_inv (Merkle.path cs e.index) path found;
      })

  package_of-Exported :
      (db : Database) (name id : Bytes) (e : Evidence) (p : Package)
      → evidence db name id ≡ ok e
      → package_of db name id e ≡ ok p
      → Exported db name id p
  unfolding package_of
  package_of-Exported db name id e p se h =
      let (batched, r) = guard_inv (length e.batch_id == 0) not_batched _ p h in
      let (b, sb, r1) = >>=-eq-ok (frozen db name e.batch_id) _ r in
      package_in-Exported db name id e b p se sb r1

  pub unanchored_package-Exported :
      (db : Database) (name id : Bytes) (p : Package)
      → unanchored_package name id db ≡ ok p
      → Exported db name id p
  unfolding unanchored_package
  unanchored_package-Exported db name id p h =
      let (valid, r) = guard_inv (not (valid_text name) || not (valid_id id)) invalid _ p h in
      let (tx, opened, r1) = >>=-eq-ok (tenant db name false) _ r in
      let (e, se, r2) = >>=-eq-ok (evidence tx name id) _ r1 in
      let same = tenant_read name db tx opened in
      subst (λ t. Exported t name id p) (sym same) (package_of-Exported tx name id e p se r2)
