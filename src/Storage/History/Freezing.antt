-- ===== src/Storage/History/Freezing.antt =====
-- Every member of a new batch has a package.
use mathlib.Core.Path.{subst}
use sigmaproof.Prelude.{
  ℕ, ◌<◌, ◌≡◌, refl, ap, sym, ◌∙◌, true, false, Option, none, some, List, map, length, get_elem?,
  get_elem?_lt, ok, inl, inr, arith, ℤ,
}
use sigmaproof.Bytes.{Bytes, bytes_equal_refl}
use sigmaproof.Sha.{Sha256}
use sigmaproof.Merkle
use sigmaproof.Merkle.Siblings.{path-Siblings}
use sigmaproof.Commitment.{Digest}
use sigmaproof.Batch
use sigmaproof.Batch.{Manifest, blank}
use sigmaproof.Batch.Codec.{parse-marshal_binary}
use sigmaproof.Batch.Membership.{new_iff, new-IsValid}
use sigmaproof.Package.{Package}
use sigmaproof.Storage.Types.{FrozenBatch, valid_text, valid_limit}
use sigmaproof.Storage.Bolt.{Bolt, Database}
use sigmaproof.Storage.Records.{Json, bucket_path, tenant, evidence, frozen, batch_keys_bucket}
use sigmaproof.Storage.Freeze.{Member, member_id, member_commitment, batched, new_batch, freeze}
use sigmaproof.Storage.Export.{
  is_member_at, check_root, build_package, entries_from, package_in, package_of, unanchored_package,
}
use sigmaproof.Storage.View.{view}
use sigmaproof.Storage.Tenants.{tenant_mono}
use sigmaproof.Storage.State.{evidence_of, evidence_at, evidence-view, frozen-view}
use sigmaproof.Storage.Reading.{evidence_of-IsRecord, batch_of-IsBatch}
use sigmaproof.Storage.Draws.{IsDraws}
use sigmaproof.Storage.Effects.Freeze.{Frozen, bind_view, freeze_tx-effect}
use sigmaproof.Storage.Persist.Binding.{batch_view-evidence, limit_small}
use sigmaproof.Storage.History.Batches.{freeze-inv, freeze_tx-opened, Frozen-new, length-members}
use sigmaproof.Storage.History.Exports.{id-nonempty}
use sigmaproof.Storage.History.Bound.{
  IsBound-ap, bind_view-IsBound, entries_from-IsBound, IsBound-get,
}

module _ ⦃bolt : Bolt⦄ ⦃json : Json⦄ ⦃sha : Sha256⦄ where
  -- What is needed of the manifest to export a member of a new batch.
  record Builds (cs : List Digest) (bytes : Bytes) (i : ℕ) : Type 0 where
    manifest : Manifest
    path : List Merkle.Hash
    marshalled : Batch.marshal_binary manifest ≡ ok bytes
    parsed : Batch.parse bytes ≡ ok manifest
    root : Merkle.root cs ≡ manifest.root
    found : Merkle.path cs i ≡ ok path

  Builds-new :
      (cs : List Digest) (m : Manifest) (bytes : Bytes) (i : ℕ)
      → Batch.new cs ≡ ok m
      → Batch.marshal_binary m ≡ ok bytes
      → i < length cs
      → Builds cs bytes i
  unfolding blank
  Builds-new cs m bytes i built marshalled inside =
      let (some_members, short, same) = (new_iff cs m).0 built in
      let (valid, root, size) = new-IsValid cs m built in
      let (path, found, _) = path-Siblings cs i (omega (arith, short)) inside in
      record {
        manifest = m;
        path = path;
        marshalled = marshalled;
        parsed = parse-marshal_binary m bytes root marshalled;
        root = sym (ap (λ (t : Manifest). t.root) same);
        found = found;
      }

  abbrev Exports : Database → Bytes → Bytes → ℕ → Bytes → Type 0
  Exports db name id i bytes =
      (p : Package) × (unanchored_package name id db ≡ ok p)
      × (p.index ≡ i)
      × (Batch.marshal_binary p.manifest ≡ ok bytes)

  member-Exports :
      (db : Database) (name id : Bytes) (i : ℕ) (m : Member) (b : FrozenBatch) (cs : List Digest)
      → valid_text name ≡ true
      → tenant db name false ≡ ok db
      → evidence db name id ≡ ok (batched b.id i m.0)
      → frozen db name b.id ≡ ok b
      → get_elem? b.evidence_ids i ≡ some id
      → entries_from db name b.id 0 b.evidence_ids ≡ ok cs
      → Builds cs b.manifest i
      → Exports db name id i b.manifest
  unfolding unanchored_package package_of package_in build_package check_root is_member_at batched
  member-Exports db name id i m b cs text opened own there at entries x =
      let digits = (evidence_of-IsRecord id _ _ (sym (evidence-view db name id) ∙ own)).id_digits in
      let batch = (batch_of-IsBatch b.id _ b (sym (frozen-view db name b.id) ∙ there)).id_digits in
      (
        record { witness = m.0.witness; manifest = x.manifest; index = i; path = x.path },
        rw
            (
              text,
              digits,
              opened,
              own,
              id-nonempty b.id batch,
              there,
              at,
              bytes_equal_refl id,
              entries,
              x.parsed,
              x.root,
              bytes_equal_refl x.manifest.root,
              x.found,
            )
            refl,
        refl,
        x.marshalled,
      )

  Frozen-Exports :
      (name key : Bytes) (limit : ℤ) (db db' : Database) (b : FrozenBatch) (i : ℕ) (id : Bytes)
      → valid_text name ≡ true
      → valid_limit limit ≡ true
      → tenant db name false ≡ ok db
      → Frozen name key limit db db' b
      → get_elem? b.evidence_ids i ≡ some id
      → Exports db' name id i b.manifest
  unfolding new_batch
  Frozen-Exports name key limit db db' b i id text small opened k at =
      let x = new_batch k.id limit k.bytes k.members in
      let is_b : x ≡ b = k.result in
      let there = frozen-view db' name b.id ∙ (Frozen-new name key limit db db' b small k).0 in
      let at_x = ap (λ (t : FrozenBatch). get_elem? t.evidence_ids i) is_b ∙ at in
      let bound =
        IsBound-ap _ (evidence db' name) k.id 0 k.members
          (λ j.
            evidence-view db' name j
            ∙ ap (λ v. evidence_at v j) k.effect.here
            ∙ ap (evidence_of j)
                (batch_view-evidence (bind_view k.id 0 k.members (view db name)) key x j))
          (bind_view-IsBound (view db name) k.id 0 k.members (view db name) k.id_digits
            (omega (arith, k.within, limit_small limit small)) k.pending k.distinct) in
      let entries = entries_from-IsBound (view db name) db' name k.id 0 k.members k.pending bound in
      let (m, own) = IsBound-get db' name k.id 0 i k.members id bound at_x in
      let inside : i < length (map member_commitment k.members) =
        rw (length-members k.members) (get_elem?_lt i (map member_id k.members) at_x) in
      let built =
        Builds-new (map member_commitment k.members) k.manifest k.bytes i k.built k.marshalled
          inside in
      let there_x = subst (λ (t : FrozenBatch). frozen db' name t.id ≡ ok t) (sym is_b) there in
      subst (λ (t : FrozenBatch). Exports db' name id i t.manifest) is_b
        (member-Exports db' name id i m x (map member_commitment k.members) text
          (tenant_mono name db db' k.effect.buckets opened)
          (own ∙ ap (λ j. ok (batched k.id j m.0)) (omega arith)) there_x at_x entries built)

  -- A call of `freeze` that succeeds with a key that has no batch yet leaves every member of its
  -- batch with a package, at the member's index and under the manifest of the batch.
  pub freeze-unanchored_package :
      (draws : List (Option Bytes)) (name key : Bytes) (limit : ℤ) (db db' : Database)
      (b : FrozenBatch) (i : ℕ) (id : Bytes)
      → IsDraws draws
      → bolt.get db (bucket_path name batch_keys_bucket) key ≡ none
      → freeze draws name key limit db ≡ (ok b, db')
      → get_elem? b.evidence_ids i ≡ some id
      → (p : Package) × (unanchored_package name id db' ≡ ok p)
        × (p.index ≡ i)
        × (Batch.marshal_binary p.manifest ≡ ok b.manifest)
  freeze-unanchored_package draws name key limit db db' b i id d unknown h at =
      let (text, small, run) = freeze-inv draws name key limit db db' b h in
      let opened = freeze_tx-opened draws name key limit db db' b run in
      elim (freeze_tx-effect draws name key limit db db' b d run) [
        | inl k ↦ cc (unknown, k.known)
        | inr k ↦ Frozen-Exports name key limit db db' b i id text small opened k at
      ]
