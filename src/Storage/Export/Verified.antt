-- ===== src/Storage/Export/Verified.antt =====
-- A package that the store exports verifies.
use mathlib.Core.Path.{subst}
use sigmaproof.Prelude.{
  ◌≡◌, ap, sym, ◌∙◌, true, Option, some, length, get_elem?_lt, ok, ok-injective, ℤ, arith,
}
use sigmaproof.Bytes.{Bytes}
use sigmaproof.Sha.{Sha256}
use sigmaproof.Reader.{Reader, stream}
use sigmaproof.Merkle.Siblings.{path-IsHash}
use sigmaproof.Merkle.Complete.{verify-path}
use sigmaproof.Commitment
use sigmaproof.Commitment.{Digest, compute, IsWitness}
use sigmaproof.Batch
use sigmaproof.Batch.Codec.{parse_sound}
use sigmaproof.Batch.Membership.{verify-IsValid}
use sigmaproof.Package
use sigmaproof.Package.{Package}
use sigmaproof.Package.Writing.{IsPackage}
use sigmaproof.Package.Member.{member-marshals}
use sigmaproof.Package.RoundTrip.{parse-marshal_binary}
use sigmaproof.Report.{integrity_verified, verify}
use sigmaproof.Report.Integrity.{Integrity-iff}
use sigmaproof.Report.Fresh.{read_stream}
use sigmaproof.Storage.Types.{Evidence}
use sigmaproof.Storage.Bolt.{Bolt, Database}
use sigmaproof.Storage.Records.{Json, evidence}
use sigmaproof.Storage.State.{evidence-view, frozen-view}
use sigmaproof.Storage.Reading.{evidence_of-IsRecord, batch_of-IsBatch}
use sigmaproof.Storage.Export.{unanchored_package}
use sigmaproof.Storage.Export.Members.{Exported, unanchored_package-Exported}

module _ ⦃bolt : Bolt⦄ ⦃json : Json⦄ ⦃sha : Sha256⦄ where
  Exported-belongs :
      (db : Database) (name id : Bytes) (p : Package)
      → (x : Exported db name id p) → Batch.verify p.manifest x.commitment p.index p.path ≡ ok tt
  Exported-belongs db name id p x =
      let batch =
        batch_of-IsBatch x.record_of.batch_id _ x.batch
          (sym (frozen-view db name x.record_of.batch_id) ∙ x.in_batch) in
      let (h, valid, n) = parse_sound x.batch.manifest p.manifest x.parsed in
      let same : batch.manifest_of ≡ p.manifest = ok-injective (sym batch.parsed ∙ x.parsed) in
      let size : length x.commitments ≡ p.manifest.size =
        x.count ∙ batch.count ∙ ap (λ t. t.size) same in
      let there =
        verify-path x.commitments p.index x.commitment p.path (omega (arith, size, valid.bounded))
          x.there x.path_found in
      (verify-IsValid p.manifest x.commitment p.index p.path).1
        (valid, rw (size, x.root_matches) at there)

  Exported-IsPackage :
      (db : Database) (name id : Bytes) (p : Package) → Exported db name id p → IsPackage p
  Exported-IsPackage db name id p x =
      let stored =
        evidence_of-IsRecord id _ x.record_of (sym (evidence-view db name id) ∙ x.stored) in
      let (h, valid, n) = parse_sound x.batch.manifest p.manifest x.parsed in
      let inside = get_elem?_lt p.index x.commitments x.there in
      let batch =
        batch_of-IsBatch x.record_of.batch_id _ x.batch
          (sym (frozen-view db name x.record_of.batch_id) ∙ x.in_batch) in
      let same : batch.manifest_of ≡ p.manifest = ok-injective (sym batch.parsed ∙ x.parsed) in
      let size : length x.commitments ≡ p.manifest.size =
        x.count ∙ batch.count ∙ ap (λ t. t.size) same in
      record {
        witness_sizes = subst IsWitness (sym x.same_witness) stored.sizes;
        root_size = h;
        path_sizes =
            path-IsHash x.commitments p.index p.path (omega (arith, size, valid.bounded)) inside
              x.path_found;
        index_word = omega (arith, inside, size, valid.bounded);
      }

  -- For a record that the store exports, the package is for the record's own witness; it can be
  -- written, and the bytes, read back, verify the integrity of every document that hashes, under
  -- its limit, to the digest of the record.
  pub exported_then_verify :
      (db : Database) (name id : Bytes) (p : Package)
      → unanchored_package name id db ≡ ok p
      → (e : Evidence) × (evidence db name id ≡ ok e)
        × (p.witness ≡ e.witness)
        × ((d : Bytes) × (Package.marshal_binary p ≡ ok d)
            × ((document : Option Reader) (max : ℤ)
                → Commitment.hash_document document max ≡ ok e.witness.document_digest
                → integrity_verified (verify document (some (stream d)) max) ≡ true))
  exported_then_verify db name id p h =
      let x = unanchored_package-Exported db name id p h in
      let sizes = Exported-IsPackage db name id p x in
      let belongs = Exported-belongs db name id p x in
      let (d, written, short) = member-marshals p x.commitment sizes x.commits belongs in
      (
        x.record_of,
        x.stored,
        x.same_witness,
        (
          d,
          written,
          λ document max hashes. (Integrity-iff document (some (stream d)) max).1 (
            p,
            x.commitment,
            record {
              decodes = read_stream d short ∙ parse-marshal_binary p d sizes written;
              commits = x.commits;
              belongs = belongs;
              hashes = hashes ∙ ap (λ t. ok t.document_digest) (sym x.same_witness);
            },
          ),
        ),
      )
