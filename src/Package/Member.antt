-- ===== src/Package/Member.antt =====
-- A package whose commitment belongs to its manifest can be written and read back.
use sigmaproof.Prelude.{◌+◌, ◌*◌, ◌≤◌, ◌≡◌, refl, ap, ◌∙◌, length, ok, arith}
use sigmaproof.Bytes.{Bytes}
use sigmaproof.Sha.{Sha256}
use sigmaproof.Merkle.Sound.{verify_inv}
use sigmaproof.Commitment
use sigmaproof.Commitment.{Digest, preimage}
use sigmaproof.Commitment.Binding.{compute_iff}
use sigmaproof.Commitment.Codec.{encode_iff, length-preimage}
use sigmaproof.Batch
use sigmaproof.Batch.Codec as BatchCodec
use sigmaproof.Batch.Membership.{verify-IsValid}
use sigmaproof.Package.{Package, marshal_binary, write_package, max_package_bytes}
use sigmaproof.Package.Depth.{path_length, verify-path_length, path_length-le}
use sigmaproof.Package.Writing.{IsPackage, marshal_of}
use sigmaproof.Package.Layout as Layout
use sigmaproof.Package.Reading as Reading

module _ ⦃sha : Sha256⦄ where
  -- A package of the struct's sizes whose commitment verifies in its manifest marshals, to at most
  -- `max_package_bytes` bytes.
  pub member-marshals :
      (p : Package) (c : Digest)
      → IsPackage p
      → Commitment.compute p.witness ≡ ok c
      → Batch.verify p.manifest c p.index p.path ≡ ok tt
      → (d : Bytes) × (marshal_binary p ≡ ok d) × (length d ≤ max_package_bytes)
  member-marshals p c sizes commits belongs =
      let (supported, _) = compute_iff p.witness c commits in
      let (valid, there) = (verify-IsValid p.manifest c p.index p.path).0 belongs in
      let (inside, _, _) = verify_inv c p.index p.manifest.size p.path p.manifest.root there in
      let exact : length p.path ≡ path_length p.index p.manifest.size =
        verify-path_length c p.index p.manifest.size p.path p.manifest.root
          (omega (arith, valid.bounded)) there in
      let short : path_length p.index p.manifest.size ≤ 16 =
        path_length-le 16 p.index p.manifest.size (omega arith) valid.bounded in
      let w = preimage p.witness in
      let m = BatchCodec.layout p.manifest in
      let hw : length w ≡ 90 = length-preimage p.witness sizes.witness_sizes in
      let hm : length m ≡ 61 = BatchCodec.length-layout p.manifest sizes.root_size in
      let size : length (write_package w m p.index p.path) ≡ 170 + 32 * length p.path =
        ap length (Layout.write_package-layout w m p.index p.path hw hm sizes.path_sizes)
        ∙ Reading.length-layout w m p.index p.path hw hm sizes.path_sizes in
      (
        write_package w m p.index p.path,
        marshal_of p _ w m (record {
          witness_bytes = (encode_iff p.witness w).1 (supported, refl);
          manifest_bytes =
              (BatchCodec.marshal_binary_iff p.manifest m sizes.root_size).1 (valid, refl);
          index_inside = inside;
          path_exact = exact;
          written = refl;
        }),
        omega (arith, size, exact, short),
      )
