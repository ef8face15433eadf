-- ===== src/Package/Create.antt =====
-- `CreateUnanchored`: what it returns is a package that can be written.
use mathlib.Core.Path.{subst}
use sigmaproof.Prelude.{
  ℕ, ◌+◌, ◌*◌, ◌≡◌, refl, ap, sym, ◌∙◌, Option, some, [], ◌∷◌, length, All, ok, ℤ, >>=-eq-ok,
  ok-injective, arith, ◌>>=◌,
}
use sigmaproof.Bytes.{Bytes}
use sigmaproof.Sha.{Sha256, IsHash}
use sigmaproof.Reader.{Reader}
use sigmaproof.Merkle.Siblings.{path_single}
use sigmaproof.Commitment
use sigmaproof.Commitment.{Digest, Witness, new_witness, IsWitness, preimage}
use sigmaproof.Commitment.Binding.{compute_iff}
use sigmaproof.Commitment.Codec.{encode_iff, length-preimage}
use sigmaproof.Commitment.Document.{new_sizes}
use sigmaproof.Batch
use sigmaproof.Batch.{blank}
use sigmaproof.Batch.Codec as BatchCodec
use sigmaproof.Batch.Membership.{new-IsValid, verify-new_member}
use sigmaproof.Package.{Package, create_unanchored, marshal_binary, write_package}
use sigmaproof.Package.Depth.{path_length_single}
use sigmaproof.Package.Writing.{IsPackage, marshal_of}
use sigmaproof.Package.Layout as Layout
use sigmaproof.Package.Reading as Reading

module _ ⦃sha : Sha256⦄ where
  -- What a successful creation has made.
  pub record Created (document : Option Reader) (max : ℤ) (p : Package) : Type 0 where
    pub commitment : Digest
    pub document_hash : Commitment.hash_document document max ≡ ok p.witness.document_digest
    pub commits : Commitment.compute p.witness ≡ ok commitment
    pub batch : Batch.new (commitment ∷ []) ≡ ok p.manifest
    pub first : p.index ≡ 0
    pub no_siblings : p.path ≡ []
    pub sizes : IsWitness p.witness

  pub create_inv :
      (document : Option Reader) (rep : ℕ) (max : ℤ) (nonce : Bytes) (p : Package)
      → IsHash nonce
      → create_unanchored document rep max (some nonce) ≡ ok p
      → Created document max p
  unfolding create_unanchored
  create_inv document rep max nonce p hn e =
      let ((w, c), ew, r) =
        >>=-eq-ok (Commitment.new document rep max (some nonce))
          (λ (w, c). Batch.new (c ∷ []) >>= λ m.
            ok (record { witness = w; manifest = m; index = 0; path = [] }))
          e in
      let (m, em, same) =
        >>=-eq-ok (Batch.new (c ∷ []))
          (λ m. ok (record { witness = w; manifest = m; index = 0; path = [] })) r in
      let (h, k, sizes) = new_sizes document rep max nonce w c hn ew in
      subst (Created document max) (ok-injective same) (record {
        commitment = c;
        document_hash = h;
        commits = k;
        batch = em;
        first = refl;
        no_siblings = refl;
        sizes = sizes;
      })

  Created-IsPackage :
      {document : Option Reader} {max : ℤ} (p : Package) → Created document max p → IsPackage p
  Created-IsPackage p c =
      let (v, r, n) = new-IsValid (c.commitment ∷ []) p.manifest c.batch in
      record {
        witness_sizes = c.sizes;
        root_size = r;
        path_sizes = subst (All IsHash) (sym c.no_siblings) tt;
        index_word = omega (arith, c.first);
      }

  -- A created package marshals, to 170 bytes.
  pub Created-marshals :
      {document : Option Reader} {max : ℤ} (p : Package)
      → Created document max p
      → (d : Bytes) × (marshal_binary p ≡ ok d) × (length d ≡ 170) × IsPackage p
  Created-marshals p c =
      let (supported, _) = compute_iff p.witness c.commitment c.commits in
      let (v, r, n) = new-IsValid (c.commitment ∷ []) p.manifest c.batch in
      let sizes = Created-IsPackage p c in
      let w = preimage p.witness in
      let m = BatchCodec.layout p.manifest in
      let hw : length w ≡ 90 = length-preimage p.witness c.sizes in
      let hm : length m ≡ 61 = BatchCodec.length-layout p.manifest r in
      let no_path : length p.path ≡ 0 = ap length c.no_siblings in
      (
        write_package w m p.index p.path,
        marshal_of p _ w m (record {
          witness_bytes = (encode_iff p.witness w).1 (supported, refl);
          manifest_bytes = (BatchCodec.marshal_binary_iff p.manifest m r).1 (v, refl);
          index_inside = omega (arith, c.first);
          path_exact = no_path ∙ sym (path_length_single p.index p.manifest.size c.first n);
          written = refl;
        }),
        ap length (Layout.write_package-layout w m p.index p.path hw hm sizes.path_sizes)
            ∙ Reading.length-layout w m p.index p.path hw hm sizes.path_sizes
            ∙ ap (λ t. 170 + 32 * t) no_path,
        sizes,
      )

  -- Its commitment belongs to its manifest.
  pub Created-belongs :
      {document : Option Reader} {max : ℤ} (p : Package)
      → (c : Created document max p) → Batch.verify p.manifest c.commitment p.index p.path ≡ ok tt
  Created-belongs p c =
      rw (c.first, c.no_siblings)
        (verify-new_member (c.commitment ∷ []) p.manifest 0 c.commitment [] c.batch refl
          (path_single c.commitment))
