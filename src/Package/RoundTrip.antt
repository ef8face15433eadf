-- ===== src/Package/RoundTrip.antt =====
-- `parse` and `marshal_binary` of packages are inverse to each other.
use mathlib.Core.Path.{subst}
use sigmaproof.Prelude.{
  ℕ, ◌+◌, ◌-◌, ◌*◌, ◌≤◌, ◌<◌, ◌≡◌, ◌↔◌, ◌⊎◌, inl, inr, refl, ap, sym, ◌∙◌, List, length, All, arith,
  false, ok, ◌>>=◌, >>=-eq-ok,
}
use sigmaproof.Bytes.{Bytes, IsByte, slice, at}
use sigmaproof.Bytes.Slices.{All-slice, length-slice}
use sigmaproof.Bytes.Words.{uint64, uint64-put_uint64, uint64-IsU64}
use sigmaproof.Sha.{IsHash}
use sigmaproof.Commitment
use sigmaproof.Commitment.{Witness, IsWitness, preimage}
use sigmaproof.Commitment.Codec
use sigmaproof.Commitment.Codec.{IsSupported, encode_iff, length-preimage}
use sigmaproof.Batch
use sigmaproof.Batch.{Manifest}
use sigmaproof.Batch.Codec as BatchCodec
use sigmaproof.Batch.Codec.{IsValid}
use sigmaproof.Merkle.{Hash}
use sigmaproof.Package.{Package, marshal_binary, read_path, is_unsupported, assemble, parse}
use sigmaproof.Package.Depth.{path_length, path_length-le}
use sigmaproof.Package.Paths.{read_path_shape}
use sigmaproof.Package.Layout.{layout, write_package-layout}
use sigmaproof.Package.Reading.{
  length-layout, layout-magic, layout_version, layout_witness, layout_manifest, layout_index,
  layout_count, layout_path, layout_anchor, layout_witness_byte, layout_manifest_byte, layout_parts,
  paths_inside,
}
use sigmaproof.Package.Writing.{IsPackage, marshal_inv, marshal_of}
use native.Mathlib.Nat.{mod-eq_of_lt}
use sigmaproof.Package.Framing.{
  is_unsupported-false, Framed, parse_guards, parse-Framed, read_package, assemble_iff,
}

-- The parts of a package that was written, with the facts that reading it needs.
record IsWritten (v : Witness) (f : Manifest) (w m : Bytes) : Type 0 where
  witness_supported : IsSupported v
  witness_preimage : preimage v ≡ w
  witness_size : length w ≡ 90
  manifest_valid : IsValid f
  manifest_layout : BatchCodec.layout f ≡ m
  manifest_size : length m ≡ 61

IsWritten-parts :
    (v : Witness) (f : Manifest) (w m : Bytes)
    → IsWitness v
    → IsHash f.root
    → Commitment.encode v ≡ ok w
    → Batch.marshal_binary f ≡ ok m
    → IsWritten v f w m
IsWritten-parts v f w m hv hf ew em =
    let (sup, pw) = (encode_iff v w).0 ew in
    let (val, pm) = (BatchCodec.marshal_binary_iff f m hf).0 em in
    record {
      witness_supported = sup;
      witness_preimage = pw;
      witness_size = rw pw at (length-preimage v hv);
      manifest_valid = val;
      manifest_layout = pm;
      manifest_size = rw pm at (BatchCodec.length-layout f hf);
    }

-- The profile bytes of a package that was written are the supported ones.
layout_supported :
    (v : Witness) (f : Manifest) (w m : Bytes) (index : ℕ) (path : List Hash)
    → All IsHash path
    → IsWritten v f w m
    → is_unsupported (layout w m index path) ≡ false
unfolding preimage BatchCodec.layout
layout_supported v f w m index path hp s =
    is_unsupported-false (layout w m index path)
      (in_witness 31 22 refl (omega arith) ∙ s.witness_supported.version_one)
      (in_witness 32 23 refl (omega arith) ∙ s.witness_supported.sha256_one)
      (source s.witness_supported.source)
      (in_witness 34 25 refl (omega arith) ∙ s.witness_supported.no_metadata)
      (in_manifest 116 17 refl (omega arith) ∙ s.manifest_valid.version_one)
      (in_manifest 117 18 refl (omega arith) ∙ s.manifest_valid.commitment_version_one)
      (in_manifest 118 19 refl (omega arith) ∙ s.manifest_valid.commitment_sha256)
      (in_manifest 119 20 refl (omega arith) ∙ s.manifest_valid.tree_rfc6962)
  where
    in_witness : (i j : ℕ) → 9 + j ≡ i → j < 90 → at i (layout w m index path) ≡ at j (preimage v)
    in_witness i j e h =
        layout_witness_byte w m index path s.witness_size s.manifest_size hp i j e h
        ∙ ap (at j) (sym s.witness_preimage)

    in_manifest :
        (i j : ℕ) → 99 + j ≡ i → j < 61 → at i (layout w m index path) ≡ at j (BatchCodec.layout f)
    in_manifest i j e h =
        layout_manifest_byte w m index path s.witness_size s.manifest_size hp i j e h
        ∙ ap (at j) (sym s.manifest_layout)

    source :
        (v.representation ≡ 1) ⊎ (v.representation ≡ 2)
        → (at 33 (layout w m index path) ≡ 1) ⊎ (at 33 (layout w m index path) ≡ 2)
    source (inl e) = inl (in_witness 33 24 refl (omega arith) ∙ e)
    source (inr e) = inr (in_witness 33 24 refl (omega arith) ∙ e)

-- `parse` on what was written.
parse-layout :
    (p : Package) (w m : Bytes)
    → IsPackage p
    → IsWritten p.witness p.manifest w m
    → Commitment.parse w ≡ ok p.witness
    → Batch.parse m ≡ ok p.manifest
    → p.index < p.manifest.size
    → length p.path ≡ path_length p.index p.manifest.size
    → parse (layout w m p.index p.path) ≡ ok p
parse-layout p w m h s pw pm inside exact =
    let d = layout w m p.index p.path in
    let hw = s.witness_size in
    let hm = s.manifest_size in
    let small : length p.path ≤ 16 =
      omega
        (arith, path_length-le 16 p.index p.manifest.size (omega arith) s.manifest_valid.bounded) in
    let count : at 168 d ≡ length p.path =
      layout_count w m p.index p.path hw hm h.path_sizes ∙ mod-eq_of_lt (omega arith) in
    let size : length d ≡ 170 + 32 * length p.path =
      length-layout w m p.index p.path hw hm h.path_sizes in
    let last : length d - 1 ≡ 169 + 32 * length p.path = omega arith in
    let index : uint64 (slice 160 168 d) ≡ p.index =
      ap uint64 (layout_index w m p.index p.path hw hm h.path_sizes)
      ∙ uint64-put_uint64 p.index h.index_word in
    let hashes : read_path (at 168 d) 0 d ≡ p.path =
      ap (λ c. read_path c 0 d) count ∙ layout_path w m p.index p.path hw hm h.path_sizes in
    let framed : Framed d = record {
      size = size ∙ ap (λ c. 170 + 32 * c) (sym count);
      small = rw count small;
      magic_bytes = layout-magic w m p.index p.path hw hm h.path_sizes;
      version_byte = layout_version w m p.index p.path hw hm h.path_sizes;
      no_anchor = ap (λ i. at i d) last ∙ layout_anchor w m p.index p.path hw hm h.path_sizes;
    } in
    let same : read_package d p.witness p.manifest ≡ p = λ i. record {
      witness = p.witness;
      manifest = p.manifest;
      index = index i;
      path = hashes i;
    } in
    let assembled : assemble d p.witness p.manifest ≡ ok p =
      (assemble_iff d p.witness p.manifest p).1 (
        rw index inside,
        count ∙ exact ∙ ap (λ i. path_length i p.manifest.size) (sym index),
        same,
      ) in
    parse-Framed d framed (layout_supported p.witness p.manifest w m p.index p.path h.path_sizes s)
    ∙ rw
        (
          layout_witness w m p.index p.path hw hm h.path_sizes,
          pw,
          layout_manifest w m p.index p.path hw hm h.path_sizes,
          pm,
        )
        assembled

pub parse-marshal_binary :
    (p : Package) (d : Bytes) → IsPackage p → marshal_binary p ≡ ok d → parse d ≡ ok p
parse-marshal_binary p d h e =
    let (w, m, s) = marshal_inv p d e in
    let parts =
      IsWritten-parts p.witness p.manifest w m h.witness_sizes h.root_size s.witness_bytes
        s.manifest_bytes in
    let same =
      write_package-layout w m p.index p.path parts.witness_size parts.manifest_size h.path_sizes in
    ap parse (sym s.written ∙ same)
    ∙ parse-layout p w m h parts (Codec.parse-encode p.witness w h.witness_sizes s.witness_bytes)
        (BatchCodec.parse-marshal_binary p.manifest m h.root_size s.manifest_bytes) s.index_inside
        s.path_exact

-- What `parse` accepted marshals to the bytes that it read.
marshal-read_package :
    (d : Bytes) (w : Witness) (m : Manifest)
    → All IsByte d
    → Framed d
    → Commitment.parse (slice 9 99 d) ≡ ok w
    → Batch.parse (slice 99 160 d) ≡ ok m
    → uint64 (slice 160 168 d) < m.size
    → at 168 d ≡ path_length (uint64 (slice 160 168 d)) m.size
    → IsPackage (read_package d w m) × (marshal_binary (read_package d w m) ≡ ok d)
marshal-read_package d w m bs f ew em inside exact =
    let (hw, enc) = Codec.encode-parse (slice 9 99 d) w ew in
    let (hr, mar) =
      (BatchCodec.manifest_parse_iff (slice 99 160 d) m (All-slice 99 160 d bs)).0 em in
    let room = paths_inside d (at 168 d) f.size refl f.small in
    let (l, hs) = read_path_shape (at 168 d) 0 d room in
    let last_index : 169 + 32 * at 168 d ≡ length d - 1 = omega (arith, f.size) in
    let last : at (169 + 32 * at 168 d) d ≡ 0 = ap (λ i. at i d) last_index ∙ f.no_anchor in
    (
      record {
        witness_sizes = hw;
        root_size = hr;
        path_sizes = hs;
        index_word =
            uint64-IsU64 (slice 160 168 d) (omega (arith, length-slice 160 168 d, f.size))
              (All-slice 160 168 d bs);
      },
      marshal_of (read_package d w m) d (slice 9 99 d) (slice 99 160 d) (record {
        witness_bytes = enc;
        manifest_bytes = mar;
        index_inside = inside;
        path_exact = l ∙ exact;
        written =
            write_package-layout (slice 9 99 d) (slice 99 160 d) (uint64 (slice 160 168 d))
              (read_path (at 168 d) 0 d) (omega (arith, length-slice 9 99 d, f.size))
              (omega (arith, length-slice 99 160 d, f.size)) hs
            ∙ layout_parts d (at 168 d) f.size refl f.small f.magic_bytes f.version_byte last bs;
      }),
    )

pub marshal_binary-parse :
    (d : Bytes) (p : Package)
    → All IsByte d
    → parse d ≡ ok p
    → IsPackage p × (marshal_binary p ≡ ok d)
marshal_binary-parse d p bs e =
    let (f, u, r) = parse_guards d p e in
    let (w, ew, r') =
      >>=-eq-ok (Commitment.parse (slice 9 99 d))
        (λ w. Batch.parse (slice 99 160 d) >>= λ m. assemble d w m) r in
    let (m, em, a) = >>=-eq-ok (Batch.parse (slice 99 160 d)) (λ m. assemble d w m) r' in
    let (inside, exact, same) = (assemble_iff d w m p).0 a in
    subst (λ q. IsPackage q × (marshal_binary q ≡ ok d)) same
      (marshal-read_package d w m bs f ew em inside exact)

-- For bytes, `parse` and `marshal_binary` of packages are inverse to each other: bytes parse to a
-- package exactly when its arrays have their sizes, its index is a uint64 and it marshals to just
-- those bytes.
pub package_parse_iff :
    (d : Bytes) (p : Package)
    → All IsByte d
    → (parse d ≡ ok p) ↔ (IsPackage p × (marshal_binary p ≡ ok d))
package_parse_iff d p bs = (marshal_binary-parse d p bs, λ (h, e). parse-marshal_binary p d h e)

-- The siblings of a parsed package have 32 bytes each.
pub parse-path_sizes : (d : Bytes) (p : Package) → parse d ≡ ok p → All IsHash p.path
parse-path_sizes d p e =
    let (f, u, r) = parse_guards d p e in
    let (w, ew, r') =
      >>=-eq-ok (Commitment.parse (slice 9 99 d))
        (λ w. Batch.parse (slice 99 160 d) >>= λ m. assemble d w m) r in
    let (m, em, a) = >>=-eq-ok (Batch.parse (slice 99 160 d)) (λ m. assemble d w m) r' in
    let (inside, exact, same) = (assemble_iff d w m p).0 a in
    subst (λ q. All IsHash q.path) same
      (read_path_shape (at 168 d) 0 d (paths_inside d (at 168 d) f.size refl f.small)).1
