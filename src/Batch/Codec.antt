-- ===== src/Batch/Codec.antt =====
-- The manifest's encoding: `parse` and `marshal_binary` are inverse to each other.
use sigmaproof.Prelude.{
  ◌≤◌, ◌<◌, ◌^◌, ◌≡◌, ◌↔◌, refl, ap, sym, ◌∙◌, ◌∷◌, ◌++◌, length, ok, ◌>>◌, ap₂, take_all, arith,
  >>=-eq-ok, ok-injective, replicate, All, take,
}
use sigmaproof.Bytes.{Bytes, IsByte, IsU64, bytes_equal_iff, slice, at, copy}
use sigmaproof.Bytes.Slices.{append-slice, at-slice, slice_all, length-slice, All-slice}
use sigmaproof.Bytes.Copies.{copy_all}
use sigmaproof.Bytes.Words.{put_uint64, uint64, uint64-put_uint64, put_uint64-uint64}
use sigmaproof.Sha.{IsHash}
use sigmaproof.Batch.{Manifest, domain, validate, write_manifest, marshal_binary, fields, parse}

-- What the writes leave in the buffer, for a root of 32 bytes.
unfoldable pub layout : Manifest → Bytes
layout m =
    domain
    ++ (m.version_byte
        ∷ m.commitment_version
        ∷ m.commitment_algorithm
        ∷ m.tree_algorithm
        ∷ (put_uint64 m.size ++ m.root))

pub write_manifest-layout : (m : Manifest) → IsHash m.root → write_manifest m ≡ layout m
unfolding write_manifest layout put_uint64
write_manifest-layout m h = rw (copy_all 32 m.root h)

pub length-layout : (m : Manifest) → IsHash m.root → length (layout m) ≡ 61
unfolding layout put_uint64
length-layout m h = omega arith

pub fields-layout : (m : Manifest) → IsHash m.root → IsU64 m.size → fields (layout m) ≡ m
unfolding fields layout put_uint64
fields-layout m h u = λ i. record {
  version_byte = m.version_byte;
  commitment_version = m.commitment_version;
  commitment_algorithm = m.commitment_algorithm;
  tree_algorithm = m.tree_algorithm;
  size = uint64-put_uint64 m.size u i;
  root = root_back i;
}
  where
    root_back : copy (replicate 32 0) (take 32 m.root) ≡ m.root
    root_back = rw (take_all 32 m.root (omega arith)) (copy_all 32 m.root h)

four_fields :
    (d : Bytes)
    → length d ≡ 61
    → at 17 d ∷ at 18 d ∷ at 19 d ∷ at 20 d ∷ slice 21 61 d ≡ slice 17 61 d
four_fields d n =
    ap (λ t. at 17 d ∷ at 18 d ∷ at 19 d ∷ t) (at-slice 20 61 d (omega arith) (omega arith))
    ∙ ap (λ t. at 17 d ∷ at 18 d ∷ t) (at-slice 19 61 d (omega arith) (omega arith))
    ∙ ap (λ t. at 17 d ∷ t) (at-slice 18 61 d (omega arith) (omega arith))
    ∙ at-slice 17 61 d (omega arith) (omega arith)

root_slice : (d : Bytes) → length d ≡ 61 → copy (replicate 32 0) (slice 29 61 d) ≡ slice 29 61 d
root_slice d n = copy_all 32 (slice 29 61 d) (omega (arith, length-slice 29 61 d))

size_slice :
    (d : Bytes) → length d ≡ 61 → All IsByte d → put_uint64 (uint64 (slice 21 29 d)) ≡ slice 21 29 d
size_slice d n bs =
    put_uint64-uint64 (slice 21 29 d) (omega (arith, length-slice 21 29 d)) (All-slice 21 29 d bs)

pub layout-fields :
    (d : Bytes) → length d ≡ 61 → slice 0 17 d ≡ domain → All IsByte d → layout (fields d) ≡ d
unfolding layout fields
layout-fields d n e bs =
    ap₂ (λ s r. domain ++ (at 17 d ∷ at 18 d ∷ at 19 d ∷ at 20 d ∷ (s ++ r))) (size_slice d n bs)
      (root_slice d n)
    ∙ ap (λ t. domain ++ (at 17 d ∷ at 18 d ∷ at 19 d ∷ at 20 d ∷ t))
        (append-slice 21 29 61 d (omega arith) (omega arith))
    ∙ ap (λ t. domain ++ t) (four_fields d n)
    ∙ ap (λ t. t ++ slice 17 61 d) (sym e)
    ∙ append-slice 0 17 61 d (omega arith) (omega arith)
    ∙ slice_all d 61 n

-- The field values that `validate` accepts.
pub record IsValid (m : Manifest) : Type 0 where
  pub version_one : m.version_byte ≡ 1
  pub commitment_version_one : m.commitment_version ≡ 1
  pub commitment_sha256 : m.commitment_algorithm ≡ 1
  pub tree_rfc6962 : m.tree_algorithm ≡ 1
  pub nonempty : 0 < m.size
  pub bounded : m.size ≤ 2 ^ 16

pub validate_iff : (m : Manifest) → (validate m ≡ ok tt) ↔ IsValid m
unfolding validate
validate_iff m = (λ e. ground arith, λ v. ground arith)

pub marshal_binary_iff :
    (m : Manifest) (d : Bytes)
    → IsHash m.root
    → (marshal_binary m ≡ ok d) ↔ (IsValid m × (layout m ≡ d))
unfolding marshal_binary
marshal_binary_iff m d h = (
  λ e.
      let (u, p, q) = >>=-eq-ok (validate m) (λ _. ok (write_manifest m)) e in
      ((validate_iff m).0 p, sym (write_manifest-layout m h) ∙ ok-injective q),
  λ (v, p). rw ((validate_iff m).1 v) (ap ok (write_manifest-layout m h ∙ p)),
)

parse_guards :
    (d : Bytes) (m : Manifest)
    → parse d ≡ ok m
    → (length d ≡ 61) × (slice 0 17 d ≡ domain) × ((validate (fields d) >> ok (fields d)) ≡ ok m)
unfolding parse
parse_guards d m e = ground (arith, bytes_equal_iff (slice 0 17 d) domain)

parse_framed :
    (d : Bytes)
    → length d ≡ 61
    → slice 0 17 d ≡ domain
    → validate (fields d) ≡ ok tt
    → parse d ≡ ok (fields d)
unfolding parse
parse_framed d n e v = ground (arith, bytes_equal_iff (slice 0 17 d) domain)

pub parse-marshal_binary :
    (m : Manifest) (d : Bytes) → IsHash m.root → marshal_binary m ≡ ok d → parse d ≡ ok m
parse-marshal_binary m d h e =
    let (v, p) = (marshal_binary_iff m d h).0 e in
    let back : fields d ≡ m = rw p at (fields-layout m h (omega (arith, v.bounded))) in
    rw back at (
      parse_framed d (rw p at (length-layout m h)) (rw (← p) (unfold layout in refl))
        (rw back ((validate_iff m).1 v)))

root_size : (d : Bytes) → length d ≡ 61 → IsHash (fields d).root
unfolding fields
root_size d n = rw (root_slice d n) (omega (arith, length-slice 29 61 d))

-- A successful `parse` gives a valid manifest with a root of 32 bytes.
pub parse_sound :
    (d : Bytes) (m : Manifest) → parse d ≡ ok m → IsHash m.root × IsValid m × (length d ≡ 61)
parse_sound d m e =
    let (n, dom, r) = parse_guards d m e in
    let (u, p, same) = >>=-eq-ok (validate (fields d)) (λ _. ok (fields d)) r in
    let m_fields : fields d ≡ m = ok-injective same in
    (rw m_fields at (root_size d n), (validate_iff m).0 (rw m_fields at p), n)

pub marshal_binary-parse :
    (d : Bytes) (m : Manifest) → All IsByte d → parse d ≡ ok m → marshal_binary m ≡ ok d
marshal_binary-parse d m bs e =
    let (h, v, n) = parse_sound d m e in
    let (_, dom, r) = parse_guards d m e in
    let (u, p, same) = >>=-eq-ok (validate (fields d)) (λ _. ok (fields d)) r in
    (marshal_binary_iff m d h).1 (v, ap layout (sym (ok-injective same)) ∙ layout-fields d n dom bs)

-- For bytes, `parse` and `marshal_binary` are inverse to each other: bytes parse to a manifest
-- exactly when it has a root of 32 bytes and marshals to just those bytes.
pub manifest_parse_iff :
    (d : Bytes) (m : Manifest)
    → All IsByte d
    → (parse d ≡ ok m) ↔ (IsHash m.root × (marshal_binary m ≡ ok d))
manifest_parse_iff d m bs = (
  λ e. ((parse_sound d m e).0, marshal_binary-parse d m bs e),
  λ (h, e). parse-marshal_binary m d h e,
)
