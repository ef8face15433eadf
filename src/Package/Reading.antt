-- ===== src/Package/Reading.antt =====
-- What `parse` reads at the fixed offsets of a layout, and that the parts at those offsets lay out
-- to the bytes they were read from.
use sigmaproof.Prelude.{
  ℕ, ◌+◌, ◌*◌, ◌%◌, ◌≤◌, ◌<◌, ◌≡◌, refl, ap, ap₂, sym, ◌∙◌, List, [], ◌∷◌, ◌++◌, length, All, arith,
  append_assoc, length-append,
}
use sigmaproof.Bytes.{Bytes, IsByte, slice, at}
use sigmaproof.Bytes.Slices.{
  slice_mid, at_mid, at_inside, at-slice, append-slice, slice_one, slice_all, All-slice,
  length-slice,
}
use sigmaproof.Bytes.Words.{put_uint64, uint64, length-put_uint64, put_uint64-uint64}
use sigmaproof.Sha.{IsHash}
use sigmaproof.Merkle.{Hash}
use sigmaproof.Package.{magic, read_path}
use sigmaproof.Package.Paths.{
  concat, length-concat, read_path-concat, concat-read_path, read_path_shape,
}
use sigmaproof.Package.Layout.{header, layout, split_two, split_three, split_count, length_before}

module _ (w m : Bytes) (index : ℕ) (path : List Hash) (hw : length w ≡ 90) (hm : length m ≡ 61)
    (hp : All IsHash path) where
  size_before :
      length (header ++ (w ++ (m ++ (put_uint64 index ++ (length path % 256 ∷ []))))) ≡ 169
  size_before = omega (
    arith,
    length_before w m (put_uint64 index ++ (length path % 256 ∷ [])) hw hm,
    length-append (put_uint64 index) (length path % 256 ∷ []),
    length-put_uint64 index,
  )

  pub length-layout : length (layout w m index path) ≡ 170 + 32 * length path
  unfolding layout
  length-layout =
      ap length (split_count w m (put_uint64 index) (concat path ++ (0 ∷ [])) (length path % 256))
      ∙ omega (
        arith,
        size_before,
        length-append (header ++ (w ++ (m ++ (put_uint64 index ++ (length path % 256 ∷ [])))))
            (concat path ++ (0 ∷ [])),
        length-append (concat path) (0 ∷ []),
        length-concat path hp,
      )

  pub layout-magic : slice 0 8 (layout w m index path) ≡ magic
  unfolding layout
  layout-magic = refl

  pub layout_version : at 8 (layout w m index path) ≡ 1
  unfolding layout
  layout_version = refl

  pub layout_witness : slice 9 99 (layout w m index path) ≡ w
  unfolding layout
  layout_witness = slice_mid 9 99 header w _ refl (omega arith)

  pub layout_manifest : slice 99 160 (layout w m index path) ≡ m
  unfolding layout
  layout_manifest = slice_mid 99 160 (header ++ w) m _ (omega arith) (omega arith)

  pub layout_index : slice 160 168 (layout w m index path) ≡ put_uint64 index
  unfolding layout
  layout_index =
      ap (slice 160 168) (split_two w m _)
      ∙ slice_mid 160 168 (header ++ (w ++ m)) (put_uint64 index) _
          (omega (arith, length-append w m)) (omega (arith, length-put_uint64 index))

  pub layout_count : at 168 (layout w m index path) ≡ length path % 256
  unfolding layout
  layout_count =
      ap (at 168) (split_three w m (put_uint64 index) _)
      ∙ at_mid 168 (header ++ (w ++ (m ++ put_uint64 index))) (length path % 256) _
          (omega (arith, length_before w m (put_uint64 index) hw hm, length-put_uint64 index))

  pub layout_path : read_path (length path) 0 (layout w m index path) ≡ path
  unfolding layout
  layout_path =
      ap (read_path (length path) 0)
        (split_count w m (put_uint64 index) (concat path ++ (0 ∷ [])) (length path % 256))
      ∙ read_path-concat path 0
          (header ++ (w ++ (m ++ (put_uint64 index ++ (length path % 256 ∷ []))))) (0 ∷ [])
          (omega (arith, size_before)) hp

  pub layout_anchor : at (169 + 32 * length path) (layout w m index path) ≡ 0
  unfolding layout
  layout_anchor =
      let before = header ++ (w ++ (m ++ (put_uint64 index ++ (length path % 256 ∷ [])))) in
      ap (at (169 + 32 * length path)) (
        split_count w m (put_uint64 index) (concat path ++ (0 ∷ [])) (length path % 256)
        ∙ sym (append_assoc before (concat path) (0 ∷ [])))
      ∙ at_mid (169 + 32 * length path) (before ++ concat path) 0 []
          (omega (arith, length-append before (concat path), size_before, length-concat path hp))

  pub layout_witness_byte : (i j : ℕ) → 9 + j ≡ i → j < 90 → at i (layout w m index path) ≡ at j w
  unfolding layout
  layout_witness_byte i j e h = at_inside i j header w _ e (omega arith)

  pub layout_manifest_byte : (i j : ℕ) → 99 + j ≡ i → j < 61 → at i (layout w m index path) ≡ at j m
  unfolding layout
  layout_manifest_byte i j e h = at_inside i j (header ++ w) m _ (omega arith) (omega arith)

-- The parts that are read off a framed byte string lay out to it.
module _ (d : Bytes) (count : ℕ) (n : length d ≡ 170 + 32 * count) (c : at 168 d ≡ count)
    (small : count ≤ 16) where
  pub paths_inside : 169 + (0 + count) * 32 ≤ length d
  paths_inside = omega arith

  hashes_slice :
      at (169 + 32 * count) d ≡ 0
      → concat (read_path count 0 d) ++ (0 ∷ []) ≡ slice 169 (170 + 32 * count) d
  hashes_slice z =
      let there : 169 + (0 + count) * 32 ≡ 169 + 32 * count = omega arith in
      ap₂ ◌++◌ (concat-read_path count 0 d paths_inside ∙ ap (λ t. slice 169 t d) there) (
        ap (λ t. t ∷ []) (sym z)
        ∙ sym (slice_one (169 + 32 * count) (170 + 32 * count) d (omega arith) (omega arith)))
      ∙ append-slice 169 (169 + 32 * count) (170 + 32 * count) d (omega arith) (omega arith)

  count-slice :
      length (read_path count 0 d) % 256 ∷ slice 169 (170 + 32 * count) d
      ≡ slice 168 (170 + 32 * count) d
  count-slice =
      let (l, _) = read_path_shape count 0 d paths_inside in
      let same : length (read_path count 0 d) % 256 ≡ at 168 d = omega arith in
      ap (λ t. t ∷ slice 169 (170 + 32 * count) d) same
      ∙ at-slice 168 (170 + 32 * count) d (omega arith) (omega arith)

  index_slice : All IsByte d → put_uint64 (uint64 (slice 160 168 d)) ≡ slice 160 168 d
  index_slice bs =
      put_uint64-uint64 (slice 160 168 d) (omega (arith, length-slice 160 168 d))
        (All-slice 160 168 d bs)

  header-slice : slice 0 8 d ≡ magic → at 8 d ≡ 1 → header ≡ slice 0 9 d
  header-slice e v =
      ap₂ ◌++◌ (sym e) (ap (λ t. t ∷ []) (sym v) ∙ sym (slice_one 8 9 d refl (omega arith)))
      ∙ append-slice 0 8 9 d (omega arith) (omega arith)

  join :
      (lo mid : ℕ)
      → lo ≤ mid
      → mid ≤ 170
      → slice lo mid d ++ slice mid (170 + 32 * count) d ≡ slice lo (170 + 32 * count) d
  join lo mid p q = append-slice lo mid (170 + 32 * count) d p (omega arith)

  pub layout_parts :
      slice 0 8 d ≡ magic
      → at 8 d ≡ 1
      → at (169 + 32 * count) d ≡ 0
      → All IsByte d
      → layout (slice 9 99 d) (slice 99 160 d) (uint64 (slice 160 168 d)) (read_path count 0 d) ≡ d
  unfolding layout
  layout_parts e v z bs =
      let tail = ap (λ t. length (read_path count 0 d) % 256 ∷ t) (hashes_slice z) ∙ count-slice in
      let index = ap₂ ◌++◌ (index_slice bs) tail ∙ join 160 168 (omega arith) (omega arith) in
      let manifest =
        ap (λ t. slice 99 160 d ++ t) index ∙ join 99 160 (omega arith) (omega arith) in
      let witness = ap (λ t. slice 9 99 d ++ t) manifest ∙ join 9 99 (omega arith) (omega arith) in
      ap₂ ◌++◌ (header-slice e v) witness
      ∙ join 0 9 (omega arith) (omega arith)
      ∙ slice_all d (170 + 32 * count) n
