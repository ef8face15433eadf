-- ===== src/Package/Layout.antt =====
-- The bytes of a package: what the writes leave, and what `parse` reads of them.
use sigmaproof.Prelude.{
  ℕ, ◌+◌, ◌*◌, ◌%◌, ◌≡◌, refl, ap, sym, ◌∙◌, List, [], ◌∷◌, ◌++◌, length, replicate, All, arith,
  append_assoc, length-append, replicate-add,
}
use sigmaproof.Bytes.{Bytes, copy, copy_at, copy_range}
use sigmaproof.Bytes.Copies.{copy_range_mid, copy_at_mid}
use sigmaproof.Bytes.Words.{put_uint64, length-put_uint64}
use sigmaproof.Sha.{IsHash}
use sigmaproof.Merkle.{Hash}
use sigmaproof.Package.{magic, write_package, write_path}
use sigmaproof.Package.Paths.{concat, write_path-concat}

abbrev pub header : Bytes
header = magic ++ (1 ∷ [])

-- The parts in their order, behind the magic and the version.
unfoldable pub layout : Bytes → Bytes → ℕ → List Hash → Bytes
layout witness manifest index path =
    header
    ++ (witness
        ++ (manifest ++ (put_uint64 index ++ (length path % 256 ∷ (concat path ++ (0 ∷ []))))))

abbrev zeros : ℕ → Bytes
zeros n = replicate n 0

blank_buffer :
    (n : ℕ)
    → zeros (170 + n * 32)
      ≡ zeros 9 ++ (zeros 90 ++ (zeros 61 ++ (zeros 8 ++ (0 ∷ (zeros (n * 32) ++ (0 ∷ []))))))
blank_buffer n =
    let size : 170 + n * 32 ≡ 169 + (n * 32 + 1) = omega arith in
    ap zeros size
    ∙ replicate-add {A = ℕ} 169 (n * 32 + 1) 0
    ∙ ap (λ t. zeros 169 ++ t) (replicate-add {A = ℕ} (n * 32) 1 0)

-- The same bytes, grouped as what stands before a part and the rest.
pub split_two : (w m x : Bytes) → header ++ (w ++ (m ++ x)) ≡ (header ++ (w ++ m)) ++ x
split_two w m x = ap (λ t. header ++ t) (sym (append_assoc w m x))

pub split_three :
    (w m u x : Bytes) → header ++ (w ++ (m ++ (u ++ x))) ≡ (header ++ (w ++ (m ++ u))) ++ x
split_three w m u x =
    ap (λ t. header ++ (w ++ t)) (sym (append_assoc m u x)) ∙ split_two w (m ++ u) x

pub split_count :
    (w m u x : Bytes) (c : ℕ)
    → header ++ (w ++ (m ++ (u ++ (c ∷ x)))) ≡ (header ++ (w ++ (m ++ (u ++ (c ∷ []))))) ++ x
split_count w m u x c =
    ap (λ t. header ++ (w ++ (m ++ t))) (sym (append_assoc u (c ∷ []) x))
    ∙ split_three w m (u ++ (c ∷ [])) x

pub length_before :
    (w m u : Bytes)
    → length w ≡ 90
    → length m ≡ 61
    → length (header ++ (w ++ (m ++ u))) ≡ 160 + length u
length_before w m u p q = omega (arith, length-append w (m ++ u), length-append m u)

-- Each write in turn, into the buffer that the writes before have left.
module _ (w m u : Bytes) (c : ℕ) (hw : length w ≡ 90) (hm : length m ≡ 61) (hu : length u ≡ 8) where
  write_witness : (x : Bytes) → copy_range 9 99 (header ++ (zeros 90 ++ x)) w ≡ header ++ (w ++ x)
  write_witness x = copy_range_mid 9 99 header (zeros 90) x w refl hw (omega arith)

  write_manifest :
      (x : Bytes)
      → copy_range 99 160 (header ++ (w ++ (zeros 61 ++ x))) m ≡ header ++ (w ++ (m ++ x))
  write_manifest x =
      copy_range_mid 99 160 (header ++ w) (zeros 61) x m (omega arith) hm (omega arith)

  write_index :
      (x : Bytes)
      → copy_range 160 168 (header ++ (w ++ (m ++ (zeros 8 ++ x)))) u
        ≡ header ++ (w ++ (m ++ (u ++ x)))
  write_index x =
      ap (λ t. copy_range 160 168 t u) (split_two w m (zeros 8 ++ x))
      ∙ copy_range_mid 160 168 (header ++ (w ++ m)) (zeros 8) x u (omega (arith, length-append w m))
          hu (omega arith)
      ∙ sym (split_two w m (u ++ x))

  write_count :
      (x : Bytes)
      → copy_at 168 (header ++ (w ++ (m ++ (u ++ (0 ∷ x))))) (c ∷ [])
        ≡ header ++ (w ++ (m ++ (u ++ (c ∷ x))))
  write_count x =
      ap (λ t. copy_at 168 t (c ∷ [])) (split_three w m u (0 ∷ x))
      ∙ copy_at_mid 168 (header ++ (w ++ (m ++ u))) (0 ∷ []) x (c ∷ [])
          (omega (arith, length_before w m u hw hm)) refl
      ∙ sym (split_three w m u (c ∷ x))

  write_hashes :
      (path : List Hash)
      → All IsHash path
      → write_path 0
          (header ++ (w ++ (m ++ (u ++ (c ∷ (zeros (length path * 32) ++ (0 ∷ [])))))))
          path
        ≡ header ++ (w ++ (m ++ (u ++ (c ∷ (concat path ++ (0 ∷ []))))))
  write_hashes path hp =
      ap (λ t. write_path 0 t path) (split_count w m u (zeros (length path * 32) ++ (0 ∷ [])) c)
      ∙ write_path-concat path 0 (header ++ (w ++ (m ++ (u ++ (c ∷ []))))) (0 ∷ [])
          (omega (arith, length_before w m (u ++ (c ∷ [])) hw hm, length-append u (c ∷ []))) hp
      ∙ sym (split_count w m u (concat path ++ (0 ∷ [])) c)

-- The writes leave the parts one behind the other.
pub write_package-layout :
    (witness manifest : Bytes) (index : ℕ) (path : List Hash)
    → length witness ≡ 90
    → length manifest ≡ 61
    → All IsHash path
    → write_package witness manifest index path ≡ layout witness manifest index path
unfolding write_package layout
write_package-layout w m index path hw hm hp =
    let u = put_uint64 index in
    let c : ℕ = length path % 256 in
    let hu = length-put_uint64 index in
    let hashes : Bytes = zeros (length path * 32) ++ (0 ∷ []) in
    let start = ap (λ t. copy_at 8 (copy t magic) (1 ∷ [])) (blank_buffer (length path)) in
    let one =
      ap (λ t. copy_range 9 99 t w) start
      ∙ write_witness w m u c hw hm hu (zeros 61 ++ (zeros 8 ++ (0 ∷ hashes))) in
    let two =
      ap (λ t. copy_range 99 160 t m) one
      ∙ write_manifest w m u c hw hm hu (zeros 8 ++ (0 ∷ hashes)) in
    let three = ap (λ t. copy_range 160 168 t u) two ∙ write_index w m u c hw hm hu (0 ∷ hashes) in
    let four = ap (λ t. copy_at 168 t (c ∷ [])) three ∙ write_count w m u c hw hm hu hashes in
    ap (λ t. write_path 0 t path) four ∙ write_hashes w m u c hw hm hu path hp
