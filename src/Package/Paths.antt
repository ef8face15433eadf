-- ===== src/Package/Paths.antt =====
-- The sibling hashes of a package as bytes: the two loops over the path.
use sigmaproof.Prelude.{
  ℕ, zero, suc, ◌+◌, ◌*◌, ◌≤◌, ◌≡◌, refl, ap, ap₂, sym, ◌∙◌, List, [], ◌∷◌, ◌++◌, length, replicate,
  All, arith, append_assoc, length-append, replicate-add,
}
use sigmaproof.Bytes.{Bytes, slice, copy, copy_range}
use sigmaproof.Bytes.Slices.{append-slice, slice_mid, slice_none, length-slice}
use sigmaproof.Bytes.Copies.{copy_range_mid, copy_all}
use sigmaproof.Sha.{IsHash}
use sigmaproof.Merkle.{Hash}
use sigmaproof.Package.{write_path, read_path}

pub concat : List Hash → Bytes
concat [] = []
concat (h ∷ hs) = h ++ concat hs

pub length-concat : (hs : List Hash) → All IsHash hs → length (concat hs) ≡ length hs * 32
unfolding concat
length-concat [] a = refl
length-concat (h ∷ hs) (p, ps) = omega (arith, length-append h (concat hs), length-concat hs ps)

zeros_split :
    (n : ℕ) (post : Bytes)
    → replicate (suc n * 32) 0 ++ post ≡ replicate 32 0 ++ (replicate (n * 32) 0 ++ post)
zeros_split n post =
    let size : suc n * 32 ≡ 32 + n * 32 = omega arith in
    ap (λ t. t ++ post) (ap (λ k. replicate {A = ℕ} k 0) size ∙ replicate-add {A = ℕ} 32 (n * 32) 0)

regroup : (pre h c post : Bytes) → pre ++ ((h ++ c) ++ post) ≡ (pre ++ h) ++ (c ++ post)
regroup pre h c post = rw (append_assoc h c post, append_assoc pre h (c ++ post))

-- One round of the writing loop.
write_one :
    (i n : ℕ) (pre h post : Bytes)
    → length pre ≡ 169 + i * 32
    → IsHash h
    → copy_range (169 + i * 32) (169 + (i + 1) * 32) (pre ++ (replicate (suc n * 32) 0 ++ post)) h
      ≡ (pre ++ h) ++ (replicate (n * 32) 0 ++ post)
write_one i n pre h post e p =
    ap (λ t. copy_range (169 + i * 32) (169 + (i + 1) * 32) (pre ++ t) h) (zeros_split n post)
    ∙ copy_range_mid (169 + i * 32) (169 + (i + 1) * 32) pre (replicate 32 0)
        (replicate (n * 32) 0 ++ post) h e p (omega arith)
    ∙ sym (append_assoc pre h (replicate (n * 32) 0 ++ post))

-- Writing fills the reserved zeros with the hashes, one after the other.
pub write_path-concat :
    (hs : List Hash) (i : ℕ) (pre post : Bytes)
    → length pre ≡ 169 + i * 32
    → All IsHash hs
    → write_path i (pre ++ (replicate (length hs * 32) 0 ++ post)) hs ≡ pre ++ (concat hs ++ post)
unfolding write_path concat
write_path-concat [] i pre post n a = refl
write_path-concat (h ∷ hs) i pre post n (p, ps) =
    ap (λ t. write_path (i + 1) t hs) (write_one i (length hs) pre h post n p)
    ∙ write_path-concat hs (i + 1) (pre ++ h) post (omega (arith, length-append pre h)) ps
    ∙ sym (regroup pre h (concat hs) post)

-- Reading takes them back.
pub read_path-concat :
    (hs : List Hash) (i : ℕ) (pre post : Bytes)
    → length pre ≡ 169 + i * 32
    → All IsHash hs
    → read_path (length hs) i (pre ++ (concat hs ++ post)) ≡ hs
unfolding read_path concat
read_path-concat [] i pre post n a = refl
read_path-concat (h ∷ hs) i pre post n (p, ps) =
    let taken : slice (169 + i * 32) (169 + (i + 1) * 32) (pre ++ ((h ++ concat hs) ++ post)) ≡ h =
      ap (λ t. slice (169 + i * 32) (169 + (i + 1) * 32) (pre ++ t))
        (append_assoc h (concat hs) post)
      ∙ slice_mid (169 + i * 32) (169 + (i + 1) * 32) pre h (concat hs ++ post) n (omega arith) in
    ap₂ ◌∷◌ (ap (copy (replicate 32 0)) taken ∙ copy_all 32 h p) (
      ap (read_path (length hs) (i + 1)) (regroup pre h (concat hs) post)
      ∙ read_path-concat hs (i + 1) (pre ++ h) post (omega (arith, length-append pre h)) ps)

-- The hashes that are read are the bytes of that region.
pub concat-read_path :
    (n i : ℕ) (d : Bytes)
    → 169 + (i + n) * 32 ≤ length d
    → concat (read_path n i d) ≡ slice (169 + i * 32) (169 + (i + n) * 32) d
unfolding read_path concat
concat-read_path zero i d h = sym (slice_none (169 + i * 32) (169 + (i + 0) * 32) d (omega arith))
concat-read_path (suc n) i d h =
    let there : i + 1 + n ≡ i + suc n = omega arith in
    ap₂ ◌++◌
      (copy_all 32 (slice (169 + i * 32) (169 + (i + 1) * 32) d)
        (omega (arith, length-slice (169 + i * 32) (169 + (i + 1) * 32) d)))
      (concat-read_path n (i + 1) d (omega arith))
    ∙ rw there (
        append-slice (169 + i * 32) (169 + (i + 1) * 32) (169 + (i + suc n) * 32) d (omega arith)
          (omega arith))

pub read_path_shape :
    (n i : ℕ) (d : Bytes)
    → 169 + (i + n) * 32 ≤ length d
    → (length (read_path n i d) ≡ n) × All IsHash (read_path n i d)
unfolding read_path
read_path_shape zero i d h = (refl, tt)
read_path_shape (suc n) i d h =
    let part = slice (169 + i * 32) (169 + (i + 1) * 32) d in
    let size : length part ≡ 32 =
      omega (arith, length-slice (169 + i * 32) (169 + (i + 1) * 32) d) in
    let (l, a) = read_path_shape n (i + 1) d (omega arith) in
    (omega arith, (ap length (copy_all 32 part size) ∙ size, a))
