-- ===== src/Bytes/Copies.antt =====
-- `copy` into the middle of a buffer.
use sigmaproof.Prelude.{ℕ, zero, suc, ◌≡◌, refl, ap, arith}
use sigmaproof.Prelude.{[], ◌∷◌, ◌++◌, length}
use sigmaproof.Prelude.{◌-◌, take_all, append-nil, replicate, length-replicate}
use sigmaproof.Bytes.{Bytes, copy, copy_at, copy_range}

pub copy_front :
    (mid post src : Bytes) → length src ≡ length mid → copy (mid ++ post) src ≡ src ++ post
copy_front [] [] [] h = refl
copy_front [] (y ∷ post) [] h = refl
copy_front [] post (s ∷ src) h = absurd (omega arith)
copy_front (x ∷ mid) post [] h = absurd (omega arith)
copy_front (x ∷ mid) post (s ∷ src) h = ap (λ t. s ∷ t) (copy_front mid post src (omega arith))

-- The bytes before and behind the written part stay.
pub copy_at_mid :
    (off : ℕ) (pre mid post src : Bytes)
    → length pre ≡ off
    → length src ≡ length mid
    → copy_at off (pre ++ (mid ++ post)) src ≡ pre ++ (src ++ post)
copy_at_mid zero [] mid post src h k = copy_front mid post src k
copy_at_mid zero (x ∷ pre) mid post src h k = absurd (omega arith)
copy_at_mid (suc off) [] mid post src h k = absurd (omega arith)
copy_at_mid (suc off) (x ∷ pre) mid post src h k =
    ap (λ t. x ∷ t) (copy_at_mid off pre mid post src (omega arith) k)

pub copy_range_mid :
    (lo hi : ℕ) (pre mid post src : Bytes)
    → length pre ≡ lo
    → length src ≡ length mid
    → length src ≡ hi - lo
    → copy_range lo hi (pre ++ (mid ++ post)) src ≡ pre ++ (src ++ post)
copy_range_mid lo hi pre mid post src h k l =
    rw (take_all (hi - lo) src (omega arith)) (copy_at_mid lo pre mid post src h k)

-- `copy` into an array of zeros of the source's size.
pub copy_all : (n : ℕ) (src : Bytes) → length src ≡ n → copy (replicate n 0) src ≡ src
copy_all n src h =
    let zeros : Bytes = replicate n 0 in
    let size : length src ≡ length zeros = omega (arith, length-replicate {A = ℕ} n 0) in
    cc (copy_front zeros [] src size, append-nil zeros, append-nil src)
