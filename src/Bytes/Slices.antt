-- ===== src/Bytes/Slices.antt =====
-- A byte slice is put together from its consecutive parts.
use sigmaproof.Prelude.{ℕ, zero, suc, ◌-◌, ◌<◌, ◌≤◌, ◌≡◌, refl, ap, arith}
use sigmaproof.Prelude.{[], ◌∷◌, ◌++◌, length, length-take, length-drop, take}
use sigmaproof.Prelude.{take_all}
use sigmaproof.Prelude.{All, All-take, All-drop}
use sigmaproof.Prelude.{◌+◌, take_left, drop_past}
use sigmaproof.Bytes.{Bytes, IsByte, at, slice}

pub append-slice :
    (lo mid hi : ℕ) (d : Bytes)
    → lo ≤ mid
    → mid ≤ hi
    → slice lo mid d ++ slice mid hi d ≡ slice lo hi d
append-slice zero zero hi d h k = refl
append-slice zero (suc mid) zero d h k = absurd (omega arith)
append-slice zero (suc mid) (suc hi) [] h k = refl
append-slice zero (suc mid) (suc hi) (x ∷ d) h k =
    ap (λ t. x ∷ t) (append-slice zero mid hi d (omega arith) (omega arith))
append-slice (suc lo) zero hi d h k = absurd (omega arith)
append-slice (suc lo) (suc mid) zero d h k = absurd (omega arith)
append-slice (suc lo) (suc mid) (suc hi) [] h k = refl
append-slice (suc lo) (suc mid) (suc hi) (x ∷ d) h k =
    append-slice lo mid hi d (omega arith) (omega arith)

pub slice_all : (d : Bytes) (n : ℕ) → length d ≡ n → slice 0 n d ≡ d
slice_all d n h = take_all n d (omega arith)

pub slice_one : (i j : ℕ) (d : Bytes) → j ≡ suc i → i < length d → slice i j d ≡ at i d ∷ []
slice_one i zero d e h = absurd (omega arith)
slice_one i (suc j) [] e h = absurd (omega arith)
slice_one zero (suc zero) (x ∷ d) e h = refl
slice_one zero (suc (suc j)) (x ∷ d) e h = absurd (omega arith)
slice_one (suc i) (suc j) (x ∷ d) e h = slice_one i j d (omega arith) (omega arith)

pub length-slice : (lo hi : ℕ) (d : Bytes) → hi ≤ length d → length (slice lo hi d) ≡ hi - lo
length-slice lo hi d h = omega (arith, length-drop lo (take hi d), length-take hi d)

-- A byte in front of the slice behind it.
pub at-slice :
    (i hi : ℕ) (d : Bytes) → i < length d → i < hi → at i d ∷ slice (suc i) hi d ≡ slice i hi d
at-slice i zero d h k = absurd (omega arith)
at-slice i (suc hi) [] h k = absurd (omega arith)
at-slice zero (suc hi) (x ∷ d) h k = refl
at-slice (suc i) (suc hi) (x ∷ d) h k = at-slice i hi d (omega arith) (omega arith)

pub All-slice : (lo hi : ℕ) (d : Bytes) → All IsByte d → All IsByte (slice lo hi d)
All-slice lo hi d a = All-drop IsByte lo (take hi d) (All-take IsByte hi d a)

-- A part of a concatenation, by its position and length.
pub slice_mid :
    (lo hi : ℕ) (pre mid post : Bytes)
    → length pre ≡ lo
    → lo + length mid ≡ hi
    → slice lo hi (pre ++ (mid ++ post)) ≡ mid
slice_mid zero hi [] mid post h k = take_left hi mid post (omega arith)
slice_mid zero hi (x ∷ pre) mid post h k = absurd (omega arith)
slice_mid (suc lo) hi [] mid post h k = absurd (omega arith)
slice_mid (suc lo) zero (x ∷ pre) mid post h k = absurd (omega arith)
slice_mid (suc lo) (suc hi) (x ∷ pre) mid post h k =
    slice_mid lo hi pre mid post (omega arith) (omega arith)

pub at_mid :
    (i : ℕ) (pre : Bytes) (x : ℕ) (post : Bytes) → length pre ≡ i → at i (pre ++ (x ∷ post)) ≡ x
at_mid zero [] x post h = refl
at_mid zero (y ∷ pre) x post h = absurd (omega arith)
at_mid (suc i) [] x post h = absurd (omega arith)
at_mid (suc i) (y ∷ pre) x post h = at_mid i pre x post (omega arith)

-- A byte inside a part of a concatenation.
pub at_inside :
    (i j : ℕ) (pre mid post : Bytes)
    → length pre + j ≡ i
    → j < length mid
    → at i (pre ++ (mid ++ post)) ≡ at j mid
at_inside i j [] [] post h k = absurd (omega arith)
at_inside zero zero [] (y ∷ mid) post h k = refl
at_inside (suc i) zero [] (y ∷ mid) post h k = absurd (omega arith)
at_inside zero (suc j) [] (y ∷ mid) post h k = absurd (omega arith)
at_inside (suc i) (suc j) [] (y ∷ mid) post h k =
    at_inside i j [] mid post (omega arith) (omega arith)
at_inside zero j (x ∷ pre) mid post h k = absurd (omega arith)
at_inside (suc i) j (x ∷ pre) mid post h k = at_inside i j pre mid post (omega arith) k

pub slice_none : (lo hi : ℕ) (d : Bytes) → hi ≤ lo → slice lo hi d ≡ []
slice_none lo hi d h = drop_past lo (take hi d) (omega (arith, length-take hi d))
