-- ===== src/Bytes.antt =====
-- Byte slices of Go as lists of numbers, with the builtins and the parts of the packages bytes and
-- encoding/binary that the source uses: indexing, slicing, copy, bytes.Equal and big-endian words.
pub mod Slices
pub mod Copies
pub mod Words
use Prim.Native.Char.{code}
use Prim.Native.String.{String}
use sigmaproof.Prelude.{ℕ, zero, suc, ◌+◌, ◌-◌, ◌*◌, ◌/◌, ◌%◌, ◌^◌, ◌<◌, ◌≡◌, refl, ap, ◌↔◌, arith}
use sigmaproof.Prelude.{Bool, true, false, ◌&&◌, ◌==◌, List, [], ◌∷◌, length, get_or, take, drop}
use sigmaproof.Prelude.{All, Bool-cases, inl, inr, ◌⊎◌, ◌≢◌, ==_iff}

abbrev pub Bytes : Type 0
Bytes = List ℕ

-- The bytes of an ASCII text.
abbrev pub codes : String → Bytes
codes String.[] = []
codes (String.◌∷◌ c s) = code c ∷ codes s

abbrev pub IsByte : ℕ → Type 0
IsByte b = b < 256

abbrev pub IsU64 : ℕ → Type 0
IsU64 n = n < 2 ^ 64

-- `d[i]`; the source checks the length first.
abbrev pub at : ℕ → Bytes → ℕ
at i d = get_or d i 0

-- `d[lo:hi]`
abbrev pub slice : ℕ → ℕ → Bytes → Bytes
slice lo hi d = drop lo (take hi d)

-- `copy(out, src)`: as many bytes as both have.
abbrev pub copy : Bytes → Bytes → Bytes
copy [] src = []
copy (x ∷ out) [] = x ∷ out
copy (x ∷ out) (s ∷ src) = s ∷ copy out src

-- `copy(out[off:], src)`
abbrev pub copy_at : ℕ → Bytes → Bytes → Bytes
copy_at zero out src = copy out src
copy_at (suc off) [] src = []
copy_at (suc off) (x ∷ out) src = x ∷ copy_at off out src

-- `copy(out[lo:hi], src)`
abbrev pub copy_range : ℕ → ℕ → Bytes → Bytes → Bytes
copy_range lo hi out src = copy_at lo out (take (hi - lo) src)

-- `bytes.Equal`, and `==` of byte arrays
unfoldable pub bytes_equal : Bytes → Bytes → Bool
bytes_equal [] [] = true
bytes_equal [] (y ∷ ys) = false
bytes_equal (x ∷ xs) [] = false
bytes_equal (x ∷ xs) (y ∷ ys) = x == y && bytes_equal xs ys

pub bytes_equal_iff : (xs ys : Bytes) → (bytes_equal xs ys ≡ true) ↔ (xs ≡ ys)
unfolding bytes_equal
bytes_equal_iff [] [] = (λ _. refl, λ _. refl)
bytes_equal_iff [] (y ∷ ys) = (λ e. cc, λ e. cc)
bytes_equal_iff (x ∷ xs) [] = (λ e. cc, λ e. cc)
bytes_equal_iff (x ∷ xs) (y ∷ ys) =
    (λ e. ground (arith, bytes_equal_iff xs ys), λ e. ground (arith, bytes_equal_iff xs ys))

pub bytes_equal_refl : (xs : Bytes) → bytes_equal xs xs ≡ true
bytes_equal_refl xs = (bytes_equal_iff xs xs).1 refl

pub bytes-cases : (xs ys : Bytes) → (xs ≡ ys) ⊎ (xs ≢ ys)
bytes-cases xs ys = elim (Bool-cases (bytes_equal xs ys)) [
  | inl e ↦ inl ((bytes_equal_iff xs ys).0 e)
  | inr n ↦ inr (λ e. cc (n, (bytes_equal_iff xs ys).1 e))
]
