-- ===== src/Bytes/Words.antt =====
-- encoding/binary: `BigEndian.PutUint64` and `BigEndian.Uint64`.
use sigmaproof.Prelude.{ℕ, ◌+◌, ◌*◌, ◌/◌, ◌%◌, ◌^◌, ◌≡◌, refl, arith}
use sigmaproof.Prelude.{[], ◌∷◌, length, All}
use sigmaproof.Bytes.{Bytes, IsByte, IsU64, at}

-- The eight bytes, most significant first: `byte(v >> 56)` and so on.
unfoldable pub put_uint64 : ℕ → Bytes
put_uint64 v =
    v / 2 ^ 56 % 256
    ∷ v / 2 ^ 48 % 256
    ∷ v / 2 ^ 40 % 256
    ∷ v / 2 ^ 32 % 256
    ∷ v / 2 ^ 24 % 256
    ∷ v / 2 ^ 16 % 256
    ∷ v / 2 ^ 8 % 256
    ∷ v % 256
    ∷ []

unfoldable pub uint64 : Bytes → ℕ
uint64 d =
    at 0 d * 2 ^ 56
    + at 1 d * 2 ^ 48
    + at 2 d * 2 ^ 40
    + at 3 d * 2 ^ 32
    + at 4 d * 2 ^ 24
    + at 5 d * 2 ^ 16
    + at 6 d * 2 ^ 8
    + at 7 d

pub length-put_uint64 : (v : ℕ) → length (put_uint64 v) ≡ 8
unfolding put_uint64
length-put_uint64 v = refl

pub uint64-put_uint64 : (v : ℕ) → IsU64 v → uint64 (put_uint64 v) ≡ v
unfolding put_uint64 uint64
uint64-put_uint64 v h = omega arith

eight_digits :
    (a b c e f g h i : ℕ)
    → All IsByte (a ∷ b ∷ c ∷ e ∷ f ∷ g ∷ h ∷ i ∷ [])
    → put_uint64 (uint64 (a ∷ b ∷ c ∷ e ∷ f ∷ g ∷ h ∷ i ∷ [])) ≡ a ∷ b ∷ c ∷ e ∷ f ∷ g ∷ h ∷ i ∷ []
unfolding put_uint64 uint64
eight_digits a b c e f g h i bs = ground arith

pub put_uint64-uint64 : (d : Bytes) → length d ≡ 8 → All IsByte d → put_uint64 (uint64 d) ≡ d
put_uint64-uint64 (a ∷ b ∷ c ∷ e ∷ f ∷ g ∷ h ∷ i ∷ []) l bs = eight_digits a b c e f g h i bs
put_uint64-uint64 d l bs = absurd (omega arith)

pub uint64-IsU64 : (d : Bytes) → length d ≡ 8 → All IsByte d → IsU64 (uint64 d)
unfolding uint64
uint64-IsU64 (a ∷ b ∷ c ∷ e ∷ f ∷ g ∷ h ∷ i ∷ []) l bs = omega arith
uint64-IsU64 d l bs = absurd (omega arith)
