-- ===== src/Storage/Draws.antt =====
-- The ids that are drawn.
use sigmaproof.Prelude.{
  ℕ, ◌*◌, ◌/◌, ◌%◌, ◌<◌, ◌≡◌, refl, ap, sym, ◌∙◌, true, Option, none, some, Option-cases, List, [],
  ◌∷◌, length, All, ok, ok-injective, arith, inl, inr,
}
use sigmaproof.Bytes.{Bytes, IsByte}
use sigmaproof.Text.{hex, hex_digit, hex_value, push_byte, decode_hex}
use sigmaproof.Storage.Types.{valid_id}
use sigmaproof.Storage.Records.{new_id}

-- A draw of the random source: 16 bytes, or a failure.
abbrev pub IsDraw : Option Bytes → Type 0
IsDraw none = Unit
IsDraw (some raw) = (length raw ≡ 16) × All IsByte raw

abbrev pub IsDraws : List (Option Bytes) → Type 0
IsDraws draws = All IsDraw draws

hex_value-hex_digit : (n : ℕ) → n < 16 → hex_value (hex_digit n) ≡ some n
unfolding hex_value
hex_value-hex_digit n h = ground (arith, h)

-- What is encoded is decoded.
pub decode_hex-hex : (d : Bytes) → All IsByte d → decode_hex (hex d) ≡ some d
unfolding decode_hex hex push_byte
decode_hex-hex [] h = refl
decode_hex-hex (b ∷ d) (small, h) =
    let hi = hex_value-hex_digit (b / 16) (omega (arith, small)) in
    let lo = hex_value-hex_digit (b % 16) (omega arith) in
    rw (hi, lo, decode_hex-hex d h) (ap (λ t. some (t ∷ d)) (omega arith))

length-hex : (d : Bytes) → length (hex d) ≡ 2 * length d
unfolding hex
length-hex [] = refl
length-hex (b ∷ d) = omega (arith, length-hex d)

hex-IsId : (raw : Bytes) → IsDraw (some raw) → valid_id (hex raw) ≡ true
unfolding valid_id
hex-IsId raw (n, h) =
    let size : length (hex raw) ≡ 32 = omega (arith, length-hex raw, n) in
    rw (size, decode_hex-hex raw h) refl

-- An id that was drawn is valid, and names nothing yet.
pub new_id-fresh :
    (draws : List (Option Bytes)) (found : Bytes → Option Bytes) (id : Bytes)
    → IsDraws draws
    → new_id draws found ≡ ok id
    → (found id ≡ none) × (valid_id id ≡ true)
unfolding new_id
new_id-fresh [] found id h e = cc
new_id-fresh (none ∷ draws) found id h e = cc
new_id-fresh (some raw ∷ draws) found id (one, h) e = elim (Option-cases (found (hex raw))) [
  | inl free ↦
      let g = rw (new_id, free) at e in
      let same : hex raw ≡ id = ok-injective g in
      (ap found (sym same) ∙ free, ap valid_id (sym same) ∙ hex-IsId raw one)
  | inr (d, taken) ↦ let g = rw (new_id, taken) at e in new_id-fresh draws found id h g
]
