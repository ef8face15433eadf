-- ===== src/Agent/Planner/Keys.antt =====
-- The idempotency key of a plan: what it binds.
use sigmaproof.Prelude.{
  ℕ, ◌/◌, ◌%◌, ◌≡◌, ◌⊎◌, refl, ap, ap₂, false, List, [], ◌∷◌, ◌++◌, All, arith, inl, inr,
}
use sigmaproof.Bytes.{Bytes, at}
use sigmaproof.Sha.{Sha256, Collision, sum, sum_injective}
use sigmaproof.Text.{hex, hex_digit, contains_nul}
use sigmaproof.Agent.Planner.{key_frames, stable_key}

-- A text without the byte 0.
abbrev pub HasNoNul : Bytes → Type 0
HasNoNul d = contains_nul d ≡ false

hex_digit_injective : (a b : ℕ) → hex_digit a ≡ hex_digit b → a ≡ b
hex_digit_injective a b e = ground arith

hex_injective : (x y : Bytes) → hex x ≡ hex y → x ≡ y
unfolding hex
hex_injective [] [] e = refl
hex_injective [] (b ∷ y) e = cc
hex_injective (a ∷ x) [] e = cc
hex_injective (a ∷ x) (b ∷ y) e =
    let high : a / 16 ≡ b / 16 = hex_digit_injective (a / 16) (b / 16) cc in
    let low : a % 16 ≡ b % 16 = hex_digit_injective (a % 16) (b % 16) cc in
    let rest : hex x ≡ hex y = cc in ap₂ (λ h t. h ∷ t) (omega arith) (hex_injective x y rest)

-- Frames that start with equal texts: a part ends where the next 0 or the end of the bytes is.
frame_split :
    (p q : Bytes) (ps qs : List Bytes)
    → HasNoNul p
    → HasNoNul q
    → p ++ key_frames ps ≡ q ++ key_frames qs
    → (p ≡ q) × (key_frames ps ≡ key_frames qs)
unfolding key_frames contains_nul
frame_split [] [] ps qs a b e = (refl, e)
frame_split [] (y ∷ q) [] qs a b e = cc
frame_split [] (y ∷ q) (r ∷ ps) qs a b e = let head : 0 ≡ y = ap (at 0) e in absurd (ground arith)
frame_split (x ∷ p) [] ps [] a b e = cc
frame_split (x ∷ p) [] ps (r ∷ qs) a b e = let head : x ≡ 0 = ap (at 0) e in absurd (ground arith)
frame_split (x ∷ p) (y ∷ q) ps qs a b e =
    let rest : p ++ key_frames ps ≡ q ++ key_frames qs = cc in
    let (same, frames) = frame_split p q ps qs (ground arith) (ground arith) rest in
    let head : x ≡ y = ap (at 0) e in (ap₂ (λ h t. h ∷ t) head same, frames)

key_frames_injective :
    (ps qs : List Bytes)
    → All HasNoNul ps
    → All HasNoNul qs
    → key_frames ps ≡ key_frames qs
    → ps ≡ qs
unfolding key_frames
key_frames_injective [] [] a b e = refl
key_frames_injective [] (q ∷ qs) a b e = cc
key_frames_injective (p ∷ ps) [] a b e = cc
key_frames_injective (p ∷ ps) (q ∷ qs) (hp, a) (hq, b) e =
    let rest : p ++ key_frames ps ≡ q ++ key_frames qs = cc in
    let (same, frames) = frame_split p q ps qs hp hq rest in
    ap₂ (λ h t. h ∷ t) same (key_frames_injective ps qs a b frames)

module _ ⦃sha : Sha256⦄ where
  -- Lists of texts without the byte 0 that have one key are the same, or there is a collision.
  pub stable_key_binding :
      (ps qs : List Bytes)
      → All HasNoNul ps
      → All HasNoNul qs
      → stable_key ps ≡ stable_key qs
      → (ps ≡ qs) ⊎ Collision
  unfolding stable_key
  stable_key_binding ps qs a b e =
      elim (sum_injective (key_frames ps) (key_frames qs)
        (hex_injective (sum (key_frames ps)) (sum (key_frames qs)) e)) [
          | inl same ↦ inl (key_frames_injective ps qs a b same)
          | inr x ↦ inr x
        ]
