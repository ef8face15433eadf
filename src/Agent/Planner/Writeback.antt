-- ===== src/Agent/Planner/Writeback.antt =====
-- When an event only reports that evidence was written back.
use sigmaproof.Prelude.{
  ℕ, zero, suc, ◌<◌, ◌≡◌, ◌↔◌, refl, ap, true, some, List, [], ◌∷◌, map, All, arith, inl, inr,
  length, get_elem?, Bool-cases, some_eq, &&_true,
}
use sigmaproof.Bytes.{Bytes, bytes_equal, bytes_equal_iff}
use sigmaproof.Text.{trim_space}
use sigmaproof.Agent.Planner.{is_allowed, all_allowed, writeback_only}

is_allowed_index :
    (field : Bytes) (allowed : List Bytes)
    → is_allowed field allowed ≡ true
    → (i : ℕ) × (get_elem? allowed i ≡ some field)
unfolding is_allowed
is_allowed_index field [] e = cc
is_allowed_index field (a ∷ allowed) e = elim (Bool-cases (bytes_equal a field)) [
  | inl same ↦ (0, ap some ((bytes_equal_iff a field).0 same))
  | inr other ↦ let (i, f) = is_allowed_index field allowed (ground arith) in (suc i, f)
]

index_is_allowed :
    (field : Bytes) (allowed : List Bytes) (i : ℕ)
    → get_elem? allowed i ≡ some field
    → is_allowed field allowed ≡ true
unfolding is_allowed
index_is_allowed field [] i e = cc
index_is_allowed field (a ∷ allowed) zero e =
    ground (arith, (bytes_equal_iff a field).1 (some_eq e))
index_is_allowed field (a ∷ allowed) (suc i) e = ground (arith, index_is_allowed field allowed i e)

is_allowed_iff :
    (field : Bytes) (allowed : List Bytes)
    → (is_allowed field allowed ≡ true) ↔ ((i : ℕ) × (get_elem? allowed i ≡ some field))
is_allowed_iff field allowed =
    (is_allowed_index field allowed, λ (i, e). index_is_allowed field allowed i e)

-- The trimmed name stands among the trimmed names.
abbrev pub IsAmong : List Bytes → Bytes → Type 0
IsAmong names field = (i : ℕ) × (get_elem? (map trim_space names) i ≡ some (trim_space field))

all_allowed_iff :
    (changed names : List Bytes)
    → (all_allowed changed (map trim_space names) ≡ true) ↔ All (IsAmong names) changed
unfolding all_allowed
all_allowed_iff [] names = (λ e. tt, λ a. refl)
all_allowed_iff (f ∷ changed) names = (
  λ e.
      let (a, b) = &&_true _ _ e in
      (
        (is_allowed_iff (trim_space f) (map trim_space names)).0 a,
        (all_allowed_iff changed names).0 b,
      ),
  λ (a, b). ground (
    arith,
    (is_allowed_iff (trim_space f) (map trim_space names)).1 a,
    (all_allowed_iff changed names).1 b,
  ),
)

-- An event counts as a write-back exactly when it changed some field, and every changed field is,
-- but for white space around it, among the evidence fields.
pub writeback_only_iff :
    (changed evidence_fields : List Bytes)
    → (writeback_only changed evidence_fields ≡ true)
      ↔ ((0 < length changed) × All (IsAmong evidence_fields) changed)
unfolding writeback_only
writeback_only_iff [] fields = (λ e. cc, λ (h, a). absurd (omega arith))
writeback_only_iff (c ∷ changed) [] = (λ e. absurd (ground arith), λ (h, ((i, e), a)). absurd cc)
writeback_only_iff (c ∷ changed) (f ∷ fields) = (
  λ e. (omega arith, (all_allowed_iff (c ∷ changed) (f ∷ fields)).0 (ground (arith, e))),
  λ (h, a). ground (arith, (all_allowed_iff (c ∷ changed) (f ∷ fields)).1 a),
)
