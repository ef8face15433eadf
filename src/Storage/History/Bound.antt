-- ===== src/Storage/History/Bound.antt =====
-- The members of a new batch are read as bound to it.
use sigmaproof.Prelude.{
  ℕ, zero, suc, ◌+◌, ◌<◌, ◌^◌, ◌≡◌, ◌≢◌, refl, ap, sym, ◌∙◌, Bool, true, none, some, some_eq, List,
  [], ◌∷◌, All, map, length, get_elem?, if◌then◌else◌, ok, Bool-cases, inl, inr, arith, ==_iff,
}
use sigmaproof.Bytes.{Bytes, bytes_equal, bytes_equal_iff, bytes_equal_refl}
use sigmaproof.Sha.{Sha256}
use sigmaproof.Storage.Types.{Evidence, Stored, valid_id}
use sigmaproof.Storage.Bolt.{Bolt, Database}
use sigmaproof.Storage.Records.{Json, evidence, evidence_bucket, pending_bucket, sequence_key}
use sigmaproof.Storage.Freeze.{Member, member_id, member_commitment, batched}
use sigmaproof.Storage.Export.{check_member, entries_from}
use sigmaproof.Storage.View.{View, write}
use sigmaproof.Storage.State.{evidence_of, evidence_at}
use sigmaproof.Storage.Reading.{evidence_of-IsRecord}
use sigmaproof.Storage.Effects.Distinct.{IsDistinct}
use sigmaproof.Storage.Effects.Freeze.{bind_view}
use sigmaproof.Storage.Effects.Pending.{IsPending}
use sigmaproof.Storage.Persist.Binding.{bound-written}

-- The members read as bound to a batch, from the index `i`.
abbrev pub IsBound : (Bytes → Stored Evidence) → Bytes → ℕ → List Member → Type 0
IsBound read bid i [] = Unit
IsBound read bid i (m ∷ ms) = (read m.0.id ≡ ok (batched bid i m.0)) × IsBound read bid (i + 1) ms

pub IsBound-ap :
    (read later : Bytes → Stored Evidence) (bid : Bytes) (i : ℕ) (ms : List Member)
    → ((id : Bytes) → later id ≡ read id)
    → IsBound read bid i ms
    → IsBound later bid i ms
IsBound-ap read later bid i [] same b = tt
IsBound-ap read later bid i (m ∷ ms) same (one, b) =
    (same m.0.id ∙ one, IsBound-ap read later bid (i + 1) ms same b)

module _ ⦃json : Json⦄ ⦃sha : Sha256⦄ where
  bind_view-other :
      (bid id : Bytes) (i : ℕ) (ms : List Member) (v : View)
      → All (λ (n : Member). id ≢ n.0.id) ms
      → (bind_view bid i ms v).cell evidence_bucket id ≡ v.cell evidence_bucket id
  unfolding bytes_equal
  bind_view-other bid id i [] v d = refl
  bind_view-other bid id i (m ∷ ms) v (one, d) =
      bind_view-other bid id (i + 1) ms _ d ∙ elim (Bool-cases (bytes_equal m.0.id id)) [
        | inl same ↦ absurd (one (sym ((bytes_equal_iff m.0.id id).0 same)))
        | inr other ↦
            ap
              (λ (t : Bool).
                if t
                then some (json.evidence_data (batched bid i m.0))
                else v.cell evidence_bucket id)
              other
      ]

  write-own :
      (bid : Bytes) (i : ℕ) (m : Member) (v : View)
      → (write pending_bucket
            (sequence_key m.0.sequence)
            none
            (write evidence_bucket m.0.id (some (json.evidence_data (batched bid i m.0))) v)).cell
          evidence_bucket m.0.id
        ≡ (if bytes_equal m.0.id m.0.id
            then some (json.evidence_data (batched bid i m.0))
            else v.cell evidence_bucket m.0.id)
  unfolding bytes_equal
  write-own bid i m v = refl

  pub bind_view-IsBound :
      (u : View) (bid : Bytes) (i : ℕ) (ms : List Member) (v : View)
      → valid_id bid ≡ true
      → i + length ms < 2 ^ 64
      → All (IsPending u) ms
      → IsDistinct ms
      → IsBound (evidence_at (bind_view bid i ms v)) bid i ms
  bind_view-IsBound u bid i [] v digits word p d = tt
  bind_view-IsBound u bid i (m ∷ ms) v digits word (one, p) (differ, d) = (
    ap (evidence_of m.0.id) (
          bind_view-other bid m.0.id (i + 1) ms _ differ
          ∙ write-own bid i m v
          ∙ ap
              (λ (t : Bool).
                if t
                then some (json.evidence_data (batched bid i m.0))
                else v.cell evidence_bucket m.0.id)
              (bytes_equal_refl m.0.id))
        ∙ bound-written m.0.id bid i m.0 (evidence_of-IsRecord m.0.id _ m.0 one.stored) digits
            (omega (arith, word)),
    bind_view-IsBound u bid (i + 1) ms _ digits (omega (arith, word)) p d,
  )

module _ ⦃bolt : Bolt⦄ ⦃json : Json⦄ ⦃sha : Sha256⦄ where
  pub entries_from-IsBound :
      (u : View) (db : Database) (name bid : Bytes) (i : ℕ) (ms : List Member)
      → All (IsPending u) ms
      → IsBound (evidence db name) bid i ms
      → entries_from db name bid i (map member_id ms) ≡ ok (map member_commitment ms)
  unfolding entries_from check_member batched
  entries_from-IsBound u db name bid i [] p b = refl
  entries_from-IsBound u db name bid i (m ∷ ms) (one, p) (own, b) =
      let rest = entries_from-IsBound u db name bid (i + 1) ms p b in
      rw (own, bytes_equal_refl bid, (==_iff i i).1 refl, one.commits, rest) refl

  pub IsBound-get :
      (db : Database) (name bid : Bytes) (i j : ℕ) (ms : List Member) (id : Bytes)
      → IsBound (evidence db name) bid i ms
      → get_elem? (map member_id ms) j ≡ some id
      → (m : Member) × (evidence db name id ≡ ok (batched bid (i + j) m.0))
  IsBound-get db name bid i j [] id b g = cc
  IsBound-get db name bid i zero (m ∷ ms) id (one, b) g = (
    m,
    ap (evidence db name) (sym (some_eq g)) ∙ one ∙ ap (λ k. ok (batched bid k m.0)) (omega arith),
  )
  IsBound-get db name bid i (suc j) (m ∷ ms) id (one, b) g =
      let (n, there) = IsBound-get db name bid (i + 1) j ms id b g in
      (n, there ∙ ap (λ k. ok (batched bid k n.0)) (omega arith))
