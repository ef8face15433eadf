-- ===== src/Storage/Effects/Pending.antt =====
-- The first loop of freeze: its members are records that have no batch.
use mathlib.Core.Path.{subst}
use sigmaproof.Prelude.{
  ℕ, zero, suc, ◌≤◌, ◌≡◌, refl, ap, sym, ◌∙◌, true, not, ◌||◌, List, [], ◌∷◌, All, length, ◌==◌, ok,
  >>=-eq-ok, ok-injective, arith,
}
use sigmaproof.Bytes.{Bytes, bytes_equal}
use sigmaproof.Sha.{Sha256}
use sigmaproof.Commitment.{compute}
use sigmaproof.Storage.Types.{corrupt}
use sigmaproof.Storage.Bolt.{Bolt, Database}
use sigmaproof.Storage.Records.{Json, sequence_key, or_corrupt, evidence}
use sigmaproof.Storage.Freeze.{Member, check_pending, collect_one, collect}
use sigmaproof.Storage.View.{View, view}
use sigmaproof.Storage.State.{evidence_at, evidence-view}
use sigmaproof.Storage.Reading.{guard_inv, or_corrupt_inv, evidence_of-IsRecord}

module _ ⦃json : Json⦄ ⦃sha : Sha256⦄ where
  -- A member is a record that has no batch, with its commitment.
  pub record IsPending (v : View) (m : Member) : Type 0 where
    pub stored : evidence_at v m.0.id ≡ ok m.0
    pub unbatched : m.0.batch_id ≡ []
    pub commits : compute m.0.witness ≡ ok m.1

module _ ⦃bolt : Bolt⦄ ⦃json : Json⦄ ⦃sha : Sha256⦄ where
  length_nil : (d : Bytes) → (length d == 0) ≡ true → d ≡ []
  length_nil [] h = refl
  length_nil (b ∷ d) h = ground (arith, h)

  collect_one-IsPending :
      (tx : Database) (name : Bytes) (entry : Bytes × Bytes) (m : Member)
      → collect_one tx name entry ≡ ok m
      → IsPending (view tx name) m
  unfolding collect_one check_pending
  collect_one-IsPending tx name (k, id) m h =
      let (e, stored, r) = >>=-eq-ok (evidence tx name id) _ h in
      let (u, checked, r1) = >>=-eq-ok (check_pending k e) _ r in
      let (c, commits, r2) = >>=-eq-ok (or_corrupt (compute e.witness)) _ r1 in
      let (tests, _) =
        guard_inv (not (bytes_equal k (sequence_key e.sequence)) || not (length e.batch_id == 0))
          corrupt _ u checked in
      let there = sym (evidence-view tx name id) ∙ stored in
      let own = (evidence_of-IsRecord id _ e there).own_id in
      subst (IsPending (view tx name)) (ok-injective r2) (record {
        stored = ap (evidence_at (view tx name)) own ∙ there;
        unbatched = length_nil e.batch_id (ground (arith, tests));
        commits = or_corrupt_inv (compute e.witness) c commits;
      })

  pub collect-IsPending :
      (tx : Database) (name : Bytes) (n : ℕ) (entries : List (Bytes × Bytes)) (ms : List Member)
      → collect tx name n entries ≡ ok ms
      → (length ms ≤ n) × All (IsPending (view tx name)) ms
  unfolding collect
  collect-IsPending tx name zero entries ms h =
      let same = ok-injective h in
      (omega (arith, ap length same), subst (All (IsPending (view tx name))) same tt)
  collect-IsPending tx name (suc n) [] ms h =
      let same = ok-injective h in
      (omega (arith, ap length same), subst (All (IsPending (view tx name))) same tt)
  collect-IsPending tx name (suc n) (entry ∷ entries) ms h =
      let (m, one, r) = >>=-eq-ok (collect_one tx name entry) _ h in
      let (rest, more, r1) = >>=-eq-ok (collect tx name n entries) _ r in
      let (short, all) = collect-IsPending tx name n entries rest more in
      let same = ok-injective r1 in
      (
        omega (arith, short, ap length same),
        subst (All (IsPending (view tx name))) same
            (collect_one-IsPending tx name entry m one, all),
      )
