-- ===== src/Storage/Effects/Distinct.antt =====
-- The members that freeze collects are all different, since the keys of pending evidence ascend.
use mathlib.Core.Path.{subst}
use sigmaproof.Prelude.{
  ℕ, zero, suc, ◌≡◌, ◌≢◌, refl, ap, sym, ◌∙◌, true, false, not, ◌||◌, List, [], ◌∷◌, All, length,
  ◌==◌, ok, >>=-eq-ok, ok-injective, arith,
}
use sigmaproof.Bytes.{Bytes, bytes_equal, bytes_equal_iff}
use sigmaproof.Sha.{Sha256}
use sigmaproof.Commitment.{compute}
use sigmaproof.Storage.Types.{Evidence, corrupt}
use sigmaproof.Storage.Bolt.{Bolt, Database, precedes, Ascending}
use sigmaproof.Storage.Records.{Json, sequence_key, or_corrupt, evidence}
use sigmaproof.Storage.Freeze.{Member, check_pending, collect_one, collect}
use sigmaproof.Storage.State.{evidence-view}
use sigmaproof.Storage.Reading.{guard_inv, evidence_of-IsRecord}

pub precedes_irrefl : (k : Bytes) → precedes k k ≡ false
unfolding precedes
precedes_irrefl [] = refl
precedes_irrefl (a ∷ k) = ground (arith, precedes_irrefl k)

abbrev pub IsDistinct : List Member → Type 0
IsDistinct [] = Unit
IsDistinct (m ∷ ms) = All (λ (n : Member). m.0.id ≢ n.0.id) ms × IsDistinct ms

module _ ⦃bolt : Bolt⦄ ⦃json : Json⦄ ⦃sha : Sha256⦄ where
  -- A member is stored, and stands in the pending bucket at its sequence number.
  record IsAt (tx : Database) (name k : Bytes) (m : Member) : Type 0 where
    stored : evidence tx name m.0.id ≡ ok m.0
    at_key : k ≡ sequence_key m.0.sequence

  collect_one-IsAt :
      (tx : Database) (name : Bytes) (entry : Bytes × Bytes) (m : Member)
      → collect_one tx name entry ≡ ok m
      → IsAt tx name entry.0 m
  unfolding collect_one check_pending
  collect_one-IsAt tx name (k, id) m h =
      let (e, stored, r) = >>=-eq-ok (evidence tx name id) _ h in
      let (u, checked, r1) = >>=-eq-ok (check_pending k e) _ r in
      let (c, commits, r2) = >>=-eq-ok (or_corrupt (compute e.witness)) _ r1 in
      let (tests, _) =
        guard_inv (not (bytes_equal k (sequence_key e.sequence)) || not (length e.batch_id == 0))
          corrupt _ u checked in
      let own = (evidence_of-IsRecord id _ e (sym (evidence-view tx name id) ∙ stored)).own_id in
      subst (IsAt tx name k) (ok-injective r2) (record {
        stored = ap (evidence tx name) own ∙ stored;
        at_key = (bytes_equal_iff k (sequence_key e.sequence)).0 (ground (arith, tests));
      })

  -- Different keys have different members.
  IsAt-differ :
      (tx : Database) (name k j : Bytes) (m n : Member)
      → precedes k j ≡ true
      → IsAt tx name k m
      → IsAt tx name j n
      → m.0.id ≢ n.0.id
  IsAt-differ tx name k j m n less a b same =
      let e : m.0 ≡ n.0 = ok-injective (sym a.stored ∙ ap (evidence tx name) same ∙ b.stored) in
      let keys : k ≡ j =
        a.at_key ∙ ap (λ (t : Evidence). sequence_key t.sequence) e ∙ sym b.at_key in
      cc (ap (precedes k) keys, precedes_irrefl k, less)

  collect-differ :
      (tx : Database) (name k : Bytes) (m : Member) (n : ℕ) (entries : List (Bytes × Bytes))
      (ms : List Member)
      → IsAt tx name k m
      → All (λ (e : Bytes × Bytes). precedes k e.0 ≡ true) entries
      → collect tx name n entries ≡ ok ms
      → All (λ (x : Member). m.0.id ≢ x.0.id) ms
  unfolding collect
  collect-differ tx name k m zero entries ms a all h =
      subst (All (λ (x : Member). m.0.id ≢ x.0.id)) (ok-injective h) tt
  collect-differ tx name k m (suc n) [] ms a all h =
      subst (All (λ (x : Member). m.0.id ≢ x.0.id)) (ok-injective h) tt
  collect-differ tx name k m (suc n) (entry ∷ entries) ms a (less, all) h =
      let (x, one, r) = >>=-eq-ok (collect_one tx name entry) _ h in
      let (rest, more, r1) = >>=-eq-ok (collect tx name n entries) _ r in
      subst (All (λ (x : Member). m.0.id ≢ x.0.id)) (ok-injective r1) (
        IsAt-differ tx name k entry.0 m x less a (collect_one-IsAt tx name entry x one),
        collect-differ tx name k m n entries rest a all more,
      )

  pub collect-IsDistinct :
      (tx : Database) (name : Bytes) (n : ℕ) (entries : List (Bytes × Bytes)) (ms : List Member)
      → Ascending entries
      → collect tx name n entries ≡ ok ms
      → IsDistinct ms
  unfolding collect
  collect-IsDistinct tx name zero entries ms a h = subst IsDistinct (ok-injective h) tt
  collect-IsDistinct tx name (suc n) [] ms a h = subst IsDistinct (ok-injective h) tt
  collect-IsDistinct tx name (suc n) ((k, id) ∷ entries) ms (before, a) h =
      let (m, one, r) = >>=-eq-ok (collect_one tx name (k, id)) _ h in
      let (rest, more, r1) = >>=-eq-ok (collect tx name n entries) _ r in
      subst IsDistinct (ok-injective r1) (
        collect-differ tx name k m n entries rest (collect_one-IsAt tx name (k, id) m one) before
            more,
        collect-IsDistinct tx name n entries rest a more,
      )
