-- ===== src/Storage/Equal.antt =====
-- What the comparisons of records and requests mean.
use sigmaproof.Prelude.{
  ℕ, ◌≡◌, ap, ap₂, sym, ◌∙◌, true, not, ◌||◌, ◌&&◌, ◌==◌, Option, none, some, ok, err, ok-injective,
  arith, ==_iff, &&_true, some_eq,
}
use sigmaproof.Bytes.{Bytes, bytes_equal, bytes_equal_iff}
use sigmaproof.Errors.{Outcome}
use sigmaproof.Commitment.{Witness}
use sigmaproof.Storage.Types.{Source, Evidence, conflict, source_equal, witness_equal}
use sigmaproof.Storage.Reading.{guard_inv}
use sigmaproof.Storage.Documents.{check_found, or_conflict, or_invalid}

pub source_equal_sound : (s t : Source) → source_equal s t ≡ true → s ≡ t
unfolding source_equal
source_equal_sound s t h =
    let (r, v) =
      &&_true (bytes_equal s.source_instance t.source_instance && bytes_equal s.object t.object)
        (bytes_equal s.version t.version) h in
    let (i, o) =
      &&_true (bytes_equal s.source_instance t.source_instance) (bytes_equal s.object t.object) r in
    let i' = (bytes_equal_iff s.source_instance t.source_instance).0 i in
    let o' = (bytes_equal_iff s.object t.object).0 o in
    let v' = (bytes_equal_iff s.version t.version).0 v in
    ap₂
      (λ (a : Bytes × Bytes) (c : Bytes). record {
        source_instance = a.0;
        object = a.1;
        version = c;
      })
      (ap₂ (λ (a : Bytes) (b : Bytes). (a, b)) i' o') v'

pub witness_equal_sound :
    (v w : Witness)
    → witness_equal v w ≡ true
    → (v.representation ≡ w.representation) × (v.document_digest ≡ w.document_digest)
unfolding witness_equal
witness_equal_sound v w h =
    (ground (arith, h), (bytes_equal_iff v.document_digest w.document_digest).0 (ground (arith, h)))

pub or_conflict_inv : {A : Type 0} (r : Outcome A) (a : A) → or_conflict r ≡ ok a → r ≡ ok a
unfolding or_conflict
or_conflict_inv (ok b) a e = ap ok (ok-injective e)
or_conflict_inv (err x) a e = cc

pub or_invalid_inv : {A : Type 0} (r : Outcome A) (a : A) → or_invalid r ≡ ok a → r ≡ ok a
unfolding or_invalid
or_invalid_inv (ok b) a e = ap ok (ok-injective e)
or_invalid_inv (err x) a e = cc

pub check_found_inv :
    (source : Source) (rep : ℕ) (o : Option Evidence) (e : Evidence)
    → check_found source rep o ≡ ok (some e)
    → (e.source ≡ source) × (e.witness.representation ≡ rep)
unfolding check_found
check_found_inv source rep none e h = cc (ok-injective h)
check_found_inv source rep (some x) e h =
    let (tests, g) =
      guard_inv (not (source_equal x.source source) || not (x.witness.representation == rep))
        conflict _ (some e) h in
    let is_e : x ≡ e = some_eq (ok-injective g) in
    (
      ap (λ (t : Evidence). t.source) (sym is_e)
          ∙ source_equal_sound x.source source (ground (arith, tests)),
      ap (λ (t : Evidence). t.witness.representation) (sym is_e)
          ∙ (==_iff x.witness.representation rep).0 (ground (arith, tests)),
    )
