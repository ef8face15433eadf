-- ===== src/Storage/Reading.antt =====
-- What is known of a record that was read.
use mathlib.Core.Path.{subst}
use sigmaproof.Prelude.{
  ◌≤◌, ◌<◌, ◌≡◌, refl, ap, sym, ◌∙◌, Bool, true, false, not, ◌||◌, Option, none, some, length, ltb,
  ltb→ge, ◌==◌, if◌then◌else◌, ok, err, >>=-eq-ok, ok-injective, arith,
}
use sigmaproof.Bytes.{Bytes, IsU64, bytes_equal, bytes_equal_iff}
use sigmaproof.Sha.{Sha256}
use sigmaproof.Errors.{Outcome}
use sigmaproof.Commitment.{Digest, compute, IsWitness}
use sigmaproof.Batch
use sigmaproof.Batch.{Manifest}
use sigmaproof.Storage.Types.{
  Evidence, FrozenBatch, Stored, StoreError, corrupt, max_record_bytes, valid_id, valid_source,
  valid_limit, limit_count, valid_submission_state, valid_reference,
}
use sigmaproof.Storage.Records.{Json, or_corrupt, decode, check_evidence, with_state, check_frozen}
use sigmaproof.Storage.State.{evidence_of, batch_of, checked_batch}

pub or_corrupt_inv : {A : Type 0} (r : Outcome A) (a : A) → or_corrupt r ≡ ok a → r ≡ ok a
or_corrupt_inv (ok b) a e = ap ok (ok-injective e)
or_corrupt_inv (err x) a e = cc

-- A test that guards a result by an error.
pub guard_inv :
    {A : Type 0} (b : Bool) (failure : StoreError) (x : Stored A) (a : A)
    → (if b then err failure else x) ≡ ok a
    → (b ≡ false) × (x ≡ ok a)
guard_inv true failure x a e = cc
guard_inv false failure x a e = (refl, e)

read_inv :
    {A : Type 0} (read : Bytes → Option A) (d : Bytes) (a : A)
    → (o : Option A) → o ≡ read d
    → (elim o as (λ x. Stored A) [ none ↦ err corrupt | some b ↦ ok b ]) ≡ ok a
    → read d ≡ some a
read_inv read d a none s e = cc
read_inv read d a (some b) s e = sym s ∙ ap some (ok-injective e)

pub decode_inv :
    {A : Type 0} (read : Bytes → Option A) (o : Option Bytes) (a : A)
    → decode read o ≡ ok a
    → (d : Bytes) × (o ≡ some d) × (length d ≤ max_record_bytes) × (read d ≡ some a)
unfolding decode
decode_inv read none a e = cc
decode_inv read (some d) a e =
    let (short, r) = guard_inv (ltb max_record_bytes (length d)) corrupt _ a e in
    (d, refl, ltb→ge max_record_bytes (length d) short, read_inv read d a (read d) refl r)

pub decode_of :
    {A : Type 0} (read : Bytes → Option A) (d : Bytes) (a : A)
    → length d ≤ max_record_bytes
    → read d ≡ some a
    → decode read (some d) ≡ ok a
unfolding decode
decode_of read d a h e = ground (arith, e)

module _ ⦃json : Json⦄ ⦃sha : Sha256⦄ where
  -- A record that was read under an id.
  pub record IsRecord (id : Bytes) (e : Evidence) : Type 0 where
    pub own_id : e.id ≡ id
    pub id_digits : valid_id id ≡ true
    pub positive : 0 < e.sequence
    pub source_texts : valid_source e.source ≡ true
    pub commitment : Digest
    pub commits : compute e.witness ≡ ok commitment
    pub sizes : IsWitness e.witness
    pub sequence_word : IsU64 e.sequence
    pub index_word : IsU64 e.index

  check_evidence_inv :
      (id : Bytes) (x e : Evidence)
      → check_evidence id x ≡ ok e
      → (x ≡ e)
        × (x.id ≡ id)
        × (valid_id id ≡ true)
        × (0 < x.sequence)
        × (valid_source x.source ≡ true)
        × ((c : Digest) × (compute x.witness ≡ ok c))
  unfolding check_evidence
  check_evidence_inv id x e h =
      let (tests, r) =
        guard_inv
          (not (bytes_equal x.id id)
            || not (valid_id id)
            || x.sequence == 0
            || not (valid_source x.source))
          corrupt _ e h in
      let (c, k, same) = >>=-eq-ok (or_corrupt (compute x.witness)) _ r in
      (
        ok-injective same,
        (bytes_equal_iff x.id id).0 (ground (arith, tests)),
        ground (arith, tests),
        ground (arith, tests),
        ground (arith, tests),
        (c, or_corrupt_inv (compute x.witness) c k),
      )

  pub evidence_of-IsRecord :
      (id : Bytes) (o : Option Bytes) (e : Evidence) → evidence_of id o ≡ ok e → IsRecord id e
  evidence_of-IsRecord id o e h =
      let (x, decoded, r) = >>=-eq-ok (decode json.read_evidence o) (check_evidence id) h in
      let (d, there, short, read) = decode_inv json.read_evidence o x decoded in
      let (same, own, digits, pos, texts, (c, k)) = check_evidence_inv id x e r in
      let (sizes, sequence, word) = json.read_evidence_sizes d x read in
      subst (IsRecord id) same (record {
        own_id = own;
        id_digits = digits;
        positive = pos;
        source_texts = texts;
        commitment = c;
        commits = k;
        sizes = sizes;
        sequence_word = sequence;
        index_word = word;
      })

  -- A batch that was read under an id.
  pub record IsBatch (id : Bytes) (b : FrozenBatch) : Type 0 where
    pub manifest_of : Manifest
    pub parsed : Batch.parse b.manifest ≡ ok manifest_of
    pub own_id : b.id ≡ id
    pub id_digits : valid_id id ≡ true
    pub limit_range : valid_limit b.limit ≡ true
    pub within : length b.evidence_ids ≤ limit_count b.limit
    pub count : length b.evidence_ids ≡ manifest_of.size
    pub state : valid_submission_state b.submission_state ≡ true
    pub reference : valid_reference b.submission_ref ≡ true

  with_state-manifest : (b : FrozenBatch) → (with_state b).manifest ≡ b.manifest
  unfolding with_state
  with_state-manifest b = ground arith

  check_frozen-IsBatch :
      (id : Bytes) (x b : FrozenBatch) (m : Manifest)
      → Batch.parse x.manifest ≡ ok m
      → check_frozen id x m ≡ ok b
      → IsBatch id b
  unfolding check_frozen
  check_frozen-IsBatch id x b m p h =
      let (tests, same) =
        guard_inv
          (not (bytes_equal x.id id)
            || not (valid_id id)
            || not (valid_limit x.limit)
            || ltb (limit_count x.limit) (length x.evidence_ids)
            || not (length x.evidence_ids == m.size)
            || not (valid_submission_state x.submission_state)
            || not (valid_reference x.submission_ref))
          corrupt (ok x) b h in
      subst (IsBatch id) (ok-injective same) (record {
        manifest_of = m;
        parsed = p;
        own_id = (bytes_equal_iff x.id id).0 (ground (arith, tests));
        id_digits = ground (arith, tests);
        limit_range = ground (arith, tests);
        within = ground (arith, tests);
        count = ground (arith, tests);
        state = ground (arith, tests);
        reference = ground (arith, tests);
      })

  pub batch_of-IsBatch :
      (id : Bytes) (o : Option Bytes) (b : FrozenBatch) → batch_of id o ≡ ok b → IsBatch id b
  batch_of-IsBatch id o b h =
      let (x, decoded, r) = >>=-eq-ok (decode json.read_batch o) (checked_batch id) h in
      let (m, parsed, checked) = >>=-eq-ok (or_corrupt (Batch.parse x.manifest)) _ r in
      check_frozen-IsBatch id (with_state x) b m
        (ap Batch.parse (with_state-manifest x) ∙ or_corrupt_inv (Batch.parse x.manifest) m parsed)
        checked
