-- ===== src/Tests/Json.antt =====
-- Records as lists of texts, in the place of encoding/json.
use sigmaproof.Prelude.{
  ℕ, zero, suc, ◌+◌, ◌*◌, ◌≤◌, ◌^◌, ◌≡◌, refl, ap, sym, ◌∙◌, Bool, true, ◌&&◌, ◌||◌, Option, none,
  some, some_eq, List, [], ◌∷◌, length, ltb, ◌==◌, if◌then◌else◌, ℤ, pos, negsuc, arith, &&_true,
  Bool-cases, inl, inr, leb→le,
}
use mathlib.Core.Path.{subst}
use sigmaproof.Bytes.{Bytes, IsU64, bytes_equal, bytes_equal_iff}
use sigmaproof.Commitment.{IsWitness}
use sigmaproof.Storage.Types.{
  Source, Evidence, FrozenBatch, valid_text, valid_id, valid_source, valid_limit, limit_count,
  valid_reference, valid_submission_state, max_record_bytes, submission_not_submitted,
  submission_unknown, submission_submitted,
}
use sigmaproof.Storage.Records.{Json, IsEvidence, IsFrozenBatch, all_ids}
use sigmaproof.Tests.Fields.{write_fields, read_fields, read_fields-write, length-write_field}

abbrev word_limit : ℕ
word_limit = 2 ^ 64

abbrev evidence_fields : Evidence → List Bytes
evidence_fields e =
    e.id
    ∷ (e.sequence ∷ [])
    ∷ e.source.source_instance
    ∷ e.source.object
    ∷ e.source.version
    ∷ (e.witness.version_byte ∷ e.witness.algorithm ∷ e.witness.representation ∷ e.witness.metadata
        ∷ [])
    ∷ e.witness.document_digest
    ∷ e.witness.nonce
    ∷ e.batch_id
    ∷ (e.index ∷ [])
    ∷ []

abbrev fields_evidence : List Bytes → Option Evidence
fields_evidence (id ∷ (s ∷ []) ∷ i ∷ o ∷ v ∷ (b ∷ a ∷ r ∷ m ∷ []) ∷ d ∷ n ∷ t ∷ (x ∷ []) ∷ []) =
    some (record {
      id = id;
      sequence = s;
      source = record { source_instance = i; object = o; version = v };
      witness = record {
        version_byte = b;
        algorithm = a;
        representation = r;
        metadata = m;
        document_digest = d;
        nonce = n;
      };
      batch_id = t;
      index = x;
    })
fields_evidence fields = none

fields_evidence-fields : (e : Evidence) → fields_evidence (evidence_fields e) ≡ some e
fields_evidence-fields e = refl

abbrev fits : Evidence → Bool
fits e =
    length e.witness.document_digest == 32
    && length e.witness.nonce == 32
    && ltb e.sequence word_limit
    && ltb e.index word_limit

abbrev check_fits : Option Evidence → Option Evidence
check_fits none = none
check_fits (some e) = if fits e then some e else none

abbrev fields_batch : List Bytes → Option FrozenBatch
fields_batch (id ∷ (zero ∷ l ∷ []) ∷ m ∷ s ∷ r ∷ ids) = some (record {
  id = id;
  limit = pos l;
  evidence_ids = ids;
  manifest = m;
  submission_state = s;
  submission_ref = r;
})
fields_batch (id ∷ (suc zero ∷ l ∷ []) ∷ m ∷ s ∷ r ∷ ids) = some (record {
  id = id;
  limit = negsuc l;
  evidence_ids = ids;
  manifest = m;
  submission_state = s;
  submission_ref = r;
})
fields_batch fields = none

abbrev limit_field : ℤ → Bytes
limit_field (pos l) = 0 ∷ l ∷ []
limit_field (negsuc l) = 1 ∷ l ∷ []

abbrev batch_fields : FrozenBatch → List Bytes
batch_fields b =
    b.id ∷ limit_field b.limit ∷ b.manifest ∷ b.submission_state ∷ b.submission_ref ∷ b.evidence_ids

pub fields_batch-fields :
    (b : FrozenBatch) (l : ℤ)
    → b.limit ≡ l
    → fields_batch (batch_fields (record b { limit = l })) ≡ some (record b { limit = l })
fields_batch-fields b (pos l) h = refl
fields_batch-fields b (negsuc l) h = refl

abbrev source_fields : Source → ℕ → List Bytes
source_fields s r = s.source_instance ∷ s.object ∷ s.version ∷ (r ∷ []) ∷ []

abbrev fields_source : List Bytes → Option (Source × ℕ)
fields_source (i ∷ o ∷ v ∷ (r ∷ []) ∷ []) =
    some (record { source_instance = i; object = o; version = v }, r)
fields_source fields = none

length-id : (d : Bytes) → valid_id d ≡ true → length d ≡ 32
unfolding valid_id
length-id d h = ground (arith, h)

length-batch_id : (d : Bytes) → (length d == 0 || valid_id d) ≡ true → length d ≤ 32
length-batch_id d h = ground (arith, length-id d)

length-text : (d : Bytes) → valid_text d ≡ true → length d ≤ 256
unfolding valid_text
length-text d h = ground (arith, h)

length-reference : (d : Bytes) → valid_reference d ≡ true → length d ≤ 256
unfolding valid_reference
length-reference d h = ground (arith, length-text d)

length-same : (d x : Bytes) → bytes_equal d x ≡ true → length d ≡ length x
length-same d x h = ap length ((bytes_equal_iff d x).0 h)

length-state : (d : Bytes) → valid_submission_state d ≡ true → length d ≤ 16
unfolding valid_submission_state
length-state d h = ground (
  arith,
  length-same d submission_not_submitted,
  length-same d submission_unknown,
  length-same d submission_submitted,
)

length-source :
    (s : Source)
    → valid_source s ≡ true
    → (length s.source_instance ≤ 256) × (length s.object ≤ 256) × (length s.version ≤ 256)
unfolding valid_source
length-source s h =
    let (r, v) =
      &&_true (valid_text s.source_instance && valid_text s.object) (valid_text s.version) h in
    let (i, o) = &&_true (valid_text s.source_instance) (valid_text s.object) r in
    (length-text s.source_instance i, length-text s.object o, length-text s.version v)

length-ids : (ids : List Bytes) → all_ids ids ≡ true → length (write_fields ids) ≡ 33 * length ids
unfolding all_ids
length-ids [] h = refl
length-ids (d ∷ ids) h =
    let (one, rest) = &&_true (valid_id d) (all_ids ids) h in
    omega (arith, length-write_field d (write_fields ids), length-id d one, length-ids ids rest)

limit_range : (l : ℤ) → valid_limit l ≡ true → limit_count l ≤ 1024
unfolding valid_limit limit_count
limit_range (pos n) h = ground (arith, h)
limit_range (negsuc n) h = cc

-- The length of what is written for a list of fields.
abbrev fields_size : List Bytes → ℕ
fields_size [] = 0
fields_size (d ∷ ds) = length d + 1 + fields_size ds

length-fields : (ds : List Bytes) → length (write_fields ds) ≡ fields_size ds
length-fields [] = refl
length-fields (d ∷ ds) =
    length-write_field d (write_fields ds) ∙ ap (λ t. length d + 1 + t) (length-fields ds)

pub length-evidence :
    (e : Evidence) → IsEvidence e → length (write_fields (evidence_fields e)) ≤ max_record_bytes
length-evidence e h =
    let (i, o, v) = length-source e.source h.source_texts in
    omega (
      arith,
      length-fields (evidence_fields e),
      i,
      o,
      v,
      length-id e.id h.id_digits,
      length-batch_id e.batch_id h.batch_digits,
      h.witness_sizes.digest_size,
      h.witness_sizes.nonce_size,
    )

length-limit_field : (l : ℤ) → length (limit_field l) ≡ 2
length-limit_field (pos n) = refl
length-limit_field (negsuc n) = refl

pub length-batch :
    (b : FrozenBatch) → IsFrozenBatch b → length (write_fields (batch_fields b)) ≤ max_record_bytes
length-batch b h = omega (
  arith,
  length-fields (batch_fields b),
  length-fields b.evidence_ids,
  length-ids b.evidence_ids h.ids_digits,
  length-id b.id h.id_digits,
  length-limit_field b.limit,
  h.manifest_size,
  length-state b.submission_state h.state,
  length-reference b.submission_ref h.reference,
  limit_range b.limit h.limit_range,
  leb→le (length b.evidence_ids) (limit_count b.limit) h.within,
)

pub fits_iff :
    (e : Evidence) → IsWitness e.witness → IsU64 e.sequence → IsU64 e.index → fits e ≡ true
fits_iff e w s i = ground (arith, w.digest_size, w.nonce_size, s, i)

pub fits_inv :
    (o : Option Evidence) (e : Evidence)
    → check_fits o ≡ some e
    → IsWitness e.witness × IsU64 e.sequence × IsU64 e.index
fits_inv none e h = cc
fits_inv (some x) e h = elim (Bool-cases (fits x)) [
  | inr small ↦ let g = rw small at h in cc g
  | inl fit ↦
      let g = rw fit at h in
      subst (λ t. IsWitness t.witness × IsU64 t.sequence × IsU64 t.index) (some_eq g)
        (
          record { digest_size = ground (arith, fit); nonce_size = ground (arith, fit) },
          ground (arith, fit),
          ground (arith, fit),
        )
]

pub source_of :
    (s t : Source) (r q : ℕ)
    → write_fields (source_fields s r) ≡ write_fields (source_fields t q)
    → (s ≡ t) × (r ≡ q)
source_of s t r q h =
    let same = some_eq (
      ap fields_source (
        sym (read_fields-write (source_fields s r))
        ∙ ap read_fields h
        ∙ read_fields-write (source_fields t q))) in
    (ap (λ (p : Source × ℕ). p.0) same, ap (λ (p : Source × ℕ). p.1) same)

instance abbrev pub fields_json : Json
fields_json = record {
  evidence_data = λ e. write_fields (evidence_fields e);
  read_evidence = λ d. check_fits (fields_evidence (read_fields d));
  batch_data = λ b. write_fields (batch_fields b);
  read_batch = λ d. fields_batch (read_fields d);
  source_key = λ s r. write_fields (source_fields s r);
  read-evidence_data = λ e h.
      ap (λ t. check_fits (fields_evidence t)) (read_fields-write (evidence_fields e))
      ∙ ap (λ (t : Bool). if t then some e else none)
          (fits_iff e h.witness_sizes h.sequence_word h.index_word);
  evidence_data_size = length-evidence;
  read_evidence_sizes = λ d e h. fits_inv (fields_evidence (read_fields d)) e h;
  read-batch_data = λ b h.
      ap fields_batch (read_fields-write (batch_fields b)) ∙ fields_batch-fields b b.limit refl;
  batch_data_size = length-batch;
  source_key_injective = λ s t r q hs ht h. source_of s t r q h;
}
