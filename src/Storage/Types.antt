-- ===== src/Storage/Types.antt =====
-- The records and the checks of texts of internal/storage/store.go.
use sigmaproof.Prelude.{
  ℕ, ◌^◌, ◌*◌, Bool, true, false, ◌&&◌, ◌||◌, not, Option, none, some, List, length, ltb, leb, ◌==◌,
  ℤ, pos, negsuc, Result,
}
use sigmaproof.Bytes.{Bytes, codes, bytes_equal}
use sigmaproof.Reader.{Reader}
use sigmaproof.Errors.{Error}
use sigmaproof.Commitment.{Witness}
use sigmaproof.Text.{valid_string, contains_nul, decode_hex}

abbrev pub max_batch_entries : ℕ
max_batch_entries = 1024

abbrev pub max_record_bytes : ℕ
max_record_bytes = 128 * 2 ^ 10

abbrev pub submission_not_submitted : Bytes
submission_not_submitted = codes "not_submitted"

abbrev pub submission_unknown : Bytes
submission_unknown = codes "unknown"

abbrev pub submission_submitted : Bytes
submission_submitted = codes "submitted"

-- The errors of the store: its own, those of the database, and those of the proof packages.
pub data StoreError : Type 0 where
  conflict not_found not_batched no_pending invalid corrupt : StoreError
  unsupported_schema foreign_database : StoreError
  database_failed random_failed : StoreError
  proof_failed : Error → StoreError
  -- no Go value: the model was given too few random draws
  out_of_draws : StoreError

abbrev pub Stored : Type 0 → Type 0
Stored = Result StoreError

pub record Source : Type 0 where
  pub source_instance : Bytes
  pub object : Bytes
  pub version : Bytes

pub record IngestRequest : Type 0 where
  pub tenant : Bytes
  pub key : Bytes
  pub source : Source
  pub witness : Witness

pub record DocumentIngestRequest : Type 0 where
  pub tenant : Bytes
  pub key : Bytes
  pub source : Source
  pub representation : ℕ
  pub document : Option Reader
  pub max_bytes : ℤ

pub record Evidence : Type 0 where
  pub id : Bytes
  pub sequence : ℕ
  pub source : Source
  pub witness : Witness
  pub batch_id : Bytes
  pub index : ℕ

pub record FrozenBatch : Type 0 where
  pub id : Bytes
  pub limit : ℤ
  pub evidence_ids : List Bytes
  pub manifest : Bytes
  pub submission_state : Bytes
  pub submission_ref : Bytes

pub record Submission : Type 0 where
  pub batch_id : Bytes
  pub manifest : Bytes
  pub state : Bytes
  pub ref : Bytes

unfoldable pub valid_text : Bytes → Bool
valid_text d = ltb 0 (length d) && leb (length d) 256 && valid_string d && not (contains_nul d)

abbrev pub is_some : Option Bytes → Bool
is_some none = false
is_some (some d) = true

unfoldable pub valid_id : Bytes → Bool
valid_id id = length id == 32 && is_some (decode_hex id)

unfoldable pub valid_source : Source → Bool
valid_source s = valid_text s.source_instance && valid_text s.object && valid_text s.version

unfoldable pub valid_submission_state : Bytes → Bool
valid_submission_state state =
    bytes_equal state submission_not_submitted
    || bytes_equal state submission_unknown
    || bytes_equal state submission_submitted

-- The reference of a submission: empty, or a valid text.
unfoldable pub valid_reference : Bytes → Bool
valid_reference ref = length ref == 0 || valid_text ref

-- From 1 to `max_batch_entries`.
unfoldable pub valid_limit : ℤ → Bool
valid_limit (negsuc n) = false
valid_limit (pos n) = leb 1 n && leb n max_batch_entries

-- A limit as a count; one that is negative counts nothing.
unfoldable pub limit_count : ℤ → ℕ
limit_count (negsuc n) = 0
limit_count (pos n) = n

-- `==` of the two structs and of the limits
unfoldable pub source_equal : Source → Source → Bool
source_equal s t =
    bytes_equal s.source_instance t.source_instance
    && bytes_equal s.object t.object
    && bytes_equal s.version t.version

unfoldable pub witness_equal : Witness → Witness → Bool
witness_equal v w =
    v.version_byte == w.version_byte
    && v.algorithm == w.algorithm
    && v.representation == w.representation
    && v.metadata == w.metadata
    && bytes_equal v.document_digest w.document_digest
    && bytes_equal v.nonce w.nonce

unfoldable pub int_equal : ℤ → ℤ → Bool
int_equal (pos a) (pos b) = a == b
int_equal (pos a) (negsuc b) = false
int_equal (negsuc a) (pos b) = false
int_equal (negsuc a) (negsuc b) = a == b
