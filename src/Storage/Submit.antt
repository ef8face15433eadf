-- ===== src/Storage/Submit.antt =====
-- store.go: RecordSubmission and Outbox.
use sigmaproof.Prelude.{
  ℕ, zero, suc, Bool, false, ◌&&◌, ◌||◌, not, List, [], ◌∷◌, if◌then◌else◌, ok, err, ◌>>=◌, ℤ,
}
use sigmaproof.Bytes.{Bytes, bytes_equal}
use sigmaproof.Sha.{Sha256}
use sigmaproof.Storage.Types.{
  FrozenBatch, Submission, Stored, conflict, invalid, corrupt, submission_submitted, valid_text,
  valid_id, valid_limit, limit_count, valid_submission_state, valid_reference,
}
use sigmaproof.Storage.Bolt.{Bolt, Database, update, bolt_put, bolt_delete}
use sigmaproof.Storage.Records.{Json, bucket_path, batches_bucket, outbox_bucket, tenant, frozen}

unfoldable pub is_submitted : Bytes → Bool
is_submitted state = bytes_equal state submission_submitted

unfoldable pub with_submission : Bytes → Bytes → FrozenBatch → FrozenBatch
with_submission state reference b = record b {
  submission_state = state;
  submission_ref = reference;
}

unfoldable pub check_payload : Bytes → Bytes → FrozenBatch → Stored Submission
check_payload id payload b =
    if not (bytes_equal payload b.manifest)
    then err corrupt
    else ok (record {
      batch_id = id;
      manifest = payload;
      state = b.submission_state;
      ref = b.submission_ref;
    })

module _ ⦃bolt : Bolt⦄ ⦃json : Json⦄ ⦃sha : Sha256⦄ where
  -- The outbox keeps what is not submitted.
  unfoldable pub write_outbox : Bytes → Bytes → FrozenBatch → Database → Stored Database
  write_outbox name id b tx =
      if is_submitted b.submission_state
      then bolt_delete tx (bucket_path name outbox_bucket) id
      else bolt_put tx (bucket_path name outbox_bucket) id b.manifest

  unfoldable pub write_submission :
      Bytes → Bytes → FrozenBatch → Database → Stored (FrozenBatch × Database)
  write_submission name id b tx = do
    tx1 ← bolt_put tx (bucket_path name batches_bucket) id (json.batch_data b)
    tx2 ← write_outbox name id b tx1
    ok (b, tx2)

  -- A submitted batch stays submitted.
  unfoldable pub submit_batch :
      Bytes → Bytes → Bytes → Bytes → Database → FrozenBatch → Stored (FrozenBatch × Database)
  submit_batch name id state reference tx b =
      if is_submitted b.submission_state && not (is_submitted state)
      then err conflict
      else write_submission name id (with_submission state reference b) tx

  unfoldable pub submission_tx :
      Bytes → Bytes → Bytes → Bytes → Database → Stored (FrozenBatch × Database)
  submission_tx name id state reference db = do
    tx ← tenant db name false
    b ← frozen tx name id
    submit_batch name id state reference tx b

  unfoldable pub record_submission :
      Bytes → Bytes → Bytes → Bytes → Database → Stored FrozenBatch × Database
  record_submission name id state reference db =
      if not (valid_text name)
        || not (valid_id id)
        || not (valid_submission_state state)
        || not (valid_reference reference)
      then (err invalid, db)
      else update (submission_tx name id state reference) db

  -- The loop over the outbox, up to the limit.
  unfoldable pub list_outbox :
      Database → Bytes → ℕ → List (Bytes × Bytes) → Stored (List Submission)
  list_outbox tx name zero entries = ok []
  list_outbox tx name (suc n) [] = ok []
  list_outbox tx name (suc n) ((id, payload) ∷ entries) = do
    b ← frozen tx name id
    s ← check_payload id payload b
    ss ← list_outbox tx name n entries
    ok (s ∷ ss)

  unfoldable pub outbox : Bytes → ℤ → Database → Stored (List Submission)
  outbox name limit db =
      if not (valid_text name) || not (valid_limit limit) then err invalid else do
        tx ← tenant db name false
        list_outbox tx name (limit_count limit) (bolt.entries tx (bucket_path name outbox_bucket))
