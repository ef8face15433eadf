-- ===== src/Storage/Effects/Submit.antt =====
-- RecordSubmission: the state of one batch is written, and its entry of the outbox.
use mathlib.Core.Path.{subst}
use sigmaproof.Prelude.{
  ◌≡◌, ap, sym, ◌∙◌, true, false, not, ◌&&◌, Option, none, some, if◌then◌else◌, ok, >>=-eq-ok,
  ok-injective, arith, Bool-cases, inl, inr,
}
use sigmaproof.Bytes.{Bytes}
use sigmaproof.Sha.{Sha256}
use sigmaproof.Storage.Types.{FrozenBatch, conflict}
use sigmaproof.Storage.Bolt.{Bolt, Database, bolt_put}
use sigmaproof.Storage.Records.{Json, bucket_path, batches_bucket, outbox_bucket, tenant, frozen}
use sigmaproof.Storage.Submit.{
  is_submitted, with_submission, write_outbox, write_submission, submit_batch, submission_tx,
}
use sigmaproof.Storage.View.{View, view, write, Changes, Changes-trans, put-Changes, delete-Changes}
use sigmaproof.Storage.Tenants.{tenant_read}
use sigmaproof.Storage.State.{batch_at, frozen-view}
use sigmaproof.Storage.Reading.{guard_inv}

-- The entry of the outbox that a batch in this state has.
abbrev pub outbox_entry : FrozenBatch → Option Bytes
outbox_entry b = if is_submitted b.submission_state then none else some b.manifest

module _ ⦃json : Json⦄ where
  abbrev pub write_state : Bytes → FrozenBatch → View → View
  write_state id b v =
      write outbox_bucket id (outbox_entry b) (write batches_bucket id (some (json.batch_data b)) v)

module _ ⦃bolt : Bolt⦄ ⦃json : Json⦄ ⦃sha : Sha256⦄ where
  -- The batch was there, and only its submission changes.
  pub record Submitted (name id state reference : Bytes) (db db' : Database) (r : FrozenBatch)
      : Type 0 where
    pub before : FrozenBatch
    pub there : batch_at (view db name) id ≡ ok before
    pub result : with_submission state reference before ≡ r
    pub final : is_submitted before.submission_state ≡ true → is_submitted state ≡ true
    pub effect : Changes name db db' (write_state id (with_submission state reference before))

  write_outbox-Changes :
      (name id : Bytes) (b : FrozenBatch) (tx tx' : Database)
      → write_outbox name id b tx ≡ ok tx'
      → Changes name tx tx' (write outbox_bucket id (outbox_entry b))
  unfolding write_outbox
  write_outbox-Changes name id b tx tx' h = elim (Bool-cases (is_submitted b.submission_state)) [
    | inl done ↦ let g = rw done at h in rw done (delete-Changes name outbox_bucket id tx tx' g)
    | inr waits ↦
        let g = rw waits at h in rw waits (put-Changes name outbox_bucket id b.manifest tx tx' g)
  ]

  write_submission-Changes :
      (name id : Bytes) (b r : FrozenBatch) (tx tx' : Database)
      → write_submission name id b tx ≡ ok (r, tx')
      → (b ≡ r) × Changes name tx tx' (write_state id b)
  unfolding write_submission
  write_submission-Changes name id b r tx tx' h =
      let (tx1, w1, r1) =
        >>=-eq-ok (bolt_put tx (bucket_path name batches_bucket) id (json.batch_data b)) _ h in
      let (tx2, w2, r2) = >>=-eq-ok (write_outbox name id b tx1) _ r1 in
      let done = ok-injective r2 in
      (
        ap (λ (t : FrozenBatch × Database). t.0) done,
        subst (λ t. Changes name tx t (write_state id b))
            (ap (λ (t : FrozenBatch × Database). t.1) done)
            (Changes-trans name tx tx1 tx2 _ _
              (put-Changes name batches_bucket id (json.batch_data b) tx tx1 w1)
              (write_outbox-Changes name id b tx1 tx2 w2)),
      )

  submit_batch-Submitted :
      (name id state reference : Bytes) (tx tx' : Database) (b r : FrozenBatch)
      → batch_at (view tx name) id ≡ ok b
      → submit_batch name id state reference tx b ≡ ok (r, tx')
      → Submitted name id state reference tx tx' r
  unfolding submit_batch
  submit_batch-Submitted name id state reference tx tx' b r there h =
      let (allowed, g) =
        guard_inv (is_submitted b.submission_state && not (is_submitted state)) conflict _ (r, tx')
          h in
      let (result, effect) =
        write_submission-Changes name id (with_submission state reference b) r tx tx' g in
      record {
        before = b;
        there = there;
        result = result;
        final = λ (e : is_submitted b.submission_state ≡ true). ground (arith, allowed, e);
        effect = effect;
      }

  -- A call that succeeds found the batch, and changed its submission only.
  pub submission_tx-effect :
      (name id state reference : Bytes) (db db' : Database) (r : FrozenBatch)
      → submission_tx name id state reference db ≡ ok (r, db')
      → Submitted name id state reference db db' r
  unfolding submission_tx
  submission_tx-effect name id state reference db db' r h =
      let (tx, opened, g) = >>=-eq-ok (tenant db name false) _ h in
      let (b, there, g1) = >>=-eq-ok (frozen tx name id) _ g in
      subst (λ t. Submitted name id state reference t db' r) (sym (tenant_read name db tx opened))
        (submit_batch-Submitted name id state reference tx db' b r
          (sym (frozen-view tx name id) ∙ there) g1)
