-- ===== src/Storage/Effects/Freeze.antt =====
-- Freeze: the pending evidence is bound to a new batch.
use mathlib.Core.Path.{subst}
use sigmaproof.Prelude.{
  ℕ, ◌+◌, ◌≤◌, ◌≡◌, ◌⊎◌, refl, ap, sym, ◌∙◌, true, false, not, Option, none, some, List, [], ◌∷◌,
  All, map, length, ok, >>=-eq-ok, ok-injective, arith, inl, inr, ℤ,
}
use sigmaproof.Bytes.{Bytes}
use sigmaproof.Sha.{Sha256}
use sigmaproof.Batch
use sigmaproof.Batch.{Manifest}
use sigmaproof.Storage.Types.{FrozenBatch, conflict, valid_id, limit_count, int_equal}
use sigmaproof.Storage.Bolt.{Bolt, Database, bolt_put, bolt_delete}
use sigmaproof.Storage.Records.{
  Json, bucket_path, evidence_bucket, pending_bucket, batches_bucket, batch_keys_bucket,
  outbox_bucket, sequence_key, new_id, tenant, frozen,
}
use sigmaproof.Storage.Freeze.{
  or_proof_failed, Member, member_commitment, check_members, batched, new_batch, collect,
  bind_members, write_batch, freeze_members, freeze_pending, freeze_known, freeze_at, freeze_tx,
}
use sigmaproof.Storage.View.{
  View, view, write, Changes, Changes-refl, Changes-trans, put-Changes, delete-Changes,
}
use sigmaproof.Storage.Tenants.{tenant_read}
use sigmaproof.Storage.State.{batch_at, frozen-view}
use sigmaproof.Storage.Reading.{guard_inv}
use sigmaproof.Storage.Export.Members.{or_proof_failed_inv}
use sigmaproof.Storage.Effects.Distinct.{IsDistinct, collect-IsDistinct}
use sigmaproof.Storage.Draws.{IsDraws, new_id-fresh}
use sigmaproof.Storage.Effects.Pending.{IsPending, collect-IsPending}

module _ ⦃json : Json⦄ where
  -- The writes of the second loop.
  abbrev pub bind_view : Bytes → ℕ → List Member → View → View
  bind_view bid i [] v = v
  bind_view bid i (m ∷ ms) v = bind_view bid (i + 1) ms (
      write pending_bucket (sequence_key m.0.sequence) none
        (write evidence_bucket m.0.id (some (json.evidence_data (batched bid i m.0))) v))

  -- The batch, its key and its entry of the outbox.
  abbrev pub batch_view : Bytes → FrozenBatch → View → View
  batch_view key b v = write outbox_bucket b.id (some b.manifest) (
      write batch_keys_bucket key (some b.id)
        (write batches_bucket b.id (some (json.batch_data b)) v))

module _ ⦃bolt : Bolt⦄ ⦃json : Json⦄ ⦃sha : Sha256⦄ where
  -- A new batch over pending evidence.
  pub record Frozen (name key : Bytes) (limit : ℤ) (db db' : Database) (b : FrozenBatch)
      : Type 0 where
    pub id : Bytes
    pub members : List Member
    pub manifest : Manifest
    pub bytes : Bytes
    pub result : new_batch id limit bytes members ≡ b
    pub within : length members ≤ limit_count limit
    pub pending : All (IsPending (view db name)) members
    pub distinct : IsDistinct members
    pub built : Batch.new (map member_commitment members) ≡ ok manifest
    pub marshalled : Batch.marshal_binary manifest ≡ ok bytes
    pub id_digits : valid_id id ≡ true
    pub free : (view db name).cell batches_bucket id ≡ none
    pub unknown_key : (view db name).cell batch_keys_bucket key ≡ none
    pub effect :
        Changes name db db'
          (λ v. batch_view key (new_batch id limit bytes members) (bind_view id 0 members v))

  -- A retry: the batch of the key.
  pub record Refrozen (name key : Bytes) (limit : ℤ) (db db' : Database) (b : FrozenBatch)
      : Type 0 where
    pub id : Bytes
    pub known : (view db name).cell batch_keys_bucket key ≡ some id
    pub there : batch_at (view db name) id ≡ ok b
    pub same_limit : int_equal b.limit limit ≡ true
    pub unchanged : db ≡ db'

  bind_members-Changes :
      (name bid : Bytes) (i : ℕ) (ms : List Member) (tx tx' : Database)
      → bind_members name bid i ms tx ≡ ok tx'
      → Changes name tx tx' (bind_view bid i ms)
  unfolding bind_members
  bind_members-Changes name bid i [] tx tx' h =
      subst (λ t. Changes name tx t (λ v. v)) (ok-injective h) (Changes-refl name tx)
  bind_members-Changes name bid i ((e, c) ∷ ms) tx tx' h =
      let written = json.evidence_data (batched bid i e) in
      let (tx1, w1, r1) =
        >>=-eq-ok (bolt_put tx (bucket_path name evidence_bucket) e.id written) _ h in
      let (tx2, w2, r2) =
        >>=-eq-ok (bolt_delete tx1 (bucket_path name pending_bucket) (sequence_key e.sequence)) _
          r1 in
      Changes-trans name tx tx2 tx' _ _
        (Changes-trans name tx tx1 tx2 _ _ (put-Changes name evidence_bucket e.id written tx tx1 w1)
          (delete-Changes name pending_bucket (sequence_key e.sequence) tx1 tx2 w2))
        (bind_members-Changes name bid (i + 1) ms tx2 tx' r2)

  write_batch-Changes :
      (name key : Bytes) (b r : FrozenBatch) (tx tx' : Database)
      → write_batch name key b tx ≡ ok (r, tx')
      → (b ≡ r) × Changes name tx tx' (batch_view key b)
  unfolding write_batch
  write_batch-Changes name key b r tx tx' h =
      let (tx1, w1, r1) =
        >>=-eq-ok (bolt_put tx (bucket_path name batches_bucket) b.id (json.batch_data b)) _ h in
      let (tx2, w2, r2) =
        >>=-eq-ok (bolt_put tx1 (bucket_path name batch_keys_bucket) key b.id) _ r1 in
      let (tx3, w3, r3) =
        >>=-eq-ok (bolt_put tx2 (bucket_path name outbox_bucket) b.id b.manifest) _ r2 in
      let done = ok-injective r3 in
      (
        ap (λ (t : FrozenBatch × Database). t.0) done,
        subst (λ t. Changes name tx t (batch_view key b))
            (ap (λ (t : FrozenBatch × Database). t.1) done)
            (Changes-trans name tx tx2 tx3 _ _
              (Changes-trans name tx tx1 tx2 _ _
                (put-Changes name batches_bucket b.id (json.batch_data b) tx tx1 w1)
                (put-Changes name batch_keys_bucket key b.id tx1 tx2 w2))
              (put-Changes name outbox_bucket b.id b.manifest tx2 tx3 w3)),
      )

  check_members_inv : (l ms : List Member) → check_members l ≡ ok ms → l ≡ ms
  unfolding check_members
  check_members_inv [] ms h = cc
  check_members_inv (m ∷ l) ms h = ok-injective h

  freeze_pending-Frozen :
      (draws : List (Option Bytes)) (name key : Bytes) (limit : ℤ) (tx tx' : Database)
      (b : FrozenBatch)
      → IsDraws draws
      → (view tx name).cell batch_keys_bucket key ≡ none
      → freeze_pending draws name key limit tx ≡ ok (b, tx')
      → Frozen name key limit tx tx' b
  unfolding freeze_pending freeze_members
  freeze_pending-Frozen draws name key limit tx tx' b d unknown h =
      let (l, collected, r) =
        >>=-eq-ok
          (collect tx name (limit_count limit) (bolt.entries tx (bucket_path name pending_bucket)))
          _ h in
      let (ms, nonempty, r1) = >>=-eq-ok (check_members l) _ r in
      let (m, built, r2) =
        >>=-eq-ok (or_proof_failed (Batch.new (map member_commitment ms))) _ r1 in
      let (bytes, marshalled, r3) = >>=-eq-ok (or_proof_failed (Batch.marshal_binary m)) _ r2 in
      let (id, drawn, r4) =
        >>=-eq-ok (new_id draws (bolt.get tx (bucket_path name batches_bucket))) _ r3 in
      let (tx1, bound, r5) = >>=-eq-ok (bind_members name id 0 ms tx) _ r4 in
      let (within, pending) =
        collect-IsPending tx name (limit_count limit) _ ms
          (collected ∙ ap ok (check_members_inv l ms nonempty)) in
      let all = collected ∙ ap ok (check_members_inv l ms nonempty) in
      let distinct =
        collect-IsDistinct tx name (limit_count limit) _ ms
          (bolt.entries-Ascending tx (bucket_path name pending_bucket)) all in
      let (free, digits) = new_id-fresh draws _ id d drawn in
      let (result, written) =
        write_batch-Changes name key (new_batch id limit bytes ms) b tx1 tx' r5 in
      record {
        id = id;
        members = ms;
        manifest = m;
        bytes = bytes;
        result = result;
        within = within;
        pending = pending;
        distinct = distinct;
        built = or_proof_failed_inv (Batch.new (map member_commitment ms)) m built;
        marshalled = or_proof_failed_inv (Batch.marshal_binary m) bytes marshalled;
        id_digits = digits;
        free = free;
        unknown_key = unknown;
        effect =
            Changes-trans name tx tx1 tx' _ _ (bind_members-Changes name id 0 ms tx tx1 bound)
              written;
      }

  freeze_at-effect :
      (draws : List (Option Bytes)) (name key : Bytes) (limit : ℤ) (tx tx' : Database)
      (o : Option Bytes) (b : FrozenBatch)
      → IsDraws draws
      → o ≡ (view tx name).cell batch_keys_bucket key
      → freeze_at draws name key limit tx o ≡ ok (b, tx')
      → Refrozen name key limit tx tx' b ⊎ Frozen name key limit tx tx' b
  unfolding freeze_at freeze_known
  freeze_at-effect draws name key limit tx tx' none b d s h =
      inr (freeze_pending-Frozen draws name key limit tx tx' b d (sym s) h)
  freeze_at-effect draws name key limit tx tx' (some id) b d s h =
      let (x, there, r) = >>=-eq-ok (frozen tx name id) _ h in
      let (same, g) = guard_inv (not (int_equal x.limit limit)) conflict _ (b, tx') r in
      let done = ok-injective g in
      let is_b : x ≡ b = ap (λ (t : FrozenBatch × Database). t.0) done in
      inl (record {
        id = id;
        known = sym s;
        there = sym (frozen-view tx name id) ∙ there ∙ ap ok is_b;
        same_limit =
            ap (λ (t : FrozenBatch). int_equal t.limit limit) (sym is_b) ∙ ground (arith, same);
        unchanged = ap (λ (t : FrozenBatch × Database). t.1) done;
      })

  -- A call that succeeds found the batch of the key, or made one.
  pub freeze_tx-effect :
      (draws : List (Option Bytes)) (name key : Bytes) (limit : ℤ) (db db' : Database)
      (b : FrozenBatch)
      → IsDraws draws
      → freeze_tx draws name key limit db ≡ ok (b, db')
      → Refrozen name key limit db db' b ⊎ Frozen name key limit db db' b
  unfolding freeze_tx
  freeze_tx-effect draws name key limit db db' b d h =
      let (tx, opened, r) = >>=-eq-ok (tenant db name false) _ h in
      subst (λ t. Refrozen name key limit t db' b ⊎ Frozen name key limit t db' b)
        (sym (tenant_read name db tx opened))
        (freeze_at-effect draws name key limit tx db' _ b d refl r)
