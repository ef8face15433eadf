-- ===== src/Storage/History/Batches.antt =====
-- A batch that was frozen, and what is recorded of its submission.
use mathlib.Core.Path.{subst}
use sigmaproof.Prelude.{
  suc, ◌≤◌, ◌≡◌, refl, ap, sym, ◌∙◌, Bool, true, false, not, ◌||◌, Option, some, List, [], ◌∷◌, All,
  map, length, if◌then◌else◌, ok, err, >>=-eq-ok, ok-injective, Bool-cases, inl, inr, arith, ℤ,
}
use sigmaproof.Bytes.{Bytes, bytes_equal, bytes_equal_refl}
use sigmaproof.Sha.{Sha256}
use sigmaproof.Batch
use sigmaproof.Batch.{Manifest}
use sigmaproof.Batch.Codec.{parse-marshal_binary, parse_sound}
use sigmaproof.Batch.Membership.{new-IsValid}
use sigmaproof.Storage.Types.{
  FrozenBatch, Stored, invalid, valid_text, valid_id, valid_limit, limit_count,
  valid_submission_state, valid_reference, submission_not_submitted, int_equal,
}
use sigmaproof.Storage.Bolt.{Bolt, Database, update}
use sigmaproof.Storage.Records.{Json, tenant, frozen, all_ids, batches_bucket}
use sigmaproof.Storage.Freeze.{Member, member_id, member_commitment, new_batch, freeze, freeze_tx}
use sigmaproof.Storage.Export.{get_batch}
use sigmaproof.Storage.View.{View, view}
use sigmaproof.Storage.Tenants.{tenant_read, tenant_mono}
use sigmaproof.Storage.State.{batch_of, batch_at, frozen-view}
use sigmaproof.Storage.Reading.{guard_inv, evidence_of-IsRecord, batch_of-IsBatch}
use sigmaproof.Storage.Writing.{batch_of-written}
use sigmaproof.Storage.Draws.{IsDraws}
use sigmaproof.Storage.Effects.Freeze.{Frozen, bind_view, freeze_tx-effect}
use sigmaproof.Storage.Effects.Pending.{IsPending}
use sigmaproof.Storage.Persist.{KeptBatch}
use sigmaproof.Storage.Persist.Binding.{batch_view-batches}
use sigmaproof.Storage.History.{Reaches}
use sigmaproof.Storage.History.Records.{tenant_reached, frozen_reached}

pub length-members :
    (ms : List Member) → length (map member_commitment ms) ≡ length (map member_id ms)
length-members [] = refl
length-members (m ∷ ms) = ap suc (length-members ms)

length-member_ids : (ms : List Member) → length (map member_id ms) ≡ length ms
length-member_ids [] = refl
length-member_ids (m ∷ ms) = ap suc (length-member_ids ms)

not_submitted_valid : valid_submission_state submission_not_submitted ≡ true
unfolding valid_submission_state bytes_equal
not_submitted_valid = refl

empty_valid : valid_reference [] ≡ true
unfolding valid_reference
empty_valid = refl

int_equal_refl : (l : ℤ) → int_equal l l ≡ true
unfolding int_equal
int_equal_refl (ℤ.pos n) = ground arith
int_equal_refl (ℤ.negsuc n) = ground arith

module _ ⦃json : Json⦄ ⦃sha : Sha256⦄ where
  members-ids :
      (v : View) (ms : List Member) → All (IsPending v) ms → all_ids (map member_id ms) ≡ true
  unfolding all_ids
  members-ids v [] p = refl
  members-ids v (m ∷ ms) (one, p) =
      rw ((evidence_of-IsRecord m.0.id _ m.0 one.stored).id_digits, members-ids v ms p) refl

  -- The batch record is read back.
  new_batch-written :
      (v : View) (id bytes : Bytes) (limit : ℤ) (ms : List Member) (m : Manifest)
      → valid_id id ≡ true
      → valid_limit limit ≡ true
      → length ms ≤ limit_count limit
      → All (IsPending v) ms
      → Batch.new (map member_commitment ms) ≡ ok m
      → Batch.marshal_binary m ≡ ok bytes
      → batch_of id (some (json.batch_data (new_batch id limit bytes ms)))
        ≡ ok (new_batch id limit bytes ms)
  unfolding new_batch
  new_batch-written v id bytes limit ms m digits small within p built marshalled =
      let (valid, root, size) = new-IsValid (map member_commitment ms) m built in
      let parsed = parse-marshal_binary m bytes root marshalled in
      let (_, _, n) = parse_sound bytes m parsed in
      batch_of-written (new_batch id limit bytes ms) m
        (record {
          id_digits = digits;
          limit_range = small;
          within = ground (arith, within, length-member_ids ms);
          ids_digits = members-ids v ms p;
          manifest_size = n;
          state = not_submitted_valid;
          reference = empty_valid;
        })
        parsed (sym (length-members ms) ∙ sym size)

module _ ⦃bolt : Bolt⦄ ⦃json : Json⦄ ⦃sha : Sha256⦄ where
  -- An update that succeeds has the effect of its function.
  pub update-ok :
      {A : Type 0} (f : Database → Stored (A × Database)) (db db' : Database) (a : A)
      → (r : Stored (A × Database)) → f db ≡ r
      → update f db ≡ (ok a, db')
      → f db ≡ ok (a, db')
  unfolding update
  update-ok f db db' a (err e) s h = let g = rw (update, s) at h in cc (ap (λ r. r.0) g)
  update-ok f db db' a (ok (x, t)) s h = elim (Bool-cases (bolt.commits t)) [
    | inl done ↦
        let g = rw (update, s, done) at h in
        let is_a : x ≡ a = ok-injective (ap (λ r. r.0) g) in
        let is_t : t ≡ db' = ap (λ r. r.1) g in
        s ∙ ap (λ y. ok (y, t)) is_a ∙ ap (λ y. ok (a, y)) is_t
    | inr refused ↦ let g = rw (update, s, refused) at h in cc (ap (λ r. r.0) g)
  ]

  pub Frozen-new :
      (name key : Bytes) (limit : ℤ) (db db' : Database) (b : FrozenBatch)
      → valid_limit limit ≡ true
      → Frozen name key limit db db' b
      → (batch_at (view db' name) b.id ≡ ok b) × (b.limit ≡ limit)
  unfolding new_batch
  Frozen-new name key limit db db' b small k =
      let x = new_batch k.id limit k.bytes k.members in
      let v = bind_view k.id 0 k.members (view db name) in
      let read : batch_at (view db' name) k.id ≡ ok x =
        ap (λ w. batch_at w k.id) k.effect.here
        ∙ ap (batch_of k.id) (batch_view-batches v key x k.id)
        ∙ ap
            (λ (t : Bool).
              batch_of k.id (if t then some (json.batch_data x) else v.cell batches_bucket k.id))
            (bytes_equal_refl k.id)
        ∙ new_batch-written (view db name) k.id k.bytes limit k.members k.manifest k.id_digits small
            k.within k.pending k.built k.marshalled in
      subst (λ (t : FrozenBatch). (batch_at (view db' name) t.id ≡ ok t) × (t.limit ≡ limit))
        k.result (read, refl)

  pub freeze_tx-opened :
      (draws : List (Option Bytes)) (name key : Bytes) (limit : ℤ) (db db' : Database)
      (b : FrozenBatch)
      → freeze_tx draws name key limit db ≡ ok (b, db')
      → tenant db name false ≡ ok db
  unfolding freeze_tx
  freeze_tx-opened draws name key limit db db' b h =
      let (tx, opened, r) = >>=-eq-ok (tenant db name false) _ h in
      opened ∙ ap ok (sym (tenant_read name db tx opened))

  pub freeze-inv :
      (draws : List (Option Bytes)) (name key : Bytes) (limit : ℤ) (db db' : Database)
      (b : FrozenBatch)
      → freeze draws name key limit db ≡ (ok b, db')
      → (valid_text name ≡ true)
        × (valid_limit limit ≡ true)
        × (freeze_tx draws name key limit db ≡ ok (b, db'))
  unfolding freeze
  freeze-inv draws name key limit db db' b h =
      elim (Bool-cases (not (valid_text name) || not (valid_text key) || not (valid_limit limit))) [
        | inl bad ↦ let g = rw bad at h in cc (ap (λ r. r.0) g)
        | inr fine ↦
            let g = rw fine at h in
            (
              ground (arith, fine),
              ground (arith, fine),
              update-ok (freeze_tx draws name key limit) db db' b _ refl g,
            )
      ]

  get_batch_of :
      (name id : Bytes) (db : Database) (b : FrozenBatch)
      → valid_text name ≡ true
      → tenant db name false ≡ ok db
      → batch_at (view db name) id ≡ ok b
      → get_batch name id db ≡ ok b
  unfolding get_batch
  get_batch_of name id db b text opened there =
      let digits = (batch_of-IsBatch id _ b there).id_digits in
      let stored = frozen-view db name id ∙ there in rw (text, digits, opened) stored

  -- The batch that a call of `freeze` returns, made or found by its key, is the one that is stored
  -- behind the call, and has the limit of the call.
  pub freeze-get_batch :
      (draws : List (Option Bytes)) (name key : Bytes) (limit : ℤ) (db db' : Database)
      (b : FrozenBatch)
      → IsDraws draws
      → freeze draws name key limit db ≡ (ok b, db')
      → (get_batch name b.id db' ≡ ok b) × (int_equal b.limit limit ≡ true)
  freeze-get_batch draws name key limit db db' b d h =
      let (text, small, run) = freeze-inv draws name key limit db db' b h in
      let opened = freeze_tx-opened draws name key limit db db' b run in
      elim (freeze_tx-effect draws name key limit db db' b d run) [
        | inl k ↦
            let own = (batch_of-IsBatch k.id _ b k.there).own_id in
            let there = ap (batch_at (view db name)) own ∙ k.there in
            let got = get_batch_of name b.id db b text opened there in
            (subst (λ t. get_batch name b.id t ≡ ok b) k.unchanged got, k.same_limit)
        | inr k ↦
            let (there, same) = Frozen-new name key limit db db' b small k in
            let still = tenant_mono name db db' k.effect.buckets opened in
            (
              get_batch_of name b.id db' b text still there,
              ap (λ l. int_equal l limit) same ∙ int_equal_refl limit,
            )
      ]

  -- A batch whose members have ids of records can be read behind any later calls of any tenants: it
  -- is the same but for its submission, and stays submitted once it is.
  pub get_batch-Reaches :
      (name id : Bytes) (b : FrozenBatch) (db db' : Database)
      → Reaches db db'
      → all_ids b.evidence_ids ≡ true
      → get_batch name id db ≡ ok b
      → (b' : FrozenBatch) × (get_batch name id db' ≡ ok b') × KeptBatch b b'
  unfolding get_batch
  get_batch-Reaches name id b db db' r all h =
      let (valid, g) = guard_inv (not (valid_text name) || not (valid_id id)) invalid _ b h in
      let (tx, opened, g1) = >>=-eq-ok (tenant db name false) _ g in
      let same = tenant_read name db tx opened in
      let there = tenant_reached name db db' r (opened ∙ ap ok (sym same)) in
      let (b', stored, kept) =
        frozen_reached name id b db db' r (ap (λ t. frozen t name id) same ∙ g1) all in
      (b', rw (valid, there) stored, kept)
