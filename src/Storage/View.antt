-- ===== src/Storage/View.antt =====
-- What a transaction holds of one tenant, and how the writes of the store change it.
use mathlib.Core.Path.{fun_ext}
use sigmaproof.Prelude.{
  ℕ, ◌+◌, ◌≡◌, ◌≢◌, refl, ap, ap₂, ◌∙◌, Bool, true, false, ◌&&◌, Option, none, some, [], ◌∷◌,
  if◌then◌else◌, ok, ok-injective, ◌%◌, ◌^◌, arith, Bool-cases, inl, inr,
}
use sigmaproof.Bytes.{Bytes, codes, bytes_equal, bytes_equal_iff, bytes_equal_refl}
use sigmaproof.Storage.Bolt.{
  Bolt, BucketPath, Database, path_equal, same_cell, or_failed, bolt_put, bolt_delete,
}
use sigmaproof.Storage.Records.{bucket_path, evidence_bucket}

-- The cells of the tenant's buckets, and the last sequence number of its evidence.
pub record View : Type 0 where
  pub cell : Bytes → Bytes → Option Bytes
  pub last : ℕ

-- One cell is changed.
abbrev pub write : Bytes → Bytes → Option Bytes → View → View
write b k x v = record v {
  cell = λ c j. if bytes_equal b c && bytes_equal k j then x else v.cell c j;
}

path_equal_refl : (p : BucketPath) → path_equal p p ≡ true
unfolding path_equal
path_equal_refl [] = refl
path_equal_refl (a ∷ p) = ground (arith, bytes_equal_refl a, path_equal_refl p)

bucket_path_equal :
    (n m b c : Bytes)
    → path_equal (bucket_path n b) (bucket_path m c) ≡ (bytes_equal n m && bytes_equal b c)
unfolding path_equal
bucket_path_equal n m b c = ground (arith, bytes_equal_refl (codes "tenants"))

bytes_equal-false : (x y : Bytes) → x ≢ y → bytes_equal x y ≡ false
bytes_equal-false x y h = elim (Bool-cases (bytes_equal x y)) [
  | inl e ↦ absurd (h ((bytes_equal_iff x y).0 e))
  | inr e ↦ e
]

module _ ⦃bolt : Bolt⦄ where
  abbrev pub view : Database → Bytes → View
  view tx name = record {
    cell = λ b k. bolt.get tx (bucket_path name b) k;
    last = bolt.sequence tx (bucket_path name evidence_bucket);
  }

  -- The tenant's view changes by a function, no other tenant's does, and no bucket goes.
  pub record Changes (name : Bytes) (tx tx' : Database) (f : View → View) : Type 0 where
    pub here : view tx' name ≡ f (view tx name)
    pub others : (m : Bytes) → name ≢ m → view tx' m ≡ view tx m
    pub buckets : (p : BucketPath) → bolt.has tx p ≡ true → bolt.has tx' p ≡ true

  pub Changes-refl : (name : Bytes) (tx : Database) → Changes name tx tx (λ v. v)
  Changes-refl name tx = record { here = refl; others = λ m h. refl; buckets = λ p h. h }

  pub Changes-trans :
      (name : Bytes) (s t u : Database) (f g : View → View)
      → Changes name s t f
      → Changes name t u g
      → Changes name s u (λ v. g (f v))
  Changes-trans name s t u f g a b = record {
    here = b.here ∙ ap g a.here;
    others = λ m h. b.others m h ∙ a.others m h;
    buckets = λ p h. b.buckets p (a.buckets p h);
  }

  pub view_eq :
      (tx : Database) (name : Bytes) (v : View)
      → ((b k : Bytes) → bolt.get tx (bucket_path name b) k ≡ v.cell b k)
      → bolt.sequence tx (bucket_path name evidence_bucket) ≡ v.last
      → view tx name ≡ v
  view_eq tx name v h l =
      ap₂ (λ (c : Bytes → Bytes → Option Bytes) (q : ℕ). record { cell = c; last = q })
        (fun_ext λ b. fun_ext λ k. h b k) l

  -- A write in a bucket of the tenant, by the law of the database for one cell.
  write-Changes :
      (name b k : Bytes) (x : Option Bytes) (tx tx' : Database)
      → ((q : BucketPath) (j : Bytes)
          → bolt.get tx' q j
            ≡ (if same_cell (bucket_path name b) k q j then x else bolt.get tx q j))
      → ((q : BucketPath) → bolt.sequence tx' q ≡ bolt.sequence tx q)
      → ((q : BucketPath) → bolt.has tx' q ≡ bolt.has tx q)
      → Changes name tx tx' (write b k x)
  write-Changes name b k x tx tx' cells last has = record {
    here = view_eq tx' name (write b k x (view tx name)) same (last _);
    others = λ m h. view_eq tx' m (view tx m) (other m h) (last _);
    buckets = λ p h. has p ∙ h;
  }
    where
      same :
          (c j : Bytes)
          → bolt.get tx' (bucket_path name c) j
            ≡ (if bytes_equal b c && bytes_equal k j then x else bolt.get tx (bucket_path name c) j)
      same c j =
          cells (bucket_path name c) j
          ∙ ap
              (λ (t : Bool). if t && bytes_equal k j then x else bolt.get tx (bucket_path name c) j)
              (bucket_path_equal name name b c
                ∙ ap (λ (t : Bool). t && bytes_equal b c) (bytes_equal_refl name))

      other :
          (m : Bytes)
          → name ≢ m
          → (c j : Bytes) → bolt.get tx' (bucket_path m c) j ≡ bolt.get tx (bucket_path m c) j
      other m h c j =
          cells (bucket_path m c) j
          ∙ ap (λ (t : Bool). if t && bytes_equal k j then x else bolt.get tx (bucket_path m c) j)
              (bucket_path_equal name m b c
                ∙ ap (λ (t : Bool). t && bytes_equal b c) (bytes_equal-false name m h))

  pub or_failed_inv : {A : Type 0} (o : Option A) (a : A) → or_failed o ≡ ok a → o ≡ some a
  or_failed_inv none a e = cc
  or_failed_inv (some b) a e = ap some (ok-injective e)

  pub put-Changes :
      (name b k x : Bytes) (tx tx' : Database)
      → bolt_put tx (bucket_path name b) k x ≡ ok tx'
      → Changes name tx tx' (write b k (some x))
  unfolding bolt_put
  put-Changes name b k x tx tx' e =
      let done = or_failed_inv (bolt.put tx (bucket_path name b) k x) tx' e in
      write-Changes name b k (some x) tx tx'
        (λ q j. bolt.get-put tx tx' (bucket_path name b) q k j x done)
        (λ q. bolt.sequence-put tx tx' (bucket_path name b) q k x done)
        (λ q. bolt.has-put tx tx' (bucket_path name b) q k x done)

  pub delete-Changes :
      (name b k : Bytes) (tx tx' : Database)
      → bolt_delete tx (bucket_path name b) k ≡ ok tx'
      → Changes name tx tx' (write b k none)
  unfolding bolt_delete
  delete-Changes name b k tx tx' e =
      let done = or_failed_inv (bolt.delete tx (bucket_path name b) k) tx' e in
      write-Changes name b k none tx tx'
        (λ q j. bolt.get-delete tx tx' (bucket_path name b) q k j done)
        (λ q. bolt.sequence-delete tx tx' (bucket_path name b) q k done)
        (λ q. bolt.has-delete tx tx' (bucket_path name b) q k done)

  -- The next sequence number of the evidence.
  pub sequence-Changes :
      (name : Bytes) (tx tx' : Database) (n : ℕ)
      → bolt.next_sequence tx (bucket_path name evidence_bucket) ≡ some (n, tx')
      → (n ≡ ((view tx name).last + 1) % 2 ^ 64) × Changes name tx tx' (λ v. record v { last = n })
  sequence-Changes name tx tx' n e =
      let p = bucket_path name evidence_bucket in
      let law = bolt.next_sequence_lem tx tx' p in
      (
        (law p n e).0,
        record {
          here =
              view_eq tx' name (record (view tx name) { last = n })
                (λ c j. bolt.get-next_sequence tx tx' p (bucket_path name c) n j e)
                ((law p n e).1
                  ∙ ap (λ (t : Bool). if t then n else bolt.sequence tx p) (path_equal_refl p));
          others = λ m h.
              view_eq tx' m (view tx m)
                (λ c j. bolt.get-next_sequence tx tx' p (bucket_path m c) n j e)
                ((law (bucket_path m evidence_bucket) n e).1
                  ∙ ap
                      (λ (t : Bool).
                        if t then n else bolt.sequence tx (bucket_path m evidence_bucket))
                      (bucket_path_equal name m evidence_bucket evidence_bucket
                        ∙ ap (λ (t : Bool). t && bytes_equal evidence_bucket evidence_bucket)
                            (bytes_equal-false name m h)));
          buckets = λ q h. bolt.has-next_sequence tx tx' p q n e ∙ h;
        },
      )
