-- ===== src/Storage/Tenants.antt =====
-- Opening a tenant, and making its buckets.
use mathlib.Core.Path.{subst}
use sigmaproof.Prelude.{
  ◌≡◌, refl, ap, ap₂, sym, ◌∙◌, Bool, true, false, none, some, List, [], ◌∷◌, if◌then◌else◌, ok,
  ok-injective, >>=-eq-ok, &&_true, arith, Bool-cases, inl, inr,
}
use sigmaproof.Bytes.{Bytes, bytes_equal, bytes_equal_iff}
use sigmaproof.Storage.Bolt.{Bolt, BucketPath, Database, path_equal, bolt_create}
use sigmaproof.Storage.Records.{
  tenants_path, tenant_path, bucket_path, evidence_bucket, tenant_buckets, has_buckets,
  create_buckets, create_tenant, open_tenant, check_tenant, tenant,
}
use sigmaproof.Storage.View.{view, view_eq, or_failed_inv, Changes, Changes-refl, Changes-trans}

path_equal_sound : (p q : BucketPath) → path_equal p q ≡ true → p ≡ q
unfolding path_equal
path_equal_sound [] [] e = refl
path_equal_sound [] (b ∷ q) e = cc
path_equal_sound (a ∷ p) [] e = cc
path_equal_sound (a ∷ p) (b ∷ q) e =
    let (same, rest) = &&_true (bytes_equal a b) (path_equal p q) e in
    ap₂ (λ x y. x ∷ y) ((bytes_equal_iff a b).0 same) (path_equal_sound p q rest)

module _ ⦃bolt : Bolt⦄ where
  -- A bucket that is made was not there, and is empty: nobody's view changes.
  create-view :
      (p : BucketPath) (tx tx' : Database)
      → bolt_create tx p ≡ ok tx'
      → (m : Bytes) → view tx' m ≡ view tx m
  unfolding bolt_create
  create-view p tx tx' e m = view_eq tx' m (view tx m) cells last
    where
      made : bolt.create tx p ≡ some tx'
      made = or_failed_inv (bolt.create tx p) tx' e

      cells : (c j : Bytes) → bolt.get tx' (bucket_path m c) j ≡ bolt.get tx (bucket_path m c) j
      cells c j = elim (Bool-cases (path_equal p (bucket_path m c))) [
        | inl same ↦
            let law = bolt.get-create tx tx' p (bucket_path m c) j made in
            let missing = bolt.get_missing tx p j (bolt.create-has tx tx' p made) in
            let is_p : p ≡ bucket_path m c = path_equal_sound p (bucket_path m c) same in
            law
            ∙ ap (λ (t : Bool). if t then none else bolt.get tx (bucket_path m c) j) same
            ∙ sym missing
            ∙ ap (λ t. bolt.get tx t j) is_p
        | inr other ↦
            bolt.get-create tx tx' p (bucket_path m c) j made
            ∙ ap (λ (t : Bool). if t then none else bolt.get tx (bucket_path m c) j) other
      ]

      last :
          bolt.sequence tx' (bucket_path m evidence_bucket)
          ≡ bolt.sequence tx (bucket_path m evidence_bucket)
      last = elim (Bool-cases (path_equal p (bucket_path m evidence_bucket))) [
        | inl same ↦
            let q = bucket_path m evidence_bucket in
            bolt.sequence-create tx tx' p q made
            ∙ ap (λ (t : Bool). if t then 0 else bolt.sequence tx q) same
            ∙ sym (bolt.sequence_missing tx p (bolt.create-has tx tx' p made))
            ∙ ap (λ t. bolt.sequence tx t) (path_equal_sound p q same)
        | inr other ↦
            bolt.sequence-create tx tx' p (bucket_path m evidence_bucket) made
            ∙ ap (λ (t : Bool). if t then 0 else bolt.sequence tx (bucket_path m evidence_bucket))
                other
      ]

  -- Making a bucket changes no view, and no bucket goes.
  create-Changes :
      (name : Bytes) (p : BucketPath) (tx tx' : Database)
      → bolt_create tx p ≡ ok tx'
      → Changes name tx tx' (λ v. v)
  unfolding bolt_create
  create-Changes name p tx tx' e = record {
    here = create-view p tx tx' e name;
    others = λ m h. create-view p tx tx' e m;
    buckets = λ q h.
        bolt.has-create tx tx' p q (or_failed_inv (bolt.create tx p) tx' e)
        ∙ ground (arith, h, Bool-cases (path_equal p q));
  }

  create_buckets-Changes :
      (name : Bytes) (bs : List Bytes) (tx tx' : Database)
      → create_buckets name bs tx ≡ ok tx'
      → Changes name tx tx' (λ v. v)
  unfolding create_buckets
  create_buckets-Changes name [] tx tx' e =
      subst (λ t. Changes name tx t (λ v. v)) (ok-injective e) (Changes-refl name tx)
  create_buckets-Changes name (b ∷ bs) tx tx' e =
      let (tx1, a, r) =
        >>=-eq-ok (bolt_create tx (bucket_path name b)) (create_buckets name bs) e in
      Changes-trans name tx tx1 tx' (λ v. v) (λ v. v)
        (create-Changes name (bucket_path name b) tx tx1 a)
        (create_buckets-Changes name bs tx1 tx' r)

  create_tenant-Changes :
      (name : Bytes) (tx tx' : Database)
      → create_tenant tx name ≡ ok tx'
      → Changes name tx tx' (λ v. v)
  unfolding create_tenant
  create_tenant-Changes name tx tx' e =
      let (tx1, a, r) =
        >>=-eq-ok (bolt_create tx (tenant_path name)) (create_buckets name tenant_buckets) e in
      Changes-trans name tx tx1 tx' (λ v. v) (λ v. v)
        (create-Changes name (tenant_path name) tx tx1 a)
        (create_buckets-Changes name tenant_buckets tx1 tx' r)

  open_tenant-Changes :
      (name : Bytes) (create : Bool) (tx tx' : Database)
      → open_tenant tx name create ≡ ok tx'
      → Changes name tx tx' (λ v. v)
  unfolding open_tenant
  open_tenant-Changes name create tx tx' e = elim (Bool-cases (bolt.has tx (tenant_path name))) [
    | inl there ↦
        let h = rw there at e in
        subst (λ t. Changes name tx t (λ v. v)) (ok-injective h) (Changes-refl name tx)
    | inr missing ↦
        let h = rw missing at e in
        elim (Bool-cases create) [
          | inl wanted ↦ let g = rw wanted at h in create_tenant-Changes name tx tx' g
          | inr unwanted ↦ let g = rw unwanted at h in cc g
        ]
  ]

  check_tenant_inv : (name : Bytes) (tx tx' : Database) → check_tenant name tx ≡ ok tx' → tx ≡ tx'
  unfolding check_tenant
  check_tenant_inv name tx tx' e = elim (Bool-cases (has_buckets tx name tenant_buckets)) [
    | inl all ↦ let h = rw all at e in ok-injective h
    | inr missing ↦ let h = rw missing at e in cc h
  ]

  tenant_inv :
      (name : Bytes) (create : Bool) (tx tx' : Database)
      → tenant tx name create ≡ ok tx'
      → open_tenant tx name create ≡ ok tx'
  unfolding tenant
  tenant_inv name create tx tx' e = elim (Bool-cases (bolt.has tx tenants_path)) [
    | inr missing ↦ let h = rw missing at e in cc h
    | inl there ↦
        let h = rw there at e in
        let (tx1, a, r) = >>=-eq-ok (open_tenant tx name create) (check_tenant name) h in
        a ∙ ap ok (check_tenant_inv name tx1 tx' r)
  ]

  -- Opening a tenant, and making it, changes no view.
  pub tenant-Changes :
      (name : Bytes) (create : Bool) (tx tx' : Database)
      → tenant tx name create ≡ ok tx'
      → Changes name tx tx' (λ v. v)
  tenant-Changes name create tx tx' e =
      open_tenant-Changes name create tx tx' (tenant_inv name create tx tx' e)

  open_tenant_read :
      (name : Bytes) (tx tx' : Database) → open_tenant tx name false ≡ ok tx' → tx ≡ tx'
  unfolding open_tenant
  open_tenant_read name tx tx' e = elim (Bool-cases (bolt.has tx (tenant_path name))) [
    | inl there ↦ let h = rw there at e in ok-injective h
    | inr missing ↦ let h = rw missing at e in cc h
  ]

  -- Without making it, it changes nothing at all.
  pub tenant_read : (name : Bytes) (tx tx' : Database) → tenant tx name false ≡ ok tx' → tx ≡ tx'
  tenant_read name tx tx' e = open_tenant_read name tx tx' (tenant_inv name false tx tx' e)

  has_buckets_mono :
      (name : Bytes) (bs : List Bytes) (tx tx' : Database)
      → ((p : BucketPath) → bolt.has tx p ≡ true → bolt.has tx' p ≡ true)
      → has_buckets tx name bs ≡ true
      → has_buckets tx' name bs ≡ true
  unfolding has_buckets
  has_buckets_mono name [] tx tx' more h = refl
  has_buckets_mono name (b ∷ bs) tx tx' more h =
      let (one, rest) = &&_true (bolt.has tx (bucket_path name b)) (has_buckets tx name bs) h in
      let there = more (bucket_path name b) one in
      let all = has_buckets_mono name bs tx tx' more rest in rw there all

  -- A tenant that opens still opens while no bucket goes.
  pub tenant_mono :
      (name : Bytes) (tx tx' : Database)
      → ((p : BucketPath) → bolt.has tx p ≡ true → bolt.has tx' p ≡ true)
      → tenant tx name false ≡ ok tx
      → tenant tx' name false ≡ ok tx'
  unfolding tenant open_tenant check_tenant
  tenant_mono name tx tx' more e = ground (
    arith,
    more tenants_path,
    more (tenant_path name),
    has_buckets_mono name tenant_buckets tx tx' more,
    Bool-cases (bolt.has tx tenants_path),
    Bool-cases (bolt.has tx (tenant_path name)),
    Bool-cases (has_buckets tx name tenant_buckets),
  )
