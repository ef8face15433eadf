-- ===== src/Storage/Bolt.antt =====
-- The database, go.etcd.io/bbolt: a transaction sees a tree of buckets, each named by its path, which
-- map keys to values and count a sequence. A write may fail, and so may the commit. The laws are
-- what bbolt documents; a write changes one key of one bucket.
use sigmaproof.Prelude.{
  ℕ, ◌+◌, ◌%◌, ◌^◌, ◌≡◌, Bool, true, false, ◌&&◌, Option, none, some, List, [], ◌∷◌, if◌then◌else◌,
  ltb, ◌==◌, get_elem?,
}
use sigmaproof.Prelude.{All, ok, err}
use sigmaproof.Bytes.{Bytes, bytes_equal, IsU64}
use sigmaproof.Storage.Types.{Stored, database_failed}

abbrev pub BucketPath : Type 0
BucketPath = List Bytes

unfoldable pub path_equal : BucketPath → BucketPath → Bool
path_equal [] [] = true
path_equal [] (b ∷ q) = false
path_equal (a ∷ p) [] = false
path_equal (a ∷ p) (b ∷ q) = bytes_equal a b && path_equal p q

-- The order of keys in a bucket, byte by byte.
unfoldable pub precedes : Bytes → Bytes → Bool
precedes [] [] = false
precedes [] (b ∷ y) = true
precedes (a ∷ x) [] = false
precedes (a ∷ x) (b ∷ y) = if a == b then precedes x y else ltb a b

-- The keys of a list of entries ascend.
abbrev pub Ascending : List (Bytes × Bytes) → Type 0
Ascending [] = Unit
Ascending ((k, v) ∷ es) = All (λ (e : Bytes × Bytes). precedes k e.0 ≡ true) es × Ascending es

-- One cell of the database is written.
abbrev pub same_cell : BucketPath → Bytes → BucketPath → Bytes → Bool
same_cell p k q j = path_equal p q && bytes_equal k j

pub record Bolt : Type 1 where
  pub Tx : Type 0
  pub has : Tx → BucketPath → Bool
  -- the root has no key
  pub is_empty : Tx → Bool
  pub create : Tx → BucketPath → Option Tx
  pub get : Tx → BucketPath → Bytes → Option Bytes
  pub put : Tx → BucketPath → Bytes → Bytes → Option Tx
  pub delete : Tx → BucketPath → Bytes → Option Tx
  pub next_sequence : Tx → BucketPath → Option (ℕ × Tx)
  -- the last sequence number that was given, a uint64
  pub sequence : Tx → BucketPath → ℕ
  -- what a cursor goes through, from its first entry
  pub entries : Tx → BucketPath → List (Bytes × Bytes)
  pub commits : Tx → Bool
  pub has-create :
      (tx tx' : Tx) (p q : BucketPath)
      → create tx p ≡ some tx'
      → has tx' q ≡ (if path_equal p q then true else has tx q)
  pub create-has : (tx tx' : Tx) (p : BucketPath) → create tx p ≡ some tx' → has tx p ≡ false
  pub get_missing : (tx : Tx) (p : BucketPath) (k : Bytes) → has tx p ≡ false → get tx p k ≡ none
  pub get-create :
      (tx tx' : Tx) (p q : BucketPath) (k : Bytes)
      → create tx p ≡ some tx'
      → get tx' q k ≡ (if path_equal p q then none else get tx q k)
  pub has-put :
      (tx tx' : Tx) (p q : BucketPath) (k v : Bytes)
      → put tx p k v ≡ some tx'
      → has tx' q ≡ has tx q
  pub get-put :
      (tx tx' : Tx) (p q : BucketPath) (k j v : Bytes)
      → put tx p k v ≡ some tx'
      → get tx' q j ≡ (if same_cell p k q j then some v else get tx q j)
  pub has-delete :
      (tx tx' : Tx) (p q : BucketPath) (k : Bytes) → delete tx p k ≡ some tx' → has tx' q ≡ has tx q
  pub get-delete :
      (tx tx' : Tx) (p q : BucketPath) (k j : Bytes)
      → delete tx p k ≡ some tx'
      → get tx' q j ≡ (if same_cell p k q j then none else get tx q j)
  pub has-next_sequence :
      (tx tx' : Tx) (p q : BucketPath) (n : ℕ)
      → next_sequence tx p ≡ some (n, tx')
      → has tx' q ≡ has tx q
  pub get-next_sequence :
      (tx tx' : Tx) (p q : BucketPath) (n : ℕ) (k : Bytes)
      → next_sequence tx p ≡ some (n, tx')
      → get tx' q k ≡ get tx q k
  pub sequence_range : (tx : Tx) (p : BucketPath) → IsU64 (sequence tx p)
  pub next_sequence_lem :
      (tx tx' : Tx) (p q : BucketPath) (n : ℕ)
      → next_sequence tx p ≡ some (n, tx')
      → (n ≡ (sequence tx p + 1) % 2 ^ 64)
        × (sequence tx' q ≡ (if path_equal p q then n else sequence tx q))
  pub sequence_missing : (tx : Tx) (p : BucketPath) → has tx p ≡ false → sequence tx p ≡ 0
  pub sequence-create :
      (tx tx' : Tx) (p q : BucketPath)
      → create tx p ≡ some tx'
      → sequence tx' q ≡ (if path_equal p q then 0 else sequence tx q)
  pub sequence-put :
      (tx tx' : Tx) (p q : BucketPath) (k v : Bytes)
      → put tx p k v ≡ some tx'
      → sequence tx' q ≡ sequence tx q
  pub sequence-delete :
      (tx tx' : Tx) (p q : BucketPath) (k : Bytes)
      → delete tx p k ≡ some tx'
      → sequence tx' q ≡ sequence tx q
  pub entries-Ascending : (tx : Tx) (p : BucketPath) → Ascending (entries tx p)
  pub get-entries :
      (tx : Tx) (p : BucketPath) (i : ℕ) (k v : Bytes)
      → get_elem? (entries tx p) i ≡ some (k, v)
      → get tx p k ≡ some v
  pub entries-get :
      (tx : Tx) (p : BucketPath) (k v : Bytes)
      → get tx p k ≡ some v
      → (i : ℕ) × (get_elem? (entries tx p) i ≡ some (k, v))

-- A failure of the database, as an error.
abbrev pub or_failed : {A : Type 0} → Option A → Stored A
or_failed none = err database_failed
or_failed (some a) = ok a

module _ ⦃bolt : Bolt⦄ where
  abbrev pub Database : Type 0
  Database = bolt.Tx

  -- `db.Update`: what the function wrote is kept when it succeeds and the commit does.
  unfoldable pub update :
      {A : Type 0} → (Database → Stored (A × Database)) → Database → Stored A × Database
  update f db = elim (f db) [
    | err e ↦ (err e, db)
    | ok (a, tx) ↦ if bolt.commits tx then (ok a, tx) else (err database_failed, db)
  ]

  unfoldable pub bolt_put : Database → BucketPath → Bytes → Bytes → Stored Database
  bolt_put tx p k v = or_failed (bolt.put tx p k v)

  unfoldable pub bolt_delete : Database → BucketPath → Bytes → Stored Database
  bolt_delete tx p k = or_failed (bolt.delete tx p k)

  unfoldable pub bolt_create : Database → BucketPath → Stored Database
  bolt_create tx p = or_failed (bolt.create tx p)
