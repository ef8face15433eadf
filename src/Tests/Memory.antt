-- ===== src/Tests/Memory.antt =====
-- A database in memory, in the place of go.etcd.io/bbolt.
use sigmaproof.Prelude.{
  ℕ, ◌+◌, ◌%◌, ◌^◌, ◌≡◌, refl, ap, sym, ◌∙◌, Bool, true, false, Option, none, some, [], ◌∷◌,
  if◌then◌else◌, arith,
}
use sigmaproof.Bytes.{Bytes, bytes_equal_refl}
use sigmaproof.Storage.Bolt.{Bolt, BucketPath, path_equal, same_cell}
use sigmaproof.Tests.Sorted.{
  find_key, find_key-insert, find_key-erase, index-find_key, find_key-index,
}
use sigmaproof.Tests.Buckets.{
  Bucket, Files, bucket_at, is_there, cells_of, last_of, empty_bucket, put_in, delete_in, next_in,
  change, change_inv, has_bucket, get_key, make_bucket, make_bucket_inv, seen, kept, changed,
  last_range, cells_of-Ascending, missing_bucket, give_next, give_next_inv,
}

path_refl : (p : BucketPath) → path_equal p p ≡ true
unfolding path_equal
path_refl [] = refl
path_refl (a ∷ p) = ground (arith, bytes_equal_refl a, path_refl p)

abbrev create_bucket : Files → BucketPath → Option Files
create_bucket f p = make_bucket f p (bucket_at f p)

abbrev put_key : Files → BucketPath → Bytes → Bytes → Option Files
put_key f p k v = change (put_in k v) f p (bucket_at f p)

abbrev delete_key : Files → BucketPath → Bytes → Option Files
delete_key f p k = change (delete_in k) f p (bucket_at f p)

abbrev next_key : Files → BucketPath → Option (ℕ × Files)
next_key f p = give_next (change next_in f p (bucket_at f p)) p

abbrev no_files : Files → Bool
no_files [] = true
no_files (b ∷ f) = false

-- What a new bucket shows.
pub made :
    {A : Type 0} (R : Option Bucket → A) (f f' : Files) (p q : BucketPath)
    → create_bucket f p ≡ some f'
    → R (bucket_at f' q) ≡ (if path_equal p q then R (some empty_bucket) else R (bucket_at f q))
made R f f' p q h = seen R f f' p q empty_bucket (make_bucket_inv f f' p (bucket_at f p) h).1

pub made_missing :
    (f f' : Files) (p : BucketPath) → create_bucket f p ≡ some f' → has_bucket f p ≡ false
made_missing f f' p h = ap is_there (make_bucket_inv f f' p (bucket_at f p) h).0

pub get_key_missing :
    (f : Files) (p : BucketPath) (k : Bytes) → has_bucket f p ≡ false → get_key f p k ≡ none
get_key_missing f p k h = ap (λ o. find_key k (cells_of o)) (missing_bucket (bucket_at f p) h)

pub last_missing :
    (f : Files) (p : BucketPath) → has_bucket f p ≡ false → last_of (bucket_at f p) ≡ 0
last_missing f p h = ap last_of (missing_bucket (bucket_at f p) h)

pub next_changes :
    (f f' : Files) (p : BucketPath) (n : ℕ)
    → next_key f p ≡ some (n, f')
    → change next_in f p (bucket_at f p) ≡ some f'
next_changes f f' p n h = (give_next_inv (change next_in f p (bucket_at f p)) p n f' h).0

pub next_key_lem :
    (f f' : Files) (p q : BucketPath) (n : ℕ)
    → next_key f p ≡ some (n, f')
    → (n ≡ (last_of (bucket_at f p) + 1) % 2 ^ 64)
      × (last_of (bucket_at f' q) ≡ (if path_equal p q then n else last_of (bucket_at f q)))
next_key_lem f f' p q n h =
    let (step, given) = give_next_inv (change next_in f p (bucket_at f p)) p n f' h in
    let (b, there, done) = change_inv next_in f f' p (bucket_at f p) step in
    let own : last_of (bucket_at f' p) ≡ (b.last + 1) % 2 ^ 64 =
      seen last_of f f' p p (next_in b) done
      ∙ ap (λ (t : Bool). if t then (b.last + 1) % 2 ^ 64 else last_of (bucket_at f p))
          (path_refl p) in
    (
      given ∙ own ∙ ap (λ o. (last_of o + 1) % 2 ^ 64) (sym there),
      seen last_of f f' p q (next_in b) done
          ∙ ap (λ t. if path_equal p q then t else last_of (bucket_at f q)) (sym (given ∙ own)),
    )

pub put_kept :
    {A : Type 0} (R : Option Bucket → A) (f f' : Files) (p q : BucketPath) (k v : Bytes)
    → ((b : Bucket) → R (some (put_in k v b)) ≡ R (some b))
    → put_key f p k v ≡ some f'
    → R (bucket_at f' q) ≡ R (bucket_at f q)
put_kept R f f' p q k v same h = kept R (put_in k v) f f' p q same h

pub delete_kept :
    {A : Type 0} (R : Option Bucket → A) (f f' : Files) (p q : BucketPath) (k : Bytes)
    → ((b : Bucket) → R (some (delete_in k b)) ≡ R (some b))
    → delete_key f p k ≡ some f'
    → R (bucket_at f' q) ≡ R (bucket_at f q)
delete_kept R f f' p q k same h = kept R (delete_in k) f f' p q same h

pub next_kept :
    {A : Type 0} (R : Option Bucket → A) (f f' : Files) (p q : BucketPath) (n : ℕ)
    → ((b : Bucket) → R (some (next_in b)) ≡ R (some b))
    → next_key f p ≡ some (n, f')
    → R (bucket_at f' q) ≡ R (bucket_at f q)
next_kept R f f' p q n same h = kept R next_in f f' p q same (next_changes f f' p n h)

pub get-put_key :
    (f f' : Files) (p q : BucketPath) (k j v : Bytes)
    → put_key f p k v ≡ some f'
    → get_key f' q j ≡ (if same_cell p k q j then some v else get_key f q j)
get-put_key f f' p q k j v h =
    changed (put_in k v) f f' p q k j (some v) (λ b. find_key-insert k v j b.cells) h

pub get-delete_key :
    (f f' : Files) (p q : BucketPath) (k j : Bytes)
    → delete_key f p k ≡ some f'
    → get_key f' q j ≡ (if same_cell p k q j then none else get_key f q j)
get-delete_key f f' p q k j h =
    changed (delete_in k) f f' p q k j none (λ b. find_key-erase k j b.cells) h

instance abbrev pub memory : Bolt
memory = record {
  Tx = Files;
  has = has_bucket;
  is_empty = no_files;
  create = create_bucket;
  get = get_key;
  put = put_key;
  delete = delete_key;
  next_sequence = next_key;
  sequence = λ f p. last_of (bucket_at f p);
  entries = λ f p. cells_of (bucket_at f p);
  commits = λ f. true;
  has-create = λ f f' p q h. made is_there f f' p q h;
  create-has = made_missing;
  get_missing = get_key_missing;
  get-create = λ f f' p q k h. made (λ o. find_key k (cells_of o)) f f' p q h;
  has-put = λ f f' p q k v h. put_kept is_there f f' p q k v (λ b. refl) h;
  get-put = get-put_key;
  has-delete = λ f f' p q k h. delete_kept is_there f f' p q k (λ b. refl) h;
  get-delete = get-delete_key;
  has-next_sequence = λ f f' p q n h. next_kept is_there f f' p q n (λ b. refl) h;
  get-next_sequence =
      λ f f' p q n k h. next_kept (λ o. find_key k (cells_of o)) f f' p q n (λ b. refl) h;
  sequence_range = λ f p. last_range (bucket_at f p);
  next_sequence_lem = next_key_lem;
  sequence_missing = last_missing;
  sequence-create = λ f f' p q h. made last_of f f' p q h;
  sequence-put = λ f f' p q k v h. put_kept last_of f f' p q k v (λ b. refl) h;
  sequence-delete = λ f f' p q k h. delete_kept last_of f f' p q k (λ b. refl) h;
  entries-Ascending = λ f p. cells_of-Ascending (bucket_at f p);
  get-entries = λ f p i k v h.
      index-find_key (cells_of (bucket_at f p)) i k v (cells_of-Ascending (bucket_at f p)) h;
  entries-get = λ f p k v h. find_key-index (cells_of (bucket_at f p)) k v h;
}
