-- ===== src/Tests/Buckets.antt =====
-- The buckets of a database in memory.
use sigmaproof.Prelude.{
  ℕ, ◌+◌, ◌%◌, ◌^◌, ◌≡◌, refl, ap, ap₂, sym, ◌∙◌, Bool, true, false, ◌&&◌, Bool-cases, Option, none,
  some, some_eq, List, [], ◌∷◌, if◌then◌else◌, arith, inl, inr, &&_true,
}
use sigmaproof.Bytes.{Bytes, IsU64, bytes_equal, bytes_equal_iff}
use sigmaproof.Storage.Bolt.{BucketPath, path_equal, same_cell, Ascending}
use sigmaproof.Tests.Sorted.{
  Entries, find_key, insert_key, erase_key, insert_key-Ascending, erase_key-Ascending,
}

-- A bucket: its entries, and its sequence.
pub record Bucket : Type 0 where
  pub cells : Entries
  pub last : ℕ
  pub ascending : Ascending cells
  pub range : IsU64 last

abbrev pub Files : Type 0
Files = List (BucketPath × Bucket)

abbrev pub bucket_at : Files → BucketPath → Option Bucket
bucket_at [] q = none
bucket_at ((p, b) ∷ f) q = if path_equal p q then some b else bucket_at f q

-- The newest bucket of a path stands first.
abbrev pub with_bucket : Files → BucketPath → Bucket → Files
with_bucket f p b = (p, b) ∷ f

pub bucket_at-with :
    (f : Files) (p q : BucketPath) (b : Bucket)
    → bucket_at (with_bucket f p b) q ≡ (if path_equal p q then some b else bucket_at f q)
bucket_at-with f p q b = refl

abbrev pub is_there : Option Bucket → Bool
is_there none = false
is_there (some b) = true

abbrev pub cells_of : Option Bucket → Entries
cells_of none = []
cells_of (some b) = b.cells

abbrev pub last_of : Option Bucket → ℕ
last_of none = 0
last_of (some b) = b.last

pub zero_range : IsU64 0
zero_range = ground arith

abbrev pub empty_bucket : Bucket
empty_bucket = record { cells = []; last = 0; ascending = tt; range = zero_range }

abbrev pub put_in : Bytes → Bytes → Bucket → Bucket
put_in k v b = record b {
  cells = insert_key k v b.cells;
  ascending = insert_key-Ascending k v b.cells b.ascending;
}

abbrev pub delete_in : Bytes → Bucket → Bucket
delete_in k b = record b {
  cells = erase_key k b.cells;
  ascending = erase_key-Ascending k b.cells b.ascending;
}

pub word_range : (n : ℕ) → IsU64 (n % 2 ^ 64)
word_range n = omega arith

abbrev pub next_in : Bucket → Bucket
next_in b = record b { last = (b.last + 1) % 2 ^ 64; range = word_range (b.last + 1) }

abbrev pub change : (Bucket → Bucket) → Files → BucketPath → Option Bucket → Option Files
change g f p none = none
change g f p (some b) = some (with_bucket f p (g b))

pub path_sound : (p q : BucketPath) → path_equal p q ≡ true → p ≡ q
unfolding path_equal
path_sound [] [] e = refl
path_sound [] (b ∷ q) e = cc
path_sound (a ∷ p) [] e = cc
path_sound (a ∷ p) (b ∷ q) e =
    let (same, rest) = &&_true (bytes_equal a b) (path_equal p q) e in
    ap₂ (λ x y. x ∷ y) ((bytes_equal_iff a b).0 same) (path_sound p q rest)

pub change_inv :
    (g : Bucket → Bucket) (f f' : Files) (p : BucketPath) (o : Option Bucket)
    → change g f p o ≡ some f'
    → (b : Bucket) × (o ≡ some b) × (with_bucket f p (g b) ≡ f')
change_inv g f f' p none h = cc
change_inv g f f' p (some b) h = (b, refl, some_eq h)

abbrev pub has_bucket : Files → BucketPath → Bool
has_bucket f p = is_there (bucket_at f p)

abbrev pub get_key : Files → BucketPath → Bytes → Option Bytes
get_key f p k = find_key k (cells_of (bucket_at f p))

abbrev pub make_bucket : Files → BucketPath → Option Bucket → Option Files
make_bucket f p none = some (with_bucket f p empty_bucket)
make_bucket f p (some b) = none

pub make_bucket_inv :
    (f f' : Files) (p : BucketPath) (o : Option Bucket)
    → make_bucket f p o ≡ some f'
    → (o ≡ none) × (with_bucket f p empty_bucket ≡ f')
make_bucket_inv f f' p none h = (refl, some_eq h)
make_bucket_inv f f' p (some b) h = cc

-- What is read of a bucket behind a change of one.
pub seen :
    {A : Type 0} (R : Option Bucket → A) (f f' : Files) (p q : BucketPath) (b : Bucket)
    → with_bucket f p b ≡ f'
    → R (bucket_at f' q) ≡ (if path_equal p q then R (some b) else R (bucket_at f q))
seen R f f' p q b h = ap (λ t. R (bucket_at t q)) (sym h) ∙ pick (path_equal p q)
  where
    pick :
        (t : Bool)
        → R (if t then some b else bucket_at f q) ≡ (if t then R (some b) else R (bucket_at f q))
    pick true = refl
    pick false = refl

-- A change that leaves what is read of the bucket.
pub kept :
    {A : Type 0} (R : Option Bucket → A) (g : Bucket → Bucket) (f f' : Files) (p q : BucketPath)
    → ((b : Bucket) → R (some (g b)) ≡ R (some b))
    → change g f p (bucket_at f p) ≡ some f'
    → R (bucket_at f' q) ≡ R (bucket_at f q)
kept R g f f' p q same h =
    let (b, there, done) = change_inv g f f' p (bucket_at f p) h in
    elim (Bool-cases (path_equal p q)) [
      | inl e ↦
          seen R f f' p q (g b) done
          ∙ ap (λ (t : Bool). if t then R (some (g b)) else R (bucket_at f q)) e
          ∙ same b
          ∙ ap R (sym there)
          ∙ ap (λ t. R (bucket_at f t)) (path_sound p q e)
      | inr e ↦
          seen R f f' p q (g b) done
          ∙ ap (λ (t : Bool). if t then R (some (g b)) else R (bucket_at f q)) e
    ]

-- A change of one cell.
pub changed :
    (g : Bucket → Bucket) (f f' : Files) (p q : BucketPath) (k j : Bytes) (x : Option Bytes)
    → ((b : Bucket) → find_key j (g b).cells ≡ (if bytes_equal k j then x else find_key j b.cells))
    → change g f p (bucket_at f p) ≡ some f'
    → get_key f' q j ≡ (if same_cell p k q j then x else get_key f q j)
changed g f f' p q k j x cell h =
    let R : Option Bucket → Option Bytes = λ o. find_key j (cells_of o) in
    let (b, there, done) = change_inv g f f' p (bucket_at f p) h in
    elim (Bool-cases (path_equal p q)) [
      | inl e ↦
          seen R f f' p q (g b) done
          ∙ ap (λ (t : Bool). if t then R (some (g b)) else R (bucket_at f q)) e
          ∙ cell b
          ∙ ap (λ t. if bytes_equal k j then x else R t)
              (sym there ∙ ap (bucket_at f) (path_sound p q e))
          ∙ ap (λ (t : Bool). if t && bytes_equal k j then x else R (bucket_at f q)) (sym e)
      | inr e ↦
          seen R f f' p q (g b) done
          ∙ ap (λ (t : Bool). if t then R (some (g b)) else R (bucket_at f q)) e
          ∙ ap (λ (t : Bool). if t && bytes_equal k j then x else R (bucket_at f q)) (sym e)
    ]

pub last_range : (o : Option Bucket) → IsU64 (last_of o)
last_range none = zero_range
last_range (some b) = b.range

pub cells_of-Ascending : (o : Option Bucket) → Ascending (cells_of o)
cells_of-Ascending none = tt
cells_of-Ascending (some b) = b.ascending

pub missing_bucket : (o : Option Bucket) → is_there o ≡ false → o ≡ none
missing_bucket none h = refl
missing_bucket (some b) h = cc

abbrev pub give_next : Option Files → BucketPath → Option (ℕ × Files)
give_next none p = none
give_next (some f) p = some (last_of (bucket_at f p), f)

pub give_next_inv :
    (o : Option Files) (p : BucketPath) (n : ℕ) (f : Files)
    → give_next o p ≡ some (n, f)
    → (o ≡ some f) × (n ≡ last_of (bucket_at f p))
give_next_inv none p n f h = cc
give_next_inv (some g) p n f h =
    let same = some_eq h in
    let is_f = ap (λ (t : ℕ × Files). t.1) same in
    (ap some is_f, sym (ap (λ (t : ℕ × Files). t.0) same) ∙ ap (λ t. last_of (bucket_at t p)) is_f)
