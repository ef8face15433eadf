-- ===== src/Tests/Sorted.antt =====
-- A bucket as a list of entries in the order of their keys.
use sigmaproof.Prelude.{
  ℕ, zero, suc, ◌≡◌, refl, ap, ap₂, sym, ◌∙◌, true, false, Bool-cases, Option, none, some, some_eq,
  List, [], ◌∷◌, get_elem?, All, if◌then◌else◌, arith, inl, inr,
}
use sigmaproof.Bytes.{Bytes, bytes_equal, bytes_equal_iff}
use sigmaproof.Storage.Bolt.{precedes, Ascending}
use sigmaproof.Storage.Effects.Distinct.{precedes_irrefl}

abbrev pub Entries : Type 0
Entries = List (Bytes × Bytes)

abbrev pub find_key : Bytes → Entries → Option Bytes
find_key j [] = none
find_key j ((k, v) ∷ es) = if bytes_equal k j then some v else find_key j es

abbrev pub insert_key : Bytes → Bytes → Entries → Entries
insert_key k v [] = (k, v) ∷ []
insert_key k v ((j, w) ∷ es) =
    let rest = insert_key k v es in
    if bytes_equal k j
    then (k, v) ∷ es
    else if precedes k j
    then (k, v) ∷ (j, w) ∷ es
    else (j, w) ∷ rest

abbrev pub erase_key : Bytes → Entries → Entries
erase_key k [] = []
erase_key k ((j, w) ∷ es) =
    let rest = erase_key k es in if bytes_equal k j then rest else (j, w) ∷ rest

-- A key precedes all keys of the entries.
abbrev Before : Bytes → Entries → Type 0
Before k es = All (λ (e : Bytes × Bytes). precedes k e.0 ≡ true) es

precedes_trans : (x y z : Bytes) → precedes x y ≡ true → precedes y z ≡ true → precedes x z ≡ true
unfolding precedes
precedes_trans [] [] z p q = cc
precedes_trans [] (b ∷ y) [] p q = cc
precedes_trans [] (b ∷ y) (c ∷ z) p q = refl
precedes_trans (a ∷ x) [] z p q = cc
precedes_trans (a ∷ x) (b ∷ y) [] p q = cc
precedes_trans (a ∷ x) (b ∷ y) (c ∷ z) p q = ground (arith, precedes_trans x y z)

precedes_total :
    (x y : Bytes) → bytes_equal x y ≡ false → precedes x y ≡ false → precedes y x ≡ true
unfolding precedes bytes_equal
precedes_total [] [] p q = cc
precedes_total [] (b ∷ y) p q = cc
precedes_total (a ∷ x) [] p q = refl
precedes_total (a ∷ x) (b ∷ y) p q = ground (arith, precedes_total x y)

Before-trans : (x y : Bytes) (es : Entries) → precedes x y ≡ true → Before y es → Before x es
Before-trans x y [] p b = tt
Before-trans x y (e ∷ es) p (h, b) = (precedes_trans x y e.0 p h, Before-trans x y es p b)

Before-insert :
    (j k v : Bytes) (es : Entries)
    → precedes j k ≡ true
    → Before j es
    → Before j (insert_key k v es)
Before-insert j k v [] p b = (p, tt)
Before-insert j k v ((i, w) ∷ es) p (h, b) = ground (arith, Before-insert j k v es p b)

pub insert_key-Ascending :
    (k v : Bytes) (es : Entries) → Ascending es → Ascending (insert_key k v es)
insert_key-Ascending k v [] a = (tt, tt)
insert_key-Ascending k v ((j, w) ∷ es) (b, a) = elim (Bool-cases (bytes_equal k j)) [
  | inl same ↦ rw same (ap_before same, a)
  | inr other ↦ elim (Bool-cases (precedes k j)) [
    | inl less ↦ rw (other, less) ((less, Before-trans k j es less b), (b, a))
    | inr more ↦
        rw (other, more)
          (Before-insert j k v es (precedes_total k j other more) b, insert_key-Ascending k v es a)
  ]
]
  where
    ap_before : bytes_equal k j ≡ true → Before k es
    ap_before same = rw ((bytes_equal_iff k j).0 same) b

Before-erase : (j k : Bytes) (es : Entries) → Before j es → Before j (erase_key k es)
Before-erase j k [] b = tt
Before-erase j k ((i, w) ∷ es) (h, b) = ground (arith, Before-erase j k es b)

pub erase_key-Ascending : (k : Bytes) (es : Entries) → Ascending es → Ascending (erase_key k es)
erase_key-Ascending k [] a = tt
erase_key-Ascending k ((j, w) ∷ es) (b, a) =
    ground (arith, erase_key-Ascending k es a, Before-erase j k es b)

pub find_key-insert :
    (k v j : Bytes) (es : Entries)
    → find_key j (insert_key k v es) ≡ (if bytes_equal k j then some v else find_key j es)
find_key-insert k v j [] = refl
find_key-insert k v j ((i, w) ∷ es) =
    ground (
      arith,
      find_key-insert k v j es,
      bytes_equal_iff k i,
      bytes_equal_iff k j,
      bytes_equal_iff i j,
    )

pub find_key-erase :
    (k j : Bytes) (es : Entries)
    → find_key j (erase_key k es) ≡ (if bytes_equal k j then none else find_key j es)
find_key-erase k j [] = ground arith
find_key-erase k j ((i, w) ∷ es) =
    ground
      (arith, find_key-erase k j es, bytes_equal_iff k i, bytes_equal_iff k j, bytes_equal_iff i j)

Before-index :
    (j : Bytes) (es : Entries) (i : ℕ) (k v : Bytes)
    → Before j es
    → get_elem? es i ≡ some (k, v)
    → precedes j k ≡ true
Before-index j [] i k v b e = cc
Before-index j (x ∷ es) zero k v (h, b) e =
    ap (λ (t : Bytes × Bytes). precedes j t.0) (sym (some_eq e)) ∙ h
Before-index j (x ∷ es) (suc i) k v (h, b) e = Before-index j es i k v b e

pub index-find_key :
    (es : Entries) (i : ℕ) (k v : Bytes)
    → Ascending es
    → get_elem? es i ≡ some (k, v)
    → find_key k es ≡ some v
index-find_key [] i k v a e = cc
index-find_key ((j, w) ∷ es) zero k v a e =
    let same = some_eq e in
    ground (
      arith,
      ap (λ (t : Bytes × Bytes). t.0) same,
      ap (λ (t : Bytes × Bytes). t.1) same,
      bytes_equal_iff j k,
    )
index-find_key ((j, w) ∷ es) (suc i) k v (b, a) e = ground (
  arith,
  index-find_key es i k v a e,
  Before-index j es i k v b e,
  bytes_equal_iff j k,
  precedes_irrefl j,
  ap (precedes j),
)

pub find_key-index :
    (es : Entries) (k v : Bytes) → find_key k es ≡ some v → (i : ℕ) × (get_elem? es i ≡ some (k, v))
find_key-index [] k v e = cc
find_key-index ((j, w) ∷ es) k v e = elim (Bool-cases (bytes_equal j k)) [
  | inl same ↦
      let h = rw same at e in
      (0, ap some (ap₂ (λ a b. (a, b)) ((bytes_equal_iff j k).0 same) (some_eq h)))
  | inr other ↦ let h = rw other at e in let (i, there) = find_key-index es k v h in (suc i, there)
]
