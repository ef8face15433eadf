-- ===== src/Text.antt =====
-- Go strings: byte sequences, with what the source uses of the packages strings, unicode/utf8 and
-- encoding/hex.
use sigmaproof.Prelude.{
  ℕ, suc, zero, ◌+◌, ◌-◌, ◌/◌, ◌%◌, ◌*◌, Bool, true, false, ◌&&◌, ◌||◌, Option, none, some, List,
  [], ◌∷◌, ◌++◌, map, length, drop, ltb, leb, ◌==◌, if◌then◌else◌,
}
use sigmaproof.Bytes.{Bytes, bytes_equal}

unfoldable pub reverse : Bytes → Bytes
reverse [] = []
reverse (b ∷ d) = reverse d ++ (b ∷ [])

-- What is left of a text behind a prefix.
unfoldable pub strip_prefix : Bytes → Bytes → Option Bytes
strip_prefix [] d = some d
strip_prefix (p ∷ prefix) [] = none
strip_prefix (p ∷ prefix) (b ∷ d) = if p == b then strip_prefix prefix d else none

-- `strings.HasSuffix`
unfoldable pub has_suffix : Bytes → Bytes → Bool
has_suffix d suffix =
    leb (length suffix) (length d) && bytes_equal (drop (length d - length suffix) d) suffix

-- The last bytes of U+2000 to U+200A.
abbrev general_spaces : List Bytes
general_spaces =
    map (λ b. 226 ∷ 128 ∷ b ∷ [])
      (128 ∷ 129 ∷ 130 ∷ 131 ∷ 132 ∷ 133 ∷ 134 ∷ 135 ∷ 136 ∷ 137 ∷ 138 ∷ 168 ∷ 169 ∷ 175 ∷ [])

-- The UTF-8 of the characters that `unicode.IsSpace` accepts.
abbrev spaces : List Bytes
spaces =
    (9 ∷ [])
    ∷ (10 ∷ [])
    ∷ (11 ∷ [])
    ∷ (12 ∷ [])
    ∷ (13 ∷ [])
    ∷ (32 ∷ [])
    ∷ (194 ∷ 133 ∷ [])
    ∷ (194 ∷ 160 ∷ [])
    ∷ (225 ∷ 154 ∷ 128 ∷ [])
    ∷ (226 ∷ 129 ∷ 159 ∷ [])
    ∷ (227 ∷ 128 ∷ 128 ∷ [])
    ∷ general_spaces

-- The text behind one of the given prefixes.
unfoldable pub strip_one : List Bytes → Bytes → Option Bytes
strip_one [] d = none
strip_one (s ∷ ss) d = elim (strip_prefix s d) [ none ↦ strip_one ss d | some rest ↦ some rest ]

-- Every round takes a byte at least, so the length of the text is enough rounds.
unfoldable pub trim_front : ℕ → List Bytes → Bytes → Bytes
trim_front zero ss d = d
trim_front (suc fuel) ss d = elim (strip_one ss d) [
  | none ↦ d
  | some rest ↦ trim_front fuel ss rest
]

-- `strings.TrimSpace`: the end is trimmed as the front of the reversed text.
unfoldable pub trim_space : Bytes → Bytes
trim_space d =
    let front = trim_front (length d) spaces d in
    reverse (trim_front (length front) (map reverse spaces) (reverse front))

-- The ranges of the bytes that follow a first byte in UTF-8, none where no character starts so.
unfoldable pub following : ℕ → Option (List (ℕ × ℕ))
following b =
    if ltb b 128
    then some []
    else if ltb b 194
    then none
    else if ltb b 224
    then some ((128, 191) ∷ [])
    else if b == 224
    then some ((160, 191) ∷ (128, 191) ∷ [])
    else if b == 237
    then some ((128, 159) ∷ (128, 191) ∷ [])
    else if ltb b 240
    then some ((128, 191) ∷ (128, 191) ∷ [])
    else if b == 240
    then some ((144, 191) ∷ (128, 191) ∷ (128, 191) ∷ [])
    else if ltb b 244
    then some ((128, 191) ∷ (128, 191) ∷ (128, 191) ∷ [])
    else if b == 244
    then some ((128, 143) ∷ (128, 191) ∷ (128, 191) ∷ [])
    else none

unfoldable pub valid_from : List (ℕ × ℕ) → Bytes → Bool
valid_from [] [] = true
valid_from (r ∷ rs) [] = false
valid_from [] (b ∷ d) = elim (following b) [ none ↦ false | some rs ↦ valid_from rs d ]
valid_from ((lo, hi) ∷ rs) (b ∷ d) = leb lo b && leb b hi && valid_from rs d

-- `utf8.ValidString`
unfoldable pub valid_string : Bytes → Bool
valid_string d = valid_from [] d

-- `strings.ContainsRune(value, 0)`: in every text, the byte 0 stands for the character 0 alone.
unfoldable pub contains_nul : Bytes → Bool
contains_nul [] = false
contains_nul (b ∷ d) = b == 0 || contains_nul d

abbrev pub hex_digit : ℕ → ℕ
hex_digit n = if ltb n 10 then 48 + n else 87 + n

-- `hex.EncodeToString`
unfoldable pub hex : Bytes → Bytes
hex [] = []
hex (b ∷ d) = hex_digit (b / 16) ∷ hex_digit (b % 16) ∷ hex d

-- The value of a hexadecimal digit of either case.
unfoldable pub hex_value : ℕ → Option ℕ
hex_value c =
    if leb 48 c && leb c 57
    then some (c - 48)
    else if leb 97 c && leb c 102
    then some (c - 87)
    else if leb 65 c && leb c 70
    then some (c - 55)
    else none

unfoldable pub push_byte : Option ℕ → Option ℕ → Option Bytes → Option Bytes
push_byte (some hi) (some lo) (some d) = some ((16 * hi + lo) ∷ d)
push_byte (some hi) (some lo) none = none
push_byte (some hi) none rest = none
push_byte none lo rest = none

-- `hex.DecodeString`
unfoldable pub decode_hex : Bytes → Option Bytes
decode_hex [] = some []
decode_hex (a ∷ []) = none
decode_hex (a ∷ b ∷ d) = push_byte (hex_value a) (hex_value b) (decode_hex d)
