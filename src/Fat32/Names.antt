-- ===== src/Fat32/Names.antt =====
-- The names of directory entries in fs/src/fat32/mod.rs: short names of eleven bytes, and long names in
-- UTF-16, with the conversions of `str` that the source calls. A `&str` is well-formed UTF-8.
use serix.Base.{
  ℕ, suc, ◌+◌, ◌-◌, ◌*◌, ◌/◌, ◌%◌, Bool, false, ◌&&◌, ◌||◌, List, [], ◌∷◌, ◌++◌, map, Option, none,
  some, if◌then◌else◌, ◌==◌, ltb, leb, length, slice, splice, replicate, le_at,
}
use serix.Vfs.Path.{Str, str_eq, is_empty}
use serix.Ext2.Utf8.{is_utf8}

-- The text of a character, `String::push`.
unfoldable pub push_char : ℕ → Str
push_char c =
    if ltb c 128
    then c ∷ []
    else if ltb c 2048
    then (192 + c / 64) ∷ (128 + c % 64) ∷ []
    else if ltb c 65536
    then (224 + c / 4096) ∷ (128 + c / 64 % 64) ∷ (128 + c % 64) ∷ []
    else (240 + c / 262144) ∷ (128 + c / 4096 % 64) ∷ (128 + c / 64 % 64) ∷ (128 + c % 64) ∷ []

-- The units of a character in UTF-16.
unfoldable pub units : ℕ → List ℕ
units c =
    if ltb c 65536 then c ∷ [] else (55296 + (c - 65536) / 1024) ∷ (56320 + (c - 65536) % 1024) ∷ []

-- `encode_utf16`, over at most as many characters as fuel; a character has at least one byte.
unfoldable pub utf16_from : ℕ → Str → List ℕ
utf16_from (suc n) (a ∷ b ∷ c ∷ d ∷ s) =
    if ltb a 128
    then units a ++ utf16_from n (b ∷ c ∷ d ∷ s)
    else if ltb a 224
    then units ((a - 192) * 64 + (b - 128)) ++ utf16_from n (c ∷ d ∷ s)
    else if ltb a 240
    then units ((a - 224) * 4096 + (b - 128) * 64 + (c - 128)) ++ utf16_from n (d ∷ s)
    else units ((a - 240) * 262144 + (b - 128) * 4096 + (c - 128) * 64 + (d - 128))
      ++ utf16_from n s
utf16_from (suc n) (a ∷ b ∷ c ∷ []) =
    if ltb a 128
    then units a ++ utf16_from n (b ∷ c ∷ [])
    else if ltb a 224
    then units ((a - 192) * 64 + (b - 128)) ++ utf16_from n (c ∷ [])
    else units ((a - 224) * 4096 + (b - 128) * 64 + (c - 128))
utf16_from (suc n) (a ∷ b ∷ []) =
    if ltb a 128 then units a ++ utf16_from n (b ∷ []) else units ((a - 192) * 64 + (b - 128))
utf16_from (suc n) (a ∷ []) = units a
utf16_from _ _ = []

unfoldable pub encode_utf16 : Str → List ℕ
encode_utf16 s = utf16_from (length s) s

unfoldable pub till_zero : List ℕ → List ℕ
till_zero [] = []
till_zero (c ∷ cs) = if c == 0 then [] else c ∷ till_zero cs

-- The text of UTF-16 units up to the first 0, without those that are no character.
unfoldable pub decode_units : List ℕ → Str
decode_units [] = []
decode_units (c ∷ cs) =
    let rest = decode_units cs in
    if c == 0 then [] else if leb 55296 c && leb c 57343 then rest else push_char c ++ rest

abbrev pub offsets : List ℕ
offsets = 1 ∷ 3 ∷ 5 ∷ 7 ∷ 9 ∷ 14 ∷ 16 ∷ 18 ∷ 20 ∷ 22 ∷ 24 ∷ 28 ∷ 30 ∷ []

unfoldable pub read_lfn_chars : List ℕ → List ℕ
read_lfn_chars raw = map (λ off. le_at raw off 2) offsets

-- `trim_end_matches(' ')`
unfoldable pub trim_spaces : Str → Str
trim_spaces [] = []
trim_spaces (x ∷ xs) = let r = trim_spaces xs in if is_empty r && x == 32 then [] else x ∷ r

abbrev text_of : List ℕ → Str
text_of bytes = if is_utf8 bytes then bytes else []

unfoldable pub parse_sfn : List ℕ → Str
parse_sfn raw =
    let name = trim_spaces (text_of (slice 0 8 raw)) in
    let ext = trim_spaces (text_of (slice 8 3 raw)) in
    if is_empty ext then name else name ++ b'.' ∷ ext

unfoldable pub to_ascii_uppercase : ℕ → ℕ
to_ascii_uppercase b = if leb 97 b && leb b 122 then b - 32 else b

unfoldable pub to_ascii_lowercase : ℕ → ℕ
to_ascii_lowercase b = if leb 65 b && leb b 90 then b + 32 else b

unfoldable pub eq_ignore_ascii_case : Str → Str → Bool
eq_ignore_ascii_case s t = str_eq (map to_ascii_lowercase s) (map to_ascii_lowercase t)

-- The parts before and after the last dot.
unfoldable pub split_dot : Str → Option (Str × Str)
split_dot [] = none
split_dot (x ∷ xs) = elim (split_dot xs) [
  | some (base, ext) ↦ some (x ∷ base, ext)
  | none ↦ if x == b'.' then some ([], xs) else none
]

-- The characters that a short name cannot have: a space and the sixteen that the source lists after it.
unfoldable pub invalid : ℕ → Bool
invalid c =
    c == 32
    || c == 46
    || c == 34
    || c == 42
    || c == 43
    || c == 44
    || c == 47
    || c == 58
    || c == 59
    || c == 60
    || c == 61
    || c == 62
    || c == 63
    || c == 91
    || c == 92
    || c == 93
    || c == 124

unfoldable pub any_invalid : Str → Bool
any_invalid [] = false
any_invalid (c ∷ cs) = invalid c || any_invalid cs

unfoldable pub base_and_ext : Str → Str × Str
base_and_ext name = elim (split_dot name) [ none ↦ (name, []) | some (base, ext) ↦ (base, ext) ]

unfoldable pub build_sfn : Str → Option (List ℕ)
build_sfn name =
    let (base, ext) = base_and_ext name in
    if is_empty base || ltb 8 (length base) || ltb 3 (length ext)
    then none
    else if any_invalid base || any_invalid ext
    then none
    else some (
        splice 8 (map to_ascii_uppercase ext)
          (splice 0 (map to_ascii_uppercase base) (replicate 11 32)))

unfoldable pub checksum_from : ℕ → List ℕ → ℕ
checksum_from sum [] = sum
checksum_from sum (b ∷ bs) = checksum_from ((sum / 2 + sum * 128 % 256 + b) % 256) bs

unfoldable pub sfn_checksum : List ℕ → ℕ
sfn_checksum sfn = checksum_from 0 sfn
