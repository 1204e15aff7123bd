-- ===== src/Utf8.antt =====
-- UTF-8 as Go's `[]rune(s)` and `string(runes)` read and write it, over the bytes of a string.
pub mod RoundTrip
use openchat_backend.Base.{
  ℕ, zero, suc, ◌+◌, ◌-◌, ◌*◌, ◌/◌, ◌%◌, Bool, ◌&&◌, ◌||◌, List, [], ◌∷◌, ◌++◌, ltb, leb, between,
  if◌then◌else◌, Str, length,
}

-- U+FFFD, with the width of one byte: what an invalid byte decodes to.
abbrev invalid : ℕ × ℕ
invalid = (0xFFFD, 1)

abbrev is_continuation : ℕ → Bool
is_continuation b = between 0x80 0xBF b

decode_two : ℕ → Str → ℕ × ℕ
decode_two b [] = invalid
decode_two b (c ∷ s) = if is_continuation c then ((b - 0xC0) * 64 + (c - 0x80), 2) else invalid

-- The second byte of three excludes overlong forms and surrogates.
abbrev second_of_three : ℕ → ℕ → Bool
second_of_three b c =
    between (if leb b 0xE0 then 0xA0 else 0x80) (if between 0xED 0xED b then 0x9F else 0xBF) c

decode_three : ℕ → Str → ℕ × ℕ
decode_three b [] = invalid
decode_three b (c ∷ []) = invalid
decode_three b (c ∷ d ∷ s) =
    if second_of_three b c && is_continuation d
    then ((b - 0xE0) * 4096 + (c - 0x80) * 64 + (d - 0x80), 3)
    else invalid

-- The second byte of four excludes overlong forms and what lies above U+10FFFF.
abbrev second_of_four : ℕ → ℕ → Bool
second_of_four b c =
    between (if leb b 0xF0 then 0x90 else 0x80) (if leb 0xF4 b then 0x8F else 0xBF) c

decode_four : ℕ → Str → ℕ × ℕ
decode_four b [] = invalid
decode_four b (c ∷ []) = invalid
decode_four b (c ∷ d ∷ []) = invalid
decode_four b (c ∷ d ∷ e ∷ s) =
    if second_of_four b c && (is_continuation d && is_continuation e)
    then ((b - 0xF0) * 262144 + (c - 0x80) * 4096 + (d - 0x80) * 64 + (e - 0x80), 4)
    else invalid

-- The first rune of a text that begins with the byte `b`, and its width in bytes.
unfoldable pub decode_rune : ℕ → Str → ℕ × ℕ
unfolding decode_two decode_three decode_four
decode_rune b s =
    if ltb b 0x80
    then (b, 1)
    else if between 0xC2 0xDF b
    then decode_two b s
    else if between 0xE0 0xEF b
    then decode_three b s
    else if between 0xF0 0xF4 b
    then decode_four b s
    else invalid

-- The first argument counts the bytes still to skip, those of the rune before.
unfoldable pub decode_from : ℕ → Str → List ℕ
unfolding decode_rune
decode_from n [] = []
decode_from (suc n) (b ∷ s) = decode_from n s
decode_from zero (b ∷ s) = let (r, w) = decode_rune b s in r ∷ decode_from (w - 1) s

-- `[]rune(s)`
unfoldable pub decode : Str → List ℕ
unfolding decode_from
decode s = decode_from 0 s

-- A surrogate, or a number above U+10FFFF, is written as U+FFFD.
unfoldable pub encode_rune : ℕ → Str
encode_rune r =
    if ltb r 0x80
    then r ∷ []
    else if ltb r 0x800
    then (0xC0 + r / 64) ∷ (0x80 + r % 64) ∷ []
    else if between 0xD800 0xDFFF r || ltb 0x10FFFF r
    then 0xEF ∷ 0xBF ∷ 0xBD ∷ []
    else if ltb r 0x10000
    then (0xE0 + r / 4096) ∷ (0x80 + r / 64 % 64) ∷ (0x80 + r % 64) ∷ []
    else (0xF0 + r / 262144) ∷ (0x80 + r / 4096 % 64) ∷ (0x80 + r / 64 % 64) ∷ (0x80 + r % 64) ∷ []

-- `string(runes)`
unfoldable pub encode : List ℕ → Str
unfolding encode_rune
encode [] = []
encode (r ∷ rs) = encode_rune r ++ encode rs

-- `len([]rune(s))`
unfoldable pub rune_count : Str → ℕ
unfolding decode
rune_count s = length (decode s)
