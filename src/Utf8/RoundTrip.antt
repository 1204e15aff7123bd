-- ===== src/Utf8/RoundTrip.antt =====
-- Decoding what `encode` wrote gives the runes back, and a decoded text holds proper runes only.
use openchat_backend.Base.{
  ℕ, zero, suc, ◌+◌, ◌-◌, ◌/◌, ◌%◌, ◌≤◌, ◌<◌, ◌≡◌, refl, ap, ◌∙◌, ◌⊎◌, List, [], ◌∷◌, ◌++◌, arith,
  Str, All,
}
use native.Mathlib.Decide.{dec_lt}
use openchat_backend.Utf8.{
  decode_two, decode_three, decode_four, decode_rune, decode_from, decode, encode_rune, encode,
}

-- A Unicode scalar value: no surrogate, and at most U+10FFFF.
abbrev pub IsRune : ℕ → Type 0
IsRune r = (r < 0xD800) ⊎ ((0xE000 ≤ r) × (r ≤ 0x10FFFF))

module _ (r : ℕ) (s : Str) where
  one_byte : r < 0x80 → encode_rune r ++ s ≡ r ∷ s
  unfolding encode_rune
  one_byte h = ground arith

  decode_rune_one : r < 0x80 → decode_rune r s ≡ (r, 1)
  unfolding decode_rune
  decode_rune_one h = ground arith

  two_bytes : 0x80 ≤ r → r < 0x800 → encode_rune r ++ s ≡ (0xC0 + r / 64) ∷ (0x80 + r % 64) ∷ s
  unfolding encode_rune
  two_bytes l h = ground arith

  decode_rune_two :
      0x80 ≤ r → r < 0x800 → decode_rune (0xC0 + r / 64) ((0x80 + r % 64) ∷ s) ≡ (r, 2)
  unfolding decode_rune
  decode_rune_two l h = ground arith

  three_bytes :
      0x800 ≤ r
      → r < 0x10000
      → IsRune r
      → encode_rune r ++ s ≡ (0xE0 + r / 4096) ∷ (0x80 + r / 64 % 64) ∷ (0x80 + r % 64) ∷ s
  unfolding encode_rune
  three_bytes l h p = ground arith

  decode_three_lem :
      0x800 ≤ r
      → r < 0x10000
      → IsRune r
      → decode_three (0xE0 + r / 4096) ((0x80 + r / 64 % 64) ∷ (0x80 + r % 64) ∷ s) ≡ (r, 3)
  unfolding decode_three
  decode_three_lem l h p = ground arith

  four_bytes :
      0x10000 ≤ r
      → r ≤ 0x10FFFF
      → encode_rune r ++ s
        ≡ (0xF0 + r / 262144) ∷ (0x80 + r / 4096 % 64) ∷ (0x80 + r / 64 % 64) ∷ (0x80 + r % 64) ∷ s
  unfolding encode_rune
  four_bytes l h = ground arith

  decode_four_lem :
      0x10000 ≤ r
      → r ≤ 0x10FFFF
      → decode_four
          (0xF0 + r / 262144)
          ((0x80 + r / 4096 % 64) ∷ (0x80 + r / 64 % 64) ∷ (0x80 + r % 64) ∷ s)
        ≡ (r, 4)
  unfolding decode_four
  decode_four_lem l h = ground arith

  decode_rune_three : (b : ℕ) → 0xE0 ≤ b → b < 0xF0 → decode_rune b s ≡ decode_three b s
  unfolding decode_rune
  decode_rune_three b l h = ground arith

  decode_rune_four : (b : ℕ) → 0xF0 ≤ b → b < 0xF5 → decode_rune b s ≡ decode_four b s
  unfolding decode_rune
  decode_rune_four b l h = ground arith

decode_from_rune :
    (b r w : ℕ) (s : Str)
    → decode_rune b s ≡ (r, w)
    → decode_from 0 (b ∷ s) ≡ r ∷ decode_from (w - 1) s
unfolding decode_from
decode_from_rune b r w s h = λ i. (h i).0 ∷ decode_from ((h i).1 - 1) s

module _ (r : ℕ) (s : Str) where
  decode_from_one : r < 0x80 → decode_from 0 (encode_rune r ++ s) ≡ r ∷ decode_from 0 s
  decode_from_one h = rw (one_byte r s h) (decode_from_rune r r 1 s (decode_rune_one r s h))

  decode_from_two : 0x80 ≤ r → r < 0x800 → decode_from 0 (encode_rune r ++ s) ≡ r ∷ decode_from 0 s
  decode_from_two l h =
      rw (two_bytes r s l h)
        (decode_from_rune _ r 2 _ (decode_rune_two r s l h) ∙ unfold decode_from in refl)

  decode_from_three :
      0x800 ≤ r → r < 0x10000 → IsRune r → decode_from 0 (encode_rune r ++ s) ≡ r ∷ decode_from 0 s
  decode_from_three l h p = rw (three_bytes r s l h p) (
      decode_from_rune _ r 3 _ (
        decode_rune_three r _ (0xE0 + r / 4096) (omega arith) (omega arith)
        ∙ decode_three_lem r s l h p)
      ∙ unfold decode_from in refl)

  decode_from_four :
      0x10000 ≤ r → r ≤ 0x10FFFF → decode_from 0 (encode_rune r ++ s) ≡ r ∷ decode_from 0 s
  decode_from_four l h = rw (four_bytes r s l h) (
      decode_from_rune _ r 4 _ (
        decode_rune_four r _ (0xF0 + r / 262144) (omega arith) (omega arith)
        ∙ decode_four_lem r s l h)
      ∙ unfold decode_from in refl)

  decode_from-encode_rune : IsRune r → decode_from 0 (encode_rune r ++ s) ≡ r ∷ decode_from 0 s
  decode_from-encode_rune p = elim (dec_lt r 0x80) [
    | yes one ↦ decode_from_one one
    | no many ↦ elim (dec_lt r 0x800) [
      | yes two ↦ decode_from_two (omega arith) two
      | no more ↦ elim (dec_lt r 0x10000) [
        | yes three ↦ decode_from_three (omega arith) three p
        | no most ↦ decode_from_four (omega arith) (omega arith)
      ]
    ]
  ]

decode_from-encode : (rs : List ℕ) → All IsRune rs → decode_from 0 (encode rs) ≡ rs
unfolding encode
decode_from-encode [] h = unfold decode_from in refl
decode_from-encode (r ∷ rs) (p, h) =
    decode_from-encode_rune r (encode rs) p ∙ ap (◌∷◌ r) (decode_from-encode rs h)

-- Text that is written from proper runes reads back as those runes.
pub decode-encode : (rs : List ℕ) → All IsRune rs → decode (encode rs) ≡ rs
unfolding decode
decode-encode rs h = decode_from-encode rs h

decode_two-IsRune : (b : ℕ) (s : Str) → 0xC2 ≤ b → b ≤ 0xDF → IsRune (decode_two b s).0
unfolding decode_two
decode_two-IsRune b [] l h = omega arith
decode_two-IsRune b (c ∷ s) l h = ground arith

decode_three-IsRune : (b : ℕ) (s : Str) → 0xE0 ≤ b → b ≤ 0xEF → IsRune (decode_three b s).0
unfolding decode_three
decode_three-IsRune b [] l h = omega arith
decode_three-IsRune b (c ∷ []) l h = omega arith
decode_three-IsRune b (c ∷ d ∷ s) l h = ground arith

decode_four-IsRune : (b : ℕ) (s : Str) → 0xF0 ≤ b → b ≤ 0xF4 → IsRune (decode_four b s).0
unfolding decode_four
decode_four-IsRune b [] l h = omega arith
decode_four-IsRune b (c ∷ []) l h = omega arith
decode_four-IsRune b (c ∷ d ∷ []) l h = omega arith
decode_four-IsRune b (c ∷ d ∷ e ∷ s) l h = ground arith

decode_rune-IsRune : (b : ℕ) (s : Str) → IsRune (decode_rune b s).0
unfolding decode_rune
decode_rune-IsRune b s =
    ground (arith, decode_two-IsRune b s, decode_three-IsRune b s, decode_four-IsRune b s)

decode_from-IsRune : (n : ℕ) (s : Str) → All IsRune (decode_from n s)
unfolding decode_from
decode_from-IsRune n [] = tt
decode_from-IsRune (suc n) (b ∷ s) = decode_from-IsRune n s
decode_from-IsRune zero (b ∷ s) =
    (decode_rune-IsRune b s, decode_from-IsRune ((decode_rune b s).1 - 1) s)

-- Whatever the bytes, what they decode to are proper runes.
pub decode-IsRune : (s : Str) → All IsRune (decode s)
unfolding decode
decode-IsRune s = decode_from-IsRune 0 s
