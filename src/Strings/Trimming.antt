-- ===== src/Strings/Trimming.antt =====
-- Texts that trimming leaves as they are.
use openchat_backend.Strings.{trim_space, trim_left, trim_right, all_space, is_space}
use openchat_backend.Utf8.{decode_rune}
use openchat_backend.Base.{
  ℕ, ◌≡◌, refl, ap, ◌∙◌, true, false, [], ◌∷◌, arith, ltb, between, All, Str,
}

-- A visible ASCII character.
abbrev pub IsVisible : ℕ → Type 0
IsVisible b = between 33 126 b ≡ true

not_space : (b : ℕ) → IsVisible b → is_space b ≡ false
unfolding is_space
not_space b h = ground arith

decode_visible : (b : ℕ) (s : Str) → IsVisible b → decode_rune b s ≡ (b, 1)
unfolding decode_rune
decode_visible b s h = let ascii : ltb b 0x80 ≡ true = ground arith in rw (ascii, decode_rune) refl

trim_left_visible : (b : ℕ) (s : Str) → IsVisible b → trim_left 0 (b ∷ s) ≡ b ∷ s
unfolding trim_left
trim_left_visible b s h = rw (decode_visible b s h) (rw (not_space b h) refl)

trim_right_visible : (s : Str) → All IsVisible s → trim_right s ≡ s
unfolding trim_right all_space
trim_right_visible [] h = refl
trim_right_visible (b ∷ s) (v, h) =
    rw (decode_visible b s v) (rw (not_space b v) (ap (◌∷◌ b) (trim_right_visible s h)))

-- A text of visible ASCII characters has no spaces to trim.
pub trim_space_visible : (s : Str) → All IsVisible s → trim_space s ≡ s
unfolding trim_space
trim_space_visible [] h = refl
trim_space_visible (b ∷ s) (v, h) =
    ap trim_right (trim_left_visible b s v) ∙ trim_right_visible (b ∷ s) (v, h)
