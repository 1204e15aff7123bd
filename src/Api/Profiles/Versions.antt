-- ===== src/Api/Profiles/Versions.antt =====
-- The version of a profile in an If-Match header (internal/api/handlers_profile.go).
use openchat_backend.Api.Profiles.{parse_if_match_version}
use openchat_backend.App.Config.Ttl.{digit-IsVisible}
use openchat_backend.Strings.Trimming.{IsVisible, trim_space_visible}
use openchat_backend.Strings.{trim_space, trim_prefix, trim_byte, trim_front, trim_back, has_prefix}
use openchat_backend.Strconv.Decimal.{atoi-itoa, itoa_digits, itoa_named}
use openchat_backend.Strconv.{itoa, is_digit}
use openchat_backend.Base.{
  ℕ, ◌≤◌, ◌≡◌, refl, sym, ap, ◌∙◌, true, false, ◌&&◌, some, [], ◌∷◌, ◌++◌, append-nil, arith, eqb,
  if◌then◌else◌, is_nil, All, All-append, All-mono, Str, str, pos, leb_ℤ, max_int, ok,
}

abbrev IsDigits : Str → Type 0
IsDigits s = All (λ b. is_digit b ≡ true) s

no_mark : (b : ℕ) → is_digit b ≡ true → (eqb b b'"' ≡ false) × (eqb b b'W' ≡ false)
unfolding is_digit
no_mark b h = (ground arith, ground arith)

trim_front_digits :
    (s : Str) → is_nil s ≡ false → IsDigits s → (t : Str) → trim_front b'"' (s ++ t) ≡ s ++ t
unfolding trim_front
trim_front_digits [] named h t = absurd (cc named)
trim_front_digits (b ∷ s) named (d, h) t = rw (no_mark b d).0 refl

kept :
    (b : ℕ) (s : Str) → eqb b b'"' ≡ false → (if is_nil s && eqb b b'"' then [] else b ∷ s) ≡ b ∷ s
kept b [] h = rw h refl
kept b (c ∷ s) h = refl

trim_back_digits : (s : Str) → IsDigits s → trim_back b'"' s ≡ s
unfolding trim_back
trim_back_digits [] h = refl
trim_back_digits (b ∷ s) (d, h) =
    kept b (trim_back b'"' s) (no_mark b d).0 ∙ ap (◌∷◌ b) (trim_back_digits s h)

trim_back_quoted : (s : Str) → IsDigits s → trim_back b'"' (s ++ b'"' ∷ []) ≡ s
unfolding trim_back
trim_back_quoted [] h = refl
trim_back_quoted (b ∷ s) (d, h) =
    kept b (trim_back b'"' (s ++ b'"' ∷ [])) (no_mark b d).0 ∙ ap (◌∷◌ b) (trim_back_quoted s h)

-- The texts that name a version: bare, as an entity tag, and as a weak one.
abbrev pub quoted : ℕ → Str
quoted n = b'"' ∷ itoa n ++ b'"' ∷ []

abbrev pub weak : ℕ → Str
weak n = b'W' ∷ b'/' ∷ quoted n

bare_prefix : (s : Str) → is_nil s ≡ false → IsDigits s → trim_prefix s (str "W/") ≡ s
unfolding trim_prefix has_prefix str
bare_prefix [] named h = absurd (cc named)
bare_prefix (b ∷ s) named (d, h) = rw (no_mark b d).1 refl

visible : (n : ℕ) → n ≤ max_int → All IsVisible (itoa n)
visible n h = All-mono _ _ digit-IsVisible _ (itoa_digits n h)

quoted-IsVisible : (n : ℕ) → n ≤ max_int → All IsVisible (quoted n)
quoted-IsVisible n h = (refl, All-append IsVisible (itoa n) (b'"' ∷ []) (visible n h) (refl, tt))

module _ (n : ℕ) (some_version : 1 ≤ n) (fits : n ≤ max_int) where
  -- What is left of a header is a version.
  parse_bare :
      (header : Str)
      → trim_space header ≡ header
      → is_nil header ≡ false
      → trim_byte b'"' (trim_prefix header (str "W/")) ≡ itoa n
      → parse_if_match_version header ≡ ok (some (pos n))
  unfolding parse_if_match_version
  parse_bare header trimmed named bare =
      let positive : leb_ℤ (pos n) (pos 0) ≡ false = ground arith in
      rw trimmed (
        rw named (
          rw bare (
            rw (trim_space_visible (itoa n) (visible n fits))
              (rw (itoa_named n) (rw (atoi-itoa n fits) (rw positive refl))))))

  -- A version in decimal digits, bare, in quotes, or in quotes as a weak tag, is the version that the
  -- header is read as.
  pub parse_if_match_version-itoa :
      (parse_if_match_version (itoa n) ≡ ok (some (pos n)))
      × (parse_if_match_version (quoted n) ≡ ok (some (pos n)))
      × (parse_if_match_version (weak n) ≡ ok (some (pos n)))
  unfolding trim_byte trim_prefix has_prefix str trim_front
  parse_if_match_version-itoa =
      let ds = itoa_digits n fits in
      let unquoted : trim_byte b'"' (quoted n) ≡ itoa n =
        ap (trim_back b'"') (trim_front_digits (itoa n) (itoa_named n) ds (b'"' ∷ []))
        ∙ trim_back_quoted (itoa n) ds in
      (
        parse_bare (itoa n) (trim_space_visible (itoa n) (visible n fits)) (itoa_named n) (
            ap (trim_byte b'"') (bare_prefix (itoa n) (itoa_named n) ds)
            ∙ ap (trim_back b'"') (
                ap (trim_front b'"') (sym (append-nil (itoa n)))
                ∙ trim_front_digits (itoa n) (itoa_named n) ds []
                ∙ append-nil (itoa n))
            ∙ trim_back_digits (itoa n) ds),
        parse_bare (quoted n) (trim_space_visible (quoted n) (quoted-IsVisible n fits)) refl
            unquoted,
        parse_bare (weak n) (trim_space_visible (weak n) (refl, (refl, quoted-IsVisible n fits)))
            refl unquoted,
      )
