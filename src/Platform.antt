-- ===== src/Platform.antt =====
-- What the program takes from packages that it does not implement: the tables of `unicode`, the
-- decoders of `image`, the sniffer of `net/http`, the formatter of `time`.
use openchat_backend.Base.{ℕ, Bool, Option, Str, ℤ}

pub record Platform : Type 0 where
  -- unicode.ToLower
  pub lower : ℕ → ℕ
  -- the classes \p{L} and \p{N} of a regular expression
  pub is_letter : ℕ → Bool
  pub is_number : ℕ → Bool
  -- image.DecodeConfig: width and height, or an error
  pub decode_config : Str → Option (ℤ × ℤ)
  -- http.DetectContentType
  pub detect_content_type : Str → Str
  -- t.UTC().Format(time.RFC3339), of a time in nanoseconds since 1970
  pub rfc3339 : ℤ → Str
