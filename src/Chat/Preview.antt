-- ===== src/Chat/Preview.antt =====
-- internal/chat/service.go: the one-line preview of the message that a reply refers to.
pub mod Bounds
use openchat_backend.Base.{
  ℕ, suc, ◌+◌, ◌-◌, ◌≤◌, ◌<◌, ◌≡◌, refl, Bool, List, [], ◌∷◌, ◌++◌, arith, leb, if◌then◌else◌,
  is_nil, length, take, length-take, length-append, Str, str, All, All-append, min,
}
use openchat_backend.Utf8.{decode, encode}
use openchat_backend.Strings.{trim_space, remove_byte, split, join}

abbrev pub max_preview_runes : ℕ
max_preview_runes = 220

-- The lines that are not blank, trimmed.
unfoldable pub preview_parts : List Str → List Str
preview_parts [] = []
preview_parts (line ∷ lines) =
    let rest = preview_parts lines in
    let trimmed = trim_space line in if is_nil trimmed then rest else trimmed ∷ rest

abbrev ellipsis : Str
ellipsis = encode (0x2026 ∷ [])

unfoldable pub build_reply_preview_text : Str → Str
unfolding preview_parts
build_reply_preview_text body =
    let lines = split b'\n' (remove_byte b'\r' (trim_space body)) in
    let preview = join (str " ") (preview_parts lines) in
    let runes = decode preview in
    if is_nil preview
    then []
    else if leb (length runes) max_preview_runes
    then preview
    else encode (take (max_preview_runes - 1) runes) ++ ellipsis
