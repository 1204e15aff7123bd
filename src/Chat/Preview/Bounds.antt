-- ===== src/Chat/Preview/Bounds.antt =====
-- The length of the preview of a reply (internal/chat/service.go).
use openchat_backend.Base.{
  ℕ, zero, suc, ◌≤◌, ◌≡◌, refl, sym, ap, ◌∙◌, inl, inr, List, [], ◌∷◌, ◌++◌, append_assoc, arith,
  leb, Bool-cases, is_nil, length, take, length-append, length-take, All, All-append, Str, str,
}
use openchat_backend.Utf8.RoundTrip.{IsRune, decode-encode, decode-IsRune}
use openchat_backend.Chat.Preview.{
  build_reply_preview_text, max_preview_runes, decode, split, remove_byte, trim_space, join,
  preview_parts,
}
use openchat_backend.Utf8.{encode, rune_count, encode_rune}

All-take : (n : ℕ) (rs : List ℕ) → All IsRune rs → All IsRune (take n rs)
All-take zero rs h = tt
All-take (suc n) [] h = tt
All-take (suc n) (r ∷ rs) (p, h) = (p, All-take n rs h)

encode-append : (rs qs : List ℕ) → encode (rs ++ qs) ≡ encode rs ++ encode qs
unfolding encode
encode-append [] qs = refl
encode-append (r ∷ rs) qs =
    ap (λ s. encode_rune r ++ s) (encode-append rs qs)
    ∙ sym (append_assoc (encode_rune r) (encode rs) (encode qs))

cut_short :
    (s : Str)
    → 220 ≤ length (decode s)
    → length (decode (encode (take 219 (decode s)) ++ encode (0x2026 ∷ []))) ≡ 220
cut_short s h = rw (← encode-append (take 219 (decode s)) (0x2026 ∷ [])) (
    rw
      (decode-encode (take 219 (decode s) ++ 0x2026 ∷ []) (
        All-append IsRune (take 219 (decode s)) (0x2026 ∷ [])
          (All-take 219 (decode s) (decode-IsRune s)) (inl (omega arith), tt)))
      (omega
        (arith, length-append (take 219 (decode s)) (0x2026 ∷ []), length-take 219 (decode s))))

-- Whatever bytes the message holds, the preview has at most 220 runes.
pub rune_count-build_reply_preview_text-le :
    (body : Str) → rune_count (build_reply_preview_text body) ≤ max_preview_runes
unfolding build_reply_preview_text rune_count
rune_count-build_reply_preview_text-le body =
    let lines = split b'\n' (remove_byte b'\r' (trim_space body)) in
    let preview = join (str " ") (preview_parts lines) in
    elim (Bool-cases (is_nil preview)) [
      | inl blank ↦ rw (blank, build_reply_preview_text) (omega arith)
      | inr text ↦ elim (Bool-cases (leb (length (decode preview)) 220)) [
        | inl short ↦
            rw (text, build_reply_preview_text)
              (rw (short, build_reply_preview_text) (ground arith))
        | inr long ↦
            rw (text, build_reply_preview_text)
              (rw (long, build_reply_preview_text)
                (omega (arith, cut_short preview (ground arith))))
      ]
    ]
