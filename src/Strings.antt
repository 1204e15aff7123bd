-- ===== src/Strings.antt =====
-- The functions of Go's packages `strings` and `path/filepath` that the program calls.
pub mod Trimming
use mathlib.Core.Option
use openchat_backend.Base.{
  ℕ, zero, suc, ◌-◌, Bool, true, false, ◌&&◌, ◌||◌, List, [], ◌∷◌, ◌++◌, map, eqb, ltb, between,
  if◌then◌else◌, Str, str, ◌==◌, Option, none, some, drop, is_nil, length,
}
use openchat_backend.Utf8.{decode_rune, decode, encode}

-- unicode.IsSpace
is_space : ℕ → Bool
is_space r =
    between 9 13 r
    || (eqb r 32
        || (eqb r 0x85
            || (eqb r 0xA0
                || (eqb r 0x1680
                    || (between 0x2000 0x200A r
                        || (eqb r 0x2028
                            || (eqb r 0x2029
                                || (eqb r 0x202F || (eqb r 0x205F || eqb r 0x3000)))))))))

-- Whether the bytes after the first `n` decode to spaces only.
all_space : ℕ → Str → Bool
unfolding decode_rune is_space
all_space n [] = true
all_space (suc n) (b ∷ s) = all_space n s
all_space zero (b ∷ s) = let (r, w) = decode_rune b s in is_space r && all_space (w - 1) s

-- Without the spaces that follow the first `n` bytes, which are dropped.
trim_left : ℕ → Str → Str
unfolding decode_rune is_space
trim_left n [] = []
trim_left (suc n) (b ∷ s) = trim_left n s
trim_left zero (b ∷ s) =
    let (r, w) = decode_rune b s in
    let rest = trim_left (w - 1) s in if is_space r then rest else b ∷ s

trim_right : Str → Str
unfolding all_space
trim_right [] = []
trim_right (b ∷ s) = let rest = trim_right s in if all_space 0 (b ∷ s) then [] else b ∷ rest

-- strings.TrimSpace
unfoldable pub trim_space : Str → Str
unfolding trim_left trim_right
trim_space s = trim_right (trim_left 0 s)

-- strings.HasPrefix(s, prefix)
unfoldable pub has_prefix : Str → Str → Bool
has_prefix s [] = true
has_prefix [] (p ∷ ps) = false
has_prefix (b ∷ s) (p ∷ ps) = eqb b p && has_prefix s ps

-- strings.ReplaceAll(s, c, "") for one byte c
unfoldable pub remove_byte : ℕ → Str → Str
remove_byte c [] = []
remove_byte c (b ∷ s) = let rest = remove_byte c s in if eqb b c then rest else b ∷ rest

abbrev cons_first : ℕ → List Str → List Str
cons_first b [] = (b ∷ []) ∷ []
cons_first b (part ∷ parts) = (b ∷ part) ∷ parts

-- strings.Split(s, c) for one byte c
unfoldable pub split : ℕ → Str → List Str
split c [] = [] ∷ []
split c (b ∷ s) = let rest = split c s in if eqb b c then [] ∷ rest else cons_first b rest

-- strings.Join(parts, sep)
unfoldable pub join : Str → List Str → Str
join sep [] = []
join sep (part ∷ []) = part
join sep (part ∷ next ∷ parts) = part ++ (sep ++ join sep (next ∷ parts))

-- s[:i] at i = strings.Index(s, c) for one byte c, or nothing where i < 0
unfoldable pub before_byte : ℕ → Str → Option Str
before_byte c [] = none
before_byte c (b ∷ s) =
    let rest = Option.map (◌∷◌ b) (before_byte c s) in if eqb b c then some [] else rest

-- strings.TrimSuffix(s, c) for one byte c
unfoldable pub trim_suffix : ℕ → Str → Str
trim_suffix c [] = []
trim_suffix c (b ∷ []) = if eqb b c then [] else b ∷ []
trim_suffix c (b ∷ d ∷ s) = b ∷ trim_suffix c (d ∷ s)

-- strings.TrimPrefix(s, prefix)
unfoldable pub trim_prefix : Str → Str → Str
unfolding has_prefix
trim_prefix s prefix = if has_prefix s prefix then drop (length prefix) s else s

-- strings.Trim(s, c) for one byte c, first in front and then at the end
unfoldable pub trim_front : ℕ → Str → Str
trim_front c [] = []
trim_front c (b ∷ s) = let rest = trim_front c s in if eqb b c then rest else b ∷ s

unfoldable pub trim_back : ℕ → Str → Str
trim_back c [] = []
trim_back c (b ∷ s) = let rest = trim_back c s in if is_nil rest && eqb b c then [] else b ∷ rest

unfoldable pub trim_byte : ℕ → Str → Str
unfolding trim_front trim_back
trim_byte c s = trim_back c (trim_front c s)

is_ascii : Str → Bool
is_ascii [] = true
is_ascii (b ∷ s) = ltb b 0x80 && is_ascii s

-- strings.ToLower over the table `lower` of the package `unicode`
unfoldable pub to_lower : (ℕ → ℕ) → Str → Str
unfolding is_ascii decode encode
to_lower lower s = if is_ascii s then map lower s else encode (map lower (decode s))

-- Without the slashes at the end.
trim_slashes : Str → Str
trim_slashes [] = []
trim_slashes (b ∷ s) = elim (trim_slashes s) [
  | [] ↦ if eqb b b'/' then [] else b ∷ []
  | d ∷ r ↦ b ∷ d ∷ r
]

-- What follows the last slash, given what follows the last one so far.
after_slash : Str → Str → Str
after_slash s [] = s
after_slash s (b ∷ t) = after_slash (if eqb b b'/' then t else s) t

-- filepath.Base, where the separator is a slash
unfoldable pub base : Str → Str
unfolding trim_slashes after_slash
base [] = b'.' ∷ []
base (b ∷ s) = elim (trim_slashes (b ∷ s)) [ [] ↦ b'/' ∷ [] | d ∷ r ↦ after_slash (d ∷ r) (d ∷ r) ]

-- s <= t, byte by byte
leb_str : Str → Str → Bool
leb_str [] t = true
leb_str (a ∷ s) [] = false
leb_str (a ∷ s) (b ∷ t) = let rest = leb_str s t in if eqb a b then rest else ltb a b

insert_sorted : Str → List Str → List Str
insert_sorted s [] = s ∷ []
insert_sorted s (t ∷ ts) = if leb_str s t then s ∷ t ∷ ts else t ∷ insert_sorted s ts

-- sort.Strings
unfoldable pub sort_strings : List Str → List Str
unfolding leb_str insert_sorted
sort_strings [] = []
sort_strings (s ∷ ss) = insert_sorted s (sort_strings ss)

-- `_, ok := set[s]` of a map to empty structs
unfoldable pub contains : List Str → Str → Bool
contains [] s = false
contains (t ∷ ts) s = t == s || contains ts s

-- Unfolds the functions of this file in a test.
unfoldable pub strings : Unit {0}
unfolding trim_space has_prefix remove_byte split join before_byte trim_suffix to_lower base
    sort_strings contains trim_prefix trim_front trim_back trim_byte ◌==◌ str
strings = tt
