-- ===== src/Strconv.antt =====
-- The functions of Go's package `strconv` that the program calls, on the 64-bit `int`.
pub mod Decimal
use openchat_backend.Base.{
  ℕ, zero, suc, ◌+◌, ◌-◌, ◌*◌, ◌^◌, ◌≤◌, ◌<◌, min, ◌≡◌, refl, sym, ap, ◌∙◌, subst, ◌≢◌, ◌↔◌, ◌⊎◌,
  inl, inr, Bool, true, false, not, ◌&&◌, ◌||◌, Option, none, some, List, [], ◌∷◌, ◌++◌, map,
  append-nil, append_assoc, arith, ltb, leb, eqb, between, if◌then◌else◌, Bool-cases, Option-cases,
  is_some, is_nil, length, take, drop, length-append, length-take, length-drop, take-append-drop,
  map_self, All, All-append, All-mono, Str, str, ◌==◌, ==_iff, ==_refl, ==_ne, ==_cases, ℤ, pos,
  negsuc, ◌+ℤ◌, ◌≤ℤ◌, ◌<ℤ◌, leb_ℤ, ltb_ℤ, eqb_ℤ, floor_div, int_suc, max_int, ◌%◌, ◌/◌, Result, ok,
  err, Result-cases,
}

unfoldable pub is_digit : ℕ → Bool
is_digit b = between 48 57 b

-- The number that digits continue, if they are digits.
unfoldable pub read_digits : ℕ → Str → Option ℕ
read_digits n [] = some n
read_digits n (b ∷ s) =
    let rest = read_digits (10 * n + (b - 48)) s in if is_digit b then rest else none

abbrev pub unsigned : Str → Option ℕ
unsigned s = if is_nil s then none else read_digits 0 s

-- A magnitude with its sign, if it fits in 64 bits.
abbrev pub as_positive : Option ℕ → Option ℤ
as_positive none = none
as_positive (some n) = if leb n max_int then some (pos n) else none

abbrev pub as_negative : Option ℕ → Option ℤ
as_negative none = none
as_negative (some zero) = some (pos 0)
as_negative (some (suc n)) = if leb n max_int then some (negsuc n) else none

-- strconv.Atoi(s), or nothing where it is an error
unfoldable pub atoi : Str → Option ℤ
atoi [] = none
atoi (b ∷ s) =
    if eqb b b'-'
    then as_negative (unsigned s)
    else if eqb b b'+'
    then as_positive (unsigned s)
    else as_positive (unsigned (b ∷ s))

-- The last `k` digits of a number, without zeros in front.
unfoldable pub digits : ℕ → ℕ → Str
digits zero n = []
digits (suc k) n = elim (ltb n 10) [
  | true ↦ (48 + n) ∷ []
  | false ↦ digits k (n / 10) ++ (48 + n % 10) ∷ []
]

-- strconv.Itoa(n) of a number that is not negative: an `int` has no more than 19 digits.
abbrev pub itoa : ℕ → Str
itoa n = digits 19 n
