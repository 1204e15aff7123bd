-- ===== src/Strconv/Decimal.antt =====
-- Reading back the decimal digits of a number.
use openchat_backend.Strconv.{is_digit, read_digits, atoi, digits, itoa}
use openchat_backend.Base.{
  some_eq, ℕ, zero, suc, ◌+◌, ◌-◌, ◌*◌, ◌^◌, ◌≤◌, ◌<◌, ◌≡◌, refl, ap, ◌∙◌, inl, inr, true, false,
  some, [], ◌∷◌, ◌++◌, arith, ltb, leb, eqb, Bool-cases, is_nil, All, Str, pos, max_int, ◌%◌, ◌/◌,
}

digit_of : (d : ℕ) → d < 10 → (is_digit (48 + d) ≡ true) × (48 + d - 48 ≡ d)
unfolding is_digit
digit_of d h = (ground arith, omega arith)

read_digits-append :
    (n : ℕ) (s : Str) (v d : ℕ)
    → read_digits n s ≡ some v
    → d < 10
    → read_digits n (s ++ (48 + d) ∷ []) ≡ some (10 * v + d)
unfolding read_digits
read_digits-append n [] v d h small =
    let (digit, value) = digit_of d small in
    rw (digit, read_digits)
      (ap some (ap (λ x. 10 * n + x) value ∙ ap (λ x. 10 * x + d) (some_eq h)))
read_digits-append n (b ∷ s) v d h small = elim (Bool-cases (is_digit b)) [
  | inl e ↦ rw (e, read_digits) (read_digits-append (10 * n + (b - 48)) s v d (rw e at h) small)
  | inr e ↦ absurd (cc (rw e at h))
]

read_digits-digits : (k n : ℕ) → n < 10 ^ k → read_digits 0 (digits k n) ≡ some n
unfolding digits read_digits
read_digits-digits zero n h = ap some (omega arith)
read_digits-digits (suc k) n h = elim (Bool-cases (ltb n 10)) [
  | inl e ↦
      rw (e, digits)
        (let (digit, value) = digit_of n (ground arith) in rw digit (ap some (omega arith)))
  | inr e ↦
      rw (e, digits)
        (read_digits-append 0 (digits k (n / 10)) (n / 10) (n % 10)
            (read_digits-digits k (n / 10) (omega arith)) (omega arith)
          ∙ ap some (omega arith))
]

-- What reads as a number is digits only.
digits_only : (n v : ℕ) (s : Str) → read_digits n s ≡ some v → All (λ b. is_digit b ≡ true) s
unfolding read_digits
digits_only n v [] h = tt
digits_only n v (b ∷ s) h = elim (Bool-cases (is_digit b)) [
  | inl e ↦ (e, digits_only (10 * n + (b - 48)) v s (rw e at h))
  | inr e ↦ absurd (cc (rw e at h))
]

pub itoa_digits : (n : ℕ) → n ≤ max_int → All (λ b. is_digit b ≡ true) (itoa n)
itoa_digits n h = digits_only 0 n (itoa n) (read_digits-digits 19 n (omega arith))

append-named : (s : Str) (b : ℕ) → is_nil (s ++ b ∷ []) ≡ false
append-named [] b = refl
append-named (c ∷ s) b = refl

digits_named : (k n : ℕ) → is_nil (digits (suc k) n) ≡ false
unfolding digits
digits_named k n = elim (Bool-cases (ltb n 10)) [
  | inl e ↦ rw (e, digits) refl
  | inr e ↦ rw (e, digits) (append-named (digits k (n / 10)) (48 + n % 10))
]

pub itoa_named : (n : ℕ) → is_nil (itoa n) ≡ false
itoa_named n = digits_named 18 n

no_sign : (b : ℕ) → is_digit b ≡ true → (eqb b b'-' ≡ false) × (eqb b b'+' ≡ false)
unfolding is_digit
no_sign b h = (ground arith, ground arith)

unsigned_atoi :
    (s : Str) (n : ℕ)
    → is_nil s ≡ false
    → read_digits 0 s ≡ some n
    → n ≤ max_int
    → atoi s ≡ some (pos n)
unfolding atoi
unsigned_atoi [] n named h fits = absurd (cc named)
unsigned_atoi (b ∷ s) n named h fits =
    let (digit, _) = digits_only 0 n (b ∷ s) h in
    rw (no_sign b digit).0 (
      rw (no_sign b digit).1
        (rw h ((let small : leb n max_int ≡ true = ground arith in rw small refl))))

-- A number that an `int` holds reads back from its decimal digits.
pub atoi-itoa : (n : ℕ) → n ≤ max_int → atoi (itoa n) ≡ some (pos n)
atoi-itoa n h = unsigned_atoi (itoa n) n (itoa_named n) (read_digits-digits 19 n (omega arith)) h
