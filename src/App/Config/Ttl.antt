-- ===== src/App/Config/Ttl.antt =====
-- The time to live of join tickets that the environment sets (internal/app/config.go).
use openchat_backend.App.Config.{env_or_default_int, load_config_from_env, seconds}
use openchat_backend.Strings.Trimming.{IsVisible, trim_space_visible}
use openchat_backend.Strconv.Decimal.{atoi-itoa, itoa_digits, itoa_named}
use openchat_backend.Strconv.{itoa, is_digit}
use openchat_backend.Strings.{trim_space}
use openchat_backend.Base.{
  ℕ, ◌*◌, ◌^◌, ◌≤◌, ◌≡◌, refl, ap, ◌∙◌, true, false, arith, leb, All-mono, Str, str, ℤ, pos, leb_ℤ,
  max_int, ◌%◌,
}

pub digit-IsVisible : (b : ℕ) → is_digit b ≡ true → IsVisible b
unfolding is_digit
digit-IsVisible b h = ground arith

pub itoa_trimmed : (n : ℕ) → n ≤ max_int → trim_space (itoa n) ≡ itoa n
itoa_trimmed n h = trim_space_visible (itoa n) (All-mono _ _ digit-IsVisible _ (itoa_digits n h))

env_or_default_int-itoa :
    (environment : Str → Str) (key : Str) (fallback : ℤ) (n : ℕ)
    → 1 ≤ n
    → n ≤ max_int
    → environment key ≡ itoa n
    → env_or_default_int environment key fallback ≡ pos n
unfolding env_or_default_int
env_or_default_int-itoa environment key fallback n some_seconds few h =
    let positive : leb_ℤ (pos n) (pos 0) ≡ false = ground arith in
    rw h (rw (itoa_trimmed n few) (rw (itoa_named n) (rw (atoi-itoa n few) (rw positive refl))))

seconds_fit : (n : ℕ) → n ≤ 9223372036 → seconds (pos n) ≡ pos (n * 1000000000)
unfolding seconds
seconds_fit n few =
    let same : n * 1000000000 % 2 ^ 64 ≡ n * 1000000000 = omega arith in
    let small : leb (n * 1000000000) max_int ≡ true = ground arith in rw same (rw small refl)

-- A number of seconds from 1 to 9223372036 that the environment gives in decimal digits is the time to
-- live of tickets, in nanoseconds.
pub ticket_ttl_set :
    (environment : Str → Str) (n : ℕ)
    → 1 ≤ n
    → n ≤ 9223372036
    → environment (str "OPENCHAT_JOIN_TICKET_TTL_SECONDS") ≡ itoa n
    → (load_config_from_env environment).ticket_ttl ≡ pos (n * 1000000000)
unfolding load_config_from_env
ticket_ttl_set environment n some_seconds few h =
    ap seconds (env_or_default_int-itoa environment _ (pos 60) n some_seconds (omega arith) h)
    ∙ seconds_fit n few
