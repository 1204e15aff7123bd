-- ===== src/App/Config.antt =====
-- internal/app/config.go
pub mod Ttl
use openchat_backend.Strconv.{atoi}
use openchat_backend.Strings.{trim_space}
use openchat_backend.Base.{
  ℕ, zero, suc, ◌+◌, ◌-◌, ◌*◌, ◌^◌, ◌≤◌, ◌<◌, min, ◌≡◌, refl, sym, ap, ◌∙◌, subst, ◌≢◌, ◌↔◌, ◌⊎◌,
  inl, inr, Bool, true, false, not, ◌&&◌, ◌||◌, Option, none, some, List, [], ◌∷◌, ◌++◌, map,
  append-nil, append_assoc, arith, ltb, leb, eqb, between, if◌then◌else◌, Bool-cases, Option-cases,
  is_some, is_nil, length, take, drop, length-append, length-take, length-drop, take-append-drop,
  map_self, All, All-append, All-mono, Str, str, ◌==◌, ==_iff, ==_refl, ==_ne, ==_cases, ℤ, pos,
  negsuc, ◌+ℤ◌, ◌≤ℤ◌, ◌<ℤ◌, leb_ℤ, ltb_ℤ, eqb_ℤ, floor_div, int_suc, max_int, ◌%◌, ◌/◌, Result, ok,
  err, Result-cases,
}

-- A URL of the package net/url, with its fields.
pub record Url : Type 0 where
  pub scheme : Str
  pub opaque : Str
  pub user : Option Str
  pub host : Str
  pub path : Str
  pub raw_path : Str
  pub omit_host : Bool
  pub force_query : Bool
  pub raw_query : Str
  pub fragment : Str
  pub raw_fragment : Str

-- url.Parse, or an error, and URL.String
pub record UrlPackage : Type 0 where
  pub parse : Str → Option Url
  pub print : Url → Str

-- `ticket_ttl` is a duration in nanoseconds.
pub record Config : Type 0 where
  pub http_addr : Str
  pub public_base_url : Str
  pub signaling_path : Str
  pub ticket_ttl : ℤ
  pub ticket_secret : Str
  pub environment : Str

lower_ascii : ℕ → ℕ
lower_ascii b = if between 65 90 b then b + 32 else b

-- strings.EqualFold(s, "production"): no letter of the word has a case outside ASCII.
unfoldable pub is_production : Config → Bool
unfolding lower_ascii
is_production c = map lower_ascii c.environment == str "production"

unfoldable pub signaling_url : UrlPackage → Config → Str
signaling_url urls c = elim (urls.parse c.public_base_url) [
  | none ↦ str "ws://localhost:8080" ++ c.signaling_path
  | some base ↦ urls.print (record base {
    scheme = if base.scheme == str "https" then str "wss" else str "ws";
    path = c.signaling_path;
    raw_query = [];
    fragment = [];
  })
]

-- `environment` is os.Getenv, which is empty where nothing is set.
unfoldable pub env_or_default : (environment : Str → Str) → Str → Str → Str
env_or_default environment key fallback =
    let value = trim_space (environment key) in if is_nil value then fallback else value

unfoldable pub env_or_default_int : (environment : Str → Str) → Str → ℤ → ℤ
env_or_default_int environment key fallback =
    let value = trim_space (environment key) in
    if is_nil value then fallback else elim (atoi value) [
      | none ↦ fallback
      | some parsed ↦ if leb_ℤ parsed (pos 0) then fallback else parsed
    ]

-- A number wrapped to 64 bits with a sign.
abbrev pub to_int64 : ℕ → ℤ
to_int64 n = let m = n % 2 ^ 64 in if leb m max_int then pos m else negsuc (2 ^ 64 - 1 - m)

-- `time.Duration(n) * time.Second`, of a number that envOrDefaultInt returns, which is positive.
unfoldable pub seconds : ℤ → ℤ
seconds (pos n) = to_int64 (n * 1000000000)
seconds (negsuc n) = pos 0

unfoldable pub load_config_from_env : (environment : Str → Str) → Config
load_config_from_env environment = record {
  http_addr = env_or_default environment (str "OPENCHAT_HTTP_ADDR") (str ":8080");
  public_base_url =
      env_or_default environment (str "OPENCHAT_PUBLIC_BASE_URL") (str "http://localhost:8080");
  signaling_path =
      env_or_default environment (str "OPENCHAT_SIGNALING_PATH") (str "/v1/rtc/signaling");
  ticket_ttl =
      seconds (env_or_default_int environment (str "OPENCHAT_JOIN_TICKET_TTL_SECONDS") (pos 60));
  ticket_secret =
      env_or_default environment (str "OPENCHAT_JOIN_TICKET_SECRET")
        (str "dev-insecure-secret-change-me");
  environment = env_or_default environment (str "OPENCHAT_ENV") (str "development");
}
