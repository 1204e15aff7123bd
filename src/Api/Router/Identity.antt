-- ===== src/Api/Router/Identity.antt =====
-- Who a request is served for (internal/api/middleware_auth.go and router.go).
use openchat_backend.Api.Router.{Authed, authed, handle_authed, serve}
use openchat_backend.Api.Types.{Requester, Server, Served, answer, write_error}
use openchat_backend.Api.Requester.{Headers, with_requester_context, uid_of, or_local}
use openchat_backend.Api.Tickets.{Context}
use openchat_backend.App.Config.{is_production}
use openchat_backend.Strings.{trim_space}
use openchat_backend.Platform.{Platform}
use openchat_backend.Base.{
  ◌≡◌, refl, sym, ◌∙◌, inl, inr, true, false, some, [], ◌∷◌, Bool-cases, is_nil, Str, str,
}

-- The requester that the headers name, where the request is let through.
abbrev pub named : Platform → Headers → Requester
named p headers = record {
  user_uid = or_local (uid_of p headers) (str "uid_dev_local");
  device_id = or_local (trim_space headers.device_id) (str "dev_local");
}

or_local_named : (s local : Str) → is_nil local ≡ false → is_nil (or_local s local) ≡ false
or_local_named [] local h = h
or_local_named (b ∷ s) local h = refl

or_local_own : (s local : Str) → is_nil s ≡ false → or_local s local ≡ s
or_local_own [] local h = absurd (cc h)
or_local_own (b ∷ s) local h = refl

some_user : is_nil (str "uid_dev_local") ≡ false
unfolding str
some_user = refl

some_device : is_nil (str "dev_local") ≡ false
unfolding str
some_device = refl

-- The ways in which a request that needs a requester is served.
pub data IsServedFor (x : Context) (headers : Headers) (request : Authed) (s : Server) (o : Served)
    : Type 0 where
  unauthorized :
      is_production s.cfg ≡ true
      → is_nil (uid_of x.platform headers) ≡ true
      → o ≡ answer s (write_error 401 (str "unauthorized") false)
      → IsServedFor x headers request s o
  served :
      (requester : Requester)
      → is_nil requester.user_uid ≡ false
      → is_nil requester.device_id ≡ false
      → (is_nil (uid_of x.platform headers) ≡ false
          → requester.user_uid ≡ uid_of x.platform headers)
      → (is_production s.cfg ≡ true → requester.user_uid ≡ uid_of x.platform headers)
      → requester ≡ named x.platform headers
      → o ≡ handle_authed x request (some requester) s
      → IsServedFor x headers request s o

-- A request to a route that needs a requester is refused, with nothing changed, if the server is in
-- production and no header names a user; otherwise it is handled for a requester with a uid and a
-- device, whose uid is the one of the headers where they name one, and always in production.
pub serve-IsServedFor :
    (x : Context) (headers : Headers) (request : Authed) (s : Server)
    → IsServedFor x headers request s (serve x (authed headers request) s)
unfolding serve with_requester_context
serve-IsServedFor x headers request s = elim (Bool-cases (is_nil (uid_of x.platform headers))) [
  | inl blank ↦ elim (Bool-cases (is_production s.cfg)) [
    | inl strict ↦ unauthorized strict blank (rw blank (rw strict refl))
    | inr lenient ↦
        served (named x.platform headers) (or_local_named (uid_of x.platform headers) _ some_user)
          (or_local_named (trim_space headers.device_id) _ some_device)
          (or_local_own (uid_of x.platform headers) (str "uid_dev_local"))
          (λ strict. absurd (cc (sym strict ∙ lenient))) refl (rw blank (rw lenient refl))
  ]
  | inr own ↦
      served (named x.platform headers) (or_local_named (uid_of x.platform headers) _ some_user)
        (or_local_named (trim_space headers.device_id) _ some_device)
        (or_local_own (uid_of x.platform headers) (str "uid_dev_local"))
        (λ strict. or_local_own (uid_of x.platform headers) (str "uid_dev_local") own) refl
        (rw own refl)
]
