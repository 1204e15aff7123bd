-- ===== src/Api/Requester.antt =====
-- internal/api/middleware_auth.go: who makes a request.
use openchat_backend.Api.Types.{Requester, Server, Served, answer, write_error}
use openchat_backend.Strings.{trim_space, has_prefix, to_lower}
use openchat_backend.Platform.{Platform}
use openchat_backend.Base.{
  Bool, false, ◌&&◌, Option, none, some, if◌then◌else◌, is_nil, drop, Str, str,
}

-- The headers that name the requester; an absent one is empty.
pub record Headers : Type 0 where
  pub user_uid : Str
  pub device_id : Str
  pub authorization : Str

-- The requester's uid that the headers give, if any.
unfoldable pub uid_of : Platform → Headers → Str
uid_of p headers =
    let uid = trim_space headers.user_uid in
    let auth_header = trim_space headers.authorization in
    if is_nil uid && has_prefix (to_lower p.lower auth_header) (str "bearer ")
    then trim_space (drop 7 auth_header)
    else uid

abbrev pub or_local : Str → Str → Str
or_local s local = if is_nil s then local else s

unfoldable pub with_requester_context :
    Platform → (next : Option Requester → Server → Served) → Bool → Headers → Server → Served
with_requester_context p next strict headers s =
    let uid = uid_of p headers in
    if is_nil uid && strict
    then answer s (write_error 401 (str "unauthorized") false)
    else next
        (some (record {
          user_uid = or_local uid (str "uid_dev_local");
          device_id = or_local (trim_space headers.device_id) (str "dev_local");
        }))
        s

abbrev pub requester_from_context : Option Requester → Requester
requester_from_context none = record { user_uid = str "uid_dev_local"; device_id = str "dev_local" }
requester_from_context (some requester) = requester
