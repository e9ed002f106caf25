-- ===== src/Position/Token.antt =====
-- `_auth_headers`, `_service_token` and `positions_report` of src/fx_deal_manager/integrations/position_client.py, with the token
-- that an adapter keeps. Moments of the monotonic clock are whole seconds.
pub mod Reuse
use fx_deal_manager.Prelude.{
  ℕ, zero, suc, ◌+◌, String, Bool, true, false, not, ◌&&◌, ◌||◌, Option, none, some, ltb, leb,
  is_blank, is_empty, if◌then◌else◌,
}

-- `_ServiceTokenCache`
pub record ServiceTokenCache : Type 0 where
  pub access_token : Option String
  pub expires_at_monotonic : ℕ

-- `_ServiceTokenCache()`
abbrev pub empty_cache : ServiceTokenCache
empty_cache = record { access_token = none; expires_at_monotonic = 0 }

pub record Settings : Type 0 where
  pub position_auth_required : Bool
  pub position_auth_client_id : String
  pub position_auth_client_secret : String

-- What the identity provider answers: an exception of the client or of `raise_for_status`, or the
-- members of its JSON; the last one is the first of `expiresIn` and `expires_in` that is neither 0 nor
-- absent.
-- An expiry is missing, seconds, with 0 for a number below 0 (both become 60), or of another form, with
-- the error of `int` on it.
pub data Expiry : Type 0 where
  not_told : Expiry
  lasts : ℕ → Expiry
  unreadable : String → Expiry

pub data TokenReply : Type 0 where
  token_failed : String → TokenReply
  token_body : Option String → Option String → Expiry → TokenReply

pub data TokenError : Type 0 where
  not_configured no_access_token : TokenError
  failed : String → TokenError

-- The headers are held as the token in them.
pub data TokenResult : Type 0 where
  token : String → TokenResult
  no_header : TokenResult
  token_error : TokenError → TokenResult

-- `payload.get("accessToken") or payload.get("access_token")`
abbrev pub either_token : Option String → Option String → Option String
either_token first second = if is_blank first then second else first

-- `max(expires_in, 60)`
abbrev pub at_least_60 : ℕ → ℕ
at_least_60 seconds = if ltb seconds 60 then 60 else seconds

-- The token and the cache that has it, for an answer that came at the moment `later`.
abbrev pub kept_for : String → ℕ → ℕ → TokenResult × ServiceTokenCache
kept_for t seconds later =
    (token t, record { access_token = some t; expires_at_monotonic = later + at_least_60 seconds })

-- From `int(... or 900)` on.
unfoldable pub keep_for : String → Expiry → ℕ → ServiceTokenCache → TokenResult × ServiceTokenCache
keep_for t not_told later cache = kept_for t 900 later
keep_for t (lasts seconds) later cache = kept_for t seconds later
keep_for t (unreadable reason) later cache = (token_error (failed reason), cache)

-- `self._token.access_token and self._token.expires_at_monotonic > time.monotonic() + 30`
unfoldable pub is_usable : ServiceTokenCache → ℕ → Bool
is_usable cache now = not (is_blank cache.access_token) && ltb (now + 30) cache.expires_at_monotonic

abbrev pub held_token : Option String → String
held_token none = ""
held_token (some s) = s

-- `if not token: ...` and what follows, for an answer that came at the moment `later`.
unfoldable pub store_token :
    Option String → Expiry → ℕ → ServiceTokenCache → TokenResult × ServiceTokenCache
store_token none expiry later cache = (token_error no_access_token, cache)
store_token (some t) expiry later cache =
    if is_empty t then (token_error no_access_token, cache) else keep_for t expiry later cache

-- From the answer on: the result and the cache after it.
unfoldable pub keep_token : TokenReply → ℕ → ServiceTokenCache → TokenResult × ServiceTokenCache
keep_token (token_failed reason) later cache = (token_error (failed reason), cache)
keep_token (token_body first second expiry) later cache =
    store_token (either_token first second) expiry later cache

-- `_service_token`: with it whether the identity provider was asked.
unfoldable pub service_token :
    Settings → ℕ → ℕ → TokenReply → ServiceTokenCache → TokenResult × ServiceTokenCache × Bool
service_token settings now later reply cache =
    if is_usable cache now
    then (token (held_token cache.access_token), cache, false)
    else if is_empty settings.position_auth_client_id
        || is_empty settings.position_auth_client_secret
    then (token_error not_configured, cache, false)
    else (let (result, cache') = keep_token reply later cache in (result, cache', true))

-- `_auth_headers`
unfoldable pub auth_headers :
    Settings → ℕ → ℕ → TokenReply → ServiceTokenCache → TokenResult × ServiceTokenCache × Bool
auth_headers settings now later reply cache =
    if settings.position_auth_required
    then service_token settings now later reply cache
    else (no_header, cache, false)

-- Why there is no report: `RuntimeError`, an exception for the token, or one of the GET.
pub data Unavailable : Type 0 where
  url_missing : Unavailable
  no_token : TokenError → Unavailable
  refused : String → Unavailable

-- What a report comes to.
pub data Fetched (A : Type 0) : Type 0 where
  reported : A → Fetched A
  unavailable : Unavailable → Fetched A

abbrev with_headers : {A : Type 0} → TokenResult → (TokenResult → Fetched A) → Fetched A
with_headers (token_error e) get = unavailable (no_token e)
with_headers (token t) get = get (token t)
with_headers no_header get = get no_header

-- `positions_report`; `get` is the answer of the position system to the GET with these headers.
unfoldable pub positions_report :
    {A : Type 0} → String → TokenResult → (TokenResult → Fetched A) → Fetched A
positions_report position_system_url headers get =
    if is_empty position_system_url then unavailable url_missing else with_headers headers get
