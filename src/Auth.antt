-- ===== src/Auth.antt =====
-- src/fx_deal_manager/api/auth.py and `get_current_user` of api/dependencies.py: who asks. The key set and
-- the JWT library are the parameter `decode`, Python's `str.lower` the parameter `lower`.
pub mod Claims
use fx_deal_manager.Prelude.{
  String, Bool, true, false, not, ℕ, Option, none, some, same, if◌then◌else◌,
}
use fx_deal_manager.Domain.{UserClaims}
use fx_deal_manager.Store.{Error, http, Detail, internal, key_error, key_set_error, Result, ok, err}

-- The claims of a token that the library has verified; of those that the service reads only `exp` is
-- required of it.
pub record TokenClaims : Type 0 where
  pub token_type : Option String
  pub user_id : Option String
  pub email : Option String
  pub first_name : Option String
  pub last_name : Option String
  pub role : Option String
  pub exp : ℕ

-- What the library makes of a token: its claims, an `InvalidTokenError`, or the error of the client of
-- the key set that finds no key for the token, which is no `InvalidTokenError`.
pub data Decoded : Type 0 where
  decoded : TokenClaims → Decoded
  invalid_token no_signing_key : Decoded

-- `HTTPAuthorizationCredentials`
pub record Credentials : Type 0 where
  pub scheme : String
  pub credentials : String

-- `HTTPException(401, ...)`
abbrev pub unauthorized : String → Error
unauthorized detail = http 401 (Detail.text detail)

-- `claims.get("token_type") != "user"`, negated.
abbrev pub is_user_token : Option String → Bool
is_user_token none = false
is_user_token (some kind) = same kind "user"

-- `claims[...]`: a `KeyError` where there is none, before what comes after.
abbrev pub with_claim : Option String → (String → Result UserClaims) → Result UserClaims
with_claim none next = err (internal key_error)
with_claim (some value) next = next value

-- The construction of `UserClaims`.
unfoldable pub claims_of : TokenClaims → Result UserClaims
claims_of claims = with_claim claims.user_id λ user_id. with_claim claims.email λ email.
    with_claim claims.first_name λ first_name. with_claim claims.last_name λ last_name.
      with_claim claims.role λ role. ok (record {
        user_id = user_id;
        email = email;
        first_name = first_name;
        last_name = last_name;
        role = role;
        expires_at = claims.exp;
      })

-- `validate_user_token` on what the library makes of the token, with the answer that
-- `get_current_user` makes of an `AuthenticationError`; an error of the key set is caught nowhere.
unfoldable pub validate_user_token : Decoded → Result UserClaims
validate_user_token invalid_token = err (unauthorized "invalid or expired token")
validate_user_token no_signing_key = err (internal key_set_error)
validate_user_token (decoded claims) =
    if is_user_token claims.token_type
    then claims_of claims
    else err (unauthorized "user token required")

module _ (lower : String → String) (decode : String → Decoded) where
  -- `get_current_user`
  unfoldable pub get_current_user : Option Credentials → Result UserClaims
  get_current_user none = err (unauthorized "Missing bearer token")
  get_current_user (some given) =
      if same (lower given.scheme) "bearer"
      then validate_user_token (decode given.credentials)
      else err (unauthorized "Missing bearer token")
