-- ===== src/Auth/Claims.antt =====
-- Whom the service takes a request to come from.
use fx_deal_manager.Prelude.{
  String, ◌≡◌, ◌↔◌, refl, sym, ap, ◌∙◌, true, Option, none, some, arith, same, inl, inr, Bool-cases,
}
use mathlib.Core.Option.{some-injective}
use fx_deal_manager.Domain.{UserClaims}
use fx_deal_manager.Store.{Result, ok}
use fx_deal_manager.Auth.{
  TokenClaims, Decoded, decoded, invalid_token, no_signing_key, Credentials, is_user_token,
  with_claim, claims_of, validate_user_token, get_current_user,
}

-- The verified claims say who the user is.
pub record Names (claims : TokenClaims) (user : UserClaims) : Type 0 where
  pub token_type : claims.token_type ≡ some "user"
  pub user_id : claims.user_id ≡ some user.user_id
  pub email : claims.email ≡ some user.email
  pub first_name : claims.first_name ≡ some user.first_name
  pub last_name : claims.last_name ≡ some user.last_name
  pub role : claims.role ≡ some user.role
  pub expires_at : claims.exp ≡ user.expires_at

given_claim :
    (claim : Option String) (next : String → Result UserClaims) (user : UserClaims)
    → with_claim claim next ≡ ok user
    → (value : String) × (claim ≡ some value) × (next value ≡ ok user)
given_claim none next user h = cc
given_claim (some value) next user h = (value, refl, h)

user_token : (kind : Option String) → is_user_token kind ≡ true → kind ≡ some "user"
user_token none h = cc
user_token (some kind) h = ground arith

ok-injective : (a b : UserClaims) → ok a ≡ ok b → a ≡ b
ok-injective a b h = cc

claims_of-Names :
    (claims : TokenClaims) (user : UserClaims)
    → claims.token_type ≡ some "user"
    → claims_of claims ≡ ok user
    → Names claims user
unfolding claims_of
claims_of-Names claims user kind h =
    let (a, ea, ha) = given_claim claims.user_id _ user h in
    let (b, eb, hb) = given_claim claims.email _ user ha in
    let (c, ec, hc) = given_claim claims.first_name _ user hb in
    let (d, ed, hd) = given_claim claims.last_name _ user hc in
    let (e, ee, he) = given_claim claims.role _ user hd in
    rw (← ok-injective _ user he) (record {
      token_type = kind;
      user_id = ea;
      email = eb;
      first_name = ec;
      last_name = ed;
      role = ee;
      expires_at = refl;
    })

claims_of-ok :
    (claims : TokenClaims) (user : UserClaims) → Names claims user → claims_of claims ≡ ok user
unfolding claims_of
claims_of-ok claims user n =
    rw n.user_id (rw n.email (rw n.first_name (rw n.last_name (rw n.role (rw n.expires_at refl)))))

validate-Names :
    (found : Decoded) (user : UserClaims)
    → validate_user_token found ≡ ok user
    → (claims : TokenClaims) × (found ≡ decoded claims) × Names claims user
unfolding validate_user_token
validate-Names invalid_token user h = cc
validate-Names no_signing_key user h = cc
validate-Names (decoded claims) user h = elim (Bool-cases (is_user_token claims.token_type)) [
  | inl e ↦ (claims, refl, claims_of-Names claims user (user_token _ e) (rw e at h))
  | inr e ↦ let wrong = rw e at h in cc
]

-- The service takes a request to come from `user`.
pub record IsFrom (lower : String → String) (decode : String → Decoded) (given : Option Credentials)
    (user : UserClaims) : Type 0 where
  pub credentials : Credentials
  pub claims : TokenClaims
  pub is_given : given ≡ some credentials
  pub is_bearer : lower credentials.scheme ≡ "bearer"
  pub verified : decode credentials.credentials ≡ decoded claims
  pub names : Names claims user

same-true : (s t : String) → same s t ≡ true → s ≡ t
same-true s t h = ground arith

same-equal : (s t : String) → s ≡ t → same s t ≡ true
same-equal s t h = ground arith

module _ (lower : String → String) (decode : String → Decoded) (given : Credentials)
    (user : UserClaims) where
  accepted-IsFrom :
      get_current_user lower decode (some given) ≡ ok user → IsFrom lower decode (some given) user
  unfolding get_current_user
  accepted-IsFrom h = elim (Bool-cases (same (lower given.scheme) "bearer")) [
    | inl e ↦
        let (claims, verified, names) =
          validate-Names (decode given.credentials) user (rw e at h) in
        record {
          credentials = given;
          claims = claims;
          is_given = refl;
          is_bearer = same-true _ _ e;
          verified = verified;
          names = names;
        }
    | inr e ↦ let wrong = rw e at h in cc
  ]

  IsFrom-accepted :
      (claims : TokenClaims)
      → lower given.scheme ≡ "bearer"
      → decode given.credentials ≡ decoded claims
      → Names claims user
      → get_current_user lower decode (some given) ≡ ok user
  unfolding get_current_user validate_user_token claims_of
  IsFrom-accepted claims bearer verified names = rw (same-equal _ _ bearer) (
      rw verified
        (rw names.token_type (rw (same-equal "user" "user" refl) (claims_of-ok claims user names))))

-- A request is taken to come from a user exactly if it has a bearer token that the library verifies,
-- whose claims are of a user's token and name that user with email, names, role and expiry; in any
-- other case it ends with an error.
pub get_current_user-IsFrom :
    (lower : String → String) (decode : String → Decoded) (given : Option Credentials)
    (user : UserClaims)
    → (get_current_user lower decode given ≡ ok user) ↔ IsFrom lower decode given user
unfolding get_current_user
get_current_user-IsFrom lower decode none user =
    (λ h. cc, λ from. let none_given = from.is_given in cc)
get_current_user-IsFrom lower decode (some given) user = (
  accepted-IsFrom lower decode given user,
  λ from.
      let same_given : from.credentials ≡ given =
        sym (some-injective given from.credentials from.is_given) in
      IsFrom-accepted lower decode given user from.claims
        (ap (λ (c : Credentials). lower c.scheme) (sym same_given) ∙ from.is_bearer)
        (ap (λ (c : Credentials). decode c.credentials) (sym same_given) ∙ from.verified)
        from.names,
)
