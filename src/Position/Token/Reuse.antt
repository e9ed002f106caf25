-- ===== src/Position/Token/Reuse.antt =====
-- A token that was fetched is used again.
use fx_deal_manager.Prelude.{
  ℕ, ◌+◌, ◌<◌, String, ◌≡◌, refl, true, false, Option, none, some, ◌||◌, arith, ltb, is_empty, sym,
  ap, ◌∙◌, inl, inr, Bool-cases,
}
use fx_deal_manager.Position.Token.{
  Settings, ServiceTokenCache, TokenReply, token_failed, token_body, token, either_token,
  at_least_60, is_usable, Expiry, not_told, lasts, unreadable, keep_for, store_token, keep_token,
  service_token,
}

long_enough :
    (seconds now later : ℕ) → now < later + 30 → ltb (now + 30) (later + at_least_60 seconds) ≡ true
long_enough seconds now later h = ground arith

-- The cache after an answer with a token.
abbrev fetched : String → ℕ → ℕ → ServiceTokenCache
fetched t later seconds = record {
  access_token = some t;
  expires_at_monotonic = later + at_least_60 seconds;
}

token-injective : (t u : String) → token t ≡ token u → t ≡ u
token-injective t u h = cc

keep_for-fetched :
    (u : String) (expiry : Expiry) (later : ℕ) (cache : ServiceTokenCache) (t : String)
    → (keep_for u expiry later cache).0 ≡ token t
    → (seconds : ℕ) × (u ≡ t) × ((keep_for u expiry later cache).1 ≡ fetched t later seconds)
unfolding keep_for
keep_for-fetched u not_told later cache t h =
    let same_text = token-injective u t h in
    (900, same_text, ap (λ v. fetched v later 900) same_text)
keep_for-fetched u (lasts seconds) later cache t h =
    let same_text = token-injective u t h in
    (seconds, same_text, ap (λ v. fetched v later seconds) same_text)
keep_for-fetched u (unreadable reason) later cache t h = cc

store_token-fetched :
    (o : Option String) (expiry : Expiry) (later : ℕ) (cache : ServiceTokenCache) (t : String)
    → (store_token o expiry later cache).0 ≡ token t
    → (seconds : ℕ) × (is_empty t ≡ false)
      × ((store_token o expiry later cache).1 ≡ fetched t later seconds)
unfolding store_token
store_token-fetched none expiry later cache t h = cc
store_token-fetched (some u) expiry later cache t h = elim (Bool-cases (is_empty u)) [
  | inl e ↦ let refused = rw e at h in cc
  | inr e ↦
      let (seconds, same_text, kept) = keep_for-fetched u expiry later cache t (rw e at h) in
      (seconds, ap is_empty (sym same_text) ∙ e, rw e kept)
]

keep_token-fetched :
    (reply : TokenReply) (later : ℕ) (cache : ServiceTokenCache) (t : String)
    → (keep_token reply later cache).0 ≡ token t
    → (seconds : ℕ) × (is_empty t ≡ false)
      × ((keep_token reply later cache).1 ≡ fetched t later seconds)
unfolding keep_token
keep_token-fetched (token_failed reason) later cache t h = cc
keep_token-fetched (token_body first second expiry) later cache t h =
    store_token-fetched (either_token first second) expiry later cache t h

-- The cache that such an answer leaves is used within half a minute.
service_token-fetched :
    (settings : Settings) (later seconds again after : ℕ) (next : TokenReply) (t : String)
    → is_empty t ≡ false
    → again < later + 30
    → service_token settings again after next (fetched t later seconds)
      ≡ (token t, fetched t later seconds, false)
unfolding service_token is_usable
service_token-fetched settings later seconds again after next t there soon =
    rw there (rw (long_enough seconds again later soon) refl)

asked-fetched :
    (settings : Settings) (now later : ℕ) (reply : TokenReply) (cache : ServiceTokenCache)
    (t : String)
    → (service_token settings now later reply cache).0 ≡ token t
    → (service_token settings now later reply cache).2 ≡ true
    → (seconds : ℕ) × (is_empty t ≡ false)
      × ((service_token settings now later reply cache).1 ≡ fetched t later seconds)
unfolding service_token
asked-fetched settings now later reply cache t h asked = elim (Bool-cases (is_usable cache now)) [
  | inl e ↦ let not_asked = rw e at asked in cc
  | inr e ↦
      let missing =
        is_empty settings.position_auth_client_id
        || is_empty settings.position_auth_client_secret in
      elim (Bool-cases missing) [
        | inl f ↦ let not_asked = rw f at (rw e at asked) in cc
        | inr f ↦ rw e (rw f (keep_token-fetched reply later cache t (rw f at (rw e at h))))
      ]
]

-- A token that was fetched serves for the next half minute: where an adapter asks for a token, has it
-- at the moment `later` from the identity provider, and asks again before 30 seconds have passed, it
-- gets the same token, keeps it, and does not ask the provider again, whatever that would answer.
pub service_token_again :
    (settings : Settings) (now later again after : ℕ) (reply next : TokenReply)
    (cache : ServiceTokenCache) (t : String)
    → again < later + 30
    → (service_token settings now later reply cache).0 ≡ token t
    → (service_token settings now later reply cache).2 ≡ true
    → (let kept = (service_token settings now later reply cache).1 in
        service_token settings again after next kept ≡ (token t, kept, false))
service_token_again settings now later again after reply next cache t soon h asked =
    let (seconds, there, kept) = asked-fetched settings now later reply cache t h asked in
    rw kept (service_token-fetched settings later seconds again after next t there soon)
