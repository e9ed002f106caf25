-- ===== src/Position/Sending.antt =====
-- What `send_deal` has sent when it returns.
use fx_deal_manager.Prelude.{
  ℕ, zero, suc, ◌+◌, ◌*◌, ◌≤◌, ◌<◌, String, ◌≡◌, ◌≢◌, refl, sym, ◌∙◌, ap, ◌⊎◌, inl, inr, true,
  false, Option, none, some, List, [], ◌∷◌, ◌++◌, arith, length, All, Bool-cases, Option-cases,
  is_blank,
}
use fx_deal_manager.Domain.{Payment, FxDeal}
use fx_deal_manager.Position.{
  Payload, Reply, accepted, status, failed, Gateway, SendError, status_text, text, not_configured,
  token_error, Effect, posted, slept, payment_payload, Attempts, delivered, gave_up, pause, refusal,
  add_ref, is_client_error, attempts, send_payments, send_deal,
}

-- The number of POSTs among the effects.
pub posts : List Effect → ℕ
posts [] = 0
posts (posted payload attempt ∷ es) = suc (posts es)
posts (slept units ∷ es) = posts es

posts-append : (xs ys : List Effect) → posts (xs ++ ys) ≡ posts xs + posts ys
unfolding posts
posts-append [] ys = omega arith
posts-append (posted payload attempt ∷ xs) ys = omega (arith, posts-append xs ys)
posts-append (slept units ∷ xs) ys = posts-append xs ys

posts-pause :
    (retries attempt : ℕ) (es : List Effect) → posts (pause retries attempt ++ es) ≡ posts es
unfolding posts pause
posts-pause retries attempt es = ground arith

pub data IsReply (r : Reply) : Type 0 where
  is_accepted : (ref : Option String) → r ≡ accepted ref → IsReply r
  is_client :
      (code : ℕ) (body : String) → r ≡ status code body → is_client_error code ≡ true → IsReply r
  is_server :
      (code : ℕ) (body : String) → r ≡ status code body → is_client_error code ≡ false → IsReply r
  is_failed : (body : String) → r ≡ failed body → IsReply r

pub reply : (r : Reply) → IsReply r
reply (accepted ref) = is_accepted ref refl
reply (status code body) = elim (Bool-cases (is_client_error code)) [
  | inl e ↦ is_client code body refl e
  | inr e ↦ is_server code body refl e
]
reply (failed body) = is_failed body refl

module _ (g : Gateway) (payload : Payload) (left attempt : ℕ) (last : Option SendError) where
  pub attempts_accepted :
      (ref : Option String)
      → g.post payload attempt ≡ accepted ref
      → attempts g (suc left) attempt payload last ≡ (delivered ref, posted payload attempt ∷ [])
  unfolding attempts
  attempts_accepted ref e = rw (e, attempts) refl

  pub attempts_client :
      (code : ℕ) (body : String)
      → g.post payload attempt ≡ status code body
      → is_client_error code ≡ true
      → attempts g (suc left) attempt payload last
        ≡ (gave_up (status_text code body), posted payload attempt ∷ [])
  unfolding attempts
  attempts_client code body e c = rw (e, attempts) (rw c refl)

  pub attempts_server :
      (code : ℕ) (body : String)
      → g.post payload attempt ≡ status code body
      → is_client_error code ≡ false
      → attempts g (suc left) attempt payload last ≡ (
          let (end, effects) =
            attempts g left (attempt + 1) payload (some (status_text code body)) in
          (end, posted payload attempt ∷ (pause g.position_send_retries attempt ++ effects)))
  unfolding attempts
  attempts_server code body e c = rw (e, attempts) (rw c refl)

  pub attempts_failed :
      (body : String)
      → g.post payload attempt ≡ failed body
      → attempts g (suc left) attempt payload last ≡ (
          let (end, effects) = attempts g left (attempt + 1) payload (some (text body)) in
          (end, posted payload attempt ∷ (pause g.position_send_retries attempt ++ effects)))
  unfolding attempts
  attempts_failed body e = rw (e, attempts) refl

-- The position system takes the payload at one of the attempts from one on, before another.
abbrev pub IsTaken : Gateway → ℕ → ℕ → Payload → Type 0
IsTaken g first last payload =
    (attempt : ℕ) × (first ≤ attempt)
    × (attempt < last)
    × (ref : Option String) × (g.post payload attempt ≡ accepted ref)

-- How the attempts at a payload end: with a reply that takes it, or not; with so many POSTs at most.
record IsTried (g : Gateway) (payload : Payload) (left attempt : ℕ)
    (result : Attempts × List Effect) : Type 0 where
  few : posts result.1 ≤ left
  taken :
      (ref : Option String) → result.0 ≡ delivered ref → IsTaken g attempt (attempt + left) payload

module _ (g : Gateway) (payload : Payload) where
  IsTried-later :
      (left attempt : ℕ) (result : Attempts × List Effect)
      → IsTried g payload left (attempt + 1) result
      → IsTried g payload
          (suc left)
          attempt
          (result.0, posted payload attempt ∷ (pause g.position_send_retries attempt ++ result.1))
  unfolding posts
  IsTried-later left attempt result h = record {
    few = omega (arith, posts-pause g.position_send_retries attempt result.1, h.few);
    taken = λ ref e.
        let (j, low, high, r, p) = h.taken ref e in
        (j, omega (arith, low), omega (arith, high), r, p);
  }

  attempts-IsTried :
      (left attempt : ℕ) (last : Option SendError)
      → IsTried g payload left attempt (attempts g left attempt payload last)
  unfolding attempts posts
  attempts-IsTried zero attempt last = record { few = omega arith; taken = λ ref e. cc }
  attempts-IsTried (suc left) attempt last = elim (reply (g.post payload attempt)) [
    | is_accepted ref e ↦
        rw (attempts_accepted g payload left attempt last ref e)
          (record { few = omega arith; taken = λ _ _. (attempt, omega arith, omega arith, ref, e) })
    | is_client code body e c ↦
        rw (attempts_client g payload left attempt last code body e c)
          (record { few = omega arith; taken = λ ref f. cc })
    | is_server code body e c ↦
        rw (attempts_server g payload left attempt last code body e c)
          (IsTried-later left attempt _ (attempts-IsTried left (attempt + 1) _))
    | is_failed body e ↦
        rw (attempts_failed g payload left attempt last body e)
          (IsTried-later left attempt _ (attempts-IsTried left (attempt + 1) _))
  ]

pub Attempts-cases :
    (a : Attempts)
    → ((ref : Option String) × (a ≡ delivered ref)) ⊎ ((e : SendError) × (a ≡ gave_up e))
Attempts-cases (delivered ref) = inl (ref, refl)
Attempts-cases (gave_up e) = inr (e, refl)

pub refused : (correlation_id : String) (e : SendError) → (refusal correlation_id e).success ≢ true
refused correlation_id e h = cc

one_more : (a b r n : ℕ) → a ≤ r → b ≤ n * r → a + b ≤ suc n * r
one_more a b r n h k = omega (arith, h, k)

more_at_least : (a r n : ℕ) → a ≤ r → a ≤ suc n * r
more_at_least a r n h = omega (arith, one_more a 0 r n h (omega arith))

module _ (g : Gateway) (d : FxDeal) (correlation_id : String) (p : Payment)
    (payments : List Payment) (refs : List String) where
  abbrev pub first_try : Attempts × List Effect
  first_try = attempts g g.position_send_retries 1 (payment_payload d p correlation_id) none

  pub first_taken :
      (ref : Option String)
      → first_try.0 ≡ delivered ref
      → (refs' : List String) × (send_payments g d correlation_id (p ∷ payments) refs ≡ (
          let (result, more) = send_payments g d correlation_id payments refs' in
          (result, first_try.1 ++ more)))
  unfolding send_payments
  first_taken ref e = (add_ref ref refs, rw (e, send_payments) refl)

  pub first_refused :
      (e : SendError)
      → first_try.0 ≡ gave_up e
      → send_payments g d correlation_id (p ∷ payments) refs
        ≡ (refusal correlation_id e, first_try.1)
  unfolding send_payments
  first_refused e h = rw (h, send_payments) refl

module _ (g : Gateway) (d : FxDeal) (correlation_id : String) where
  -- Every payment is taken, at one of the attempts that the setting allows.
  abbrev pub AllTaken : List Payment → Type 0
  AllTaken payments =
      All (λ p. IsTaken g 1 (1 + g.position_send_retries) (payment_payload d p correlation_id))
        payments

  send_payments_taken :
      (payments : List Payment) (refs : List String)
      → (send_payments g d correlation_id payments refs).0.success ≡ true
      → AllTaken payments
  unfolding send_payments
  send_payments_taken [] refs h = tt
  send_payments_taken (p ∷ payments) refs h =
      let tried =
        attempts-IsTried g (payment_payload d p correlation_id) g.position_send_retries 1 none in
      elim (Attempts-cases (first_try g d correlation_id p payments refs).0) [
        | inl (ref, e) ↦
            let (refs', next) = first_taken g d correlation_id p payments refs ref e in
            (
              tried.taken ref e,
              send_payments_taken payments refs' (ap (λ r. r.0.success) (sym next) ∙ h),
            )
        | inr (e, f) ↦
            elim (refused correlation_id e (
              ap (λ r. r.0.success) (sym (first_refused g d correlation_id p payments refs e f))
              ∙ h)) [ ]
      ]

  posts-send_payments :
      (payments : List Payment) (refs : List String)
      → posts (send_payments g d correlation_id payments refs).1
        ≤ length payments * g.position_send_retries
  unfolding send_payments posts
  posts-send_payments [] refs = omega arith
  posts-send_payments (p ∷ payments) refs =
      let tried =
        attempts-IsTried g (payment_payload d p correlation_id) g.position_send_retries 1 none in
      elim (Attempts-cases (first_try g d correlation_id p payments refs).0) [
        | inl (ref, e) ↦
            let (refs', next) = first_taken g d correlation_id p payments refs ref e in
            rw next (
              rw
                (posts-append (first_try g d correlation_id p payments refs).1
                  (send_payments g d correlation_id payments refs').1)
                (one_more _ _ g.position_send_retries (length payments) tried.few
                  (posts-send_payments payments refs')))
        | inr (e, f) ↦
            rw (first_refused g d correlation_id p payments refs e f)
              (more_at_least _ g.position_send_retries (length payments) tried.few)
      ]

pub List-cases :
    (ps : List Payment) → (ps ≡ []) ⊎ ((p : Payment) × (more : List Payment) × (ps ≡ p ∷ more))
List-cases [] = inl refl
List-cases (p ∷ more) = inr (p, more, refl)

-- A send is refused before any POST, or it is the loop over the payments.
pub send_deal-cases :
    (g : Gateway) (correlation_id : String) (d : FxDeal)
    → ((e : SendError) × (send_deal g correlation_id d ≡ (refusal correlation_id e, [])))
      ⊎ (send_deal g correlation_id d ≡ send_payments g d correlation_id d.payments [])
unfolding send_deal
send_deal-cases g correlation_id d = elim (Bool-cases (is_blank (some g.position_system_url))) [
  | inl b ↦ inl (not_configured, rw (b, send_deal) refl)
  | inr b ↦ elim (List-cases d.payments) [
    | inl e ↦ inr (rw (b, send_deal) (rw (e, send_deal) refl))
    | inr (p, more, e) ↦ elim (Option-cases g.auth_error) [
      | inl a ↦ inr (
          rw (b, send_deal)
            (rw (e, send_deal)
              (rw (a, send_deal)
                (ap
                    (λ ps.
                      send_payments g (record d { payments = ps }) correlation_id (p ∷ more) [])
                    e
                  ∙ ap
                      (λ x.
                        send_payments (record g { auth_error = x })
                          (record d { payments = p ∷ more }) correlation_id (p ∷ more) [])
                      a))))
      | inr (t, a) ↦
          inl (token_error t, rw (b, send_deal) (rw (e, send_deal) (rw (a, send_deal) refl)))
    ]
  ]
]

-- A send that reports success has had every payment of the deal taken by the position system, each
-- at one of the attempts that the setting allows.
pub send_deal_taken :
    (g : Gateway) (correlation_id : String) (d : FxDeal)
    → (send_deal g correlation_id d).0.success ≡ true
    → AllTaken g d correlation_id d.payments
send_deal_taken g correlation_id d h = elim (send_deal-cases g correlation_id d) [
  | inl (e, r) ↦ elim (refused correlation_id e (ap (λ r. r.0.success) (sym r) ∙ h)) [ ]
  | inr r ↦ send_payments_taken g d correlation_id d.payments [] (ap (λ r. r.0.success) (sym r) ∙ h)
]

-- A send makes at most as many POSTs as the deal has payments times the attempts that the setting
-- allows, whatever the answers.
pub posts-send_deal :
    (g : Gateway) (correlation_id : String) (d : FxDeal)
    → posts (send_deal g correlation_id d).1 ≤ length d.payments * g.position_send_retries
unfolding posts
posts-send_deal g correlation_id d = elim (send_deal-cases g correlation_id d) [
  | inl (e, r) ↦ rw r (omega arith)
  | inr r ↦ rw r (posts-send_payments g d correlation_id d.payments [])
]
