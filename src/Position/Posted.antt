-- ===== src/Position/Posted.antt =====
-- The POSTs among what `send_deal` has done, with the replies to them.
use mathlib.Core.Path.{subst}
use fx_deal_manager.Prelude.{
  ℕ, zero, suc, ◌+◌, String, ◌≡◌, refl, sym, ◌∙◌, ap, inl, inr, true, Option, none, List, [], ◌∷◌,
  ◌++◌, All, All-map, Has, Has-append_left, Has-append_right,
}
use fx_deal_manager.Domain.{Payment, FxDeal}
use fx_deal_manager.Position.{
  Payload, accepted, Gateway, SendError, Effect, posted, payment_payload, Attempts, delivered,
  pause, attempts, send_payments, send_deal,
}
use fx_deal_manager.Position.Sending.{
  is_accepted, is_client, is_server, is_failed, reply, attempts_accepted, attempts_client,
  attempts_server, attempts_failed, Attempts-cases, first_try, first_taken, first_refused, refused,
  send_deal-cases,
}

-- Among the effects is a POST of the payload that the position system took.
abbrev pub IsPosted : Gateway → List Effect → Payload → Type 0
IsPosted g effects payload =
    (attempt : ℕ) × (ref : Option String) × Has (posted payload attempt) effects
    × (g.post payload attempt ≡ accepted ref)

IsPosted-left :
    (g : Gateway) (xs ys : List Effect) (payload : Payload)
    → IsPosted g xs payload
    → IsPosted g (xs ++ ys) payload
IsPosted-left g xs ys payload (attempt, ref, there, took) =
    (attempt, ref, Has-append_left _ xs ys there, took)

IsPosted-right :
    (g : Gateway) (xs ys : List Effect) (payload : Payload)
    → IsPosted g ys payload
    → IsPosted g (xs ++ ys) payload
IsPosted-right g xs ys payload (attempt, ref, there, took) =
    (attempt, ref, Has-append_right _ xs ys there, took)

module _ (g : Gateway) (payload : Payload) where
  IsPosted-later :
      (attempt : ℕ) (end : Attempts × List Effect) (ref : Option String)
      → (end.0 ≡ delivered ref → IsPosted g end.1 payload)
      → end.0 ≡ delivered ref
      → IsPosted g
          (posted payload attempt ∷ (pause g.position_send_retries attempt ++ end.1))
          payload
  IsPosted-later attempt end ref h e =
      IsPosted-right g (posted payload attempt ∷ pause g.position_send_retries attempt) end.1
        payload (h e)

  -- A payload that is delivered was posted, and taken then.
  attempts-IsPosted :
      (left attempt : ℕ) (last : Option SendError) (ref : Option String)
      → (attempts g left attempt payload last).0 ≡ delivered ref
      → IsPosted g (attempts g left attempt payload last).1 payload
  unfolding attempts
  attempts-IsPosted zero attempt last ref h = cc
  attempts-IsPosted (suc left) attempt last ref h = elim (reply (g.post payload attempt)) [
    | is_accepted r e ↦
        rw (attempts_accepted g payload left attempt last r e) (attempt, r, inl refl, e)
    | is_client code body e c ↦
        let gave = rw (attempts_client g payload left attempt last code body e c) at h in cc
    | is_server code body e c ↦ rw (attempts_server g payload left attempt last code body e c) (
        IsPosted-later attempt _ ref (attempts-IsPosted left (attempt + 1) _ ref)
          (rw (attempts_server g payload left attempt last code body e c) at h))
    | is_failed body e ↦ rw (attempts_failed g payload left attempt last body e) (
        IsPosted-later attempt _ ref (attempts-IsPosted left (attempt + 1) _ ref)
          (rw (attempts_failed g payload left attempt last body e) at h))
  ]

module _ (g : Gateway) (d : FxDeal) (correlation_id : String) where
  -- Each payment was posted and taken.
  abbrev pub AllPosted : List Effect → List Payment → Type 0
  AllPosted effects payments =
      All (λ p. IsPosted g effects (payment_payload d p correlation_id)) payments

  pub AllPosted-left :
      (xs ys : List Effect) (payments : List Payment)
      → AllPosted xs payments
      → AllPosted (xs ++ ys) payments
  AllPosted-left xs ys payments = All-map _ _ payments (λ p. IsPosted-left g xs ys _)

  pub AllPosted-right :
      (xs ys : List Effect) (payments : List Payment)
      → AllPosted ys payments
      → AllPosted (xs ++ ys) payments
  AllPosted-right xs ys payments = All-map _ _ payments (λ p. IsPosted-right g xs ys _)

  send_payments-AllPosted :
      (payments : List Payment) (refs : List String)
      → (send_payments g d correlation_id payments refs).0.success ≡ true
      → AllPosted (send_payments g d correlation_id payments refs).1 payments
  unfolding send_payments
  send_payments-AllPosted [] refs h = tt
  send_payments-AllPosted (p ∷ payments) refs h =
      let payload = payment_payload d p correlation_id in
      elim (Attempts-cases (first_try g d correlation_id p payments refs).0) [
        | inl (ref, e) ↦
            let (refs', next) = first_taken g d correlation_id p payments refs ref e in
            let first_effects = (first_try g d correlation_id p payments refs).1 in
            subst (λ r. AllPosted r.1 (p ∷ payments)) (sym next)
              (
                IsPosted-left g first_effects _ payload
                    (attempts-IsPosted g payload g.position_send_retries 1 none ref e),
                AllPosted-right first_effects _ payments
                    (send_payments-AllPosted payments refs' (ap (λ r. r.0.success) (sym next) ∙ h)),
              )
        | inr (e, f) ↦
            elim (refused correlation_id e (
              ap (λ r. r.0.success) (sym (first_refused g d correlation_id p payments refs e f))
              ∙ h)) [ ]
      ]

-- A send that reports success has posted every payment of the deal, and each POST was taken.
pub send_deal-AllPosted :
    (g : Gateway) (correlation_id : String) (d : FxDeal)
    → (send_deal g correlation_id d).0.success ≡ true
    → AllPosted g d correlation_id (send_deal g correlation_id d).1 d.payments
send_deal-AllPosted g correlation_id d h = elim (send_deal-cases g correlation_id d) [
  | inl (e, r) ↦ elim (refused correlation_id e (ap (λ r. r.0.success) (sym r) ∙ h)) [ ]
  | inr r ↦
      subst (λ r. AllPosted g d correlation_id r.1 d.payments) (sym r)
        (send_payments-AllPosted g d correlation_id d.payments []
          (ap (λ r. r.0.success) (sym r) ∙ h))
]
