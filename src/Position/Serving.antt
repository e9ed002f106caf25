-- ===== src/Position/Serving.antt =====
-- A position system that takes what it is sent, within the attempts that the setting allows.
use fx_deal_manager.Prelude.{
  ℕ, suc, ◌+◌, String, ◌≡◌, refl, inl, inr, ◌∙◌, ap, true, false, Option, none, some, List, [], ◌∷◌,
  is_blank,
}
use fx_deal_manager.Domain.{Payment, FxDeal}
use fx_deal_manager.Position.{
  Payload, accepted, status, failed, Gateway, SendError, payment_payload, delivered, attempts,
  is_client_error, send_payments, send_deal,
}
use fx_deal_manager.Position.Sending.{
  attempts_accepted, attempts_server, attempts_failed, first_taken, List-cases,
}

-- With so many attempts left, the payload is taken at one of them, from one on, and before that no
-- answer is a client error.
pub data IsWilling (g : Gateway) (payload : Payload) : (left attempt : ℕ) → Type 0 where
  takes :
      (left attempt : ℕ) (ref : Option String)
      → g.post payload attempt ≡ accepted ref
      → IsWilling g payload (suc left) attempt
  answers_later :
      (left attempt code : ℕ) (body : String)
      → g.post payload attempt ≡ status code body
      → is_client_error code ≡ false
      → IsWilling g payload left (attempt + 1)
      → IsWilling g payload (suc left) attempt
  fails_first :
      (left attempt : ℕ) (body : String)
      → g.post payload attempt ≡ failed body
      → IsWilling g payload left (attempt + 1)
      → IsWilling g payload (suc left) attempt

-- The adapter is configured, gets its headers, and the position system is willing.
pub record IsServing (g : Gateway) : Type 0 where
  pub configured : is_blank (some g.position_system_url) ≡ false
  pub authorized : g.auth_error ≡ none
  pub willing : (payload : Payload) → IsWilling g payload g.position_send_retries 1

module _ (g : Gateway) where
  attempts_delivered :
      (payload : Payload) (left attempt : ℕ) (last : Option SendError)
      → IsWilling g payload left attempt
      → (ref : Option String) × ((attempts g left attempt payload last).0 ≡ delivered ref)
  attempts_delivered payload left attempt last (takes rest _ ref e) =
      (ref, ap (λ r. r.0) (attempts_accepted g payload rest attempt last ref e))
  attempts_delivered payload left attempt last (answers_later rest _ code body e c w) =
      let (ref, f) = attempts_delivered payload rest (attempt + 1) _ w in
      (ref, ap (λ r. r.0) (attempts_server g payload rest attempt last code body e c) ∙ f)
  attempts_delivered payload left attempt last (fails_first rest _ body e w) =
      let (ref, f) = attempts_delivered payload rest (attempt + 1) _ w in
      (ref, ap (λ r. r.0) (attempts_failed g payload rest attempt last body e) ∙ f)

  module _ (serving : IsServing g) (d : FxDeal) (correlation_id : String) where
    send_payments_succeeds :
        (payments : List Payment) (refs : List String)
        → (send_payments g d correlation_id payments refs).0.success ≡ true
    unfolding send_payments
    send_payments_succeeds [] refs = refl
    send_payments_succeeds (p ∷ payments) refs =
        let payload = payment_payload d p correlation_id in
        let (ref, e) =
          attempts_delivered payload g.position_send_retries 1 none (serving.willing payload) in
        let (refs', next) = first_taken g d correlation_id p payments refs ref e in
        ap (λ r. r.0.success) next ∙ send_payments_succeeds payments refs'

    -- A send through such a position system succeeds.
    pub send_deal_succeeds : (send_deal g correlation_id d).0.success ≡ true
    unfolding send_deal
    send_deal_succeeds = elim (List-cases d.payments) [
      | inl e ↦ rw (serving.configured, send_deal) (rw (e, send_deal) refl)
      | inr (p, more, e) ↦
          rw (serving.configured, send_deal)
            (rw (e, send_deal)
              (rw (serving.authorized, send_deal) (send_payments_succeeds (p ∷ more) [])))
    ]
