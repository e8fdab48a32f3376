-- ===== src/Service/Webhook/Gate.antt =====
-- Steps 1 to 3 of HandleWebhook: what is needed before anything changes.
use extend_regional_payment.Prelude.{
  ◌<>◌, String, ◌==◌, none, some, ◌≡◌, refl, ◌⊎◌, inl, inr, arith, false,
}
use extend_regional_payment.Prelude.{Option-cases, Bool-cases}
use extend_regional_payment.Prelude.Text.{trim_space}
use extend_regional_payment.Adapter.Types.{adapter_error_text, Answer, answer, error, PaymentResult}
use extend_regional_payment.Adapter.Provider.{PaymentProvider, get}
use extend_regional_payment.Service.World.{World, Env}
use extend_regional_payment.Service.Reply.{Code, invalid_argument, internal, fail}
use extend_regional_payment.Service.Webhook.{WebhookRequest, handle_webhook, handle_result}

-- The request is refused, and nothing has changed.
abbrev pub Refused : Env → WebhookRequest → World → Type 0
Refused env req w = (c : Code) × (m : String) × (handle_webhook env req w ≡ (fail c m, w))

-- A known provider has accepted the signature and parsed the payload, and the rest of the handler
-- runs on its result.
abbrev pub Accepted : Env → WebhookRequest → World → Type 0
Accepted env req w =
    (prov : PaymentProvider) × (result : PaymentResult) × (get req.provider_id env.registry
      ≡ some prov)
    × (prov.validate_webhook_signature req.raw_payload req.headers ≡ none)
    × (env.cfg.webhook_force_error ≡ false)
    × (prov.handle_webhook w.history req.raw_payload req.headers ≡ answer result)
    × (handle_webhook env req w ≡ handle_result env result result.status w)

module _ (env : Env) (req : WebhookRequest) (w : World) where
  parsed_cases :
      (prov : PaymentProvider) (r : Answer PaymentResult)
      → (trim_space req.provider_id == "") ≡ false
      → get req.provider_id env.registry ≡ some prov
      → prov.validate_webhook_signature req.raw_payload req.headers ≡ none
      → env.cfg.webhook_force_error ≡ false
      → prov.handle_webhook w.history req.raw_payload req.headers ≡ r
      → Refused env req w ⊎ Accepted env req w
  unfolding handle_webhook
  parsed_cases prov (error e) b g v f r =
      inl (invalid_argument, "failed to parse webhook: " <> adapter_error_text e, ground arith)
  parsed_cases prov (answer result) b g v f r = inr (prov, result, g, v, f, r, ground arith)

  known_cases :
      (prov : PaymentProvider)
      → (trim_space req.provider_id == "") ≡ false
      → get req.provider_id env.registry ≡ some prov
      → Refused env req w ⊎ Accepted env req w
  unfolding handle_webhook
  known_cases prov b g =
      elim (Option-cases (prov.validate_webhook_signature req.raw_payload req.headers)) [
        | inr (e, v) ↦
            inl (
              invalid_argument,
              "invalid webhook signature: " <> adapter_error_text e,
              ground arith,
            )
        | inl v ↦ elim (Bool-cases env.cfg.webhook_force_error) [
          | inl f ↦ inl (internal, "forced error for certification", ground arith)
          | inr f ↦ parsed_cases prov _ b g v f refl
        ]
      ]

  -- Before a webhook changes anything, its provider is registered and has accepted the signature of
  -- the payload and parsed it, and no error is forced; the handler then goes on with the parsed
  -- result. Otherwise the request is refused and the store and the history are as they were.
  pub handle_webhook_gate : Refused env req w ⊎ Accepted env req w
  unfolding handle_webhook
  handle_webhook_gate = elim (Bool-cases (trim_space req.provider_id == "")) [
    | inl b ↦ inl (invalid_argument, "provider_id required", ground arith)
    | inr b ↦ elim (Option-cases (get req.provider_id env.registry)) [
      | inl g ↦ inl (invalid_argument, "unknown provider: " <> req.provider_id, ground arith)
      | inr (prov, g) ↦ known_cases prov b g
    ]
  ]
