-- ===== src/Service/Webhook/Authentic.antt =====
-- HandleWebhook with the adapters of Xendit and KOMOJU: who can change anything by a webhook.
use extend_regional_payment.Prelude.{
  ℕ, String, List, ◌==◌, none, some, ◌≡◌, ◌⊎◌, inl, inr, arith, true, false, sym, ap, ◌∙◌,
  true_ne_false, some_inj,
}
use extend_regional_payment.Prelude.Table.{Table}
use extend_regional_payment.Prelude.Text.{trim_space, to_lower}
use extend_regional_payment.Adapter.Http.{text_at}
use extend_regional_payment.Adapter.Hex.{encode}
use extend_regional_payment.Adapter.Provider.{PaymentProvider, get}
use extend_regional_payment.Adapter.Xendit as Xendit
use extend_regional_payment.Adapter.Xendit.Webhooks as XenditWebhooks
use extend_regional_payment.Adapter.Xendit.Provider.{xendit_provider}
use extend_regional_payment.Adapter.Komoju as Komoju
use extend_regional_payment.Adapter.Komoju.Webhooks as KomojuWebhooks
use extend_regional_payment.Adapter.Komoju.Provider.{komoju_provider}
use extend_regional_payment.Service.World.{World, Env}
use extend_regional_payment.Service.Webhook.{WebhookRequest}
use extend_regional_payment.Service.Webhook.Gate.{Refused, handle_webhook_gate}

-- A Xendit webhook without the callback token, or a KOMOJU one without the HMAC of its payload.
abbrev pub Unsigned : PaymentProvider → List ℕ → Table String → Type 0
Unsigned p raw_body headers =
    ((api : Xendit.Api) × (p ≡ xendit_provider api)
      × ((trim_space (text_at "x-callback-token" headers) == api.cfg.callback_token) ≡ false))
    ⊎ ((api : Komoju.Api) × (p ≡ komoju_provider api)
        × ((to_lower api.lower_rune (trim_space (text_at "x-komoju-signature" headers))
              == encode (api.hmac_sha256 api.cfg.webhook_secret raw_body))
            ≡ false))

xendit_rejects :
    (api : Xendit.Api) (raw_body : List ℕ) (headers : Table String)
    → XenditWebhooks.validate_webhook_signature api raw_body headers ≡ none
    → (trim_space (text_at "x-callback-token" headers) == api.cfg.callback_token) ≡ true
unfolding XenditWebhooks.validate_webhook_signature
xendit_rejects api raw_body headers e = ground arith

komoju_rejects :
    (api : Komoju.Api) (raw_body : List ℕ) (headers : Table String)
    → KomojuWebhooks.validate_webhook_signature api raw_body headers ≡ none
    → (to_lower api.lower_rune (trim_space (text_at "x-komoju-signature" headers))
        == encode (api.hmac_sha256 api.cfg.webhook_secret raw_body))
      ≡ true
unfolding KomojuWebhooks.validate_webhook_signature
komoju_rejects api raw_body headers e = ground arith

not_accepted :
    (p : PaymentProvider) (raw_body : List ℕ) (headers : Table String)
    → Unsigned p raw_body headers
    → p.validate_webhook_signature raw_body headers ≡ none
    → ⊥
unfolding xendit_provider komoju_provider
not_accepted p raw_body headers (inl (api, same, unsigned)) e = true_ne_false (
    sym (
      xendit_rejects api raw_body headers
        (sym (ap (λ q. q.validate_webhook_signature raw_body headers) same) ∙ e))
    ∙ unsigned)
not_accepted p raw_body headers (inr (api, same, unsigned)) e = true_ne_false (
    sym (
      komoju_rejects api raw_body headers
        (sym (ap (λ q. q.validate_webhook_signature raw_body headers) same) ∙ e))
    ∙ unsigned)

-- A webhook for Xendit without the configured callback token in its header, and one for KOMOJU whose
-- header is not the hex HMAC of the payload under the webhook's secret, in either case of its letters,
-- is refused, and the store and the history are as they were.
pub handle_webhook-Unsigned :
    (env : Env) (req : WebhookRequest) (w : World) (p : PaymentProvider)
    → get req.provider_id env.registry ≡ some p
    → Unsigned p req.raw_payload req.headers
    → Refused env req w
handle_webhook-Unsigned env req w p known unsigned = elim (handle_webhook_gate env req w) [
  | inl refused ↦ refused
  | inr (q, result, g, accepted, _, _, _) ↦ absurd (
      not_accepted p req.raw_payload req.headers unsigned (
        ap (λ r. r.validate_webhook_signature req.raw_payload req.headers)
          (some_inj (sym known ∙ g))
        ∙ accepted))
]
