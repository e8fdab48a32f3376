-- ===== src/Adapter/Generic/Calls.antt =====
-- internal/adapter/generic/generic.go: New, doRequest, and the status mappings.
use Prim.Native.Char.{Char}
use extend_regional_payment.Prelude.{
  String, List, [], ◌∷◌, ◌++◌, Bool, true, false, Option, none, some, not, ◌&&◌, ◌||◌, ◌==◌, ◌<>◌,
  if◌then◌else◌,
}
use extend_regional_payment.Prelude.Text.{to_upper}
use extend_regional_payment.Prelude.Table.{has_key}
use extend_regional_payment.Prelude.Found.{Found, found, failed}
use extend_regional_payment.Adapter.Types.{PaymentStatus, CancelStatus}
use extend_regional_payment.Adapter.Effects.{History}
use extend_regional_payment.Adapter.Http.{HttpRequest, HttpResponse, is_success}
use extend_regional_payment.Adapter.Generic.{Config, Api}

-- The templates that New parses: each one with the name of its variable.
abbrev templates : Config → List (String × String)
templates cfg =
    ("CREATE_INTENT_BODY_TEMPLATE", cfg.create_intent_body_template)
    ∷ ("REFUND_BODY_TEMPLATE", cfg.refund_body_template)
    ∷ ((if cfg.status_url_template == ""
          then []
          else ("STATUS_URL_TEMPLATE", cfg.status_url_template) ∷ [])
        ++ (if cfg.cancel_url_template == ""
            then []
            else ("CANCEL_URL_TEMPLATE", cfg.cancel_url_template)
              ∷ (if cfg.cancel_body_template == ""
                  then []
                  else ("CANCEL_BODY_TEMPLATE", cfg.cancel_body_template) ∷ [])))

-- The first template that does not parse.
parse_templates :
    (String → Option String) → (prefix : String) → List (String × String) → Option String
parse_templates parse_error prefix [] = none
parse_templates parse_error prefix ((variable, template) ∷ rest) =
    let later = parse_templates parse_error prefix rest in
    elim (parse_error template) [
      | some e ↦ some (prefix <> variable <> ": invalid template: " <> e)
      | none ↦ later
    ]

unfoldable pub new_adapter : (Char → Char) → (String → Option String) → Config → Found Config
unfolding parse_templates
new_adapter upper_rune parse_error cfg =
    let named = if cfg.display_name == "" then cfg.name else cfg.display_name in
    elim (parse_templates parse_error ("GENERIC_" <> to_upper upper_rune cfg.name <> "_")
      (templates cfg)) [ some e ↦ failed e | none ↦ found (record cfg { display_name = named }) ]

unfoldable pub map_status : Config → String → PaymentStatus
map_status cfg value =
    if value == cfg.status_success_value
    then PaymentStatus.success
    else if value == cfg.status_pending_value
    then PaymentStatus.pending
    else if not (cfg.status_refund_value == "") && (value == cfg.status_refund_value)
    then PaymentStatus.refunded
    else if has_key value cfg.status_failed_values
    then PaymentStatus.failed
    else PaymentStatus.pending

unfoldable pub map_webhook_status : Config → String → PaymentStatus
map_webhook_status cfg value =
    if value == cfg.webhook_success_status_value
    then PaymentStatus.success
    else if value == cfg.webhook_failed_status_value
    then PaymentStatus.failed
    else PaymentStatus.pending

unfoldable pub matches_any : String → List String → Bool
matches_any value [] = false
matches_any value (candidate ∷ values) = (value == candidate) || matches_any value values

is_empty : List String → Bool
is_empty [] = true
is_empty (x ∷ xs) = false

unfoldable pub map_cancel_status : Config → String → CancelStatus
unfolding is_empty
map_cancel_status cfg value =
    if matches_any value cfg.cancel_success_values
    then CancelStatus.canceled
    else if matches_any value cfg.cancel_expired_values
    then CancelStatus.expired
    else if matches_any value cfg.cancel_paid_values
    then CancelStatus.already_paid
    else if matches_any value cfg.cancel_pending_values
    then CancelStatus.pending
    else if (value == "") && is_empty cfg.cancel_success_values
    then CancelStatus.canceled
    else CancelStatus.failed

module _ (api : Api) where
  unfoldable pub new_request : (method url body : String) → HttpRequest
  new_request method url body = record {
    method = method;
    url = url;
    headers =
        (api.cfg.auth_header, api.cfg.auth_value)
        ∷ (if body == "" then [] else ("Content-Type", "application/json") ∷ []);
    body = if body == "" then none else some body;
  }

  unfoldable pub read_reply : HttpResponse → Found String
  read_reply response = elim (response.read_at_most 1048576) [
    | failed e ↦ failed e
    | found text ↦
        if is_success response.status_code
        then found text
        else failed ("provider returned HTTP " <> api.decimal response.status_code <> ": " <> text)
  ]

  -- Each method sends one request at most.
  unfoldable pub do_request : History → (method url body : String) → Found String
  do_request h method url body = elim (api.send h [] (new_request method url body)) [
    | failed e ↦ failed e
    | found response ↦ read_reply response
  ]
