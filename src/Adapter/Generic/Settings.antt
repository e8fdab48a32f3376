-- ===== src/Adapter/Generic/Settings.antt =====
-- internal/config/config.go: the generic providers of the environment. The environment is a table, and
-- the order of its entries stands for the order of the map of names.
use Prim.Native.Char.{Char, code}
use Prim.Native.String.{len, slice}
use text.Mathlib.Text.{starts_with}
use extend_regional_payment.Prelude.{
  ℕ, ◌-◌, String, List, [], ◌∷◌, Bool, true, Option, none, some, not, ◌&&◌, ◌||◌, ◌==◌, ◌<>◌, leb,
  if◌then◌else◌, map,
}
use extend_regional_payment.Prelude.Table.{Table, has_key}
use extend_regional_payment.Prelude.Text.{
  split_where, trim_space, to_upper, to_lower, trim_prefix, split, join,
}
use extend_regional_payment.Prelude.Found.{Found, found, failed, ◌>>=◌}
use extend_regional_payment.Adapter.Http.{text_at}
use extend_regional_payment.Adapter.Generic.{Config}

unfoldable pub strip_json_path_prefix : String → String
strip_json_path_prefix path = trim_prefix path "$."

unfoldable pub get_env_default : (value fallback : String) → String
get_env_default value fallback = if value == "" then fallback else value

-- The parts that are not empty, trimmed.
given_parts : List String → List String
given_parts [] = []
given_parts (part ∷ parts) =
    let rest = given_parts parts in if trim_space part == "" then rest else trim_space part ∷ rest

unfoldable pub split_csv : String → List String
unfolding given_parts
split_csv raw = if trim_space raw == "" then [] else given_parts (split 44 raw)

is_field_end : ℕ → Bool
is_field_end n = (leb 95 n && leb n 95) || (leb 45 n && leb n 45)

-- A part with its first letter raised; strings.FieldsFunc has dropped the empty ones. The name of a provider is ASCII.
raise_first : (Char → Char) → String → String
raise_first upper_rune String.[] = String.[]
raise_first upper_rune (String.◌∷◌ c s) = to_upper upper_rune (String.◌∷◌ c String.[]) <> s

raised_fields : (Char → Char) → List String → List String
unfolding raise_first
raised_fields upper_rune [] = []
raised_fields upper_rune (part ∷ parts) =
    let rest = raised_fields upper_rune parts in
    if part == "" then rest else raise_first upper_rune part ∷ rest

is_name_char : ℕ → Bool
is_name_char n = (leb 65 n && leb n 90) || (leb 48 n && leb n 57) || (leb 95 n && leb n 95)

all_name_chars : String → Bool
unfolding is_name_char
all_name_chars String.[] = true
all_name_chars (String.◌∷◌ c s) = let rest = all_name_chars s in is_name_char (code c) && rest

-- The regular expression ^GENERIC_([A-Z0-9_]+)_AUTH_HEADER$ and its group.
unfoldable pub generic_name : (variable : String) → Option String
unfolding all_name_chars
generic_name variable =
    let name = slice variable 8 (len variable - 12) in
    if leb 21 (len variable)
      && starts_with variable "GENERIC_"
      && (slice variable (len variable - 12) (len variable) == "_AUTH_HEADER")
      && all_name_chars name
    then some name
    else none

module _ (upper_rune lower_rune : Char → Char) where
  unfoldable pub display_name_from_provider_id : String → String
  unfolding is_field_end raised_fields
  display_name_from_provider_id id = join " " (
      raised_fields upper_rune
        (split_where is_field_end (trim_prefix (to_lower lower_rune (trim_space id)) "provider_")))

  variable_prefix : (name : String) → String
  variable_prefix name = "GENERIC_" <> to_upper upper_rune name <> "_"

  unfoldable pub required : Table String → (name variable : String) → Found String
  unfolding variable_prefix
  required environment name variable =
      let value = text_at (variable_prefix name <> variable) environment in
      if value == ""
      then failed ("required env var " <> variable_prefix name <> variable <> " is not set")
      else found value

  unfoldable pub optional : Table String → (name variable : String) → String
  unfolding variable_prefix
  optional environment name variable = text_at (variable_prefix name <> variable) environment

  -- The secret is required unless the method is NONE.
  unfoldable pub signature_secret : Table String → (name method : String) → Found String
  unfolding variable_prefix
  signature_secret environment name method =
      let secret = optional environment name "WEBHOOK_SIGNATURE_SECRET" in
      if not (to_upper upper_rune method == "NONE") && (secret == "")
      then failed (
          "required env var "
          <> variable_prefix name
          <> "WEBHOOK_SIGNATURE_SECRET is not set (required when method != NONE)")
      else found secret

  unfoldable pub load_generic_provider : Table String → (name : String) → Found Config
  load_generic_provider environment name = do
    auth_header ← required environment name "AUTH_HEADER"
    auth_value ← required environment name "AUTH_VALUE"
    create_url ← required environment name "CREATE_INTENT_URL"
    create_template ← required environment name "CREATE_INTENT_BODY_TEMPLATE"
    payment_url_path ← required environment name "PAYMENT_URL_JSON_PATH"
    tx_id_path ← required environment name "PROVIDER_TX_ID_JSON_PATH"
    method ← required environment name "WEBHOOK_SIGNATURE_METHOD"
    signature_header ← required environment name "WEBHOOK_SIGNATURE_HEADER"
    webhook_tx_id_path ← required environment name "WEBHOOK_TX_ID_JSON_PATH"
    success_path ← required environment name "WEBHOOK_SUCCESS_STATUS_PATH"
    success_value ← required environment name "WEBHOOK_SUCCESS_STATUS_VALUE"
    failed_value ← required environment name "WEBHOOK_FAILED_STATUS_VALUE"
    refund_url ← required environment name "REFUND_URL"
    refund_template ← required environment name "REFUND_BODY_TEMPLATE"
    secret ← signature_secret environment name method
    let opt = optional environment name
    found (record {
      name = name;
      display_name = get_env_default (opt "DISPLAY_NAME") (display_name_from_provider_id name);
      auth_header = auth_header;
      auth_value = auth_value;
      create_intent_url = create_url;
      create_intent_body_template = create_template;
      payment_url_json_path = strip_json_path_prefix payment_url_path;
      qr_code_data_json_path = strip_json_path_prefix (opt "QR_CODE_DATA_JSON_PATH");
      provider_tx_id_json_path = strip_json_path_prefix tx_id_path;
      status_url_template = opt "STATUS_URL_TEMPLATE";
      status_method = get_env_default (opt "STATUS_METHOD") "GET";
      status_payment_status_path = strip_json_path_prefix (opt "STATUS_PAYMENT_STATUS_PATH");
      status_success_value = opt "STATUS_SUCCESS_VALUE";
      status_pending_value = opt "STATUS_PENDING_VALUE";
      status_failed_values =
          if opt "STATUS_FAILED_VALUE" == ""
          then []
          else map trim_space (split 44 (opt "STATUS_FAILED_VALUE"));
      status_refund_value = opt "STATUS_REFUND_VALUE";
      status_refund_amount_path = strip_json_path_prefix (opt "STATUS_REFUND_AMOUNT_PATH");
      status_refund_currency_path = strip_json_path_prefix (opt "STATUS_REFUND_CURRENCY_PATH");
      webhook_signature_method = method;
      webhook_signature_secret = secret;
      webhook_signature_header = to_lower lower_rune signature_header;
      webhook_tx_id_json_path = strip_json_path_prefix webhook_tx_id_path;
      webhook_success_status_path = strip_json_path_prefix success_path;
      webhook_success_status_value = success_value;
      webhook_failed_status_value = failed_value;
      webhook_timestamp_json_path = opt "WEBHOOK_TIMESTAMP_JSON_PATH";
      webhook_timestamp_format = opt "WEBHOOK_TIMESTAMP_FORMAT";
      refund_url = refund_url;
      refund_body_template = refund_template;
      cancel_url_template = opt "CANCEL_URL_TEMPLATE";
      cancel_method = get_env_default (opt "CANCEL_METHOD") "POST";
      cancel_body_template = opt "CANCEL_BODY_TEMPLATE";
      cancel_status_path = strip_json_path_prefix (opt "CANCEL_STATUS_PATH");
      cancel_success_values = split_csv (opt "CANCEL_SUCCESS_VALUES");
      cancel_expired_values = split_csv (opt "CANCEL_EXPIRED_VALUES");
      cancel_paid_values = split_csv (opt "CANCEL_PAID_VALUES");
      cancel_pending_values = split_csv (opt "CANCEL_PENDING_VALUES");
    })

  -- The names that were seen, each once.
  seen_names : Table String → List String
  seen_names [] = []
  seen_names ((variable, value) ∷ rest) =
      let seen = seen_names rest in
      elim (generic_name variable) [
        | none ↦ seen
        | some name ↦
            if has_key (to_lower lower_rune name) seen
            then seen
            else to_lower lower_rune name ∷ seen
      ]

  load_all : (quote : String → String) → Table String → List String → Found (Table Config)
  load_all quote environment [] = found []
  load_all quote environment (name ∷ names) =
      let later = load_all quote environment names in
      elim (load_generic_provider environment name) [
        | failed e ↦ failed ("generic provider " <> quote name <> ": " <> e)
        | found cfg ↦ later >>= λ providers. found ((name, cfg) ∷ providers)
      ]

  unfoldable pub discover_generic_providers :
      (quote : String → String) → Table String → Found (Table Config)
  unfolding seen_names load_all
  discover_generic_providers quote environment = load_all quote environment (seen_names environment)
