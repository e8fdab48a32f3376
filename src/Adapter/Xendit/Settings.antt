-- ===== src/Adapter/Xendit/Settings.antt =====
-- internal/adapter/xendit/config.go: the configuration from the environment, which is a table;
-- os.Getenv gives the empty text for a variable that is not set.
use Prim.Native.Char.{Char}
use Prim.Native.String.{char_at}
use extend_regional_payment.Prelude.{String, List, Option, none, some, ◌==◌, ◌<>◌, if◌then◌else◌}
use extend_regional_payment.Prelude.Table.{Table, has_key}
use extend_regional_payment.Prelude.Text.{code_set, trim_space, to_upper, trim_right_of}
use extend_regional_payment.Prelude.Found.{Found, found, failed}
use extend_regional_payment.Adapter.Http.{text_at}
use extend_regional_payment.Adapter.Xendit.{Config}

unfoldable pub get_env : Table String → (key fallback : String) → String
get_env environment key fallback =
    let v = text_at key environment in if v == "" then fallback else v

unfoldable pub normalize_code : (Char → Char) → String → String
normalize_code upper_rune value = to_upper upper_rune (trim_space value)

unfoldable pub parse_code_set : (Char → Char) → String → List String
parse_code_set upper_rune raw = code_set upper_rune raw

config_of : (Char → Char) → Table String → (secret callback_token : String) → Config
config_of upper_rune environment secret callback_token = record {
  provider_id = get_env environment "XENDIT_PROVIDER_ID" "provider_xendit";
  display_name = get_env environment "XENDIT_DISPLAY_NAME" "Xendit";
  secret_api_key = secret;
  callback_token = callback_token;
  api_base_url =
      trim_right_of (char_at "/" 0)
        (get_env environment "XENDIT_API_BASE_URL" "https://api.xendit.co");
  default_country = normalize_code upper_rune (get_env environment "XENDIT_DEFAULT_COUNTRY" "ID");
  allowed_countries =
      parse_code_set upper_rune
        (get_env environment "XENDIT_ALLOWED_COUNTRIES" "ID,PH,VN,TH,SG,MY,HK,MX");
  allowed_currencies = parse_code_set upper_rune (
      get_env environment "XENDIT_ALLOWED_CURRENCIES"
        "IDR,PHP,VND,THB,SGD,MYR,USD,HKD,AUD,GBP,EUR,JPY,MXN");
}

-- `found none` is the pair (nil, nil): the adapter is not configured. `quote` is %q.
unfoldable pub load :
    (quote : String → String) → (Char → Char) → Table String → Found (Option Config)
unfolding config_of
load quote upper_rune environment =
    let secret = text_at "XENDIT_SECRET_API_KEY" environment in
    let callback_token = text_at "XENDIT_CALLBACK_TOKEN" environment in
    let cfg = config_of upper_rune environment secret callback_token in
    if secret == ""
    then found none
    else if callback_token == ""
    then failed "XENDIT_CALLBACK_TOKEN is required when XENDIT_SECRET_API_KEY is set"
    else if has_key cfg.default_country cfg.allowed_countries
    then found (some cfg)
    else failed (
        "XENDIT_DEFAULT_COUNTRY "
        <> quote cfg.default_country
        <> " must be included in XENDIT_ALLOWED_COUNTRIES")
