-- ===== src/Adapter/Komoju/Settings.antt =====
-- internal/adapter/komoju/config.go: the configuration from the environment. The environment is a
-- table; os.Getenv gives the empty text for a variable that is not set.
use Prim.Native.Char.{Char}
use Prim.Native.String.{char_at}
use extend_regional_payment.Prelude.{String, List, Option, none, some, ◌==◌, ◌||◌, if◌then◌else◌}
use extend_regional_payment.Prelude.Table.{Table}
use extend_regional_payment.Prelude.Text.{code_set, trim_space, to_lower, trim_right_of}
use extend_regional_payment.Prelude.Found.{Found, found, failed}
use extend_regional_payment.Adapter.Http.{text_at}
use extend_regional_payment.Adapter.Komoju.{Config}

unfoldable pub get_env : Table String → (key fallback : String) → String
get_env environment key fallback =
    let v = trim_space (text_at key environment) in if v == "" then fallback else v

unfoldable pub parse_code_set : (Char → Char) → String → List String
parse_code_set upper_rune raw = code_set upper_rune raw

unfoldable pub normalize_locale : (Char → Char) → String → String
normalize_locale lower_rune value =
    let locale = to_lower lower_rune (trim_space value) in
    if (locale == "ja") || (locale == "en") || (locale == "ko") then locale else "en"

-- `found none` is the pair (nil, nil): the adapter is not configured.
unfoldable pub load : (upper_rune lower_rune : Char → Char) → Table String → Found (Option Config)
load upper_rune lower_rune environment =
    let secret = trim_space (text_at "KOMOJU_SECRET_KEY" environment) in
    let webhook_secret = trim_space (text_at "KOMOJU_WEBHOOK_SECRET" environment) in
    if secret == ""
    then found none
    else if webhook_secret == ""
    then failed "KOMOJU_WEBHOOK_SECRET is required when KOMOJU_SECRET_KEY is set"
    else found (
        some (record {
          provider_id = get_env environment "KOMOJU_PROVIDER_ID" "provider_komoju";
          display_name = get_env environment "KOMOJU_DISPLAY_NAME" "KOMOJU";
          secret_key = secret;
          webhook_secret = webhook_secret;
          api_version = get_env environment "KOMOJU_API_VERSION" "2025-01-28";
          api_base_url =
              trim_right_of (char_at "/" 0)
                (get_env environment "KOMOJU_BASE_URL" "https://komoju.com");
          default_locale =
              normalize_locale lower_rune (get_env environment "KOMOJU_DEFAULT_LOCALE" "en");
          allowed_currencies = parse_code_set upper_rune (
              get_env environment "KOMOJU_ALLOWED_CURRENCIES"
                "JPY,USD,EUR,TWD,KRW,PLN,GBP,HKD,SGD,NZD,AUD,IDR,MYR,PHP,THB,CNY,BRL,CHF,CAD,VND");
        }))
