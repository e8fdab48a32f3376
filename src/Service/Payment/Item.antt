-- ===== src/Service/Payment/Item.antt =====
-- pkg/service/payment.go: the name, price and currency of an item, from what the item service of AGS
-- says of it.
use extend_regional_payment.Prelude.{String, ◌<>◌, ◌==◌, ◌/◌, Bool, Option, none, some, List, ◌∷◌}
use extend_regional_payment.Prelude.{if◌then◌else◌, suc}
use extend_regional_payment.Prelude.Int.{ℤ, pos, negsuc, sub_ℕ, leb_ℤ}
use extend_regional_payment.Prelude.Text.{trim_space, to_upper}
use extend_regional_payment.Prelude.Table.{Table, lookup}
use extend_regional_payment.Prelude.Found.{Found, found, failed, ◌>>=◌, ◌>>◌}
use extend_regional_payment.Service.World.{World, Env}
use Prim.Native.Char.{Char}

-- The fields that are read of platformclientmodels.RegionDataItem and FullItemInfo.
pub record RegionDataItem : Type 0 where
  pub price : ℤ
  pub currency_code : Option String
  pub currency_type : Option String

pub record FullItemInfo : Type 0 where
  pub name : Option String
  pub region_data : Table (List RegionDataItem)

-- What creating a payment takes from elsewhere: GetItemShort of the item service, `none` for a nil
-- response; uuid.New; returnURLWithTransactionID; strconv.Quote; and unicode.ToUpper beyond ASCII.
pub record Shop : Type 0 where
  pub get_item : World → (namespace item_id : String) → Found (Option FullItemInfo)
  pub new_uuid : World → String
  pub return_url : String → String → String
  pub quote : String → String
  pub upper_rune : Char → Char

pub record ItemDetails : Type 0 where
  pub name : String
  pub unit_price : ℤ
  pub currency_code : String
  pub region_code : String

unfoldable pub normalize_region_code : Shop → String → String
normalize_region_code shop region_code =
    if trim_space region_code == "" then "ID" else to_upper shop.upper_rune (trim_space region_code)

-- `int64(price) / 100`, which rounds towards zero.
abbrev pub hundredth : ℤ → ℤ
hundredth (pos n) = pos (n / 100)
hundredth (negsuc n) = sub_ℕ 0 (suc n / 100)

unfoldable pub normalize_ags_price : Shop → ℤ → String → Found ℤ
normalize_ags_price shop price currency_type =
    let kind = to_upper shop.upper_rune (trim_space currency_type) in
    if kind == "REAL"
    then found (hundredth price)
    else if kind == "VIRTUAL"
    then found price
    else if kind == ""
    then failed "missing currency type"
    else failed ("unsupported currency type " <> shop.quote currency_type)

-- `p != nil`, trimmed, or the empty text.
abbrev pub trimmed_or_empty : Option String → String
trimmed_or_empty none = ""
trimmed_or_empty (some s) = trim_space s

abbrev item_name : String → Option String → String
item_name item_id none = item_id
item_name item_id (some n) = if trim_space n == "" then item_id else trim_space n

-- `items[0]` of the region, if it has any.
abbrev pub first_price : Option (List RegionDataItem) → Option RegionDataItem
first_price (some (item ∷ rest)) = some item
first_price _ = none

abbrev unless : Bool → String → Found (Unit {0})
unless b message = if b then failed message else found tt

-- The error of normalizeAGSPrice, wrapped.
abbrev invalid_price : {A : Type 0} → String → String → Found A → Found A
invalid_price item_id region (found a) = found a
invalid_price item_id region (failed e) = failed (
    "item " <> item_id <> " has invalid price configuration for AGS region " <> region <> ": " <> e)

unfoldable pub priced_item :
    Shop → String → String → FullItemInfo → RegionDataItem → Found ItemDetails
unfolding normalize_ags_price
priced_item shop item_id region resp item = do
  unless (leb_ℤ item.price (pos 0))
      ("item " <> item_id <> " has no positive price configured for AGS region " <> region)
  let currency = trimmed_or_empty item.currency_code
  unless (currency == "")
      ("item " <> item_id <> " has no currency code configured for AGS region " <> region)
  unit_price ←
      invalid_price item_id region
        (normalize_ags_price shop item.price (trimmed_or_empty item.currency_type))
  found (record {
    name = item_name item_id resp.name;
    unit_price = unit_price;
    currency_code = to_upper shop.upper_rune currency;
    region_code = region;
  })

unfoldable pub item_in_region :
    Shop → String → String → FullItemInfo → Option RegionDataItem → Found ItemDetails
unfolding priced_item
item_in_region shop item_id region resp none =
    failed ("item " <> item_id <> " has no price configured for AGS region " <> region)
item_in_region shop item_id region resp (some item) = priced_item shop item_id region resp item

unfoldable pub item_details_from_full_item :
    Shop → String → String → FullItemInfo → Found ItemDetails
unfolding item_in_region normalize_region_code
item_details_from_full_item shop item_id region_code resp =
    let region = normalize_region_code shop region_code in
    item_in_region shop item_id region resp (first_price (lookup region resp.region_data))

item_answer : Shop → String → String → Found (Option FullItemInfo) → Found ItemDetails
item_answer shop item_id region_code (failed e) = failed ("item lookup failed: " <> e)
item_answer shop item_id region_code (found none) = failed ("item not found: " <> item_id)
item_answer shop item_id region_code (found (some resp)) =
    item_details_from_full_item shop item_id region_code resp

unfoldable pub lookup_item_details : Env → Shop → String → String → World → Found ItemDetails
unfolding item_answer
lookup_item_details env shop item_id region_code w =
    item_answer shop item_id region_code (shop.get_item w env.cfg.ab_namespace item_id)
