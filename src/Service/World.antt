-- ===== src/Service/World.antt =====
-- What the services act on: the store, the history of calls to the outside and the cooldown map of
-- PublicService, with the action monad; and what they are given: the configuration, the registry, AGS and the clock.
use extend_regional_payment.Prelude.{ℕ, ◌+◌, ◌-◌, ◌*◌, suc, String, Bool, true, false}
use extend_regional_payment.Prelude.{Option, none, some, [], ◌∷◌, ◌++◌}
use extend_regional_payment.Prelude.Int.{ℤ, pos, negsuc}
use extend_regional_payment.Prelude.Table.{Table}
use extend_regional_payment.Model.{Time, Transaction}
use extend_regional_payment.Store.Memory.{Store}
use extend_regional_payment.Adapter.Effects.{Effect, History}
use extend_regional_payment.Adapter.Provider.{Registry}
use extend_regional_payment.Service.Reply.{Code}

pub record World : Type 0 where
  pub store : Store
  pub history : History
  pub last_seen : Table Time

-- internal/config/config.go, the fields that the services read.
pub record Config : Type 0 where
  pub ab_namespace : String
  pub public_base_url : String
  pub base_path : String
  pub payment_expiry_default : ℕ
  pub record_retention_days : ℤ
  pub max_concurrent_intent_per_user : ℤ
  pub public_sync_cooldown : ℤ
  pub public_sync_default_page_size : ℤ
  pub public_sync_max_page_size : ℤ
  pub max_retries : ℤ
  pub webhook_force_error : Bool

-- FulfillUserItem: the error's text, or `none` for success.
abbrev pub ItemFulfiller : Type 0
ItemFulfiller = History → String → String → String → ℤ → Option String

-- A FulfillmentReverser, and whether it is an ItemFulfiller too.
pub record FulfillmentReverser : Type 0 where
  pub reverse_fulfillment : History → Transaction → Option String
  pub item_fulfiller : Option ItemFulfiller

-- `reverser` is `none` for nil. `status_text` is the Error method of a gRPC status, which is the
-- text that a wrapped status shows. `bearer_user_id` is userIDFromBearer, which reads the claims of
-- a token; it is `""` where there are none.
pub record Env : Type 0 where
  pub cfg : Config
  pub registry : Registry
  pub fulfiller : ItemFulfiller
  pub reverser : Option FulfillmentReverser
  pub clock : World → Time
  pub status_text : Code → String → String
  pub bearer_user_id : String → String

infixl 5 ◌>>=◌ ◌>>◌
abbrev pub M : Type 0 → Type 0
M A = World → A × World

abbrev pub pure : {A : Type 0} → A → M A
pure a w = (a, w)

abbrev pub ◌>>=◌ : {A B : Type 0} → M A → (A → M B) → M B
◌>>=◌ m f w = let (a, w') = m w in f a w'

abbrev pub ◌>>◌ : {A B : Type 0} → M A → M B → M B
◌>>◌ m k w = let (_, w') = m w in k w'

-- One operation of the store.
abbrev pub on_store : {A : Type 0} → (Store → A × Store) → M A
on_store op w = let (a, s) = op w.store in (a, record w { store = s })

abbrev pub read : {A : Type 0} → (Store → A) → M A
read f w = (f w.store, w)

-- A call to the outside, which enters the history.
abbrev pub call : {A : Type 0} → (History → A) → (A → Effect) → M A
call f entry w = let a = f w.history in (a, record w { history = w.history ++ (entry a ∷ []) })

abbrev pub emit : Effect → M (Unit {0})
emit e w = (tt, record w { history = w.history ++ (e ∷ []) })

abbrev pub now : Env → M Time
now env w = (env.clock w, w)

abbrev pub day : ℕ
day = 86_400_000_000_000

abbrev pub minute : ℕ
minute = 60_000_000_000

-- `t.AddDate(0, 0, days)` in UTC.
abbrev pub add_days : Time → ℤ → Time
add_days t (pos n) = t + n * day
add_days t (negsuc n) = t - suc n * day

abbrev pub succeeded : {A : Type 0} → Option A → Bool
succeeded none = true
succeeded (some e) = false
