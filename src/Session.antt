-- ===== src/Session.antt =====
-- internal/checkout/session.go: the sessions of the hosted checkout page. The lock is held through
-- each operation; uuid.New gives the id of a new session, and `now` is what time.Now returns.
pub mod Lifetime
use extend_regional_payment.Prelude.{ℕ, ◌-◌, ◌*◌, String, Bool, true, false}
use extend_regional_payment.Prelude.{Option, none, some, List, [], ◌∷◌, ltb, if◌then◌else◌}
use extend_regional_payment.Prelude.Int.{ℤ}
use extend_regional_payment.Prelude.Table.{Table, lookup, insert}
use extend_regional_payment.Model.{Time}

pub record Session : Type 0 where
  pub id : String
  pub transaction_id : String
  pub user_id : String
  pub description : String
  pub item_name : String
  pub item_id : String
  pub quantity : ℤ
  pub unit_price : ℤ
  pub total_price : ℤ
  pub currency_code : String
  pub region_code : String
  pub expires_at : Time

abbrev pub Sessions : Type 0
Sessions = Table Session

abbrev pub day : Time
day = 24 * 3600000000000

unfoldable pub create : (new_id : String) → Session → Sessions → String × Sessions
create new_id sess s = (new_id, insert new_id (record sess { id = new_id }) s)

-- Expired sessions too.
unfoldable pub get : String → Sessions → Option Session
get id s = lookup id s

abbrev if_not_expired : Time → Option Session → Option Session
if_not_expired now none = none
if_not_expired now (some sess) = if ltb sess.expires_at now then none else some sess

unfoldable pub get_valid_for_selection : Time → String → Sessions → Option Session
get_valid_for_selection now id s = if_not_expired now (lookup id s)

-- Whether a sweep removes a session. A time before the zero time is after nothing.
abbrev pub is_stale : Time → Session → Bool
is_stale now sess = ltb sess.expires_at (now - day)

unfoldable pub sweep : Time → Sessions → Sessions
sweep now [] = []
sweep now ((id, sess) ∷ s) =
    let rest = sweep now s in if is_stale now sess then rest else (id, sess) ∷ rest

-- What requests and the ticker do to the sessions.
pub data Event : Type 0 where
  created : (new_id : String) → Session → Event
  swept : (now : Time) → Event

unfoldable pub after : Event → Sessions → Sessions
unfolding create sweep
after (created new_id sess) s = (create new_id sess s).1
after (swept now) s = sweep now s

unfoldable pub after_all : List Event → Sessions → Sessions
unfolding after
after_all [] s = s
after_all (e ∷ es) s = after_all es (after e s)
