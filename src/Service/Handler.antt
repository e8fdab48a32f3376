-- ===== src/Service/Handler.antt =====
-- Handlers: actions that stop at the first failure, as the code does by `return nil, err`; and the
-- steps that many handlers begin with.
use extend_regional_payment.Prelude.{String, ◌==◌, Bool, true, false, Option, none, some, List, ◌∷◌}
use extend_regional_payment.Prelude.{if◌then◌else◌}
use extend_regional_payment.Prelude.Table.{Table, lookup}
use extend_regional_payment.Model.{Transaction}
use extend_regional_payment.Store.Types.{StoreError, Result, ok, err, error_text}
use extend_regional_payment.Store.Memory.{find_by_id}
use extend_regional_payment.Service.World.{World, Env, M}
use extend_regional_payment.Service.Reply.{
  Code, unauthenticated, internal, unknown, Reply, reply, fail,
}

abbrev pub Handler : Type 0 → Type 0
Handler A = M (Reply A)

abbrev pub next : {A B : Type 0} → Reply A × World → (A → Handler B) → Reply B × World
next (reply a, w) f = f a w
next (fail c m, w) f = (fail c m, w)

infixl 5 ◌>>=◌ ◌>>◌
abbrev pub ◌>>=◌ : {A B : Type 0} → Handler A → (A → Handler B) → Handler B
◌>>=◌ m f w = next (m w) f

abbrev pub ◌>>◌ : {A B : Type 0} → Handler A → Handler B → Handler B
◌>>◌ m k w = next (m w) (λ _. k)

abbrev pub done : {A : Type 0} → A → Handler A
done a w = (reply a, w)

abbrev pub reject : {A : Type 0} → Code → String → Handler A
reject c m w = (fail c m, w)

abbrev pub lift : {A : Type 0} → M A → Handler A
lift m w = let (a, w') = m w in (reply a, w')

-- `if bad { return nil, status.Error(c, m) }`
abbrev pub refuse_if : Bool → Code → String → Handler (Unit {0})
refuse_if true c m w = (fail c m, w)
refuse_if false c m w = (reply tt, w)

-- What FromIncomingContext gives: the metadata of the call, if there is any.
abbrev pub Context : Type 0
Context = Option (Table (List String))

-- `vals := md.Get(key)` with the test `len(vals) > 0 && vals[0] != ""`.
first_value : Option (List String) → Option String
first_value (some (v ∷ rest)) = if v == "" then none else some v
first_value _ = none

from_bearer : Env → Option (List String) → Option String
from_bearer env (some (v ∷ rest)) =
    if env.bearer_user_id v == "" then none else some (env.bearer_user_id v)
from_bearer env _ = none

abbrev or_else : Option String → Option String → Option String
or_else none other = other
or_else (some v) other = some v

unfoldable pub user_id_from_context : Env → Context → Option String
unfolding first_value from_bearer
user_id_from_context env none = none
user_id_from_context env (some md) =
    or_else (first_value (lookup "x-auth-user-id" md))
      (or_else (first_value (lookup "userid" md)) (from_bearer env (lookup "authorization" md)))

abbrev identified : Option String → Handler String
identified none = reject unauthenticated "missing user identity"
identified (some user_id) = done user_id

abbrev pub require_user : Env → Context → Handler String
require_user env ctx = identified (user_id_from_context env ctx)

abbrev pub loaded : Result Transaction → Handler Transaction
loaded (ok tx) = done tx
loaded (err StoreError.not_found) = reject Code.not_found "transaction not found"
loaded (err _) = reject internal "failed to retrieve transaction"

-- FindByID with the two errors that the handlers make of its own.
abbrev pub load : String → Handler Transaction
load id w = loaded (find_by_id id w.store) w

abbrev reloaded : Result Transaction → Handler Transaction
reloaded (ok tx) = done tx
reloaded (err e) = reject unknown (error_text e)

-- FindByID whose error is returned as it is.
abbrev pub reload : String → Handler Transaction
reload id w = reloaded (find_by_id id w.store) w
