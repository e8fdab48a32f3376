-- ===== src/Adapter/Http.antt =====
-- What the adapters use of net/http. The client is a parameter: what a request is answered may
-- depend on the calls of the services before it and on the requests of the same method before it.
use extend_regional_payment.Prelude.{
  ℕ, String, Bool, List, Option, none, some, ◌&&◌, ◌||◌, ltb, leb,
}
use extend_regional_payment.Prelude.Table.{Table, lookup}
use extend_regional_payment.Prelude.Found.{Found}
use extend_regional_payment.Adapter.Effects.{History}

pub record HttpRequest : Type 0 where
  pub method : String
  pub url : String
  pub headers : Table String
  pub body : Option String

-- `read_all` is what io.ReadAll gets from the body, and `read_at_most n` what it gets through an
-- io.LimitReader of n bytes: a text, or the text of the reader's error.
pub record HttpResponse : Type 0 where
  pub status_code : ℕ
  pub read_all : Found String
  pub read_at_most : ℕ → Found String

-- The requests that a method has made so far, the last one at the end.
abbrev pub Requests : Type 0
Requests = List HttpRequest

-- http.NewRequestWithContext and Client.Do: the adapters return an error of either as it is.
abbrev pub Send : Type 0
Send = History → Requests → HttpRequest → Found HttpResponse

-- resp.StatusCode < 200 || resp.StatusCode >= 300, negated.
abbrev pub is_success : ℕ → Bool
is_success code = leb 200 code && ltb code 300

-- http.StatusUnauthorized or http.StatusForbidden
abbrev pub is_denied : ℕ → Bool
is_denied code = (leb 401 code && leb code 401) || (leb 403 code && leb code 403)

-- `m[key]` of a map of texts: the empty text where the key is missing.
abbrev pub text_at : String → Table String → String
text_at key m = elim (lookup key m) [ none ↦ "" | some value ↦ value ]
