-- ===== src/Adapter/Hex.antt =====
-- What the adapters use of encoding/hex, and the bytes of a text.

use Prim.Native.Char.{Char, code}
use Prim.Native.String.{char_at}
use extend_regional_payment.Prelude.{
  ℕ, ◌+◌, ◌-◌, ◌*◌, ◌/◌, ◌%◌, ◌≡◌, refl, String, Bool, true, false, ◌&&◌, List, [], ◌∷◌, ◌++◌,
  Option, none, some, leb, ltb, if◌then◌else◌,
}

-- []byte(s): UTF-8.
char_bytes : ℕ → List ℕ
char_bytes n =
    if ltb n 128
    then n ∷ []
    else if ltb n 2048
    then (192 + n / 64) ∷ (128 + n % 64) ∷ []
    else if ltb n 65536
    then (224 + n / 4096) ∷ (128 + n / 64 % 64) ∷ (128 + n % 64) ∷ []
    else (240 + n / 262144) ∷ (128 + n / 4096 % 64) ∷ (128 + n / 64 % 64) ∷ (128 + n % 64) ∷ []

unfoldable pub bytes_of : String → List ℕ
unfolding char_bytes
bytes_of String.[] = []
bytes_of (String.◌∷◌ c s) = char_bytes (code c) ++ bytes_of s

-- subtle.ConstantTimeCompare(a, b) == 1
unfoldable pub same_bytes : List ℕ → List ℕ → Bool
same_bytes [] [] = true
same_bytes (a ∷ xs) (b ∷ ys) = leb a b && leb b a && same_bytes xs ys
same_bytes _ _ = false

digit : ℕ → Char
digit n = char_at "0123456789abcdef" n

-- hex.EncodeToString
unfoldable pub encode : List ℕ → String
unfolding digit
encode [] = String.[]
encode (b ∷ bs) = String.◌∷◌ (digit (b / 16)) (String.◌∷◌ (digit (b % 16)) (encode bs))

-- The value of a digit in either case.
digit_value : ℕ → Option ℕ
digit_value n =
    if leb 48 n && leb n 57
    then some (n - 48)
    else if leb 97 n && leb n 102
    then some (n - 87)
    else if leb 65 n && leb n 70
    then some (n - 55)
    else none

-- The byte of two digits before the bytes that are decoded already.
push_byte : Option ℕ → Option ℕ → Option (List ℕ) → Option (List ℕ)
push_byte (some a) (some b) (some bs) = some ((a * 16 + b) ∷ bs)
push_byte _ _ _ = none

-- hex.DecodeString: `none` where it returns an error.
unfoldable pub decode : String → Option (List ℕ)
unfolding push_byte digit_value
decode String.[] = some []
decode (String.◌∷◌ c String.[]) = none
decode (String.◌∷◌ c (String.◌∷◌ d s)) =
    push_byte (digit_value (code c)) (digit_value (code d)) (decode s)

encoded : encode (0 ∷ 171 ∷ 255 ∷ []) ≡ "00abff"
unfolding encode
encoded = refl

decoded : decode "00aBff" ≡ some (0 ∷ 171 ∷ 255 ∷ [])
unfolding decode
decoded = refl

odd : decode "00a" ≡ none
unfolding decode
odd = refl

two_bytes : bytes_of "aé€" ≡ 97 ∷ 195 ∷ 169 ∷ 226 ∷ 130 ∷ 172 ∷ []
unfolding bytes_of
two_bytes = refl
