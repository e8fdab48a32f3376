-- ===== src/Prelude/Text.antt =====
-- What the program uses of Go's package strings.
use Prim.Native.Nat.{ℕ, ◌-◌}
use Prim.Native.Char.{Char, code}
use Prim.Native.String.{String, char_at, find, len, slice, ◌++◌ as ◌<>◌}
use text.Mathlib.Text.{starts_with, ◌==◌}
use mathlib.Core.Path.{◌≡◌, refl}
use mathlib.Core.Bool.{Bool, true, false, ◌&&◌, ◌||◌}
use mathlib.Core.List.{List, [], ◌∷◌}
use extend_regional_payment.Prelude.Table.{has_key}
use extend_regional_payment.Prelude.Tests.{leb, if◌then◌else◌}

abbrev between : ℕ → ℕ → ℕ → Bool
between lo hi n = leb lo n && leb n hi

-- unicode.IsSpace: the characters with the property White_Space.
is_space : Char → Bool
is_space c =
    between 9 13 n
    || between 32 32 n
    || between 133 133 n
    || between 160 160 n
    || between 5760 5760 n
    || between 8192 8202 n
    || between 8232 8233 n
    || between 8239 8239 n
    || between 8287 8287 n
    || between 12288 12288 n
  where
    n : ℕ
    n = code c

trim_left : String → String
trim_left String.[] = String.[]
trim_left (String.◌∷◌ c s) = let rest = trim_left s in if is_space c then rest else String.◌∷◌ c s

-- The character before an already trimmed rest.
before_trimmed : Char → String → String
before_trimmed c String.[] = if is_space c then String.[] else String.◌∷◌ c String.[]
before_trimmed c (String.◌∷◌ d s) = String.◌∷◌ c (String.◌∷◌ d s)

trim_right : String → String
trim_right String.[] = String.[]
trim_right (String.◌∷◌ c s) = before_trimmed c (trim_right s)

unfoldable pub trim_space : String → String
unfolding trim_left trim_right before_trimmed is_space
trim_space s = trim_right (trim_left s)

-- unicode.ToUpper on a letter of ASCII, and by the given table on a character beyond it.
upper_char : (Char → Char) → Char → Char
upper_char upper_rune c =
    if between 97 122 (code c)
    then char_at "ABCDEFGHIJKLMNOPQRSTUVWXYZ" (code c - 97)
    else if leb (code c) 127
    then c
    else upper_rune c

unfoldable pub to_upper : (Char → Char) → String → String
unfolding upper_char
to_upper upper_rune String.[] = String.[]
to_upper upper_rune (String.◌∷◌ c s) = String.◌∷◌ (upper_char upper_rune c) (to_upper upper_rune s)

-- unicode.ToLower, as `upper_char`.
lower_char : (Char → Char) → Char → Char
lower_char lower_rune c =
    if between 65 90 (code c)
    then char_at "abcdefghijklmnopqrstuvwxyz" (code c - 65)
    else if leb (code c) 127
    then c
    else lower_rune c

unfoldable pub to_lower : (Char → Char) → String → String
unfolding lower_char
to_lower lower_rune String.[] = String.[]
to_lower lower_rune (String.◌∷◌ c s) = String.◌∷◌ (lower_char lower_rune c) (to_lower lower_rune s)

-- The character at the front of the first part.
push_char : Char → List String → List String
push_char c [] = String.◌∷◌ c String.[] ∷ []
push_char c (part ∷ parts) = String.◌∷◌ c part ∷ parts

-- The parts between the characters whose codes pass the test, the empty ones included.
unfoldable pub split_where : (ℕ → Bool) → String → List String
unfolding push_char
split_where is_separator String.[] = String.[] ∷ []
split_where is_separator (String.◌∷◌ c s) =
    let parts = split_where is_separator s in
    if is_separator (code c) then String.[] ∷ parts else push_char c parts

-- strings.Split by one character, which is given by its code.
unfoldable pub split : ℕ → String → List String
split separator s = split_where (between separator separator) s

unfoldable pub join : String → List String → String
join separator [] = ""
join separator (part ∷ []) = part
join separator (part ∷ next ∷ parts) = part <> separator <> join separator (next ∷ parts)

-- The character before what is left of the text behind it.
before_rest : Char → Char → String → String
before_rest mark c String.[] =
    if between (code mark) (code mark) (code c) then String.[] else String.◌∷◌ c String.[]
before_rest mark c (String.◌∷◌ d s) = String.◌∷◌ c (String.◌∷◌ d s)

-- strings.TrimRight with a cutset of one character.
unfoldable pub trim_right_of : Char → String → String
unfolding before_rest
trim_right_of mark String.[] = String.[]
trim_right_of mark (String.◌∷◌ c s) = before_rest mark c (trim_right_of mark s)

-- strings.Trim with a cutset of one character.
unfoldable pub trim_of : Char → String → String
trim_of mark String.[] = String.[]
trim_of mark (String.◌∷◌ c s) =
    let rest = trim_of mark s in
    if between (code mark) (code mark) (code c) then rest else trim_right_of mark (String.◌∷◌ c s)

-- The codes among the parts, trimmed and in upper case, each one once and the last one first.
add_codes : (Char → Char) → List String → List String → List String
add_codes upper_rune codes [] = codes
add_codes upper_rune codes (part ∷ parts) =
    let code = to_upper upper_rune (trim_space part) in
    let added = add_codes upper_rune (code ∷ codes) parts in
    let skipped = add_codes upper_rune codes parts in
    if (code == "") || has_key code codes then skipped else added

unfoldable pub code_set : (Char → Char) → String → List String
unfolding add_codes
code_set upper_rune raw = add_codes upper_rune [] (split 44 raw)

-- The text, or the given one where it is empty.
abbrev pub or_default : String → String → String
or_default value fallback = if value == "" then fallback else value

-- strings.Contains
abbrev pub contains : String → String → Bool
contains s t = leb (find s t) (len s)

-- strings.TrimPrefix
abbrev pub trim_prefix : String → String → String
trim_prefix s prefix = if starts_with s prefix then slice s (len prefix) (len s) else s

trimmed : trim_space "  a b  " ≡ "a b"
unfolding trim_space
trimmed = refl

raised : to_upper (λ c. c) "us-Ab1" ≡ "US-AB1"
unfolding to_upper
raised = refl

lowered : to_lower (λ c. c) "CaPtured" ≡ "captured"
unfolding to_lower
lowered = refl

parts : split 44 "a,,b" ≡ "a" ∷ "" ∷ "b" ∷ []
unfolding split split_where
parts = refl

joined : join "," ("a" ∷ "b" ∷ "c" ∷ []) ≡ "a,b,c"
unfolding join
joined = refl

slashes : trim_right_of (char_at "/" 0) "https://x//" ≡ "https://x"
unfolding trim_right_of
slashes = refl

stripped : trim_prefix "$.data.id" "$." ≡ "data.id"
stripped = refl

found_within : contains "PAID,payment" "payment" ≡ true
found_within = refl

not_within : contains "PAID" "payment" ≡ false
not_within = refl
