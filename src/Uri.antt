-- ===== src/Uri.antt =====
-- `encodeURIComponent` (ECMAScript, "Encode"): ASCII letters, digits and a few marks stand for
-- themselves, everything else is percent-encoded UTF-8, and a lone surrogate throws.
use thaddeus.Prelude.{
  ℕ, ◌+◌, ◌-◌, ◌*◌, ◌/◌, ◌%◌, Bool, ◌&&◌, ◌||◌, Option, none, some, List, [], ◌∷◌, ◌++◌, Str, text,
  if◌then◌else◌, leb, ltb, nat_eq, any, ◌≡◌, refl,
}

abbrev marks : List ℕ
marks = text "-_.!~*'()"

is_unreserved : ℕ → Bool
is_unreserved c =
    leb 48 c && leb c 57
    || leb 65 c && leb c 90
    || leb 97 c && leb c 122
    || any (λ m. nat_eq m c) marks

hex_digit : ℕ → ℕ
hex_digit d = if ltb d 10 then 48 + d else 55 + d

percent : ℕ → Str
unfolding hex_digit
percent b = 37 ∷ hex_digit (b / 16 % 16) ∷ hex_digit (b % 16) ∷ []

-- The UTF-8 bytes of a code point, percent-encoded.
encode_point : ℕ → Str
unfolding percent
encode_point p =
    if ltb p 0x80
    then percent p
    else if ltb p 0x800
    then percent (0xc0 + p / 64) ++ percent (0x80 + p % 64)
    else if ltb p 0x10000
    then percent (0xe0 + p / 4096) ++ percent (0x80 + p / 64 % 64) ++ percent (0x80 + p % 64)
    else percent (0xf0 + p / 262144)
      ++ percent (0x80 + p / 4096 % 64)
      ++ percent (0x80 + p / 64 % 64)
      ++ percent (0x80 + p % 64)

is_high : ℕ → Bool
is_high c = leb 0xd800 c && leb c 0xdbff

is_low : ℕ → Bool
is_low c = leb 0xdc00 c && leb c 0xdfff

prepend : Str → Option Str → Option Str
prepend s none = none
prepend s (some t) = some (s ++ t)

encode_unit : ℕ → Option Str
unfolding is_unreserved encode_point is_high is_low
encode_unit c =
    if is_unreserved c
    then some (c ∷ [])
    else if is_high c || is_low c
    then none
    else some (encode_point c)

join : Option Str → Option Str → Option Str
unfolding prepend
join none t = none
join (some s) t = prepend s t

unfoldable pub encode_uri_component : Str → Option Str
unfolding encode_unit join prepend encode_point is_high is_low
encode_uri_component [] = some []
encode_uri_component (c ∷ []) = encode_unit c
encode_uri_component (c ∷ d ∷ s) =
    let pair =
      prepend (encode_point (0x10000 + (c - 0xd800) * 1024 + (d - 0xdc00)))
        (encode_uri_component s) in
    let single = join (encode_unit c) (encode_uri_component (d ∷ s)) in
    if is_high c && is_low d then pair else single

encode_sample :
    encode_uri_component (text "a/b é" ++ 0xd83d ∷ 0xde00 ∷ [])
    ≡ some (text "a%2Fb%20%C3%A9%F0%9F%98%80")
unfolding encode_uri_component
encode_sample = refl
