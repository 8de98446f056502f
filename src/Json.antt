-- ===== src/Json.antt =====
-- `JSON.stringify` of the tuples that the packages sign (ECMAScript, "SerializeJSONProperty"): null,
-- numbers that are non-negative integers, texts, arrays and objects. The UTF-8 bytes of the text are not
-- spelled out: stringify escapes lone surrogates, so text and bytes determine one another.
use thaddeus.Prelude.{
  ℕ, zero, suc, ◌+◌, ◌-◌, ◌/◌, ◌%◌, ◌≡◌, refl, Bool, true, false, ◌&&◌, List, [], ◌∷◌, ◌++◌, Str,
  text, if◌then◌else◌, ltb, leb, nat_eq, length,
}

mutual
  pub data Json : Type 0 where
    null : Json
    num : ℕ → Json
    str : Str → Json
    arr : Jsons → Json
    obj : Fields → Json

  pub data Jsons : Type 0 where
    nil : Jsons
    cons : Json → Jsons → Jsons

  pub data Fields : Type 0 where
    end : Fields
    field : Str → Json → Fields → Fields

abbrev pub strs : List Str → Jsons
strs [] = nil
strs (s ∷ ss) = cons (str s) (strs ss)

-- Decimal digits; a number has at most as many digits as it has units, plus one.
decimal_from : ℕ → ℕ → Str → Str
decimal_from zero n acc = acc
decimal_from (suc f) n acc =
    let more = decimal_from f (n / 10) ((48 + n % 10) ∷ acc) in
    if ltb n 10 then (48 + n) ∷ acc else more

unfoldable pub decimal : ℕ → Str
unfolding decimal_from
decimal n = decimal_from (suc n) n []

zeros : ℕ → Str → Str
zeros zero s = s
zeros (suc n) s = 48 ∷ zeros n s

-- `String(n).padStart(width, '0')`
unfoldable pub pad : ℕ → ℕ → Str
unfolding zeros decimal
pad n width = zeros (width - length (decimal n)) (decimal n)

hex_digit : ℕ → ℕ
hex_digit d = if ltb d 10 then 48 + d else 87 + d

-- `\uXXXX`
unicode_escape : ℕ → Str
unfolding hex_digit
unicode_escape c =
    92
    ∷ 117
    ∷ hex_digit (c / 4096 % 16)
    ∷ hex_digit (c / 256 % 16)
    ∷ hex_digit (c / 16 % 16)
    ∷ hex_digit (c % 16)
    ∷ []

is_high : ℕ → Bool
is_high c = leb 0xd800 c && leb c 0xdbff

is_low : ℕ → Bool
is_low c = leb 0xdc00 c && leb c 0xdfff

starts_low : Str → Bool
unfolding is_low
starts_low [] = false
starts_low (c ∷ s) = is_low c

-- One unit that is no half of a surrogate pair.
quote_unit : ℕ → Str
unfolding unicode_escape is_high is_low
quote_unit c =
    if nat_eq c 8
    then 92 ∷ 98 ∷ []
    else if nat_eq c 9
    then 92 ∷ 116 ∷ []
    else if nat_eq c 10
    then 92 ∷ 110 ∷ []
    else if nat_eq c 12
    then 92 ∷ 102 ∷ []
    else if nat_eq c 13
    then 92 ∷ 114 ∷ []
    else if nat_eq c 34
    then 92 ∷ 34 ∷ []
    else if nat_eq c 92
    then 92 ∷ 92 ∷ []
    else if ltb c 32
    then unicode_escape c
    else if is_high c
    then unicode_escape c
    else if is_low c
    then unicode_escape c
    else c ∷ []

-- `paired`: the unit before opened a surrogate pair that this one closes.
quote_from : Bool → Str → Str
unfolding quote_unit starts_low is_high
quote_from paired [] = 34 ∷ []
quote_from true (c ∷ s) = c ∷ quote_from false s
quote_from false (c ∷ s) =
    let opens = is_high c && starts_low s in
    (if opens then c ∷ [] else quote_unit c) ++ quote_from opens s

mutual
  unfolding quote_from decimal

  stringify_value : Json → Str
  stringify_value null = text "null"
  stringify_value (num n) = decimal n
  stringify_value (str s) = 34 ∷ quote_from false s
  stringify_value (arr js) = 91 ∷ stringify_first js
  stringify_value (obj fs) = 123 ∷ stringify_fields fs

  stringify_first : Jsons → Str
  stringify_first nil = 93 ∷ []
  stringify_first (cons j js) = stringify_value j ++ stringify_rest js

  stringify_rest : Jsons → Str
  stringify_rest nil = 93 ∷ []
  stringify_rest (cons j js) = 44 ∷ stringify_value j ++ stringify_rest js

  stringify_fields : Fields → Str
  stringify_fields end = 125 ∷ []
  stringify_fields (field k j fs) =
      34 ∷ quote_from false k ++ 58 ∷ stringify_value j ++ stringify_more fs

  stringify_more : Fields → Str
  stringify_more end = 125 ∷ []
  stringify_more (field k j fs) =
      44 ∷ 34 ∷ quote_from false k ++ 58 ∷ stringify_value j ++ stringify_more fs

-- Two lowercase hexadecimal digits for each byte: `bytesToHex`.
unfoldable pub bytes_to_hex : List ℕ → Str
unfolding hex_digit
bytes_to_hex [] = []
bytes_to_hex (b ∷ bs) = hex_digit (b / 16 % 16) ∷ hex_digit (b % 16) ∷ bytes_to_hex bs

unfoldable pub stringify : Json → Str
unfolding stringify_value stringify_first stringify_rest stringify_fields stringify_more
stringify j = stringify_value j

stringify_sample :
    stringify (
      arr (
        cons
          (str (text "a\"b"))
          (cons (num 120) (cons null (cons (arr (strs (text "x" ∷ []))) nil)))))
    ≡ text "[\"a\\\"b\",120,null,[\"x\"]]"
unfolding stringify
stringify_sample = refl
