-- ===== src/Authority/Wire/Base64.antt =====
-- base64url as `Buffer` has it, without padding (packages/authority/src/codec.ts).
use thaddeus.Prelude.{
  ℕ, ◌+◌, ◌-◌, ◌*◌, ◌/◌, ◌%◌, ◌<◌, ◌≡◌, refl, Bool, true, ◌&&◌, ◌||◌, List, [], ◌∷◌, Str,
  if◌then◌else◌, ltb, leb, nat_eq, all, arith,
}

-- The 64 characters, in order.
unfoldable pub digit64 : ℕ → ℕ
digit64 n =
    if ltb n 26
    then n + 65
    else if ltb n 52
    then n + 71
    else if ltb n 62
    then n - 4
    else if nat_eq n 62
    then 45
    else 95

unfoldable pub value64 : ℕ → ℕ
value64 c =
    if leb 97 c
    then c - 71
    else if nat_eq c 95
    then 63
    else if leb 65 c
    then c - 65
    else if leb 48 c
    then c + 4
    else 62

-- /^[A-Za-z0-9_-]*$/
unfoldable pub is_digit64 : ℕ → Bool
is_digit64 c =
    leb 65 c && leb c 90
    || leb 97 c && leb c 122
    || leb 48 c && leb c 57
    || nat_eq c 95
    || nat_eq c 45

unfoldable pub is_base64url : Str → Bool
unfolding is_digit64
is_base64url t = all is_digit64 t

-- `Buffer.from(bytes).toString('base64url')`
unfoldable pub base64url : List ℕ → Str
unfolding digit64
base64url [] = []
base64url (a ∷ []) = digit64 (a / 4) ∷ digit64 (a % 4 * 16) ∷ []
base64url (a ∷ b ∷ []) = digit64 (a / 4) ∷ digit64 (a % 4 * 16 + b / 16) ∷ digit64 (b % 16 * 4) ∷ []
base64url (a ∷ b ∷ c ∷ bs) =
    digit64 (a / 4)
    ∷ digit64 (a % 4 * 16 + b / 16)
    ∷ digit64 (b % 16 * 4 + c / 64)
    ∷ digit64 (c % 64)
    ∷ base64url bs

-- `Buffer.from(text, 'base64url')` of a text of these characters: bits that fill no byte are dropped.
unfoldable pub buffer_of : Str → List ℕ
unfolding value64
buffer_of [] = []
buffer_of (p ∷ []) = []
buffer_of (p ∷ q ∷ []) = (value64 p * 4 + value64 q / 16) ∷ []
buffer_of (p ∷ q ∷ r ∷ []) =
    (value64 p * 4 + value64 q / 16) ∷ (value64 q % 16 * 16 + value64 r / 4) ∷ []
buffer_of (p ∷ q ∷ r ∷ s ∷ t) =
    (value64 p * 4 + value64 q / 16)
    ∷ (value64 q % 16 * 16 + value64 r / 4)
    ∷ (value64 r % 4 * 64 + value64 s)
    ∷ buffer_of t

-- Every element of the list is a byte.
pub IsBytes : List ℕ → Type 0
IsBytes [] = Unit
IsBytes (b ∷ bs) = (b < 256) × IsBytes bs

value64-digit64 : (n : ℕ) → n < 64 → value64 (digit64 n) ≡ n
unfolding value64 digit64
value64-digit64 n h = ground arith

is_digit64-digit64 : (n : ℕ) → n < 64 → is_digit64 (digit64 n) ≡ true
unfolding is_digit64 digit64
is_digit64-digit64 n h = ground arith

pub buffer_of-base64url : (bs : List ℕ) → IsBytes bs → buffer_of (base64url bs) ≡ bs
unfolding buffer_of base64url IsBytes
buffer_of-base64url [] h = refl
buffer_of-base64url (a ∷ []) h =
    ground (arith, value64-digit64 (a / 4), value64-digit64 (a % 4 * 16))
buffer_of-base64url (a ∷ b ∷ []) h = ground (
  arith,
  value64-digit64 (a / 4),
  value64-digit64 (a % 4 * 16 + b / 16),
  value64-digit64 (b % 16 * 4),
)
buffer_of-base64url (a ∷ b ∷ c ∷ bs) h = ground (
  arith,
  value64-digit64 (a / 4),
  value64-digit64 (a % 4 * 16 + b / 16),
  value64-digit64 (b % 16 * 4 + c / 64),
  value64-digit64 (c % 64),
  buffer_of-base64url bs h.1.1.1,
)

pub is_base64url-base64url : (bs : List ℕ) → IsBytes bs → is_base64url (base64url bs) ≡ true
unfolding is_base64url base64url IsBytes
is_base64url-base64url [] h = refl
is_base64url-base64url (a ∷ []) h =
    ground (arith, is_digit64-digit64 (a / 4), is_digit64-digit64 (a % 4 * 16))
is_base64url-base64url (a ∷ b ∷ []) h = ground (
  arith,
  is_digit64-digit64 (a / 4),
  is_digit64-digit64 (a % 4 * 16 + b / 16),
  is_digit64-digit64 (b % 16 * 4),
)
is_base64url-base64url (a ∷ b ∷ c ∷ bs) h = ground (
  arith,
  is_digit64-digit64 (a / 4),
  is_digit64-digit64 (a % 4 * 16 + b / 16),
  is_digit64-digit64 (b % 16 * 4 + c / 64),
  is_digit64-digit64 (c % 64),
  is_base64url-base64url bs h.1.1.1,
)

pub all-IsBytes : (bs : List ℕ) → all (λ b. ltb b 256) bs ≡ true → IsBytes bs
unfolding IsBytes
all-IsBytes [] h = tt
all-IsBytes (b ∷ bs) h = (ground arith, all-IsBytes bs (ground arith))
