-- ===== src/Log/Head.antt =====
-- packages/log/src/head.ts: owner-signed heads, their chains and the snapshots they stand for.
-- A verdict keeps the rejection code, the index and the id; its message is left out. The `typeof`
-- tests hold of every value of the model's types.
pub mod Snapshot
pub mod Chain
pub mod Pins
pub mod Accepted
pub mod Signing
use thaddeus.Prelude.{
  ℕ, zero, suc, Bool, true, false, ◌&&◌, ◌||◌, not, Option, none, some, List, [], ◌∷◌, ◌++◌,
  reverse, Str, text, ◌==◌, lt_str, member, if◌then◌else◌, leb, ltb, nat_eq, all, find, length,
  get_elem?, ◌≡◌, refl,
}
use thaddeus.Json.{Json, null, num, str, arr, nil, cons, strs, stringify}
use thaddeus.Identity.{Crypto, Identity, signature_holds, sign}
use thaddeus.Log.Op.{Env, is_empty, max_safe}

pub record HeadFields : Type 0 where
  pub repo : Str
  pub view : Str
  pub version : ℕ
  pub previous : Option Str
  pub heads : List Str

pub record HeadRecord : Type 0 where
  pub fields : HeadFields
  pub open fields use *
  pub id : Str
  pub owner : Str
  pub sig : List ℕ

pub data HeadRejectionCode : Type 0 where
  malformed_record bad_signature bad_id wrong_repo wrong_view wrong_owner : HeadRejectionCode
  rollback fork gap broken_previous dropped_heads : HeadRejectionCode
  invalid_operation duplicate_operation missing_operation extra_operation : HeadRejectionCode

pub record Rejection : Type 0 where
  pub code : HeadRejectionCode
  pub index : Option ℕ
  pub id : Option Str

-- A check that goes on with a value, or stops with a rejection.
pub data Checked {ℓ} (A : Type ℓ) : Type ℓ where
  pass : A → Checked A
  reject : Rejection → Checked A

abbrev pub HeadVerification : Type 0
HeadVerification = Checked (Unit {0})

abbrev pub valid : HeadVerification
valid = pass tt

abbrev pub invalid {ℓ} : {A : Type ℓ} → HeadRejectionCode → Checked A
invalid code = reject (record { code = code; index = none; id = none })

abbrev pub invalid_at {ℓ} : {A : Type ℓ} → HeadRejectionCode → ℕ → Checked A
invalid_at code index = reject (record { code = code; index = some index; id = none })

infixl 5 ◌>>=◌ ◌>>◌
abbrev pub ◌>>=◌ {ℓ κ} : {A : Type ℓ} {B : Type κ} → Checked A → (A → Checked B) → Checked B
pass a >>= f = f a
reject r >>= f = reject r

abbrev pub ◌>>◌ {ℓ} : {B : Type ℓ} → HeadVerification → Checked B → Checked B
m >> k = m >>= λ _. k

pub >>=-eq-pass {ℓ κ} :
    {A : Type ℓ} {B : Type κ} (m : Checked A) (f : A → Checked B) {b : B}
    → (m >>= f) ≡ pass b
    → (a : A) × (m ≡ pass a) × (f a ≡ pass b)
>>=-eq-pass (pass a) f h = (a, refl, h)
>>=-eq-pass (reject r) f h = cc

-- `if (!b) return invalid(...)`
abbrev pub require : Bool → HeadVerification → HeadVerification
require true failure = valid
require false failure = failure

-- `return { ...verified, index }`
abbrev pub at_index : ℕ → HeadVerification → HeadVerification
at_index index (pass u) = pass u
at_index index (reject r) = reject (record r { index = some index })

abbrev head_domain : Str
head_domain = text "thaddeus.log.head.v1"

unfoldable pub is_hex : ℕ → Bool
is_hex c = leb 48 c && leb c 57 || leb 97 c && leb c 102

-- /^[0-9a-f]{64}$/
unfoldable pub is_id : Str → Bool
unfolding is_hex
is_id s = nat_eq (length s) 64 && all is_hex s

-- The loop over `fields.heads`; `prior` is the head before.
unfoldable pub heads_canonical : Option Str → List Str → Bool
heads_canonical prior [] = true
heads_canonical none (h ∷ hs) = is_id h && heads_canonical (some h) hs
heads_canonical (some p) (h ∷ hs) = is_id h && lt_str p h && heads_canonical (some h) hs

previous_canonical : ℕ → Option Str → Bool
previous_canonical zero none = true
previous_canonical zero (some p) = false
previous_canonical (suc v) none = false
previous_canonical (suc v) (some p) = is_id p

-- Whether `assertCanonical` returns.
unfoldable pub assert_canonical : HeadFields → Str → Bool
unfolding heads_canonical previous_canonical is_empty
assert_canonical f owner =
    not (is_empty f.repo)
    && not (is_empty f.view)
    && not (is_empty owner)
    && leb f.version max_safe
    && heads_canonical none f.heads
    && previous_canonical f.version f.previous

previous_json : Option Str → Json
previous_json none = null
previous_json (some p) = str p

unfoldable pub signed_tuple : HeadFields → Str → Json
unfolding previous_json
signed_tuple f owner = arr (
    cons (str head_domain) (
      cons (str f.repo) (
        cons (str f.view) (
          cons (num f.version)
            (cons (previous_json f.previous) (cons (arr (strs f.heads)) (cons (str owner) nil)))))))

unfoldable pub canonical_head : HeadFields → Str → Option Str
canonical_head f owner =
    if assert_canonical f owner then some (stringify (signed_tuple f owner)) else none

pub record HeadChainOptions : Type 0 where
  pub repo : Option Str
  pub view : Option Str
  pub owner : Option Str
  pub pins : Option (List HeadRecord)

-- `a ?? b`
abbrev pub or_else {ℓ} : {A : Type ℓ} → Option A → A → A
or_else none b = b
or_else (some a) b = a

-- The repository, view and owner that a chain is bound to.
pub record Binding : Type 0 where
  pub repo : Str
  pub view : Str
  pub owner : Str

abbrev pub binding : HeadChainOptions → HeadRecord → Binding
binding o first = record {
  repo = or_else o.repo first.repo;
  view = or_else o.view first.view;
  owner = or_else o.owner first.owner;
}

-- The link to the record before: its id, and none of its heads dropped.
unfoldable pub check_link : ℕ → Option HeadRecord → HeadRecord → HeadVerification
check_link index none r = valid
check_link index (some p) r = do
  require (elim r.previous [ none ↦ false | some q ↦ q == p.id ]) (invalid_at broken_previous index)
  elim (find (λ h. not (member h r.heads)) p.heads) [
    | none ↦ valid
    | some h ↦ reject (record { code = dropped_heads; index = some index; id = some h })
  ]

module _ (c : Crypto) where
  unfoldable pub head_id : HeadFields → Str → Option Str
  head_id f owner = elim (canonical_head f owner) [
    | none ↦ none
    | some bytes ↦ some (c.blake3_hex bytes)
  ]

  unfoldable pub sign_head : HeadFields → Identity → Option HeadRecord
  sign_head f owner = elim (canonical_head f owner.public.did) [
    | none ↦ none
    | some bytes ↦ some (record {
      fields = f;
      id = c.blake3_hex bytes;
      owner = owner.public.did;
      sig = sign c owner bytes;
    })
  ]

  unfoldable pub verify_head : HeadRecord → HeadVerification
  verify_head r = do
    require (is_id r.id) (invalid malformed_record)
    require (nat_eq (length r.sig) 64) (invalid malformed_record)
    bytes ← elim (canonical_head r.fields r.owner) as (λ _. Checked Str) [
      | none ↦ invalid malformed_record
      | some bytes ↦ pass bytes
    ]
    require (c.blake3_hex bytes == r.id) (invalid bad_id)
    require (signature_holds c r.owner bytes r.sig) (invalid bad_signature)

  -- One turn of the loop over `chain.entries()`.
  unfoldable pub check_record : Binding → ℕ → Option HeadRecord → HeadRecord → HeadVerification
  check_record b index previous r = do
    at_index index (verify_head r)
    require (r.repo == b.repo) (invalid_at wrong_repo index)
    require (r.view == b.view) (invalid_at wrong_view index)
    require (r.owner == b.owner) (invalid_at wrong_owner index)
    require (nat_eq r.version index) (invalid_at gap index)
    check_link index previous r

  unfoldable pub check_chain : Binding → ℕ → Option HeadRecord → List HeadRecord → HeadVerification
  check_chain b index previous [] = valid
  check_chain b index previous (r ∷ rs) = do
    check_record b index previous r
    check_chain b (suc index) (some r) rs

  -- The loop over `prefix.entries()`.
  unfoldable pub check_pins : List HeadRecord → ℕ → List HeadRecord → HeadVerification
  check_pins chain index [] = valid
  check_pins chain index (p ∷ ps) = do
    at_index index (verify_head p)
    elim (get_elem? chain index) [
      | none ↦ invalid rollback
      | some remote ↦ require (remote.id == p.id) (invalid_at fork index)
    ]
    check_pins chain (suc index) ps

  unfoldable pub check_prefix : List HeadRecord → Option (List HeadRecord) → HeadVerification
  unfolding check_pins
  check_prefix chain none = valid
  check_prefix chain (some pins) = do
    require (leb (length pins) (length chain)) (invalid rollback)
    check_pins chain 0 pins

  unfoldable pub verify_head_chain : List HeadRecord → HeadChainOptions → HeadVerification
  verify_head_chain [] o = invalid malformed_record
  verify_head_chain (first ∷ rest) o = do
    check_chain (binding o first) 0 none (first ∷ rest)
    check_prefix (first ∷ rest) o.pins
