-- ===== src/Agent.antt =====
-- packages/agent: signed delegations, the registry that enforces them, and the policy that gates a
-- landing by them. Spend is counted in whole units. The clock is the argument `now`, in milliseconds,
-- and stands still during a call.
pub mod Registry
pub mod Policy
use thaddeus.Prelude.{
  ℕ, ◌+◌, Bool, true, false, ◌&&◌, ◌||◌, not, Option, none, some, List, [], ◌∷◌, ◌++◌, Str, text,
  ◌==◌, if◌then◌else◌, nat_eq, length, any,
}
use thaddeus.Json.{Json, Jsons, num, str, arr, nil, cons, strs, stringify}
use thaddeus.Identity.{Crypto, Identity, signature_holds, sign}
use thaddeus.Log.Op.{is_empty}

pub record DelegationFields : Type 0 where
  pub agent : Str
  pub paths : List Str
  pub max_changes : ℕ
  pub max_spend : ℕ
  pub max_changes_per_hour : Option ℕ

pub record Delegation : Type 0 where
  pub fields : DelegationFields
  pub open fields use *
  pub operator : Str
  pub sig : List ℕ

abbrev delegation_domain : Str
delegation_domain = text "thaddeus.delegation.v1"

-- Whether `assertCanonical` returns.
unfoldable pub assert_canonical : DelegationFields → Str → Bool
unfolding is_empty
assert_canonical f operator =
    not (is_empty operator)
    && not (is_empty f.agent)
    && not (nat_eq (length f.paths) 0)
    && not (any is_empty f.paths)

rate_json : Option ℕ → Jsons
rate_json none = nil
rate_json (some n) = cons (num n) nil

unfoldable pub signed_tuple : DelegationFields → Str → Json
unfolding rate_json
signed_tuple f operator = arr (
    cons (str delegation_domain) (
      cons (str operator) (
        cons (str f.agent) (
          cons (arr (strs f.paths)) (
            cons (num f.max_changes)
              (cons (num f.max_spend) (rate_json f.max_changes_per_hour)))))))

unfoldable pub canonical_delegation : DelegationFields → Str → Option Str
canonical_delegation f operator =
    if assert_canonical f operator then some (stringify (signed_tuple f operator)) else none

module _ (c : Crypto) where
  unfoldable pub sign_delegation : DelegationFields → Identity → Option Delegation
  sign_delegation f operator = elim (canonical_delegation f operator.public.did) [
    | none ↦ none
    | some bytes ↦
        some (record { fields = f; operator = operator.public.did; sig = sign c operator bytes })
  ]

  unfoldable pub verify_delegation : Delegation → Bool
  verify_delegation d = elim (canonical_delegation d.fields d.operator) [
    | none ↦ false
    | some bytes ↦ signature_holds c d.operator bytes d.sig
  ]
