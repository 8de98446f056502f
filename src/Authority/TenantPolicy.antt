-- ===== src/Authority/TenantPolicy.antt =====
-- packages/authority/src/policy.ts: who administers a tenant and who holds what.
use thaddeus.Prelude.{
  ℕ, ◌&&◌, not, Option, none, some, List, [], ◌∷◌, Str, text, ◌==◌, if◌then◌else◌, nat_eq, length,
  all, find, member, unique, sort, lt_str,
}
use thaddeus.Json.{Json, Jsons, num, str, arr, obj, nil, cons, end, field, strs}
use thaddeus.Authority.{Grant, canonical_grants}
use thaddeus.Authority.Wire.{Engine, Outcome, ok, refused, ◌>>=◌, ◌>>◌, assure, malformed, is_did}
use thaddeus.Authority.Proof.{
  PrincipalKind, Proof, HolderKey, kind_text, is_tenant, grants_json, policy_domain, sign_proof,
}

pub record PolicyMember : Type 0 where
  pub subject : Str
  pub kind : PrincipalKind
  pub grants : List Grant

pub record PolicyBody : Type 0 where
  pub admins : List Str
  pub members : List PolicyMember

pub record TenantPolicy : Type 0 where
  pub body : PolicyBody
  pub open body use *
  pub tenant : Str
  pub version : ℕ
  pub changed_by : Option Str
  pub changed_at : ℕ

pub record PolicyChange : Type 0 where
  pub service : Str
  pub tenant : Str
  pub admin : Str
  pub expected_version : ℕ
  pub policy : PolicyBody

-- `members.sort((a, b) => byCodeUnit(a.subject, b.subject))`
insert_member : PolicyMember → List PolicyMember → List PolicyMember
insert_member m [] = m ∷ []
insert_member m (n ∷ ns) = if lt_str n.subject m.subject then n ∷ insert_member m ns else m ∷ n ∷ ns

unfoldable pub sort_members : List PolicyMember → List PolicyMember
unfolding insert_member
sort_members [] = []
sort_members (m ∷ ms) = insert_member m (sort_members ms)

module _ (e : Engine) where
  -- The members in order; `seen` holds the subjects before.
  unfoldable pub check_members : List Str → List PolicyMember → Option (List PolicyMember)
  check_members seen [] = some []
  check_members seen (m ∷ ms) =
      let rest = check_members (m.subject ∷ seen) ms in
      if is_did e m.subject && not (member m.subject seen)
      then elim (canonical_grants m.grants) [
        | none ↦ none
        | some gs ↦ elim rest [ none ↦ none | some out ↦ some (record m { grants = gs } ∷ out) ]
      ]
      else none

  unfoldable pub canonical_policy_body : PolicyBody → Outcome PolicyBody
  unfolding sort_members check_members
  canonical_policy_body b = do
    assure (not (nat_eq (length b.admins) 0)) malformed
    assure (all (is_did e) b.admins) malformed
    elim (check_members [] b.members) [
      | none ↦ refused malformed
      | some ms ↦ ok (record { admins = sort (unique b.admins); members = sort_members ms })
    ]

  members_json : List PolicyMember → Jsons
  members_json [] = nil
  members_json (m ∷ ms) =
      cons
        (obj (
          field (text "subject") (str m.subject) (
            field (text "kind") (str (kind_text m.kind))
              (field (text "grants") (arr (grants_json m.grants)) end))))
        (members_json ms)

  unfoldable pub policy_change_body : PolicyChange → Outcome Json
  unfolding members_json canonical_policy_body grants_json
  policy_change_body c = do
    assure (is_tenant c.tenant) malformed
    b ← canonical_policy_body c.policy
    ok (
        arr (
          cons (str c.service) (
            cons (str c.tenant) (
              cons (str c.admin) (
                cons (num c.expected_version) (
                  cons
                    (obj (
                      field (text "admins") (arr (strs b.admins))
                        (field (text "members") (arr (members_json b.members)) end)))
                    nil))))))

  unfoldable pub prove_change_policy : HolderKey → PolicyChange → ℕ → Str → Outcome Proof
  unfolding policy_change_body sign_proof
  prove_change_policy admin change now nonce = do
    body ← policy_change_body change
    ok (sign_proof e admin policy_domain body now nonce)

unfoldable pub member_of : TenantPolicy → Str → Option PolicyMember
member_of p subject = find (λ m. m.subject == subject) p.members
