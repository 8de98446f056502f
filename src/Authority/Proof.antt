-- ===== src/Authority/Proof.antt =====
-- packages/authority/src/proof.ts: what a holder signs for one request. Timestamps are natural numbers.
use thaddeus.Prelude.{
  ℕ, Bool, true, false, ◌&&◌, ◌||◌, not, Option, none, some, List, [], ◌∷◌, Str, text, leb, nat_eq,
  length, all, member, unique, sort,
}
use thaddeus.Json.{Json, Jsons, null, num, str, arr, obj, nil, cons, end, field, strs}
use thaddeus.Log.Op.{max_safe}
use thaddeus.Authority.{Grant, all_scopes, is_name, is_pattern}
use thaddeus.Authority.Wire.{
  Engine, Outcome, ok, refused, ◌>>◌, assure, malformed, bad_proof, signed_bytes, digest,
  verify_did, from_base64url,
}
use thaddeus.Authority.Wire.Base64.{base64url}

pub data PrincipalKind : Type 0 where
  human agent worker : PrincipalKind

pub record Proof : Type 0 where
  pub timestamp : ℕ
  pub nonce : Str
  pub signature : Str

-- Anything that signs as a did:key.
pub record HolderKey : Type 0 where
  pub did : Str
  pub sign : Str → List ℕ

pub record Action : Type 0 where
  pub scope : Str
  pub tenant : Str
  pub repo : Str
  pub paths : List Str
  pub digest : Option Str

pub record IssueRequest : Type 0 where
  pub service : Str
  pub tenant : Str
  pub principal : Str
  pub subject : Str
  pub kind : PrincipalKind
  pub grants : List Grant
  pub ttl_ms : Option ℕ

pub data RevokeTarget : Type 0 where
  credential did : Str → RevokeTarget

pub record RevokeRequest : Type 0 where
  pub service : Str
  pub tenant : Str
  pub actor : Str
  pub target : RevokeTarget

-- /^[a-z0-9][a-z0-9-]{0,62}$/
is_slug_start : ℕ → Bool
is_slug_start c = leb 97 c && leb c 122 || leb 48 c && leb c 57

unfoldable pub is_tenant : Str → Bool
unfolding is_slug_start
is_tenant [] = false
is_tenant (c ∷ s) =
    is_slug_start c && all (λ d. is_slug_start d || nat_eq d 45) s && leb (length s) 62

abbrev pub action_domain : Str
action_domain = text "thaddeus.authority.action.v1"

abbrev pub issue_domain : Str
issue_domain = text "thaddeus.authority.issue.v1"

abbrev pub revoke_domain : Str
revoke_domain = text "thaddeus.authority.revoke.v1"

abbrev pub policy_domain : Str
policy_domain = text "thaddeus.authority.policy.v1"

abbrev pub kind_text : PrincipalKind → Str
kind_text human = text "human"
kind_text agent = text "agent"
kind_text worker = text "worker"

unfoldable pub grants_json : List Grant → Jsons
grants_json [] = nil
grants_json (g ∷ gs) =
    cons
      (obj (
        field (text "repo") (str g.repo) (
          field (text "scopes") (arr (strs g.scopes))
            (field (text "paths") (arr (strs g.paths)) end))))
      (grants_json gs)

-- The checks of `canonicalAction`; the length of a text counts code units.
unfoldable pub is_action : Action → Bool
unfolding is_tenant is_name is_pattern
is_action a =
    member a.scope all_scopes
    && is_tenant a.tenant
    && is_name a.repo
    && not (nat_eq (length a.paths) 0)
    && leb (length a.paths) 10000
    && all is_pattern a.paths
    && elim a.digest [ none ↦ true | some d ↦ leb (length d) 256 ]

unfoldable pub canonical_action : Action → Outcome Action
canonical_action a = do
  assure (is_action a) malformed
  ok (record a { paths = sort (unique a.paths) })

module _ (e : Engine) where
  unfoldable pub token_digest : Str → Str
  token_digest token = digest e (text "thaddeus.authority.token.v1") token

  -- `actionBody` of an action that is canonical already.
  unfoldable pub action_body : Str → Action → Json
  unfolding token_digest
  action_body token a = arr (
      cons (str (token_digest token)) (
        cons (str a.scope) (
          cons (str a.tenant) (
            cons (str a.repo) (
              cons (arr (strs a.paths))
                (cons (str (elim a.digest [ none ↦ [] | some d ↦ d ])) nil))))))

  -- `issueBody`, given the canonical grants.
  unfoldable pub issue_body : IssueRequest → List Grant → Json
  unfolding grants_json
  issue_body r grants = arr (
      cons (str r.service) (
        cons (str r.tenant) (
          cons (str r.principal) (
            cons (str r.subject) (
              cons (str (kind_text r.kind)) (
                cons (arr (grants_json grants))
                  (cons (elim r.ttl_ms [ none ↦ null | some t ↦ num t ]) nil)))))))

  target_json : RevokeTarget → Json
  target_json (credential c) = obj (field (text "credential") (str (token_digest c)) end)
  target_json (did d) = obj (field (text "did") (str d) end)

  unfoldable pub revoke_body : RevokeRequest → Json
  unfolding target_json
  revoke_body r = arr (
      cons (str r.service)
        (cons (str r.tenant) (cons (str r.actor) (cons (target_json r.target) nil))))

  proof_bytes : Str → Json → ℕ → Str → Str
  proof_bytes domain body timestamp nonce =
      signed_bytes domain (arr (cons body (cons (num timestamp) (cons (str nonce) nil))))

  -- `signProof`, given the time and the nonce.
  unfoldable pub sign_proof : HolderKey → Str → Json → ℕ → Str → Proof
  unfolding proof_bytes
  sign_proof key domain body timestamp nonce = record {
    timestamp = timestamp;
    nonce = nonce;
    signature = base64url (key.sign (proof_bytes domain body timestamp nonce));
  }

  unfoldable pub proof_form : Proof → Bool
  proof_form p =
      leb p.timestamp max_safe && not (nat_eq (length p.nonce) 0) && leb (length p.nonce) 128

  unfoldable pub check_proof_signature : Str → Str → Json → Proof → Outcome (Unit {0})
  unfolding proof_form proof_bytes
  check_proof_signature who domain body p = do
    assure (proof_form p) bad_proof
    elim (from_base64url p.signature) [
      | none ↦ refused bad_proof
      | some sig ↦
          assure (verify_did e who (proof_bytes domain body p.timestamp p.nonce) sig) bad_proof
    ]
