-- ===== src/Authority/ServiceHead.antt =====
-- packages/authority/src/head.ts: the records of a shared view that the service signs, and the claims by
-- which actors vouch for one.
use thaddeus.Prelude.{
  ℕ, Bool, false, Option, none, some, List, [], ◌∷◌, Str, text, ◌==◌, all, keep, map, sort,
}
use thaddeus.Json.{Json, Jsons, null, num, str, arr, nil, cons, strs}
use thaddeus.Authority.Wire.{
  Engine, Outcome, refused, ◌>>◌, assure, invalid_claim, signed_bytes, verify_did, from_base64url,
}
use thaddeus.Authority.Wire.Base64.{base64url}
use thaddeus.Authority.Proof.{PrincipalKind, HolderKey, kind_text}

pub record HeadContent : Type 0 where
  pub tenant : Str
  pub repo : Str
  pub view : Str
  pub version : ℕ
  pub previous : Option Str
  pub revision : Str
  pub paths : List Str

pub record ActorClaim : Type 0 where
  pub did : Str
  pub signature : Str

pub record RequestedBy : Type 0 where
  pub principal : Str
  pub subject : Str
  pub kind : PrincipalKind
  pub credential : Str

pub record UnsignedHead : Type 0 where
  pub content : HeadContent
  pub open content use *
  pub service : Str
  pub at : ℕ
  pub policy_version : ℕ
  pub requested_by : RequestedBy
  pub actor_claims : List ActorClaim

-- `v` is 1 in every record that the model holds.
pub record ServiceHeadRecord : Type 0 where
  pub unsigned : UnsignedHead
  pub open unsigned use *
  pub id : Str
  pub signature : Str

pub record Attribution : Type 0 where
  pub recorded_by : Str
  pub requested_by : RequestedBy
  pub signed_by : List Str

abbrev actor_claim_domain : Str
actor_claim_domain = text "thaddeus.authority.actor-claim.v1"

abbrev head_domain : Str
head_domain = text "thaddeus.authority.head.v1"

unfoldable pub content_tuple : HeadContent → Json
content_tuple c = arr (
    cons (str c.tenant) (
      cons (str c.repo) (
        cons (str c.view) (
          cons (num c.version) (
            cons (elim c.previous [ none ↦ null | some p ↦ str p ])
              (cons (str c.revision) (cons (arr (strs (sort c.paths))) nil)))))))

unfoldable pub actor_claim_bytes : HeadContent → Str
unfolding content_tuple
actor_claim_bytes c = signed_bytes actor_claim_domain (content_tuple c)

unfoldable pub sign_actor_claim : HolderKey → HeadContent → ActorClaim
sign_actor_claim actor c = record {
  did = actor.did;
  signature = base64url (actor.sign (actor_claim_bytes c));
}

claims_json : List ActorClaim → Jsons
claims_json [] = nil
claims_json (c ∷ cs) = cons (arr (cons (str c.did) (cons (str c.signature) nil))) (claims_json cs)

unfoldable pub head_bytes : UnsignedHead → Str
unfolding content_tuple claims_json
head_bytes h = signed_bytes head_domain (
    arr (
      cons (num 1) (
        cons (str h.service) (
          cons (num h.at) (
            cons (num h.policy_version) (
              cons (content_tuple h.content) (
                cons
                  (arr (
                    cons (str h.requested_by.principal) (
                      cons (str h.requested_by.subject) (
                        cons (str (kind_text h.requested_by.kind))
                          (cons (str h.requested_by.credential) nil)))))
                  (cons (arr (claims_json h.actor_claims)) nil))))))))

module _ (e : Engine) where
  unfoldable pub verify_actor_claim : HeadContent → ActorClaim → Bool
  verify_actor_claim c claim = elim (from_base64url claim.signature) [
    | none ↦ false
    | some sig ↦ verify_did e claim.did (actor_claim_bytes c) sig
  ]

  unfoldable pub head_id : UnsignedHead → Str
  head_id h = e.blake3_hex (head_bytes h)

  unfoldable pub verify_head_record : ServiceHeadRecord → Str → Outcome (Unit {0})
  unfolding head_id verify_actor_claim
  verify_head_record r service = do
    assure (r.service == service) invalid_claim
    assure (r.id == head_id r.unsigned) invalid_claim
    elim (from_base64url r.signature) [
      | none ↦ refused invalid_claim
      | some sig ↦ assure (verify_did e service (head_bytes r.unsigned) sig) invalid_claim
    ]
    assure (all (verify_actor_claim r.content) r.actor_claims) invalid_claim

  unfoldable pub describe_attribution : ServiceHeadRecord → Attribution
  unfolding verify_actor_claim
  describe_attribution r = record {
    recorded_by = r.service;
    requested_by = r.requested_by;
    signed_by = map (λ claim. claim.did) (keep (verify_actor_claim r.content) r.actor_claims);
  }
