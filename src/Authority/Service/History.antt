-- ===== src/Authority/Service/History.antt =====
-- packages/authority/src/authority.ts: `head` and `advance`. The record of a version is created only
-- where none is, and the cache holds the newest one that was seen.
use thaddeus.Prelude.{
  leb, ℕ, suc, Bool, true, false, ◌&&◌, Option, none, some, Str, List, [], ◌∷◌, ◌++◌, text, ◌==◌,
  if◌then◌else◌, nat_eq, all, keep, get_last?, sort, unique,
}
use thaddeus.Prelude.Dict.{get, put, has, keys, remove}
use thaddeus.Json.{pad}
use thaddeus.Identity.{starts_with}
use thaddeus.Log.Op.{max_safe}
use thaddeus.Authority.{is_name, is_path}
use thaddeus.Authority.Wire.{
  Engine, Outcome, ok, refused, broken, ◌>>◌, assure, malformed, scope_denied, stale_head,
  invalid_claim,
}
use thaddeus.Authority.Wire.Base64.{base64url}
use thaddeus.Authority.Proof.{is_tenant}
use thaddeus.Authority.ServiceHead.{
  HeadContent, ActorClaim, UnsignedHead, ServiceHeadRecord, head_bytes, head_id, verify_actor_claim,
  verify_head_record,
}
use thaddeus.Authority.Service.{
  AuthorityOptions, Service, Answer, at_heads, history_advance, base_of, audited, checked, then_do,
  did, policy_of, reaches,
}
use thaddeus.Authority.Service.Issuing.{name_key}
use thaddeus.Authority.Service.Use.{Authorization, check}

pub record AdvanceInput : Type 0 where
  pub view : Str
  pub expected_version : Option ℕ
  pub revision : Str
  pub changed_paths : List Str
  pub actor_claims : List ActorClaim

unfoldable pub same_version : Option ℕ → Option ℕ → Bool
same_version none none = true
same_version (some a) (some b) = nat_eq a b
same_version _ _ = false

-- `null`, or a safe integer.
abbrev pub is_version : Option ℕ → Bool
is_version none = true
is_version (some n) = leb n max_safe

module _ (o : AuthorityOptions) (e : Engine) where
  unfoldable pub head_prefix : Str → Str → Str → Str
  head_prefix tenant repo view = tenant ++ 47 ∷ name_key e repo ++ 47 ∷ name_key e view ++ 47 ∷ []

  unfoldable pub head_key : Str → ℕ → Str
  head_key prefix version = prefix ++ pad version 12

  -- The record that the backend holds under the newest key.
  unfoldable pub newest_key : Service → Str → Option Str
  newest_key s prefix = get_last? (sort (keep (λ k. starts_with k prefix) (keys s.backend.heads)))

  unfoldable pub read_newest : Service → Str → Option (Str × ServiceHeadRecord)
  unfolding newest_key
  read_newest s prefix = elim (newest_key s prefix) [
    | none ↦ none
    | some key ↦ elim (get s.backend.heads key) [ none ↦ none | some r ↦ some (key, r) ]
  ]

  -- A genuine record of another view, or under another version's key, is refused.
  unfoldable pub check_stored : Str → Str → Str → Str × ServiceHeadRecord → Outcome (Unit {0})
  unfolding head_prefix head_key
  check_stored tenant repo view (key, r) = do
    verify_head_record e r (did o)
    assure
        ((r.tenant == tenant)
          && (r.repo == repo)
          && (r.view == view)
          && (head_key (head_prefix tenant repo view) r.version == key))
        invalid_claim

  -- `head`, past the checks of the names.
  unfoldable pub load_head : Str → Str → Str → Service → Answer (Option ServiceHeadRecord)
  unfolding head_prefix read_newest check_stored
  load_head tenant repo view s =
      let prefix = head_prefix tenant repo view in
      elim (get s.heads prefix) [
        | some cached ↦ (ok cached, s)
        | none ↦ elim (read_newest s prefix) [
          | none ↦ (ok none, record s { heads = put s.heads prefix none })
          | some x ↦
              checked (check_stored tenant repo view x) s
                (λ _. (ok (some x.1), record s { heads = put s.heads prefix (some x.1) }))
        ]
      ]

  unfoldable pub head : Str → Str → Str → Service → Answer (Option ServiceHeadRecord)
  unfolding load_head
  head tenant repo view s =
      checked (assure (is_tenant tenant && is_name repo && is_name view) malformed) s
        (λ _. load_head tenant repo view s)

  -- The next record's content.
  unfoldable pub next_content :
      Authorization → AdvanceInput → List Str → Option ServiceHeadRecord → HeadContent
  next_content a i changed tip = record {
    tenant = a.claims.tenant;
    repo = a.action.repo;
    view = i.view;
    version = elim tip as (λ _. ℕ) [ none ↦ 0 | some t ↦ suc t.version ];
    previous = elim tip as (λ _. Option Str) [ none ↦ none | some t ↦ some t.id ];
    revision = i.revision;
    paths = changed;
  }

  unfoldable pub sign_head :
      ℕ → Authorization → ℕ → List ActorClaim → HeadContent → ServiceHeadRecord
  sign_head now a policy_version claims c =
      let h : UnsignedHead = record {
        content = c;
        service = did o;
        at = now;
        policy_version = policy_version;
        requested_by = record {
          principal = a.claims.principal;
          subject = a.claims.subject;
          kind = a.claims.kind;
          credential = a.claims.id;
        };
        actor_claims = claims;
      } in
      record {
        unsigned = h;
        id = head_id e h;
        signature = base64url (o.signer.sign (head_bytes h));
      }

  -- A record that is created, and cached.
  unfoldable pub write_head : ServiceHeadRecord → Service → Service
  unfolding head_prefix head_key
  write_head r s =
      let prefix = head_prefix r.tenant r.repo r.view in
      record s {
        heads = put s.heads prefix (some r);
        backend = record (s.backend) { heads = put s.backend.heads (head_key prefix r.version) r };
      }

  unfoldable pub forget_head : ServiceHeadRecord → Service → Service
  unfolding head_prefix
  forget_head r s = record s { heads = remove s.heads (head_prefix r.tenant r.repo r.view) }

  -- `#create`, and the cache.
  unfoldable pub store_head : ServiceHeadRecord → Service → Answer ServiceHeadRecord
  unfolding head_prefix head_key
  store_head r s =
      if o.put_fails at_heads (head_key (head_prefix r.tenant r.repo r.view) r.version) s.backend
      then (broken, s)
      else if has s.backend.heads (head_key (head_prefix r.tenant r.repo r.view) r.version)
      then (refused stale_head, forget_head r s)
      else (ok r, write_head r s)

  -- What follows the load of the view's tip.
  unfoldable pub extend :
      ℕ
      → Authorization
      → AdvanceInput
      → List Str
      → Option ServiceHeadRecord
      → Service
      → Answer ServiceHeadRecord
  unfolding same_version next_content sign_head store_head policy_of
  extend now a i changed tip s =
      let current = elim tip as (λ _. Option ℕ) [ none ↦ none | some t ↦ some t.version ] in
      checked
        (do
          assure (same_version i.expected_version current) stale_head
          assure (all (verify_actor_claim e (next_content a i changed tip)) i.actor_claims)
              invalid_claim
          policy_of s a.claims.tenant)
        s
        (λ p.
          store_head (sign_head now a p.version i.actor_claims (next_content a i changed tip)) s)

  unfoldable pub advance_in_lock :
      ℕ → Authorization → AdvanceInput → List Str → Service → Answer ServiceHeadRecord
  unfolding extend
  advance_in_lock now a i changed s =
      checked (do assure (all (reaches a.action.paths) changed) scope_denied; check o e now a s) s
        (λ _.
          then_do (head a.claims.tenant a.action.repo i.view s)
            (λ tip s'. extend now a i changed tip s'))

  unfoldable pub advance : ℕ → Authorization → AdvanceInput → Service → Answer ServiceHeadRecord
  unfolding advance_in_lock
  advance now a i s =
      checked
        (do
          assure (a.action.scope == text "integrate") scope_denied
          assure (is_name i.view && is_name i.revision) malformed
          assure (is_version i.expected_version) malformed
          assure (all is_path i.changed_paths) malformed)
        s
        (λ _.
          let changed = sort (unique i.changed_paths) in
          audited o now
            (record (base_of a.claims history_advance (some a.action)) {
              scope = some (text "integrate");
              paths = some changed;
            })
            (λ _ b. b) true (advance_in_lock now a i changed s))
