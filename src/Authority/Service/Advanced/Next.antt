-- ===== src/Authority/Service/Advanced/Next.antt =====
-- What `advance` of packages/authority/src/authority.ts signs, and when.
use mathlib.Core.List.{Memᴰ}
use thaddeus.Prelude.{
  ℕ, suc, ◌≡◌, refl, sym, ap, ◌∙◌, subst, true, false, Option, none, some, List, Str, text,
  all-Memᴰ, any-true, member-Memᴰ, Memᴰ-member, sort, unique, arith,
}
use thaddeus.Prelude.Sorting.{member-sort, member-unique}
use thaddeus.Prelude.Dict.{Dict, get, has}
use thaddeus.Authority.{pattern_covers}
use thaddeus.Authority.Covers.{Covering, covers-Covering}
use thaddeus.Authority.Wire.{Engine, ok}
use thaddeus.Authority.TenantPolicy.{TenantPolicy}
use thaddeus.Authority.ServiceHead.{ActorClaim, ServiceHeadRecord, verify_actor_claim}
use thaddeus.Authority.Service.{
  AuthorityOptions, Service, history_advance, allow, base_of, put_audit, did, reaches,
}
use thaddeus.Authority.Service.Use.{Authorization}
use thaddeus.Authority.Service.History.{
  AdvanceInput, same_version, head_prefix, head_key, head, next_content, sign_head, write_head,
  advance,
}
use thaddeus.Authority.Service.Allowed.{IsAllowed, validate_exact}
use thaddeus.Authority.Service.Advanced.{advance-IsMade}
use thaddeus.Authority.Service.Advanced.Loads.{head-only}

-- What `advance` has checked when it returns `r`, and what `r` says: `tip` was the newest head, `m` the
-- state with it loaded, and `p` the current policy.
pub record IsAdvanced (o : AuthorityOptions) (e : Engine) (now : ℕ) (a : Authorization)
    (i : AdvanceInput) (s t : Service) (r : ServiceHeadRecord) (tip : Option ServiceHeadRecord)
    (m : Service) (p : TenantPolicy) : Type 0 where
  pub scope : a.action.scope ≡ text "integrate"
  pub covered :
      (path : Str)
      → Memᴰ path i.changed_paths
      → (pattern : Str) × Memᴰ pattern a.action.paths × Covering pattern path
  pub allowed : IsAllowed o s now a.claims a.action p
  pub loaded : head o e a.claims.tenant a.action.repo i.view s ≡ (ok tip, m)
  pub place : (r.tenant ≡ a.claims.tenant) × (r.repo ≡ a.action.repo) × (r.view ≡ i.view)
  pub content : (r.revision ≡ i.revision) × (r.paths ≡ sort (unique i.changed_paths))
  pub first : tip ≡ none → (i.expected_version ≡ none) × (r.version ≡ 0) × (r.previous ≡ none)
  pub next :
      (x : ServiceHeadRecord)
      → tip ≡ some x
      → (i.expected_version ≡ some x.version)
        × (r.version ≡ suc x.version)
        × (r.previous ≡ some x.id)
  pub by_service : (r.service ≡ did o) × (r.at ≡ now) × (r.policy_version ≡ p.version)
  pub requested :
      (r.requested_by.principal ≡ a.claims.principal)
      × (r.requested_by.subject ≡ a.claims.subject)
      × (r.requested_by.kind ≡ a.claims.kind)
      × (r.requested_by.credential ≡ a.claims.id)
  pub claims : r.actor_claims ≡ i.actor_claims
  pub agree : (x : ActorClaim) → Memᴰ x i.actor_claims → verify_actor_claim e r.content x ≡ true
  pub fresh :
      has m.backend.heads (head_key o e (head_prefix o e r.tenant r.repo r.view) r.version) ≡ false
  pub stored :
      t
      ≡ put_audit o now
          (record (base_of a.claims history_advance (some a.action)) {
            scope = some (text "integrate");
            paths = some (sort (unique i.changed_paths));
          })
          allow
          none
          (write_head o e r m)

same_version-eq : (a b : Option ℕ) → same_version a b ≡ true → a ≡ b
unfolding same_version
same_version-eq none none h = refl
same_version-eq (some a) (some b) h = ground (arith, h)
same_version-eq none (some b) h = absurd (ground (arith, h))
same_version-eq (some a) none h = absurd (ground (arith, h))

reaches-Covering :
    (patterns : List Str) (path : Str)
    → reaches patterns path ≡ true
    → (pattern : Str) × Memᴰ pattern patterns × Covering pattern path
unfolding reaches
reaches-Covering patterns path h =
    let (pattern, i, q) =
      any-true (λ pattern. pattern_covers pattern path) patterns (ground arith) in
    (pattern, i, covers-Covering pattern path q)

changed-listed : (path : Str) (xs : List Str) → Memᴰ path xs → Memᴰ path (sort (unique xs))
changed-listed path xs i =
    member-Memᴰ path (sort (unique xs))
      (member-sort path (unique xs) ∙ member-unique path xs ∙ Memᴰ-member path xs i)

module _ (o : AuthorityOptions) (e : Engine) where
  -- A head is signed only for an authorization of scope 'integrate' that the current policy allows now,
  -- one of whose patterns covers each changed path. It is the view's first head, at version 0, where
  -- the caller expected none, or follows the newest one: by the next version and by its id, where the
  -- caller expected that one's version. It says what was asked for and by whom, the time, and the
  -- policy's version; each actor claim verifies over its content. It is stored under a key at which
  -- there was none, and it is recorded.
  pub advance-IsAdvanced :
      (now : ℕ) (a : Authorization) (i : AdvanceInput) (s t : Service) (r : ServiceHeadRecord)
      → advance o e now a i s ≡ (ok r, t)
      → (tip : Option ServiceHeadRecord) × (m : Service) × (p : TenantPolicy) × IsAdvanced o e now a
          i s t r tip m p
  unfolding sign_head next_content
  advance-IsAdvanced now a i s t r h =
      let (tip, m, p, x) = advance-IsMade o e now a i s t r h in
      let (version, valid) = x.valid in
      let (q, allowed, _) = (validate_exact o s now a.claims a.action version).0 valid in
      let (heads, only) = head-only o e a.claims.tenant a.action.repo i.view s in
      let kept : m.policies ≡ s.policies =
        ap (λ z. z.1.policies) (sym x.loaded) ∙ ap (λ z. z.policies) only in
      let same : q ≡ p = one_policy (m.policies) s.policies q p kept allowed.current x.policy in
      let expected = same_version-eq _ _ x.expected in
      (
        tip,
        m,
        p,
        record {
          scope = x.scope;
          covered = λ path j.
              reaches-Covering a.action.paths path
                (x.within path (changed-listed path i.changed_paths j));
          allowed = subst (λ p. IsAllowed o s now a.claims a.action p) same allowed;
          loaded = x.loaded;
          place = (ap (λ y. y.tenant) x.made, ap (λ y. y.repo) x.made, ap (λ y. y.view) x.made);
          content = (ap (λ y. y.revision) x.made, ap (λ y. y.paths) x.made);
          first = λ none_yet. (
            expected ∙ ap current none_yet,
            ap (λ y. y.version) x.made ∙ ap follows none_yet,
            ap (λ y. y.previous) x.made ∙ ap before none_yet,
          );
          next = λ y there. (
            expected ∙ ap current there,
            ap (λ y. y.version) x.made ∙ ap follows there,
            ap (λ y. y.previous) x.made ∙ ap before there,
          );
          by_service = (
            ap (λ y. y.service) x.made,
            ap (λ y. y.at) x.made,
            ap (λ y. y.policy_version) x.made,
          );
          requested = (
            ap (λ y. y.requested_by.principal) x.made,
            ap (λ y. y.requested_by.subject) x.made,
            ap (λ y. y.requested_by.kind) x.made,
            ap (λ y. y.requested_by.credential) x.made,
          );
          claims = ap (λ y. y.actor_claims) x.made;
          agree = λ y j.
              subst (λ c. verify_actor_claim e c y ≡ true) (sym (ap (λ y. y.content) x.made))
                (all-Memᴰ _ y i.actor_claims x.claims_agree j);
          fresh = x.fresh;
          stored = x.stored;
        },
      )
    where
      current : Option ServiceHeadRecord → Option ℕ
      current tip = elim tip as (λ _. Option ℕ) [ none ↦ none | some x ↦ some x.version ]

      follows : Option ServiceHeadRecord → ℕ
      follows tip = elim tip as (λ _. ℕ) [ none ↦ 0 | some x ↦ suc x.version ]

      before : Option ServiceHeadRecord → Option Str
      before tip = elim tip as (λ _. Option Str) [ none ↦ none | some x ↦ some x.id ]

      one_policy :
          (ms ss : Dict TenantPolicy) (q p : TenantPolicy)
          → ms ≡ ss
          → get ss a.claims.tenant ≡ some q
          → get ms a.claims.tenant ≡ some p
          → q ≡ p
      one_policy ms ss q p k f g = ground arith
