-- ===== src/Authority/Service/Advanced/NoFork.antt =====
-- A view has one history (packages/authority/src/authority.ts).
use thaddeus.Prelude.{ℕ, ◌≡◌, ◌≢◌, sym, ap, ◌∙◌, subst, false, Option, none, some, Str, arith}
use thaddeus.Prelude.Dict.{get, has, get-put_self}
use thaddeus.Authority.Wire.{Engine, ok}
use thaddeus.Authority.ServiceHead.{ServiceHeadRecord}
use thaddeus.Authority.Service.{AuthorityOptions, Service, AuditBase, allow, put_audit}
use thaddeus.Authority.Service.Use.{Authorization}
use thaddeus.Authority.Service.History.{
  AdvanceInput, head_prefix, head_key, head, write_head, advance,
}
use thaddeus.Authority.Service.Calls.{Calls, Calls-Keeps}
use thaddeus.Authority.Service.Advanced.{advance-IsMade}
use thaddeus.Authority.Service.Advanced.Loads.{head-only}

module _ (o : AuthorityOptions) (e : Engine) where
  head-backend :
      (tenant repo view : Str) (s m : Service) (tip : Option ServiceHeadRecord)
      → head o e tenant repo view s ≡ (ok tip, m)
      → m.backend ≡ s.backend
  head-backend tenant repo view s m tip h =
      let (heads, same) = head-only o e tenant repo view s in
      ap (λ z. z.1.backend) (sym h) ∙ ap (λ z. z.backend) same

  -- A view's history does not fork: whatever is called between two advances of a view, they give heads of
  -- different versions.
  pub advance_no_fork :
      (b now now' : ℕ) (a a' : Authorization) (i i' : AdvanceInput) (s t u w : Service)
      (r r' : ServiceHeadRecord)
      → advance o e now a i s ≡ (ok r, t)
      → Calls o e b t u
      → advance o e now' a' i' u ≡ (ok r', w)
      → (r.tenant ≡ r'.tenant) × (r.repo ≡ r'.repo) × (r.view ≡ r'.view)
      → r.version ≢ r'.version
  advance_no_fork b now now' a a' i i' s t u w r r' h calls k (tenant, repo, view) version =
      let (tip, m, p, first) = advance-IsMade o e now a i s t r h in
      let (tip', m', p', second) = advance-IsMade o e now' a' i' u w r' k in
      let key : Str = head_key o e (head_prefix o e r.tenant r.repo r.view) r.version in
      let same : key ≡ head_key o e (head_prefix o e r'.tenant r'.repo r'.view) r'.version =
        ground (arith, tenant, repo, view, version) in
      let there : get t.backend.heads key ≡ some r =
        ap (λ x. get x.backend.heads key) first.stored ∙ recorded _ m r key (written m r) in
      let kept = (Calls-Keeps o e b calls).head_log key r there in
      let unchanged =
        head-backend a'.claims.tenant a'.action.repo i'.view u m' tip' second.loaded in
      taken m' key _ same (subst (λ z. get z.heads key ≡ some r) (sym unchanged) kept) second.fresh
    where
      written :
          (m : Service) (r : ServiceHeadRecord)
          → get
              (write_head o e r m).backend.heads
              (head_key o e (head_prefix o e r.tenant r.repo r.view) r.version)
            ≡ some r
      written m r = unfold write_head in get-put_self m.backend.heads _ r

      recorded :
          (base : AuditBase) (m : Service) (r : ServiceHeadRecord) (key : Str)
          → get (write_head o e r m).backend.heads key ≡ some r
          → get (put_audit o now base allow none (write_head o e r m)).backend.heads key ≡ some r
      recorded base m r key q = unfold put_audit in q

      taken :
          (m : Service) (x y : Str)
          → x ≡ y
          → get m.backend.heads x ≡ some r
          → has m.backend.heads y ≡ false
          → ⊥
      taken m x y e g f = ground arith
