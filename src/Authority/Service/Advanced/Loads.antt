-- ===== src/Authority/Service/Advanced/Loads.antt =====
-- What `head` of packages/authority/src/authority.ts changes.
use thaddeus.Prelude.{
  ◌≡◌, refl, inl, inr, ◌&&◌, Option, none, some, Str, arith, Bool-cases, Option-cases,
}
use thaddeus.Prelude.Dict.{Dict, put, get}
use thaddeus.Authority.{is_name}
use thaddeus.Authority.Wire.{Engine, Outcome, ok, refused, broken}
use thaddeus.Authority.Proof.{is_tenant}
use thaddeus.Authority.ServiceHead.{ServiceHeadRecord}
use thaddeus.Authority.Service.{AuthorityOptions, Service, checked}
use thaddeus.Authority.Service.History.{head_prefix, check_stored, read_newest, load_head, head}

module _ (o : AuthorityOptions) (e : Engine) where
  -- Loading a head changes the cache alone.
  load_head-only :
      (tenant repo view : Str) (s : Service)
      → (h : Dict (Option ServiceHeadRecord)) × ((load_head o e tenant repo view s).1
          ≡ record s { heads = h })
  unfolding load_head
  load_head-only tenant repo view s =
      elim (Option-cases (get s.heads (head_prefix o e tenant repo view))) [
        | inr (cached, q) ↦ (s.heads, ground arith)
        | inl q ↦ elim (Option-cases (read_newest o e s (head_prefix o e tenant repo view))) [
          | inl n ↦ (put s.heads (head_prefix o e tenant repo view) none, ground arith)
          | inr (x, n) ↦ verified x q n (check_stored o e tenant repo view x) refl
        ]
      ]
    where
      verified :
          (x : Str × ServiceHeadRecord)
          → get s.heads (head_prefix o e tenant repo view) ≡ none
          → read_newest o e s (head_prefix o e tenant repo view) ≡ some x
          → (v : Outcome (Unit {0})) → check_stored o e tenant repo view x ≡ v
          → (h : Dict (Option ServiceHeadRecord)) × ((load_head o e tenant repo view s).1
              ≡ record s { heads = h })
      verified x q n (ok u) d =
          unfold checked in
          (put s.heads (head_prefix o e tenant repo view) (some x.1), ground arith)
      verified x q n (refused c) d = unfold checked in (s.heads, ground arith)
      verified x q n broken d = unfold checked in (s.heads, ground arith)

  pub head-only :
      (tenant repo view : Str) (s : Service)
      → (h : Dict (Option ServiceHeadRecord)) × ((head o e tenant repo view s).1
          ≡ record s { heads = h })
  unfolding head checked
  head-only tenant repo view s =
      elim (Bool-cases (is_tenant tenant && is_name repo && is_name view)) [
        | inl named ↦ let (h, same) = load_head-only tenant repo view s in (h, ground (arith, same))
        | inr bad ↦ (s.heads, ground arith)
      ]
