-- ===== src/Authority/Service/Keeps/History.antt =====
-- What head and advance keep (packages/authority/src/authority.ts).
use thaddeus.Prelude.{
  ℕ, ◌≡◌, refl, sym, subst, inl, inr, false, Option, none, some, List, Str, arith, Option-cases,
}
use thaddeus.Prelude.Dict.{Dict, get, put, has}
use thaddeus.Authority.Wire.{Engine, ok}
use thaddeus.Authority.ServiceHead.{ServiceHeadRecord}
use thaddeus.Authority.Service.{AuthorityOptions, Service, checked, at_heads}
use thaddeus.Authority.Service.Use.{Authorization}
use thaddeus.Authority.Service.History.{
  AdvanceInput, head_prefix, head_key, read_newest, check_stored, load_head, head, write_head,
  forget_head, store_head, extend, advance_in_lock, advance,
}
use thaddeus.Authority.Service.Keeps.{
  Keeps, Keeps-refl, same-Keeps, checked-Keeps, then_do-Keeps, audited-Keeps, if-Keeps,
}
use thaddeus.Prelude.Dict.{get-put_fresh}

module _ (o : AuthorityOptions) (e : Engine) (b : ℕ) where
  -- The cache is no part of what is kept.
  cache-Keeps :
      (h : Dict (Option ServiceHeadRecord)) (s : Service) → Keeps b s (record s { heads = h })
  cache-Keeps h s = same-Keeps b s _ refl refl refl refl refl refl refl

  load_head-Keeps :
      (tenant repo view : Str) (s : Service) → Keeps b s (load_head o e tenant repo view s).1
  unfolding load_head
  load_head-Keeps tenant repo view s = elim (Option-cases (get s.heads prefix)) [
    | inr (cached, q) ↦ subst (Keeps b s) (ground arith) (Keeps-refl b s)
    | inl unread ↦ elim (Option-cases (read_newest o e s prefix)) [
      | inl absent ↦ subst (Keeps b s) (ground arith) (cache-Keeps (put s.heads prefix none) s)
      | inr (x, q) ↦
          subst (λ y. Keeps b s y.1) (sym (stored x unread q))
            (checked-Keeps b (check_stored o e tenant repo view x) s
              (λ _. (ok (some x.1), record s { heads = put s.heads prefix (some x.1) }))
              (λ u r. cache-Keeps (put s.heads prefix (some x.1)) s))
    ]
  ]
    where
      prefix : Str
      prefix = head_prefix o e tenant repo view

      stored :
          (x : Str × ServiceHeadRecord)
          → get s.heads prefix ≡ none
          → read_newest o e s prefix ≡ some x
          → load_head o e tenant repo view s
            ≡ checked
                (check_stored o e tenant repo view x)
                s
                (λ _. (ok (some x.1), record s { heads = put s.heads prefix (some x.1) }))
      stored x unread q = ground arith

  pub head-Keeps :
      (tenant repo view : Str) (s : Service) → Keeps b s (head o e tenant repo view s).1
  unfolding head
  head-Keeps tenant repo view s = checked-Keeps b _ s _ (λ u q. load_head-Keeps tenant repo view s)

  write_head-Keeps :
      (r : ServiceHeadRecord) (s : Service)
      → has s.backend.heads (head_key o e (head_prefix o e r.tenant r.repo r.view) r.version)
        ≡ false
      → Keeps b s (write_head o e r s)
  unfolding write_head
  write_head-Keeps r s fresh = record {
    policies = λ tenant p h. (p, h, inl refl);
    credentials = λ id h. h;
    dids = λ key at h. (at, h, omega arith);
    tickets = λ key at h. h;
    policy_log = λ key p h. h;
    head_log = λ key x h. get-put_fresh s.backend.heads _ key r x fresh h;
    nonces = λ key until n h. h;
  }

  store_head-Keeps : (r : ServiceHeadRecord) (s : Service) → Keeps b s (store_head o e r s).1
  unfolding store_head forget_head
  store_head-Keeps r s =
      let key = head_key o e (head_prefix o e r.tenant r.repo r.view) r.version in
      if-Keeps b s (o.put_fails at_heads key s.backend) _ _ (λ fails. Keeps-refl b s)
        (λ written.
          if-Keeps b s (has s.backend.heads key) _ _ (λ there. cache-Keeps _ s)
            (λ fresh. write_head-Keeps r s fresh))

  extend-Keeps :
      (now : ℕ) (a : Authorization) (i : AdvanceInput) (changed : List Str)
      (tip : Option ServiceHeadRecord) (s : Service)
      → Keeps b s (extend o e now a i changed tip s).1
  unfolding extend
  extend-Keeps now a i changed tip s = checked-Keeps b _ s _ (λ p z. store_head-Keeps _ s)

  advance_in_lock-Keeps :
      (now : ℕ) (a : Authorization) (i : AdvanceInput) (changed : List Str) (s : Service)
      → Keeps b s (advance_in_lock o e now a i changed s).1
  unfolding advance_in_lock
  advance_in_lock-Keeps now a i changed s = checked-Keeps b _ s _ (λ u q.
      then_do-Keeps b s _ _ (head-Keeps a.claims.tenant a.action.repo i.view s)
        (λ tip r. extend-Keeps now a i changed tip _))

  pub advance-Keeps :
      (now : ℕ) (a : Authorization) (i : AdvanceInput) (s : Service)
      → Keeps b s (advance o e now a i s).1
  unfolding advance
  advance-Keeps now a i s =
      checked-Keeps b _ s _
        (λ u q. audited-Keeps o b now _ _ _ s _ (advance_in_lock-Keeps now a i _ s))
