-- ===== src/Log/Head/Chain.antt =====
-- What an accepted chain of `verifyHeadChain` (packages/log/src/head.ts) is.
use thaddeus.Prelude.{
  ℕ, zero, suc, ◌+◌, ◌≡◌, refl, subst, ◌↔◌, true, not, Option, none, some, List, [], ◌∷◌, Str,
  member, member-here, member-there, find, get_elem?, arith,
}
use thaddeus.Identity.{Crypto}
use thaddeus.Log.Head.{
  HeadRecord, Binding, HeadVerification, pass, reject, valid, at_index, >>=-eq-pass, verify_head,
  check_link, check_record, check_chain,
}

-- A successor names the record before it and keeps all of its heads.
pub record IsSuccessor (p r : HeadRecord) : Type 0 where
  pub previous : r.previous ≡ some p.id
  pub keeps : (h : Str) → member h p.heads ≡ true → member h r.heads ≡ true

-- Each record is signed, bound to one repository, view and owner, numbered by its place, and the
-- successor of the one before it.
pub record IsChain (c : Crypto) (b : Binding) (chain : List HeadRecord) : Type 0 where
  pub signed : (i : ℕ) (r : HeadRecord) → get_elem? chain i ≡ some r → verify_head c r ≡ valid
  pub bound :
      (i : ℕ) (r : HeadRecord)
      → get_elem? chain i ≡ some r
      → (r.repo ≡ b.repo) × (r.view ≡ b.view) × (r.owner ≡ b.owner)
  pub numbered : (i : ℕ) (r : HeadRecord) → get_elem? chain i ≡ some r → r.version ≡ i
  pub linked :
      (i : ℕ) (p r : HeadRecord)
      → get_elem? chain i ≡ some p
      → get_elem? chain (suc i) ≡ some r
      → IsSuccessor p r

dropped : List Str → List Str → Option Str
dropped before after = find (λ h. not (member h after)) before

dropped-none :
    (before after : List Str) (h : Str)
    → dropped before after ≡ none
    → member h before ≡ true
    → member h after ≡ true
unfolding dropped member
dropped-none [] after h e m = cc
dropped-none (x ∷ before) after h e m = ground (arith, dropped-none before after h)

none-dropped :
    (before after : List Str)
    → ((h : Str) → member h before ≡ true → member h after ≡ true)
    → dropped before after ≡ none
unfolding dropped
none-dropped [] after k = refl
none-dropped (x ∷ before) after k = ground (
  arith,
  k x (member-here x before),
  none-dropped before after (λ h m. k h (member-there h x before m)),
)

IsSuccessor-check : (i : ℕ) (p r : HeadRecord) → check_link i (some p) r ≡ valid → IsSuccessor p r
unfolding check_link
IsSuccessor-check i p r e = record {
  previous = ground arith;
  keeps = λ h. dropped-none p.heads r.heads h (unfold dropped in ground arith);
}

check-IsSuccessor : (i : ℕ) (p r : HeadRecord) → IsSuccessor p r → check_link i (some p) r ≡ valid
unfolding check_link dropped
check-IsSuccessor i p r s = ground (arith, s.previous, none-dropped p.heads r.heads s.keeps)

pub at_index-valid : (i : ℕ) (v : HeadVerification) → at_index i v ≡ valid → v ≡ valid
at_index-valid i (pass u) e = refl
at_index-valid i (reject r) e = cc

module _ (c : Crypto) (b : Binding) where
  -- The four tests on a record by itself.
  record IsBound (i : ℕ) (r : HeadRecord) : Type 0 where
    signed : verify_head c r ≡ valid
    repo : r.repo ≡ b.repo
    view : r.view ≡ b.view
    owner : r.owner ≡ b.owner
    version : r.version ≡ i

  IsBound-check :
      (i : ℕ) (prev : Option HeadRecord) (r : HeadRecord)
      → check_record c b i prev r ≡ valid
      → IsBound i r × (check_link i prev r ≡ valid)
  unfolding check_record
  IsBound-check i prev r e = ground (arith, at_index-valid i (verify_head c r))

  check-IsBound :
      (i : ℕ) (prev : Option HeadRecord) (r : HeadRecord)
      → IsBound i r
      → check_link i prev r ≡ valid
      → check_record c b i prev r ≡ valid
  unfolding check_record
  check-IsBound i prev r h k = ground (arith, h)

  -- The link of a list's first record to the record before the list.
  abbrev LinkedTo : Option HeadRecord → List HeadRecord → Type 0
  LinkedTo none rs = Unit {0}
  LinkedTo (some p) [] = Unit {0}
  LinkedTo (some p) (r ∷ rs) = IsSuccessor p r

  -- The loop's invariant, by recursion on the records that are left.
  abbrev IsRun : ℕ → Option HeadRecord → List HeadRecord → Type 0
  IsRun i prev [] = Unit {0}
  IsRun i prev (r ∷ rs) = IsBound i r × LinkedTo prev (r ∷ rs) × IsRun (suc i) (some r) rs

  link_LinkedTo :
      (i : ℕ) (prev : Option HeadRecord) (r : HeadRecord) (rs : List HeadRecord)
      → check_link i prev r ≡ valid
      → LinkedTo prev (r ∷ rs)
  link_LinkedTo i none r rs e = tt
  link_LinkedTo i (some p) r rs e = IsSuccessor-check i p r e

  LinkedTo-link :
      (i : ℕ) (prev : Option HeadRecord) (r : HeadRecord) (rs : List HeadRecord)
      → LinkedTo prev (r ∷ rs)
      → check_link i prev r ≡ valid
  unfolding check_link
  LinkedTo-link i none r rs e = refl
  LinkedTo-link i (some p) r rs e = check-IsSuccessor i p r e

  check_chain-IsRun :
      (i : ℕ) (prev : Option HeadRecord) (rs : List HeadRecord)
      → check_chain c b i prev rs ≡ valid
      → IsRun i prev rs
  unfolding check_chain
  check_chain-IsRun i prev [] e = tt
  check_chain-IsRun i prev (r ∷ rs) e =
      let (u, v, rest) = >>=-eq-pass _ _ e in
      let (bound, link) = IsBound-check i prev r v in
      (bound, link_LinkedTo i prev r rs link, check_chain-IsRun (suc i) (some r) rs rest)

  IsRun-check_chain :
      (i : ℕ) (prev : Option HeadRecord) (rs : List HeadRecord)
      → IsRun i prev rs
      → check_chain c b i prev rs ≡ valid
  unfolding check_chain
  IsRun-check_chain i prev [] h = refl
  IsRun-check_chain i prev (r ∷ rs) (bound, link, rest) =
      rw (check-IsBound i prev r bound (LinkedTo-link i prev r rs link))
        (IsRun-check_chain (suc i) (some r) rs rest)

  run-IsBound :
      (k i : ℕ) (prev : Option HeadRecord) (rs : List HeadRecord) (r : HeadRecord)
      → IsRun k prev rs
      → get_elem? rs i ≡ some r
      → IsBound (k + i) r
  run-IsBound k i prev [] r h e = cc
  run-IsBound k zero prev (x ∷ rs) r (bound, _, _) e =
      subst (λ j. IsBound j r) (omega arith) (subst (IsBound k) (cc) bound)
  run-IsBound k (suc i) prev (x ∷ rs) r (_, _, rest) e =
      subst (λ j. IsBound j r) (omega arith) (run-IsBound (suc k) i (some x) rs r rest e)

  run_linked :
      (k i : ℕ) (prev : Option HeadRecord) (rs : List HeadRecord) (p r : HeadRecord)
      → IsRun k prev rs
      → get_elem? rs i ≡ some p
      → get_elem? rs (suc i) ≡ some r
      → IsSuccessor p r
  run_linked k i prev [] p r h d e = cc
  run_linked k zero prev (x ∷ []) p r h d e = cc
  run_linked k zero prev (x ∷ y ∷ rs) p r (_, _, (_, link, _)) d e =
      subst (IsSuccessor p) (cc) (subst (λ z. IsSuccessor z y) (cc) link)
  run_linked k (suc i) prev (x ∷ rs) p r (_, _, rest) d e =
      run_linked (suc k) i (some x) rs p r rest d e

  IsRun-IsChain : (rs : List HeadRecord) → IsRun 0 none rs → IsChain c b rs
  IsRun-IsChain rs h = record {
    signed = λ i r e. (run-IsBound 0 i none rs r h e).signed;
    bound = λ i r e. let z = run-IsBound 0 i none rs r h e in (z.repo, z.view, z.owner);
    numbered = λ i r e. let z = run-IsBound 0 i none rs r h e in omega (arith, z.version);
    linked = λ i p r. run_linked 0 i none rs p r h;
  }

  -- A list whose records are bound and linked, read place by place, passes the loop.
  IsRun-from :
      (k : ℕ) (prev : Option HeadRecord) (rs : List HeadRecord)
      → ((i : ℕ) (r : HeadRecord) → get_elem? rs i ≡ some r → IsBound (k + i) r)
      → ((i : ℕ) (p r : HeadRecord)
          → get_elem? rs i ≡ some p
          → get_elem? rs (suc i) ≡ some r
          → IsSuccessor p r)
      → LinkedTo prev rs
      → IsRun k prev rs
  IsRun-from k prev [] bound link first = tt
  IsRun-from k prev (r ∷ rs) bound link first = (
    subst (λ j. IsBound j r) (omega arith) (bound 0 r refl),
    first,
    IsRun-from (suc k) (some r) rs
        (λ i x e. subst (λ j. IsBound j x) (omega arith) (bound (suc i) x e))
        (λ i p x. link (suc i) p x) (next rs (λ x e. link 0 r x refl e)),
  )
    where
      next :
          (xs : List HeadRecord)
          → ((x : HeadRecord) → get_elem? xs 0 ≡ some x → IsSuccessor r x)
          → LinkedTo (some r) xs
      next [] h = tt
      next (x ∷ xs) h = h x refl

  IsChain-IsRun : (rs : List HeadRecord) → IsChain c b rs → IsRun 0 none rs
  IsChain-IsRun rs h = IsRun-from 0 none rs bound h.linked tt
    where
      bound : (i : ℕ) (r : HeadRecord) → get_elem? rs i ≡ some r → IsBound (0 + i) r
      bound i r e = record {
        signed = h.signed i r e;
        repo = (h.bound i r e).0;
        view = (h.bound i r e).1;
        owner = (h.bound i r e).2;
        version = omega (arith, h.numbered i r e);
      }

  pub check_chain_exact :
      (rs : List HeadRecord) → (check_chain c b 0 none rs ≡ valid) ↔ IsChain c b rs
  check_chain_exact rs = (
    λ e. IsRun-IsChain rs (check_chain-IsRun 0 none rs e),
    λ h. IsRun-check_chain 0 none rs (IsChain-IsRun rs h),
  )
