-- ===== src/Log/Head/Accepted.antt =====
-- What `verifyHeadChain` (packages/log/src/head.ts) accepts, and what follows for its callers.
use thaddeus.Prelude.{
  ℕ, zero, suc, ◌+◌, ◌≡◌, refl, subst, ◌↔◌, true, some, List, [], ◌∷◌, Str, member, get_elem?,
  arith,
}
use thaddeus.Identity.{Crypto}
use thaddeus.Log.Head.{
  HeadRecord, HeadChainOptions, Binding, valid, >>=-eq-pass, binding, verify_head_chain,
}
use thaddeus.Log.Head.Chain.{IsChain, check_chain_exact}
use thaddeus.Log.Head.Pins.{Extends, check_prefix_exact}

module _ (c : Crypto) (o : HeadChainOptions) where
  -- A chain is accepted exactly when every record of it verifies, is bound to the expected repository,
  -- view and owner, is numbered by its place and is the successor of the one before it, and when it
  -- extends the pinned prefix.
  pub verify_head_chain_exact :
      (first : HeadRecord) (rest : List HeadRecord)
      → (verify_head_chain c (first ∷ rest) o ≡ valid)
        ↔ IsChain c (binding o first) (first ∷ rest) × Extends c (first ∷ rest) o.pins
  unfolding verify_head_chain
  verify_head_chain_exact first rest =
      let chain = check_chain_exact c (binding o first) (first ∷ rest) in
      let pins = check_prefix_exact c (first ∷ rest) o.pins in
      (
        λ e. let (u, v, k) = >>=-eq-pass _ _ e in (chain.0 v, pins.0 k),
        λ (h, k). ground (arith, chain.1 h, pins.1 k),
      )

  accepted_parts :
      (chain : List HeadRecord)
      → verify_head_chain c chain o ≡ valid
      → (b : Binding) × IsChain c b chain × Extends c chain o.pins
  unfolding verify_head_chain
  accepted_parts [] e = cc
  accepted_parts (first ∷ rest) e =
      let (h, k) = (verify_head_chain_exact first rest).0 e in (binding o first, h, k)

  before :
      (chain : List HeadRecord) (i : ℕ) (z : HeadRecord)
      → get_elem? chain (suc i) ≡ some z
      → (y : HeadRecord) × (get_elem? chain i ≡ some y)
  before [] i z e = cc
  before (x ∷ chain) zero z e = (x, refl)
  before (x ∷ chain) (suc i) z e = before chain i z e

  keeps_heads :
      (chain : List HeadRecord) (b : Binding) (i d : ℕ) (a z : HeadRecord)
      → IsChain c b chain
      → get_elem? chain i ≡ some a
      → get_elem? chain (d + i) ≡ some z
      → (h : Str) → member h a.heads ≡ true
      → member h z.heads ≡ true
  keeps_heads chain b i zero a z k f g h m =
      let same = subst (λ j. get_elem? chain j ≡ some z) {y = i} (omega arith) g in
      subst (λ (r : HeadRecord). member h r.heads ≡ true) {x = a} {y = z} (cc) m
  keeps_heads chain b i (suc d) a z k f g h m =
      let last = subst (λ j. get_elem? chain j ≡ some z) {y = suc (d + i)} (omega arith) g in
      let (y, e) = before chain (d + i) z last in
      (k.linked (d + i) y z e last).keeps h (keeps_heads chain b i d a y k f e h m)

  -- In an accepted chain no signed head is ever dropped: a head of a record is a head of every later
  -- record.
  pub accepted_keeps_heads :
      (chain : List HeadRecord) (i d : ℕ) (a z : HeadRecord)
      → verify_head_chain c chain o ≡ valid
      → get_elem? chain i ≡ some a
      → get_elem? chain (d + i) ≡ some z
      → (h : Str) → member h a.heads ≡ true
      → member h z.heads ≡ true
  accepted_keeps_heads chain i d a z e f g h m =
      let (b, k, _) = accepted_parts chain e in keeps_heads chain b i d a z k f g h m
