-- ===== src/Authority/Service/Advanced/Genuine.antt =====
-- The heads that `advance` signs verify (packages/authority/src/authority.ts, head.ts).
use thaddeus.Prelude.{
  ℕ, ◌≡◌, refl, ap, ◌∙◌, Bool, true, List, [], ◌∷◌, all, map, keep, sort, unique, arith,
}
use thaddeus.Authority.Wire.{Engine, ok}
use thaddeus.Authority.Token.Roundtrip.{IsSigner, from_base64url-base64url}
use thaddeus.Authority.ServiceHead.{
  HeadContent, ActorClaim, ServiceHeadRecord, verify_actor_claim, verify_head_record, head_id,
  head_bytes, describe_attribution,
}
use thaddeus.Authority.Service.{AuthorityOptions, Service, did}
use thaddeus.Authority.Service.Use.{Authorization}
use thaddeus.Authority.Service.History.{AdvanceInput, next_content, sign_head, advance}
use thaddeus.Authority.Service.Advanced.{advance-IsMade}

keep-all : {A : Type 0} (p : A → Bool) (xs : List A) → all p xs ≡ true → keep p xs ≡ xs
keep-all p [] h = refl
keep-all p (x ∷ xs) h = ground (arith, keep-all p xs)

module _ (o : AuthorityOptions) (e : Engine) where
  -- A record that is signed over content with agreeing actor claims.
  signed_verifies :
      (now : ℕ) (a : Authorization) (version : ℕ) (claims : List ActorClaim) (c : HeadContent)
      → IsSigner e o.signer
      → all (verify_actor_claim e c) claims ≡ true
      → verify_head_record e (sign_head o e now a version claims c) (did o) ≡ ok tt
  unfolding verify_head_record sign_head head_id
  signed_verifies now a version claims c k agree =
      let bytes = head_bytes (sign_head o e now a version claims c).unsigned in
      ground (
        arith,
        from_base64url-base64url (o.signer.sign bytes) (k.bytes bytes),
        k.verifies bytes,
        agree,
      )

  signed_attribution :
      (now : ℕ) (a : Authorization) (version : ℕ) (claims : List ActorClaim) (c : HeadContent)
      → all (verify_actor_claim e c) claims ≡ true
      → (describe_attribution e (sign_head o e now a version claims c)).signed_by
        ≡ map (λ x. x.did) claims
  unfolding describe_attribution sign_head
  signed_attribution now a version claims c agree =
      ap (map (λ x. x.did)) (keep-all (verify_actor_claim e c) claims agree)

  -- A head that is signed is genuine: it verifies as this service's, if the service's signatures verify.
  -- It is shown as requested by the holder and the principal of the credential, and as signed by the
  -- actors whose claims were given, all of them.
  pub advance-IsGenuine :
      (now : ℕ) (a : Authorization) (i : AdvanceInput) (s t : Service) (r : ServiceHeadRecord)
      → IsSigner e o.signer
      → advance o e now a i s ≡ (ok r, t)
      → (verify_head_record e r (did o) ≡ ok tt)
        × ((describe_attribution e r).requested_by.principal ≡ a.claims.principal)
        × ((describe_attribution e r).requested_by.subject ≡ a.claims.subject)
        × ((describe_attribution e r).signed_by ≡ map (λ x. x.did) i.actor_claims)
  unfolding sign_head describe_attribution
  advance-IsGenuine now a i s t r k h =
      let (tip, m, p, x) = advance-IsMade o e now a i s t r h in
      let content = next_content o e a i (sort (unique i.changed_paths)) tip in
      (
        ap (λ y. verify_head_record e y (did o)) x.made
            ∙ signed_verifies now a p.version i.actor_claims content k x.claims_agree,
        ap (λ y. y.requested_by.principal) x.made,
        ap (λ y. y.requested_by.subject) x.made,
        ap (λ y. (describe_attribution e y).signed_by) x.made
            ∙ signed_attribution now a p.version i.actor_claims content x.claims_agree,
      )
