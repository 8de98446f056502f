-- ===== src/Examples/Authorities/Runs.antt =====
-- Calls of the authority that go through.
use thaddeus.Prelude.{◌∷◌, ◌≡◌, refl, some, [], member, sort, unique}
use thaddeus.Prelude.Texts.{str_dec}
use thaddeus.Prelude.Dict.{get, put, keys}
use thaddeus.Json.{stringify, pad}
use thaddeus.Identity.{signature_holds, from_did, decode_did_key}
use thaddeus.Authority.{
  Grant, canonical_grants, grants_subsume, grants_cover, grant_covers, pattern_covers,
}
use thaddeus.Authority.Wire.{Engine, ok, is_did, from_base64url, verify_did, digest}
use thaddeus.Authority.Wire.Base64.{base64url}
use thaddeus.Authority.Proof.{
  grants_json, canonical_action, is_action, is_tenant, check_proof_signature,
}
use thaddeus.Authority.Token.{
  ServiceSigner, CredentialClaims, TicketClaims, claims_json, ticket_json, encode_credential,
  decode_credential, encode_ticket, decode_ticket,
}
use thaddeus.Authority.TenantPolicy.{member_of, policy_change_body}
use thaddeus.Authority.Service.{
  Service, default_ttl, then_do, checked, audited, consume_proof, nonce_key, validate, reaches,
}
use thaddeus.Replay.{
  consume_nonce_state, valid_input, clean, clean_round, settle, push_expiration, sift_up,
}
use thaddeus.Authority.Service.Issuing.{issue, revoke, name_key}
use thaddeus.Authority.Service.Use.{authorize, redeem, audited_use, spend_proof, check}
use thaddeus.Authority.Service.Policies.{change_policy}
use thaddeus.Authority.Service.History.{sign_head, advance, head, write_head}
use thaddeus.Authority.ServiceHead.{verify_actor_claim, ServiceHeadRecord}
use thaddeus.Examples.{ann_did}
use thaddeus.Examples.Authorities.{
  actor_claim, thirty_two, cred, signer, options, engine_of, engine, start, proof_at, request,
  granted, action, authorization, revocation, ticket, change_at, policy_at, second_proof,
  advance_input, first_content, second_input,
}

abbrev pub after_issue : Service
after_issue = (issue options engine (λ s. s) 1000 1001 thirty_two request (proof_at 1000) start).1

pub issued :
    issue options engine (λ s. s) 1000 1001 thirty_two request (proof_at 1000) start
    ≡ (ok granted, after_issue)
unfolding issue then_do checked audited consume_proof str_dec is_tenant is_did from_did
    decode_did_key canonical_grants member check_proof_signature from_base64url base64url verify_did
    signature_holds get put keys consume_nonce_state valid_input clean clean_round settle
    push_expiration sift_up thaddeus.Log.Head.is_id nonce_key digest stringify member_of
    grants_subsume sort unique grants_cover grant_covers pattern_covers default_ttl
issued = refl

pub decoded : decode_credential engine granted.token ann_did ≡ ok cred
unfolding decode_credential thaddeus.Authority.Token.open_token then_do checked audited
    consume_proof str_dec is_tenant is_did from_did decode_did_key canonical_grants member
    check_proof_signature from_base64url base64url verify_did signature_holds get put keys
    consume_nonce_state valid_input clean clean_round settle push_expiration sift_up
    thaddeus.Log.Head.is_id nonce_key digest stringify member_of grants_subsume sort unique
    grants_cover grant_covers pattern_covers default_ttl encode_credential claims_json grants_json
decoded = refl

abbrev pub after_use : Service
after_use =
    (authorize options engine (λ s. s) 2000 2001 granted.token action (proof_at 2000) start).1

pub used :
    authorize options engine (λ s. s) 2000 2001 granted.token action (proof_at 2000) start
    ≡ (ok authorization, after_use)
unfolding authorize decode_credential then_do checked audited consume_proof str_dec is_tenant is_did
    from_did decode_did_key canonical_grants member check_proof_signature from_base64url base64url
    verify_did signature_holds get put keys consume_nonce_state valid_input clean clean_round settle
    push_expiration sift_up thaddeus.Log.Head.is_id nonce_key digest stringify member_of
    grants_subsume sort unique grants_cover grant_covers pattern_covers default_ttl
    encode_credential claims_json grants_json audited_use canonical_action is_action spend_proof
    validate
used = refl

abbrev pub after_revoke : Service
after_revoke = (revoke options engine 3000 thirty_two revocation (proof_at 3000) start).1

pub revoked :
    revoke options engine 3000 thirty_two revocation (proof_at 3000) start ≡ (ok tt, after_revoke)
unfolding revoke decode_credential then_do checked audited consume_proof str_dec is_tenant is_did
    from_did decode_did_key canonical_grants member check_proof_signature from_base64url base64url
    verify_did signature_holds get put keys consume_nonce_state valid_input clean clean_round settle
    push_expiration sift_up thaddeus.Log.Head.is_id nonce_key digest stringify member_of
    grants_subsume sort unique grants_cover grant_covers pattern_covers default_ttl
    encode_credential claims_json grants_json
revoked = refl

abbrev pub queue_engine : Engine
queue_engine = engine_of (claims_json cred) (ticket_json ticket)

abbrev pub after_redeem : Service
after_redeem = (redeem options queue_engine 3000 (encode_ticket queue_engine ticket signer) start).1

pub once_redeemed :
    redeem options queue_engine 3000 (encode_ticket queue_engine ticket signer) start
    ≡ (ok (record authorization { ticket = some thirty_two }), after_redeem)
unfolding redeem decode_credential then_do checked audited consume_proof str_dec is_tenant is_did
    from_did decode_did_key canonical_grants member check_proof_signature from_base64url base64url
    verify_did signature_holds get put keys consume_nonce_state valid_input clean clean_round settle
    push_expiration sift_up thaddeus.Log.Head.is_id nonce_key digest stringify member_of
    grants_subsume sort unique grants_cover grant_covers pattern_covers default_ttl decode_ticket
    encode_ticket ticket_json encode_credential claims_json grants_json canonical_action is_action
    validate
once_redeemed = refl

abbrev pub after_change : Service
after_change = (change_policy options engine 100 (change_at 0) (proof_at 100) start).1

pub changed :
    change_policy options engine 100 (change_at 0) (proof_at 100) start
    ≡ (ok (policy_at 1 100), after_change)
unfolding change_policy then_do checked audited consume_proof str_dec is_tenant is_did from_did
    decode_did_key canonical_grants member check_proof_signature from_base64url base64url verify_did
    signature_holds get put keys consume_nonce_state valid_input clean clean_round settle
    push_expiration sift_up thaddeus.Log.Head.is_id nonce_key digest stringify member_of
    grants_subsume sort unique grants_cover grant_covers pattern_covers default_ttl
    policy_change_body
changed = refl

abbrev pub after_both : Service
after_both = (change_policy options engine 200 (change_at 1) (second_proof 200) after_change).1

pub changed_again :
    change_policy options engine 200 (change_at 1) (second_proof 200) after_change
    ≡ (ok (policy_at 2 200), after_both)
unfolding change_policy then_do checked audited consume_proof str_dec is_tenant is_did from_did
    decode_did_key canonical_grants member check_proof_signature from_base64url base64url verify_did
    signature_holds get put keys consume_nonce_state valid_input clean clean_round settle
    push_expiration sift_up thaddeus.Log.Head.is_id nonce_key digest stringify member_of
    grants_subsume sort unique grants_cover grant_covers pattern_covers default_ttl
    policy_change_body pad
changed_again = refl

abbrev pub first_record : ServiceHeadRecord
first_record = sign_head options engine 4000 authorization 0 (actor_claim ∷ []) first_content

abbrev pub after_advance : Service
after_advance = (advance options engine 4000 authorization advance_input start).1

pub advanced :
    advance options engine 4000 authorization advance_input start ≡ (ok first_record, after_advance)
unfolding advance then_do checked audited consume_proof str_dec is_tenant is_did from_did
    decode_did_key canonical_grants member check_proof_signature from_base64url base64url verify_did
    signature_holds get put keys consume_nonce_state valid_input clean clean_round settle
    push_expiration sift_up thaddeus.Log.Head.is_id nonce_key digest stringify member_of
    grants_subsume sort unique grants_cover grant_covers pattern_covers default_ttl reaches check
    validate head verify_actor_claim
advanced = refl

abbrev pub second_record : ServiceHeadRecord
second_record =
    sign_head options engine 4001 authorization 0 (actor_claim ∷ [])
      (record first_content { version = 1; previous = some first_record.id })

abbrev pub after_second : Service
after_second = (advance options engine 4001 authorization second_input after_advance).1

pub advanced_again :
    advance options engine 4001 authorization second_input after_advance
    ≡ (ok second_record, after_second)
unfolding advance then_do checked audited consume_proof str_dec is_tenant is_did from_did
    decode_did_key canonical_grants member check_proof_signature from_base64url base64url verify_did
    signature_holds get put keys consume_nonce_state valid_input clean clean_round settle
    push_expiration sift_up thaddeus.Log.Head.is_id nonce_key digest stringify member_of
    grants_subsume sort unique grants_cover grant_covers pattern_covers default_ttl reaches check
    validate head write_head name_key pad verify_actor_claim
advanced_again = refl
