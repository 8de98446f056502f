-- ===== src/Examples/Authorities/Witnesses.antt =====
-- Tests on the authority.
use mathlib.Core.List.{Memᴰ, [], ◌∷◌}
use thaddeus.Prelude.{
  ℕ, ◌+◌, ◌*◌, ◌≤◌, ◌<◌, ◌≡◌, ◌≢◌, ◌↔◌, refl, true, false, Option, some, none, Str, text, arith,
  length, sort, unique, member,
}
use thaddeus.Prelude.Texts.{str_dec}
use thaddeus.Prelude.Dict.{get}
use thaddeus.Json.{stringify}
use thaddeus.Log.Head.{is_hex}
use thaddeus.Identity.{starts_with, signature_holds, from_did, decode_did_key}
use thaddeus.Authority.{grants_cover, grant_covers, pattern_covers, canonical_grants}
use thaddeus.Paths.{ends_with, chop}
use thaddeus.Authority.Wire.{ok, is_did, verify_did}
use thaddeus.Authority.Wire.Base64.{base64url, all-IsBytes}
use thaddeus.Authority.Proof.{is_tenant, grants_json}
use thaddeus.Authority.Token.{is_token_id, claims_json, encode_credential, decode_credential}
use thaddeus.Authority.Token.Roundtrip.{
  HasForm, IsRead, IsSigner, decode_credential-encode_credential,
}
use thaddeus.Authority.TenantPolicy.{TenantPolicy, PolicyMember, member_of}
use thaddeus.Authority.Service.{Service, default_ttl, consume_proof, validate, put_audit, allow}
use thaddeus.Authority.Service.Issuing.{issue_base, issued_base}
use thaddeus.Authority.Service.Use.{authorize, redeem}
use thaddeus.Authority.Token.{encode_ticket}
use thaddeus.Authority.Service.Opening.{make_options}
use thaddeus.Authority.Service.Keeps.{Keeps}
use thaddeus.Authority.Service.Calls.{no_call, one_more, revokes, Calls-Keeps}
use thaddeus.Authority.Service.Allowed.{IsAuthorized}
use thaddeus.Authority.Service.Allowed.Exact.{authorize_exact}
use thaddeus.Authority.Service.Refusals.{HarmlessIfRefused}
use thaddeus.Authority.Service.Refusals.Every.{refused_changes_nothing}
use thaddeus.Authority.Service.Policies.{create_tenant, change_policy}
use thaddeus.Authority.Service.Issuing.{begin_issue, finish_issue, revoke}
use thaddeus.Authority.Service.Use.{begin_use, finish_use}
use thaddeus.Authority.Service.History.{advance}
use thaddeus.Authority.Service.Revoked.{itself, revoke_is_final}
use thaddeus.Authority.Service.Once.{authorize_once, redeem_once}
use thaddeus.Authority.Service.Issued.Call.{IsIssued, issue-IsIssued}
use thaddeus.Authority.Service.Issued.Bounds.{issue-bounds}
use thaddeus.Authority.Service.Replaced.{change_policy_serial}
use thaddeus.Authority.Service.Advanced.Next.{IsAdvanced, advance-IsAdvanced}
use thaddeus.Authority.Service.Advanced.NoFork.{advance_no_fork}
use thaddeus.Authority.ServiceHead.{ServiceHeadRecord, verify_head_record, describe_attribution}
use thaddeus.Authority.Service.Advanced.Genuine.{advance-IsGenuine}
use thaddeus.Authority.Service.History.{sign_head}
use thaddeus.Examples.{ann_did}
use thaddeus.Examples.Authorities.{
  body, thirty_two, cred, signer, options, engine, start, proof_at, request, granted, action,
  authorization, revocation, ticket, change_at, policy_at, advance_input, second_input,
  second_proof,
}
use thaddeus.Examples.Authorities.Runs.{
  queue_engine, after_issue, issued, decoded, after_use, used, after_revoke, revoked, after_redeem,
  once_redeemed, after_change, changed, after_both, changed_again, first_record, after_advance,
  advanced, second_record, after_second, advanced_again,
}

authorize_exact_example :
    (authorize options engine (λ s. s) 2000 2001 granted.token action (proof_at 2000) start
      ≡ (ok authorization, after_use))
    ↔ ((m : Service) × (after_use ≡ m)
        × IsAuthorized options engine 2000 2001 granted.token action
            (proof_at 2000)
            start
            m
            after_use
            authorization)
authorize_exact_example =
    authorize_exact options engine (λ s. s) 2000 2001 granted.token action (proof_at 2000) start
      after_use authorization

refused_changes_nothing_example :
    HarmlessIfRefused options after_use
      (create_tenant options engine 2001 (text "t") body after_use)
    × HarmlessIfRefused options after_use
        (change_policy options engine 2001 (change_at 1) (proof_at 2000) after_use)
    × HarmlessIfRefused options after_use
        (begin_issue options engine 2001 request (proof_at 2000) after_use)
    × HarmlessIfRefused options after_use
        (finish_issue options engine 2001 thirty_two request [] after_use)
    × HarmlessIfRefused options after_use
        (revoke options engine 2001 thirty_two revocation (proof_at 2000) after_use)
    × HarmlessIfRefused options after_use
        (begin_use options engine 2001 cred granted.token action (proof_at 2000) after_use)
    × HarmlessIfRefused options after_use
        (finish_use options engine 2001 cred granted.token action after_use)
    × HarmlessIfRefused options after_use (redeem options engine 2001 granted.token after_use)
    × HarmlessIfRefused options after_use
        (advance options engine 2001 authorization second_input after_use)
refused_changes_nothing_example =
    refused_changes_nothing options engine 2001 thirty_two (text "t") granted.token body
      (change_at 1) request [] revocation cred action authorization second_input (proof_at 2000)
      after_use

revoke_is_final_example : validate options after_revoke 3001 cred action ≢ ok 0
revoke_is_final_example =
    revoke_is_final options engine 3000 3000 thirty_two revocation (proof_at 3000) start
      after_revoke after_revoke cred 3001 action 0 revoked (itself granted.token refl decoded)
      no_call

authorize_once_example :
    authorize options engine (λ s. s) 2001 2002 granted.token action (proof_at 2000) after_use
    ≢ (ok authorization, after_use)
authorize_once_example =
    authorize_once options engine (λ s. s) (λ s. s) 2001 2000 2001 2001 2002 granted.token
      granted.token action action (proof_at 2000) start after_use after_use after_use authorization
      authorization (λ m. no_call) used no_call (omega arith) refl

redeem_once_example :
    redeem options queue_engine 3001 (encode_ticket queue_engine ticket signer) after_redeem
    ≢ (ok authorization, start)
redeem_once_example =
    redeem_once options queue_engine 0 3000 3001 (encode_ticket queue_engine ticket signer) start
      after_redeem after_redeem start (record authorization { ticket = some thirty_two })
      authorization once_redeemed no_call

issue-IsIssued_example :
    (m : Service) × IsIssued options engine 1000 1001 request (proof_at 1000) start m m granted
    × (after_issue
        ≡ put_audit options 1001
            (issued_base options engine granted (issue_base options engine request))
            allow
            none
            m)
issue-IsIssued_example =
    issue-IsIssued options engine (λ s. s) 1000 1001 thirty_two request (proof_at 1000) start
      after_issue granted issued

made :
    make_options engine signer (λ kind. none) none (some 3) (text "i") (λ t k b. false) ≡ ok options
unfolding make_options is_did from_did decode_did_key default_ttl str_dec
made = refl

valid : validate options start 2000 cred action ≡ ok 0
unfolding validate get member_of grants_cover grant_covers pattern_covers str_dec member ends_with
    starts_with chop
valid = refl

issue-bounds_example :
    (u : Service) × (consume_proof options engine 1000 ann_did (proof_at 1000) start ≡ (ok tt, u))
    × (2000 < 1001 + (default_ttl cred.kind).max_ms)
    × ((pattern : Str)
        → Memᴰ pattern action.paths
        → (p : TenantPolicy) × (m : PolicyMember) × (get u.policies request.tenant ≡ some p)
          × (cred.policy_version ≡ p.version)
          × (member_of p ann_did ≡ some m)
          × (grants_cover m.grants (text "r") (text "integrate") pattern ≡ true))
issue-bounds_example =
    issue-bounds options engine signer (λ kind. none) none (some 3) (text "i") (λ t k b. false)
      (λ s. s) 1000 1001 thirty_two request (proof_at 1000) start after_issue granted start 2000
      action 0 made issued valid

change_policy_serial_example : (1 ≤ 1) × (1 < 2)
change_policy_serial_example =
    change_policy_serial options engine 100 100 200 (change_at 0) (change_at 1) (proof_at 100)
      (second_proof 200) start after_change after_change after_both (policy_at 1 100)
      (policy_at 2 200) changed no_call changed_again refl

advance-IsAdvanced_example :
    (tip : Option ServiceHeadRecord) × (m : Service) × (p : TenantPolicy) × IsAdvanced options
      engine 4000 authorization advance_input start after_advance first_record tip m p
advance-IsAdvanced_example =
    advance-IsAdvanced options engine 4000 authorization advance_input start after_advance
      first_record advanced

advance_no_fork_example : ◌≢◌ {A = ℕ} 0 1
unfolding sign_head
advance_no_fork_example =
    advance_no_fork options engine 4000 4000 4001 authorization authorization advance_input
      second_input start after_advance after_advance after_second first_record second_record
      advanced no_call advanced_again (refl, refl, refl)

Calls-Keeps_example : Keeps 3000 start after_revoke
Calls-Keeps_example =
    Calls-Keeps options engine 3000
      (one_more no_call (revokes 3000 thirty_two revocation (proof_at 3000) (omega arith)))

signer-IsSigner : IsSigner engine signer
unfolding verify_did signature_holds from_did decode_did_key str_dec
signer-IsSigner = record { bytes = λ m. all-IsBytes _ refl; verifies = λ m. refl }

advance-IsGenuine_example :
    (verify_head_record engine first_record ann_did ≡ ok tt)
    × (ann_did ≡ ann_did)
    × (ann_did ≡ ann_did)
    × ((describe_attribution engine first_record).signed_by ≡ ann_did ∷ [])
unfolding describe_attribution sign_head
advance-IsGenuine_example =
    advance-IsGenuine options engine 4000 authorization advance_input start after_advance
      first_record signer-IsSigner advanced

cred-HasForm : HasForm cred
unfolding is_token_id is_hex is_tenant canonical_grants str_dec sort unique stringify
cred-HasForm = record {
  id = refl;
  tenant = refl;
  issued_at = omega arith;
  expires_at = omega arith;
  policy_version = omega arith;
  grants = refl;
}

cred-IsRead : IsRead engine (claims_json cred)
unfolding stringify claims_json grants_json str_dec
cred-IsRead = record { bytes = all-IsBytes _ refl; parsed = refl }

short : length (encode_credential engine cred signer) ≤ 64 * 1024
unfolding encode_credential base64url stringify claims_json grants_json
short = omega arith

decode_credential-encode_credential_example :
    decode_credential engine (encode_credential engine cred signer) ann_did ≡ ok cred
decode_credential-encode_credential_example =
    decode_credential-encode_credential engine signer cred signer-IsSigner cred-IsRead cred-HasForm
      refl short
