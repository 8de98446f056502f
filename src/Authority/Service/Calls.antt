-- ===== src/Authority/Service/Calls.antt =====
-- The calls of packages/authority/src/authority.ts in any order, those that wait in two parts, and what all
-- of them keep.
use thaddeus.Prelude.{ℕ, ◌≤◌, List, Str}
use thaddeus.Authority.{Grant}
use thaddeus.Authority.Wire.{Engine}
use thaddeus.Authority.Proof.{Proof, Action, IssueRequest, RevokeRequest}
use thaddeus.Authority.Token.{CredentialClaims}
use thaddeus.Authority.TenantPolicy.{PolicyBody, PolicyChange}
use thaddeus.Authority.Service.{AuthorityOptions, Service}
use thaddeus.Authority.Service.Policies.{create_tenant, change_policy}
use thaddeus.Authority.Service.Issuing.{begin_issue, finish_issue, revoke}
use thaddeus.Authority.Service.Use.{Authorization, begin_use, finish_use, queue, redeem}
use thaddeus.Authority.Service.History.{AdvanceInput, head, advance}
use thaddeus.Authority.Service.Keeps.{Keeps, Keeps-refl, Keeps-trans}
use thaddeus.Authority.Service.Keeps.Policies.{create_tenant-Keeps, change_policy-Keeps}
use thaddeus.Authority.Service.Keeps.Issuing.{begin_issue-Keeps, finish_issue-Keeps, revoke-Keeps}
use thaddeus.Authority.Service.Keeps.Use.{
  begin_use-Keeps, finish_use-Keeps, queue-Keeps, redeem-Keeps,
}
use thaddeus.Authority.Service.Keeps.History.{head-Keeps, advance-Keeps}

module _ (o : AuthorityOptions) (e : Engine) (b : ℕ) where
  -- One call, or one part of a call that waits, no later than `b`.
  pub data Call (s : Service) : Service → Type 0 where
    creates :
        (now : ℕ) (tenant : Str) (body : PolicyBody)
        → Call s (create_tenant o e now tenant body s).1
    changes :
        (now : ℕ) (c : PolicyChange) (p : Proof) → now ≤ b → Call s (change_policy o e now c p s).1
    begins_issue :
        (now : ℕ) (r : IssueRequest) (p : Proof) → now ≤ b → Call s (begin_issue o e now r p s).1
    finishes_issue :
        (now : ℕ) (id : Str) (r : IssueRequest) (grants : List Grant)
        → Call s (finish_issue o e now id r grants s).1
    revokes :
        (now : ℕ) (id : Str) (r : RevokeRequest) (p : Proof)
        → now ≤ b
        → Call s (revoke o e now id r p s).1
    begins_use :
        (now : ℕ) (c : CredentialClaims) (token : Str) (a : Action) (p : Proof)
        → now ≤ b
        → Call s (begin_use o e now c token a p s).1
    finishes_use :
        (now : ℕ) (c : CredentialClaims) (token : Str) (x : Action)
        → Call s (finish_use o e now c token x s).1
    queues : (now : ℕ) (id : Str) (a : Authorization) → Call s (queue o e now id a s).1
    redeems : (now : ℕ) (ticket : Str) → Call s (redeem o e now ticket s).1
    reads_head : (tenant repo view : Str) → Call s (head o e tenant repo view s).1
    advances : (now : ℕ) (a : Authorization) (i : AdvanceInput) → Call s (advance o e now a i s).1

  Call-Keeps : {s t : Service} → Call s t → Keeps b s t
  Call-Keeps {s} (creates now tenant body) = create_tenant-Keeps o e b now tenant body s
  Call-Keeps {s} (changes now c p n) = change_policy-Keeps o e b now c p s n
  Call-Keeps {s} (begins_issue now r p n) = begin_issue-Keeps o e b now r p s n
  Call-Keeps {s} (finishes_issue now id r grants) = finish_issue-Keeps o e b now id r grants s
  Call-Keeps {s} (revokes now id r p n) = revoke-Keeps o e b now id r p s n
  Call-Keeps {s} (begins_use now c token a p n) = begin_use-Keeps o e b now c token a p s n
  Call-Keeps {s} (finishes_use now c token x) = finish_use-Keeps o e b now c token x s
  Call-Keeps {s} (queues now id a) = queue-Keeps o e b now id a s
  Call-Keeps {s} (redeems now ticket) = redeem-Keeps o e b now ticket s
  Call-Keeps {s} (reads_head tenant repo view) = head-Keeps o e b tenant repo view s
  Call-Keeps {s} (advances now a i) = advance-Keeps o e b now a i s

  -- Calls one after another, those of different requests interleaved in any way.
  pub data Calls (s : Service) : Service → Type 0 where
    no_call : Calls s s
    one_more : {t u : Service} → Calls s t → Call t u → Calls s u

  -- Calls of any requests, one after another or interleaved, lose no revocation, no redeemed ticket, no
  -- stored policy or head, and no nonce that lives beyond the times of the calls; a tenant keeps a policy,
  -- the same or one of a later version.
  pub Calls-Keeps : {s t : Service} → Calls s t → Keeps b s t
  Calls-Keeps {s} no_call = Keeps-refl b s
  Calls-Keeps {s} (one_more {t} {u} cs c) = Keeps-trans b s t u (Calls-Keeps cs) (Call-Keeps c)
