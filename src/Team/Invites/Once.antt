-- ===== src/Team/Invites/Once.antt =====
-- backend/src/domain/team/team.service.ts: an invitation is accepted once.
use ledger_light_admin.Base.{
  true, Option, none, some, map_option, String, Uuid, Instant, ok, err, bad_request, find,
  find-modify, modify, rewritten, ◌==◌, ◌≡◌, refl, sym, ap, ◌∙◌, arith, List,
}
use ledger_light_admin.Base.Atomic.{bind_succeeds, transaction_ok}
use ledger_light_admin.Store.{Db, ◌>>◌, transaction, InviteToken}
use ledger_light_admin.Team.{
  Runtime, Member, MemberDetail, load_membership_with_relations, create_audit_log,
  find_membership_or_throw,
}
use ledger_light_admin.Team.Invites.{
  Invitation, has_hash, invitation_of, find_invitation_by_token, AcceptInvite, check_acceptance,
  has_token_id, write_accepted, get_invitation_member_detail, usable, accept, accept_invitation,
}

abbrev set_accepted : Instant → InviteToken → InviteToken
set_accepted now token = record token { accepted_at = some now }

write_accepted_tokens :
    (now : Instant) (input : AcceptInvite) (invitation : Invitation) (db : Db)
    → (write_accepted now input invitation db).1.invite_tokens
      ≡ modify (has_token_id invitation.token.id) (set_accepted now) db.invite_tokens
unfolding write_accepted load_membership_with_relations create_audit_log
write_accepted_tokens now input invitation db = ground arith

get_invitation_member_detail_reads :
    (now : Instant) (i : Uuid) (db : Db) → (get_invitation_member_detail now i db).1 ≡ db
unfolding get_invitation_member_detail find_membership_or_throw
get_invitation_member_detail_reads now i db = ground arith

check_acceptance_reads :
    (input : AcceptInvite) (user : Option Uuid) (member : Member) (db : Db)
    → (check_acceptance input user member db).1 ≡ db
unfolding check_acceptance
check_acceptance_reads input user member db = ground arith

-- An accepted invitation is of no use any more.
accepted_unusable :
    (now later : Instant) (token : InviteToken) (db : Db)
    → usable later (invitation_of db (some (set_accepted now token))) ≡ none
accepted_unusable now later token db = ground arith

usable_is :
    (now : Instant) (o : Option Invitation) (invitation : Invitation)
    → usable now o ≡ some invitation
    → o ≡ some invitation
usable_is now none invitation e = cc
usable_is now (some other) invitation e = ground arith

invitation_token :
    (db : Db) (o : Option InviteToken) (invitation : Invitation)
    → invitation_of db o ≡ some invitation
    → o ≡ some invitation.token
invitation_token db none invitation e = cc
invitation_token db (some token) invitation e = ground arith

-- The tokens after an acceptance that succeeds.
accept_ok :
    (now : Instant) (input : AcceptInvite) (user : Option Uuid) (o : Option Invitation)
    (db db' : Db) (detail : MemberDetail)
    → accept now input user o db ≡ (ok detail, db')
    → (invitation : Invitation) × (o ≡ some invitation)
      × (db'.invite_tokens
          ≡ modify (has_token_id invitation.token.id) (set_accepted now) db.invite_tokens)
accept_ok now input user none db db' detail e = absurd (ground arith)
accept_ok now input user (some invitation) db db' detail e =
    let (u, db1, checked, e1) =
      bind_succeeds (check_acceptance input user invitation.member)
        (λ _.
          transaction (write_accepted now input invitation)
          >> get_invitation_member_detail now invitation.token.membership_id)
        db e in
    let (v, db2, wrote, e2) =
      bind_succeeds (transaction (write_accepted now input invitation))
        (λ _. get_invitation_member_detail now invitation.token.membership_id) db1 e1 in
    let first : db1 ≡ db =
      sym (ap (λ r. r.1) checked) ∙ check_acceptance_reads input user invitation.member db in
    let last : db' ≡ db2 =
      sym (ap (λ r. r.1) e2)
      ∙ get_invitation_member_detail_reads now invitation.token.membership_id db2 in
    let done = transaction_ok (write_accepted now input invitation) db1 wrote in
    let tokens : db2.invite_tokens
        ≡ modify (has_token_id invitation.token.id) (set_accepted now) db1.invite_tokens =
      sym (ap (λ r. r.1.invite_tokens) done) ∙ write_accepted_tokens now input invitation db1 in
    (invitation, refl, ap (λ d. d.invite_tokens) last ∙ tokens ∙ rw first refl)

-- The link of a token that was accepted finds the accepted token.
accepted_found :
    (hash : String) (now : Instant) (token : InviteToken) (tokens : List InviteToken)
    → find (has_hash hash) tokens ≡ some token
    → find (has_hash hash) (modify (has_token_id token.id) (set_accepted now) tokens)
      ≡ some (set_accepted now token)
accepted_found hash now token tokens e =
    find-modify (has_hash hash) (has_token_id token.id) (set_accepted now) (λ x. ground arith)
      tokens
    ∙ ap (map_option (rewritten (has_token_id token.id) (set_accepted now))) e
    ∙ rw self refl
  where
    self : (token.id == token.id) ≡ true
    self = ground arith

-- An invitation is accepted once: after it was, every further acceptance of the same link, by
-- whomever and at whatever time, is refused and changes nothing.
pub accept_invitation_once :
    (runtime : Runtime) (now later : Instant) (input again : AcceptInvite)
    (user other : Option Uuid) (db db' : Db) (detail : MemberDetail)
    → accept_invitation runtime now input user db ≡ (ok detail, db')
    → again.token ≡ input.token
    → accept_invitation runtime later again other db'
      ≡ (err (bad_request "This invite link is invalid or expired"), db')
unfolding accept_invitation find_invitation_by_token
accept_invitation_once runtime now later input again user other db db' detail e same =
    let (invitation, read, tokens) =
      accept_ok now input user (usable now (find_invitation_by_token runtime input.token db)) db db'
        detail e in
    let token =
      invitation_token db (find (has_hash (runtime.sha256 input.token)) db.invite_tokens) invitation
        (usable_is now _ invitation read) in
    let found : find (has_hash (runtime.sha256 input.token)) db'.invite_tokens
        ≡ some (set_accepted now invitation.token) =
      ap (find (has_hash (runtime.sha256 input.token))) tokens
      ∙ accepted_found (runtime.sha256 input.token) now invitation.token db.invite_tokens token in
    rw (same, found, accepted_unusable now later invitation.token db') refl
