-- ===== src/Team/Invites.antt =====
-- backend/src/domain/team/team.service.ts: resendInvite, resolveInvitation and acceptInvitation.
pub mod Once
pub mod Single
use ledger_light_admin.Base.{
  ℕ, Bool, true, false, not, ◌&&◌, ◌||◌, Option, none, some, is_some, List, String, Uuid, Instant,
  ltb, leb, find, modify, ⊤, ◌==◌, eq_text, if◌then◌else◌, ◌otherwise◌, forbidden, bad_request,
  unauthorized, not_found,
}
use ledger_light_admin.Access.Roles.{is_owner}
use ledger_light_admin.Access.Scope.{CurrentOrg}
use ledger_light_admin.Store.{
  Db, M, pure, throw, gets, or_throw, ◌>>=◌, ◌>>◌, throw_if, write, transaction, Membership,
  MembershipStatus, User, InviteToken, AuditAction,
}
use ledger_light_admin.Team.{
  Runtime, Member, MemberDetail, TeamMutation, status_eq, included, is_membership, has_user_id,
  find_membership_or_throw, load_membership_with_relations, assert_member_manageable,
  create_invite_for_membership, snapshot_membership, update_membership, create_audit_log,
  log_change, reply, map_member_list_item,
}

abbrev pub log_resent : CurrentOrg → Uuid → Uuid → Member → String → M String
log_resent org actor_user_id membership_id member url = do
  updated ← load_membership_with_relations membership_id
  log_change org actor_user_id AuditAction.invite_resent membership_id
      (some (snapshot_membership member)) updated
  pure url

-- The transaction of `resendInvite`.
abbrev pub resend : Runtime → Instant → String → CurrentOrg → Uuid → Uuid → Member → M String
resend runtime now raw_token org actor_user_id membership_id member =
    create_invite_for_membership runtime now raw_token membership_id
    >>= log_resent org actor_user_id membership_id member

unfoldable pub check_resend : CurrentOrg → Member → M ⊤
check_resend org member = do
  throw_if (not (status_eq member.membership.status MembershipStatus.invited))
      (bad_request "Only invited members can receive a resent invite")
  if is_owner org.role
      then pure tt
      else assert_member_manageable org.role member.membership.role false none

abbrev pub resent : Instant → CurrentOrg → Uuid → String → M TeamMutation
resent now org membership_id url = reply now org membership_id "invite_resent" (some url)

abbrev pub resend_to :
    Runtime → Instant → String → CurrentOrg → Uuid → Uuid → Member → M TeamMutation
resend_to runtime now raw_token org actor_user_id membership_id member = do
  check_resend org member
  transaction (resend runtime now raw_token org actor_user_id membership_id member)
      >>= resent now org membership_id

unfoldable pub resend_invite :
    Runtime → Instant → String → CurrentOrg → Uuid → Uuid → M TeamMutation
resend_invite runtime now raw_token org actor_user_id membership_id =
    find_membership_or_throw org.organization_id membership_id
    >>= resend_to runtime now raw_token org actor_user_id membership_id

-- `TeamInvitationRecord`
pub record Invitation : Type 0 where
  pub token : InviteToken
  pub member : Member

abbrev pub has_hash : String → InviteToken → Bool
has_hash hash token = eq_text (some token.token_hash) (some hash)

abbrev pub invitation_of : Db → Option InviteToken → Option Invitation
invitation_of db none = none
invitation_of db (some token) =
    elim (included db (find (is_membership token.membership_id) db.memberships)) [
      | none ↦ none
      | some member ↦ some (record { token = token; member = member })
    ]

unfoldable pub find_invitation_by_token : Runtime → String → Db → Option Invitation
find_invitation_by_token runtime token db =
    invitation_of db (find (has_hash (runtime.sha256 token)) db.invite_tokens)

-- It was accepted, is too old, or is for somebody who is not invited any more.
abbrev pub is_spent : Instant → Invitation → Bool
is_spent now invitation =
    is_some invitation.token.accepted_at
    || leb invitation.token.expires_at now
    || not (status_eq invitation.member.membership.status MembershipStatus.invited)

pub data InviteResolution : Type 0 where
  invalid expired : InviteResolution
  valid : MemberDetail → Bool → InviteResolution

abbrev pub resolved : Instant → Option Invitation → InviteResolution
resolved now none = invalid
resolved now (some invitation) =
    if is_spent now invitation
    then expired
    else valid (map_member_list_item now invitation.member)
        (not (is_some invitation.member.user.password_hash))

unfoldable pub resolve_invitation : Runtime → Instant → String → Db → InviteResolution
resolve_invitation runtime now token db = resolved now (find_invitation_by_token runtime token db)

-- `AcceptInviteDto`, with what `bcrypt.hash` makes of the password in this call, and the password's
-- length. A password of '' is `none`.
pub record AcceptInvite : Type 0 where
  pub token : String
  pub password_hash : Option String
  pub password_length : ℕ
  pub first_name : Option (Option String)
  pub last_name : Option (Option String)

abbrev pub check_account : Option Uuid → Member → M ⊤
check_account none member =
    throw (unauthorized "Please log in with the invited account before accepting this invitation")
check_account (some user_id) member =
    throw_if (not (user_id == member.membership.user_id))
      (forbidden "This invitation belongs to a different user account")

-- The checks of `acceptInvitation` on an invitation that is valid.
unfoldable pub check_acceptance : AcceptInvite → Option Uuid → Member → M ⊤
check_acceptance input authenticated_user_id member =
    if is_some member.user.password_hash
    then check_account authenticated_user_id member
    else throw_if (not (is_some input.password_hash) || ltb input.password_length 8)
        (bad_request "A password is required to accept this invitation")

abbrev pub set_account : AcceptInvite → User → User
set_account input user = record user {
  password_hash = input.password_hash;
  first_name = input.first_name otherwise user.first_name;
  last_name = input.last_name otherwise user.last_name;
  is_active = true;
}

abbrev pub set_active : Instant → Membership → Membership
set_active now m = record m { status = MembershipStatus.active; activated_at = some now }

abbrev pub has_token_id : Uuid → InviteToken → Bool
has_token_id i token = token.id == i

-- The transaction of `acceptInvitation`.
unfoldable pub write_accepted : Instant → AcceptInvite → Invitation → M ⊤
write_accepted now input invitation = do
  let member = invitation.member
  if is_some member.user.password_hash
      then pure tt
      else write (λ db. record db {
        users = modify (has_user_id member.membership.user_id) (set_account input) db.users;
      })
  update_membership invitation.token.membership_id (set_active now)
  write (λ db. record db {
    invite_tokens =
        modify (has_token_id invitation.token.id) (λ token. record token { accepted_at = some now })
          db.invite_tokens;
  })
  updated ← load_membership_with_relations invitation.token.membership_id
  create_audit_log member.membership.organization_id member.membership.user_id
      AuditAction.invite_accepted invitation.token.membership_id (some (snapshot_membership member))
      (some (snapshot_membership updated))

-- `getInvitationMemberDetail`
unfoldable pub get_invitation_member_detail : Instant → Uuid → M MemberDetail
get_invitation_member_detail now i = do
  found ← gets (λ db. find (is_membership i) db.memberships)
  membership ← or_throw found (not_found "Member not found")
  member ← find_membership_or_throw membership.organization_id i
  pure (map_member_list_item now member)

abbrev pub usable : Instant → Option Invitation → Option Invitation
usable now none = none
usable now (some invitation) = if is_spent now invitation then none else some invitation

abbrev pub accept : Instant → AcceptInvite → Option Uuid → Option Invitation → M MemberDetail
accept now input authenticated_user_id none =
    throw (bad_request "This invite link is invalid or expired")
accept now input authenticated_user_id (some invitation) = do
  check_acceptance input authenticated_user_id invitation.member
  transaction (write_accepted now input invitation)
  get_invitation_member_detail now invitation.token.membership_id

unfoldable pub accept_invitation : Runtime → Instant → AcceptInvite → Option Uuid → M MemberDetail
accept_invitation runtime now input authenticated_user_id = do
  invitation ← gets (λ db. usable now (find_invitation_by_token runtime input.token db))
  accept now input authenticated_user_id invitation
