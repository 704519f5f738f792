-- ===== src/Team/Status.antt =====
-- backend/src/domain/team/team.service.ts: deactivateMember and reactivateMember.

use ledger_light_admin.Base.{
  Bool, false, not, Option, none, some, is_some, String, Uuid, Instant, ⊤, ◌==◌, if◌then◌else◌,
  forbidden,
}
use ledger_light_admin.Access.Roles.{is_owner}
use ledger_light_admin.Access.Scope.{CurrentOrg}
use ledger_light_admin.Store.{
  M, pure, ◌>>=◌, ◌>>◌, throw_if, transaction, Membership, MembershipStatus, AuditAction,
}
use ledger_light_admin.Team.{
  Runtime, Member, TeamMutation, find_membership_or_throw, load_membership_with_relations,
  assert_member_manageable, ensure_active_owner_count, create_invite_for_membership,
  snapshot_membership, update_membership, revoke_tokens, log_change, reply,
}

-- An owner is managed by owners only, and others by those above them.
unfoldable pub assert_status_manageable : CurrentOrg → Member → String → M ⊤
assert_status_manageable org member message =
    if not (is_owner member.membership.role)
    then assert_member_manageable org.role member.membership.role false none
    else throw_if (not (is_owner org.role)) (forbidden message)

abbrev pub set_deactivated : Instant → Membership → Membership
set_deactivated now m = record m {
  status = MembershipStatus.deactivated;
  deactivated_at = some now;
}

unfoldable pub check_deactivation : CurrentOrg → Uuid → Uuid → Member → M ⊤
check_deactivation org actor_user_id membership_id member = do
  throw_if (member.membership.user_id == actor_user_id)
      (forbidden "You cannot deactivate your own membership")
  assert_status_manageable org member "Only an owner can deactivate another owner"
  if is_owner member.membership.role
      then ensure_active_owner_count org.organization_id membership_id
      else pure tt

-- The transaction of `deactivateMember`.
unfoldable pub write_deactivated : Instant → CurrentOrg → Uuid → Uuid → Member → M ⊤
write_deactivated now org actor_user_id membership_id member = do
  update_membership membership_id (set_deactivated now)
  revoke_tokens now member.membership.user_id
  updated ← load_membership_with_relations membership_id
  log_change org actor_user_id AuditAction.member_deactivated membership_id
      (some (snapshot_membership member)) updated

abbrev pub deactivate : Instant → CurrentOrg → Uuid → Uuid → Member → M TeamMutation
deactivate now org actor_user_id membership_id member = do
  check_deactivation org actor_user_id membership_id member
  transaction (write_deactivated now org actor_user_id membership_id member)
  reply now org membership_id "member_deactivated" none

unfoldable pub deactivate_member : Instant → CurrentOrg → Uuid → Uuid → M TeamMutation
deactivate_member now org actor_user_id membership_id =
    find_membership_or_throw org.organization_id membership_id
    >>= deactivate now org actor_user_id membership_id

-- The columns of a membership that begins again: at once for a user with a password, and with an
-- invitation for one without.
abbrev pub set_reactivated : Instant → Bool → Membership → Membership
set_reactivated now has_password m = record m {
  status = if has_password then MembershipStatus.active else MembershipStatus.invited;
  deactivated_at = none;
  activated_at = if has_password then some now else none;
  invited_at = if has_password then m.invited_at else some now;
}

-- The transaction of `reactivateMember`; the answer is the link of the invitation.
unfoldable pub write_reactivated :
    Runtime → Instant → String → CurrentOrg → Uuid → Uuid → Member → M (Option String)
write_reactivated runtime now raw_token org actor_user_id membership_id member = do
  let has_password = is_some member.user.password_hash
  update_membership membership_id (set_reactivated now has_password)
  invite_url ←
      if has_password
      then (revoke_tokens now member.membership.user_id >> pure none)
      else (create_invite_for_membership runtime now raw_token membership_id >>= λ url.
          pure (some url))
  updated ← load_membership_with_relations membership_id
  log_change org actor_user_id
      (if has_password then AuditAction.member_reactivated else AuditAction.invite_sent)
      membership_id (some (snapshot_membership member)) updated
  pure invite_url

unfoldable pub reactivate_member :
    Runtime → Instant → String → CurrentOrg → Uuid → Uuid → M TeamMutation
reactivate_member runtime now raw_token org actor_user_id membership_id = do
  member ← find_membership_or_throw org.organization_id membership_id
  assert_status_manageable org member "Only an owner can reactivate another owner"
  invite_url ←
      transaction (write_reactivated runtime now raw_token org actor_user_id membership_id member)
  reply now org membership_id
      (if is_some member.user.password_hash then "member_reactivated" else "member_reinvited")
      invite_url
