-- ===== src/Team/Members.antt =====
-- backend/src/domain/team/team.service.ts: updateMember, updateMemberRole and updateMemberLocations.

use ledger_light_admin.Base.{
  Bool, false, not, ◌&&◌, Option, none, some, List, String, Uuid, Instant, find, modify, ⊤, ◌==◌,
  eq_text, map_option, if◌then◌else◌, ◌otherwise◌, forbidden, conflict,
}
use ledger_light_admin.Access.Roles.{Role, is_owner}
use ledger_light_admin.Access.Scope.{CurrentOrg}
use ledger_light_admin.Store.{
  M, pure, gets, ◌>>=◌, ◌>>◌, throw_if, write, transaction, Membership, User, AuditAction,
}
use ledger_light_admin.Team.{
  Runtime, Member, TeamMutation, find_membership_or_throw, load_membership_with_relations,
  assert_role_assignable, assert_member_manageable, ensure_active_owner_count,
  resolve_scoped_location_ids, replace_membership_locations, snapshot_membership, update_membership,
  log_change, reply, has_user_id,
}

-- `UpdateTeamMemberDto`. A text that is null or is left out is `none` for the email; for the names
-- the outer `none` is a key that is left out.
pub record UpdateTeamMember : Type 0 where
  pub email : Option String
  pub first_name : Option (Option String)
  pub last_name : Option (Option String)

abbrev pub has_email : String → User → Bool
has_email email user = eq_text (some user.email) (some email)

-- `membership.id === organization.membershipId`
abbrev pub is_me : CurrentOrg → Uuid → Bool
is_me org i = elim org.membership_id [ none ↦ false | some own ↦ i == own ]

-- An account of somebody else has the email.
abbrev pub is_taken_by : Uuid → Option User → Bool
is_taken_by user_id none = false
is_taken_by user_id (some user) = not (user.id == user_id)

abbrev pub set_profile : Option String → UpdateTeamMember → User → User
set_profile email input user = record user {
  email = email otherwise user.email;
  first_name = input.first_name otherwise user.first_name;
  last_name = input.last_name otherwise user.last_name;
}

-- The check of a new email, which is `none` where there is none or it is ''.
abbrev pub check_email : Option String → Member → M ⊤
check_email none member = pure tt
check_email (some email) member = do
  existing ← gets (λ db. find (has_email email) db.users)
  throw_if (not (has_email email member.user) && is_taken_by member.membership.user_id existing)
      (conflict "Email is already in use by another account")

abbrev pub not_empty : Option String → Option String
not_empty none = none
not_empty (some t) = if eq_text (some t) (some "") then none else some t

unfoldable pub update_member :
    Runtime → Instant → CurrentOrg → Uuid → Uuid → UpdateTeamMember → M TeamMutation
update_member runtime now org actor_user_id membership_id input = do
  member ← find_membership_or_throw org.organization_id membership_id
  assert_member_manageable org.role member.membership.role (is_me org member.membership.id) none
  let email = not_empty (map_option runtime.normalize_email input.email)
  check_email email member
  write (λ db. record db {
    users = modify (has_user_id member.membership.user_id) (set_profile email input) db.users;
  })
  updated ← find_membership_or_throw org.organization_id membership_id
  log_change org actor_user_id AuditAction.update membership_id (some (snapshot_membership member))
      updated
  reply now org membership_id "member_updated" none

abbrev pub set_role : Role → Membership → Membership
set_role role m = record m { role = role }

-- An owner would become something else.
abbrev pub steps_down : Member → Role → Bool
steps_down member role = is_owner member.membership.role && not (is_owner role)

-- The checks of `updateMemberRole`.
unfoldable pub check_role_change : CurrentOrg → Uuid → Uuid → Role → Member → M ⊤
check_role_change org actor_user_id membership_id role member = do
  throw_if (member.membership.user_id == actor_user_id)
      (forbidden "You cannot change your own role")
  assert_member_manageable org.role member.membership.role false (some (steps_down member role))
  assert_role_assignable org.role role
  if steps_down member role
      then ensure_active_owner_count org.organization_id membership_id
      else pure tt

-- What `updateMemberRole` writes and answers.
unfoldable pub write_role : Instant → CurrentOrg → Uuid → Uuid → Role → Member → M TeamMutation
write_role now org actor_user_id membership_id role member = do
  update_membership membership_id (set_role role)
  updated ← find_membership_or_throw org.organization_id membership_id
  log_change org actor_user_id AuditAction.role_changed membership_id
      (some (snapshot_membership member)) updated
  reply now org membership_id "role_changed" none

abbrev pub change_role : Instant → CurrentOrg → Uuid → Uuid → Role → Member → M TeamMutation
change_role now org actor_user_id membership_id role member = do
  check_role_change org actor_user_id membership_id role member
  write_role now org actor_user_id membership_id role member

unfoldable pub update_member_role : Instant → CurrentOrg → Uuid → Uuid → Role → M TeamMutation
update_member_role now org actor_user_id membership_id role =
    find_membership_or_throw org.organization_id membership_id
    >>= change_role now org actor_user_id membership_id role

abbrev pub write_locations : CurrentOrg → Uuid → Uuid → Member → List Uuid → M ⊤
write_locations org actor_user_id membership_id member ids = do
  replace_membership_locations membership_id ids
  updated ← load_membership_with_relations membership_id
  log_change org actor_user_id AuditAction.location_scope_changed membership_id
      (some (snapshot_membership member)) updated

unfoldable pub update_member_locations :
    Instant → CurrentOrg → Uuid → Uuid → Option (List Uuid) → M TeamMutation
update_member_locations now org actor_user_id membership_id requested = do
  member ← find_membership_or_throw org.organization_id membership_id
  assert_member_manageable org.role member.membership.role false none
  ids ← resolve_scoped_location_ids org requested
  transaction (write_locations org actor_user_id membership_id member ids)
  reply now org membership_id "locations_updated" none
