-- ===== src/Team/Tests.antt =====
-- The theorems about members, invitations and sessions at sample rows.
use ledger_light_admin.Base.{
  ◌≡◌, ◌<◌, ◌⊎◌, refl, Bool, true, false, none, some, Option, [], ◌∷◌, Uuid, String, arith, Error,
  ok, err, find, filter, modify, UniqueBy, eq_text, bad_request, unauthorized, ◌==◌,
}
use ledger_light_admin.Access.Roles.{
  owner, cashier, manager, Role, is_owner, role_tier, can_assign_role, can_manage_member,
}
use ledger_light_admin.Access.Scope.{CurrentOrg}
use ledger_light_admin.Store.{Db, User, Membership, MembershipStatus, InviteToken, RefreshToken}
use ledger_light_admin.Team.{
  Runtime, MemberDetail, TeamMutation, is_member_of, is_membership, find_membership_or_throw,
  load_membership_with_relations, assert_member_manageable, assert_role_assignable,
  ensure_active_owner_count, create_invite_for_membership, create_audit_log, map_member_list_item,
  get_member_detail, build_invite_url,
}
use ledger_light_admin.Team.Members.{check_role_change, write_role, update_member_role, set_role}
use ledger_light_admin.Team.Status.{
  deactivate_member, check_deactivation, assert_status_manageable, write_deactivated,
}
use ledger_light_admin.Team.Owners.{has_active_owner}
use ledger_light_admin.Team.Owners.Deactivation.{deactivate_member_keeps_owner}
use ledger_light_admin.Team.Owners.RoleChange.{
  update_member_role_keeps_owner, update_member_role_within_authority,
}
use ledger_light_admin.Team.Invites.{
  AcceptInvite, accept_invitation, find_invitation_by_token, check_acceptance, write_accepted,
  get_invitation_member_detail, check_resend, resend_invite,
}
use ledger_light_admin.Team.Invites.Once.{accept_invitation_once}
use ledger_light_admin.Team.Invites.Single.{is_usable, resend_invite_single, new_invite}
use ledger_light_admin.Auth.{refresh, token_owner, issue, logout, serialize_jwt_membership}
use ledger_light_admin.Auth.Refresh.{CanRefresh, token_for, refresh_outcome}
use ledger_light_admin.Auth.Sessions.{refresh-logout, refresh-deactivate_member}
use ledger_light_admin.Samples.{open_db}

abbrev account : Uuid → Option String → User
account i hash = record {
  id = i;
  email = "a";
  password_hash = hash;
  first_name = none;
  last_name = none;
  is_active = true;
  last_login_at = none;
}

abbrev member_row : Uuid → Uuid → Role → MembershipStatus → Membership
member_row i user role status = record {
  id = i;
  organization_id = 1;
  user_id = user;
  role = role;
  status = status;
  created_at = 1;
  invited_at = none;
  activated_at = none;
  deactivated_at = none;
}

abbrev session : RefreshToken
session = record { id = 91; user_id = 72; token_hash = "h"; expires_at = 50; revoked_at = none }

abbrev invite : InviteToken
invite = record {
  id = 90;
  membership_id = 83;
  token_hash = "t";
  expires_at = 40;
  accepted_at = none;
}

-- Two owners, and somebody who was invited.
abbrev team_db : Db
team_db = record open_db {
  users = account 71 (some "x") ∷ account 72 (some "y") ∷ account 73 none ∷ [];
  memberships =
      member_row 81 71 owner MembershipStatus.active
      ∷ member_row 82 72 owner MembershipStatus.active
      ∷ member_row 83 73 cashier MembershipStatus.invited
      ∷ [];
  invite_tokens = invite ∷ [];
  refresh_tokens = session ∷ [];
}

abbrev boss : CurrentOrg
boss = record {
  membership_id = some 81;
  organization_id = 1;
  role = owner;
  has_all_locations = true;
  allowed_location_ids = [];
}

abbrev runtime : Runtime
runtime = record { normalize_email = λ email. email; sha256 = λ text. text; frontend_url = none }

deactivate_member_keeps_owner_example :
    has_active_owner 1 (deactivate_member 10 boss 71 82 team_db).1 ≡ true
unfolding UniqueBy
deactivate_member_keeps_owner_example =
    deactivate_member_keeps_owner 10 boss 71 82 team_db ((refl, (refl, tt)), ((refl, tt), (tt, tt)))
      1 refl

update_member_role_keeps_owner_example :
    has_active_owner 1 (update_member_role 10 boss 71 82 manager team_db).1 ≡ true
unfolding UniqueBy
update_member_role_keeps_owner_example =
    update_member_role_keeps_owner 10 boss 71 82 manager team_db
      ((refl, (refl, tt)), ((refl, tt), (tt, tt))) 1 refl

-- A member without locations of their own, as a reply shows them.
abbrev shown : Membership → User → Option InviteToken → Option Uuid → MemberDetail
shown m user pending expiry = record {
  member = record { membership = m; user = user; location_ids = []; invite = pending };
  has_all_locations = true;
  invite_expired = false;
  invite_expires_at = expiry;
}

abbrev answer : MemberDetail → String → Option String → TeamMutation
answer member action url = record { member = member; action = action; invite_url = url }

abbrev demoted_db : Db
demoted_db = (update_member_role 10 boss 71 82 manager team_db).1

update_member_role_within_authority_example :
    (target : Membership) × (find (is_member_of 1 82) team_db.memberships ≡ some target)
    × ((target.user_id == 71) ≡ false)
    × ((is_owner owner ≡ true)
        ⊎ ((role_tier owner < role_tier target.role) × (role_tier owner < role_tier manager)))
    × (demoted_db.memberships ≡ modify (is_membership 82) (set_role manager) team_db.memberships)
unfolding update_member_role check_role_change write_role find_membership_or_throw
    assert_member_manageable assert_role_assignable ensure_active_owner_count create_audit_log
    get_member_detail map_member_list_item can_assign_role can_manage_member find filter modify
update_member_role_within_authority_example =
    update_member_role_within_authority 10 boss 71 82 manager team_db demoted_db
      (answer
        (shown (member_row 82 72 manager MembershipStatus.active) (account 72 (some "y")) none none)
        "role_changed" none)
      refl

abbrev acceptance : AcceptInvite
acceptance = record {
  token = "t";
  password_hash = some "z";
  password_length = 9;
  first_name = none;
  last_name = none;
}

abbrev accepted_db : Db
accepted_db = (accept_invitation runtime 10 acceptance none team_db).1

accept_invitation_once_example :
    accept_invitation runtime 20 acceptance (some 73) accepted_db
    ≡ (err (bad_request "This invite link is invalid or expired"), accepted_db)
unfolding accept_invitation find_invitation_by_token check_acceptance write_accepted
    get_invitation_member_detail find_membership_or_throw load_membership_with_relations
    create_audit_log map_member_list_item find filter modify eq_text
accept_invitation_once_example =
    accept_invitation_once runtime 10 20 acceptance acceptance none (some 73) team_db accepted_db
      (shown (record (member_row 83 73 cashier MembershipStatus.active) { activated_at = some 10 })
        (account 73 (some "z")) none none)
      refl refl

abbrev resent_db : Db
resent_db = (resend_invite runtime 10 "u" boss 71 83 team_db).1

resend_invite_single_example :
    (◌≡◌ {A = Option String}
      (some "http://localhost:3000/invite/u")
      (some "http://localhost:3000/invite/u"))
    × (key : Uuid) × (filter (is_usable 10 83) resent_db.invite_tokens
        ≡ new_invite runtime 10 "u" 83 key ∷ [])
unfolding resend_invite check_resend create_invite_for_membership find_membership_or_throw
    load_membership_with_relations create_audit_log assert_member_manageable build_invite_url
    get_member_detail map_member_list_item find filter modify eq_text
resend_invite_single_example =
    resend_invite_single runtime 10 "u" boss 71 83 team_db resent_db
      (answer
        (shown (member_row 83 73 cashier MembershipStatus.invited) (account 73 none)
          (some (new_invite runtime 10 "u" 83 100)) (some 86400010))
        "invite_resent" (some "http://localhost:3000/invite/u"))
      refl

abbrev same_text : String → String → Bool
same_text left right = eq_text (some left) (some right)

abbrev left_db : Db
left_db = (logout 10 72 team_db).1

refresh-logout_example :
    refresh same_text 20 "h" 72 left_db ≡ (err (unauthorized "Invalid refresh token"), left_db)
refresh-logout_example = refresh-logout same_text 10 20 "h" 72 team_db (omega arith)

refresh_outcome_example :
    ((user : User) × CanRefresh same_text 20 "h" 72 team_db user
      × (refresh same_text 20 "h" 72 team_db ≡ (ok (token_for team_db user), team_db)))
    ⊎ ((user : User) → ¬ CanRefresh same_text 20 "h" 72 team_db user)
      × ((e : Error) × (refresh same_text 20 "h" 72 team_db ≡ (err e, team_db)))
refresh_outcome_example = refresh_outcome same_text 20 "h" 72 team_db

-- It is the first case.
refreshed :
    refresh same_text 20 "h" 72 team_db ≡ (ok (token_for team_db (account 72 (some "y"))), team_db)
unfolding refresh token_owner issue find filter eq_text serialize_jwt_membership
refreshed = refl

abbrev dismissed_db : Db
dismissed_db = (deactivate_member 10 boss 71 82 team_db).1

refresh-deactivate_member_example :
    (target : Membership) × (find (is_member_of 1 82) team_db.memberships ≡ some target)
    × (refresh same_text 20 "h" target.user_id dismissed_db
        ≡ (err (unauthorized "Invalid refresh token"), dismissed_db))
unfolding deactivate_member check_deactivation assert_status_manageable assert_member_manageable
    write_deactivated ensure_active_owner_count find_membership_or_throw
    load_membership_with_relations create_audit_log get_member_detail map_member_list_item find
    filter modify
refresh-deactivate_member_example =
    refresh-deactivate_member same_text 10 20 "h" boss 71 82 team_db dismissed_db
      (answer
        (shown
          (record (member_row 82 72 owner MembershipStatus.deactivated) {
            deactivated_at = some 10;
          })
          (account 72 (some "y")) none none)
        "member_deactivated" none)
      refl
