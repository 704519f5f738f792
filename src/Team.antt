-- ===== src/Team.antt =====
-- backend/src/domain/team/team.service.ts: how members are found, the checks that the operations
-- share, and what they write. The operations are in Members, Status and Invites.
pub mod Members
pub mod Status
pub mod Invites
pub mod Owners
mod Tests
use Prim.Native.String.{◌++◌ as text_append}
use ledger_light_admin.Base.{
  ℕ, ◌+◌, ◌*◌, Bool, true, false, not, ◌&&◌, ◌||◌, Option, none, some, is_some, List, [], ◌∷◌, map,
  any, length, String, Uuid, Instant, ltb, leb, find, filter, modify, remove, map_option, ok, err,
  ⊤, ◌==◌, eq_text, if◌then◌else◌, ◌otherwise◌, not_found, forbidden, conflict, unique_violation,
}
use ledger_light_admin.Access.Roles.{Role, is_owner, can_assign_role, can_manage_member}
use ledger_light_admin.Access.Scope.{CurrentOrg, includes_id}
use ledger_light_admin.Store.{
  Db, M, pure, throw, gets, or_throw, lift, ◌>>=◌, ◌>>◌, throw_if, write, fresh_id, Membership,
  MembershipStatus, User, InviteToken, MembershipLocation, Location, LocationStatus, AuditAction,
  AuditEntityType, AuditField, AuditContext,
}
use ledger_light_admin.Order.Create.{distinct}

-- The texts that JavaScript and node:crypto make, and the address of the frontend.
pub record Runtime : Type 0 where
  -- `email.trim().toLowerCase()`
  pub normalize_email : String → String
  -- `createHash('sha256')`, as hexadecimal text
  pub sha256 : String → String
  -- FRONTEND_URL, where it is not ''
  pub frontend_url : Option String

abbrev pub status_eq : MembershipStatus → MembershipStatus → Bool
status_eq MembershipStatus.active MembershipStatus.active = true
status_eq MembershipStatus.invited MembershipStatus.invited = true
status_eq MembershipStatus.deactivated MembershipStatus.deactivated = true
status_eq _ _ = false

abbrev pub is_membership : Uuid → Membership → Bool
is_membership i m = m.id == i

abbrev pub is_member_of : Uuid → Uuid → Membership → Bool
is_member_of organization_id i m = m.id == i && m.organization_id == organization_id

abbrev pub has_user_id : Uuid → User → Bool
has_user_id i user = user.id == i

abbrev pub is_place_of : Uuid → MembershipLocation → Bool
is_place_of i entry = entry.membership_id == i

-- The invitations that `inviteTokens` includes: the newest that was not accepted.
abbrev pub is_open_invite : Uuid → InviteToken → Bool
is_open_invite i invite = invite.membership_id == i && not (is_some invite.accepted_at)

-- `TeamMemberDetailRecord`
pub record Member : Type 0 where
  pub membership : Membership
  pub user : User
  pub location_ids : List Uuid
  pub invite : Option InviteToken

abbrev pub location_ids_of : Db → Uuid → List Uuid
location_ids_of db i =
    map (λ (entry : MembershipLocation). entry.location_id)
      (filter (is_place_of i) db.membership_locations)

-- A membership with what is included. Its user is a row, since the column is a foreign key.
abbrev pub included : Db → Option Membership → Option Member
included db none = none
included db (some m) =
    map_option
      (λ user. record {
        membership = m;
        user = user;
        location_ids = location_ids_of db m.id;
        invite = find (is_open_invite m.id) db.invite_tokens;
      })
      (find (has_user_id m.user_id) db.users)

unfoldable pub find_membership_or_throw : Uuid → Uuid → M Member
find_membership_or_throw organization_id i = do
  found ← gets (λ db. included db (find (is_member_of organization_id i) db.memberships))
  or_throw found (not_found "Member not found")

unfoldable pub load_membership_with_relations : Uuid → M Member
load_membership_with_relations i = do
  found ← gets (λ db. included db (find (is_membership i) db.memberships))
  or_throw found (not_found "Member not found")

unfoldable pub assert_role_assignable : Role → Role → M ⊤
assert_role_assignable actor target =
    throw_if (not (can_assign_role actor target)) (forbidden "You cannot assign that role")

unfoldable pub assert_member_manageable : Role → Role → Bool → Option Bool → M ⊤
assert_member_manageable actor target is_me allow_same_tier_owner =
    throw_if (not is_me && not (can_manage_member actor target allow_same_tier_owner))
      (forbidden "You cannot manage this member")

abbrev pub is_active_owner : Uuid → Membership → Bool
is_active_owner organization_id m =
    m.organization_id == organization_id
    && is_owner m.role
    && status_eq m.status MembershipStatus.active

abbrev pub is_other_active_owner : Uuid → Uuid → Membership → Bool
is_other_active_owner organization_id excluded m =
    is_active_owner organization_id m && not (m.id == excluded)

unfoldable pub ensure_active_owner_count : Uuid → Uuid → M ⊤
ensure_active_owner_count organization_id excluded = do
  owner_count ←
      gets (λ db. length (filter (is_other_active_owner organization_id excluded) db.memberships))
  throw_if (owner_count == 0) (conflict "The last remaining owner cannot be changed or deactivated")

abbrev pub is_active_location : Location → Bool
is_active_location location = elim location.status [ LocationStatus.active ↦ true | _ ↦ false ]

-- The condition on the locations that may be assigned.
abbrev pub is_assignable : CurrentOrg → Location → Bool
is_assignable org location =
    location.organization_id == org.organization_id
    && is_active_location location
    && (org.has_all_locations || includes_id org.allowed_location_ids location.id)

-- `scopedIds`: those asked for, or those of the actor.
unfoldable pub scoped_ids : CurrentOrg → Option (List Uuid) → List Uuid
scoped_ids org none = if org.has_all_locations then [] else org.allowed_location_ids
scoped_ids org (some []) = if org.has_all_locations then [] else org.allowed_location_ids
scoped_ids org (some (i ∷ ids)) = distinct (i ∷ ids)

unfoldable pub resolve_scoped_location_ids : CurrentOrg → Option (List Uuid) → M (List Uuid)
resolve_scoped_location_ids org requested = do
  let ids = scoped_ids org requested
  allowed ← gets (λ db. map (λ (l : Location). l.id) (filter (is_assignable org) db.locations))
  throw_if (is_some (find (λ i. not (includes_id allowed i)) ids))
      (forbidden "You can only assign active locations you have access to")
  pure ids

abbrev pub place : Uuid → Uuid → MembershipLocation
place membership_id location_id = record {
  membership_id = membership_id;
  location_id = location_id;
}

unfoldable pub replace_membership_locations : Uuid → List Uuid → M ⊤
replace_membership_locations i ids = do
  write (λ db. record db { membership_locations = remove (is_place_of i) db.membership_locations })
  write (λ db. record db { membership_locations = places ids db.membership_locations })
  where
    -- `createMany`
    places : List Uuid → List MembershipLocation → List MembershipLocation
    places [] rows = rows
    places (l ∷ ls) rows = place i l ∷ places ls rows

-- A day, in milliseconds.
abbrev pub invite_lifetime : ℕ
invite_lifetime = 24 * 60 * 60 * 1000

abbrev pub is_live_invite : Instant → Uuid → InviteToken → Bool
is_live_invite now i invite = is_open_invite i invite && ltb now invite.expires_at

unfoldable pub build_invite_url : Runtime → String → String
build_invite_url runtime token =
    text_append (runtime.frontend_url otherwise "http://localhost:3000")
      (text_append "/invite/" token)

-- `createInviteForMembership`, with the random text of the new link as an argument.
unfoldable pub create_invite_for_membership : Runtime → Instant → String → Uuid → M String
create_invite_for_membership runtime now raw_token i = do
  write (λ db. record db {
    invite_tokens =
        modify (is_live_invite now i) (λ invite. record invite { expires_at = now })
          db.invite_tokens;
  })
  taken ← gets (λ db.
      any
        (λ (invite : InviteToken).
          eq_text (some invite.token_hash) (some (runtime.sha256 raw_token)))
        db.invite_tokens)
  throw_if taken unique_violation
  key ← fresh_id
  let row : InviteToken = record {
    id = key;
    membership_id = i;
    token_hash = runtime.sha256 raw_token;
    expires_at = now + invite_lifetime;
    accepted_at = none;
  }
  write (λ db. record db { invite_tokens = row ∷ db.invite_tokens })
  pure (build_invite_url runtime raw_token)

-- `snapshotMembership`
abbrev pub snapshot_membership : Member → List AuditField
snapshot_membership member =
    AuditField.member_id member.membership.id
    ∷ AuditField.user_id member.membership.user_id
    ∷ AuditField.role member.membership.role
    ∷ AuditField.member_status member.membership.status
    ∷ AuditField.email member.user.email
    ∷ AuditField.first_name member.user.first_name
    ∷ AuditField.last_name member.user.last_name
    ∷ AuditField.location_ids member.location_ids
    ∷ []

unfoldable pub create_audit_log :
    Uuid → Uuid → AuditAction → Uuid → Option (List AuditField) → Option (List AuditField) → M ⊤
create_audit_log organization_id actor_user_id action entity_id before_json after_json =
    write (λ db. record db {
      audit_logs =
          record {
            organization_id = organization_id;
            entity_type = AuditEntityType.membership;
            entity_id = entity_id;
            action = action;
            before_json = before_json;
            after_json = after_json;
            context = record {
              actor_user_id = some actor_user_id;
              request_id = none;
              ip = none;
              user_agent = none;
            };
          }
          ∷ db.audit_logs;
    })

-- What `mapMemberListItem` and `getMemberDetail` derive for the reply.
pub record MemberDetail : Type 0 where
  pub member : Member
  pub has_all_locations : Bool
  pub invite_expired : Bool
  pub invite_expires_at : Option Instant

abbrev pub is_expired : Instant → Option InviteToken → Bool
is_expired now none = false
is_expired now (some invite) = not (is_some invite.accepted_at) && leb invite.expires_at now

unfoldable pub map_member_list_item : Instant → Member → MemberDetail
map_member_list_item now member = record {
  member = member;
  has_all_locations = length member.location_ids == 0;
  invite_expired = is_expired now member.invite;
  invite_expires_at = map_option (λ (invite : InviteToken). invite.expires_at) member.invite;
}

unfoldable pub get_member_detail : Instant → CurrentOrg → Uuid → M MemberDetail
get_member_detail now org i = do
  member ← find_membership_or_throw org.organization_id i
  pure (map_member_list_item now member)

-- `TeamMutationResponseDto`
pub record TeamMutation : Type 0 where
  pub member : MemberDetail
  pub action : String
  pub invite_url : Option String

abbrev pub update_membership : Uuid → (Membership → Membership) → M ⊤
update_membership i f =
    write (λ db. record db { memberships = modify (is_membership i) f db.memberships })

-- `refreshToken.updateMany` of a user's tokens that are not revoked.
abbrev pub revoke_tokens : Instant → Uuid → M ⊤
revoke_tokens now user_id = write (λ db. record db {
  refresh_tokens =
      modify (λ token. token.user_id == user_id && not (is_some token.revoked_at))
        (λ token. record token { revoked_at = some now }) db.refresh_tokens;
})

-- The entry of the audit log with the member as it is now, and the reply of an operation.
abbrev pub log_change :
    CurrentOrg → Uuid → AuditAction → Uuid → Option (List AuditField) → Member → M ⊤
log_change org actor_user_id action i before updated =
    create_audit_log org.organization_id actor_user_id action i before
      (some (snapshot_membership updated))

abbrev pub reply : Instant → CurrentOrg → Uuid → String → Option String → M TeamMutation
reply now org i action invite_url = do
  detail ← get_member_detail now org i
  pure (record { member = detail; action = action; invite_url = invite_url })
