-- ===== src/Team/Owners/RoleChange.antt =====
-- backend/src/domain/team/team.service.ts: updateMemberRole keeps an active owner, and nobody rises
-- above the one who changes the role.
use ledger_light_admin.Base.{
  ◌<◌, true, false, some, Uuid, Instant, ok, find, modify, length, filter, ◌==◌, ltb_iff,
  Bool-cases, ◌≡◌, refl, sym, ap, ◌∙◌, inl, inr, ◌⊎◌, arith,
}
use ledger_light_admin.Base.Atomic.{bind_succeeds, read_post}
use ledger_light_admin.Access.Roles.{Role, is_owner, role_tier, can_assign_role, can_manage_member}
use ledger_light_admin.Access.Scope.{CurrentOrg}
use ledger_light_admin.Store.{Db, Membership}
use ledger_light_admin.Team.{
  Member, TeamMutation, is_membership, is_member_of, is_other_active_owner,
  find_membership_or_throw, assert_member_manageable, assert_role_assignable,
  ensure_active_owner_count, create_audit_log, get_member_detail,
}
use ledger_light_admin.Team.Members.{
  set_role, steps_down, check_role_change, write_role, change_role, update_member_role,
}
use ledger_light_admin.Team.Owners.{
  UniqueMembers, has_active_owner, Kept, Kept-refl, Kept-rewritten, Kept-owner, found_member,
  find_membership_reads,
}

check_role_change_reads :
    (org : CurrentOrg) (actor i : Uuid) (role : Role) (member : Member) (db : Db)
    → (check_role_change org actor i role member db).1 ≡ db
unfolding check_role_change assert_member_manageable assert_role_assignable
    ensure_active_owner_count
check_role_change_reads org actor i role member db = ground arith

write_role_memberships :
    (now : Instant) (org : CurrentOrg) (actor i : Uuid) (role : Role) (member : Member) (db : Db)
    → (write_role now org actor i role member db).1.memberships
      ≡ modify (is_membership i) (set_role role) db.memberships
unfolding write_role find_membership_or_throw create_audit_log get_member_detail
write_role_memberships now org actor i role member db = ground arith

-- What the checks let through.
record MayChange (org : CurrentOrg) (actor i : Uuid) (role : Role) (member : Member) (db : Db)
    : Type 0 where
  pub other_user : (member.membership.user_id == actor) ≡ false
  pub manageable :
      can_manage_member org.role member.membership.role (some (steps_down member role)) ≡ true
  pub assignable : can_assign_role org.role role ≡ true
  pub owners :
      steps_down member role ≡ true
      → (length (filter (is_other_active_owner org.organization_id i) db.memberships) == 0) ≡ false

check_role_change_ok :
    (org : CurrentOrg) (actor i : Uuid) (role : Role) (member : Member) (db db' : Db)
    → check_role_change org actor i role member db ≡ (ok tt, db')
    → MayChange org actor i role member db
unfolding check_role_change assert_member_manageable assert_role_assignable
    ensure_active_owner_count
check_role_change_ok org actor i role member db db' e = record {
  other_user = ground arith;
  manageable = ground arith;
  assignable = ground arith;
  owners = λ t. ground arith;
}

-- An owner who may be managed steps down.
owner_steps_down :
    (actor : Role) (member : Member) (role : Role)
    → can_manage_member actor member.membership.role (some (steps_down member role)) ≡ true
    → is_owner member.membership.role ≡ true
    → steps_down member role ≡ true
unfolding can_manage_member
owner_steps_down actor member role managed owner = ground arith

update_member_role-Kept :
    (now : Instant) (org : CurrentOrg) (actor i : Uuid) (role : Role) (db : Db)
    → Kept db org.organization_id i (update_member_role now org actor i role db).1
unfolding update_member_role
update_member_role-Kept now org actor i role db =
    read_post same_owners (find_membership_or_throw org.organization_id i)
      (change_role now org actor i role) db (find_membership_reads db org.organization_id i)
      (Kept-refl db org.organization_id i)
      (λ member e.
        read_post same_owners (check_role_change org actor i role member)
          (λ _. write_role now org actor i role member) db
          (check_role_change_reads org actor i role member db) (Kept-refl db org.organization_id i)
          (λ u c. changed member e (check_role_change_ok org actor i role member db db c)))
  where
    same_owners : Db → Type 0
    same_owners = Kept db org.organization_id i

    changed :
        (member : Member)
        → find_membership_or_throw org.organization_id i db ≡ (ok member, db)
        → MayChange org actor i role member db
        → same_owners (write_role now org actor i role member db).1
    changed member e may =
        Kept-rewritten db (write_role now org actor i role member db).1 org.organization_id i
          member.membership (set_role role)
          (record {
            found = (found_member db db org.organization_id i member e).1;
            others =
                λ owner. may.owners (owner_steps_down org.role member role may.manageable owner);
          })
          (write_role_memberships now org actor i role member db)

-- Changing a member's role, whether it succeeds or not, leaves every organization that had an active
-- owner with one. It is assumed that memberships have different keys.
pub update_member_role_keeps_owner :
    (now : Instant) (org : CurrentOrg) (actor i : Uuid) (role : Role) (db : Db)
    → UniqueMembers db
    → (organization : Uuid) → has_active_owner organization db ≡ true
    → has_active_owner organization (update_member_role now org actor i role db).1 ≡ true
update_member_role_keeps_owner now org actor i role db u =
    Kept-owner db (update_member_role now org actor i role db).1 org.organization_id i u
      (update_member_role-Kept now org actor i role db)

above :
    (actor : Role) (member : Member) (role : Role)
    → can_manage_member actor member.membership.role (some (steps_down member role)) ≡ true
    → can_assign_role actor role ≡ true
    → (is_owner actor ≡ true)
      ⊎ ((role_tier actor < role_tier member.membership.role) × (role_tier actor < role_tier role))
unfolding can_manage_member can_assign_role
above actor member role managed assigned = elim (Bool-cases (is_owner actor)) [
  | inl t ↦ inl t
  | inr f ↦
      let lower = rw f at managed in
      let given = rw f at assigned in inr ((ltb_iff _ _).0 lower, (ltb_iff _ _).0 given)
]

-- Nobody is raised to the tier of the one who changes the role, unless that is an owner: a change
-- that succeeds was made to a member of the organization who is not the actor, by an owner or by
-- somebody in a tier above both the old role and the new one; and that row's role is all that
-- changed among the memberships.
pub update_member_role_within_authority :
    (now : Instant) (org : CurrentOrg) (actor i : Uuid) (role : Role) (db db' : Db)
    (reply : TeamMutation)
    → update_member_role now org actor i role db ≡ (ok reply, db')
    → (target : Membership) × (find (is_member_of org.organization_id i) db.memberships
        ≡ some target)
      × ((target.user_id == actor) ≡ false)
      × ((is_owner org.role ≡ true)
          ⊎ ((role_tier org.role < role_tier target.role) × (role_tier org.role < role_tier role)))
      × (db'.memberships
          ≡ modify (λ (m : Membership). m.id == i) (λ m. record m { role = role }) db.memberships)
unfolding update_member_role
update_member_role_within_authority now org actor i role db db' reply e =
    let (member, db1, read, e1) =
      bind_succeeds (find_membership_or_throw org.organization_id i)
        (change_role now org actor i role) db e in
    let (same, found) = found_member db db1 org.organization_id i member read in
    let (u, db2, checked, e2) =
      bind_succeeds (check_role_change org actor i role member)
        (λ _. write_role now org actor i role member) db1 e1 in
    let may = check_role_change_ok org actor i role member db1 db2 checked in
    let reads : db2 ≡ db1 =
      sym (ap (λ r. r.1) checked) ∙ check_role_change_reads org actor i role member db1 in
    let written : db'.memberships ≡ modify (is_membership i) (set_role role) db2.memberships =
      sym (ap (λ r. r.1.memberships) e2) ∙ write_role_memberships now org actor i role member db2 in
    (
      member.membership,
      found,
      may.other_user,
      above org.role member role may.manageable may.assignable,
      written ∙ rw (reads, same) refl,
    )
