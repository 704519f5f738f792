-- ===== src/Team/Owners/Deactivation.antt =====
-- backend/src/domain/team/team.service.ts: deactivateMember keeps an active owner.
use ledger_light_admin.Base.{
  true, false, none, Uuid, Instant, ok, modify, length, filter, ◌==◌, ◌≡◌, sym, ap, ◌∙◌, arith, ⊤,
}
use ledger_light_admin.Base.Atomic.{commit_post, read_post}
use ledger_light_admin.Access.Roles.{is_owner}
use ledger_light_admin.Access.Scope.{CurrentOrg}
use ledger_light_admin.Store.{Db, M, ◌>>◌, transaction}
use ledger_light_admin.Team.{
  Member, TeamMutation, is_membership, is_other_active_owner, find_membership_or_throw,
  assert_member_manageable, ensure_active_owner_count, load_membership_with_relations,
  create_audit_log, reply, get_member_detail,
}
use ledger_light_admin.Team.Status.{
  set_deactivated, assert_status_manageable, check_deactivation, write_deactivated, deactivate,
  deactivate_member,
}
use ledger_light_admin.Team.Owners.{
  UniqueMembers, has_active_owner, Kept, Kept-refl, Kept-rewritten, Kept-owner, found_member,
  find_membership_reads,
}

pub reply_reads :
    (now : Instant) (org : CurrentOrg) (i : Uuid) (action : _) (url : _) (db : Db)
    → (reply now org i action url db).1 ≡ db
unfolding get_member_detail find_membership_or_throw
reply_reads now org i action url db = ground arith

check_deactivation_reads :
    (org : CurrentOrg) (actor i : Uuid) (member : Member) (db : Db)
    → (check_deactivation org actor i member db).1 ≡ db
unfolding check_deactivation assert_status_manageable assert_member_manageable
    ensure_active_owner_count
check_deactivation_reads org actor i member db = ground arith

write_deactivated_memberships :
    (now : Instant) (org : CurrentOrg) (actor i : Uuid) (member : Member) (db : Db)
    → (write_deactivated now org actor i member db).1.memberships
      ≡ modify (is_membership i) (set_deactivated now) db.memberships
unfolding write_deactivated load_membership_with_relations create_audit_log
write_deactivated_memberships now org actor i member db = ground arith

check_deactivation_ok :
    (org : CurrentOrg) (actor i : Uuid) (member : Member) (db db' : Db)
    → check_deactivation org actor i member db ≡ (ok tt, db')
    → is_owner member.membership.role ≡ true
    → (length (filter (is_other_active_owner org.organization_id i) db.memberships) == 0) ≡ false
unfolding check_deactivation assert_status_manageable assert_member_manageable
    ensure_active_owner_count
check_deactivation_ok org actor i member db db' e owner = ground arith

deactivate_member-Kept :
    (now : Instant) (org : CurrentOrg) (actor i : Uuid) (db : Db)
    → Kept db org.organization_id i (deactivate_member now org actor i db).1
unfolding deactivate_member
deactivate_member-Kept now org actor i db =
    read_post same_owners (find_membership_or_throw org.organization_id i)
      (deactivate now org actor i) db (find_membership_reads db org.organization_id i)
      (Kept-refl db org.organization_id i)
      (λ member e.
        read_post same_owners (check_deactivation org actor i member)
          (λ _. written member >> replied) db (check_deactivation_reads org actor i member db)
          (Kept-refl db org.organization_id i)
          (λ u c.
            commit_post same_owners (write_deactivated now org actor i member) (λ _. replied) db
              (Kept-refl db org.organization_id i) (λ u db' w. deactivated member e c u db' w)
              (λ u db'. reply_reads now org i "member_deactivated" none db')))
  where
    same_owners : Db → Type 0
    same_owners = Kept db org.organization_id i

    deactivated :
        (member : Member)
        → find_membership_or_throw org.organization_id i db ≡ (ok member, db)
        → check_deactivation org actor i member db ≡ (ok tt, db)
        → (u : ⊤) (db' : Db) → write_deactivated now org actor i member db ≡ (ok u, db')
        → same_owners db'
    deactivated member e c u db' w =
        Kept-rewritten db db' org.organization_id i member.membership (set_deactivated now)
          (record {
            found = (found_member db db org.organization_id i member e).1;
            others = check_deactivation_ok org actor i member db db c;
          })
          (sym (ap (λ r. r.1.memberships) w)
            ∙ write_deactivated_memberships now org actor i member db)

    written : Member → M ⊤
    written member = transaction (write_deactivated now org actor i member)

    replied : M TeamMutation
    replied = reply now org i "member_deactivated" none

-- Deactivating a member, whether it succeeds or not, leaves every organization that had an active
-- owner with one. It is assumed that memberships have different keys.
pub deactivate_member_keeps_owner :
    (now : Instant) (org : CurrentOrg) (actor i : Uuid) (db : Db)
    → UniqueMembers db
    → (organization : Uuid) → has_active_owner organization db ≡ true
    → has_active_owner organization (deactivate_member now org actor i db).1 ≡ true
deactivate_member_keeps_owner now org actor i db u =
    Kept-owner db (deactivate_member now org actor i db).1 org.organization_id i u
      (deactivate_member-Kept now org actor i db)
