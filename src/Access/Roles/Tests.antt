-- ===== src/Access/Roles/Tests.antt =====
use ledger_light_admin.Base.{◌≡◌, refl, ◌⊎◌, ◌↔◌, true, false, none, some, arith}
use ledger_light_admin.Access.Permissions.{Permission, orders_read, orders_transition_cancel}
use ledger_light_admin.Access.Roles.{
  owner, manager, cashier, support, has_permission, can_assign_role, can_manage_member,
}
use ledger_light_admin.Access.Roles.Hierarchy.{
  is_above, authority_is_downward, has_permission_of_lower_tier,
}

cashier_cannot_cancel : has_permission cashier orders_transition_cancel ≡ false
unfolding has_permission
cashier_cannot_cancel = refl

authority_is_downward_example :
    ((can_assign_role manager cashier ≡ true)
      ↔ ((manager ≡ owner) ⊎ (is_above manager cashier ≡ true)))
    × ((can_assign_role manager cashier ≡ true)
        → (p : Permission) → has_permission cashier p ≡ true
        → has_permission manager p ≡ true)
    × ((can_manage_member manager cashier none ≡ true) ↔ (
        (is_above manager cashier ≡ true)
        ⊎ (manager ≡ owner) × (cashier ≡ owner) × (none ≡ some true)))
authority_is_downward_example = authority_is_downward manager cashier none

has_permission_of_lower_tier_example : has_permission manager orders_read ≡ true
unfolding has_permission
has_permission_of_lower_tier_example =
    has_permission_of_lower_tier manager support orders_read (omega arith) refl
