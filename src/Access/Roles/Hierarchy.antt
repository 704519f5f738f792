-- ===== src/Access/Roles/Hierarchy.antt =====
-- What the tiers of the roles mean: nobody reaches upwards, and permissions grow with the tier.
use text.Mathlib.TextEquality.{eq_iff}
use ledger_light_admin.Base.{
  ◌<◌, ◌≡◌, refl, ◌⊎◌, inl, inr, ◌↔◌, Bool, true, false, Option, some, List, [], ◌∷◌, all, arith,
}
use ledger_light_admin.Access.Permissions.{Permission}
use ledger_light_admin.Access.Roles.{
  Role, owner, manager, cashier, support, inventory_clerk, role_permissions, includes,
  has_permission, role_tier, can_assign_role, can_manage_member,
}

-- `ps` has every permission of `qs`.
covers : List Permission → List Permission → Bool
covers ps qs = all (includes ps) qs

includes_trans :
    (ps qs : List Permission) (p : Permission)
    → covers ps qs ≡ true
    → includes qs p ≡ true
    → includes ps p ≡ true
unfolding covers includes
includes_trans ps [] p c h = cc
includes_trans ps (q ∷ qs) p c h = ground (arith, eq_iff q p, includes_trans ps qs p)

outranks : (low : Role) → ¬ (3 < role_tier low)
outranks owner t = omega arith
outranks low t = omega arith

-- Whoever stands in a higher tier has every permission of those in the tiers below.
pub has_permission_of_lower_tier :
    (high low : Role) (p : Permission)
    → role_tier high < role_tier low
    → has_permission low p ≡ true
    → has_permission high p ≡ true
unfolding has_permission covers
has_permission_of_lower_tier owner low p t h = refl
has_permission_of_lower_tier manager owner p t h = absurd (omega arith)
has_permission_of_lower_tier manager manager p t h = absurd (omega arith)
has_permission_of_lower_tier manager low p t h =
    includes_trans (role_permissions manager) (role_permissions low) p refl h
has_permission_of_lower_tier cashier low p t h = absurd (outranks low t)
has_permission_of_lower_tier support low p t h = absurd (outranks low t)
has_permission_of_lower_tier inventory_clerk low p t h = absurd (outranks low t)

-- Who stands above whom.
abbrev pub is_above : Role → Role → Bool
is_above owner owner = false
is_above owner _ = true
is_above manager cashier = true
is_above manager support = true
is_above manager inventory_clerk = true
is_above _ _ = false

role_tier-is_above :
    (actor target : Role) → (role_tier actor < role_tier target) ↔ (is_above actor target ≡ true)
role_tier-is_above actor target = grind arith

-- Nobody can give a role that stands as high as their own or higher, but an owner, who can give
-- every role; whoever gives a role has every permission that it brings. A member is managed from
-- above alone, but for an owner by a fellow owner where that is allowed.
pub authority_is_downward :
    (actor target : Role) (allow : Option Bool)
    → ((can_assign_role actor target ≡ true) ↔ ((actor ≡ owner) ⊎ (is_above actor target ≡ true)))
      × ((can_assign_role actor target ≡ true)
          → (p : Permission) → has_permission target p ≡ true
          → has_permission actor p ≡ true)
      × ((can_manage_member actor target allow ≡ true) ↔ (
          (is_above actor target ≡ true)
          ⊎ (actor ≡ owner) × (target ≡ owner) × (allow ≡ some true)))
unfolding can_assign_role can_manage_member has_permission
authority_is_downward actor target allow =
    let tiers = role_tier-is_above actor target in
    (grind arith, λ can p. given actor (ground arith) p, grind arith)
  where
    given :
        (high : Role)
        → (high ≡ owner) ⊎ (role_tier high < role_tier target)
        → (p : Permission) → has_permission target p ≡ true
        → has_permission high p ≡ true
    given high (inl e) p h = rw e refl
    given high (inr t) p h = has_permission_of_lower_tier high target p t h
