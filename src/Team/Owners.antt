-- ===== src/Team/Owners.antt =====
-- backend/src/domain/team/team.service.ts: an organization keeps an active owner.
pub mod Deactivation
pub mod RoleChange
use ledger_light_admin.Base.{
  ℕ, Bool, true, false, not, ◌&&◌, Bool-cases, both_ways, Option, none, some, Option-cases, List,
  Uuid, Instant, Error, Result, ok, err, find, find_holds, find-All, any_none, filter, modify, any,
  length, ◌==◌, UniqueBy, find_unique, any-filter, any-find, any-modify_other, if◌then◌else◌, ◌≡◌,
  refl, sym, ap, ◌∙◌, inl, inr, ◌⊎◌, arith, ⊤,
}
use ledger_light_admin.Base.Atomic.{pure_ok, or_throw_ok, throw_if_ok}
use ledger_light_admin.Access.Roles.{Role, is_owner}
use ledger_light_admin.Access.Scope.{CurrentOrg}
use ledger_light_admin.Store.{Db, M, pure, Membership, MembershipStatus}
use ledger_light_admin.Team.{
  Member, is_membership, is_member_of, is_active_owner, is_other_active_owner, included,
  find_membership_or_throw, ensure_active_owner_count, status_eq,
}

-- Memberships have different keys.
abbrev pub UniqueMembers : Db → Type 0
UniqueMembers db = UniqueBy (λ (m : Membership). m.id) db.memberships

abbrev pub has_active_owner : Uuid → Db → Bool
has_active_owner organization_id db = any (is_active_owner organization_id) db.memberships

-- The row that a key stands for, and, where it is an owner's, another active owner.
pub record Checked (db : Db) (organization_id i : Uuid) (target : Membership) : Type 0 where
  pub found : find (is_member_of organization_id i) db.memberships ≡ some target
  pub others :
      is_owner target.role ≡ true
      → (length (filter (is_other_active_owner organization_id i) db.memberships) == 0) ≡ false

owner_survives :
    (db : Db) (f : Membership → Membership) (organization_id i : Uuid) (target : Membership)
    → UniqueMembers db
    → Checked db organization_id i target
    → (organization : Uuid) → has_active_owner organization db ≡ true
    → any (is_active_owner organization) (modify (is_membership i) f db.memberships) ≡ true
owner_survives db f organization_id i target u checked organization before =
    elim (Bool-cases (any (is_other_active_owner organization i) db.memberships)) [
      | inl t ↦ any-modify_other (is_active_owner organization) (is_membership i) f db.memberships t
      | inr n ↦
          let (m, e) = any-find (is_active_owner organization) db.memberships before in
          let touched =
            find-All (λ x. is_other_active_owner organization i x ≡ false)
              (is_active_owner organization) db.memberships m (any_none _ db.memberships n) e in
          let active = find_holds (is_active_owner organization) db.memberships m e in
          let named =
            find_holds (is_member_of organization_id i) db.memberships target checked.found in
          let same : target ≡ m =
            find_unique (λ (x : Membership). x.id) (is_member_of organization_id i)
              (is_active_owner organization) db.memberships target m u checked.found e
              (ground arith) in
          let owns : is_active_owner organization target ≡ true = rw same active in
          let other =
            any-filter (is_other_active_owner organization_id i) db.memberships
              (checked.others (ground arith)) in
          let place : organization_id ≡ organization = ground arith in
          absurd (both_ways (rw place at other) n)
    ]

-- What an operation did to the memberships: nothing, or it rewrote the row of a checked key.
unfoldable pub Kept : Db → Uuid → Uuid → Db → Type 0
Kept db organization_id i db' =
    (db'.memberships ≡ db.memberships)
    ⊎ ((target : Membership) × (f : Membership → Membership) × Checked db organization_id i target
        × (db'.memberships ≡ modify (is_membership i) f db.memberships))

pub Kept-refl : (db : Db) (organization_id i : Uuid) → Kept db organization_id i db
unfolding Kept
Kept-refl db organization_id i = inl refl

pub Kept-rewritten :
    (db db' : Db) (organization_id i : Uuid) (target : Membership) (f : Membership → Membership)
    → Checked db organization_id i target
    → db'.memberships ≡ modify (is_membership i) f db.memberships
    → Kept db organization_id i db'
unfolding Kept
Kept-rewritten db db' organization_id i target f checked after = inr (target, f, checked, after)

pub Kept-owner :
    (db db' : Db) (organization_id i : Uuid)
    → UniqueMembers db
    → Kept db organization_id i db'
    → (organization : Uuid) → has_active_owner organization db ≡ true
    → has_active_owner organization db' ≡ true
unfolding Kept
Kept-owner db db' organization_id i u (inl same) organization before = rw same before
Kept-owner db db' organization_id i u (inr (target, f, checked, after)) organization before =
    rw after (owner_survives db f organization_id i target u checked organization before)

-- A member that was found.
pub found_member :
    (db db' : Db) (organization_id i : Uuid) (member : Member)
    → find_membership_or_throw organization_id i db ≡ (ok member, db')
    → (db' ≡ db) × (find (is_member_of organization_id i) db.memberships ≡ some member.membership)
unfolding find_membership_or_throw
found_member db db' organization_id i member e =
    let (read, same) =
      or_throw_ok (included db (find (is_member_of organization_id i) db.memberships)) _ member db
        db' e in
    (same, from_included (find (is_member_of organization_id i) db.memberships) read)
  where
    from_included :
        (o : Option Membership) → included db o ≡ some member → o ≡ some member.membership
    from_included none h = cc
    from_included (some m) h = ground arith

pub find_membership_reads :
    (db : Db) (organization_id i : Uuid) → (find_membership_or_throw organization_id i db).1 ≡ db
unfolding find_membership_or_throw
find_membership_reads db organization_id i = ground arith

-- The check of the owners, where it is made.
pub check_owners_ok :
    (db db' : Db) (organization_id i : Uuid) (asked : Bool)
    → (if asked then ensure_active_owner_count organization_id i else pure tt) db ≡ (ok tt, db')
    → (db' ≡ db)
      × (asked ≡ true
          → (length (filter (is_other_active_owner organization_id i) db.memberships) == 0) ≡ false)
unfolding ensure_active_owner_count
check_owners_ok db db' organization_id i true e =
    let (some_left, same) =
      throw_if_ok (length (filter (is_other_active_owner organization_id i) db.memberships) == 0) _
        db db' e in
    (same, λ _. some_left)
check_owners_ok db db' organization_id i false e =
    let (u, same) = pure_ok tt tt db db' e in (same, λ h. cc)
