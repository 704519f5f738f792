-- ===== src/Store/People.antt =====
-- Users, their memberships of organizations, invitations and refresh tokens, after
-- backend/prisma/schema.prisma.
use ledger_light_admin.Base.{Bool, Option, String, Uuid, Instant}
use ledger_light_admin.Access.Roles.{Role}

pub data MembershipStatus : Type 0 where
  active invited deactivated : MembershipStatus

pub record User : Type 0 where
  pub id : Uuid
  pub email : String
  pub password_hash : Option String
  pub first_name : Option String
  pub last_name : Option String
  pub is_active : Bool
  pub last_login_at : Option Instant

pub record Membership : Type 0 where
  pub id : Uuid
  pub organization_id : Uuid
  pub user_id : Uuid
  pub role : Role
  pub status : MembershipStatus
  pub created_at : Instant
  pub invited_at : Option Instant
  pub activated_at : Option Instant
  pub deactivated_at : Option Instant

pub record MembershipLocation : Type 0 where
  pub membership_id : Uuid
  pub location_id : Uuid

pub record InviteToken : Type 0 where
  pub id : Uuid
  pub membership_id : Uuid
  pub token_hash : String
  pub expires_at : Instant
  pub accepted_at : Option Instant

pub record RefreshToken : Type 0 where
  pub id : Uuid
  pub user_id : Uuid
  pub token_hash : String
  pub expires_at : Instant
  pub revoked_at : Option Instant
