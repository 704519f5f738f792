-- ===== src/Auth.antt =====
-- backend/src/domain/auth/auth.service.ts: login, refresh and logout. `bcrypt` is a parameter; an
-- access token is the payload that is signed, and the random refresh token, with the hash that
-- `bcrypt.hash` makes of it in the call, is an argument.
pub mod Sessions
pub mod Refresh
use ledger_light_admin.Base.{
  ℕ, ◌+◌, ◌*◌, Bool, true, false, not, ◌&&◌, Option, none, some, is_some, List, [], ◌∷◌, map, any,
  length, String, Uuid, Instant, ltb, find, filter, modify, ⊤, ◌==◌, eq_text, if◌then◌else◌,
  unauthorized,
}
use ledger_light_admin.Access.Guards.{JwtMembership}
use ledger_light_admin.Store.{
  Db, M, pure, throw, gets, or_throw, ◌>>=◌, ◌>>◌, throw_if, write, fresh_id, User, Membership,
  MembershipStatus, RefreshToken, AuditLog, AuditAction, AuditEntityType,
}
use ledger_light_admin.Team.{status_eq, location_ids_of, has_user_id}

-- A day, in milliseconds.
abbrev pub day : ℕ
day = 24 * 60 * 60 * 1000

-- The payload of an access token. The organization's name is left out.
pub record AccessToken : Type 0 where
  pub sub : Uuid
  pub user : User
  pub memberships : List JwtMembership

pub record LoginReply : Type 0 where
  pub access_token : AccessToken
  pub refresh_token_raw : String
  pub refresh_token : RefreshToken

unfoldable pub serialize_jwt_membership : Db → Membership → JwtMembership
serialize_jwt_membership db m =
    let allowed = location_ids_of db m.id in
    record {
      id = some m.id;
      user_id = m.user_id;
      organization_id = m.organization_id;
      role = m.role;
      has_all_locations = some (length allowed == 0);
      allowed_location_ids = some allowed;
    }

abbrev pub is_active_membership : Uuid → Membership → Bool
is_active_membership user_id m = m.user_id == user_id && status_eq m.status MembershipStatus.active

abbrev pub active_memberships : Uuid → Db → List Membership
active_memberships user_id db = filter (is_active_membership user_id) db.memberships

-- The payload for a user with memberships; the query leaves the password's hash out.
abbrev pub payload : Db → User → List Membership → AccessToken
payload db user memberships = record {
  sub = user.id;
  user = record user { password_hash = none };
  memberships = map (serialize_jwt_membership db) memberships;
}

-- The entries of the audit log that `createMany` writes.
abbrev pub log_for : AuditAction → Uuid → Membership → AuditLog
log_for action user_id m = record {
  organization_id = m.organization_id;
  entity_type = AuditEntityType.user;
  entity_id = user_id;
  action = action;
  before_json = none;
  after_json = none;
  context = record {
    actor_user_id = some user_id;
    request_id = none;
    ip = none;
    user_agent = none;
  };
}

abbrev pub log_all : AuditAction → Uuid → List Membership → List AuditLog → List AuditLog
log_all action user_id [] logs = logs
log_all action user_id (m ∷ ms) logs = log_for action user_id m ∷ log_all action user_id ms logs

abbrev pub write_logs : AuditAction → Uuid → List Membership → M ⊤
write_logs action user_id memberships =
    write (λ db. record db { audit_logs = log_all action user_id memberships db.audit_logs })

abbrev pub has_login : String → User → Bool
has_login email user = eq_text (some user.email) (some email)

-- The user may log in: there is one, active and with a password.
abbrev pub may_log_in : Option User → Option (User × String)
may_log_in none = none
may_log_in (some user) = elim user.password_hash [
  | none ↦ none
  | some hash ↦ if user.is_active then some (user, hash) else none
]

abbrev pub set_last_login : Instant → User → User
set_last_login now user = record user { last_login_at = some now }

unfoldable pub create_refresh_token : Instant → Uuid → String → M RefreshToken
create_refresh_token now user_id token_hash = do
  i ← fresh_id
  let row : RefreshToken = record {
    id = i;
    user_id = user_id;
    token_hash = token_hash;
    expires_at = now + 7 * day;
    revoked_at = none;
  }
  write (λ db. record db { refresh_tokens = row ∷ db.refresh_tokens })
  pure row

-- `login` from the password's check on.
unfoldable pub open_session :
    (String → String → Bool) → Instant → String → String → String → User × String → M LoginReply
open_session compare_hash now raw token_hash password (user, hash) = do
  throw_if (not (compare_hash password hash))
      (unauthorized "Invalid credentials, incorrect password")
  refresh_token ← create_refresh_token now user.id token_hash
  write (λ db. record db { users = modify (has_user_id user.id) (set_last_login now) db.users })
  memberships ← gets (active_memberships user.id)
  throw_if (length memberships == 0)
      (unauthorized "Invalid credentials, user has no active organization memberships")
  access_token ← gets (λ db. payload db (set_last_login now user) memberships)
  write_logs AuditAction.login user.id memberships
  pure (record {
    access_token = access_token;
    refresh_token_raw = raw;
    refresh_token = refresh_token;
  })

unfoldable pub login :
    (String → String → Bool) → Instant → String → String → String → String → M LoginReply
login compare_hash now raw token_hash email password = do
  found ← gets (λ db. may_log_in (find (has_login email) db.users))
  account ← or_throw found (unauthorized "Invalid credentials, user not found or inactive")
  open_session compare_hash now raw token_hash password account

-- The condition on the refresh tokens: of the user, not too old, and not revoked.
abbrev pub is_valid_token : Instant → Uuid → RefreshToken → Bool
is_valid_token now user_id token =
    token.user_id == user_id && (ltb now token.expires_at && not (is_some token.revoked_at))

abbrev pub is_active_user : Option User → Option User
is_active_user none = none
is_active_user (some user) = if user.is_active then some user else none

-- `refresh` from the user on.
unfoldable pub issue : User → M AccessToken
issue user = do
  memberships ← gets (active_memberships user.id)
  throw_if (length memberships == 0)
      (unauthorized "Invalid refresh token, user has no active organization memberships")
  gets (λ db. payload db user memberships)

-- The checks of the token, and the user.
unfoldable pub token_owner : (String → String → Bool) → Instant → String → Uuid → M User
token_owner compare_hash now raw user_id = do
  tokens ← gets (λ db. filter (is_valid_token now user_id) db.refresh_tokens)
  throw_if (length tokens == 0) (unauthorized "Invalid refresh token")
  throw_if (not (any (λ (token : RefreshToken). compare_hash raw token.token_hash) tokens))
      (unauthorized "Invalid refresh token")
  found ← gets (λ db. is_active_user (find (has_user_id user_id) db.users))
  or_throw found (unauthorized "Invalid refresh token, user not found or inactive")

unfoldable pub refresh : (String → String → Bool) → Instant → String → Uuid → M AccessToken
refresh compare_hash now raw user_id = token_owner compare_hash now raw user_id >>= issue

unfoldable pub logout : Instant → Uuid → M ⊤
logout now user_id = do
  memberships ← gets (active_memberships user_id)
  write (λ db. record db {
    refresh_tokens =
        modify (is_valid_token now user_id) (λ token. record token { revoked_at = some now })
          db.refresh_tokens;
  })
  if length memberships == 0 then pure tt else write_logs AuditAction.logout user_id memberships
