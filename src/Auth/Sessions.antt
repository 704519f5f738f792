-- ===== src/Auth/Sessions.antt =====
-- backend/src/domain/auth/auth.service.ts: how long a session lasts.
use ledger_light_admin.Base.{
  ◌≤◌, Bool, not, ◌&&◌, none, some, is_some, List, [], ◌∷◌, String, Uuid, Instant, ok, err,
  unauthorized, find, filter, modify, ◌==◌, ◌≡◌, refl, sym, ap, ◌∙◌, arith,
}
use ledger_light_admin.Base.Atomic.{bind_succeeds, transaction_ok}
use ledger_light_admin.Access.Scope.{CurrentOrg}
use ledger_light_admin.Store.{Db, ◌>>◌, transaction, Membership, RefreshToken}
use ledger_light_admin.Auth.{is_valid_token, token_owner, refresh, logout}
use ledger_light_admin.Team.{
  Member, TeamMutation, is_member_of, find_membership_or_throw, load_membership_with_relations,
  create_audit_log, reply,
}
use ledger_light_admin.Team.Status.{
  check_deactivation, write_deactivated, deactivate, deactivate_member,
}
use ledger_light_admin.Team.Owners.{found_member}
use ledger_light_admin.Team.Owners.Deactivation.{reply_reads}

-- Without a valid token nothing is refreshed.
refresh_without_tokens :
    (compare_hash : String → String → Bool) (now : Instant) (raw : String) (user_id : Uuid)
    (db : Db)
    → filter (is_valid_token now user_id) db.refresh_tokens ≡ []
    → refresh compare_hash now raw user_id db ≡ (err (unauthorized "Invalid refresh token"), db)
unfolding refresh token_owner
refresh_without_tokens compare_hash now raw user_id db e = ground arith

revoked_by_logout :
    (now later : Instant) (user_id : Uuid) (tokens : List RefreshToken)
    → now ≤ later
    → filter (is_valid_token later user_id) (
        modify
          (is_valid_token now user_id)
          (λ token. record token { revoked_at = some now })
          tokens)
      ≡ []
unfolding filter modify
revoked_by_logout now later user_id [] h = refl
revoked_by_logout now later user_id (token ∷ tokens) h =
    ground (arith, revoked_by_logout now later user_id tokens h)

logout_tokens :
    (now : Instant) (user_id : Uuid) (db : Db)
    → (logout now user_id db).1.refresh_tokens
      ≡ modify
          (is_valid_token now user_id)
          (λ token. record token { revoked_at = some now })
          db.refresh_tokens
unfolding logout
logout_tokens now user_id db = ground arith

-- After a user has logged out, no refresh token of theirs from before can be used, at that time or
-- later: the call is refused and changes nothing.
pub refresh-logout :
    (compare_hash : String → String → Bool) (now later : Instant) (raw : String) (user_id : Uuid)
    (db : Db)
    → now ≤ later
    → let db' = (logout now user_id db).1 in
      refresh compare_hash later raw user_id db' ≡ (err (unauthorized "Invalid refresh token"), db')
refresh-logout compare_hash now later raw user_id db h =
    refresh_without_tokens compare_hash later raw user_id (logout now user_id db).1 (
      ap (filter (is_valid_token later user_id)) (logout_tokens now user_id db)
      ∙ revoked_by_logout now later user_id db.refresh_tokens h)

revoked_by_team :
    (now later : Instant) (user_id : Uuid) (tokens : List RefreshToken)
    → filter (is_valid_token later user_id) (
        modify
          (λ token. token.user_id == user_id && not (is_some token.revoked_at))
          (λ token. record token { revoked_at = some now })
          tokens)
      ≡ []
unfolding filter modify
revoked_by_team now later user_id [] = refl
revoked_by_team now later user_id (token ∷ tokens) =
    ground (arith, revoked_by_team now later user_id tokens)

write_deactivated_tokens :
    (now : Instant) (org : CurrentOrg) (actor i : Uuid) (member : Member) (db : Db)
    → (write_deactivated now org actor i member db).1.refresh_tokens
      ≡ modify
          (λ token. token.user_id == member.membership.user_id && not (is_some token.revoked_at))
          (λ token. record token { revoked_at = some now })
          db.refresh_tokens
unfolding write_deactivated load_membership_with_relations create_audit_log
write_deactivated_tokens now org actor i member db = ground arith

-- Deactivating a member ends the sessions of their account: when it has succeeded, no refresh token
-- of the user from before can be used, at any time, and the attempt changes nothing.
pub refresh-deactivate_member :
    (compare_hash : String → String → Bool) (now later : Instant) (raw : String) (org : CurrentOrg)
    (actor i : Uuid) (db db' : Db) (reply : TeamMutation)
    → deactivate_member now org actor i db ≡ (ok reply, db')
    → (target : Membership) × (find (is_member_of org.organization_id i) db.memberships
        ≡ some target)
      × (refresh compare_hash later raw target.user_id db'
          ≡ (err (unauthorized "Invalid refresh token"), db'))
unfolding deactivate_member
refresh-deactivate_member compare_hash now later raw org actor i db db' shown e =
    let (member, db1, read, e1) =
      bind_succeeds (find_membership_or_throw org.organization_id i) (deactivate now org actor i) db
        e in
    let (u, db2, checked, e2) =
      bind_succeeds (check_deactivation org actor i member)
        (λ _.
          transaction (write_deactivated now org actor i member)
          >> reply now org i "member_deactivated" none)
        db1 e1 in
    let (v, db3, wrote, e3) =
      bind_succeeds (transaction (write_deactivated now org actor i member))
        (λ _. reply now org i "member_deactivated" none) db2 e2 in
    let done = transaction_ok (write_deactivated now org actor i member) db2 wrote in
    let last : db' ≡ db3 =
      sym (ap (λ r. r.1) e3) ∙ reply_reads now org i "member_deactivated" none db3 in
    let tokens =
      ap (λ d. d.refresh_tokens) last
      ∙ sym (ap (λ r. r.1.refresh_tokens) done)
      ∙ write_deactivated_tokens now org actor i member db2 in
    (
      member.membership,
      (found_member db db1 org.organization_id i member read).1,
      refresh_without_tokens compare_hash later raw member.membership.user_id db' (
          ap (filter (is_valid_token later member.membership.user_id)) tokens
          ∙ revoked_by_team now later member.membership.user_id db2.refresh_tokens),
    )
