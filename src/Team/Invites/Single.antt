-- ===== src/Team/Invites/Single.antt =====
-- backend/src/domain/team/team.service.ts: a new invitation ends the earlier ones.
use Prim.Native.String.{◌++◌ as text_append}
use ledger_light_admin.Base.{
  ◌+◌, none, some, List, [], ◌∷◌, String, Uuid, Instant, ok, filter, modify, Bool, ◌==◌, ◌&&◌, not,
  is_some, ltb, ◌otherwise◌, ◌≡◌, refl, ap, ◌∙◌, arith,
}
use ledger_light_admin.Base.Atomic.{bind_succeeds, transaction_ok}
use ledger_light_admin.Access.Scope.{CurrentOrg}
use ledger_light_admin.Store.{Db, ◌>>=◌, transaction, InviteToken}
use ledger_light_admin.Team.{
  Runtime, Member, TeamMutation, invite_lifetime, is_live_invite, build_invite_url,
  create_invite_for_membership, load_membership_with_relations, create_audit_log,
  find_membership_or_throw, get_member_detail,
}
use ledger_light_admin.Team.Invites.{
  log_resent, resend, check_resend, resent, resend_to, resend_invite,
}

abbrev pub end_at : Instant → InviteToken → InviteToken
end_at now invite = record invite { expires_at = now }

abbrev pub new_invite : Runtime → Instant → String → Uuid → Uuid → InviteToken
new_invite runtime now raw_token i key = record {
  id = key;
  membership_id = i;
  token_hash = runtime.sha256 raw_token;
  expires_at = now + invite_lifetime;
  accepted_at = none;
}

-- The link of an invitation of the membership can be used: it was not accepted and has not run out.
abbrev pub is_usable : Instant → Uuid → InviteToken → Bool
is_usable now i invite =
    invite.membership_id == i && (not (is_some invite.accepted_at) && ltb now invite.expires_at)

-- None of the earlier invitations is live after it was ended.
ended :
    (now : Instant) (i : Uuid) (tokens : List InviteToken)
    → filter (is_usable now i) (modify (is_live_invite now i) (end_at now) tokens) ≡ []
unfolding filter modify
ended now i [] = refl
ended now i (token ∷ tokens) = ground (arith, ended now i tokens)

alone :
    (runtime : Runtime) (now : Instant) (raw_token : String) (i key : Uuid)
    (tokens : List InviteToken)
    → filter
        (is_usable now i)
        (new_invite runtime now raw_token i key ∷ modify (is_live_invite now i) (end_at now) tokens)
      ≡ new_invite runtime now raw_token i key ∷ []
unfolding filter
alone runtime now raw_token i key tokens = let rest = ended now i tokens in ground arith

create_invite_tokens :
    (runtime : Runtime) (now : Instant) (raw_token : String) (i : Uuid) (db db' : Db) (url : String)
    → create_invite_for_membership runtime now raw_token i db ≡ (ok url, db')
    → (url ≡ build_invite_url runtime raw_token)
      × (db'.invite_tokens
          ≡ new_invite runtime now raw_token i db.next_id
            ∷ modify (is_live_invite now i) (end_at now) db.invite_tokens)
unfolding create_invite_for_membership
create_invite_tokens runtime now raw_token i db db' url e = ground arith

log_resent_ok :
    (org : CurrentOrg) (actor i : Uuid) (member : Member) (db db' : Db) (url shown : String)
    → log_resent org actor i member url db ≡ (ok shown, db')
    → (shown ≡ url) × (db'.invite_tokens ≡ db.invite_tokens)
unfolding load_membership_with_relations create_audit_log
log_resent_ok org actor i member db db' url shown e = ground arith

resent_ok :
    (now : Instant) (org : CurrentOrg) (i : Uuid) (url : String) (db db' : Db)
    (reply : TeamMutation)
    → resent now org i url db ≡ (ok reply, db')
    → (reply.invite_url ≡ some url) × (db' ≡ db)
unfolding get_member_detail find_membership_or_throw
resent_ok now org i url db db' reply e = ground arith

-- After an invitation was sent again, one link of the membership can still be used: the new one,
-- which the reply shows. The earlier ones have run out.
pub resend_invite_single :
    (runtime : Runtime) (now : Instant) (raw_token : String) (org : CurrentOrg) (actor i : Uuid)
    (db db' : Db) (reply : TeamMutation)
    → resend_invite runtime now raw_token org actor i db ≡ (ok reply, db')
    → (reply.invite_url
        ≡ some (
            text_append
              (runtime.frontend_url otherwise "http://localhost:3000")
              (text_append "/invite/" raw_token)))
      × (key : Uuid) × (filter (is_usable now i) db'.invite_tokens
          ≡ new_invite runtime now raw_token i key ∷ [])
unfolding resend_invite build_invite_url
resend_invite_single runtime now raw_token org actor i db db' reply e =
    let (member, db1, found, e1) =
      bind_succeeds (find_membership_or_throw org.organization_id i)
        (resend_to runtime now raw_token org actor i) db e in
    let (u, db2, checked, e2) =
      bind_succeeds (check_resend org member)
        (λ _. transaction (resend runtime now raw_token org actor i member) >>= resent now org i)
        db1 e1 in
    let (url, db3, sent, e3) =
      bind_succeeds (transaction (resend runtime now raw_token org actor i member))
        (resent now org i) db2 e2 in
    let (fresh, db4, created, e4) =
      bind_succeeds (create_invite_for_membership runtime now raw_token i)
        (log_resent org actor i member) db2
        (transaction_ok (resend runtime now raw_token org actor i member) db2 sent) in
    let (link, rows) = create_invite_tokens runtime now raw_token i db2 db4 fresh created in
    let (same, logged) = log_resent_ok org actor i member db4 db3 fresh url e4 in
    let (shown, last) = resent_ok now org i url db3 db' reply e3 in
    let tokens : db'.invite_tokens
        ≡ new_invite runtime now raw_token i db2.next_id
          ∷ modify (is_live_invite now i) (end_at now) db2.invite_tokens =
      ap (λ d. d.invite_tokens) last ∙ logged ∙ rows in
    (
      shown ∙ ap some (same ∙ link),
      db2.next_id,
      ap (filter (is_usable now i)) tokens
          ∙ alone runtime now raw_token i db2.next_id db2.invite_tokens,
    )
