-- ===== src/Auth/Refresh.antt =====
-- backend/src/domain/auth/auth.service.ts: when a session is refreshed, and what the new access token
-- says.
use ledger_light_admin.Base.{
  Bool, true, false, not, ◌&&◌, Option, none, some, is_some, List, [], ◌∷◌, map, any, length,
  String, Uuid, Instant, Error, ok, err, unauthorized, ltb, find, find_holds, filter, filter_ext,
  any_of_filter, any_ext, length-filter-any, ◌==◌, ==_iff, ◌≡◌, ◌⊎◌, inl, inr, refl, ap, ◌∙◌, arith,
  Bool-cases, Result-cases, both_ways,
}
use ledger_light_admin.Base.Atomic.{bind_ok}
use ledger_light_admin.Access.Guards.{JwtMembership}
use ledger_light_admin.Store.{
  Db, Membership, MembershipStatus, MembershipLocation, User, RefreshToken,
}
use ledger_light_admin.Team.{has_user_id}
use ledger_light_admin.Auth.{
  AccessToken, is_valid_token, is_active_membership, active_memberships, is_active_user, payload,
  serialize_jwt_membership, issue, token_owner, refresh,
}

-- The token is of the user, has time left, was not revoked, and fits the text.
abbrev pub opens : (String → String → Bool) → Instant → String → Uuid → RefreshToken → Bool
opens compare_hash now raw user_id token =
    (token.user_id == user_id && (ltb now token.expires_at && not (is_some token.revoked_at)))
    && compare_hash raw token.token_hash

abbrev pub is_active : MembershipStatus → Bool
is_active MembershipStatus.active = true
is_active status = false

-- The membership is one of the user's, and active.
abbrev pub is_open_to : Uuid → Membership → Bool
is_open_to user_id m = m.user_id == user_id && is_active m.status

-- Who may refresh a session.
pub record CanRefresh (compare_hash : String → String → Bool) (now : Instant) (raw : String)
    (user_id : Uuid) (db : Db) (user : User) : Type 0 where
  pub token : any (opens compare_hash now raw user_id) db.refresh_tokens ≡ true
  pub found : find (λ (u : User). u.id == user_id) db.users ≡ some user
  pub active : user.is_active ≡ true
  pub belongs : any (is_open_to user_id) db.memberships ≡ true

-- The locations that a membership is restricted to.
abbrev pub places : Db → Uuid → List Uuid
places db i =
    map (λ (entry : MembershipLocation). entry.location_id)
      (filter (λ entry. entry.membership_id == i) db.membership_locations)

-- What a token says of a membership: one without places has all locations.
abbrev pub claim : Db → Membership → JwtMembership
claim db m = record {
  id = some m.id;
  user_id = m.user_id;
  organization_id = m.organization_id;
  role = m.role;
  has_all_locations = some (length (places db m.id) == 0);
  allowed_location_ids = some (places db m.id);
}

-- The token for a user: the row without the password, and every active membership.
abbrev pub token_for : Db → User → AccessToken
token_for db user = record {
  sub = user.id;
  user = record user { password_hash = none };
  memberships = map (claim db) (filter (is_open_to user.id) db.memberships);
}

is_active_membership-is_open_to :
    (user_id : Uuid) (m : Membership) → is_active_membership user_id m ≡ is_open_to user_id m
is_active_membership-is_open_to user_id m = ground arith

map-claim :
    (db : Db) (ms : List Membership) → map (serialize_jwt_membership db) ms ≡ map (claim db) ms
unfolding serialize_jwt_membership
map-claim db [] = refl
map-claim db (m ∷ ms) = ap (λ rest. claim db m ∷ rest) (map-claim db ms)

payload-token_for :
    (db : Db) (user : User) → payload db user (active_memberships user.id db) ≡ token_for db user
payload-token_for db user =
    ap (λ ms. payload db user ms)
      (filter_ext (is_active_membership user.id) (is_open_to user.id)
        (is_active_membership-is_open_to user.id) db.memberships)
    ∙ ap (λ cs. record (token_for db user) { memberships = cs })
        (map-claim db (filter (is_open_to user.id) db.memberships))

module _ (compare_hash : String → String → Bool) (now : Instant) (raw : String) (user_id : Uuid)
    (db : Db) where
  valid_if_opens :
      (tokens : List RefreshToken)
      → any (opens compare_hash now raw user_id) tokens ≡ true
      → (length (filter (is_valid_token now user_id) tokens) == 0) ≡ false
  unfolding filter
  valid_if_opens [] h = cc
  valid_if_opens (token ∷ tokens) h = ground (arith, valid_if_opens tokens)

  -- The tests of the tokens say together that one of them opens.
  opened :
      any
        (λ (t : RefreshToken). compare_hash raw t.token_hash)
        (filter (is_valid_token now user_id) db.refresh_tokens)
      ≡ any (opens compare_hash now raw user_id) db.refresh_tokens
  opened =
      any_of_filter (λ (t : RefreshToken). compare_hash raw t.token_hash)
        (is_valid_token now user_id) db.refresh_tokens

  token_owner_is :
      (user : User)
      → any (opens compare_hash now raw user_id) db.refresh_tokens ≡ true
      → is_active_user (find (has_user_id user_id) db.users) ≡ some user
      → token_owner compare_hash now raw user_id db ≡ (ok user, db)
  unfolding token_owner
  token_owner_is user some_opens found =
      let many = valid_if_opens db.refresh_tokens some_opens in
      let fits = opened ∙ some_opens in ground arith

  token_owner_keeps : (token_owner compare_hash now raw user_id db).1 ≡ db
  unfolding token_owner
  token_owner_keeps = ground arith

  token_owner_ok :
      (user : User)
      → (token_owner compare_hash now raw user_id db).0 ≡ ok user
      → (any (opens compare_hash now raw user_id) db.refresh_tokens ≡ true)
        × (is_active_user (find (has_user_id user_id) db.users) ≡ some user)
  unfolding token_owner
  token_owner_ok user h = let same = opened in ground arith

any_open :
    (user_id : Uuid) (db : Db)
    → (length (active_memberships user_id db) == 0) ≡ not (any (is_open_to user_id) db.memberships)
any_open user_id db =
    length-filter-any (is_active_membership user_id) db.memberships
    ∙ ap not (
        any_ext (is_active_membership user_id) (is_open_to user_id)
          (is_active_membership-is_open_to user_id) db.memberships)

issue_outcome :
    (user : User) (db : Db)
    → (any (is_open_to user.id) db.memberships ≡ true)
        × (issue user db ≡ (ok (token_for db user), db))
      ⊎ (any (is_open_to user.id) db.memberships ≡ false)
        × ((e : Error) × (issue user db ≡ (err e, db)))
unfolding issue
issue_outcome user db =
    let counted = any_open user.id db in
    let said = payload-token_for db user in
    elim (Bool-cases (any (is_open_to user.id) db.memberships)) [
      | inl t ↦ inl (t, ground arith)
      | inr f ↦ inr (
        f,
        (
          unauthorized "Invalid refresh token, user has no active organization memberships",
          ground arith,
        ),
      )
    ]

-- The user that is found is the one asked for, and active.
active_user :
    (found : Option User) (user : User)
    → is_active_user found ≡ some user
    → (found ≡ some user) × (user.is_active ≡ true)
active_user found user h = ground arith

active_user_is :
    (found : Option User) (user : User)
    → found ≡ some user
    → user.is_active ≡ true
    → is_active_user found ≡ some user
active_user_is found user h active = ground arith

-- A session is refreshed exactly when the user, who is active, holds a token that is neither too old
-- nor revoked and fits the text, and has an active membership. The new access token then carries the
-- user without the password, and every membership that is active now with its role and its
-- locations. Nothing is written in either case.
pub refresh_outcome :
    (compare_hash : String → String → Bool) (now : Instant) (raw : String) (user_id : Uuid)
    (db : Db)
    → let done = refresh compare_hash now raw user_id db in
      ((user : User) × CanRefresh compare_hash now raw user_id db user
        × (done ≡ (ok (token_for db user), db)))
      ⊎ ((user : User) → ¬ CanRefresh compare_hash now raw user_id db user)
        × ((e : Error) × (done ≡ (err e, db)))
unfolding refresh
refresh_outcome compare_hash now raw user_id db =
    let keeps = token_owner_keeps compare_hash now raw user_id db in
    elim (Result-cases (token_owner compare_hash now raw user_id db).0) [
      | inl (user, p) ↦
          let (opened, found) = token_owner_ok compare_hash now raw user_id db user p in
          let (there, active) = active_user _ user found in
          let same : user.id ≡ user_id =
            (==_iff _ _).0 (find_holds (has_user_id user_id) db.users user there) in
          let whole =
            bind_ok (token_owner compare_hash now raw user_id) issue db
              (token_owner_is compare_hash now raw user_id db user opened found) in
          elim (issue_outcome user db) [
            | inl (some_open, issued) ↦ inl (
              user,
              record {
                token = opened;
                found = there;
                active = active;
                belongs = rw same at some_open;
              },
              whole ∙ issued,
            )
            | inr (none_open, (e, refused)) ↦ inr (
              λ other can. absurd (both_ways can.belongs (rw same at none_open)),
              (e, whole ∙ refused),
            )
          ]
      | inr (e, p) ↦ inr (
        λ user can.
            let runs =
              token_owner_is compare_hash now raw user_id db user can.token
                (active_user_is _ user can.found can.active) in
            absurd (ground arith),
        (e, ground arith),
      )
    ]
