-- ===== src/Auth/Sessions.antt =====
-- apps/server/src/auth.ts: the operations of `AuthStore` on sessions.
pub mod Same
use server_central.Prelude.{
  ℕ, String, Bool, true, false, not, ◌&&◌, List, [], ◌∷◌, Option, none, some, Result, ok, err,
  if◌then◌else◌, ◌===◌, ltb, is_empty, is_some, same_option, any, filter, find, or_else,
}
use server_central.Prelude.Dict.{Dict, get, put, remove, keep, values}
use server_central.Roles.{RoleStore}
use server_central.Auth.{
  UserRecord, SessionRecord, AuthStore, UserInfo, AuthError, session_not_found, own_session,
  user_not_found, to_user_info, persist_sessions, is_expired,
}

-- `token` is what `randomBytes(32)` gives.
unfoldable pub create_session :
    (token uuid user_id : String) → (ip user_agent : Option String) → ℕ → AuthStore → AuthStore
create_session token uuid user_id ip user_agent now s = persist_sessions (record s {
  sessions = put s.sessions token (record {
    id = uuid;
    user_id = user_id;
    created_at = now;
    last_seen_at = now;
    ip = ip;
    user_agent = user_agent;
  });
})

unfoldable pub logout_token : String → AuthStore → AuthStore
logout_token token s =
    if not (is_empty token) && is_some (get s.sessions token)
    then persist_sessions (record s { sessions = remove s.sessions token })
    else s

unfoldable pub logout : Option String → AuthStore → AuthStore
unfolding logout_token
logout none s = s
logout (some token) s = logout_token token s

-- `authenticate` behind its session and its user. The file takes the sessions at once; the source
-- writes it later, or not at all.
unfoldable pub recognise :
    RoleStore
    → String
    → SessionRecord
    → Option UserRecord
    → ℕ
    → AuthStore
    → Option UserInfo × AuthStore
recognise roles token session none now s = (none, s)
recognise roles token session (some rec) now s = (
  some (to_user_info roles rec),
  persist_sessions
      (record s { sessions = put s.sessions token (record session { last_seen_at = now }) }),
)

unfoldable pub authenticate_session :
    RoleStore → String → Option SessionRecord → ℕ → AuthStore → Option UserInfo × AuthStore
unfolding recognise
authenticate_session roles token none now s = (none, s)
authenticate_session roles token (some session) now s =
    if is_expired now session
    then (none, persist_sessions (record s { sessions = remove s.sessions token }))
    else recognise roles token session (get s.users session.user_id) now s

unfoldable pub authenticate :
    RoleStore → Option String → ℕ → AuthStore → Option UserInfo × AuthStore
unfolding authenticate_session
authenticate roles none now s = (none, s)
authenticate roles (some token) now s =
    if is_empty token
    then (none, s)
    else authenticate_session roles token (get s.sessions token) now s

unfoldable pub revoke_entry :
    Option (String × SessionRecord)
    → (current_token : Option String) → AuthStore
    → Result AuthError AuthStore
revoke_entry none current_token s = err session_not_found
revoke_entry (some (token, x)) current_token s =
    if same_option (some token) current_token
    then err own_session
    else ok (persist_sessions (record s { sessions = remove s.sessions token }))

unfoldable pub revoke_session :
    (user_id session_id : String)
    → (current_token : Option String) → AuthStore
    → Result AuthError AuthStore
unfolding revoke_entry
revoke_session user_id session_id current_token s =
    revoke_entry (find (λ e. e.1.user_id === user_id && e.1.id === session_id) s.sessions)
      current_token s

-- The sessions that are left, and the file, which is written only if one went.
unfoldable pub drop_sessions : String → AuthStore → AuthStore
drop_sessions user_id s =
    if any (λ x. x.user_id === user_id) (values s.sessions)
    then persist_sessions
        (record s { sessions = keep (λ token x. not (x.user_id === user_id)) s.sessions })
    else s

-- `onCredentialsRevoked`, which acts on what else holds the account's credentials.
module _ {H : Type 0} (on_credentials_revoked : String → H → H) where
  unfoldable pub delete_sessions_for_user : String → AuthStore × H → AuthStore × H
  unfolding drop_sessions
  delete_sessions_for_user user_id (s, h) =
      (drop_sessions user_id s, on_credentials_revoked user_id h)

-- The fields of `UserSession`.
pub record UserSession : Type 0 where
  pub id : String
  pub created_at : ℕ
  pub last_seen_at : ℕ
  pub ip : Option String
  pub user_agent : Option String
  pub current : Bool

abbrev shown : Option String → String → SessionRecord → UserSession
shown current_token token x = record {
  id = x.id;
  created_at = x.created_at;
  last_seen_at = x.last_seen_at;
  ip = x.ip;
  user_agent = x.user_agent;
  current = same_option (some token) current_token;
}

-- The stable sort, the last seen first, by insertion.
insert_by_last_seen : UserSession → List UserSession → List UserSession
insert_by_last_seen x [] = x ∷ []
insert_by_last_seen x (y ∷ ys) =
    let rest = insert_by_last_seen x ys in
    if ltb x.last_seen_at y.last_seen_at then y ∷ rest else x ∷ y ∷ ys

sessions_of : String → Option String → Dict SessionRecord → List UserSession
unfolding insert_by_last_seen
sessions_of user_id current_token [] = []
sessions_of user_id current_token ((token, x) ∷ m) =
    let rest = sessions_of user_id current_token m in
    if x.user_id === user_id then insert_by_last_seen (shown current_token token x) rest else rest

pub record UserDetail : Type 0 where
  pub info : UserInfo
  pub extra_permissions : List String
  pub sessions : List UserSession
  pub last_active_at : Option ℕ

abbrev last_active : List UserSession → Option ℕ
last_active [] = none
last_active (x ∷ xs) = some x.last_seen_at

unfoldable pub get_user_detail :
    RoleStore
    → (user_id : String) → (current_token : Option String) → AuthStore
    → Result AuthError UserDetail
unfolding sessions_of
get_user_detail roles user_id current_token s = elim (get s.users user_id) [
  | none ↦ err user_not_found
  | some rec ↦
      let found = sessions_of user_id current_token s.sessions in
      ok (record {
        info = to_user_info roles rec;
        extra_permissions = or_else rec.extra_permissions [];
        sessions = found;
        last_active_at = last_active found;
      })
]
