-- ===== src/Auth/Sockets.antt =====
-- api/deps.py: `get_ws_user` does not read the version of the row.
use tantor_v.Prelude.{
  String, ◌≡◌, refl, Bool, true, false, Option, none, some, List, [], ◌∷◌, ◌==◌, map, Bool-cases,
  inl, inr, if◌then◌else◌,
}
use tantor_v.Auth.Access.{
  User, Decoded, claims, expired, invalid, find_user, has_kind, active_user, get_ws_user,
}
use tantor_v.Auth.Users.{bump}

abbrev pub bumped_user : Option User → Option User
bumped_user none = none
bumped_user (some user) = some (bump user)

find_user-bump :
    (id : String) (users : List User)
    → find_user id (map bump users) ≡ bumped_user (find_user id users)
find_user-bump id [] = refl
find_user-bump id (u ∷ rest) = elim (Bool-cases (u.id == id)) [
  | inl same ↦ rw same refl
  | inr other ↦ rw other (find_user-bump id rest)
]

active_user-bump : (o : Option User) → active_user (bumped_user o) ≡ bumped_user (active_user o)
active_user-bump none = refl
active_user-bump (some user) = by_active user.is_active
  where
    by_active :
        (b : Bool)
        → (if b then some (bump user) else none) ≡ bumped_user (if b then some user else none)
    by_active true = refl
    by_active false = refl

-- A WebSocket token lets in the same user when the version of every row is raised: raising it does
-- not revoke the token there.
pub get_ws_user-bump :
    (decode : String → Decoded) (users : List User) (token : String)
    → get_ws_user decode (map bump users) token ≡ bumped_user (get_ws_user decode users token)
unfolding get_ws_user
get_ws_user-bump decode users token = by_token (token == "") (decode token)
  where
    named :
        (sub : Option String)
        → (elim sub [ none ↦ none | some s ↦ active_user (find_user s (map bump users)) ])
          ≡ bumped_user (elim sub [ none ↦ none | some s ↦ active_user (find_user s users) ])
    named none = refl
    named (some s) = rw (find_user-bump s users) (active_user-bump (find_user s users))

    by_kind :
        (b : Bool) (sub : Option String)
        → (if b
            then (elim sub [ none ↦ none | some s ↦ active_user (find_user s (map bump users)) ])
            else none)
          ≡ bumped_user (
              if b
              then (elim sub [ none ↦ none | some s ↦ active_user (find_user s users) ])
              else none)
    by_kind true sub = named sub
    by_kind false sub = refl

    by_token :
        (b : Bool) (d : Decoded)
        → (if b then none else elim d [
          | expired ↦ none
          | invalid ↦ none
          | claims p ↦
              if has_kind "access" p
              then (elim p.sub [
                | none ↦ none
                | some s ↦ active_user (find_user s (map bump users))
              ])
              else none
        ])
          ≡ bumped_user (
              if b then none else elim d [
                | expired ↦ none
                | invalid ↦ none
                | claims p ↦
                    if has_kind "access" p
                    then (elim p.sub [ none ↦ none | some s ↦ active_user (find_user s users) ])
                    else none
              ])
    by_token true d = refl
    by_token false expired = refl
    by_token false invalid = refl
    by_token false (claims p) = by_kind (has_kind "access" p) p.sub
