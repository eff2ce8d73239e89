-- ===== src/Auth/Users.antt =====
-- api/auth.py: `create_user`, `update_user` and `delete_user`, behind `require_admin`. An
-- HTTPException leaves the rows as they were committed, so it only carries its code and text.
use tantor_v.Prelude.{
  ◌+◌, String, Bool, true, false, ◌&&◌, ◌||◌, not, Option, none, some, List, [], ◌∷◌, ◌++◌, ◌==◌,
  any, filter, if◌then◌else◌,
}
use tantor_v.Auth.Access.{User, version, find_user, Answer, granted, denied, crashed}

pub record UserUpdate : Type 0 where
  pub role : Option String
  pub password : Option String
  pub is_active : Option Bool

abbrev pub same_bool : Bool → Bool → Bool
same_bool true b = b
same_bool false b = not b

-- `user.token_version = (… or 0) + 1`
abbrev pub bump : User → User
bump user = record user { token_version = some (version user + 1) }

infixl 10 ◌then◌
abbrev pub ◌then◌ : {A B : Type 0} → Answer A → (A → Answer B) → Answer B
granted a then f = f a
denied code detail then f = denied code detail
crashed name then f = crashed name

module _ (current : User) where
  abbrev is_role : String → Bool
  is_role role = role == "admin" || role == "monitor"

  unfoldable pub update_role : Option String → User → Answer User
  update_role none user = granted user
  update_role (some role) user =
      if not (is_role role)
      then denied 400 "Role must be 'admin' or 'monitor'"
      else if user.id == current.id && not (role == "admin")
      then denied 400 "Cannot remove admin role from yourself"
      else granted (record (if user.role == role then user else bump user) { role = role })

  unfoldable pub update_active : Option Bool → User → Answer User
  update_active none user = granted user
  update_active (some active) user =
      if user.id == current.id && not active
      then denied 400 "Cannot deactivate yourself"
      else granted (record (if same_bool user.is_active active then user else bump user) {
        is_active = active;
      })

unfoldable pub update_password : (String → String) → Option String → User → Answer User
update_password hash none user = granted user
update_password hash (some password) user =
    if user.auth_source == "ldap"
    then denied 400
        "Cannot set a local password on an LDAP-synced user. Change the password in the directory."
    else granted (record user { hashed_password = hash password })

-- The three parts of `update_user`, in their order.
unfoldable pub apply_update : (String → String) → User → UserUpdate → User → Answer User
unfolding update_role update_password update_active
apply_update hash current update user =
    update_role current update.role user
    then update_password hash update.password
    then update_active current update.is_active

-- The row with this id is the changed one from now on.
abbrev pub put_user : User → List User → List User
put_user user [] = []
put_user user (u ∷ rest) = (if u.id == user.id then user else u) ∷ put_user user rest

unfoldable pub update_user :
    (String → String) → User → String → UserUpdate → List User → Answer (List User)
unfolding apply_update
update_user hash current user_id update users = elim (find_user user_id users) [
  | none ↦ denied 404 "User not found"
  | some user ↦
      apply_update hash current update user then λ changed. granted (put_user changed users)
]

-- `create_user`; the id is what `uuid4` gave.
unfoldable pub create_user :
    (String → String) → String → String → String → String → List User → Answer (List User)
create_user hash id username password role users =
    if not (role == "admin" || role == "monitor")
    then denied 400 "Role must be 'admin' or 'monitor'"
    else if any (λ u. u.username == username) users
    then denied 409 "Username already exists"
    else granted (
        users
        ++ record {
          id = id;
          username = username;
          hashed_password = hash password;
          role = role;
          auth_source = "local";
          is_active = true;
          token_version = some 0;
        }
          ∷ [])

unfoldable pub delete_user : User → String → List User → Answer (List User)
delete_user current user_id users = elim (find_user user_id users) [
  | none ↦ denied 404 "User not found"
  | some user ↦
      if user.id == current.id
      then denied 400 "Cannot delete yourself"
      else granted (filter (λ u. not (u.id == user.id)) users)
]
