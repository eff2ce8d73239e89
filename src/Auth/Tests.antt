-- ===== src/Auth/Tests.antt =====
-- The theorems on tokens at concrete inputs.
use tantor_v.Prelude.{String, ◌≡◌, ◌≢◌, refl, true, List, [], ◌∷◌, none, some, map}
use tantor_v.Auth.Access.{User, Decoded, claims, granted, check_user, get_current_user, get_ws_user}
use tantor_v.Auth.Users.{
  UserUpdate, bump, update_role, update_password, update_active, apply_update, put_user,
  update_user,
}
use tantor_v.Auth.Admission.{IsAdmitted, get_current_user-IsAdmitted}
use tantor_v.Auth.Revocation.{update_user-revokes}
use tantor_v.Auth.Sockets.{bumped_user, get_ws_user-bump}

abbrev user : String → String → User
user id role = record {
  id = id;
  username = id;
  hashed_password = "";
  role = role;
  auth_source = "local";
  is_active = true;
  token_version = some 0;
}

abbrev users : List User
users = user "a" "admin" ∷ user "u" "admin" ∷ []

abbrev decode : String → Decoded
decode token = claims (record { kind = some "access"; sub = some "u"; tv = some 0 })

abbrev demotion : UserUpdate
demotion = record { role = some "monitor"; password = none; is_active = none }

get_current_user-IsAdmitted_example : IsAdmitted decode users "t" (user "u" "admin")
unfolding get_current_user check_user
get_current_user-IsAdmitted_example =
    get_current_user-IsAdmitted decode users "t" (user "u" "admin") refl

abbrev demoted : User
demoted = record (user "u" "monitor") { token_version = some 1 }

update_user-revokes_example : get_current_user decode (put_user demoted users) "t" ≢ granted demoted
unfolding get_current_user check_user update_user apply_update update_role update_password
    update_active
update_user-revokes_example =
    update_user-revokes decode (λ p. p) (user "a" "admin") "u" demotion users
      (put_user demoted users) "t" (user "u" "admin") refl refl refl refl demoted

get_ws_user-bump_example :
    get_ws_user decode (map bump users) "t" ≡ bumped_user (get_ws_user decode users "t")
get_ws_user-bump_example = get_ws_user-bump decode users "t"
