-- ===== src/Auth/Revocation.antt =====
-- api/auth.py and api/deps.py: a change of role or of activity revokes the tokens of the user.
use tantor_v.Prelude.{
  ◌<◌, String, ◌≡◌, ◌≢◌, refl, sym, ap, ◌∙◌, true, some, List, arith, if◌then◌else◌,
}
use tantor_v.Auth.Access.{
  User, Decoded, Answer, granted, denied, crashed, version, or_zero, find_user, get_current_user,
}
use tantor_v.Auth.Users.{UserUpdate, ◌then◌, apply_update, put_user, update_user}
use tantor_v.Auth.Versions.{Grants, IsRaised, changes_privilege, apply_update-IsRaised}
use tantor_v.Auth.Admission.{
  some-injective, granted-injective, claims-injective, find_user-put_user,
  get_current_user-IsAdmitted,
}

-- A granted update has put the row that the parts of the update made.
update_user-put_user :
    (hash : String → String) (current : User) (user_id : String) (update : UserUpdate)
    (users rows : List User) (user : User)
    → find_user user_id users ≡ some user
    → update_user hash current user_id update users ≡ granted rows
    → (changed : User) × (apply_update hash current update user ≡ granted changed)
      × (rows ≡ put_user changed users)
unfolding update_user
update_user-put_user hash current user_id update users rows user found done =
    put (apply_update hash current update user) (rw (found, update_user) at done)
  where
    put :
        (x : Answer User)
        → (x then λ changed. granted (put_user changed users)) ≡ granted rows
        → (changed : User) × (x ≡ granted changed) × (rows ≡ put_user changed users)
    put (granted changed) e = (changed, refl, sym (granted-injective e))
    put (denied code detail) e = cc
    put (crashed name) e = cc

-- An administrator's update that is granted and changes a user's role or activity revokes the user's
-- tokens: a token that let the user in before it lets nobody in after it.
pub update_user-revokes :
    (decode : String → Decoded) (hash : String → String) (current : User) (user_id : String)
    (update : UserUpdate) (users rows : List User) (token : String) (user : User)
    → get_current_user decode users token ≡ granted user
    → find_user user_id users ≡ some user
    → changes_privilege update user ≡ true
    → update_user hash current user_id update users ≡ granted rows
    → (again : User) → get_current_user decode rows token ≢ granted again
update_user-revokes decode hash current user_id update users rows token user before found privileged
      done again after =
    let b = get_current_user-IsAdmitted decode users token user before in
    let a = get_current_user-IsAdmitted decode rows token again after in
    let put = update_user-put_user hash current user_id update users rows user found done in
    let raised = raised_of put.0 put.1 in
    let same_payload : b.payload ≡ a.payload = claims-injective (sym b.decoded ∙ a.decoded) in
    let same_sub : b.sub ≡ a.sub =
      some-injective (sym b.subject ∙ ap (λ p. p.sub) same_payload ∙ a.subject) in
    let later : find_user b.sub rows ≡ some put.0 =
      rw put.2 (find_user-put_user user put.0 users b.sub b.found raised.0) in
    let row : put.0 ≡ again =
      some-injective (sym later ∙ ap (λ s. find_user s rows) same_sub ∙ a.found) in
    let tv : version user ≡ version again =
      sym b.current ∙ ap (λ p. or_zero p.tv) same_payload ∙ a.current in
    let bumped : version put.0 ≡ version again = ap (λ u. version u) row in
    omega (arith, raised.1, tv, bumped)
  where
    raised_of :
        (changed : User)
        → apply_update hash current update user ≡ granted changed
        → (changed.id ≡ user.id) × (version user < version changed)
    raised_of changed e =
        let t : Grants (IsRaised hash current update user privileged) (granted changed) =
          rw e at (apply_update-IsRaised hash current update user privileged) in
        t.holds
