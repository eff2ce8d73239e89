-- ===== src/Auth/Versions.antt =====
-- api/auth.py: how an update of a user changes the version of the row.
use tantor_v.Prelude.{
  ℕ, ◌+◌, ◌<◌, String, ◌≡◌, refl, ◌∙◌, Bool, true, false, ◌&&◌, ◌||◌, not, Option, none, some, ◌==◌,
  arith, if◌then◌else◌,
}
use tantor_v.Auth.Access.{User, Answer, granted, denied, crashed, version}
use tantor_v.Auth.Users.{
  UserUpdate, same_bool, bump, ◌then◌, update_role, update_password, update_active, apply_update,
}

abbrev pub IfGranted : {A : Type 0} → (A → Type 0) → Answer A → Type 0
IfGranted P (granted a) = P a
IfGranted P (denied code detail) = Unit
IfGranted P (crashed name) = Unit

-- What holds of a value that was granted.
pub record Grants {A : Type 0} (P : A → Type 0) (x : Answer A) : Type 0 where
  pub holds : IfGranted P x

module _ {A : Type 0} {P : A → Type 0} where
  Grants-if : (b : Bool) (x y : Answer A) → Grants P x → Grants P y → Grants P (if b then x else y)
  Grants-if true x y hx hy = hx
  Grants-if false x y hx hy = hy

  Grants-denied : (code : ℕ) (detail : String) → Grants P (denied code detail)
  Grants-denied code detail = record { holds = tt }

  Grants-granted : (a : A) → P a → Grants P (granted a)
  Grants-granted a h = record { holds = h }

Grants-then :
    {A B : Type 0} {P : A → Type 0} {Q : B → Type 0} (x : Answer A) (f : A → Answer B)
    → Grants P x
    → ((a : A) → P a → Grants Q (f a))
    → Grants Q (x then f)
Grants-then (granted a) f h k = k a h.holds
Grants-then (denied code detail) f h k = record { holds = tt }
Grants-then (crashed name) f h k = record { holds = tt }

Grants-map :
    {A : Type 0} {P Q : A → Type 0} (x : Answer A) → ((a : A) → P a → Q a) → Grants P x → Grants Q x
Grants-map (granted a) f h = record { holds = f a h.holds }
Grants-map (denied code detail) f h = record { holds = tt }
Grants-map (crashed name) f h = record { holds = tt }

-- How often an update bumps the version.
abbrev role_bumps : Option String → User → ℕ
role_bumps none user = 0
role_bumps (some role) user = if user.role == role then 0 else 1

abbrev active_bumps : Option Bool → User → ℕ
active_bumps none user = 0
active_bumps (some active) user = if same_bool user.is_active active then 0 else 1

-- An update changes the role of the user, or whether the user is active.
abbrev pub changes_privilege : UserUpdate → User → Bool
changes_privilege update user =
    (elim update.role [ none ↦ false | some role ↦ not (user.role == role) ])
    || (elim update.is_active [
      | none ↦ false
      | some active ↦ not (same_bool user.is_active active)
    ])

module _ (current : User) where
  update_role_lem :
      (role : Option String) (user : User)
      → Grants
          (λ u.
            (u.id ≡ user.id)
            × (u.is_active ≡ user.is_active)
            × (version u ≡ version user + role_bumps role user))
          (update_role current role user)
  unfolding update_role
  update_role_lem none user = Grants-granted user (refl, refl, omega arith)
  update_role_lem (some role) user =
      Grants-if (not (role == "admin" || role == "monitor")) _ _
        (Grants-denied 400 "Role must be 'admin' or 'monitor'")
        (Grants-if (user.id == current.id && not (role == "admin")) _ _
          (Grants-denied 400 "Cannot remove admin role from yourself")
          (by_case (user.role == role)))
    where
      by_case :
          (b : Bool)
          → Grants
              (λ u.
                (u.id ≡ user.id)
                × (u.is_active ≡ user.is_active)
                × (version u ≡ version user + (if b then 0 else 1)))
              (granted (record (if b then user else bump user) { role = role }))
      by_case true = Grants-granted _ (refl, refl, omega arith)
      by_case false = Grants-granted _ (refl, refl, refl)

  update_active_lem :
      (active : Option Bool) (user : User)
      → Grants
          (λ u. (u.id ≡ user.id) × (version u ≡ version user + active_bumps active user))
          (update_active current active user)
  unfolding update_active
  update_active_lem none user = Grants-granted user (refl, omega arith)
  update_active_lem (some active) user =
      Grants-if _ _ _ (Grants-denied _ _) (by_case (same_bool user.is_active active))
    where
      by_case :
          (b : Bool)
          → Grants
              (λ u. (u.id ≡ user.id) × (version u ≡ version user + (if b then 0 else 1)))
              (granted (record (if b then user else bump user) { is_active = active }))
      by_case true = Grants-granted _ (refl, omega arith)
      by_case false = Grants-granted _ (refl, refl)

update_password_lem :
    (hash : String → String) (password : Option String) (user : User)
    → Grants
        (λ u. (u.id ≡ user.id) × (u.is_active ≡ user.is_active) × (version u ≡ version user))
        (update_password hash password user)
unfolding update_password
update_password_lem hash none user = Grants-granted user (refl, refl, refl)
update_password_lem hash (some password) user =
    Grants-if _ _ _ (Grants-denied _ _) (Grants-granted _ (refl, refl, refl))

bumped :
    (update : UserUpdate) (user : User)
    → changes_privilege update user ≡ true
    → 0 < role_bumps update.role user + active_bumps update.is_active user
bumped update user h = by_parts update.role update.is_active h
  where
    by_parts :
        (role : Option String) (active : Option Bool)
        → ((elim role [ none ↦ false | some r ↦ not (user.role == r) ])
            || (elim active [ none ↦ false | some b ↦ not (same_bool user.is_active b) ]))
          ≡ true
        → 0 < role_bumps role user + active_bumps active user
    by_parts none none e = cc
    by_parts none (some b) e = ground arith
    by_parts (some r) none e = ground arith
    by_parts (some r) (some b) e = ground arith

-- A granted update leaves the id, and a change of privilege raises the version.
module _ (hash : String → String) (current : User) (update : UserUpdate) (user : User)
    (privileged : changes_privilege update user ≡ true) where
  abbrev pub IsRaised : User → Type 0
  IsRaised changed = (changed.id ≡ user.id) × (version user < version changed)

  abbrev IsChanged : User → Type 0
  IsChanged u =
      (u.id ≡ user.id)
      × (u.is_active ≡ user.is_active)
      × (version u ≡ version user + role_bumps update.role user)

  pub apply_update-IsRaised : Grants IsRaised (apply_update hash current update user)
  unfolding apply_update
  apply_update-IsRaised =
      Grants-then _ _
        (Grants-then _ _ (update_role_lem current update.role user) (λ u h.
          Grants-map {Q = IsChanged} (update_password hash update.password u)
            (λ v k. (k.0 ∙ h.0, k.1 ∙ h.1, k.2 ∙ h.2))
            (update_password_lem hash update.password u)))
        (λ u h.
          Grants-map {Q = IsRaised} (update_active current update.is_active u) (finished u h)
            (update_active_lem current update.is_active u))
    where
      same_bumps :
          (active : Option Bool) (u : User)
          → u.is_active ≡ user.is_active
          → active_bumps active u ≡ active_bumps active user
      same_bumps none u e = refl
      same_bumps (some b) u e = rw e refl

      finished :
          (u : User)
          → IsChanged u
          → (v : User) → (v.id ≡ u.id) × (version v ≡ version u + active_bumps update.is_active u)
          → IsRaised v
      finished u h v k =
          let same : active_bumps update.is_active u ≡ active_bumps update.is_active user =
            same_bumps update.is_active u h.1 in
          let r = bumped update user privileged in (k.0 ∙ h.0, omega (arith, k.1, h.2, same, r))
