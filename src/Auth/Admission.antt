-- ===== src/Auth/Admission.antt =====
-- api/deps.py: what `get_current_user` has checked of a user whom it lets in, and what a changed row
-- leaves to be found.
use tantor_v.Prelude.{
  String, ◌≡◌, refl, sym, ap, ◌∙◌, Bool, true, false, not, Option, none, some, List, [], ◌∷◌, ◌==◌,
  eq_iff, eqb, eqb_iff, Bool-cases, inl, inr, if◌then◌else◌,
}
use tantor_v.Auth.Access.{
  User, Payload, Decoded, claims, expired, invalid, granted, denied, crashed, version, or_zero,
  find_user, has_kind, with_sub, check_user, get_current_user,
}
use tantor_v.Auth.Users.{◌then◌, put_user}

pub some-injective : {A : Type 0} {x y : A} → some x ≡ some y → x ≡ y
some-injective {x = x} e = ap (λ o. elim o [ none ↦ x | some z ↦ z ]) e

pub granted-injective : {A : Type 0} {x y : A} → granted x ≡ granted y → x ≡ y
granted-injective {x = x} e = ap (λ a. elim a [ granted z ↦ z | denied _ _ ↦ x | crashed _ ↦ x ]) e

pub claims-injective : {p q : Payload} → claims p ≡ claims q → p ≡ q
claims-injective {p} e = ap (λ d. elim d [ claims z ↦ z | expired ↦ p | invalid ↦ p ]) e

-- The row that is found later is the changed one.
pub find_user-put_user :
    (user changed : User) (users : List User) (id : String)
    → find_user id users ≡ some user
    → changed.id ≡ user.id
    → find_user id (put_user changed users) ≡ some changed
find_user-put_user user changed [] id h e = cc
find_user-put_user user changed (u ∷ rest) id h e = elim (Bool-cases (u.id == id)) [
  | inl same ↦
      let here : some u ≡ some user = rw same at h in
      let is_user : u ≡ user = some-injective here in
      let to_changed : u.id ≡ changed.id = ap (λ v. v.id) is_user ∙ sym e in
      let hit : (u.id == changed.id) ≡ true = (eq_iff u.id changed.id).1 to_changed in
      let named : (changed.id == id) ≡ true = rw to_changed at same in rw (hit, named) refl
  | inr other ↦
      skipped (u.id == changed.id) ((eq_iff u.id changed.id).0) other
        (find_user-put_user user changed rest id (rw other at h) e)
]
  where
    skipped :
        (b : Bool)
        → (b ≡ true → u.id ≡ changed.id)
        → (u.id == id) ≡ false
        → find_user id (put_user changed rest) ≡ some changed
        → find_user id ((if b then changed else u) ∷ put_user changed rest) ≡ some changed
    skipped true eq other later =
        let miss : (changed.id == id) ≡ false = rw (eq refl) at other in rw miss later
    skipped false eq other later = rw other later

-- What `get_current_user` has checked of a user whom it lets in.
pub record IsAdmitted (decode : String → Decoded) (users : List User) (token : String) (user : User)
    : Type 0 where
  pub payload : Payload
  pub sub : String
  pub decoded : decode token ≡ claims payload
  pub kind : has_kind "access" payload ≡ true
  pub subject : payload.sub ≡ some sub
  pub found : find_user sub users ≡ some user
  pub active : user.is_active ≡ true
  pub current : or_zero payload.tv ≡ version user

-- `get_current_user` lets a user in only with an access token that names the user by id, carries the
-- version of the row, and only while the row is active.
pub get_current_user-IsAdmitted :
    (decode : String → Decoded) (users : List User) (token : String) (user : User)
    → get_current_user decode users token ≡ granted user
    → IsAdmitted decode users token user
unfolding get_current_user check_user
get_current_user-IsAdmitted decode users token user h = by_decoded (decode token) refl h
  where
    checked :
        (p : Payload) (sub : String)
        → decode token ≡ claims p
        → has_kind "access" p ≡ true
        → p.sub ≡ some sub
        → (o : Option User) → find_user sub users ≡ o
        → check_user p o ≡ granted user
        → IsAdmitted decode users token user
    checked p sub d k s none f g = cc
    checked p sub d k s (some u) f g =
        verdict u.is_active (eqb (or_zero p.tv) (version u)) refl refl g
      where
        verdict :
            (a v : Bool)
            → u.is_active ≡ a
            → eqb (or_zero p.tv) (version u) ≡ v
            → (if not a
                then denied 401 "User not found or inactive"
                else if not v
                then denied 401
                    "Token revoked — your account's role or status changed. Please log in again."
                else granted u)
              ≡ granted user
            → IsAdmitted decode users token user
        verdict false v ha hv g' = cc
        verdict true false ha hv g' = cc
        verdict true true ha hv g' =
            let same : u ≡ user = granted-injective g' in
            record {
              payload = p;
              sub = sub;
              decoded = d;
              kind = k;
              subject = s;
              found = f ∙ ap some same;
              active = sym (ap (λ x. x.is_active) same) ∙ ha;
              current = (eqb_iff (or_zero p.tv) (version u)).0 hv ∙ ap (λ x. version x) same;
            }

    by_sub :
        (p : Payload)
        → decode token ≡ claims p
        → has_kind "access" p ≡ true
        → (o : Option String) → p.sub ≡ o
        → (elim o [ none ↦ crashed "KeyError" | some sub ↦ check_user p (find_user sub users) ])
          ≡ granted user
        → IsAdmitted decode users token user
    by_sub p d k none s g = cc
    by_sub p d k (some sub) s g = checked p sub d k s (find_user sub users) refl g

    by_kind :
        (p : Payload) (b : Bool)
        → decode token ≡ claims p
        → has_kind "access" p ≡ b
        → (if b
            then with_sub p (λ sub. check_user p (find_user sub users))
            else denied 401 "Invalid token type")
          ≡ granted user
        → IsAdmitted decode users token user
    by_kind p true d k g = by_sub p d k p.sub refl g
    by_kind p false d k g = cc

    by_decoded :
        (d : Decoded)
        → decode token ≡ d
        → (elim d [
          | expired ↦ denied 401 "Token expired"
          | invalid ↦ denied 401 "Invalid token"
          | claims p ↦
              if has_kind "access" p
              then with_sub p (λ sub. check_user p (find_user sub users))
              else denied 401 "Invalid token type"
        ])
          ≡ granted user
        → IsAdmitted decode users token user
    by_decoded expired d g = cc
    by_decoded invalid d g = cc
    by_decoded (claims p) d g = by_kind p (has_kind "access" p) d refl g
