-- ===== src/Auth/Access.antt =====
-- services/auth_service.py (`create_access_token`, `create_refresh_token`), api/deps.py
-- (`get_current_user`, `require_admin`, `get_ws_user`) and api/auth.py (`login`, `refresh`). The jwt
-- library is a parameter: what `jwt.encode` and `jwt.decode` make of a payload and of a token.
use tantor_v.Prelude.{
  ℕ, String, Bool, false, not, Option, none, some, List, [], ◌∷◌, ◌==◌, eqb, if◌then◌else◌,
}

pub record User : Type 0 where
  pub id : String
  pub username : String
  pub hashed_password : String
  pub role : String
  pub auth_source : String
  pub is_active : Bool
  pub token_version : Option ℕ

-- The claims that are read; the times of expiry are the library's business.
pub record Payload : Type 0 where
  pub kind : Option String
  pub sub : Option String
  pub tv : Option ℕ

-- What `jwt.decode` does: a payload, ExpiredSignatureError, or another InvalidTokenError.
pub data Decoded : Type 0 where
  claims : Payload → Decoded
  expired invalid : Decoded

-- A value, an HTTPException, or an exception that nobody catches.
pub data Answer (A : Type 0) : Type 0 where
  granted : A → Answer A
  denied : ℕ → String → Answer A
  crashed : String → Answer A

pub record Tokens : Type 0 where
  pub access_token : String
  pub refresh_token : String
  pub role : String

-- `getattr(user, "token_version", 0) or 0`, and `payload.get("tv", 0) or 0`
abbrev pub or_zero : Option ℕ → ℕ
or_zero none = 0
or_zero (some n) = n

abbrev pub version : User → ℕ
version user = or_zero user.token_version

-- `db.query(User).filter(User.id == id).first()`
abbrev pub find_user : String → List User → Option User
find_user id [] = none
find_user id (u ∷ rest) = if u.id == id then some u else find_user id rest

-- `payload.get("type") == kind`
abbrev pub has_kind : String → Payload → Bool
has_kind kind p = elim p.kind [ none ↦ false | some k ↦ k == kind ]

-- `payload.get("tv")` against the row: the last check of `get_current_user`.
unfoldable pub check_user : Payload → Option User → Answer User
check_user p none = denied 401 "User not found or inactive"
check_user p (some user) =
    if not user.is_active
    then denied 401 "User not found or inactive"
    else if not (eqb (or_zero p.tv) (version user))
    then denied 401 "Token revoked — your account's role or status changed. Please log in again."
    else granted user

-- `payload["sub"]` stands outside the `try`.
abbrev pub with_sub : {A : Type 0} → Payload → (String → Answer A) → Answer A
with_sub p f = elim p.sub [ none ↦ crashed "KeyError" | some sub ↦ f sub ]

abbrev pub active_user : Option User → Option User
active_user none = none
active_user (some user) = if user.is_active then some user else none

module _ (decode : String → Decoded) (users : List User) where
  unfoldable pub get_current_user : String → Answer User
  unfolding check_user
  get_current_user token = elim (decode token) [
    | expired ↦ denied 401 "Token expired"
    | invalid ↦ denied 401 "Invalid token"
    | claims p ↦
        if has_kind "access" p
        then with_sub p (λ sub. check_user p (find_user sub users))
        else denied 401 "Invalid token type"
  ]

  unfoldable pub require_admin : String → Answer User
  unfolding get_current_user
  require_admin token = elim (get_current_user token) [
    | granted user ↦
        if user.role == "admin" then granted user else denied 403 "Admin access required"
    | denied code detail ↦ denied code detail
    | crashed name ↦ crashed name
  ]

  -- Every exception, that of a missing "sub" too, gives `None`.
  unfoldable pub get_ws_user : String → Option User
  get_ws_user token = if token == "" then none else elim (decode token) [
    | expired ↦ none
    | invalid ↦ none
    | claims p ↦
        if has_kind "access" p
        then (elim p.sub [ none ↦ none | some sub ↦ active_user (find_user sub users) ])
        else none
  ]

module _ (encode : Payload → String) where
  unfoldable pub create_access_token : String → ℕ → String
  create_access_token id tv = encode (record { kind = some "access"; sub = some id; tv = some tv })

  unfoldable pub create_refresh_token : String → ℕ → String
  create_refresh_token id tv =
      encode (record { kind = some "refresh"; sub = some id; tv = some tv })

  unfoldable pub token_response : User → Tokens
  unfolding create_access_token create_refresh_token
  token_response user = record {
    access_token = create_access_token user.id (version user);
    refresh_token = create_refresh_token user.id (version user);
    role = user.role;
  }

  -- `login`, on what `AuthService.authenticate` found.
  unfoldable pub login : Option User → Answer Tokens
  unfolding token_response
  login none = denied 401 "Invalid credentials"
  login (some user) = granted (token_response user)

  -- `payload.get("tv", 0) != expected`; the payloads of this model have no null claim.
  abbrev refresh_checked : Payload → Option User → Answer Tokens
  refresh_checked p none = denied 401 "User not found or inactive"
  refresh_checked p (some user) =
      if not user.is_active
      then denied 401 "User not found or inactive"
      else if not (eqb (or_zero p.tv) (version user))
      then denied 401 "Refresh token revoked — log in again"
      else granted (token_response user)

  unfoldable pub refresh : (String → Decoded) → List User → String → Answer Tokens
  unfolding token_response
  refresh decode users token = elim (decode token) [
    | expired ↦ denied 401 "Invalid or expired refresh token"
    | invalid ↦ denied 401 "Invalid or expired refresh token"
    | claims p ↦
        if has_kind "refresh" p
        then with_sub p (λ sub. refresh_checked p (find_user sub users))
        else denied 401 "Invalid or expired refresh token"
  ]
