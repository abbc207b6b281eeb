-- ===== src/Auth/Routes.antt =====
-- The routes of api/routers/auth.py. A new id, the random part of a key and a salt are arguments, and
-- of an answer what a client reads of it.
use provenancerank.Prelude.{
  ℕ, ◌*◌, ◌-◌, Bool, true, false, not, ◌&&◌, Option, none, some, List, [], ◌∷◌, ◌++◌, any, length,
  drop, select, sort_by, ltb, if◌then◌else◌,
}
use provenancerank.Results.{Result, ok, error}
use provenancerank.Text.{Text, codes, lower, text_eqb}
use provenancerank.Auth.{
  AuthError, invalid_login, account_disabled, conflict, not_found, Crypto, User, ApiKey, Db, Action,
  logged_in, key_created, key_revoked, get_by_email, update_keys, AuthContext,
}
use provenancerank.Auth.Context.{create_access_token, create_refresh_token, require_role}

-- `TokenResponse`
pub record TokenResponse : Type 0 where
  pub access_token : Text
  pub refresh_token : Text
  pub expires_in : ℕ

-- The settings' minutes of an access token and days of a refresh token.
pub record Lifetimes : Type 0 where
  pub jwt_access_ttl_minutes : ℕ
  pub jwt_refresh_ttl_days : ℕ

-- `ApiKeyCreatedResponse`
pub record CreatedKey : Type 0 where
  pub id : Text
  pub name : Text
  pub api_key : Text
  pub last4 : Text
  pub scopes : Text

-- `AuditRepository.log`
unfoldable pub log : Action → Text → Db → Db
log action actor db = record db { audit = db.audit ++ (action, actor) ∷ [] }

-- `raw[-4:]`
unfoldable pub last4_of : Text → Text
last4_of raw = drop (length raw - 4) raw

-- `ApiKeyRepository.list_for_owner`, the newest first
unfoldable pub list_for_owner : Text → Db → List ApiKey
list_for_owner owner_id db =
    sort_by (λ y x. ltb x.created_at y.created_at)
      (select (λ k. text_eqb k.owner_id owner_id) db.api_keys)

-- `ApiKeyRepository.revoke`, with whether a row was updated
unfoldable pub revoke : Text → Text → Db → Db × Bool
revoke key_id owner_id db = (
  record db {
    api_keys =
        update_keys (λ k. text_eqb k.id key_id && text_eqb k.owner_id owner_id)
          (λ k. record k { is_active = false }) db.api_keys;
  },
  any db.api_keys (λ k. text_eqb k.id key_id && text_eqb k.owner_id owner_id),
)

module _ (c : Crypto) where
  unfoldable pub login_as :
      Lifetimes → ℕ → Text → Option User → Db → Db × Result AuthError TokenResponse
  login_as s now password none db = (db, error invalid_login)
  login_as s now password (some u) db =
      if not (c.verify_password password u.hashed_password)
      then (db, error invalid_login)
      else if not u.is_active
      then (db, error account_disabled)
      else (
        log logged_in u.id db,
        ok (record {
          access_token =
              create_access_token c s.jwt_access_ttl_minutes now u.id u.role (some u.email);
          refresh_token =
              create_refresh_token c s.jwt_refresh_ttl_days now u.id u.role (some u.email);
          expires_in = s.jwt_access_ttl_minutes * 60;
        }),
      )

  -- `login`
  unfoldable pub login : Lifetimes → ℕ → Text → Text → Db → Db × Result AuthError TokenResponse
  login s now email password db = login_as s now password (get_by_email email db) db

  -- `register`, by the caller `auth`, who must be an admin
  unfoldable pub register :
      AuthContext → Text → Text → Text → Text → Text → Db → Db × Result AuthError User
  register auth new_id salt email password role db =
      registered (require_role (codes "admin" ∷ []) auth) (get_by_email email db)
    where
      registered : Result AuthError AuthContext → Option User → Db × Result AuthError User
      registered (error e) found = (db, error e)
      registered (ok a) (some u) = (db, error conflict)
      registered (ok a) none =
          let user : User = record {
            id = new_id;
            email = lower email;
            hashed_password = c.hash_password salt password;
            role = role;
            is_active = true;
          } in
          (record db { users = db.users ++ user ∷ [] }, ok user)

  -- `create_api_key`, whose secret is `API_KEY_PREFIX` and this random text
  unfoldable pub create_api_key : AuthContext → ℕ → Text → Text → Text → Text → Db → Db × CreatedKey
  create_api_key auth now new_id random name scopes db =
      let raw = codes "pr_" ++ random in
      let key : ApiKey = record {
        id = new_id;
        key_hash = c.hash_api_key raw;
        name = name;
        last4 = last4_of raw;
        scopes = scopes;
        is_active = true;
        owner_id = auth.subject;
        created_at = now;
        last_used_at = none;
        expires_at = none;
      } in
      (
        log key_created auth.subject (record db { api_keys = db.api_keys ++ key ∷ [] }),
        record { id = new_id; name = name; api_key = raw; last4 = last4_of raw; scopes = scopes },
      )

-- `revoke_api_key`
unfoldable pub revoke_api_key : AuthContext → Text → Db → Db × Result AuthError (Unit {0})
revoke_api_key auth key_id db =
    let (db', found) = revoke key_id auth.subject db in
    if found then (log key_revoked auth.subject db', ok tt) else (db', error not_found)
