-- ===== src/Auth.antt =====
-- Who a request comes from: the tokens of core/security.py, the users and the keys of
-- db/repositories.py, and `authenticate` of api/deps.py. What bcrypt, PyJWT and the hashes compute is
-- the parameter `Crypto`; the clock is an argument, in seconds. A user's id, a role and a key's id are
-- texts, and every session commits.
use provenancerank.Prelude.{
  ℕ, zero, suc, ◌+◌, ◌*◌, ◌-◌, Bool, true, false, not, ◌&&◌, ◌||◌, Option, none, some, List, [],
  ◌∷◌, ◌++◌, map, length, drop, leb, ltb, ◌==◌, if◌then◌else◌, any,
}
use provenancerank.Results.{Result, ok, error, ◌>>=◌, or_error}
use provenancerank.Text.{Text, codes, lower, strip, text_eqb, member_text, after_prefix}
pub mod Context
pub mod Routes
pub mod Login
pub mod Keys
pub mod Sample
mod Tests

-- The exceptions: `AuthenticationError` with its message, and the others.
pub data AuthError : Type 0 where
  token_expired invalid_token wrong_type : AuthError
  invalid_key owner_inactive no_credentials : AuthError
  invalid_login account_disabled : AuthError
  permission_denied conflict not_found : AuthError

-- The claims of a token.
pub record Claims : Type 0 where
  pub sub : Text
  pub role : Option Text
  pub email : Option Text
  pub token_type : Option Text
  pub iat : ℕ
  pub exp : ℕ

-- What `jwt.decode` gives at some time: the claims, or one of its two kinds of error.
pub data Decoded : Type 0 where
  expired invalid : Decoded
  claims : Claims → Decoded

pub record Crypto : Type 0 where
  -- `jwt.encode` and `jwt.decode`, with the settings' secret, algorithm and issuer
  pub encode : Claims → Text
  pub decode : ℕ → Text → Decoded
  -- `hash_api_key`
  pub hash_api_key : Text → Text
  -- `hash_password` with its salt, and `verify_password`
  pub hash_password : Text → Text → Text
  pub verify_password : Text → Text → Bool

pub record TokenData : Type 0 where
  pub sub : Text
  pub role : Text
  pub token_type : Text
  pub email : Option Text

pub record User : Type 0 where
  pub id : Text
  pub email : Text
  pub hashed_password : Text
  pub role : Text
  pub is_active : Bool

pub record ApiKey : Type 0 where
  pub id : Text
  pub key_hash : Text
  pub name : Text
  pub last4 : Text
  pub scopes : Text
  pub is_active : Bool
  pub owner_id : Text
  pub created_at : ℕ
  pub last_used_at : Option ℕ
  pub expires_at : Option ℕ

-- A line of the audit log: the action and its actor.
pub data Action : Type 0 where
  logged_in key_created key_revoked : Action

pub record Db : Type 0 where
  pub users : List User
  pub api_keys : List ApiKey
  pub audit : List (Action × Text)

-- `UserRepository.get_by_email` and `get_by_id`; both columns are unique
unfoldable pub find_user : (User → Bool) → List User → Option User
find_user p [] = none
find_user p (u ∷ us) = let rest = find_user p us in if p u then some u else rest

unfoldable pub get_by_email : Text → Db → Option User
get_by_email email db = find_user (λ u. text_eqb u.email (lower email)) db.users

unfoldable pub get_by_id : Text → Db → Option User
get_by_id id db = find_user (λ u. text_eqb u.id id) db.users

-- The key of this hash that is active; the column is unique
unfoldable pub find_active : Text → List ApiKey → Option ApiKey
unfolding text_eqb
find_active key_hash [] = none
find_active key_hash (k ∷ ks) =
    let rest = find_active key_hash ks in
    if text_eqb k.key_hash key_hash && k.is_active then some k else rest

-- `row.expires_at and row.expires_at < now`
unfoldable pub is_expired : ℕ → Option ℕ → Bool
is_expired now none = false
is_expired now (some t) = ltb t now

unfoldable pub unless_expired : ℕ → Option ApiKey → Option ApiKey
unless_expired now none = none
unless_expired now (some k) = if is_expired now k.expires_at then none else some k

-- `ApiKeyRepository.get_active_by_hash`
unfoldable pub get_active_by_hash : ℕ → Text → Db → Option ApiKey
get_active_by_hash now key_hash db = unless_expired now (find_active key_hash db.api_keys)

unfoldable pub update_keys : (ApiKey → Bool) → (ApiKey → ApiKey) → List ApiKey → List ApiKey
update_keys p change [] = []
update_keys p change (k ∷ ks) = (if p k then change k else k) ∷ update_keys p change ks

-- `ApiKeyRepository.touch`
unfoldable pub touch : ℕ → ApiKey → Db → Db
touch now key db = record db {
  api_keys =
      update_keys (λ k. text_eqb k.id key.id) (λ k. record k { last_used_at = some now })
        db.api_keys;
}

-- `text.split(",")`, with the part so far
unfoldable pub split_from : Text → Text → List Text
split_from part [] = part ∷ []
split_from part (c ∷ s) =
    let next = split_from [] s in
    let more = split_from (part ++ c ∷ []) s in if c == 44 then part ∷ next else more

pub data Via : Type 0 where
  jwt api_key : Via

pub record AuthContext : Type 0 where
  pub subject : Text
  pub role : Text
  pub via : Via
  pub email : Option Text
  pub scopes : List Text

-- The headers that `authenticate` reads, none or an empty text where they are missing.
pub record Headers : Type 0 where
  pub raw_key : Text
  pub authorization : Text
