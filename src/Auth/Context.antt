-- ===== src/Auth/Context.antt =====
-- The tokens of core/security.py, and `authenticate` and `require_role` of api/deps.py.
use provenancerank.Prelude.{
  ℕ, ◌+◌, ◌*◌, Bool, false, not, Option, none, some, List, [], ◌∷◌, drop, if◌then◌else◌,
}
use provenancerank.Results.{Result, ok, error, ◌>>=◌}
use provenancerank.Text.{Text, codes, lower, strip, text_eqb, member_text, after_prefix}
use provenancerank.Auth.{
  AuthError, token_expired, invalid_token, wrong_type, invalid_key, owner_inactive, no_credentials,
  permission_denied, Decoded, expired, invalid, claims, Crypto, TokenData, User, ApiKey, Db,
  get_by_id, get_active_by_hash, touch, split_from, jwt, api_key, AuthContext, Headers,
}

module _ (c : Crypto) where
  -- `_encode`, at this time
  unfoldable pub encode_token : ℕ → Text → Text → Option Text → Text → ℕ → Text
  encode_token now sub role email token_type ttl = c.encode (record {
    sub = sub;
    role = some role;
    email = email;
    token_type = some token_type;
    iat = now;
    exp = now + ttl;
  })

  -- `create_access_token` and `create_refresh_token`, with the minutes and the days of the settings
  unfoldable pub create_access_token : ℕ → ℕ → Text → Text → Option Text → Text
  create_access_token minutes now sub role email =
      encode_token now sub role email (codes "access") (minutes * 60)

  unfoldable pub create_refresh_token : ℕ → ℕ → Text → Text → Option Text → Text
  create_refresh_token days now sub role email =
      encode_token now sub role email (codes "refresh") (days * 86400)

  unfoldable pub text_or : Text → Option Text → Text
  text_or default none = default
  text_or default (some t) = t

  unfoldable pub has_type : Text → Option Text → Bool
  has_type expected none = false
  has_type expected (some t) = text_eqb t expected

  -- `expected_type and payload.get("type") != expected_type`
  unfoldable pub is_refused : Option Text → Option Text → Bool
  is_refused none token_type = false
  is_refused (some []) token_type = false
  is_refused (some (x ∷ expected)) token_type = not (has_type (x ∷ expected) token_type)

  unfoldable pub token_data : Option Text → Decoded → Result AuthError TokenData
  token_data expected expired = error token_expired
  token_data expected invalid = error invalid_token
  token_data expected (claims p) =
      if is_refused expected p.token_type
      then error wrong_type
      else ok (record {
        sub = p.sub;
        role = text_or (codes "recruiter") p.role;
        token_type = text_or (codes "access") p.token_type;
        email = p.email;
      })

  -- `decode_token`
  unfoldable pub decode_token : ℕ → Text → Option Text → Result AuthError TokenData
  decode_token now token expected = token_data expected (c.decode now token)

  -- `authz.split(" ", 1)[1].strip()` of a header that begins with `bearer `
  unfoldable pub bearer_of : Text → Option Text
  bearer_of authz = stripped (after_prefix (codes "bearer ") (lower authz)) (drop 7 authz)
    where
      stripped : Option Text → Text → Option Text
      stripped none rest = none
      stripped (some low) rest = some (strip rest)

  unfoldable pub owner_context : Option User → ApiKey → Result AuthError AuthContext
  owner_context none key = error owner_inactive
  owner_context (some u) key =
      if u.is_active
      then ok (record {
        subject = u.id;
        role = u.role;
        via = api_key;
        email = some u.email;
        scopes = split_from [] key.scopes;
      })
      else error owner_inactive

  unfoldable pub key_context : ℕ → Option ApiKey → Db → Db × Result AuthError AuthContext
  key_context now none db = (db, error invalid_key)
  key_context now (some key) db =
      let db' = touch now key db in (db', owner_context (get_by_id key.owner_id db') key)

  unfoldable pub token_context : ℕ → Option Text → Result AuthError AuthContext
  token_context now none = error no_credentials
  token_context now (some token) = do
    payload ← decode_token now token (some (codes "access"))
    ok (record {
      subject = payload.sub;
      role = payload.role;
      via = jwt;
      email = payload.email;
      scopes = [];
    })

  -- `authenticate`
  unfoldable pub authenticate : ℕ → Headers → Db → Db × Result AuthError AuthContext
  authenticate now h db = by_key h.raw_key
    where
      by_key : Text → Db × Result AuthError AuthContext
      by_key [] = (db, token_context now (bearer_of h.authorization))
      by_key (x ∷ key) = key_context now (get_active_by_hash now (c.hash_api_key (x ∷ key)) db) db

-- `require_role`
unfoldable pub require_role : List Text → AuthContext → Result AuthError AuthContext
require_role [] auth = ok auth
require_role (r ∷ roles) auth =
    if member_text auth.role (r ∷ roles) then ok auth else error permission_denied
