-- ===== src/Auth/Tests.antt =====
-- Logins and keys on a concrete database.
use provenancerank.Prelude.{
  ℕ, ◌+◌, ◌*◌, ◌≡◌, ◌≢◌, refl, true, none, some, [], ◌∷◌, leb, if◌then◌else◌, arith,
}
use provenancerank.Results.{ok, error}
use provenancerank.Text.{codes, lower, member_text, text_eqb}
use provenancerank.Auth.{
  invalid_login, token_expired, wrong_type, invalid_key, not_found, User, Db, get_by_email,
  get_by_id, find_user, split_from, jwt, api_key, AuthContext, permission_denied,
}
use provenancerank.Auth.Context.{
  authenticate, require_role, create_access_token, create_refresh_token, encode_token,
}
use provenancerank.Auth.Sample.{crypto, crypto-ReadsTokens}
use provenancerank.Auth.Routes.{Lifetimes, TokenResponse, login_as, login, revoke_api_key}
use provenancerank.Auth.Login.{bearing, context_of, login-authenticate}
use provenancerank.Auth.Keys.{keyed, created, authenticate-create_api_key}

abbrev ada : User
ada = record {
  id = codes "u1";
  email = codes "ada@example.org";
  hashed_password = codes "secret";
  role = codes "recruiter";
  is_active = true;
}

abbrev db : Db
db = record { users = ada ∷ []; api_keys = []; audit = [] }

abbrev me : AuthContext
me = record { subject = codes "u1"; role = codes "recruiter"; via = jwt; email = none; scopes = [] }

abbrev lifetimes : Lifetimes
lifetimes = record { jwt_access_ttl_minutes = 15; jwt_refresh_ttl_days = 7 }

abbrev answer : TokenResponse
answer = record {
  access_token = crypto.encode (record {
    sub = codes "u1";
    role = some (codes "recruiter");
    email = some (codes "ada@example.org");
    token_type = some (codes "access");
    iat = 1000;
    exp = 1900;
  });
  refresh_token = crypto.encode (record {
    sub = codes "u1";
    role = some (codes "recruiter");
    email = some (codes "ada@example.org");
    token_type = some (codes "refresh");
    iat = 1000;
    exp = 605800;
  });
  expires_in = 900;
}

found_ada : get_by_id (codes "u1") db ≡ some ada
unfolding get_by_id find_user text_eqb
found_ada = refl

logged_in :
    (login crypto lifetimes 1000 (codes "Ada@example.org") (codes "secret") db).1 ≡ ok answer
unfolding login login_as get_by_email find_user text_eqb lower create_access_token
    create_refresh_token encode_token
logged_in = refl

refused :
    (login crypto lifetimes 1000 (codes "ada@example.org") (codes "guess") db).1
    ≡ error invalid_login
unfolding login login_as get_by_email find_user text_eqb lower
refused = refl

denied : require_role (codes "admin" ∷ []) me ≡ error permission_denied
unfolding require_role member_text text_eqb
denied = refl

login-authenticate_example :
    (u : User) × (get_by_email (codes "Ada@example.org") db ≡ some u)
    × (text_eqb (codes "secret") u.hashed_password ≡ true)
    × (u.is_active ≡ true)
    × (authenticate crypto 1500 (bearing crypto answer.access_token) db
        ≡ (db, if leb (1000 + 15 * 60) 1500 then error token_expired else ok (context_of crypto u)))
    × (authenticate crypto 1500 (bearing crypto answer.refresh_token) db
        ≡ (db, error (if leb (1000 + 7 * 86400) 1500 then token_expired else wrong_type)))
login-authenticate_example =
    login-authenticate crypto lifetimes 1000 (codes "Ada@example.org") (codes "secret") db answer
      1500 db crypto-ReadsTokens (omega arith) logged_in

authenticate-create_api_key_example :
    ((now : ℕ)
      → (authenticate crypto now
          (keyed crypto (codes "pr_x"))
          (created crypto me 5 (codes "k1") (codes "x") (codes "ci") (codes "rank:read") db)).1
        ≡ ok (record {
          subject = codes "u1";
          role = codes "recruiter";
          via = api_key;
          email = some (codes "ada@example.org");
          scopes = split_from [] (codes "rank:read");
        }))
    × ((other : AuthContext)
        → other.subject ≢ codes "u1"
        → revoke_api_key other
            (codes "k1")
            (created crypto me 5 (codes "k1") (codes "x") (codes "ci") (codes "rank:read") db)
          ≡ (
            created crypto me 5 (codes "k1") (codes "x") (codes "ci") (codes "rank:read") db,
            error not_found,
          ))
    × ((now : ℕ)
        → (authenticate crypto now
            (keyed crypto (codes "pr_x"))
            (revoke_api_key me (codes "k1") (
              created crypto me 5
                (codes "k1")
                (codes "x")
                (codes "ci")
                (codes "rank:read")
                db)).0).1
          ≡ error invalid_key)
authenticate-create_api_key_example =
    authenticate-create_api_key crypto me 5 (codes "k1") (codes "x") (codes "ci")
      (codes "rank:read") db (record { no_id = refl; no_hash = refl }) ada found_ada refl
