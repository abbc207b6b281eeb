-- ===== src/Auth/Login.antt =====
-- From `login` of api/routers/auth.py to `authenticate` of api/deps.py.
use provenancerank.Prelude.{
  ℕ, ◌+◌, ◌*◌, ◌≤◌, ◌≡◌, refl, ap, ◌∙◌, Bool, true, false, not, Option, none, some, [], ◌++◌, leb,
  if◌then◌else◌,
}
use provenancerank.Results.{Result, ok, error, ◌>>=◌, ok_injective}
use provenancerank.Text.{Text, codes, lower, after_prefix, strip, text_eqb}
use provenancerank.Text.Spaces.{IsSolid, strip_solid}
use provenancerank.Auth.{
  AuthError, token_expired, wrong_type, Claims, Decoded, expired, claims, Crypto, User, Db,
  get_by_email, jwt, AuthContext, Headers,
}
use provenancerank.Auth.Context.{
  encode_token, create_access_token, create_refresh_token, text_or, has_type, is_refused,
  token_data, decode_token, bearer_of, token_context, authenticate,
}
use provenancerank.Auth.Routes.{Lifetimes, TokenResponse, login_as, login}

-- What PyJWT promises: from the time at which it was issued on, a token of these claims is read back
-- until it expires; and it has no white space.
pub record ReadsTokens (c : Crypto) : Type 0 where
  pub decode_encode :
      (now : ℕ) (p : Claims)
      → p.iat ≤ now
      → c.decode now (c.encode p) ≡ (if leb p.exp now then expired else claims p)
  pub solid : (p : Claims) → IsSolid (c.encode p)

module _ (c : Crypto) where
  -- The header of a client with this token
  abbrev pub bearing : Text → Headers
  bearing token = record { raw_key = []; authorization = codes "Bearer " ++ token }

  -- The context of the user
  abbrev pub context_of : User → AuthContext
  context_of u = record {
    subject = u.id;
    role = u.role;
    via = jwt;
    email = some u.email;
    scopes = [];
  }

  bearer_of-bearing : (token : Text) → bearer_of c (codes "Bearer " ++ token) ≡ some (strip token)
  unfolding bearer_of lower after_prefix
  bearer_of-bearing token = refl

  -- What `authenticate` makes of what `jwt.decode` gives.
  read_back : Decoded → Result AuthError AuthContext
  read_back d = token_data c (some (codes "access")) d >>= λ t.
      ok (record { subject = t.sub; role = t.role; via = jwt; email = t.email; scopes = [] })

  authenticate-encode :
      ReadsTokens c
      → (now : ℕ) (p : Claims) (db : Db) → p.iat ≤ now
      → authenticate c now (bearing (c.encode p)) db
        ≡ (db, read_back (if leb p.exp now then expired else claims p))
  unfolding authenticate token_context decode_token read_back
  authenticate-encode r now p db issued =
      rw
        (
          bearer_of-bearing (c.encode p),
          strip_solid (c.encode p) (r.solid p),
          r.decode_encode now p issued,
        )
        refl

  read_back-access :
      (late : Bool) (now minutes : ℕ) (u : User)
      → read_back (
          if late
          then expired
          else claims (record {
            sub = u.id;
            role = some u.role;
            email = some u.email;
            token_type = some (codes "access");
            iat = now;
            exp = now + minutes * 60;
          }))
        ≡ (if late then error token_expired else ok (context_of u))
  unfolding read_back token_data is_refused has_type text_eqb text_or
  read_back-access true now minutes u = refl
  read_back-access false now minutes u = refl

  read_back-refresh :
      (late : Bool) (now days : ℕ) (u : User)
      → read_back (
          if late
          then expired
          else claims (record {
            sub = u.id;
            role = some u.role;
            email = some u.email;
            token_type = some (codes "refresh");
            iat = now;
            exp = now + days * 86400;
          }))
        ≡ error (if late then token_expired else wrong_type)
  unfolding read_back token_data is_refused has_type text_eqb text_or
  read_back-refresh true now days u = refl
  read_back-refresh false now days u = refl

  -- The last of three branches is the only one that returns.
  third_branch :
      {A : Type 0} (v a : Bool) (db db' : Db) (e f : AuthError) (x y : A)
      → let result : Db × Result AuthError A =
          if not v then (db, error e) else if not a then (db, error f) else (db', ok x) in
        result.1 ≡ ok y → (v ≡ true) × (a ≡ true) × (x ≡ y)
  third_branch true true db db' e f x y h = (refl, refl, ok_injective h)
  third_branch true false db db' e f x y h = cc
  third_branch false a db db' e f x y h = cc

  login_as-ok :
      (s : Lifetimes) (at : ℕ) (password : Text) (found : Option User) (db : Db) (r : TokenResponse)
      → (login_as c s at password found db).1 ≡ ok r
      → (u : User) × (found ≡ some u)
        × (c.verify_password password u.hashed_password ≡ true)
        × (u.is_active ≡ true)
        × (create_access_token c s.jwt_access_ttl_minutes at u.id u.role (some u.email)
            ≡ r.access_token)
        × (create_refresh_token c s.jwt_refresh_ttl_days at u.id u.role (some u.email)
            ≡ r.refresh_token)
  unfolding login_as
  login_as-ok s at password none db r h = cc
  login_as-ok s at password (some u) db r h =
      let (v, a, eq) = third_branch _ _ _ _ _ _ _ _ h in
      (u, refl, v, a, ap (λ t. t.access_token) eq, ap (λ t. t.refresh_token) eq)

  -- From the login to the requests: where the token library reads its own tokens from their time of
  -- issue until they expire, a successful login is that of the user of the address, who is active and
  -- has the password. At the login or any time after it, whatever the database holds then, a request
  -- with the access token is that user's, with the user's role at the login, and is refused as expired
  -- as soon as the token's minutes have passed; and a request with the refresh token is refused.
  pub login-authenticate :
      (s : Lifetimes) (at : ℕ) (email password : Text) (db : Db) (r : TokenResponse) (now : ℕ)
      (later : Db)
      → ReadsTokens c
      → at ≤ now
      → (login c s at email password db).1 ≡ ok r
      → (u : User) × (get_by_email email db ≡ some u)
        × (c.verify_password password u.hashed_password ≡ true)
        × (u.is_active ≡ true)
        × (authenticate c now (bearing r.access_token) later ≡ (
          later,
          if leb (at + s.jwt_access_ttl_minutes * 60) now
              then error token_expired
              else ok (context_of u),
        ))
        × (authenticate c now (bearing r.refresh_token) later ≡ (
          later,
          error
              (if leb (at + s.jwt_refresh_ttl_days * 86400) now then token_expired else wrong_type),
        ))
  unfolding login create_access_token create_refresh_token encode_token
  login-authenticate s at email password db r now later reads issued h =
      let (u, found, v, a, access, refresh) =
        login_as-ok s at password (get_by_email email db) db r h in
      (
        u,
        found,
        v,
        a,
        rw (← access) (
            authenticate-encode reads now _ later issued
            ∙ ap (λ x. (later, x))
                (read_back-access (leb (at + s.jwt_access_ttl_minutes * 60) now) at
                  s.jwt_access_ttl_minutes u)),
        rw (← refresh) (
            authenticate-encode reads now _ later issued
            ∙ ap (λ x. (later, x))
                (read_back-refresh (leb (at + s.jwt_refresh_ttl_days * 86400) now) at
                  s.jwt_refresh_ttl_days u)),
      )
