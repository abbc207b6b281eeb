-- ===== src/Auth/Keys.antt =====
-- The life of an API key, over api/routers/auth.py and api/deps.py.
use provenancerank.Prelude.{
  ℕ, ◌≡◌, ◌≢◌, refl, sym, Bool, true, false, ◌&&◌, ◌||◌, none, some, List, [], ◌∷◌, ◌++◌, any,
  arith, if◌then◌else◌,
}
use provenancerank.Results.{ok, error}
use provenancerank.Text.{Text, codes, text_eqb}
use provenancerank.Text.Order.{text_eqb_iff}
use provenancerank.Auth.{
  invalid_key, not_found, Crypto, User, ApiKey, Db, Action, key_revoked, get_by_id, find_active,
  unless_expired, is_expired, get_active_by_hash, update_keys, touch, split_from, api_key,
  AuthContext, Headers,
}
use provenancerank.Auth.Context.{owner_context, key_context, authenticate}
use provenancerank.Auth.Routes.{log, revoke, create_api_key, revoke_api_key, last4_of}

find_active-append :
    (h : Text) (ks : List ApiKey) (key : ApiKey)
    → any ks (λ k. text_eqb k.key_hash h) ≡ false
    → find_active h (ks ++ key ∷ [])
      ≡ (if text_eqb key.key_hash h && key.is_active then some key else none)
unfolding find_active
find_active-append h [] key e = refl
find_active-append h (k ∷ ks) key e = ground (arith, e, find_active-append h ks key)

update_keys-append :
    (p : ApiKey → Bool) (change : ApiKey → ApiKey) (ks : List ApiKey) (key : ApiKey)
    → any ks p ≡ false
    → update_keys p change (ks ++ key ∷ []) ≡ ks ++ (if p key then change key else key) ∷ []
unfolding update_keys
update_keys-append p change [] key e = refl
update_keys-append p change (k ∷ ks) key e = ground (arith, e, update_keys-append p change ks key)

any-append :
    (p : ApiKey → Bool) (ks : List ApiKey) (key : ApiKey)
    → any (ks ++ key ∷ []) p ≡ (any ks p || p key)
any-append p [] key = ground arith
any-append p (k ∷ ks) key = ground (arith, any-append p ks key)

any_narrow :
    (p q : ApiKey → Bool) (ks : List ApiKey) → any ks p ≡ false → any ks (λ k. p k && q k) ≡ false
any_narrow p q [] e = refl
any_narrow p q (k ∷ ks) e = ground (arith, e, any_narrow p q ks)

text_eqb_self : (s : Text) → text_eqb s s ≡ true
text_eqb_self s = (text_eqb_iff s s).1 refl

text_eqb_ne : (s t : Text) → s ≢ t → text_eqb s t ≡ false
text_eqb_ne s t h = ground (arith, text_eqb_iff s t)

get_active_by_hash-log :
    (now : ℕ) (h : Text) (action : Action) (actor : Text) (db : Db)
    → get_active_by_hash now h (log action actor db) ≡ get_active_by_hash now h db
unfolding get_active_by_hash log
get_active_by_hash-log now h action actor db = refl

module _ (c : Crypto) where
  -- The header of a client with this key
  abbrev pub keyed : Text → Headers
  keyed raw = record { raw_key = raw; authorization = [] }

  module _ (auth : AuthContext) (at : ℕ) (id random name scopes : Text) (db : Db) where
    abbrev pub raw : Text
    raw = codes "pr_" ++ random

    abbrev pub key : ApiKey
    key = record {
      id = id;
      key_hash = c.hash_api_key raw;
      name = name;
      last4 = last4_of raw;
      scopes = scopes;
      is_active = true;
      owner_id = auth.subject;
      created_at = at;
      last_used_at = none;
      expires_at = none;
    }

    -- No key of the database has the id or the hash.
    pub record IsFresh : Type 0 where
      pub no_id : any db.api_keys (λ k. text_eqb k.id id) ≡ false
      pub no_hash : any db.api_keys (λ k. text_eqb k.key_hash (c.hash_api_key raw)) ≡ false

    abbrev pub created : Db
    created = (create_api_key c auth at id random name scopes db).0

    created-active :
        IsFresh → (now : ℕ) → get_active_by_hash now (c.hash_api_key raw) created ≡ some key
    unfolding create_api_key log get_active_by_hash unless_expired is_expired
    created-active f now =
        rw
          (
            find_active-append (c.hash_api_key raw) db.api_keys key f.no_hash,
            text_eqb_self (c.hash_api_key raw),
          )
          refl

    -- The test of the rows that a revocation updates
    abbrev owned : Text → ApiKey → Bool
    owned owner k = text_eqb k.id id && text_eqb k.owner_id owner

    owned_none : IsFresh → (owner : Text) → any db.api_keys (owned owner) ≡ false
    owned_none f owner =
        any_narrow (λ k. text_eqb k.id id) (λ k. text_eqb k.owner_id owner) db.api_keys f.no_id

    revoked-none :
        IsFresh
        → (now : ℕ)
        → get_active_by_hash now (c.hash_api_key raw) (revoke id auth.subject created).0 ≡ none
    unfolding create_api_key log revoke get_active_by_hash unless_expired
    revoked-none f now =
        rw
          (
            update_keys-append (owned auth.subject) (λ k. record k { is_active = false })
                db.api_keys key (owned_none f auth.subject),
            text_eqb_self id,
            text_eqb_self auth.subject,
            find_active-append (c.hash_api_key raw) db.api_keys (record key { is_active = false })
                f.no_hash,
            text_eqb_self (c.hash_api_key raw),
          )
          refl

    found_own : IsFresh → (revoke id auth.subject created).1 ≡ true
    unfolding create_api_key log revoke
    found_own f =
        rw
          (
            any-append (owned auth.subject) db.api_keys key,
            owned_none f auth.subject,
            text_eqb_self id,
            text_eqb_self auth.subject,
          )
          refl

    revoked_by_other :
        IsFresh
        → (other : AuthContext) → other.subject ≢ auth.subject
        → revoke_api_key other id created ≡ (created, error not_found)
    unfolding create_api_key log revoke revoke_api_key
    revoked_by_other f other h =
        rw
          (
            update_keys-append (owned other.subject) (λ k. record k { is_active = false })
                db.api_keys key (owned_none f other.subject),
            any-append (owned other.subject) db.api_keys key,
            owned_none f other.subject,
            text_eqb_self id,
            text_eqb_ne auth.subject other.subject (λ e. h (sym e)),
          )
          refl

    keyed-created :
        IsFresh
        → (now : ℕ) (u : User) → get_by_id auth.subject db ≡ some u
        → u.is_active ≡ true
        → (authenticate c now (keyed raw) created).1
          ≡ ok (record {
            subject = u.id;
            role = u.role;
            via = api_key;
            email = some u.email;
            scopes = split_from [] scopes;
          })
    unfolding authenticate key_context owner_context touch get_by_id create_api_key log
    keyed-created f now u found active = rw (created-active f now, found, active) refl

    keyed_revoked :
        IsFresh
        → (now : ℕ)
        → (authenticate c now (keyed raw) (revoke_api_key auth id created).0).1 ≡ error invalid_key
    unfolding authenticate key_context revoke_api_key
    keyed_revoked f now =
        rw
          (
            found_own f,
            get_active_by_hash-log now (c.hash_api_key raw) key_revoked auth.subject,
            revoked-none f now,
          )
          refl

    -- A fresh key is its owner's as long as its owner wants. When neither its id nor its hash is in the
    -- database and the owner is an active user, a request with the secret that was handed out is the
    -- owner's at any time, with the owner's role and the key's scopes; the revocation by anyone else
    -- fails and changes nothing; and after the owner's revocation the secret is refused at any time.
    pub authenticate-create_api_key :
        IsFresh
        → (u : User) → get_by_id auth.subject db ≡ some u
        → u.is_active ≡ true
        → ((now : ℕ)
            → (authenticate c now (keyed raw) created).1
              ≡ ok (record {
                subject = u.id;
                role = u.role;
                via = api_key;
                email = some u.email;
                scopes = split_from [] scopes;
              }))
          × ((other : AuthContext)
              → other.subject ≢ auth.subject
              → revoke_api_key other id created ≡ (created, error not_found))
          × ((now : ℕ)
              → (authenticate c now (keyed raw) (revoke_api_key auth id created).0).1
                ≡ error invalid_key)
    authenticate-create_api_key f u found active = (
      λ now. keyed-created f now u found active,
      λ other h. revoked_by_other f other h,
      λ now. keyed_revoked f now,
    )
