-- ===== src/Auth/Sample.antt =====
-- Crypto for concrete runs: a token is its claims in clear, shifted out of the range of white space,
-- a hash is the text itself, and a password is checked against itself.
use provenancerank.Prelude.{
  ℕ, ◌+◌, ◌-◌, ◌≡◌, refl, false, Option, none, some, [], ◌∷◌, ◌≤◌, leb, ltb, ◌==◌, arith,
  if◌then◌else◌,
}
use provenancerank.Text.{Text, text_eqb, is_space}
use provenancerank.Text.Spaces.{IsSolid}
use provenancerank.Auth.{Claims, Decoded, expired, invalid, claims, Crypto}
use provenancerank.Auth.Login.{ReadsTokens}

abbrev shift : ℕ → ℕ
shift c = c + 30000

-- A text and what ends it, before the rest
write_text : Text → Text → Text
write_text [] rest = 20000 ∷ rest
write_text (c ∷ s) rest = shift c ∷ write_text s rest

write_option : Option Text → Text → Text
write_option none rest = 20001 ∷ rest
write_option (some s) rest = 20002 ∷ write_text s rest

pub write_claims : Claims → Text
write_claims p =
    shift p.iat
    ∷ shift p.exp
    ∷ write_text p.sub (write_option p.role (write_option p.email (write_option p.token_type [])))

read_text : Text → Text × Text
read_text [] = ([], [])
read_text (c ∷ s) =
    let (text, rest) = read_text s in if c == 20000 then ([], s) else ((c - 30000) ∷ text, rest)

read_option : Text → Option Text × Text
read_option [] = (none, [])
read_option (c ∷ s) =
    let (text, rest) = read_text s in if c == 20001 then (none, s) else (some text, rest)

read_fields : ℕ → ℕ → Text → Claims
read_fields iat exp s =
    let (sub, s1) = read_text s in
    let (role, s2) = read_option s1 in
    let (email, s3) = read_option s2 in
    let (token_type, s4) = read_option s3 in
    record { sub = sub; role = role; email = email; token_type = token_type; iat = iat; exp = exp }

pub read_claims : ℕ → Text → Decoded
read_claims now [] = invalid
read_claims now (c ∷ []) = invalid
read_claims now (i ∷ e ∷ s) =
    if ltb now (i - 30000)
    then invalid
    else if leb (e - 30000) now
    then expired
    else claims (read_fields (i - 30000) (e - 30000) s)

abbrev pub crypto : Crypto
crypto = record {
  encode = write_claims;
  decode = read_claims;
  hash_api_key = λ raw. raw;
  hash_password = λ salt password. password;
  verify_password = λ password hashed. text_eqb password hashed;
}

shifted_ne : (c : ℕ) → (shift c == 20000) ≡ false
shifted_ne c = ground arith

not_early : (iat now : ℕ) → iat ≤ now → ltb now iat ≡ false
not_early iat now h = ground (arith, h)

shifted_back : (c : ℕ) → shift c - 30000 ≡ c
shifted_back c = omega arith

read_text-write_text : (s rest : Text) → read_text (write_text s rest) ≡ (s, rest)
unfolding read_text write_text
read_text-write_text [] rest = refl
read_text-write_text (c ∷ s) rest =
    rw (shifted_ne c, shifted_back c, read_text-write_text s rest) refl

read_option-write_option :
    (o : Option Text) (rest : Text) → read_option (write_option o rest) ≡ (o, rest)
unfolding read_option write_option
read_option-write_option none rest = refl
read_option-write_option (some s) rest = rw (read_text-write_text s rest) refl

shifted_solid : (c : ℕ) → is_space (shift c) ≡ false
unfolding is_space
shifted_solid c = ground arith

write_text-IsSolid : (s rest : Text) → IsSolid rest → IsSolid (write_text s rest)
unfolding write_text is_space
write_text-IsSolid [] rest h = (refl, h)
write_text-IsSolid (c ∷ s) rest h = (shifted_solid c, write_text-IsSolid s rest h)

write_option-IsSolid :
    (o : Option Text) (rest : Text) → IsSolid rest → IsSolid (write_option o rest)
unfolding write_option is_space
write_option-IsSolid none rest h = (refl, h)
write_option-IsSolid (some s) rest h = (refl, write_text-IsSolid s rest h)

pub crypto-ReadsTokens : ReadsTokens crypto
unfolding write_claims read_claims read_fields is_space
crypto-ReadsTokens = record {
  decode_encode = λ now p issued.
      rw
        (
          shifted_back p.exp,
          shifted_back p.iat,
          read_text-write_text p.sub,
          read_option-write_option p.role,
          read_option-write_option p.email,
          read_option-write_option p.token_type [],
          not_early p.iat now issued,
        )
        refl;
  solid = λ p. (
    shifted_solid p.iat,
    (
      shifted_solid p.exp,
      write_text-IsSolid p.sub _ (
          write_option-IsSolid p.role _
            (write_option-IsSolid p.email _ (write_option-IsSolid p.token_type [] tt))),
    ),
  );
}
