-- ===== src/Accounts/Rotation.antt =====
-- A refresh token that was used or given up is never accepted again: app/services/auth_service.py.
use store_evix.Common.{
  ℕ, ◌<◌, ◌≡◌, refl, sym, ap, ◌∙◌, true, inl, inr, Option, none, some, List, [], ◌∷◌, String,
  str_eq, str_eq_iff, Bool-cases, Option-cases, arith,
}
use store_evix.Common.Session.{ok, err}
use store_evix.Accounts.Tokens.{
  refresh_token, RawClaims, TokenClaims, claims_of, JwtDecode, Blacklist, until_of, is_blacklisted,
  blacklist, AuthError, invalid_token, revoked, decode_token, refresh, logout,
}

-- What is relied on of the JWT library and of the token ids: an expired token is not decoded, a token
-- always decodes to the same claims, and tokens with one id expire together (an id is handed out
-- once).
pub record JwtLaws (jwt : JwtDecode) : Type 0 where
  pub expires :
      (now exp : ℕ) (token : String) (raw : RawClaims)
      → jwt now token ≡ some raw
      → raw.exp ≡ some exp
      → now < exp
  pub stable :
      (now later : ℕ) (token : String) (raw raw' : RawClaims)
      → jwt now token ≡ some raw
      → jwt later token ≡ some raw'
      → raw' ≡ raw
  pub unique :
      (now later : ℕ) (token other jti : String) (raw raw' : RawClaims)
      → jwt now token ≡ some raw
      → jwt later other ≡ some raw'
      → raw.jti ≡ some jti
      → raw'.jti ≡ some jti
      → raw'.exp ≡ raw.exp

some_inj : {A : Type 0} {a b : A} → some a ≡ some b → a ≡ b
some_inj e = cc

-- What was decoded of a token that is accepted.
record Decoded (jwt : JwtDecode) (now : ℕ) (token : String) (c : TokenClaims) : Type 0 where
  raw : RawClaims
  reads : jwt now token ≡ some raw
  same_sub : raw.sub ≡ some c.sub
  same_jti : raw.jti ≡ some c.jti
  same_exp : raw.exp ≡ some c.exp

claims_of_lem :
    (sub : Option ℕ) (jti : Option String) (exp : Option ℕ) (c : TokenClaims)
    → claims_of sub jti exp ≡ some c
    → (sub ≡ some c.sub) × (jti ≡ some c.jti) × (exp ≡ some c.exp)
claims_of_lem (some sub) (some jti) (some exp) c e = ground arith
claims_of_lem (some sub) (some jti) none c e = ground arith
claims_of_lem (some sub) none exp c e = ground arith
claims_of_lem none jti exp c e = ground arith

decode_token-Decoded :
    (jwt : JwtDecode) (now : ℕ) (token : String) (c : TokenClaims)
    → decode_token jwt refresh_token now token ≡ some c
    → Decoded jwt now token c
unfolding decode_token
decode_token-Decoded jwt now token c e = elim (Option-cases (jwt now token)) [
  | inl missing ↦ absurd (ground (arith, missing))
  | inr (raw, reads) ↦
      let known : claims_of raw.sub raw.jti raw.exp ≡ some c = ground (arith, reads) in
      let (s, i, x) = claims_of_lem raw.sub raw.jti raw.exp c known in
      record { raw = raw; reads = reads; same_sub = s; same_jti = i; same_exp = x }
]

-- A request with a token, at an instant.
pub data Event : Type 0 where
  refresh_at : ℕ → String → Event
  logout_at : ℕ → String → Event

module _ (jwt : JwtDecode) where
  abbrev pub serve : Event → Blacklist → Blacklist
  serve (refresh_at t token) redis = (refresh jwt t token redis).1
  serve (logout_at t token) redis = (logout jwt t token redis).1

  unfoldable pub serve_all : List Event → Blacklist → Blacklist
  serve_all [] redis = redis
  serve_all (e ∷ es) redis = serve_all es (serve e redis)

  module _ (laws : JwtLaws jwt) (token : String) (start : ℕ) (c : TokenClaims)
      (decoded : decode_token jwt refresh_token start token ≡ some c) where
    -- The entry of the token outlives it.
    abbrev Held : Blacklist → Type 0
    Held redis = until_of c.jti redis ≡ some c.exp

    blacklist_own : (now : ℕ) (redis : Blacklist) → now < c.exp → Held (blacklist now c redis)
    unfolding blacklist
    blacklist_own now redis h = ground (arith, (str_eq_iff c.jti c.jti).1 refl)

    own : Decoded jwt start token c
    own = decode_token-Decoded jwt start token c decoded

    blacklist_other :
        (now : ℕ) (other : String) (d : TokenClaims) (redis : Blacklist)
        → decode_token jwt refresh_token now other ≡ some d
        → Held redis
        → Held (blacklist now d redis)
    unfolding blacklist
    blacklist_other now other d redis e h = elim (Bool-cases (str_eq d.jti c.jti)) [
      | inl same ↦
          let theirs = decode_token-Decoded jwt now other d e in
          let same_id : d.jti ≡ c.jti = (str_eq_iff d.jti c.jti).0 same in
          let raw_exp : theirs.raw.exp ≡ own.raw.exp =
            laws.unique start now token other c.jti own.raw theirs.raw own.reads theirs.reads
              own.same_jti (theirs.same_jti ∙ ap some same_id) in
          let same_exp : d.exp ≡ c.exp = some_inj (sym theirs.same_exp ∙ raw_exp ∙ own.same_exp) in
          ground (arith, laws.expires now d.exp other theirs.raw theirs.reads theirs.same_exp)
      | inr differs ↦ ground arith
    ]

    refresh-Held :
        (t : ℕ) (other : String) (redis : Blacklist)
        → Held redis
        → Held (refresh jwt t other redis).1
    unfolding refresh
    refresh-Held t other redis h = elim (Option-cases (decode_token jwt refresh_token t other)) [
      | inl missing ↦ rw missing h
      | inr (d, e) ↦ elim (Bool-cases (is_blacklisted t d.jti redis)) [
        | inl gone ↦ rw (e, gone) h
        | inr fresh ↦ rw (e, fresh) (blacklist_other t other d redis e h)
      ]
    ]

    logout-Held :
        (t : ℕ) (other : String) (redis : Blacklist)
        → Held redis
        → Held (logout jwt t other redis).1
    unfolding logout
    logout-Held t other redis h = elim (Option-cases (decode_token jwt refresh_token t other)) [
      | inl missing ↦ rw missing h
      | inr (d, e) ↦ rw e (blacklist_other t other d redis e h)
    ]

    serve-Held : (e : Event) (redis : Blacklist) → Held redis → Held (serve e redis)
    serve-Held (refresh_at t other) redis h = refresh-Held t other redis h
    serve-Held (logout_at t other) redis h = logout-Held t other redis h

    serve_all-Held : (es : List Event) (redis : Blacklist) → Held redis → Held (serve_all es redis)
    unfolding serve_all
    serve_all-Held [] redis h = h
    serve_all-Held (e ∷ es) redis h = serve_all-Held es (serve e redis) (serve-Held e redis h)

    -- While the entry is held, the token is refused: it is on the blacklist, or it has expired.
    refused :
        (later : ℕ) (redis : Blacklist)
        → Held redis
        → (e : AuthError) × (refresh jwt later token redis ≡ (err e, redis))
    unfolding refresh is_blacklisted
    refused later redis h = elim (Option-cases (decode_token jwt refresh_token later token)) [
      | inl missing ↦ (invalid_token, rw missing refl)
      | inr (d, e) ↦
          let theirs = decode_token-Decoded jwt later token d e in
          let same_raw : theirs.raw ≡ own.raw =
            laws.stable start later token own.raw theirs.raw own.reads theirs.reads in
          let same_id : d.jti ≡ c.jti =
            some_inj (sym theirs.same_jti ∙ ap (λ r. r.jti) same_raw ∙ own.same_jti) in
          let same_end : d.exp ≡ c.exp =
            some_inj (sym theirs.same_exp ∙ ap (λ r. r.exp) same_raw ∙ own.same_exp) in
          let early : later < d.exp =
            laws.expires later d.exp token theirs.raw theirs.reads theirs.same_exp in
          let dead : is_blacklisted later d.jti redis ≡ true =
            ground (arith, same_id, same_end, h) in
          (revoked, rw (e, dead) refl)
    ]

    -- Once it was written to the blacklist, no requests bring it back.
    spent :
        (redis : Blacklist) (between : List Event) (later : ℕ)
        → (e : AuthError) × ((refresh jwt later token
              (serve_all between (blacklist start c redis))).0
            ≡ err e)
    spent redis between later =
        let early = laws.expires start c.exp token own.raw own.reads own.same_exp in
        let (e, h) =
          refused later (serve_all between (blacklist start c redis))
            (serve_all-Held between (blacklist start c redis) (blacklist_own start redis early)) in
        (e, ap (λ x. x.0) h)

-- A request that consumes the token was accepted.
abbrev pub IsAccepted : JwtDecode → Event → Blacklist → Type 0
IsAccepted jwt (refresh_at t token) redis = (sub : ℕ) × ((refresh jwt t token redis).0 ≡ ok sub)
IsAccepted jwt (logout_at t token) redis = (logout jwt t token redis).0 ≡ ok tt

abbrev pub token_of : Event → String
token_of (refresh_at _ token) = token
token_of (logout_at _ token) = token

-- What an accepted request leaves in Redis.
Consumed : JwtDecode → Event → ℕ → Blacklist → Type 0
Consumed jwt first t redis =
    (c : TokenClaims) × (decode_token jwt refresh_token t (token_of first) ≡ some c)
    × (serve jwt first redis ≡ blacklist t c redis)

refresh-Consumed :
    (jwt : JwtDecode) (t : ℕ) (token : String) (redis : Blacklist)
    → IsAccepted jwt (refresh_at t token) redis
    → Consumed jwt (refresh_at t token) t redis
unfolding refresh Consumed
refresh-Consumed jwt t token redis (sub, e) =
    elim (Option-cases (decode_token jwt refresh_token t token)) [
      | inl missing ↦ absurd (ground (arith, missing))
      | inr (c, known) ↦ elim (Bool-cases (is_blacklisted t c.jti redis)) [
        | inl gone ↦ absurd (ground (arith, known, gone))
        | inr fresh ↦
            let left : (refresh jwt t token redis).1 ≡ blacklist t c redis =
              rw (known, fresh) refl in
            (c, known, left)
      ]
    ]

logout-Consumed :
    (jwt : JwtDecode) (t : ℕ) (token : String) (redis : Blacklist)
    → IsAccepted jwt (logout_at t token) redis
    → Consumed jwt (logout_at t token) t redis
unfolding logout Consumed
logout-Consumed jwt t token redis e = elim (Option-cases (decode_token jwt refresh_token t token)) [
  | inl missing ↦ absurd (ground (arith, missing))
  | inr (c, known) ↦
      let left : (logout jwt t token redis).1 ≡ blacklist t c redis = rw known refl in
      (c, known, left)
]

refresh_after-Consumed :
    (jwt : JwtDecode) (first : Event) (t : ℕ) (redis : Blacklist) (between : List Event) (later : ℕ)
    → JwtLaws jwt
    → Consumed jwt first t redis
    → (e : AuthError) × ((refresh jwt later
          (token_of first)
          (serve_all jwt between (serve jwt first redis))).0
        ≡ err e)
unfolding Consumed
refresh_after-Consumed jwt first t redis between later laws (c, known, left) =
    let (e, h) = spent jwt laws (token_of first) t c known redis between later in
    (e, ap (λ r. (refresh jwt later (token_of first) (serve_all jwt between r)).0) left ∙ h)

-- Where the JWT library refuses expired tokens and reads a token always alike, and tokens with one id
-- expire together (`JwtLaws`): after a refresh or a logout that was accepted, and after any requests
-- with any tokens in between, that token never gets a new pair again.
pub refresh_at_most_once :
    (jwt : JwtDecode) (first : Event) (redis : Blacklist) (between : List Event) (later : ℕ)
    → JwtLaws jwt
    → IsAccepted jwt first redis
    → (e : AuthError) × ((refresh jwt later
          (token_of first)
          (serve_all jwt between (serve jwt first redis))).0
        ≡ err e)
refresh_at_most_once jwt (refresh_at t token) redis between later laws accepted =
    refresh_after-Consumed jwt (refresh_at t token) t redis between later laws
      (refresh-Consumed jwt t token redis accepted)
refresh_at_most_once jwt (logout_at t token) redis between later laws accepted =
    refresh_after-Consumed jwt (logout_at t token) t redis between later laws
      (logout-Consumed jwt t token redis accepted)
