-- ===== src/RateLimit/Defs.antt =====
-- The dependency of app/api/ratelimit.py, on the counter that one key has in Redis.
use store_evix.Common.{
  ℕ, zero, suc, ◌+◌, Bool, true, false, Option, none, some, List, [], ◌∷◌, String, leb, ◌==◌,
  str_eq, if◌then◌else◌,
}
use store_evix.Common.Int.{ℤ, pos}

-- A budget: so many requests in so many seconds.
pub record Limit : Type 0 where
  pub count : ℕ
  pub window : ℕ

-- The two integers of a setting; both must be positive.
unfoldable pub parse_limit : ℤ → ℤ → Option Limit
parse_limit (pos (suc c)) (pos (suc w)) = some (record { count = suc c; window = suc w })
parse_limit _ _ = none

module _ (strip : String → String) where
  abbrev pub host_or_unknown : Option String → String
  host_or_unknown none = "unknown"
  host_or_unknown (some h) = if str_eq h "" then "unknown" else h

  -- The header of the edge, then the peer, then a sentinel.
  unfoldable pub client_ip : Option String → Option String → String
  client_ip none host = host_or_unknown host
  client_ip (some cf_ip) host =
      if str_eq cf_ip ""
      then host_or_unknown host
      else (if str_eq (strip cf_ip) "" then host_or_unknown host else strip cf_ip)

-- A key in Redis, with the instant at which it goes.
pub record Counter : Type 0 where
  pub hits : ℕ
  pub until : Option ℕ

abbrev pub expired : ℕ → Option ℕ → Bool
expired now none = false
expired now (some u) = leb u now

-- `INCR`: a key that is absent or gone starts at one, without an expiry.
unfoldable pub incr : ℕ → Option Counter → Counter
incr now none = record { hits = 1; until = none }
incr now (some c) =
    if expired now c.until
    then record { hits = 1; until = none }
    else record c { hits = suc c.hits }

-- `EXPIRE`: a key that is absent gets none.
unfoldable pub expire : ℕ → ℕ → Option Counter → Option Counter
expire window now none = none
expire window now (some c) = some (record c { until = some (now + window) })

-- The key, and whether the request that made it has still to send its EXPIRE.
pub record Bucket : Type 0 where
  pub counter : Option Counter
  pub waiting : Bool

abbrev pub untouched : Bucket
untouched = record { counter = none; waiting = false }

-- The two commands of the requests of one client, in the order in which Redis serves them, with their
-- instants. Between the two of one request others may come, and the second may never.
pub data Command : Type 0 where
  incr_at expire_at : ℕ → Command

-- `hits = await redis.incr(key)`, and the answer of a request that sends no EXPIRE.
unfoldable pub count_hit : Limit → ℕ → Bucket → Bool × Bucket
unfolding incr
count_hit l now b =
    let c = incr now b.counter in
    if c.hits == 1
    then (false, record { counter = some c; waiting = true })
    else (leb c.hits l.count, record b { counter = some c })

-- `if hits == 1: await redis.expire(key, window)`, and the answer of that request.
unfoldable pub start_window : Limit → ℕ → Bucket → Bool × Bucket
unfolding expire
start_window l now b =
    if b.waiting
    then (leb 1 l.count, record { counter = expire l.window now b.counter; waiting = false })
    else (false, b)

-- One command: whether a request is let through at it, and the key after it.
abbrev pub dependency : Limit → Command → Bucket → Bool × Bucket
dependency l (incr_at now) b = count_hit l now b
dependency l (expire_at now) b = start_window l now b

-- How many requests are let through by these commands.
unfoldable pub accepted : Limit → List Command → Bucket → ℕ
accepted l [] b = zero
accepted l (x ∷ xs) b =
    let (passes, b') = dependency l x b in
    let rest = accepted l xs b' in if passes then suc rest else rest

unfoldable pub after : Limit → List Command → Bucket → Bucket
after l [] b = b
after l (x ∷ xs) b = after l xs (dependency l x b).1
