-- ===== src/RateLimit/Steps.antt =====
-- The effect of one command of the rate limiter: app/api/ratelimit.py.
use store_evix.Common.{
  ℕ, suc, ◌+◌, ◌-◌, ◌≤◌, ◌<◌, min, ◌≡◌, refl, Bool, true, false, inl, inr, Option, none, some, List,
  [], ◌∷◌, leb, Bool-cases, arith,
}
use store_evix.RateLimit.Defs.{
  Limit, Counter, expired, incr, expire, Bucket, untouched, Command, incr_at, expire_at, count_hit,
  start_window, dependency, accepted,
}

abbrev pub instant : Command → ℕ
instant (incr_at now) = now
instant (expire_at now) = now

-- Commands in order, from `start` on and before `end`.
abbrev pub IsSpan : ℕ → ℕ → List Command → Type 0
IsSpan start end [] = Unit
IsSpan start end (x ∷ xs) = ((start ≤ instant x) × (instant x < end)) × IsSpan (instant x) end xs

-- The expiry, if there is one, does not come before `end`.
abbrev pub Outlasts : ℕ → Option ℕ → Type 0
Outlasts end none = Unit
Outlasts end (some u) = end ≤ u

abbrev pub owed : Bool → ℕ
owed true = 1
owed false = 0

abbrev pub held : Counter → Bool → Bucket
held c w = record { counter = some c; waiting = w }

pub still : (end now : ℕ) (o : Option ℕ) → Outlasts end o → now < end → expired now o ≡ false
still end now none h early = refl
still end now (some u) h early = ground (arith, h, early)

module _ (l : Limit) (positive : 0 < l.count) where
  pub hit_live :
      (now : ℕ) (c : Counter) (w : Bool)
      → expired now c.until ≡ false
      → 0 < c.hits
      → count_hit l now (held c w)
        ≡ (leb (suc c.hits) l.count, held (record c { hits = suc c.hits }) w)
  unfolding count_hit incr
  hit_live now c w live some_hits = rw live (ground (arith, some_hits))

  pub hit_gone :
      (now : ℕ) (c : Counter) (w : Bool)
      → expired now c.until ≡ true
      → count_hit l now (held c w) ≡ (false, held (record { hits = 1; until = none }) true)
  unfolding count_hit incr
  hit_gone now c w gone = rw gone refl

  pub hit_first :
      (now : ℕ) → count_hit l now untouched ≡ (false, held (record { hits = 1; until = none }) true)
  unfolding count_hit incr
  hit_first now = refl

  pub window_starts :
      (now : ℕ) (c : Counter)
      → start_window l now (held c true)
        ≡ (true, held (record c { until = some (now + l.window) }) false)
  unfolding start_window expire
  window_starts now c = ground (arith, positive)

  pub window_ignored :
      (now : ℕ) (c : Counter) → start_window l now (held c false) ≡ (false, held c false)
  unfolding start_window
  window_ignored now c = refl

  -- What one command adds to those that follow.
  pub accepted_step :
      (x : Command) (xs : List Command) (b b' : Bucket) (passes : Bool)
      → dependency l x b ≡ (passes, b')
      → accepted l (x ∷ xs) b ≡ owed passes + accepted l xs b'
  unfolding accepted
  accepted_step x xs b b' true e = rw e (omega arith)
  accepted_step x xs b b' false e = rw e (omega arith)

  pub counted :
      (n k : ℕ) → owed (leb (suc n) l.count) + min (l.count - suc n) k ≡ min (l.count - n) (suc k)
  counted n k = elim (Bool-cases (leb (suc n) l.count)) [
    | inl passes ↦ rw passes (ground (arith, passes))
    | inr refused ↦ rw refused (ground (arith, refused))
  ]
