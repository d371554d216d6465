-- ===== src/RateLimit/Bounds.antt =====
-- What is left of a budget within a window: app/api/ratelimit.py.
use mathlib.Core.Path.{subst}
use store_evix.Common.{
  ℕ, suc, ◌+◌, ◌-◌, ◌≤◌, ◌<◌, ◌≡◌, refl, sym, ap, Bool, true, false, inl, inr, Option, none, some,
  List, [], ◌∷◌, All, leb, Bool-cases, arith,
}
use store_evix.RateLimit.Defs.{
  Limit, Counter, expired, Bucket, untouched, Command, incr_at, expire_at, count_hit, start_window,
  accepted, after,
}
use store_evix.RateLimit.Steps.{
  instant, IsSpan, Outlasts, owed, held, still, hit_live, hit_gone, hit_first, window_starts,
  window_ignored, accepted_step,
}

module _ (l : Limit) (positive : 0 < l.count) where
  -- In a window that outlasts the commands, what is left of the budget passes, and the request that
  -- has still to send its EXPIRE.
  within :
      (start end : ℕ) (xs : List Command) (c : Counter) (w : Bool)
      → IsSpan start end xs
      → end ≤ start + l.window
      → Outlasts end c.until
      → 0 < c.hits
      → accepted l xs (held c w) ≤ (l.count - c.hits) + owed w
  unfolding accepted
  within start end [] c w span short live some_hits = omega arith
  within start end (incr_at now ∷ xs) c w ((from, early), span) short live some_hits =
      let step =
        accepted_step l positive (incr_at now) xs (held c w)
          (held (record c { hits = suc c.hits }) w) (leb (suc c.hits) l.count)
          (hit_live l positive now c w (still end now c.until live early) some_hits) in
      let rest =
        within now end xs (record c { hits = suc c.hits }) w span (omega arith) live
          (omega arith) in
      elim (Bool-cases (leb (suc c.hits) l.count)) [
        | inl passes ↦ ground (arith, step, rest, passes)
        | inr refused ↦ ground (arith, step, rest, refused)
      ]
  within start end (expire_at now ∷ xs) c true ((from, early), span) short live some_hits =
      let rest =
        within now end xs (record c { until = some (now + l.window) }) false span (omega arith)
          (omega arith) some_hits in
      omega (
        arith,
        accepted_step l positive (expire_at now) xs (held c true)
            (held (record c { until = some (now + l.window) }) false) true
            (window_starts l positive now c),
        rest,
      )
  within start end (expire_at now ∷ xs) c false ((from, early), span) short live some_hits =
      let rest = within now end xs c false span (omega arith) live some_hits in
      omega (
        arith,
        accepted_step l positive (expire_at now) xs (held c false) (held c false) false
            (window_ignored l positive now c),
        rest,
      )

  -- A key that is gone, or not there, has the whole budget before it.
  from_fresh :
      (now start end : ℕ) (xs : List Command) (b : Bucket)
      → count_hit l now b ≡ (false, held (record { hits = 1; until = none }) true)
      → IsSpan now end xs
      → start ≤ now
      → end ≤ start + l.window
      → accepted l (incr_at now ∷ xs) b ≤ l.count
  from_fresh now start end xs b first span after_start short = omega (
    arith,
    accepted_step l positive (incr_at now) xs b (held (record { hits = 1; until = none }) true)
        false first,
    within now end xs (record { hits = 1; until = none }) true span (omega arith) tt (omega arith),
    positive,
  )

  -- A window may meet the end of one budget and the whole of the next.
  across :
      (start end : ℕ) (xs : List Command) (c : Counter)
      → IsSpan start end xs
      → end ≤ start + l.window
      → 0 < c.hits
      → accepted l xs (held c false) ≤ (l.count - c.hits) + l.count
  unfolding accepted
  across start end [] c span short some_hits = omega arith
  across start end (incr_at now ∷ xs) c ((from, early), span) short some_hits =
      elim (Bool-cases (expired now c.until)) [
        | inl gone ↦ omega (
          arith,
          from_fresh now start end xs (held c false) (hit_gone l positive now c false gone) span
              from short,
        )
        | inr live ↦
            let step =
              accepted_step l positive (incr_at now) xs (held c false)
                (held (record c { hits = suc c.hits }) false) (leb (suc c.hits) l.count)
                (hit_live l positive now c false live some_hits) in
            let rest =
              across now end xs (record c { hits = suc c.hits }) span (omega arith) (omega arith) in
            elim (Bool-cases (leb (suc c.hits) l.count)) [
              | inl passes ↦ ground (arith, step, rest, passes)
              | inr refused ↦ ground (arith, step, rest, refused)
            ]
      ]
  across start end (expire_at now ∷ xs) c ((from, early), span) short some_hits = omega (
    arith,
    accepted_step l positive (expire_at now) xs (held c false) (held c false) false
        (window_ignored l positive now c),
    across now end xs c span (omega arith) some_hits,
  )

  nothing_yet :
      (start end : ℕ) (xs : List Command)
      → IsSpan start end xs
      → end ≤ start + l.window
      → accepted l xs untouched ≤ l.count
  unfolding accepted
  nothing_yet start end [] span short = omega arith
  nothing_yet start end (incr_at now ∷ xs) ((from, early), span) short =
      from_fresh now start end xs untouched (hit_first l positive now) span from short
  nothing_yet start end (expire_at now ∷ xs) ((from, early), span) short = omega (
    arith,
    accepted_step l positive (expire_at now) xs untouched untouched false (ignored now),
    nothing_yet now end xs span (omega arith),
  )
    where
      ignored : (now : ℕ) → start_window l now untouched ≡ (false, untouched)
      ignored now = unfold start_window in refl

  -- What commands up to `s` make of a key: it is absent, or it counts, and has its expiry in time
  -- unless the EXPIRE is still to come.
  abbrev pub LiveAt : ℕ → Option Counter → Bool → Type 0
  LiveAt s none true = ⊥
  LiveAt s none false = Unit
  LiveAt s (some c) true = (0 < c.hits) × (c.until ≡ none)
  LiveAt s (some c) false = (0 < c.hits) × ((u : ℕ) × (c.until ≡ some u) × (u ≤ s + l.window))

  abbrev pub IsLive : ℕ → Bucket → Type 0
  IsLive s b = LiveAt s b.counter b.waiting

  hit-LiveAt :
      (s now : ℕ) (o : Option Counter) (w : Bool)
      → LiveAt s o w
      → IsLive s (count_hit l now (record { counter = o; waiting = w })).1
  hit-LiveAt s now none true h = absurd h
  hit-LiveAt s now none false h =
      subst (λ (x : Bool × Bucket). IsLive s x.1) (sym (hit_first l positive now))
        (omega arith, refl)
  hit-LiveAt s now (some c) true (some_hits, open_ended) =
      subst (λ (x : Bool × Bucket). IsLive s x.1)
        (sym (hit_live l positive now c true (ap (expired now) open_ended) some_hits))
        (omega arith, open_ended)
  hit-LiveAt s now (some c) false (some_hits, timed) = elim (Bool-cases (expired now c.until)) [
    | inl gone ↦
        subst (λ (x : Bool × Bucket). IsLive s x.1) (sym (hit_gone l positive now c false gone))
          (omega arith, refl)
    | inr live ↦
        subst (λ (x : Bool × Bucket). IsLive s x.1)
          (sym (hit_live l positive now c false live some_hits)) (omega arith, timed)
  ]

  window-LiveAt :
      (s now : ℕ) (o : Option Counter) (w : Bool)
      → now ≤ s
      → LiveAt s o w
      → IsLive s (start_window l now (record { counter = o; waiting = w })).1
  window-LiveAt s now none true early h = absurd h
  window-LiveAt s now none false early h = unfold start_window in tt
  window-LiveAt s now (some c) true early (some_hits, open_ended) =
      subst (λ (x : Bool × Bucket). IsLive s x.1) (sym (window_starts l positive now c))
        (some_hits, (now + l.window, refl, omega arith))
  window-LiveAt s now (some c) false early h =
      subst (λ (x : Bool × Bucket). IsLive s x.1) (sym (window_ignored l positive now c)) h

  pub after-IsLive :
      (s : ℕ) (xs : List Command) (b : Bucket)
      → All (λ x. instant x ≤ s) xs
      → IsLive s b
      → IsLive s (after l xs b)
  unfolding after
  after-IsLive s [] b before h = h
  after-IsLive s (incr_at now ∷ xs) b (early, before) h =
      after-IsLive s xs (count_hit l now b).1 before (hit-LiveAt s now b.counter b.waiting h)
  after-IsLive s (expire_at now ∷ xs) b (early, before) h =
      after-IsLive s xs (start_window l now b).1 before
        (window-LiveAt s now b.counter b.waiting early h)

  pub bounded :
      (start : ℕ) (xs : List Command) (o : Option Counter) (w : Bool)
      → LiveAt start o w
      → IsSpan start (start + l.window) xs
      → accepted l xs (record { counter = o; waiting = w }) ≤ l.count + l.count
  bounded start xs none true h span = absurd h
  bounded start xs none false h span =
      omega (arith, nothing_yet start (start + l.window) xs span (omega arith))
  bounded start xs (some c) true (some_hits, open_ended) span = omega (
    arith,
    within start (start + l.window) xs c true span (omega arith)
        (subst (Outlasts (start + l.window)) (sym open_ended) tt) some_hits,
    positive,
  )
  bounded start xs (some c) false (some_hits, timed) span =
      omega (arith, across start (start + l.window) xs c span (omega arith) some_hits)
