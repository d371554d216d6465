-- ===== src/RateLimit/Windows.antt =====
-- What a client may do in a window of time: app/api/ratelimit.py.
use store_evix.Common.{
  ℕ, suc, ◌+◌, ◌-◌, ◌*◌, ◌≤◌, ◌<◌, min, ◌≡◌, refl, ap, Bool, true, false, Option, none, some, List,
  [], ◌∷◌, ◌++◌, append_nil, map, length, All, leb, arith,
}
use store_evix.RateLimit.Defs.{
  Limit, Counter, expired, Bucket, untouched, Command, incr_at, expire_at, count_hit, accepted,
  after,
}
use store_evix.RateLimit.Steps.{
  instant, IsSpan, Outlasts, held, still, hit_live, hit_gone, hit_first, window_starts,
  accepted_step, counted,
}
use store_evix.RateLimit.Bounds.{LiveAt, after-IsLive, bounded}

module _ (l : Limit) (positive : 0 < l.count) where
  -- While the EXPIRE is still to come, every further request is counted l positive.
  accepted_waiting :
      (times : List ℕ) (rest : List Command) (c : Counter)
      → 0 < c.hits
      → c.until ≡ none
      → accepted l (map incr_at times ++ rest) (held c true)
        ≡ min (l.count - c.hits) (length times)
          + accepted l rest (held (record c { hits = c.hits + length times }) true)
  accepted_waiting [] rest c some_hits open_ended =
      omega
        (arith, ap (λ n. accepted l rest (held (record c { hits = n }) true)) (plus_none c.hits))
    where
      plus_none : (n : ℕ) → n ≡ n + 0
      plus_none n = omega arith
  accepted_waiting (now ∷ times) rest c some_hits open_ended = omega (
    arith,
    accepted_step l positive (incr_at now) (map incr_at times ++ rest) (held c true)
        (held (record c { hits = suc c.hits }) true) (leb (suc c.hits) l.count)
        (hit_live l positive now c true (ap (expired now) open_ended) some_hits),
    accepted_waiting times rest (record c { hits = suc c.hits }) (omega arith) open_ended,
    ap (λ n. accepted l rest (held (record c { hits = n }) true)) (moved_suc c.hits (length times)),
    counted l positive c.hits (length times),
  )
    where
      moved_suc : (n k : ℕ) → suc n + k ≡ n + suc k
      moved_suc n k = omega arith

  -- Within a window that outlasts them, every request is counted l positive.
  accepted_within :
      (start end : ℕ) (times : List ℕ) (c : Counter)
      → IsSpan start end (map incr_at times)
      → Outlasts end c.until
      → 0 < c.hits
      → accepted l (map incr_at times) (held c false) ≡ min (l.count - c.hits) (length times)
  accepted_within start end [] c span live some_hits = unfold accepted in omega arith
  accepted_within start end (now ∷ times) c ((from, early), span) live some_hits = omega (
    arith,
    accepted_step l positive (incr_at now) (map incr_at times) (held c false)
        (held (record c { hits = suc c.hits }) false) (leb (suc c.hits) l.count)
        (hit_live l positive now c false (still end now c.until live early) some_hits),
    accepted_within now end times (record c { hits = suc c.hits }) span live (omega arith),
    counted l positive c.hits (length times),
  )

  fresh :
      (first sent : ℕ) (soon later : List ℕ)
      → IsSpan sent (sent + l.window) (map incr_at later)
      → accepted l
          (incr_at first ∷ (map incr_at soon ++ expire_at sent ∷ map incr_at later))
          untouched
        ≡ min l.count (suc (length soon + length later))
  fresh first sent soon later span =
      let counts : Counter = record { hits = 1 + length soon; until = none } in
      omega (
        arith,
        positive,
        accepted_step l positive (incr_at first)
            (map incr_at soon ++ expire_at sent ∷ map incr_at later) untouched
            (held (record { hits = 1; until = none }) true) false (hit_first l positive first),
        accepted_waiting soon (expire_at sent ∷ map incr_at later)
            (record { hits = 1; until = none }) (omega arith) refl,
        accepted_step l positive (expire_at sent) (map incr_at later) (held counts true)
            (held (record counts { until = some (sent + l.window) }) false) true
            (window_starts l positive sent counts),
        accepted_within sent (sent + l.window) later
            (record counts { until = some (sent + l.window) }) span (omega arith) (omega arith),
      )

  passes_late :
      (s sent : ℕ) (o : Option Counter)
      → LiveAt l positive s o false
      → accepted l
          (incr_at (s + l.window) ∷ expire_at sent ∷ [])
          (record { counter = o; waiting = false })
        ≡ 1
  passes_late s sent o h =
      let anew : Counter = record { hits = 1; until = none } in
      omega (
        arith,
        accepted_step l positive (incr_at (s + l.window)) (expire_at sent ∷ [])
            (record { counter = o; waiting = false }) (held anew true) false (starts o h),
        accepted_step l positive (expire_at sent) [] (held anew true)
            (held (record anew { until = some (sent + l.window) }) false) true
            (window_starts l positive sent anew),
        none_left (held (record anew { until = some (sent + l.window) }) false),
      )
    where
      none_left : (b : Bucket) → accepted l [] b ≡ 0
      none_left b = unfold accepted in refl

      starts :
          (o : Option Counter)
          → LiveAt l positive s o false
          → count_hit l (s + l.window) (record { counter = o; waiting = false })
            ≡ (false, held (record { hits = 1; until = none }) true)
      starts none h = hit_first l positive (s + l.window)
      starts (some c) (some_hits, (u, timed, soon)) =
          hit_gone l positive (s + l.window) c false (ground (arith, timed, soon))

-- For a client that starts anew with a positive budget: its first request makes the key, any number come
-- before the EXPIRE of the first is served, and others after it, within l positive one window. Then as many pass
-- as the budget allows, or all where they are fewer.
pub accepted_fresh :
    (l : Limit) (first sent : ℕ) (soon later : List ℕ)
    → 0 < l.count
    → IsSpan sent (sent + l.window) (map incr_at later)
    → accepted l
        (incr_at first ∷ (map incr_at soon ++ expire_at sent ∷ map incr_at later))
        untouched
      ≡ min l.count (suc (length soon + length later))
accepted_fresh l first sent soon later positive = fresh l positive first sent soon later

-- With a positive budget, whatever commands Redis has served for a client up to an instant, with an
-- EXPIRE late or lost: of the requests in order in the window from then on at most twice the budget
-- pass.
pub accepted_le :
    (l : Limit) (start : ℕ) (before xs : List Command)
    → 0 < l.count
    → All (λ x. instant x ≤ start) before
    → IsSpan start (start + l.window) xs
    → accepted l xs (after l before untouched) ≤ 2 * l.count
accepted_le l start before xs positive past span =
    let b = after l before untouched in
    omega (
      arith,
      bounded l positive start xs b.counter b.waiting
          (after-IsLive l positive start before untouched past tt) span,
    )

-- With a positive budget, whatever commands Redis has served for a client up to an instant, if no EXPIRE
-- is still to come: a request one window later passes, once its own EXPIRE is served.
pub accepted_again :
    (l : Limit) (s sent : ℕ) (before : List Command)
    → 0 < l.count
    → All (λ x. instant x ≤ s) before
    → (after l before untouched).waiting ≡ false
    → accepted l (incr_at (s + l.window) ∷ expire_at sent ∷ []) (after l before untouched) ≡ 1
accepted_again l s sent before positive past idle =
    again (after l before untouched).counter (after l before untouched).waiting idle
      (after-IsLive l positive s before untouched past tt)
  where
    again :
        (o : Option Counter) (w : Bool)
        → w ≡ false
        → LiveAt l positive s o w
        → accepted l
            (incr_at (s + l.window) ∷ expire_at sent ∷ [])
            (record { counter = o; waiting = w })
          ≡ 1
    again o true e h = cc
    again o false e h = passes_late l positive s sent o h

-- With a positive budget, where the EXPIRE of the first request is never served: of all that come after
-- it, however late, one less than the budget pass, or all where they are fewer. So from then on the
-- client is refused for good.
pub accepted_stuck :
    (l : Limit) (first : ℕ) (later : List ℕ)
    → 0 < l.count
    → accepted l (incr_at first ∷ map incr_at later) untouched ≡ min (l.count - 1) (length later)
accepted_stuck l first later positive = omega (
  arith,
  accepted_step l positive (incr_at first) (map incr_at later) untouched
      (held (record { hits = 1; until = none }) true) false (hit_first l positive first),
  ap (λ xs. accepted l xs (held (record { hits = 1; until = none }) true))
      (append_nil (map incr_at later)),
  accepted_waiting l positive later [] (record { hits = 1; until = none }) (omega arith) refl,
  none_left (held (record { hits = 1 + length later; until = none }) true),
)
  where
    none_left : (b : Bucket) → accepted l [] b ≡ 0
    none_left b = unfold accepted in refl
