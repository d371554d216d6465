-- ===== src/RateLimit/Tests.antt =====
-- The properties of the rate limiter on the budget "2/60".
use store_evix.Common.{
  ℕ, suc, ◌+◌, ◌-◌, ◌*◌, ◌≤◌, min, ◌≡◌, refl, false, List, [], ◌∷◌, ◌++◌, map, length, arith,
}
use store_evix.RateLimit.Defs.{
  Limit, untouched, Command, incr_at, expire_at, incr, expire, count_hit, start_window, accepted,
  after,
}
use store_evix.RateLimit.Windows.{accepted_fresh, accepted_le, accepted_again, accepted_stuck}

abbrev two_a_minute : Limit
two_a_minute = record { count = 2; window = 60 }

abbrev soon : List ℕ
soon = 101 ∷ []

abbrev later : List ℕ
later = 110 ∷ []

abbrev much_later : List ℕ
much_later = 110 ∷ 120 ∷ 9000 ∷ []

-- The second request comes between the two commands of the first.
accepted_fresh_example :
    accepted two_a_minute
      (incr_at 100 ∷ (map incr_at soon ++ expire_at 102 ∷ map incr_at later))
      untouched
    ≡ min 2 (suc (length soon + length later))
accepted_fresh_example =
    accepted_fresh two_a_minute 100 102 soon later (omega arith) ((omega arith, omega arith), tt)

abbrev one_before : List Command
one_before = incr_at 100 ∷ expire_at 101 ∷ []

-- The end of one window and the start of the next lie within less than a window.
three_pass :
    accepted two_a_minute
      (incr_at 158 ∷ incr_at 161 ∷ expire_at 161 ∷ incr_at 162 ∷ incr_at 163 ∷ [])
      (after two_a_minute one_before untouched)
    ≡ 3
unfolding accepted after count_hit start_window incr expire
three_pass = refl

accepted_le_example :
    accepted two_a_minute
      (incr_at 158 ∷ incr_at 161 ∷ expire_at 161 ∷ [])
      (after two_a_minute one_before untouched)
    ≤ 2 * 2
accepted_le_example =
    accepted_le two_a_minute 150 one_before (incr_at 158 ∷ incr_at 161 ∷ expire_at 161 ∷ [])
      (omega arith) (omega arith, (omega arith, tt))
      ((omega arith, omega arith), ((omega arith, omega arith), ((omega arith, omega arith), tt)))

one_before_idle : (after two_a_minute one_before untouched).waiting ≡ false
unfolding after count_hit start_window incr expire
one_before_idle = refl

accepted_again_example :
    accepted two_a_minute
      (incr_at (101 + 60) ∷ expire_at 162 ∷ [])
      (after two_a_minute one_before untouched)
    ≡ 1
accepted_again_example =
    accepted_again two_a_minute 101 162 one_before (omega arith) (omega arith, (omega arith, tt))
      one_before_idle

-- One of the three that follow passes, though the last comes much later.
accepted_stuck_example :
    accepted two_a_minute (incr_at 100 ∷ map incr_at much_later) untouched
    ≡ min (2 - 1) (length much_later)
accepted_stuck_example = accepted_stuck two_a_minute 100 much_later (omega arith)
