-- ===== src/Policy/Hours.antt =====
-- The hours that a time window allows, on the circle of a day.
use cocopilot.Prelude.{ℕ, ◌+◌, ◌-◌, ◌%◌, ◌<◌, ◌≡◌, ltb, arith}
use cocopilot.Prelude.Int.{pos}
use cocopilot.Policy.Evaluate.{hour_allowed}

-- For hours of a day, an hour is allowed exactly when it comes less far after the first hour, going
-- round the clock, than the end does. So the window may cross midnight, the window from the end to
-- the start allows the other hours, and a window that starts and ends at one hour allows none.
pub hour_allowed-clock :
    (start_hour end_hour hour : ℕ)
    → start_hour < 24
    → end_hour < 24
    → hour < 24
    → hour_allowed (pos start_hour) (pos end_hour) hour
      ≡ ltb ((hour + 24 - start_hour) % 24) ((end_hour + 24 - start_hour) % 24)
unfolding hour_allowed
hour_allowed-clock start_hour end_hour hour hs he hh = ground arith
