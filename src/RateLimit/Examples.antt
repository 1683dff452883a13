-- ===== src/RateLimit/Examples.antt =====
-- internal/ratelimit/ratelimit.go: a limiter of two requests a minute.
use kindling.Base.{◌≡◌, refl, List, [], ◌∷◌, arith, pos}
use kindling.RateLimit.{
  Limiter, Call, new, asks, cleans, allow, cleanup, find, count_allowed, store, keep_live,
}
use kindling.RateLimit.Window.{count_allowed-window}

abbrev limiter : Limiter
limiter = new (pos 2) 60

abbrev used : Limiter
used = (allow "a" 100 limiter).0

abbrev traffic : List Call
traffic = asks "a" 110 ∷ asks "b" 111 ∷ cleans 120 ∷ asks "a" 121 ∷ []

traffic_runs : count_allowed "a" used traffic ≡ 1
unfolding count_allowed new allow cleanup find store keep_live
traffic_runs = refl

count_allowed-window_example : count_allowed "a" used traffic ≡ 1
unfolding new allow find store
count_allowed-window_example =
    count_allowed-window "a" used traffic (record { count = 1; window_start = 100 }) refl
      (omega arith)

abbrev full : Limiter
full = (allow "a" 101 used).0
