-- ===== src/RateLimit/Answers.antt =====
-- internal/ratelimit/ratelimit.go: what a caller is told.
use kindling.Base.{
  ◌+ℤ◌, if◌then◌else◌, ℕ, suc, ◌≡◌, refl, Bool, true, false, Option, none, some, String, arith, ℤ,
  pos, ◌≤ℤ◌, ◌<ℤ◌, ltb_ℤ, ◌↔◌, -ℤ_parts, +ℤ_parts,
}
use kindling.RateLimit.{
  Bucket, Limiter, Answer, find, allow, allow_at, middleware, path_middleware, unix, is_expired,
}

-- A bucket whose window is still open and that has used up the limit.
abbrev pub is_full : ℤ → ℕ → ℕ → Option Bucket → Bool
is_full limit window now none = false
is_full limit window now (some b) =
    if is_expired window now b then false else ltb_ℤ limit (pos (suc b.count))

-- The answer to a request, with the bucket that it found.
record IsRight (limit : ℤ) (window now : ℕ) (o : Option Bucket) (a : Answer) : Type 0 where
  refused : (a.allowed ≡ false) ↔ (is_full limit window now o ≡ true)
  left : a.allowed ≡ true → pos 1 ≤ℤ limit → (pos 0 ≤ℤ a.remaining) × (a.remaining <ℤ limit)
  none_left : a.allowed ≡ false → a.remaining ≡ pos 0

allow_at-IsRight :
    (o : Option Bucket) (ip : String) (now : ℕ) (l : Limiter)
    → IsRight l.limit l.window now o (allow_at o ip now l).1
unfolding allow_at
allow_at-IsRight none ip now l = ground (arith, -ℤ_parts l.limit (pos 1))
allow_at-IsRight (some b) ip now l =
    ground (arith, -ℤ_parts l.limit (pos 1), -ℤ_parts l.limit (pos (suc b.count)))

-- A request is refused exactly when its address has a bucket whose window is open and which has
-- counted as many requests as the limit; the count of remaining requests is then 0. For a limit of
-- at least one, the remaining count that goes with an allowed request is between 0 and the limit,
-- and below it.
allow-IsRight :
    (ip : String) (now : ℕ) (l : Limiter)
    → let a = (allow ip now l).1 in
      ((a.allowed ≡ false) ↔ (is_full l.limit l.window now (find ip l.buckets) ≡ true))
      × (a.allowed ≡ false → a.remaining ≡ pos 0)
      × (a.allowed ≡ true → pos 1 ≤ℤ l.limit → (pos 0 ≤ℤ a.remaining) × (a.remaining <ℤ l.limit))
unfolding allow
allow-IsRight ip now l =
    let v = allow_at-IsRight (find ip l.buckets) ip now l in (v.refused, v.none_left, v.left)

-- The middleware passes a request on exactly when it is allowed; a refusal asks for a wait of at
-- least one second, and of the time up to the reset where that is longer; requests that are no
-- target of the path middleware change nothing.
middleware_lem :
    (targets : String → Bool) (key ip : String) (now later : ℕ) (l : Limiter)
    → let (l', a, r) = middleware ip now later l in
      ((l', a) ≡ allow ip now l)
      × ((r ≡ none) ↔ (a.allowed ≡ true))
      × ((wait : ℤ)
          → r ≡ some wait
          → (pos 1 ≤ℤ wait) × (pos a.reset_unix ≤ℤ pos (unix later) +ℤ wait))
      × (targets key ≡ false → path_middleware targets key ip now later l ≡ (l, none))
unfolding middleware path_middleware
middleware_lem targets key ip now later l = (
  refl,
  ground arith,
  λ wait e. ground (
    arith,
    -ℤ_parts (pos (allow ip now l).1.reset_unix) (pos (unix later)),
    +ℤ_parts (pos (unix later)) wait,
  ),
  λ t. rw t,
)
