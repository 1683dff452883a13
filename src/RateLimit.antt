-- ===== src/RateLimit.antt =====
-- internal/ratelimit/ratelimit.go: the fixed-window limiter of requests by client address.
--
-- `buckets` is the map `l.buckets`; each operation is one critical section under `l.mu`. A time is a
-- number of nanoseconds since the Unix epoch, and is read from `l.now` by the caller. `limit` is a Go
-- `int`; `window` is a duration that is not negative.
pub mod Buckets
pub mod Window
pub mod Answers
mod Examples
use kindling.Base.{
  ℕ, suc, ◌+◌, ◌/◌, Bool, true, false, Option, none, some, List, [], ◌∷◌, String, str_eq, leb, ltb,
  length, if◌then◌else◌, ℤ, pos, ltb_ℤ, ◌-ℤ◌,
}

pub record Bucket : Type 0 where
  pub count : ℕ
  pub window_start : ℕ

pub record Limiter : Type 0 where
  pub buckets : List (String × Bucket)
  pub limit : ℤ
  pub window : ℕ

unfoldable pub new : ℤ → ℕ → Limiter
new limit window = record { buckets = []; limit = limit; window = window }

-- The map `l.buckets` has one entry for a key: the first one counts, and a write replaces it.
pub find : String → List (String × Bucket) → Option Bucket
find ip [] = none
find ip ((j, b) ∷ m) = if str_eq j ip then some b else find ip m

pub store : String → Bucket → List (String × Bucket) → List (String × Bucket)
store ip b [] = (ip, b) ∷ []
store ip b ((j, c) ∷ m) = if str_eq j ip then (ip, b) ∷ m else (j, c) ∷ store ip b m

-- `t.Unix()`.
abbrev pub unix : ℕ → ℕ
unix t = t / 1_000_000_000

-- `now.Sub(b.windowStart) >= l.window`; the difference is negative where the clock went back.
abbrev pub is_expired : ℕ → ℕ → Bucket → Bool
is_expired window now b = leb (b.window_start + window) now

pub record Answer : Type 0 where
  pub allowed : Bool
  pub remaining : ℤ
  pub reset_unix : ℕ

abbrev pub max0 : ℤ → ℤ
max0 n = if ltb_ℤ n (pos 0) then pos 0 else n

open_window : String → ℕ → Limiter → Limiter × Answer
open_window ip now l = (
  record l { buckets = store ip (record { count = 1; window_start = now }) l.buckets },
  record { allowed = true; remaining = l.limit -ℤ pos 1; reset_unix = unix (now + l.window) },
)

count_request : String → Bucket → Limiter → Limiter × Answer
count_request ip b l =
    let b' = record b { count = suc b.count } in
    let reset = unix (b.window_start + l.window) in
    (
      record l { buckets = store ip b' l.buckets },
      (if ltb_ℤ l.limit (pos (suc b.count))
          then record { allowed = false; remaining = pos 0; reset_unix = reset }
          else record {
            allowed = true;
            remaining = max0 (l.limit -ℤ pos (suc b.count));
            reset_unix = reset;
          }),
    )

allow_at : Option Bucket → String → ℕ → Limiter → Limiter × Answer
unfolding open_window count_request
allow_at none ip now l = open_window ip now l
allow_at (some b) ip now l =
    if is_expired l.window now b then open_window ip now l else count_request ip b l

-- `Allow`.
pub allow : String → ℕ → Limiter → Limiter × Answer
unfolding allow_at
allow ip now l = allow_at (find ip l.buckets) ip now l

pub keep_live : ℕ → ℕ → List (String × Bucket) → List (String × Bucket)
keep_live window now [] = []
keep_live window now ((j, b) ∷ m) =
    let rest = keep_live window now m in if is_expired window now b then rest else (j, b) ∷ rest

-- `cleanup`.
pub cleanup : ℕ → Limiter → Limiter
cleanup now l = record l { buckets = keep_live l.window now l.buckets }

-- `BucketCount`.
pub bucket_count : Limiter → ℕ
bucket_count l = length l.buckets

-- The calls that a running limiter serves.
pub data Call : Type 0 where
  asks : String → ℕ → Call
  cleans : ℕ → Call

pub serve : Limiter → Call → Limiter
serve l (asks ip now) = (allow ip now l).0
serve l (cleans now) = cleanup now l

-- How many of the requests from `ip` are allowed.
pub count_allowed : String → Limiter → List Call → ℕ
count_allowed ip l [] = 0
count_allowed ip l (asks j now ∷ cs) =
    (if str_eq j ip then (if (allow j now l).1.allowed then 1 else 0) else 0)
    + count_allowed ip (allow j now l).0 cs
count_allowed ip l (cleans now ∷ cs) = count_allowed ip (cleanup now l) cs

-- What `Middleware` does with a request: the limiter, and an answer of 429 with its `Retry-After`, or
-- the next handler (`none`). `now` and `later` are the two readings of the clock.
pub middleware : String → ℕ → ℕ → Limiter → Limiter × Answer × Option ℤ
middleware ip now later l =
    let (l', a) = allow ip now l in
    (
      l',
      a,
      (if a.allowed
          then none
          else let retry_after = pos a.reset_unix -ℤ pos (unix later) in
            some (if ltb_ℤ retry_after (pos 1) then pos 1 else retry_after)),
    )

-- `PathMiddleware`: only the targets are limited.
pub path_middleware :
    (String → Bool) → String → String → ℕ → ℕ → Limiter → Limiter × Option (Answer × Option ℤ)
path_middleware targets key ip now later l =
    if targets key
    then (let (l', a, r) = middleware ip now later l in (l', some (a, r)))
    else (l, none)
