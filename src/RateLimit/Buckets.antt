-- ===== src/RateLimit/Buckets.antt =====
-- internal/ratelimit/ratelimit.go: the bucket of an address after each operation.
use kindling.Base.{
  ap, ℕ, suc, ◌≤◌, ◌≡◌, refl, Option, none, some, List, [], ◌∷◌, String, str_eq, str_eq_iff, arith,
  if◌then◌else◌,
}
use kindling.RateLimit.{
  cleans, asks, Call, serve, allow_at, Bucket, Limiter, find, store, is_expired, allow, keep_live,
  cleanup,
}

find-store :
    (k j : String) (b : Bucket) (m : List (String × Bucket))
    → find j (store k b m) ≡ (if str_eq k j then some b else find j m)
unfolding find store
find-store k j b [] = refl
find-store k j b ((i, c) ∷ m) =
    ground (arith, str_eq_iff k j, str_eq_iff i k, str_eq_iff i j, find-store k j b m)

-- The bucket that a request leaves.
abbrev pub next_bucket : ℕ → ℕ → Option Bucket → Bucket
next_bucket window now none = record { count = 1; window_start = now }
next_bucket window now (some b) =
    if is_expired window now b
    then record { count = 1; window_start = now }
    else record b { count = suc b.count }

allow_at-limits :
    (o : Option Bucket) (ip : String) (now : ℕ) (l : Limiter)
    → ((allow_at o ip now l).0.window ≡ l.window) × ((allow_at o ip now l).0.limit ≡ l.limit)
unfolding allow_at
allow_at-limits none ip now l = (refl, refl)
allow_at-limits (some b) ip now l = ground arith

pub allow-limits :
    (ip : String) (now : ℕ) (l : Limiter)
    → ((allow ip now l).0.window ≡ l.window) × ((allow ip now l).0.limit ≡ l.limit)
unfolding allow
allow-limits ip now l = allow_at-limits (find ip l.buckets) ip now l

find-allow_at :
    (o : Option Bucket) (ip j : String) (now : ℕ) (l : Limiter)
    → find j (allow_at o ip now l).0.buckets
      ≡ (if str_eq ip j then some (next_bucket l.window now o) else find j l.buckets)
unfolding allow_at
find-allow_at none ip j now l = find-store ip j _ l.buckets
find-allow_at (some b) ip j now l = ground (
  arith,
  find-store ip j (record { count = 1; window_start = now }) l.buckets,
  find-store ip j (record b { count = suc b.count }) l.buckets,
)

-- A request changes the bucket of its own address alone, which starts a window if there was none or
-- it had ended, and counts one more request otherwise.
pub find-allow :
    (ip j : String) (now : ℕ) (l : Limiter)
    → find j (allow ip now l).0.buckets ≡ (
        if str_eq ip j
        then some (next_bucket l.window now (find ip l.buckets))
        else find j l.buckets)
unfolding allow
find-allow ip j now l = find-allow_at (find ip l.buckets) ip j now l

-- A map has one entry for a key.
abbrev pub IsUnique : List (String × Bucket) → Type 0
IsUnique [] = Unit {0}
IsUnique ((j, b) ∷ m) = (find j m ≡ none) × IsUnique m

store-IsUnique :
    (ip : String) (b : Bucket) (m : List (String × Bucket)) → IsUnique m → IsUnique (store ip b m)
unfolding find store
store-IsUnique ip b [] u = (refl, tt)
store-IsUnique ip b ((j, c) ∷ m) u =
    ground (arith, str_eq_iff j ip, str_eq_iff ip j, find-store ip j b m, store-IsUnique ip b m u.1)

-- What is left of an entry after a cleanup.
abbrev pub live_part : ℕ → ℕ → Option Bucket → Option Bucket
live_part window now none = none
live_part window now (some b) = if is_expired window now b then none else some b

find-keep_live :
    (ip : String) (window now : ℕ) (m : List (String × Bucket))
    → IsUnique m
    → find ip (keep_live window now m) ≡ live_part window now (find ip m)
unfolding find keep_live
find-keep_live ip window now [] u = refl
find-keep_live ip window now ((j, b) ∷ m) u =
    ground (arith, str_eq_iff j ip, find-keep_live ip window now m u.1, ap (λ k. find k m))

keep_live-IsUnique :
    (window now : ℕ) (m : List (String × Bucket)) → IsUnique m → IsUnique (keep_live window now m)
unfolding find keep_live
keep_live-IsUnique window now [] u = tt
keep_live-IsUnique window now ((j, b) ∷ m) u =
    ground (arith, find-keep_live j window now m u.1, keep_live-IsUnique window now m u.1)

allow_at-IsUnique :
    (o : Option Bucket) (ip : String) (now : ℕ) (l : Limiter)
    → IsUnique l.buckets
    → IsUnique (allow_at o ip now l).0.buckets
unfolding allow_at
allow_at-IsUnique none ip now l u = store-IsUnique ip _ l.buckets u
allow_at-IsUnique (some b) ip now l u = ground (
  arith,
  store-IsUnique ip (record { count = 1; window_start = now }) l.buckets u,
  store-IsUnique ip (record b { count = suc b.count }) l.buckets u,
)

serve-IsUnique : (l : Limiter) (c : Call) → IsUnique l.buckets → IsUnique (serve l c).buckets
unfolding serve allow cleanup
serve-IsUnique l (asks ip now) u = allow_at-IsUnique (find ip l.buckets) ip now l u
serve-IsUnique l (cleans now) u = keep_live-IsUnique l.window now l.buckets u

forget_expired :
    (o : Option Bucket) (ip : String) (earlier now : ℕ) (l : Limiter)
    → earlier ≤ now
    → ((allow_at (live_part l.window earlier o) ip now (cleanup earlier l)).1
        ≡ (allow_at o ip now l).1)
      × (next_bucket l.window now (live_part l.window earlier o) ≡ next_bucket l.window now o)
unfolding allow_at cleanup
forget_expired none ip earlier now l h = (refl, refl)
forget_expired (some b) ip earlier now l h = ground arith

find-cleanup :
    (ip : String) (now : ℕ) (l : Limiter)
    → IsUnique l.buckets
    → find ip (cleanup now l).buckets ≡ live_part l.window now (find ip l.buckets)
unfolding cleanup
find-cleanup ip now l u = find-keep_live ip l.window now l.buckets u

pub cleanup-limits :
    (now : ℕ) (l : Limiter)
    → ((cleanup now l).window ≡ l.window) × ((cleanup now l).limit ≡ l.limit)
unfolding cleanup
cleanup-limits now l = (refl, refl)

-- In a limiter whose map has one entry for a key, a cleanup is not seen by a later request: the
-- request gets the same answer and leaves the same bucket.
allow-cleanup :
    (ip : String) (earlier now : ℕ) (l : Limiter)
    → IsUnique l.buckets
    → earlier ≤ now
    → ((allow ip now (cleanup earlier l)).1 ≡ (allow ip now l).1)
      × (find ip (allow ip now (cleanup earlier l)).0.buckets ≡ find ip (allow ip now l).0.buckets)
allow-cleanup ip earlier now l u h =
    let same = forget_expired (find ip l.buckets) ip earlier now l h in
    let kept = find-cleanup ip earlier l u in
    (
      unfold allow in rw kept same.0,
      rw
          (
            find-allow ip ip now (cleanup earlier l),
            find-allow ip ip now l,
            (str_eq_iff ip ip).1 refl,
            kept,
            (cleanup-limits earlier l).0,
          )
          (ap some same.1),
    )
