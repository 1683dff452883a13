-- ===== src/RateLimit/Window.antt =====
-- internal/ratelimit/ratelimit.go: how many requests a window admits.
use kindling.Base.{
  Option, max, none, ap, ℤ, refl, sym, subst, ◌-◌, pos_part, min, Bool-cases, str_eq_iff, inl, inr,
  ◌∙◌, true, false, suc, pos, ltb_ℤ, All, ℕ, ◌+◌, ◌<◌, ◌≡◌, some, List, [], ◌∷◌, String, str_eq,
  arith, if◌then◌else◌,
}
use kindling.RateLimit.Buckets.{cleanup-limits, live_part, next_bucket, find-allow, allow-limits}
use kindling.RateLimit.{
  cleanup, allow_at, Limiter, allow, count_allowed, Bucket, Call, asks, cleans, find, keep_live,
}

-- How many of the calls are requests from `ip`.
abbrev pub count_asked : String → List Call → ℕ
count_asked ip [] = 0
count_asked ip (asks j now ∷ cs) = (if str_eq j ip then 1 else 0) + count_asked ip cs
count_asked ip (cleans now ∷ cs) = count_asked ip cs

-- The call comes before the time.
abbrev pub IsBefore : ℕ → Call → Type 0
IsBefore end (asks j now) = now < end
IsBefore end (cleans now) = now < end

find-keep_live-some :
    (ip : String) (window now : ℕ) (b : Bucket) (m : List (String × Bucket))
    → now < b.window_start + window
    → find ip m ≡ some b
    → find ip (keep_live window now m) ≡ some b
unfolding find keep_live
find-keep_live-some ip window now b [] h e = cc
find-keep_live-some ip window now b ((j, c) ∷ m) h e =
    ground (arith, find-keep_live-some ip window now b m h)

allow-allowed :
    (ip : String) (now : ℕ) (l : Limiter) (b : Bucket)
    → find ip l.buckets ≡ some b
    → now < b.window_start + l.window
    → (allow ip now l).1.allowed ≡ (if ltb_ℤ l.limit (pos (suc b.count)) then false else true)
unfolding allow
allow-allowed ip now l b e h = rw e (unfold allow allow_at in ground arith)

find-allow_live :
    (ip : String) (now : ℕ) (l : Limiter) (b : Bucket)
    → find ip l.buckets ≡ some b
    → now < b.window_start + l.window
    → find ip (allow ip now l).0.buckets ≡ some (record b { count = suc b.count })
find-allow_live ip now l b e h =
    rw (find-allow ip ip now l, (str_eq_iff ip ip).1 refl, e) (ground arith)

find-allow_ne :
    (ip j : String) (now : ℕ) (l : Limiter)
    → str_eq j ip ≡ false
    → find ip (allow j now l).0.buckets ≡ find ip l.buckets
find-allow_ne ip j now l n = rw (find-allow j ip now l, n)

find-cleanup_live :
    (ip : String) (now : ℕ) (l : Limiter) (b : Bucket)
    → now < b.window_start + l.window
    → find ip l.buckets ≡ some b
    → find ip (cleanup now l).buckets ≡ some b
unfolding cleanup
find-cleanup_live ip now l b h e = find-keep_live-some ip l.window now b l.buckets h e

first_fits :
    (limit : ℤ) (c n : ℕ)
    → (if (if ltb_ℤ limit (pos (suc c)) then false else true) then 1 else 0)
        + min n (pos_part limit - suc c)
      ≡ min (1 + n) (pos_part limit - c)
first_fits limit c n = ground arith

-- In the window that a bucket has opened, exactly the first requests of its address are allowed, up
-- to what the limit leaves after those that the bucket has counted, whatever other addresses ask
-- and however often the cleanup runs.
pub count_allowed-window :
    (ip : String) (l : Limiter) (cs : List Call) (b : Bucket)
    → find ip l.buckets ≡ some b
    → All (IsBefore (b.window_start + l.window)) cs
    → count_allowed ip l cs ≡ min (count_asked ip cs) (pos_part l.limit - b.count)
unfolding count_allowed
count_allowed-window ip l [] b e a = omega arith
count_allowed-window ip l (cleans now ∷ cs) b e a =
    let same = cleanup-limits now l in
    let later = subst (λ w. All (IsBefore (b.window_start + w)) cs) (sym same.0) a.1 in
    let kept = find-cleanup_live ip now l b a.0 e in
    omega (arith, count_allowed-window ip (cleanup now l) cs b kept later, ap pos_part same.1)
count_allowed-window ip l (asks j now ∷ cs) b e a =
    let same = allow-limits j now l in
    let later = subst (λ w. All (IsBefore (b.window_start + w)) cs) (sym same.0) a.1 in
    elim (Bool-cases (str_eq j ip)) [
      | inr other ↦
          let rest =
            count_allowed-window ip (allow j now l).0 cs b (find-allow_ne ip j now l other ∙ e)
              later in
          rw other (omega (arith, rest, ap pos_part same.1))
      | inl own ↦
          let of_j = subst (λ k. find k l.buckets ≡ some b) (sym ((str_eq_iff j ip).0 own)) e in
          let moved =
            subst (λ k. find k (allow j now l).0.buckets ≡ some (record b { count = suc b.count }))
              ((str_eq_iff j ip).0 own) (find-allow_live j now l b of_j a.0) in
          let rest =
            count_allowed-window ip (allow j now l).0 cs (record b { count = suc b.count }) moved
              later in
          rw (own, rest, same.1, allow-allowed j now l b of_j a.0) (first_fits l.limit b.count _)
    ]

opens_window :
    (o : Option Bucket) (ip : String) (now : ℕ) (l : Limiter)
    → live_part l.window now o ≡ none
    → (next_bucket l.window now o ≡ record { count = 1; window_start = now })
      × ((allow_at o ip now l).1.allowed ≡ true)
unfolding allow_at
opens_window none ip now l h = (refl, refl)
opens_window (some b) ip now l h = ground arith

allow-opens :
    (ip : String) (now : ℕ) (l : Limiter)
    → live_part l.window now (find ip l.buckets) ≡ none
    → (allow ip now l).1.allowed ≡ true
unfolding allow
allow-opens ip now l h = (opens_window (find ip l.buckets) ip now l h).1

-- When an address has no bucket, or one whose window has ended, its next request opens a window, in
-- which as many of its requests are allowed as are made, up to the limit, or up to one if the limit
-- is less than one.
count_allowed-fresh :
    (ip : String) (now : ℕ) (l : Limiter) (cs : List Call)
    → live_part l.window now (find ip l.buckets) ≡ none
    → All (IsBefore (now + l.window)) cs
    → count_allowed ip l (asks ip now ∷ cs) ≡ min (1 + count_asked ip cs) (max 1 (pos_part l.limit))
unfolding count_allowed
count_allowed-fresh ip now l cs e a =
    let same = allow-limits ip now l in
    let own = (str_eq_iff ip ip).1 refl in
    let opened = (opens_window (find ip l.buckets) ip now l e).0 in
    let moved = rw own at (find-allow ip ip now l) ∙ ap some opened in
    let rest =
      count_allowed-window ip (allow ip now l).0 cs (record { count = 1; window_start = now }) moved
        (subst (λ w. All (IsBefore (now + w)) cs) (sym same.0) a) in
    rw (own, allow-opens ip now l e) (omega (arith, rest, ap pos_part same.1))
