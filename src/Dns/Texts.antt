-- ===== src/Dns/Texts.antt =====
-- Joining and splitting at dots, trimming and testing the ends of texts.
use kindling.Base.{
  ℕ, ◌≡◌, refl, ap, ◌∙◌, ◌==◌, true, false, List, [], ◌∷◌, ◌++◌, Text, is_space, trim_space,
  trim_left, trim_right, All, arith,
}
use kindling.Dns.{join, split, has_suffix, strip_dot, ends_in_dot}

abbrev pub NoDot : Text → Type 0
NoDot t = All (λ c. (c == 46 ≡ false)) t

abbrev pub NoSpace : Text → Type 0
NoSpace t = All (λ c. (is_space c ≡ false)) t

All-append : (P : ℕ → Type 0) (s t : Text) → All P s → All P t → All P (s ++ t)
All-append P [] t h k = k
All-append P (c ∷ s) t (p, h) k = (p, All-append P s t h k)

pub All-join : (P : ℕ → Type 0) (ts : List Text) → P 46 → All (λ t. All P t) ts → All P (join ts)
unfolding join
All-join P [] dot h = tt
All-join P (t ∷ []) dot (h, _) = h
All-join P (t ∷ t' ∷ ts) dot (h, k) =
    All-append P t (46 ∷ join (t' ∷ ts)) h (dot, All-join P (t' ∷ ts) dot k)

split_last : (t : Text) → NoDot t → split t ≡ t ∷ []
unfolding split
split_last [] h = refl
split_last (c ∷ t) (d, h) = let e = split_last t h in simp (d, e) refl

split_first : (t s : Text) → NoDot t → split (t ++ 46 ∷ s) ≡ t ∷ split s
unfolding split
split_first [] s h = refl
split_first (c ∷ t) s (d, h) = let e = split_first t s h in simp (d, e) refl

-- Splitting gives back what was joined.
pub split-join : (t : Text) (ts : List Text) → All NoDot (t ∷ ts) → split (join (t ∷ ts)) ≡ t ∷ ts
unfolding join
split-join t [] (h, _) = split_last t h
split-join t (t' ∷ ts) (h, k) =
    split_first t (join (t' ∷ ts)) h ∙ ap (λ r. t ∷ r) (split-join t' ts k)

trim_right_lem : (t : Text) → NoSpace t → trim_right is_space t ≡ t
unfolding trim_right
trim_right_lem [] h = refl
trim_right_lem (c ∷ t) (d, h) = let e = trim_right_lem t h in simp (d, e) refl

trim_left_lem : (t : Text) → NoSpace t → trim_left is_space t ≡ t
unfolding trim_left
trim_left_lem [] h = refl
trim_left_lem (c ∷ t) (d, h) = simp d refl

pub trim_space_lem : (t : Text) → NoSpace t → trim_space t ≡ t
unfolding trim_space
trim_space_lem t h = ap (trim_left is_space) (trim_right_lem t h) ∙ trim_left_lem t h

pub strip_dot-append : (t : Text) → strip_dot (t ++ 46 ∷ []) ≡ t
unfolding strip_dot
strip_dot-append [] = refl
strip_dot-append (c ∷ []) = refl
strip_dot-append (c ∷ d ∷ t) = ap (λ s. c ∷ s) (strip_dot-append (d ∷ t))

pub ends_in_dot-append :
    (s : Text) (c : ℕ) (t : Text) → ends_in_dot (s ++ c ∷ t) ≡ ends_in_dot (c ∷ t)
unfolding ends_in_dot
ends_in_dot-append [] c t = refl
ends_in_dot-append (a ∷ []) c t = refl
ends_in_dot-append (a ∷ b ∷ s) c t = ends_in_dot-append (b ∷ s) c t

-- A label before a dot leaves the end as it is.
pub has_suffix-dot :
    (end s rest : Text)
    → has_suffix end (rest ++ 46 ∷ []) ≡ true
    → has_suffix end ((s ++ 46 ∷ rest) ++ 46 ∷ []) ≡ true
unfolding has_suffix
has_suffix-dot end [] rest h = ground arith
has_suffix-dot end (c ∷ s) rest h = let e = has_suffix-dot end s rest h in ground arith
