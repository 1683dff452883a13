-- ===== src/Preview/Slugs.antt =====
-- internal/preview/naming.go: the labels that `SlugProjectName` makes.
use kindling.Base.{
  zero, inr, suc, ◌≤◌, inl, ℕ, Bool, true, false, ◌&&◌, ltb, [], ◌∷◌, map, length, Text, is_empty,
  trim_left, trim_right, trim_space, if◌then◌else◌, ◌≡◌, ◌∙◌, ap, arith, Bool-cases, is_space, refl,
}
use kindling.Preview.Naming.{is_slug, is_dash, replace_runs, take, trim, cut, slug_project_name}

abbrev all : (ℕ → Bool) → Text → Bool
all p [] = true
all p (c ∷ s) = p c && all p s

abbrev first_is : (ℕ → Bool) → Text → Bool
first_is p [] = false
first_is p (c ∷ s) = p c

abbrev last_is : (ℕ → Bool) → Text → Bool
last_is p [] = false
last_is p (c ∷ s) = if is_empty s then p c else last_is p s

-- Every character is a letter, a digit or a dash, the first and the last are no dash, and there are one
-- to forty of them.
abbrev pub IsLabel : Text → Type 0
IsLabel s =
    (all is_slug s ≡ true)
    × (first_is is_dash s ≡ false)
    × (last_is is_dash s ≡ false)
    × (is_empty s ≡ false)
    × (ltb 40 (length s) ≡ false)

replace_runs-slug : (inside : Bool) (s : Text) → all is_slug (replace_runs inside s) ≡ true
unfolding replace_runs
replace_runs-slug inside [] = refl
replace_runs-slug true (c ∷ s) = elim (Bool-cases (is_slug c)) [
  | inl h ↦ simp (h, replace_runs, replace_runs-slug false s) refl
  | inr h ↦ simp (h, replace_runs) (replace_runs-slug true s)
]
replace_runs-slug false (c ∷ s) = elim (Bool-cases (is_slug c)) [
  | inl h ↦ simp (h, replace_runs, replace_runs-slug false s) refl
  | inr h ↦ simp (h, replace_runs) (replace_runs-slug true s)
]

all-tail : (q : ℕ → Bool) (c : ℕ) (s : Text) → all q (c ∷ s) ≡ true → all q s ≡ true
all-tail q c s h = ground arith

all-head : (q : ℕ → Bool) (c : ℕ) (s : Text) → all q (c ∷ s) ≡ true → q c ≡ true
all-head q c s h = ground arith

all-∷ :
    (q : ℕ → Bool) (c : ℕ) (s t : Text)
    → all q (c ∷ s) ≡ true
    → all q t ≡ true
    → all q (c ∷ t) ≡ true
all-∷ q c s t h k = ground arith

all-trim_left : (p q : ℕ → Bool) (s : Text) → all q s ≡ true → all q (trim_left p s) ≡ true
unfolding trim_left
all-trim_left p q [] h = refl
all-trim_left p q (c ∷ s) h = elim (Bool-cases (p c)) [
  | inl k ↦ simp k (all-trim_left p q s (all-tail q c s h))
  | inr k ↦ simp k h
]

all-trim_right : (p q : ℕ → Bool) (s : Text) → all q s ≡ true → all q (trim_right p s) ≡ true
unfolding trim_right
all-trim_right p q [] h = refl
all-trim_right p q (c ∷ s) h = elim (Bool-cases (p c && is_empty (trim_right p s))) [
  | inl k ↦ simp k refl
  | inr k ↦ simp k (all-∷ q c s (trim_right p s) h (all-trim_right p q s (all-tail q c s h)))
]

all-take : (q : ℕ → Bool) (n : ℕ) (s : Text) → all q s ≡ true → all q (take n s) ≡ true
all-take q zero s h = refl
all-take q (suc n) [] h = refl
all-take q (suc n) (c ∷ s) h = all-∷ q c s (take n s) h (all-take q n s (all-tail q c s h))

first_is-trim_left : (p : ℕ → Bool) (s : Text) → first_is p (trim_left p s) ≡ false
unfolding trim_left
first_is-trim_left p [] = refl
first_is-trim_left p (c ∷ s) = elim (Bool-cases (p c)) [
  | inl k ↦ rw k (first_is-trim_left p s)
  | inr k ↦ rw k k
]

first_is-trim_right :
    (p : ℕ → Bool) (s : Text) → first_is p s ≡ false → first_is p (trim_right p s) ≡ false
unfolding trim_right
first_is-trim_right p [] h = refl
first_is-trim_right p (c ∷ s) h = rw h h

is_empty-trim_right :
    (p : ℕ → Bool) (s : Text) → first_is p s ≡ false → is_empty (trim_right p s) ≡ is_empty s
unfolding trim_right
is_empty-trim_right p [] h = refl
is_empty-trim_right p (c ∷ s) h = rw h refl

last_is-trim_right : (p : ℕ → Bool) (s : Text) → last_is p (trim_right p s) ≡ false
unfolding trim_right
last_is-trim_right p [] = refl
last_is-trim_right p (c ∷ s) = elim (Bool-cases (is_empty (trim_right p s))) [
  | inl k ↦ elim (Bool-cases (p c)) [ inl d ↦ simp (k, d) refl | inr d ↦ simp (k, d) refl ]
  | inr k ↦ elim (Bool-cases (p c)) [
    | inl d ↦ simp (k, d) (last_is-trim_right p s)
    | inr d ↦ simp (k, d) (last_is-trim_right p s)
  ]
]

last_is-tail : (p : ℕ → Bool) (c : ℕ) (s : Text) → last_is p (c ∷ s) ≡ false → last_is p s ≡ false
last_is-tail p c [] h = refl
last_is-tail p c (d ∷ s) h = h

last_is-trim_left :
    (p q : ℕ → Bool) (s : Text) → last_is q s ≡ false → last_is q (trim_left p s) ≡ false
unfolding trim_left
last_is-trim_left p q [] h = refl
last_is-trim_left p q (c ∷ s) h = elim (Bool-cases (p c)) [
  | inl k ↦ rw k (last_is-trim_left p q s (last_is-tail q c s h))
  | inr k ↦ rw k h
]

first_is-take :
    (p : ℕ → Bool) (n : ℕ) (s : Text) → first_is p s ≡ false → first_is p (take n s) ≡ false
first_is-take p zero s h = refl
first_is-take p (suc n) [] h = refl
first_is-take p (suc n) (c ∷ s) h = h

length-take : (n : ℕ) (s : Text) → length (take n s) ≤ n
length-take zero s = omega arith
length-take (suc n) [] = omega arith
length-take (suc n) (c ∷ s) = omega (arith, length-take n s)

length-trim_right : (p : ℕ → Bool) (s : Text) → length (trim_right p s) ≤ length s
unfolding trim_right
length-trim_right p [] = omega arith
length-trim_right p (c ∷ s) = elim (Bool-cases (p c && is_empty (trim_right p s))) [
  | inl k ↦ rw k (omega arith)
  | inr k ↦ rw k (omega (arith, length-trim_right p s))
]

-- The characters of a label.
is_slug-is_space : (c : ℕ) → is_slug c ≡ true → is_space c ≡ false
unfolding is_space
is_slug-is_space c h = ground arith

trim_left_self : (p : ℕ → Bool) (s : Text) → first_is p s ≡ false → trim_left p s ≡ s
unfolding trim_left
trim_left_self p [] h = refl
trim_left_self p (c ∷ s) h = simp h refl

trim_right_self : (p : ℕ → Bool) (s : Text) → last_is p s ≡ false → trim_right p s ≡ s
unfolding trim_right
trim_right_self p [] h = refl
trim_right_self p (c ∷ []) h = simp h refl
trim_right_self p (c ∷ d ∷ s) h = elim (Bool-cases (p c)) [
  | inl k ↦ simp (trim_right_self p (d ∷ s) h, k) refl
  | inr k ↦ simp (trim_right_self p (d ∷ s) h, k) refl
]

replace_runs_self : (s : Text) → all is_slug s ≡ true → replace_runs false s ≡ s
unfolding replace_runs
replace_runs_self [] h = refl
replace_runs_self (c ∷ s) h =
    simp (all-head is_slug c s h, replace_runs, replace_runs_self s (all-tail is_slug c s h)) refl

map_self :
    (to_lower : ℕ → ℕ) (s : Text)
    → ((c : ℕ) → is_slug c ≡ true → to_lower c ≡ c)
    → all is_slug s ≡ true
    → map to_lower s ≡ s
map_self to_lower [] fixes h = refl
map_self to_lower (c ∷ s) fixes h =
    simp (fixes c (all-head is_slug c s h), map_self to_lower s fixes (all-tail is_slug c s h)) refl

first_is-space : (s : Text) → all is_slug s ≡ true → first_is is_space s ≡ false
first_is-space [] h = refl
first_is-space (c ∷ s) h = is_slug-is_space c (all-head is_slug c s h)

last_is-space : (s : Text) → all is_slug s ≡ true → last_is is_space s ≡ false
last_is-space [] h = refl
last_is-space (c ∷ []) h = is_slug-is_space c (all-head is_slug c [] h)
last_is-space (c ∷ d ∷ s) h = last_is-space (d ∷ s) (all-tail is_slug c (d ∷ s) h)

trim-first : (p : ℕ → Bool) (s : Text) → first_is p (trim p s) ≡ false
unfolding trim
trim-first p s = first_is-trim_left p (trim_right p s)

trim-last : (p : ℕ → Bool) (s : Text) → last_is p (trim p s) ≡ false
unfolding trim
trim-last p s = last_is-trim_left p p (trim_right p s) (last_is-trim_right p s)

trim-all : (p q : ℕ → Bool) (s : Text) → all q s ≡ true → all q (trim p s) ≡ true
unfolding trim
trim-all p q s h = all-trim_left p q (trim_right p s) (all-trim_right p q s h)

-- The first forty characters, without the dashes at their end.
shorten-IsLabel :
    (s : Text)
    → all is_slug s ≡ true
    → first_is is_dash s ≡ false
    → is_empty s ≡ false
    → IsLabel (trim_right is_dash (take 40 s))
shorten-IsLabel s a f n =
    let head = first_is-take is_dash 40 s f in
    (
      all-trim_right is_dash is_slug (take 40 s) (all-take is_slug 40 s a),
      first_is-trim_right is_dash (take 40 s) head,
      last_is-trim_right is_dash (take 40 s),
      is_empty-trim_right is_dash (take 40 s) head ∙ kept s n,
      grind (arith, length-trim_right is_dash (take 40 s), length-take 40 s),
    )
  where
    kept : (s : Text) → is_empty s ≡ false → is_empty (take 40 s) ≡ false
    kept [] n = n
    kept (c ∷ s) n = n

cut-IsLabel :
    (s : Text)
    → all is_slug s ≡ true
    → first_is is_dash s ≡ false
    → last_is is_dash s ≡ false
    → IsLabel (cut s)
unfolding cut
cut-IsLabel s a f l = elim (Bool-cases (is_empty s)) [
  | inl e ↦ simp e (refl, refl, refl, refl, refl)
  | inr n ↦ elim (Bool-cases (ltb 40 (length s))) [
    | inl k ↦ simp (n, k) (shorten-IsLabel s a f n)
    | inr k ↦ simp (n, k) (a, f, l, refl, refl)
  ]
]

slug_project_name-IsLabel :
    (to_lower : ℕ → ℕ) (name : Text) → IsLabel (slug_project_name to_lower name)
unfolding slug_project_name
slug_project_name-IsLabel to_lower name =
    let s = replace_runs false (map to_lower (trim_space name)) in
    cut-IsLabel (trim is_dash s)
      (trim-all is_dash is_slug s (replace_runs-slug false (map to_lower (trim_space name))))
      (trim-first is_dash s) (trim-last is_dash s)

trim_self : (p : ℕ → Bool) (s : Text) → first_is p s ≡ false → last_is p s ≡ false → trim p s ≡ s
unfolding trim
trim_self p s f l = ap (trim_left p) (trim_right_self p s l) ∙ trim_left_self p s f

trim_space_self : (s : Text) → all is_slug s ≡ true → trim_space s ≡ s
unfolding trim_space
trim_space_self s a =
    ap (trim_left is_space) (trim_right_self is_space s (last_is-space s a))
    ∙ trim_left_self is_space s (first_is-space s a)

cut_self : (s : Text) → is_empty s ≡ false → ltb 40 (length s) ≡ false → cut s ≡ s
unfolding cut
cut_self s n k = simp (n, k) refl

-- A label is left as it is.
slug_project_name_self :
    (to_lower : ℕ → ℕ) (s : Text)
    → ((c : ℕ) → is_slug c ≡ true → to_lower c ≡ c)
    → IsLabel s
    → slug_project_name to_lower s ≡ s
unfolding slug_project_name
slug_project_name_self to_lower s fixes (a, f, l, n, k) =
    ap (λ t. cut (trim is_dash (replace_runs false (map to_lower t)))) (trim_space_self s a)
    ∙ ap (λ t. cut (trim is_dash (replace_runs false t))) (map_self to_lower s fixes a)
    ∙ ap (λ t. cut (trim is_dash t)) (replace_runs_self s a)
    ∙ ap cut (trim_self is_dash s f l)
    ∙ cut_self s n k

-- Where lower case leaves the characters of a slug alone: the slug of every name consists of one to forty
-- letters, digits and dashes, of which the first and the last are no dash, and the slug of a slug is
-- itself.
pub slug_project_name-slug :
    (to_lower : ℕ → ℕ) (name : Text)
    → ((c : ℕ) → is_slug c ≡ true → to_lower c ≡ c)
    → IsLabel (slug_project_name to_lower name)
      × (slug_project_name to_lower (slug_project_name to_lower name)
          ≡ slug_project_name to_lower name)
slug_project_name-slug to_lower name fixes =
    let label = slug_project_name-IsLabel to_lower name in
    (label, slug_project_name_self to_lower (slug_project_name to_lower name) fixes label)
