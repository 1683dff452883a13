-- ===== src/Preview/Naming.antt =====
-- internal/preview/naming.go: labels from the names of projects and services.
use kindling.Base.{
  zero, ◌%◌, ◌+◌, ◌/◌, suc, ℕ, Bool, true, false, ◌&&◌, ◌||◌, ◌==◌, leb, ltb, List, [], ◌∷◌, ◌++◌,
  map, length, Text, codes, is_empty, trim_left, trim_right, trim_space, if◌then◌else◌,
}

-- `[a-z0-9-]`.
abbrev pub is_slug : ℕ → Bool
is_slug c = (leb 97 c && leb c 122) || (leb 48 c && leb c 57) || c == 45

abbrev pub is_dash : ℕ → Bool
is_dash c = c == 45

abbrev pub is_dot : ℕ → Bool
is_dot c = c == 46

-- `nonSlug.ReplaceAllString(s, "-")`: one dash for each run, `inside` being whether a run has begun.
unfoldable pub replace_runs : Bool → Text → Text
replace_runs inside [] = []
replace_runs inside (c ∷ s) = elim (is_slug c) [
  | true ↦ c ∷ replace_runs false s
  | false ↦ elim inside [ true ↦ replace_runs true s | false ↦ 45 ∷ replace_runs true s ]
]

abbrev pub take {ℓ} : {A : Type ℓ} → ℕ → List A → List A
take zero xs = []
take (suc n) [] = []
take (suc n) (x ∷ xs) = x ∷ take n xs

-- `strings.Trim` with one character.
unfoldable pub trim : (ℕ → Bool) → Text → Text
unfolding trim_left trim_right
trim p s = trim_left p (trim_right p s)

-- The end of `SlugProjectName`, once the name has been cleaned.
unfoldable pub cut : Text → Text
unfolding trim_right
cut s =
    if is_empty s
    then codes "app"
    else if ltb 40 (length s)
    then trim_right is_dash (take 40 s)
    else s

-- `%d`, a digit for each step; a number `n` has at most `n + 1` digits.
abbrev pub digits : ℕ → ℕ → Text
digits zero n = []
digits (suc fuel) n =
    let front = digits fuel (n / 10) in
    if ltb n 10 then (48 + n) ∷ [] else front ++ (48 + n % 10) ∷ []

unfoldable pub decimal : ℕ → Text
decimal n = digits (suc n) n

module _ (to_lower : ℕ → ℕ) where
  unfoldable pub slug_project_name : Text → Text
  unfolding trim_space replace_runs trim cut
  slug_project_name name = cut (trim is_dash (replace_runs false (map to_lower (trim_space name))))

  abbrev pub slug_service_name : Text → Text
  slug_service_name name = slug_project_name name

  unfoldable pub production_service_hostname : Text → Text → Text → Text
  unfolding slug_project_name trim
  production_service_hostname service_name project_name base_domain =
      let base = trim is_dot (map to_lower base_domain) in
      if is_empty base
      then []
      else slug_service_name service_name
        ++ codes "-"
        ++ slug_project_name project_name
        ++ codes "."
        ++ base

  unfoldable pub stable_hostname : ℕ → Text → Text → Text → Text
  unfolding slug_project_name trim decimal
  stable_hostname pr_number service_name project_name base_domain =
      let base = trim is_dot (map to_lower base_domain) in
      if is_empty base
      then []
      else codes "pr-"
        ++ decimal pr_number
        ++ codes "-"
        ++ slug_service_name service_name
        ++ codes "-"
        ++ slug_project_name project_name
        ++ codes "."
        ++ base

  -- The commit's first seven characters; a commit is written in ASCII.
  abbrev pub short_sha_label : Text → Text
  short_sha_label sh =
      let kept = if ltb 7 (length sh) then take 7 sh else sh in
      if is_empty kept then codes "unknown" else kept

  unfoldable pub immutable_hostname : Text → ℕ → Text → Text → Text → Text
  unfolding slug_project_name trim decimal trim_space
  immutable_hostname short_sha pr_number service_name project_name base_domain =
      let base = trim is_dot (map to_lower base_domain) in
      if is_empty base
      then []
      else short_sha_label (map to_lower (trim_space short_sha))
        ++ codes "-pr"
        ++ decimal pr_number
        ++ codes "-"
        ++ slug_service_name service_name
        ++ codes "-"
        ++ slug_project_name project_name
        ++ codes "."
        ++ base
