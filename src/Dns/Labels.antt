-- ===== src/Dns/Labels.antt =====
-- internal/shared/netnames/netnames.go: the characters of a label that `NormalizeLabel` gives.
use kindling.Base.{
  ℕ, ◌≡◌, refl, ◌==◌, Bool, true, false, ◌||◌, ◌&&◌, not, [], ◌∷◌, map, Text, is_empty, is_space,
  trim_space, trim_left, trim_right, All, Bool-cases, inl, inr,
}
use kindling.Dns.{Platform, IsPlatform, write_label, trim_hyphens, normalize_label}

trim_left-All : (P : ℕ → Type 0) (q : ℕ → Bool) (t : Text) → All P t → All P (trim_left q t)
unfolding trim_left
trim_left-All P q [] h = tt
trim_left-All P q (c ∷ t) (d, h) = elim (Bool-cases (q c)) [
  | inl e ↦ simp e (trim_left-All P q t h)
  | inr e ↦ simp e (d, h)
]

trim_right-All : (P : ℕ → Type 0) (q : ℕ → Bool) (t : Text) → All P t → All P (trim_right q t)
unfolding trim_right
trim_right-All P q [] h = tt
trim_right-All P q (c ∷ t) (d, h) = elim (Bool-cases (q c && is_empty (trim_right q t))) [
  | inl e ↦ simp e tt
  | inr e ↦ simp e (d, trim_right-All P q t h)
]

module _ (p : Platform) (law : IsPlatform p) where
  -- In lower case, no space and no dot.
  abbrev pub InLabel : ℕ → Type 0
  InLabel c = (p.to_lower c ≡ c) × (is_space c ≡ false) × (c == 46 ≡ false)

  abbrev IsLow : ℕ → Type 0
  IsLow c = p.to_lower c ≡ c

  map-IsLow : (t : Text) → All IsLow (map p.to_lower t)
  map-IsLow [] = tt
  map-IsLow (c ∷ t) = (law.lower_twice c, map-IsLow t)

  hyphen-InLabel : InLabel 45
  unfolding is_space
  hyphen-InLabel = (law.lower_ascii 45 refl, refl, refl)

  write_label-InLabel :
      (begun hyphen : Bool) (t : Text) → All IsLow t → All InLabel (write_label p begun hyphen t)
  unfolding write_label
  write_label-InLabel begun hyphen [] h = tt
  write_label-InLabel begun hyphen (c ∷ t) (d, h) =
      elim (Bool-cases (p.is_letter c || p.is_digit c)) [
        | inl e ↦
            simp e ((d, law.not_space c e, law.not_dot c e), write_label-InLabel true false t h)
        | inr e ↦ elim (Bool-cases (c == 45 || c == 95 || is_space c)) [
          | inr f ↦ simp (e, f) (write_label-InLabel begun hyphen t h)
          | inl f ↦ elim (Bool-cases (not begun || hyphen)) [
            | inl g ↦ simp (e, f, g) (write_label-InLabel begun hyphen t h)
            | inr g ↦ simp (e, f, g) (hyphen-InLabel, write_label-InLabel true true t h)
          ]
        ]
      ]

  pub normalize_label-InLabel : (raw : Text) → All InLabel (normalize_label p raw)
  unfolding normalize_label trim_hyphens trim_space
  normalize_label-InLabel raw = trim_left-All InLabel _ _ (
      trim_right-All InLabel _ _ (
        write_label-InLabel false false _
          (trim_left-All IsLow is_space _ (trim_right-All IsLow is_space _ (map-IsLow raw)))))
