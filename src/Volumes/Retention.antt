-- ===== src/Volumes/Retention.antt =====
-- internal/volumeops/handler.go: the backups that `trimBackups` leaves.
use kindling.Base.{
  false≢true, subst, ◌∙◌, sym, ◌&&◌, not, ap, text_eq_iff, All, min, ℕ, suc, zero, ◌≡◌, refl, Bool,
  true, false, List, [], ◌∷◌, Text, is_empty, trim_space, Bool-cases, inl, inr, arith,
  if◌then◌else◌,
}
use kindling.Volumes.{
  list_backups, Status, pending, running, succeeded, failed, Backup, World, Answers, delete_backup,
}
use kindling.Volumes.Handler.{trim_backups, trim_rows, set_object}

-- How many of the backups succeeded.
abbrev pub count_succeeded : List Backup → ℕ
count_succeeded [] = 0
count_succeeded (b ∷ bs) =
    let n = count_succeeded bs in
    elim b.status [ pending ↦ n | running ↦ n | failed ↦ n | succeeded ↦ suc n ]

-- The backups without those that succeeded past the first `keep` of these.
abbrev pub newest : ℕ → List Backup → List Backup
newest keep [] = []
newest keep (b ∷ bs) = elim b.status [
  | pending ↦ b ∷ newest keep bs
  | running ↦ b ∷ newest keep bs
  | failed ↦ b ∷ newest keep bs
  | succeeded ↦ elim keep [ zero ↦ newest zero bs | suc left ↦ b ∷ newest left bs ]
]

-- What `newest` leaves out.
abbrev pub oldest : ℕ → List Backup → List Backup
oldest keep [] = []
oldest keep (b ∷ bs) = elim b.status [
  | pending ↦ oldest keep bs
  | running ↦ oldest keep bs
  | failed ↦ oldest keep bs
  | succeeded ↦ elim keep [ zero ↦ b ∷ oldest zero bs | suc left ↦ oldest left bs ]
]

count-newest :
    (keep : ℕ) (bs : List Backup) → count_succeeded (newest keep bs) ≡ min keep (count_succeeded bs)
count-newest keep [] = omega arith
count-newest keep (b ∷ bs) = count b.status keep (λ k. count-newest k bs)
  where
    count :
        (s : Status) (k : ℕ)
        → ((k : ℕ) → count_succeeded (newest k bs) ≡ min k (count_succeeded bs))
        → count_succeeded (newest k (record b { status = s } ∷ bs))
          ≡ min k (count_succeeded (record b { status = s } ∷ bs))
    count pending k ih = ih k
    count running k ih = ih k
    count failed k ih = ih k
    count succeeded zero ih = let q = ih 0 in ground arith
    count succeeded (suc n) ih = let q = ih n in ground arith

-- The object of a backup that goes.
abbrev pub IsGone : (Text → Bool) → Backup → Type 0
IsGone objects b =
    is_empty (trim_space b.storage_key) ≡ false → objects (trim_space b.storage_key) ≡ false

abbrev pub IsTrimmed : ℕ → List Backup → (Text → Bool) → List Backup × (Text → Bool) × Bool → Type 0
IsTrimmed keep bs objects (rows, left, ok) =
    ok ≡ true
    → (rows ≡ newest keep bs)
      × All (IsGone left) (oldest keep bs)
      × ((key : Text) → left key ≡ true → objects key ≡ true)

-- An object's removal, where the row has one.
abbrev dropped : Text → (Text → Bool) → Text → Bool
dropped key objects = if is_empty key then objects else set_object key false objects

dropped_less :
    (key k : Text) (objects : Text → Bool) → dropped key objects k ≡ true → objects k ≡ true
dropped_less key k objects h = ground arith

dropped_key :
    (key : Text) (objects : Text → Bool) → is_empty key ≡ false → dropped key objects key ≡ false
dropped_key key objects h = simp (h, (text_eq_iff key key).1 refl) refl

drop_row :
    (a : Answers) (b : Backup) (bs : List Backup) (objects : Text → Bool)
    → (let key = trim_space b.storage_key in
        IsTrimmed 0 bs (dropped key objects) (trim_rows a 0 bs (dropped key objects)))
    → (let key = trim_space b.storage_key in
        IsTrimmed 0
          (record b { status = succeeded } ∷ bs)
          objects
          (trim_rows a 0 bs (dropped key objects)))
drop_row a b bs objects ih ok =
    let key = trim_space b.storage_key in
    let (e, gone, less) = ih ok in
    let gone_b : IsGone (trim_rows a 0 bs (dropped key objects)).1 b = λ full.
      elim (Bool-cases ((trim_rows a 0 bs (dropped key objects)).1 key)) [
        | inl l ↦ absurd (false≢true (sym (dropped_key key objects full) ∙ less key l))
        | inr l ↦ l
      ] in
    (e, (gone_b, gone), λ k q. dropped_less key k objects (less k q))

trim_rows-IsTrimmed :
    (a : Answers) (keep : ℕ) (bs : List Backup) (objects : Text → Bool)
    → IsTrimmed keep bs objects (trim_rows a keep bs objects)
unfolding trim_rows
trim_rows-IsTrimmed a keep [] objects = λ ok. (refl, tt, λ key h. h)
trim_rows-IsTrimmed a keep (b ∷ bs) objects =
    trim b.status keep (λ k objs. trim_rows-IsTrimmed a k bs objs)
  where
    Trims : ℕ → (Text → Bool) → Type 0
    Trims k objs = IsTrimmed k bs objs (trim_rows a k bs objs)

    trim :
        (s : Status) (k : ℕ)
        → ((k : ℕ) (objs : Text → Bool) → Trims k objs)
        → IsTrimmed k
            (record b { status = s } ∷ bs)
            objects
            (trim_rows a k (record b { status = s } ∷ bs) objects)
    trim pending k ih = λ ok.
        let (e, gone, less) = ih k objects ok in
        (ap (λ x. record b { status = pending } ∷ x) e, gone, less)
    trim running k ih = λ ok.
        let (e, gone, less) = ih k objects ok in
        (ap (λ x. record b { status = running } ∷ x) e, gone, less)
    trim failed k ih = λ ok.
        let (e, gone, less) = ih k objects ok in
        (ap (λ x. record b { status = failed } ∷ x) e, gone, less)
    trim succeeded (suc n) ih = λ ok.
        let (e, gone, less) = ih n objects ok in
        (ap (λ x. record b { status = succeeded } ∷ x) e, gone, less)
    trim succeeded zero ih =
        let key = trim_space b.storage_key in
        elim (Bool-cases (not (is_empty key) && not (a.deletes_object key))) [
          | inl h ↦ simp h (λ ok. absurd (false≢true ok))
          | inr h ↦ elim (Bool-cases (a.fails delete_backup)) [
            | inl k ↦ simp (h, k) (λ ok. absurd (false≢true ok))
            | inr k ↦
                subst (λ r. IsTrimmed zero (record b { status = succeeded } ∷ bs) objects r)
                  (sym (simp (h, k) refl)) (drop_row a b bs objects (ih 0 (dropped key objects)))
          ]
        ]

-- With a retention count and without an error, `trimBackups` leaves the backups that are not succeeded
-- and the newest of the succeeded ones, as many as the count at most; the objects of the others are
-- gone, and no object is added.
pub trim_backups_lem :
    (a : Answers) (w : World) (n : ℕ)
    → w.vol.backup_retention_count ≡ suc n
    → (trim_backups a w).1 ≡ true
    → (let w' = (trim_backups a w).0 in
        (w'.backups ≡ newest (suc n) w.backups)
        × (count_succeeded w'.backups ≡ min (suc n) (count_succeeded w.backups))
        × All (IsGone w'.has_object) (oldest (suc n) w.backups)
        × ((key : Text) → w'.has_object key ≡ true → w.has_object key ≡ true))
unfolding trim_backups
trim_backups_lem a w n k ok = elim (Bool-cases (a.fails list_backups)) [
  | inl h ↦ absurd (false≢true (simp (k, h, trim_backups) at ok))
  | inr h ↦
      let r = trim_rows a (suc n) w.backups w.has_object in
      let e : trim_backups a w ≡ (record w { backups = r.0; has_object = r.1 }, r.2) =
        simp (k, h, trim_backups) refl in
      let (same, gone, less) =
        trim_rows-IsTrimmed a (suc n) w.backups w.has_object (sym (ap (λ x. x.1) e) ∙ ok) in
      subst
        (λ x.
          (x.0.backups ≡ newest (suc n) w.backups)
          × (count_succeeded x.0.backups ≡ min (suc n) (count_succeeded w.backups))
          × All (IsGone x.0.has_object) (oldest (suc n) w.backups)
          × ((key : Text) → x.0.has_object key ≡ true → w.has_object key ≡ true))
        (sym e) (same, ap count_succeeded same ∙ count-newest (suc n) w.backups, gone, less)
]
