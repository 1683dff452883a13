-- ===== src/Migration/Checks.antt =====
-- internal/migrationreconcile/reconcile.go: the worker of a destination that may receive.
use kindling.Base.{
  ◌≡◌, ◌≢◌, refl, sym, false≢true, Bool, true, false, not, ◌&&◌, none, some, [], ◌∷◌, Text, text_eq,
  text_eq_iff, codes, is_empty, Bool-cases, inl, inr, ◌⊎◌, arith,
}
use kindling.Migration.{FailureCode}
use kindling.Migration.Handler.{WorkerMetadata, refuses}

-- A worker that runs the hypervisor with live migration and shared storage, with the version of the
-- source where both versions are known.
pub record Accepts (version : Text) (worker : WorkerMetadata) : Type 0 where
  pub runtime : worker.runtime ≡ codes "cloud-hypervisor"
  pub live : worker.live_migration_enabled ≡ true
  pub storage : worker.shared_rootfs_dir ≢ []
  pub versions :
      (version ≡ [])
      ⊎ (worker.cloud_hypervisor_version ≡ [])
      ⊎ (version ≡ worker.cloud_hypervisor_version)

empty : (s : Text) → is_empty s ≡ true → s ≡ []
empty [] h = refl
empty (a ∷ s) h = absurd (false≢true h)

not_empty : (s : Text) → is_empty s ≡ false → s ≢ []
not_empty [] h = absurd (false≢true (sym h))
not_empty (a ∷ s) h = λ e. cc

empty-not : (s : Text) → s ≢ [] → is_empty s ≡ false
empty-not [] h = absurd (h refl)
empty-not (a ∷ s) h = refl

-- Whether the versions are known and differ.
abbrev mismatch : Text → Text → Bool
mismatch s t = not (is_empty s) && not (is_empty t) && not (text_eq s t)

match : (s t : Text) → mismatch s t ≡ false → (s ≡ []) ⊎ (t ≡ []) ⊎ (s ≡ t)
match s t h = elim (Bool-cases (is_empty s)) [
  | inl a ↦ inl (empty s a)
  | inr a ↦ elim (Bool-cases (is_empty t)) [
    | inl b ↦ inr (inl (empty t b))
    | inr b ↦ inr (inr ((text_eq_iff s t).0 (grind arith)))
  ]
]

matched : (s t : Text) → (s ≡ []) ⊎ (t ≡ []) ⊎ (s ≡ t) → mismatch s t ≡ false
matched s t (inl e) = rw e refl
matched s t (inr (inl e)) = rw e (ground arith)
matched s t (inr (inr e)) = let k = (text_eq_iff s t).1 e in rw k (ground arith)

some_not_none : (code : FailureCode) → some code ≢ none
some_not_none code e = cc

pub refuses-Accepts :
    (version : Text) (worker : WorkerMetadata)
    → refuses version worker ≡ none
    → Accepts version worker
unfolding refuses
refuses-Accepts version worker h =
    elim (Bool-cases (text_eq worker.runtime (codes "cloud-hypervisor"))) [
      | inr k ↦ absurd (some_not_none _ (simp k at h))
      | inl k ↦ elim (Bool-cases worker.live_migration_enabled) [
        | inr l ↦ absurd (some_not_none _ (simp (k, l) at h))
        | inl l ↦ elim (Bool-cases (is_empty worker.shared_rootfs_dir)) [
          | inl m ↦ absurd (some_not_none _ (simp (k, l, m) at h))
          | inr m ↦ elim (Bool-cases (mismatch version worker.cloud_hypervisor_version)) [
            | inl n ↦ absurd (some_not_none _ (simp (k, l, m, n) at h))
            | inr n ↦ record {
              runtime = (text_eq_iff worker.runtime (codes "cloud-hypervisor")).0 k;
              live = l;
              storage = not_empty worker.shared_rootfs_dir m;
              versions = match version worker.cloud_hypervisor_version n;
            }
          ]
        ]
      ]
    ]

pub Accepts-refuses :
    (version : Text) (worker : WorkerMetadata)
    → Accepts version worker
    → refuses version worker ≡ none
unfolding refuses
Accepts-refuses version worker a =
    simp
      (
        (text_eq_iff worker.runtime (codes "cloud-hypervisor")).1 a.runtime,
        a.live,
        empty-not worker.shared_rootfs_dir a.storage,
        matched version worker.cloud_hypervisor_version a.versions,
      )
      refl
