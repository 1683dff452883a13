-- ===== src/Base/Dict.antt =====
-- A map with a default, as a function with an update.
use Prim.Native.Nat.{ℕ}
use kindling.Base.Tests.{◌==◌, if◌then◌else◌}

module _ {ℓ} {V : Type ℓ} where
  abbrev pub put : ℕ → V → (ℕ → V) → ℕ → V
  put k v m j = if k == j then v else m j
