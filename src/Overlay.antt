-- ===== src/Overlay.antt =====
-- internal/wgmesh/ip.go: the address of a server in the overlay network.
--
-- `sum256` stands for `sha256.Sum256` of the bytes of a server's id, as the big-endian number of its
-- first four bytes (`binary.BigEndian.Uint32`). A byte is a number below 256, and `byte(n)` of a 32-bit
-- number is `n % 256`.
pub mod Addresses
mod Examples
use kindling.Base.{◌^◌, ℕ, ◌+◌, ◌/◌, ◌%◌}

pub record Addr : Type 0 where
  pub first : ℕ
  pub second : ℕ
  pub third : ℕ
  pub fourth : ℕ

pub offset : ℕ → ℕ
offset n = (n % 65_534 + 1) % 2 ^ 32

-- `offset >> 8` is the quotient by 256.
pub overlay_ip : (ℕ → ℕ) → ℕ → Addr
unfolding offset
overlay_ip sum256 id =
    let o = offset (sum256 id) in
    record { first = 10; second = 64; third = o / 256 % 256; fourth = o % 256 }
