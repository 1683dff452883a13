-- ===== src/Overlay/Addresses.antt =====
-- internal/wgmesh/ip.go: the addresses that servers get.
use kindling.Base.{ℕ, ◌+◌, ◌*◌, ◌/◌, ◌%◌, ◌≤◌, ◌<◌, ◌≡◌, ◌↔◌, refl, ap, arith}
use kindling.Overlay.{Addr, offset, overlay_ip}

-- The place of an address in its network of 65,536.
abbrev pub host_number : Addr → ℕ
host_number a = a.third * 256 + a.fourth

offset_bounds : (n : ℕ) → (1 ≤ offset n) × (offset n ≤ 65_534) × (offset n ≡ n % 65_534 + 1)
unfolding offset
offset_bounds n = omega arith

bytes_lem : (o : ℕ) → o < 65_536 → (o / 256 % 256) * 256 + o % 256 ≡ o
bytes_lem o h = omega arith

-- Every server has an address in 10.64.0.0/16, whose last two bytes are bytes, and which is neither
-- the first nor the last of the network; two servers have the same address exactly when their hashes
-- agree modulo 65,534.
pub overlay_ip_lem :
    (sum256 : ℕ → ℕ) (id other : ℕ)
    → let a = overlay_ip sum256 id in
      (a.first ≡ 10)
      × (a.second ≡ 64)
      × (a.third < 256)
      × (a.fourth < 256)
      × (1 ≤ host_number a)
      × (host_number a ≤ 65_534)
      × ((a ≡ overlay_ip sum256 other) ↔ (sum256 id % 65_534 ≡ sum256 other % 65_534))
unfolding overlay_ip
overlay_ip_lem sum256 id other =
    let b = offset_bounds (sum256 id) in
    let c = offset_bounds (sum256 other) in
    let p = bytes_lem (offset (sum256 id)) (omega arith) in
    let q = bytes_lem (offset (sum256 other)) (omega arith) in
    let apart : overlay_ip sum256 id ≡ overlay_ip sum256 other
        → sum256 id % 65_534 ≡ sum256 other % 65_534 =
      λ e. let h = ap host_number e in omega arith in
    let joined : sum256 id % 65_534 ≡ sum256 other % 65_534
        → overlay_ip sum256 id ≡ overlay_ip sum256 other =
      λ e.
        let same : offset (sum256 id) ≡ offset (sum256 other) = omega arith in
        ap (λ o. record { first = 10; second = 64; third = o / 256 % 256; fourth = o % 256 })
          same in
    (refl, refl, omega arith, omega arith, omega arith, omega arith, (apart, joined))
