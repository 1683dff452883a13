-- ===== src/Overlay/Examples.antt =====
-- internal/wgmesh/ip.go: two servers, with a hash that is the id.
use kindling.Base.{◌≡◌, ◌≤◌, ◌<◌, ◌%◌, ◌↔◌}
use kindling.Overlay.{overlay_ip}
use kindling.Overlay.Addresses.{host_number, overlay_ip_lem}

overlay_ip_lem_example :
    let a = overlay_ip (λ n. n) 70_000 in
    (a.first ≡ 10)
    × (a.second ≡ 64)
    × (a.third < 256)
    × (a.fourth < 256)
    × (1 ≤ host_number a)
    × (host_number a ≤ 65_534)
    × ((a ≡ overlay_ip (λ n. n) 4_466) ↔ (70_000 % 65_534 ≡ 4_466 % 65_534))
overlay_ip_lem_example = overlay_ip_lem (λ n. n) 70_000 4_466
