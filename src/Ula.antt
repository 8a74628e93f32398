-- ===== src/Ula.antt =====
-- The IPv6 addresses of tenants, nodes and WireGuard peers (internal/core/ula.go), and who gets
-- them (internal/core/wireguard_peer.go).
pub mod Hex
pub mod Address
pub mod Distinct
pub mod WireGuard
