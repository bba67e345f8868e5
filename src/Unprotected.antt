-- ===== src/Unprotected.antt =====
-- is_unprotected_port of ipsec-secgw.h, which decides whether a packet is inbound or outbound.
pub mod Width
use ipsec_secgw_old.Prelude.{ℕ, ◌*◌, ◌/◌, ◌%◌, ◌^◌, ◌==◌, Bool, not}
use ipsec_secgw_old.Packet.{u8}

-- `mask & (1 << port)`: the bit of the port, at its place. The result type is uint8_t. Ports are below
-- RTE_MAX_ETHPORTS, which is 32; from there on C leaves the shift undefined, and x86 takes the count
-- modulo 32.
unfoldable pub is_unprotected_port : ℕ → ℕ → ℕ
is_unprotected_port mask port_id = let bit = 2 ^ (port_id % 32) in u8 (mask / bit % 2 * bit)

-- The result as the callers test it.
unfoldable pub tests_unprotected : ℕ → ℕ → Bool
unfolding is_unprotected_port
tests_unprotected mask port_id = not (is_unprotected_port mask port_id == 0)
