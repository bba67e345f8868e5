-- ===== src/Ipip/Tests.antt =====
-- A header with a time to live of 64 and a right checksum.
use ipsec_secgw_old.Prelude.{ℕ, ◌≡◌, refl, arith, false}
use ipsec_secgw_old.Ipip.{Ip, v4, ip4_ecn_setup, ipip_outbound, ipip_inbound}
use ipsec_secgw_old.Ipip.Checksum.{Valid, ip4_ecn_setup-invalid}
use ipsec_secgw_old.Ipip.Roundtrip.{ipip-roundtrip}

abbrev header : ℕ → ℕ → Ip
header tos sum = record {
  ip_hl = 5;
  ip_tos = tos;
  ip_len = 60;
  ip_id = 0;
  ip_off = 0;
  ip_ttl = 64;
  ip_p = 6;
  ip_sum = sum;
  ip_src = 167772161;
  ip_dst = 167772162;
}

abbrev plain : Ip
plain = header 0 47718

abbrev capable : Ip
capable = header 1 47462

ipip-roundtrip_example :
    (sum : ℕ) × (ipip_inbound (ipip_outbound 77 (v4 plain) 60 16 false 1 2) 16
      ≡ (v4 (record plain { ip_ttl = 62; ip_sum = sum }), 60))
    × Valid (record plain { ip_ttl = 62; ip_sum = sum })
ipip-roundtrip_example =
    ipip-roundtrip 77 plain 60 16 false 1 2 (omega arith) (omega arith) (omega arith) (omega arith)
      refl

ip4_ecn_setup-invalid_example : ¬ Valid (ip4_ecn_setup capable)
ip4_ecn_setup-invalid_example =
    ip4_ecn_setup-invalid capable (omega arith) (omega arith) (omega arith) refl
