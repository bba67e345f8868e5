-- ===== src/Worker/Policy.antt =====
-- check_sp of ipsec_worker.c: the security policy of one packet.
use ipsec_secgw_old.Prelude.{ℕ, ◌-◌, ◌^◌, Option, none, some, ◌==◌, if◌then◌else◌}
use ipsec_secgw_old.Packet.{Mbuf, u32}

-- rte_acl_classify: the result, kept in 32 bits, for the packet, read from the given offset on. It is DISCARD for a
-- packet that no rule matches.
abbrev pub Acl : Type 0
Acl = Mbuf → ℕ → ℕ

abbrev pub discard : ℕ
discard = 0

abbrev pub bypass : ℕ
bypass = 2 ^ 32 - 1

-- `none` stands for the result 0, and `some i` for the result 1 with `*sa_idx = i`. The `-1` that
-- is stored for a bypass is BYPASS.
unfoldable pub check_sp : Option Acl → Mbuf → ℕ → Option ℕ
check_sp none pkt nlp = none
check_sp (some acl) pkt nlp =
    let res = u32 (acl pkt nlp) in
    if res == discard then none else if res == bypass then some bypass else some (res - 1)
