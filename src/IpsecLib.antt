-- ===== src/IpsecLib.antt =====
-- What the code uses of librte_ipsec, and the memory that holds the SAs, as parameters of the
-- processing of packets. SATP_OUT_IPV4 is of ipsec_process.c.
use ipsec_secgw_old.Prelude.{ℕ, ◌+◌, ◌≡◌, List, [], ◌∷◌, ◌++◌, Bool, ◌&&◌, ◌||◌, count_if}
use ipsec_secgw_old.Packet.{Session, Sa, Mbuf}
use ipsec_secgw_old.Packet.Tally.{by_id}

-- rte_ipsec_sa_type, by its masks.
pub record SaType : Type 0 where
  pub inbound : Bool  -- (t & RTE_IPSEC_SATP_DIR_MASK) == RTE_IPSEC_SATP_DIR_IB
  pub ipv4 : Bool  -- (t & RTE_IPSEC_SATP_IPV_MASK) == RTE_IPSEC_SATP_IPV4
  pub trans : Bool  -- (t & RTE_IPSEC_SATP_MODE_MASK) == RTE_IPSEC_SATP_MODE_TRANS
  pub tunlv4 : Bool  -- (t & RTE_IPSEC_SATP_MODE_MASK) == RTE_IPSEC_SATP_MODE_TUNLV4

-- SATP_OUT_IPV4
abbrev pub satp_out_ipv4 : SaType → Bool
satp_out_ipv4 t = (t.trans && t.ipv4) || t.tunlv4

-- The packets that a call of librte_ipsec dealt with, which it leaves at the front of the array,
-- and those that it could not, which it moves behind them.
abbrev pub Sorted : Type 0
Sorted = List Mbuf × List Mbuf

-- Such a call loses no packet.
abbrev pub Sorts : (List Mbuf → Sorted) → Type 0
Sorts f =
    (q : ℕ → Bool) (ms : List Mbuf)
    → count_if (by_id q) (f ms).0 + count_if (by_id q) (f ms).1 ≡ count_if (by_id q) ms

-- Ops by session.
abbrev pub grouped : List (Session × List Mbuf) → List Mbuf
grouped [] = []
grouped (g ∷ gs) = g.1 ++ grouped gs

-- librte_ipsec. `crypto_group` gives the ops by session, and those that have no session.
pub record RteIpsec : Type 0 where
  pub sa_type : Session → SaType
  pub process : Session → List Mbuf → Sorted
  pub process_lem : (ips : Session) → Sorts (process ips)
  pub cpu_prepare : Session → List Mbuf → Sorted
  pub cpu_prepare_lem : (ips : Session) → Sorts (cpu_prepare ips)
  pub crypto_prepare : Session → List Mbuf → Sorted
  pub crypto_prepare_lem : (ips : Session) → Sorts (crypto_prepare ips)
  pub crypto_group : List Mbuf → List (Session × List Mbuf) × List Mbuf
  pub crypto_group_lem :
      (q : ℕ → Bool) (cop : List Mbuf)
      → count_if (by_id q) (grouped (crypto_group cop).0) + count_if (by_id q) (crypto_group cop).1
        ≡ count_if (by_id q) cop

-- The SA at an address.
abbrev pub Store : Type 0
Store = ℕ → Sa

-- fill_ipsec_session for the SA at an address, for its fallback session if the test is true:
-- whether it succeeded, and the SAs after it.
abbrev pub FillSession : Type 0
FillSession = ℕ → Bool → Store → Bool × Store
