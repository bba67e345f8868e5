-- ===== src/Sad.antt =====
-- sad.h and sad.c: the SA database with its per-core cache.
-- rte_ipsec_sad_lookup is a parameter; rte_ipsec_sad_add too.
pub mod Cache
pub mod Burst
pub mod Length
pub mod Add
mod Tests
use Prim.Native.Nat.{bit_and}
use ipsec_secgw_old.Prelude.{
  ℕ, zero, suc, ◌+◌, ◌*◌, List, [], ◌∷◌, ◌++◌, Option, none, some, Bool, true, false, ◌==◌, ◌&&◌,
  ◌||◌, not, if◌then◌else◌, get_elem?, set,
}
use ipsec_secgw_old.Packet.{
  Mbuf, Sa, ip4_tunnel, ip6_tunnel, transport, without_transport_version, be32_at,
}

-- The 16 octets of an IPv6 address as one number.
pub octets : ℕ → Mbuf → ℕ → ℕ
octets zero m o = 0
octets (suc n) m o = octets n m o * 256 + m.bytes (o + n)

-- The addresses of a packet whose data starts at the IP header, by family.
abbrev pub sip_at : Bool → Mbuf → ℕ
sip_at true m = be32_at m 12
sip_at false m = octets 16 m 8

abbrev pub dip_at : Bool → Mbuf → ℕ
dip_at true m = be32_at m 16
dip_at false m = octets 16 m 24

-- struct rte_ipsec_sadv4_key and struct rte_ipsec_sadv6_key
pub record Key : Type 0 where
  pub spi : ℕ
  pub dip : ℕ
  pub sip : ℕ

-- A database: the SA for a key, `none` for NULL.
abbrev pub SadLookup : Type 0
SadLookup = Key → Option Sa

-- struct ipsec_sad
pub record IpsecSad : Type 0 where
  pub sad_v4 : SadLookup
  pub sad_v6 : SadLookup

-- struct ipsec_sad_cache
pub record IpsecSadCache : Type 0 where
  pub v4 : List (Option Sa)
  pub v6 : List (Option Sa)
  pub mask : ℕ

-- The database of a family, and its cache.
abbrev pub db_of : IpsecSad → Bool → SadLookup
db_of sad is_v4 = if is_v4 then sad.sad_v4 else sad.sad_v6

abbrev pub slots_of : IpsecSadCache → Bool → List (Option Sa)
slots_of cache is_v4 = if is_v4 then cache.v4 else cache.v6

pub cmp_sa_key : Sa → Bool → Mbuf → Bool
cmp_sa_key sa is_v4 m =
    let sa_type = without_transport_version sa.flags in
    sa_type == transport
    || (is_v4 && sa_type == ip4_tunnel && sa.src == sip_at true m && sa.dst == dip_at true m)
    || (not is_v4 && sa_type == ip6_tunnel && sa.src == sip_at false m && sa.dst == dip_at false m)

abbrev pub spi2idx : ℕ → ℕ → ℕ
spi2idx spi mask = bit_and spi mask

pub sa_cache_update : List (Option Sa) → Sa → ℕ → List (Option Sa)
sa_cache_update sa_cache sa mask =
    if mask == 0 then sa_cache else set sa_cache (spi2idx sa.spi mask) (some sa)

-- An entry of a cache; out of its range there is none.
unfoldable pub entry : List (Option Sa) → ℕ → Option Sa
entry [] i = none
entry (e ∷ es) zero = e
entry (e ∷ es) (suc i) = entry es i

-- The SA in the cache for the SPI, if it is that of the packet.
cache_hit : Option Sa → ℕ → Bool → Mbuf → Option Sa
cache_hit none spi is_v4 m = none
cache_hit (some sa) spi is_v4 m = if sa.spi == spi && cmp_sa_key sa is_v4 m then some sa else none

cached : IpsecSadCache → Bool → ℕ → Mbuf → Option Sa
cached cache is_v4 spi m =
    let slots = slots_of cache is_v4 in
    cache_hit (if cache.mask == 0 then none else entry slots (spi2idx spi cache.mask)) spi is_v4 m

-- `udp_hdr_len` after a packet was looked at: it is set for an ESP-in-UDP packet, and stands
-- outside the loop, so that it stays set.
pub udp_hdr_len_after : ℕ → Mbuf → ℕ
udp_hdr_len_after len m = if m.tunnel_esp && m.l4_udp then 8 else len

-- The SPI that is read from a packet, given the length of a UDP header.
pub spi_at : ℕ → Mbuf → ℕ
spi_at len m = be32_at m (m.l3_len + len)

pub key_of : ℕ → Mbuf → Key
key_of spi m = record { spi = spi; dip = dip_at m.ipv4_hdr m; sip = sip_at m.ipv4_hdr m }

-- The first loop: what it finds for each packet. A miss keeps its key and its packet for the
-- lookup; `ipv4_hdr` of the packet says in which array it is put.
pub data Probe : Type 0 where
  hit : Sa → Probe
  miss : Key → Mbuf → Probe

probe_of : Option Sa → Key → Mbuf → Probe
probe_of none k m = miss k m
probe_of (some sa) k m = hit sa

probe : IpsecSadCache → ℕ → List Mbuf → List Probe
probe cache len [] = []
probe cache len (m ∷ ms) =
    let len' = udp_hdr_len_after len m in
    let spi = spi_at len' m in
    probe_of (cached cache m.ipv4_hdr spi m) (key_of spi m) m ∷ probe cache len' ms

-- What the database has for a packet: an SA that does not fit the packet counts as none.
check_found : Option Sa → Bool → Mbuf → Option Sa
check_found none is_v4 m = none
check_found (some sa) is_v4 m = if cmp_sa_key sa is_v4 m then some sa else none

pub resolve : IpsecSad → Key → Mbuf → Option Sa
resolve sad k m = check_found (db_of sad m.ipv4_hdr k) m.ipv4_hdr m

-- The entries of `sa[]`.
results : IpsecSad → List Probe → List (Option Sa)
results sad [] = []
results sad (hit sa ∷ ps) = some sa ∷ results sad ps
results sad (miss k m ∷ ps) = resolve sad k m ∷ results sad ps

-- What is stored in the cache of one family, by the loop over its misses.
store : Option Sa → ℕ → List (Option Sa) → List (Option Sa)
store none mask slots = slots
store (some sa) mask slots = sa_cache_update slots sa mask

update_cache : Bool → IpsecSad → ℕ → List Probe → List (Option Sa) → List (Option Sa)
update_cache is_v4 sad mask [] slots = slots
update_cache is_v4 sad mask (hit sa ∷ ps) slots = update_cache is_v4 sad mask ps slots
update_cache is_v4 sad mask (miss k m ∷ ps) slots =
    let mine = if is_v4 then m.ipv4_hdr else not m.ipv4_hdr in
    update_cache is_v4 sad mask ps (if mine then store (resolve sad k m) mask slots else slots)

pub sad_lookup : IpsecSad → IpsecSadCache → List Mbuf → List (Option Sa) × IpsecSadCache
sad_lookup sad cache pkts =
    let ps = probe cache 0 pkts in
    (
      results sad ps,
      record cache {
        v4 = update_cache true sad cache.mask ps cache.v4;
        v6 = update_cache false sad cache.mask ps cache.v6;
      },
    )
