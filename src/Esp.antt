-- ===== src/Esp.antt =====
-- The trailer of ESP packets and the lengths of esp.c: what esp_outbound appends to a packet, and
-- what esp_inbound checks and esp_inbound_post checks and removes. The octets from the payload on
-- are a list. The processing by the crypto device stands between the two and is left out, as is
-- what is written into the crypto op.
pub mod Trailer
mod Tests
use ipsec_secgw_old.Prelude.{
  ℕ, zero, suc, ◌+◌, ◌-◌, ◌*◌, ◌/◌, ◌%◌, ◌^◌, List, [], ◌∷◌, ◌++◌, Option, none, some, Bool, true,
  false, ◌==◌, ◌&&◌, not, leb, ltb, length, get_elem?, take, drop, if◌then◌else◌,
}
use ipsec_secgw_old.Packet.{u8, u16}

-- RTE_ALIGN_CEIL, and below the mask of `block_size - 1`, for a power of two.
abbrev pub align_ceil : ℕ → ℕ → ℕ
align_ceil n align = (n + (align - 1)) / align * align

-- `len` is rte_pktmbuf_pkt_len(m) - ip_hdr_len; both results have 16 bits.
unfoldable pub pad_payload_len : ℕ → ℕ → ℕ
pad_payload_len block_size len = u16 (align_ceil (len + 2) block_size)

unfoldable pub pad_len : ℕ → ℕ → ℕ
unfolding pad_payload_len
pad_len block_size len = u16 (pad_payload_len block_size len + 2 ^ 32 - len)

-- The padding 1, 2, … of the default scheme: `n` octets from `i` on.
unfoldable pub sequence : ℕ → ℕ → List ℕ
sequence i zero = []
sequence i (suc n) = u8 i ∷ sequence (i + 1) n

-- The padding that is appended, the length of the padding, and the next protocol.
unfoldable pub trailer : List ℕ → ℕ → List ℕ
trailer padding nlp = padding ++ (u8 (length padding) ∷ u8 nlp ∷ [])

-- What esp_outbound makes of a payload, where the crypto device is to process the packet; `digest`
-- is the room for the digest.
unfoldable pub esp_payload : ℕ → List ℕ → ℕ → List ℕ → List ℕ
unfolding pad_len sequence trailer
esp_payload block_size payload nlp digest =
    let n = pad_len block_size (length payload) in
    payload ++ (trailer (sequence 1 (n - 2)) nlp ++ digest)

-- With inline crypto and no trailer by the hardware, the padding is what the mbuf held before.
unfoldable pub esp_payload_inline : List ℕ → List ℕ → ℕ → List ℕ → List ℕ
unfolding trailer
esp_payload_inline held payload nlp digest = payload ++ (trailer held nlp ++ digest)

-- The length check of esp_inbound, of the octets behind the initialisation vector: a number of whole blocks, and more than none.
unfoldable pub esp_inbound_len : ℕ → ℕ → ℕ → Bool
esp_inbound_len block_size digest_len len =
    let payload_len = len - digest_len in payload_len % block_size == 0 && ltb 0 payload_len

-- The loop over the padding.
unfoldable pub is_sequence : ℕ → List ℕ → Bool
is_sequence i [] = true
is_sequence i (b ∷ bs) = b == i && is_sequence (i + 1) bs

-- The payload and the next protocol, `none` for an error. Where the length of the padding is more
-- than there is, the code reads before the packet and then fails to trim it.
unfoldable pub esp_inbound_post : ℕ → List ℕ → Option (List ℕ × ℕ)
unfolding is_sequence
esp_inbound_post digest_len m =
    let at = length m - digest_len - 1 in
    elim (get_elem? m at) [
      | none ↦ none
      | some nexthdr ↦ elim (get_elem? m (at - 1)) [
        | none ↦ none
        | some pads ↦
            let kept = at - 1 - pads in
            if leb (pads + 2 + digest_len) (length m) && is_sequence 1 (take pads (drop kept m))
            then some (take kept m, nexthdr)
            else none
      ]
    ]
