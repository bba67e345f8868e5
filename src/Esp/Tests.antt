-- ===== src/Esp/Tests.antt =====
-- A payload of three octets in blocks of 16, and a padding of zeros.
use ipsec_secgw_old.Prelude.{ℕ, ◌≡◌, refl, List, [], ◌∷◌, none, some, true, false, arith, length}
use ipsec_secgw_old.Esp.{
  is_sequence, esp_payload, esp_payload_inline, esp_inbound_len, esp_inbound_post,
}
use ipsec_secgw_old.Esp.Trailer.{esp_payload-roundtrip, esp_payload_inline-refused}

abbrev payload : List ℕ
payload = 7 ∷ 8 ∷ 9 ∷ []

abbrev digest : List ℕ
digest = 0 ∷ 0 ∷ []

esp_payload-roundtrip_example :
    (esp_inbound_len 16 2 (length (esp_payload 16 payload 4 digest)) ≡ true)
    × (esp_inbound_post 2 (esp_payload 16 payload 4 digest) ≡ some (payload, 4))
esp_payload-roundtrip_example =
    esp_payload-roundtrip 16 4 payload digest (omega arith) (omega arith) (omega arith)
      (omega arith)

not_sequence : is_sequence 1 (0 ∷ 0 ∷ []) ≡ false
unfolding is_sequence
not_sequence = refl

esp_payload_inline-refused_example :
    esp_inbound_post 2 (esp_payload_inline (0 ∷ 0 ∷ []) payload 4 digest) ≡ none
esp_payload_inline-refused_example =
    esp_payload_inline-refused (0 ∷ 0 ∷ []) payload digest 4 (omega arith) not_sequence
