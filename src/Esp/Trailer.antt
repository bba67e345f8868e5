-- ===== src/Esp/Trailer.antt =====
-- The trailer that esp_outbound appends is the one that esp_inbound_post accepts.
use ipsec_secgw_old.Prelude.{
  ℕ, zero, suc, ◌+◌, ◌-◌, ◌/◌, ◌%◌, ◌^◌, ◌≤◌, ◌<◌, ◌≡◌, refl, ap, ◌∙◌, sym, List, [], ◌∷◌, ◌++◌,
  append_assoc, none, some, true, false, ◌==◌, leb, arith, length, length-append, get_elem?, take,
  drop, if◌then◌else◌,
}
use native.Mathlib.Nat.{div-add-mod', mod-lt, mul-mod_left}
use ipsec_secgw_old.Packet.{u8, u16}
use ipsec_secgw_old.Esp.{
  align_ceil, pad_payload_len, pad_len, sequence, trailer, esp_payload, esp_payload_inline,
  esp_inbound_len, is_sequence, esp_inbound_post,
}

get_elem?-length :
    (xs ys : List ℕ) (y i : ℕ) → i ≡ length xs → get_elem? (xs ++ (y ∷ ys)) i ≡ some y
get_elem?-length [] ys y i e = rw e refl
get_elem?-length (x ∷ xs) ys y zero e = absurd (omega arith)
get_elem?-length (x ∷ xs) ys y (suc i) e = get_elem?-length xs ys y i (omega arith)

take-length : (xs ys : List ℕ) → take (length xs) (xs ++ ys) ≡ xs
take-length [] ys = refl
take-length (x ∷ xs) ys = ap (λ l. x ∷ l) (take-length xs ys)

drop-length : (xs ys : List ℕ) → drop (length xs) (xs ++ ys) ≡ ys
drop-length [] ys = refl
drop-length (x ∷ xs) ys = drop-length xs ys

length-sequence : (i n : ℕ) → length (sequence i n) ≡ n
unfolding sequence
length-sequence i zero = refl
length-sequence i (suc n) = ap suc (length-sequence (i + 1) n)

is_sequence-sequence : (i n : ℕ) → i + n ≤ 256 → is_sequence i (sequence i n) ≡ true
unfolding is_sequence sequence
is_sequence-sequence i zero h = refl
is_sequence-sequence i (suc n) h =
    let first : (u8 i == i) ≡ true = ground arith in
    rw first (is_sequence-sequence (i + 1) n (omega arith))

-- A packet that ends in a padding, its length, a next protocol and a digest is accepted exactly
-- when the padding is 1, 2, ….
post_of_trailer :
    (payload pads digest : List ℕ) (nlp : ℕ)
    → length pads < 256
    → esp_inbound_post (length digest) (payload ++ (trailer pads nlp ++ digest))
      ≡ (if is_sequence 1 pads then some (payload, u8 nlp) else none)
unfolding esp_inbound_post trailer
post_of_trailer payload pads digest nlp h =
    let len = u8 (length pads) in
    let next = u8 nlp in
    let m = payload ++ ((pads ++ (len ∷ next ∷ [])) ++ digest) in
    let same : len ≡ length pads = omega arith in
    let flat : m ≡ payload ++ (pads ++ (len ∷ next ∷ digest)) =
      ap (λ l. payload ++ l) (append_assoc pads (len ∷ next ∷ []) digest) in
    let at_len : m ≡ (payload ++ pads) ++ (len ∷ next ∷ digest) =
      flat ∙ sym (append_assoc payload pads (len ∷ next ∷ digest)) in
    let at_next : m ≡ ((payload ++ pads) ++ (len ∷ [])) ++ (next ∷ digest) =
      at_len ∙ sym (append_assoc (payload ++ pads) (len ∷ []) (next ∷ digest)) in
    let front : length (payload ++ pads) ≡ length payload + length pads =
      length-append payload pads in
    let total : length m ≡ length payload + length pads + 2 + length digest =
      omega (arith, ap length at_len, length-append (payload ++ pads) (len ∷ next ∷ digest)) in
    let at = length m - length digest - 1 in
    let kept = at - 1 - len in
    let kept_is : kept ≡ length payload = omega arith in
    let read_next : get_elem? m at ≡ some next =
      ap (λ l. get_elem? l at) at_next
      ∙ get_elem?-length ((payload ++ pads) ++ (len ∷ [])) digest next at
          (omega (arith, length-append (payload ++ pads) (len ∷ []))) in
    let read_len : get_elem? m (at - 1) ≡ some len =
      ap (λ l. get_elem? l (at - 1)) at_len
      ∙ get_elem?-length (payload ++ pads) (next ∷ digest) len (at - 1) (omega arith) in
    let room : leb (len + 2 + length digest) (length m) ≡ true = ground arith in
    let before : take kept m ≡ payload = rw kept_is (take-length payload _) in
    let padding : take len (drop kept m) ≡ pads =
      ap (λ n. take len (drop n m)) kept_is
      ∙ ap (take len) (drop-length payload _)
      ∙ ap (λ l. take len l) (append_assoc pads (len ∷ next ∷ []) digest)
      ∙ ap (λ n. take n (pads ++ (len ∷ next ∷ digest))) same
      ∙ take-length pads (len ∷ next ∷ digest) in
    rw (read_next, read_len, room, padding, before, esp_inbound_post) refl

align_ceil_lem :
    (n align : ℕ)
    → 0 < align
    → let c = align_ceil n align in (n ≤ c) × (c < n + align) × (c % align ≡ 0)
align_ceil_lem n align h =
    let x = n + (align - 1) in
    let split = div-add-mod' x align in
    let rest : x % align < align = mod-lt x h in
    (omega (arith, split, rest), omega (arith, split, rest), mul-mod_left (x / align) align)

-- The padding has its two last octets, is no longer than a block and one octet, and fills blocks.
pad_len_lem :
    (block_size len : ℕ)
    → 0 < block_size
    → block_size ≤ 256
    → len + 258 ≤ 65535
    → let n = pad_len block_size len in
      (2 ≤ n) × (n ≤ block_size + 1) × ((len + n) % block_size ≡ 0)
unfolding pad_len pad_payload_len
pad_len_lem block_size len a b c =
    let whole = align_ceil (len + 2) block_size in
    let (low, high, blocks) = align_ceil_lem (len + 2) block_size a in
    let n = u16 (u16 whole + 2 ^ 32 - len) in
    let n_is : n ≡ whole - len = omega (arith, low, high) in
    let sum : len + n ≡ whole = omega (arith, low, n_is) in
    (omega (arith, low, n_is), omega (arith, high, n_is), ap (λ x. x % block_size) sum ∙ blocks)

length-trailer : (pads : List ℕ) (nlp : ℕ) → length (trailer pads nlp) ≡ length pads + 2
unfolding trailer
length-trailer pads nlp = length-append pads (u8 (length pads) ∷ u8 nlp ∷ [])

-- What esp_outbound makes of a payload, for a crypto device, fills whole blocks and passes the
-- length check of esp_inbound, and esp_inbound_post gives back the payload and the next protocol,
-- for blocks of at most 256 octets and payloads that do not overflow 16 bits.
pub esp_payload-roundtrip :
    (block_size nlp : ℕ) (payload digest : List ℕ)
    → 0 < block_size
    → block_size ≤ 256
    → length payload + 258 ≤ 65535
    → nlp < 256
    → let m = esp_payload block_size payload nlp digest in
      (esp_inbound_len block_size (length digest) (length m) ≡ true)
      × (esp_inbound_post (length digest) m ≡ some (payload, nlp))
unfolding esp_payload esp_inbound_len
esp_payload-roundtrip block_size nlp payload digest a b c d =
    let n = pad_len block_size (length payload) in
    let pads = sequence 1 (n - 2) in
    let size = length-sequence 1 (n - 2) in
    let (low, high, whole) = pad_len_lem block_size (length payload) a b c in
    let m = esp_payload block_size payload nlp digest in
    let octets = length-trailer pads nlp in
    let len_is : length m - length digest ≡ length payload + n = omega (
      arith,
      size,
      low,
      octets,
      length-append payload (trailer pads nlp ++ digest),
      length-append (trailer pads nlp) digest,
    ) in
    (
      rw (len_is, whole) (ground (arith, low)),
      post_of_trailer payload pads digest nlp (omega (arith, size, low, high))
          ∙ rw (is_sequence-sequence 1 (n - 2) (omega (arith, high)))
              (ap (λ x. some (payload, x)) (omega arith)),
    )

-- With inline crypto and no trailer by the hardware, a padding that is not 1, 2, … already makes
-- esp_inbound_post refuse the packet.
pub esp_payload_inline-refused :
    (held payload digest : List ℕ) (nlp : ℕ)
    → length held < 256
    → is_sequence 1 held ≡ false
    → esp_inbound_post (length digest) (esp_payload_inline held payload nlp digest) ≡ none
unfolding esp_payload_inline
esp_payload_inline-refused held payload digest nlp h bad =
    post_of_trailer payload held digest nlp h ∙ rw bad refl
