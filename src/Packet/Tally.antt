-- ===== src/Packet/Tally.antt =====
-- Packets counted by where they lie: processing changes a packet, not its address.
use ipsec_secgw_old.Prelude.{
  ℕ, ◌+◌, ◌≡◌, refl, List, [], ◌∷◌, ◌++◌, Bool, true, map, arith, length, count_if,
}
use ipsec_secgw_old.Packet.{Mbuf}

-- The packets whose address passes the test.
abbrev pub by_id : (ℕ → Bool) → Mbuf → Bool
by_id q m = q m.id

abbrev pub packets : List (Mbuf × ℕ) → List Mbuf
packets = map (λ x. x.0)

pub count_if-packets :
    (p : Mbuf → Bool) (xs ys : List (Mbuf × ℕ))
    → count_if p (packets (xs ++ ys)) ≡ count_if p (packets xs) + count_if p (packets ys)
count_if-packets p [] ys = omega arith
count_if-packets p (x ∷ xs) ys = omega (arith, count_if-packets p xs ys)

pub count_if-one :
    (q : ℕ → Bool) (m m' : Mbuf)
    → m'.id ≡ m.id
    → count_if (by_id q) (m' ∷ []) ≡ count_if (by_id q) (m ∷ [])
count_if-one q m m' e = rw e refl

pub count_if-all : (ms : List Mbuf) → count_if (by_id (λ i. true)) ms ≡ length ms
count_if-all [] = refl
count_if-all (m ∷ ms) = omega (arith, count_if-all ms)

-- Work that keeps the address of each packet keeps the count.
pub count_if-by_id-map :
    (q : ℕ → Bool) (f : Mbuf → Mbuf) (ms : List Mbuf)
    → ((m : Mbuf) → (f m).id ≡ m.id)
    → count_if (by_id q) (map f ms) ≡ count_if (by_id q) ms
count_if-by_id-map q f [] h = refl
count_if-by_id-map q f (m ∷ ms) h = rw (h m, count_if-by_id-map q f ms h)
