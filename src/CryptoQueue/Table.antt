-- ===== src/CryptoQueue/Table.antt =====
-- The table of queues: the packets that wait in it, and the room of its buffers.
use ipsec_secgw_old.Prelude.{
  ℕ, zero, suc, ◌+◌, ◌<◌, ◌≡◌, List, [], ◌∷◌, some, Bool, arith, length, get_elem?, set, count_if,
}
use ipsec_secgw_old.Packet.{Mbuf, max_pkt_burst}
use ipsec_secgw_old.CryptoQueue.{Cqp}

-- The packets that wait in the buffers of the queues.
abbrev pub waiting : (Mbuf → Bool) → List Cqp → ℕ
waiting p [] = 0
waiting p (cqp ∷ tbl) = count_if p cqp.buf + waiting p tbl

-- Every buffer has room.
abbrev pub AllRoom : List Cqp → Type 0
AllRoom [] = Unit {0}
AllRoom (cqp ∷ tbl) = (length cqp.buf < max_pkt_burst) × AllRoom tbl

pub AllRoom-get :
    (tbl : List Cqp) (i : ℕ) (cqp : Cqp)
    → AllRoom tbl
    → get_elem? tbl i ≡ some cqp
    → length cqp.buf < max_pkt_burst
AllRoom-get [] i cqp h e = absurd (ground arith)
AllRoom-get (c ∷ tbl) zero cqp h e = ground (arith, h.0)
AllRoom-get (c ∷ tbl) (suc i) cqp h e = AllRoom-get tbl i cqp h.1 e

pub AllRoom-set :
    (tbl : List Cqp) (i : ℕ) (cqp : Cqp)
    → AllRoom tbl
    → length cqp.buf < max_pkt_burst
    → AllRoom (set tbl i cqp)
AllRoom-set [] i cqp h r = tt
AllRoom-set (c ∷ tbl) zero cqp h r = (r, h.1)
AllRoom-set (c ∷ tbl) (suc i) cqp h r = (h.0, AllRoom-set tbl i cqp h.1 r)

pub waiting-set :
    (p : Mbuf → Bool) (tbl : List Cqp) (i : ℕ) (old cqp : Cqp)
    → get_elem? tbl i ≡ some old
    → waiting p (set tbl i cqp) + count_if p old.buf ≡ waiting p tbl + count_if p cqp.buf
waiting-set p [] i old cqp e = absurd (ground arith)
waiting-set p (c ∷ tbl) zero old cqp e = ground arith
waiting-set p (c ∷ tbl) (suc i) old cqp e = omega (arith, waiting-set p tbl i old cqp e)
