-- ===== src/Tests/Engines.antt =====
-- The libraries and contexts that the tests of IPsec processing use.
use ipsec_secgw_old.Prelude.{
  ℕ, ◌≡◌, ap, sym, List, [], ◌∷◌, some, true, false, ◌==◌, if◌then◌else◌, arith, count_if-append,
}
use ipsec_secgw_old.Packet.{Mbuf}
use ipsec_secgw_old.Packet.Tally.{by_id}
use ipsec_secgw_old.CryptoQueue.{Queues}
use ipsec_secgw_old.Sad.Add.{SadAdd}
use ipsec_secgw_old.IpsecLib.{SaType, RteIpsec, FillSession}
use ipsec_secgw_old.Process.{State}
use ipsec_secgw_old.Legacy.{Ctx, XformFn, CreateSession}
use ipsec_secgw_old.Poll.{SpdStats, Poll, Engine}
use ipsec_secgw_old.Tests.Fixtures.{sa5, no_session, two_at_a_time, idle_queue, fresh_device}

abbrev outbound_transport : SaType
outbound_transport = record { inbound = false; ipv4 = true; trans = true; tunlv4 = false }

-- Every packet is processed, and all ops are of one session.
abbrev pub all_succeed : RteIpsec
all_succeed = record {
  sa_type = λ ips. outbound_transport;
  process = λ ips ms. (ms, []);
  process_lem = λ ips q ms. omega arith;
  cpu_prepare = λ ips ms. (ms, []);
  cpu_prepare_lem = λ ips q ms. omega arith;
  crypto_prepare = λ ips ms. (ms, []);
  crypto_prepare_lem = λ ips q ms. omega arith;
  crypto_group = λ cop. ((no_session, cop) ∷ [], []);
  crypto_group_lem = λ q cop. omega (arith, count_if-append (by_id q) cop []);
}

-- The SA with SPI 5 lies at every address, and no session can be created.
abbrev pub no_fill : FillSession
no_fill = λ addr fb store. (false, store)

abbrev pub no_create : CreateSession
no_create = λ addr store. (false, store)

abbrev pub one_queue : Queues
one_queue = record { nb_qps = 1; last_qp = 0; tbl = idle_queue ∷ [] }

abbrev pub fresh_state : State ℕ
fresh_state = record { qs = one_queue; w = fresh_device; store = λ addr. sa5; ip4 = []; ip6 = [] }

abbrev pub fresh_ctx : Ctx ℕ
fresh_ctx = record { qs = one_queue; w = fresh_device; store = λ addr. sa5; ol_pkts = [] }

pub some-injective : {A : Type 0} (a b : A) → some a ≡ some b → a ≡ b
some-injective a b h = ground arith

abbrev pub keep_all : XformFn
keep_all = record {
  xform = λ m. some m;
  xform_id = λ m m' h. ap (λ (x : Mbuf). x.id) (sym (some-injective m m' h));
}

-- Adding always succeeds.
abbrev pub adds : SadAdd
adds = record {
  add = λ db spi sa. some (λ k. if k.spi == spi then some sa else db k);
  add_lem = λ db db' spi sa h k. ap (λ f. f k) (sym (some-injective _ db' h));
}

abbrev pub no_stats : SpdStats
no_stats = record { protect = 0; bypass = 0; discard = 0 }

abbrev pub engine : Engine ℕ
engine = record {
  pmd = two_at_a_time;
  lib = all_succeed;
  fill_session = no_fill;
  create_session = no_create;
  fn = keep_all;
  post = keep_all;
}

abbrev pub with_plain : List (Mbuf × ℕ) → Poll ℕ
with_plain ip4 = record { ctx = fresh_ctx; ip4 = ip4; ip6 = []; spd4 = no_stats; spd6 = no_stats }
