-- ===== src/Process/Steps.antt =====
-- Each way of processing a group loses no packet of it.
use ipsec_secgw_old.Prelude.{
  ℕ, refl, sym, subst, List, ◌++◌, some, Bool, map, arith, count_if-append,
}
use ipsec_secgw_old.Packet.{
  Action, action_none, inline_crypto, inline_protocol, lookaside_protocol, cpu_crypto, Session, Sa,
  Mbuf,
}
use ipsec_secgw_old.Packet.Tally.{by_id, count_if-by_id-map}
use ipsec_secgw_old.CryptoQueue.{Pmd}
use ipsec_secgw_old.CryptoQueue.Table.{AllRoom}
use ipsec_secgw_old.IpsecLib.{RteIpsec}
use ipsec_secgw_old.Process.{
  State, prep_process, note_sa, copy_to_trf, ipsec_prepare_crypto_group, ipsec_process_inline_group,
  ipsec_process_cpu_group, process_by,
}
use ipsec_secgw_old.Process.Held.{
  Steps, copy_to_trf-held_by, copy_to_trf-tbl, enqueue_prepared-Steps,
}

module _ {D : Type 0} (pmd : Pmd D) (lib : RteIpsec) (q : ℕ → Bool) where
  ipsec_prepare_crypto_group-Steps :
      (s : State D) (sa : Sa) (ips : Session) (ms : List Mbuf)
      → AllRoom s.qs.tbl
      → Steps pmd lib q s ms (ipsec_prepare_crypto_group pmd lib s sa ips ms)
  unfolding ipsec_prepare_crypto_group note_sa
  ipsec_prepare_crypto_group-Steps s sa ips ms h =
      let noted = map (note_sa sa) ms in
      let (good, bad) = lib.crypto_prepare ips noted in
      let (r, e, room, kept) = enqueue_prepared-Steps pmd lib q s sa.cdev_id_qp good bad h in
      (
        r,
        e,
        room,
        omega (
          arith,
          kept,
          count_if-append (by_id q) good bad,
          lib.crypto_prepare_lem ips q noted,
          count_if-by_id-map q (note_sa sa) ms (λ m. refl),
        ),
      )

  inline_group-Steps :
      (s : State D) (sa : Sa) (ips : Session) (ms : List Mbuf)
      → AllRoom s.qs.tbl
      → Steps pmd lib q s ms (some (ipsec_process_inline_group pmd lib s sa ips ms))
  unfolding ipsec_process_inline_group prep_process
  inline_group-Steps s sa ips ms h =
      let prepared = map (prep_process sa) ms in
      let (good, bad) = lib.process ips prepared in
      let satp = lib.sa_type ips in
      (
        (copy_to_trf pmd lib s satp good, bad),
        refl,
        subst (λ qs. AllRoom qs.tbl) (sym (copy_to_trf-tbl pmd lib q s satp good)) h,
        omega (
          arith,
          copy_to_trf-held_by pmd lib q s satp good,
          lib.process_lem ips q prepared,
          count_if-by_id-map q (prep_process sa) ms (λ m. refl),
        ),
      )

  cpu_group-Steps :
      (s : State D) (sa : Sa) (ips : Session) (ms : List Mbuf)
      → AllRoom s.qs.tbl
      → Steps pmd lib q s ms (some (ipsec_process_cpu_group pmd lib s sa ips ms))
  unfolding ipsec_process_cpu_group prep_process
  cpu_group-Steps s sa ips ms h =
      let prepared = map (prep_process sa) ms in
      let (ready, unready) = lib.cpu_prepare ips prepared in
      let (good, bad) = lib.process ips ready in
      let satp = lib.sa_type ips in
      (
        (copy_to_trf pmd lib s satp good, bad ++ unready),
        refl,
        subst (λ qs. AllRoom qs.tbl) (sym (copy_to_trf-tbl pmd lib q s satp good)) h,
        omega (
          arith,
          copy_to_trf-held_by pmd lib q s satp good,
          count_if-append (by_id q) bad unready,
          lib.process_lem ips q ready,
          lib.cpu_prepare_lem ips q prepared,
          count_if-by_id-map q (prep_process sa) ms (λ m. refl),
        ),
      )

  pub process_by-Steps :
      (a : Action) (s : State D) (sa : Sa) (ips : Session) (ms : List Mbuf)
      → AllRoom s.qs.tbl
      → Steps pmd lib q s ms (process_by pmd lib a s sa ips ms)
  unfolding process_by
  process_by-Steps action_none s sa ips ms h = ipsec_prepare_crypto_group-Steps s sa ips ms h
  process_by-Steps lookaside_protocol s sa ips ms h = ipsec_prepare_crypto_group-Steps s sa ips ms h
  process_by-Steps inline_crypto s sa ips ms h = inline_group-Steps s sa ips ms h
  process_by-Steps inline_protocol s sa ips ms h = inline_group-Steps s sa ips ms h
  process_by-Steps cpu_crypto s sa ips ms h = cpu_group-Steps s sa ips ms h
