-- ===== src/Tests/Events.antt =====
-- Single events.
use ipsec_secgw_old.Prelude.{◌≡◌, ◌≢◌, ◌↔◌, false, arith}
use ipsec_secgw_old.Unprotected.{tests_unprotected}
use ipsec_secgw_old.Unprotected.Width.{tests_unprotected-wide}
use ipsec_secgw_old.Worker.Classify.{process_ipsec_get_pkt_type}
use ipsec_secgw_old.Worker.Route.{get_route}
use ipsec_secgw_old.Worker.Event.{
  pkt_forwarded, process_ipsec_ev_inbound, process_ipsec_ev_outbound,
}
use ipsec_secgw_old.Worker.Event.Inbound.{Admitted, inbound-forwards}
use ipsec_secgw_old.Worker.Event.Outbound.{HandsOnOrFrees, event-conserves}
use ipsec_secgw_old.Tests.Fixtures.{
  plain4, decrypted4, protect_all, bypass_all, with_policy, ports, routes, nothing_freed,
}

inbound-forwards_example :
    ((process_ipsec_ev_inbound ports
        (with_policy protect_all)
        routes
        (decrypted4 1)
        nothing_freed).code
      ≡ pkt_forwarded)
    ↔ (Admitted (with_policy protect_all) (decrypted4 1)
        × (get_route ports (decrypted4 1) routes (process_ipsec_get_pkt_type (decrypted4 1)).0
            ≢ 32))
inbound-forwards_example =
    inbound-forwards ports (with_policy protect_all) routes (decrypted4 1) nothing_freed

event-conserves_example :
    HandsOnOrFrees
      (plain4 1)
      nothing_freed
      (process_ipsec_ev_inbound ports (with_policy bypass_all) routes (plain4 1) nothing_freed)
    × HandsOnOrFrees
        (plain4 1)
        nothing_freed
        (process_ipsec_ev_outbound ports (with_policy bypass_all) routes (plain4 1) nothing_freed)
event-conserves_example =
    event-conserves ports (with_policy bypass_all) routes (plain4 1) nothing_freed

-- Port 8 is in the mask, and does not count as unprotected.
tests_unprotected-wide_example : tests_unprotected 256 8 ≡ false
tests_unprotected-wide_example = tests_unprotected-wide 256 8 (omega arith) (omega arith)
