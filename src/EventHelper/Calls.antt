-- ===== src/EventHelper/Calls.antt =====
-- The calls of the device library that event_helper.c makes for their effect, and the forms that its
-- functions make them in. The library answers each call; the answers are a parameter.
pub mod Follows
use ipsec_secgw_old.Prelude.{
  ℕ, zero, suc, ◌≡◌, Bool, true, false, ◌==◌, if◌then◌else◌, List, [], ◌∷◌, ◌++◌, Option, none,
  some,
}
use ipsec_secgw_old.EventHelper.{ℤ, pos, negsuc, is_negative}

-- rte_event_dev_configure with the queues and the ports; rte_event_queue_setup with the mode and the
-- schedule type; rte_event_port_setup; rte_event_port_link of a device, a port and a queue, or all
-- queues; rte_event_port_unlink; rte_event_dev_start, rte_event_dev_stop and rte_event_dev_close;
-- rte_event_vector_pool_create with the number and the size of the vectors; the calls
-- rte_event_eth_rx_adapter_* and rte_event_eth_tx_adapter_* on an adapter, with the device for
-- create, and with the Ethernet device, the queue (-1 for all) and the event queue for queue_add;
-- rte_service_set_runstate_mapped_check; rte_eth_dev_stop and rte_eth_dev_start.
pub data Call : Type 0 where
  dev_configure : ℕ → ℕ → ℕ → Call
  queue_setup : ℕ → ℕ → ℕ → ℕ → Call
  port_setup : ℕ → ℕ → Call
  port_link : ℕ → ℕ → Option ℕ → Call
  port_unlink : ℕ → ℕ → ℕ → Call
  dev_start dev_stop dev_close : ℕ → Call
  vector_pool_create : ℕ → ℕ → Call
  rx_create tx_create : ℕ → ℕ → Call
  rx_queue_add : ℕ → ℕ → ℤ → ℕ → Call
  tx_queue_add : ℕ → ℕ → ℤ → Call
  tx_event_port_get : ℕ → Call
  rx_service_id_get tx_service_id_get : ℕ → Call
  rx_runstate_check tx_runstate_check : ℕ → Call
  rx_start tx_start rx_stop tx_stop rx_free tx_free : ℕ → Call
  rx_queue_del tx_queue_del : ℕ → ℕ → Call
  eth_stop eth_start : ℕ → Call

-- How a function ends: it returns, or follows a null pointer.
pub data End : Type 0 where
  returned : ℤ → End
  null_pointer : End

-- The next answer, from the calls so far and the call.
abbrev pub Answers : Type 0
Answers = List Call → Call → ℤ

-- A part of a function: from the calls so far, how it ends and the calls so far then.
abbrev pub Step : Type 0
Step = List Call → End × List Call

-- The tests on an answer.
abbrev pub not_negative : ℤ → Bool
not_negative (pos n) = true
not_negative (negsuc n) = false

abbrev pub is_zero : ℤ → Bool
is_zero (pos n) = n == 0
is_zero (negsuc n) = false

abbrev pub is_one : ℤ → Bool
is_one (pos n) = n == 1
is_one (negsuc n) = false

-- `ret != -ESRCH && ret < 0` is an error, and ESRCH is 3.
abbrev pub found_or_esrch : ℤ → Bool
found_or_esrch (pos n) = true
found_or_esrch (negsuc n) = n == 2

abbrev pub any : ℤ → Bool
any r = true

-- `return r`.
unfoldable pub finish : ℤ → Step
finish r t = (returned r, t)

unfoldable pub fault : Step
fault t = (null_pointer, t)

-- A call whose answer is tested: where the test fails, the function returns the answer.
unfoldable pub perform : Answers → (ℤ → Bool) → Call → Step → Step
perform answer ok c next t = elim (ok (answer t c)) [
  | true ↦ next (t ++ c ∷ [])
  | false ↦ (returned (answer t c), t ++ c ∷ [])
]

-- A call that gives a null pointer where it fails, which the function has its own error for.
unfoldable pub allocate : Answers → ℤ → Call → Step → Step
allocate answer e c next t = elim (not_negative (answer t c)) [
  | true ↦ next (t ++ c ∷ [])
  | false ↦ (returned e, t ++ c ∷ [])
]

-- A question whose result is tested: where the test fails, the function returns the result.
unfoldable pub require : (ℤ → Bool) → ℤ → Step → Step
require ok r next t = elim (ok r) [ true ↦ next t | false ↦ (returned r, t) ]

-- `for (i = first; i < first + n; i++)` and what comes after the loop.
unfoldable pub for_each : (ℕ → Step → Step) → ℕ → ℕ → Step → Step
for_each body i zero next = next
for_each body i (suc n) next = body i (for_each body (suc i) n next)

-- A loop through a list.
unfoldable pub for_all : (ℕ → Step → Step) → List ℕ → Step → Step
for_all body [] next = next
for_all body (x ∷ xs) next = body x (for_all body xs next)

abbrev pub is_error : End → Bool
is_error (returned r) = is_negative r
is_error null_pointer = true

-- A function is called, and where it returns an error, so does its caller.
unfoldable pub and_then : Step → Step → Step
and_then part next t =
    let (end, t') = part t in elim (is_error end) [ true ↦ (end, t') | false ↦ next t' ]
