-- ===== src/Lcores.antt =====
-- The queues of the cores in poll mode: check_flow_params, check_poll_mode_params,
-- get_port_nb_rx_queues and init_lcore_rx_queues of ipsec-secgw.c.
pub mod Queues
pub mod Ports
use ipsec_secgw_old.Prelude.{
  ℕ, suc, ◌+◌, ◌/◌, ◌%◌, ◌^◌, ◌≡◌, Bool, true, false, ◌&&◌, not, ◌==◌, leb, ltb, if◌then◌else◌,
  List, [], ◌∷◌, ◌++◌, Option, none, some, length,
}

-- struct lcore_params
pub record LcoreParams : Type 0 where
  pub port_id : ℕ
  pub queue_id : ℕ
  pub lcore_id : ℕ

-- struct lcore_rx_queue
pub record LcoreRxQueue : Type 0 where
  pub port_id : ℕ
  pub queue_id : ℕ

-- The loop of check_flow_params: it fails at the last entry, so that it passes where there is none.
-- False for -1.
unfoldable pub check_flow_params : List LcoreParams → ℕ → ℕ → Bool
check_flow_params [] fdir_portid fdir_qid = true
check_flow_params (p ∷ []) fdir_portid fdir_qid =
    (p.port_id == fdir_portid) && (p.queue_id == fdir_qid)
check_flow_params (p ∷ q ∷ ps) fdir_portid fdir_qid =
    let rest = check_flow_params (q ∷ ps) fdir_portid fdir_qid in
    if (p.port_id == fdir_portid) && (p.queue_id == fdir_qid) then true else rest

-- What the check asks of the machine.
pub record Machine : Type 0 where
  pub lcore_is_enabled : ℕ → Bool
  pub enabled_port_mask : ℕ
  pub is_valid_port : ℕ → Bool

-- A shift of an int by 32 or more has no result in C.
pub data Checked : Type 0 where
  accepted refused undefined : Checked

unfoldable pub check_params_loop : Machine → List LcoreParams → Checked
check_params_loop machine [] = accepted
check_params_loop machine (p ∷ ps) =
    let rest = check_params_loop machine ps in
    if not (machine.lcore_is_enabled p.lcore_id)
    then refused
    else if leb 32 p.port_id
    then undefined
    else if machine.enabled_port_mask / 2 ^ p.port_id % 2 == 0
    then refused
    else if not (machine.is_valid_port p.port_id)
    then refused
    else rest

-- The configuration is given; `poll_mode` says that its mode is that. The parameters are `none` where
-- no option gave them.
unfoldable pub check_poll_mode_params : Machine → Bool → Option (List LcoreParams) → Checked
unfolding check_params_loop
check_poll_mode_params machine false params = accepted
check_poll_mode_params machine true none = refused
check_poll_mode_params machine true (some ps) = check_params_loop machine ps

-- The highest queue so far, `none` for -1.
unfoldable pub highest_queue : ℕ → List LcoreParams → Option ℕ → Option ℕ
highest_queue port [] queue = queue
highest_queue port (p ∷ ps) none =
    highest_queue port ps (if p.port_id == port then some p.queue_id else none)
highest_queue port (p ∷ ps) (some q) =
    highest_queue port ps (some (if (p.port_id == port) && ltb q p.queue_id then p.queue_id else q))

unfoldable pub get_port_nb_rx_queues : List LcoreParams → ℕ → ℕ
unfolding highest_queue
get_port_nb_rx_queues ps port = elim (highest_queue port ps none) [
  | none ↦ 0
  | some q ↦ (q + 1) % 256
]

abbrev pub max_rx_queue_per_lcore : ℕ
max_rx_queue_per_lcore = 16

-- The queues of each core: rx_queue_list, as far as nb_rx_queue says.
abbrev pub RxQueues : Type 0
RxQueues = ℕ → List LcoreRxQueue

abbrev pub rx_queue : LcoreParams → LcoreRxQueue
rx_queue p = record { port_id = p.port_id; queue_id = p.queue_id }

abbrev pub add_queue : LcoreParams → RxQueues → RxQueues
add_queue p conf lcore = if lcore == p.lcore_id then conf lcore ++ rx_queue p ∷ [] else conf lcore

-- `none` for -1; the program ends then.
unfoldable pub init_lcore_rx_queues : List LcoreParams → RxQueues → Option RxQueues
init_lcore_rx_queues [] conf = some conf
init_lcore_rx_queues (p ∷ ps) conf = elim (leb max_rx_queue_per_lcore (length (conf p.lcore_id))) [
  | true ↦ none
  | false ↦ init_lcore_rx_queues ps (add_queue p conf)
]
