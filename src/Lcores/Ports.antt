-- ===== src/Lcores/Ports.antt =====
-- The receive queues of a port are enough for the queues that the parameters name for it.
use ipsec_secgw_old.Prelude.{ℕ, suc, ◌≤◌, ◌<◌, ◌≡◌, List, [], ◌∷◌, Option, some}
use ipsec_secgw_old.Lcores.{LcoreParams, highest_queue}

-- Each queue that the parameters name for the port is below `n`.
abbrev pub AllBelow : ℕ → List LcoreParams → ℕ → Type 0
AllBelow port [] n = Unit {0}
AllBelow port (p ∷ ps) n = (p.port_id ≡ port → p.queue_id < n) × AllBelow port ps n

-- No queue is 255.
abbrev pub AllShort : List LcoreParams → Type 0
AllShort [] = Unit {0}
AllShort (p ∷ ps) = (p.queue_id < 255) × AllShort ps

-- A queue that is as high as each queue of the port.
record IsEnough (port : ℕ) (ps : List LcoreParams) (queue : Option ℕ) (low : ℕ) : Type 0 where
  top : ℕ
  same : highest_queue port ps queue ≡ some top
  at_least : low ≤ top
  small : top < 255
  covers : AllBelow port ps (suc top)
