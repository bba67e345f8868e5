-- ===== src/Lcores/Queues.antt =====
-- Each core gets the queues that the parameters name for it, in their order.
use ipsec_secgw_old.Prelude.{
  ℕ, suc, ◌≤◌, ◌<◌, ◌≡◌, refl, sym, subst, ◌∙◌, true, false, ◌==◌, leb, if◌then◌else◌, Bool-cases,
  ◌⊎◌, inl, inr, List, [], ◌∷◌, ◌++◌, append-nil, append_assoc, none, some, length, length-append,
  arith,
}
use ipsec_secgw_old.Lcores.{
  LcoreParams, LcoreRxQueue, RxQueues, add_queue, rx_queue, init_lcore_rx_queues,
  max_rx_queue_per_lcore,
}

-- The queues that the parameters name for a core.
abbrev pub queues_of : ℕ → List LcoreParams → List LcoreRxQueue
queues_of lcore [] = []
queues_of lcore (p ∷ ps) =
    if lcore == p.lcore_id then rx_queue p ∷ queues_of lcore ps else queues_of lcore ps

-- No core has more than MAX_RX_QUEUE_PER_LCORE queues.
unfoldable pub IsWithin : RxQueues → Type 0
IsWithin conf = (lcore : ℕ) → length (conf lcore) ≤ max_rx_queue_per_lcore

add_queue-IsWithin :
    (p : LcoreParams) (conf : RxQueues)
    → IsWithin conf
    → leb max_rx_queue_per_lcore (length (conf p.lcore_id)) ≡ false
    → IsWithin (add_queue p conf)
unfolding IsWithin
add_queue-IsWithin p conf within room = λ lcore. elim (Bool-cases (lcore == p.lcore_id)) [
  | inr e ↦ rw (e) (within lcore)
  | inl e ↦
      let own : lcore ≡ p.lcore_id = ground arith in
      let small : length (conf p.lcore_id) < max_rx_queue_per_lcore = ground arith in
      let small_here : length (conf lcore) < max_rx_queue_per_lcore =
        subst (λ l. length (conf l) < max_rx_queue_per_lcore) (sym own) small in
      let grown : length (conf lcore ++ rx_queue p ∷ []) ≤ max_rx_queue_per_lcore =
        omega (arith, length-append (conf lcore) (rx_queue p ∷ []), small_here) in
      rw (e) grown
]

add_queue-queues_of :
    (p : LcoreParams) (ps : List LcoreParams) (conf : RxQueues) (lcore : ℕ)
    → add_queue p conf lcore ++ queues_of lcore ps ≡ conf lcore ++ queues_of lcore (p ∷ ps)
add_queue-queues_of p ps conf lcore = elim (Bool-cases (lcore == p.lcore_id)) [
  | inr e ↦ rw (e) refl
  | inl e ↦ rw (e) (append_assoc (conf lcore) (rx_queue p ∷ []) (queues_of lcore ps))
]

-- A core for which the parameters name more queues than there is room for.
pub record IsOver (conf : RxQueues) (ps : List LcoreParams) : Type 0 where
  pub lcore : ℕ
  pub too_many : max_rx_queue_per_lcore < length (conf lcore ++ queues_of lcore ps)

length-queues_of :
    (p : LcoreParams) (ps : List LcoreParams)
    → length (queues_of p.lcore_id (p ∷ ps)) ≡ suc (length (queues_of p.lcore_id ps))
length-queues_of p ps = let own : (p.lcore_id == p.lcore_id) ≡ true = ground arith in rw (own) refl

lcore_id-IsOver :
    (p : LcoreParams) (ps : List LcoreParams) (conf : RxQueues)
    → leb max_rx_queue_per_lcore (length (conf p.lcore_id)) ≡ true
    → IsOver conf (p ∷ ps)
lcore_id-IsOver p ps conf full =
    let large : max_rx_queue_per_lcore ≤ length (conf p.lcore_id) = ground arith in
    record {
      lcore = p.lcore_id;
      too_many = omega (
        arith,
        length-append (conf p.lcore_id) (queues_of p.lcore_id (p ∷ ps)),
        length-queues_of p ps,
        large,
      );
    }

-- The queues there were, and those of the parameters after them.
pub record IsSpread (conf : RxQueues) (ps : List LcoreParams) (conf' : RxQueues) : Type 0 where
  pub queues : (lcore : ℕ) → conf' lcore ≡ conf lcore ++ queues_of lcore ps
  pub within : IsWithin conf'

-- Where no core has too many queues before: either every core has the queues that the parameters name
-- for it, in their order, after those it had,
-- and none has too many; or init_lcore_rx_queues fails, and for a core there are too many.
pub init_lcore_rx_queues-IsSpread :
    (ps : List LcoreParams) (conf : RxQueues)
    → IsWithin conf
    → ((conf' : RxQueues) × (init_lcore_rx_queues ps conf ≡ some conf') × IsSpread conf ps conf')
      ⊎ ((init_lcore_rx_queues ps conf ≡ none) × IsOver conf ps)
unfolding init_lcore_rx_queues
init_lcore_rx_queues-IsSpread [] conf within =
    inl (conf, refl, record { queues = λ lcore. sym (append-nil (conf lcore)); within = within })
init_lcore_rx_queues-IsSpread (p ∷ ps) conf within =
    elim (Bool-cases (leb max_rx_queue_per_lcore (length (conf p.lcore_id)))) [
      | inl full ↦ inr (rw (full, init_lcore_rx_queues) refl, lcore_id-IsOver p ps conf full)
      | inr room ↦
          elim (init_lcore_rx_queues-IsSpread ps (add_queue p conf)
            (add_queue-IsWithin p conf within room)) [
              | inl (conf', e, spread) ↦ inl (
                conf',
                rw (room, init_lcore_rx_queues) e,
                record {
                  queues = λ lcore. spread.queues lcore ∙ add_queue-queues_of p ps conf lcore;
                  within = spread.within;
                },
              )
              | inr (e, over) ↦ inr (
                rw (room, init_lcore_rx_queues) e,
                record {
                  lcore = over.lcore;
                  too_many =
                      subst (λ qs. max_rx_queue_per_lcore < length qs)
                        (add_queue-queues_of p ps conf over.lcore) over.too_many;
                },
              )
            ]
    ]
