-- ===== src/EventHelper/Calls/Follows.antt =====
-- A function that makes the calls of a plan in order, up to the first that fails.
use ipsec_secgw_old.Prelude.{
  ℕ, zero, suc, ◌≡◌, refl, sym, ap, subst, ◌∙◌, Bool, true, false, Bool-cases, inl, inr, List, [],
  ◌∷◌, ◌++◌, append-nil, append_assoc,
}
use ipsec_secgw_old.EventHelper.{ℤ, pos, negsuc, is_negative}
use ipsec_secgw_old.EventHelper.Calls.{
  Call, dev_configure, queue_setup, port_setup, port_link, port_unlink, dev_start, dev_stop,
  dev_close, vector_pool_create, rx_create, tx_create, rx_queue_add, tx_queue_add,
  tx_event_port_get, rx_service_id_get, tx_service_id_get, rx_runstate_check, tx_runstate_check,
  rx_start, tx_start, rx_stop, tx_stop, rx_free, tx_free, rx_queue_del, tx_queue_del, eth_stop,
  eth_start, found_or_esrch, End, returned, null_pointer, Answers, Step, not_negative, finish,
  fault, perform, allocate, require, for_each, for_all, is_error, and_then,
}

-- The answers on which the function goes on after a call: the run states are only logged, the devices
-- are stopped and the Tx queue is unlinked whatever the answer, and an adapter may have no service.
abbrev pub accepts : Call → ℤ → Bool
accepts (port_unlink id port queue) r = true
accepts (dev_stop id) r = true
accepts (rx_runstate_check id) r = true
accepts (tx_runstate_check id) r = true
accepts (rx_service_id_get id) r = found_or_esrch r
accepts (tx_service_id_get id) r = found_or_esrch r
accepts _ r = not_negative r

-- A call that fails is the last that is made, and an error is returned.
abbrev pub StopsAtFailure : Answers → List Call → List Call → End → Type 0
StopsAtFailure answer t [] end = Unit {0}
StopsAtFailure answer t (c ∷ cs) end =
    (accepts c (answer t c) ≡ false → (cs ≡ []) × (is_error end ≡ true))
    × StopsAtFailure answer (t ++ c ∷ []) cs end

-- From the calls `t` on: the calls made are a first part of the plan, and all of it where the function
-- returns no error.
pub record FollowsFrom (answer : Answers) (t : List Call) (run : End × List Call) (plan : List Call)
    : Type 0 where
  pub made : List Call
  pub left : List Call
  pub in_order : plan ≡ made ++ left
  pub made_calls : run.1 ≡ t ++ made
  pub all_made : is_error run.0 ≡ false → run.1 ≡ t ++ plan
  pub stops : StopsAtFailure answer t made run.0

abbrev pub Follows : Answers → Step → List Call → Type 0
Follows answer part plan = (t : List Call) → FollowsFrom answer t (part t) plan

-- A test that fails on an answer only where it is negative, and passes only where the call succeeds.
pub record Fits (answer : Answers) (ok : ℤ → Bool) (c : Call) : Type 0 where
  pub failing : (t : List Call) → ok (answer t c) ≡ false → is_negative (answer t c) ≡ true
  pub passing : (t : List Call) → ok (answer t c) ≡ true → accepts c (answer t c) ≡ true

-- What is not negative is no failure.
pub not_negative-accepts : (c : Call) (r : ℤ) → not_negative r ≡ true → accepts c r ≡ true
not_negative-accepts (port_unlink id port queue) r e = refl
not_negative-accepts (dev_stop id) r e = refl
not_negative-accepts (rx_runstate_check id) r e = refl
not_negative-accepts (tx_runstate_check id) r e = refl
not_negative-accepts (rx_service_id_get id) (pos n) e = refl
not_negative-accepts (rx_service_id_get id) (negsuc n) e = cc e
not_negative-accepts (tx_service_id_get id) (pos n) e = refl
not_negative-accepts (tx_service_id_get id) (negsuc n) e = cc e
not_negative-accepts (dev_configure a b d) r e = e
not_negative-accepts (queue_setup a b d f) r e = e
not_negative-accepts (port_setup a b) r e = e
not_negative-accepts (port_link a b d) r e = e
not_negative-accepts (dev_start a) r e = e
not_negative-accepts (dev_close a) r e = e
not_negative-accepts (vector_pool_create a b) r e = e
not_negative-accepts (rx_create a b) r e = e
not_negative-accepts (tx_create a b) r e = e
not_negative-accepts (rx_queue_add a b d f) r e = e
not_negative-accepts (tx_queue_add a b d) r e = e
not_negative-accepts (tx_event_port_get a) r e = e
not_negative-accepts (rx_start a) r e = e
not_negative-accepts (tx_start a) r e = e
not_negative-accepts (rx_stop a) r e = e
not_negative-accepts (tx_stop a) r e = e
not_negative-accepts (rx_free a) r e = e
not_negative-accepts (tx_free a) r e = e
not_negative-accepts (rx_queue_del a b) r e = e
not_negative-accepts (tx_queue_del a b) r e = e
not_negative-accepts (eth_stop a) r e = e
not_negative-accepts (eth_start a) r e = e

append-cancel : (t a b : List Call) → t ++ a ≡ t ++ b → a ≡ b
append-cancel [] a b e = e
append-cancel (x ∷ t) a b e = let rest : t ++ a ≡ t ++ b = cc e in append-cancel t a b rest

-- Where no error is returned, no call failed, and the calls of a second part may follow.
StopsAtFailure-append :
    (answer : Answers) (t cs ds : List Call) (end end' : End)
    → is_error end ≡ false
    → StopsAtFailure answer t cs end
    → StopsAtFailure answer (t ++ cs) ds end'
    → StopsAtFailure answer t (cs ++ ds) end'
StopsAtFailure-append answer t [] ds end end' fine first second =
    subst (λ u. StopsAtFailure answer u ds end') (append-nil t) second
StopsAtFailure-append answer t (c ∷ cs) ds end end' fine (here, first) second = (
  λ failed. absurd (cc ((here failed).1, fine)),
  StopsAtFailure-append answer (t ++ c ∷ []) cs ds end end' fine first
      (subst (λ u. StopsAtFailure answer u ds end') (sym (append_assoc t (c ∷ []) cs)) second),
)

stopped-Follows :
    (answer : Answers) (t plan : List Call) (c : Call) (end : End)
    → is_error end ≡ true
    → FollowsFrom answer t (end, t ++ c ∷ []) (c ∷ plan)
stopped-Follows answer t plan c end error = record {
  made = c ∷ [];
  left = plan;
  in_order = refl;
  made_calls = refl;
  all_made = λ fine. absurd (cc (fine, error));
  stops = (λ failed. (refl, error), tt);
}

pub finish-Follows : (answer : Answers) (r : ℤ) → Follows answer (finish r) []
unfolding finish
finish-Follows answer r t = record {
  made = [];
  left = [];
  in_order = refl;
  made_calls = sym (append-nil t);
  all_made = λ fine. sym (append-nil t);
  stops = tt;
}

-- After a call, the rest of the plan is followed.
after_call-Follows :
    (answer : Answers) (t : List Call) (c : Call) (run : End × List Call) (plan : List Call)
    → accepts c (answer t c) ≡ true
    → FollowsFrom answer (t ++ c ∷ []) run plan
    → FollowsFrom answer t run (c ∷ plan)
after_call-Follows answer t c run plan good f = record {
  made = c ∷ f.made;
  left = f.left;
  in_order = ap (λ cs. c ∷ cs) f.in_order;
  made_calls = f.made_calls ∙ append_assoc t (c ∷ []) f.made;
  all_made = λ fine. f.all_made fine ∙ append_assoc t (c ∷ []) plan;
  stops = (λ failed. absurd (cc (failed, good)), f.stops);
}

module _ (answer : Answers) where
  pub perform-Follows :
      (ok : ℤ → Bool) (c : Call) {next : Step} {plan : List Call}
      → Fits answer ok c
      → Follows answer next plan
      → Follows answer (perform answer ok c next) (c ∷ plan)
  unfolding perform
  perform-Follows ok c {next} {plan} fits follows t = elim (Bool-cases (ok (answer t c))) [
    | inl e ↦
        rw (e, perform)
          (after_call-Follows answer t c (next (t ++ c ∷ [])) plan (fits.passing t e)
            (follows (t ++ c ∷ [])))
    | inr e ↦
        rw (e, perform) (stopped-Follows answer t plan c (returned (answer t c)) (fits.failing t e))
  ]

  pub allocate-Follows :
      (e : ℤ) (c : Call) {next : Step} {plan : List Call}
      → is_negative e ≡ true
      → Follows answer next plan
      → Follows answer (allocate answer e c next) (c ∷ plan)
  unfolding allocate
  allocate-Follows r c {next} {plan} negative follows t =
      elim (Bool-cases (not_negative (answer t c))) [
        | inl e ↦
            rw (e, allocate)
              (after_call-Follows answer t c (next (t ++ c ∷ [])) plan
                (not_negative-accepts c (answer t c) e) (follows (t ++ c ∷ [])))
        | inr e ↦ rw (e, allocate) (stopped-Follows answer t plan c (returned r) negative)
      ]

  nothing_yet-Follows :
      (t plan : List Call) (end : End) → is_error end ≡ true → FollowsFrom answer t (end, t) plan
  nothing_yet-Follows t plan end error = record {
    made = [];
    left = plan;
    in_order = refl;
    made_calls = sym (append-nil t);
    all_made = λ fine. absurd (cc (fine, error));
    stops = tt;
  }

  pub fault-Follows : (plan : List Call) → Follows answer fault plan
  unfolding fault
  fault-Follows plan t = nothing_yet-Follows t plan null_pointer refl

  pub require-Follows :
      (ok : ℤ → Bool) (r : ℤ) {next : Step} {plan : List Call}
      → (ok r ≡ false → is_negative r ≡ true)
      → Follows answer next plan
      → Follows answer (require ok r next) plan
  unfolding require
  require-Follows ok r {next} {plan} fits follows t = elim (Bool-cases (ok r)) [
    | inl e ↦ rw (e, require) (follows t)
    | inr e ↦ rw (e, require) (nothing_yet-Follows t plan (returned r) (fits e))
  ]

-- The plan of a loop, from the plan of a round and of what comes after it.
abbrev pub each : (ℕ → List Call → List Call) → ℕ → ℕ → List Call → List Call
each plan i zero rest = rest
each plan i (suc n) rest = plan i (each plan (suc i) n rest)

abbrev pub all : (ℕ → List Call → List Call) → List ℕ → List Call → List Call
all plan [] rest = rest
all plan (x ∷ xs) rest = plan x (all plan xs rest)

module _ (answer : Answers) where
  pub for_each-Follows :
      (body : ℕ → Step → Step) (plan : ℕ → List Call → List Call) (n i : ℕ) {next : Step}
      {rest : List Call}
      → ((j : ℕ) (k : Step) (q : List Call)
          → Follows answer k q
          → Follows answer (body j k) (plan j q))
      → Follows answer next rest
      → Follows answer (for_each body i n next) (each plan i n rest)
  unfolding for_each
  for_each-Follows body plan zero i {next} {rest} rounds follows = follows
  for_each-Follows body plan (suc n) i {next} {rest} rounds follows =
      rounds i (for_each body (suc i) n next) (each plan (suc i) n rest)
        (for_each-Follows body plan n (suc i) rounds follows)

  pub for_all-Follows :
      (body : ℕ → Step → Step) (plan : ℕ → List Call → List Call) (xs : List ℕ) {next : Step}
      {rest : List Call}
      → ((j : ℕ) (k : Step) (q : List Call)
          → Follows answer k q
          → Follows answer (body j k) (plan j q))
      → Follows answer next rest
      → Follows answer (for_all body xs next) (all plan xs rest)
  unfolding for_all
  for_all-Follows body plan [] {next} {rest} rounds follows = follows
  for_all-Follows body plan (x ∷ xs) {next} {rest} rounds follows =
      rounds x (for_all body xs next) (all plan xs rest)
        (for_all-Follows body plan xs rounds follows)

  pub and_then-Follows :
      {part next : Step} {p q : List Call}
      → Follows answer part p
      → Follows answer next q
      → Follows answer (and_then part next) (p ++ q)
  unfolding and_then
  and_then-Follows {part} {next} {p} {q} first then_ t = elim (Bool-cases (is_error (part t).0)) [
    | inl e ↦
        rw (e, and_then)
          (record {
            made = f.made;
            left = f.left ++ q;
            in_order = ap (λ cs. cs ++ q) f.in_order ∙ append_assoc f.made f.left q;
            made_calls = f.made_calls;
            all_made = λ fine. absurd (cc (fine, e));
            stops = f.stops;
          })
    | inr e ↦ rw (e, and_then) (after_part e (part t).1 (f.all_made e))
  ]
    where
      f : FollowsFrom answer t (part t) p
      f = first t

      after_part :
          is_error (part t).0 ≡ false
          → (t' : List Call) → t' ≡ t ++ p
          → FollowsFrom answer t (next t') (p ++ q)
      after_part fine_part t' whole =
          let g = then_ t' in
          let made_p : f.made ≡ p =
            append-cancel t f.made p (sym f.made_calls ∙ f.all_made fine_part) in
          record {
            made = p ++ g.made;
            left = g.left;
            in_order = ap (λ cs. p ++ cs) g.in_order ∙ sym (append_assoc p g.made g.left);
            made_calls = g.made_calls ∙ ap (λ cs. cs ++ g.made) whole ∙ append_assoc t p g.made;
            stops =
                StopsAtFailure-append answer t p g.made (part t).0 (next t').0 fine_part
                  (subst (λ cs. StopsAtFailure answer t cs (part t).0) made_p f.stops)
                  (subst (λ u. StopsAtFailure answer u g.made (next t').0) whole g.stops);
            all_made = λ fine. g.all_made fine ∙ ap (λ cs. cs ++ q) whole ∙ append_assoc t p q;
          }
