-- ===== src/Worker/Bulk/Agree.antt =====
-- The checks of a burst lose no packet, and agree with those of single packets.
use ipsec_secgw_old.Prelude.{
  ℕ, ◌+◌, ◌-◌, ◌≡◌, ◌≢◌, ◌∙◌, refl, sym, ap, List, [], ◌∷◌, ◌++◌, Option, none, some, Bool, true,
  false, ◌==◌, if◌then◌else◌, count_if, count_if-append, arith, Bool-cases, inl, inr, append-nil,
  append_assoc,
}
use ipsec_secgw_old.Packet.{Mbuf, SaCtx, Freed, free_pkts, u32}
use ipsec_secgw_old.Packet.Tally.{packets, count_if-packets}
use ipsec_secgw_old.Worker.Policy.{Acl, check_sp, discard, bypass}
use ipsec_secgw_old.Worker.Bulk.{
  Verdict, drop, keep, protect, Split, place, place_all, sp_verdict, check_sp_bulk, sa_verdict,
  sp_sa_verdict, check_sp_sa_bulk,
}

-- The packets of a burst that pass the test `p`, wherever they are now.
abbrev pub held : (Mbuf → Bool) → Split → ℕ
held p s = count_if p s.ip + count_if p (packets s.ipsec) + count_if p s.freed.mbufs

place-held :
    (p : Mbuf → Bool) (v : Verdict) (m : Mbuf) (s : Split)
    → held p (place v m s) ≡ held p s + count_if p (m ∷ [])
unfolding place free_pkts
place-held p drop m s = omega (arith, count_if-append p s.freed.mbufs (m ∷ []))
place-held p keep m s = omega (arith, count_if-append p s.ip (m ∷ []))
place-held p (protect i) m s = omega (arith, count_if-packets p s.ipsec ((m, i) ∷ []))

place_all-held :
    (p : Mbuf → Bool) (verdict : Mbuf → ℕ → Verdict) (ip : List (Mbuf × ℕ)) (s : Split)
    → held p (place_all verdict ip s) ≡ held p s + count_if p (packets ip)
unfolding place_all
place_all-held p verdict [] s = omega arith
place_all-held p verdict ((m, nlp) ∷ rest) s = omega (
  arith,
  place_all-held p verdict rest (place (verdict m nlp) m s),
  place-held p (verdict m nlp) m s,
)

-- check_sp_bulk and check_sp_sa_bulk neither lose a packet nor double one: each stays, goes to
-- IPsec, or is freed.
pub check_sp_bulk-conserves :
    (p : Mbuf → Bool) (sp : Option Acl) (sa_ctx : SaCtx) (ip ipsec : List (Mbuf × ℕ))
    (freed : Freed)
    → (held p (check_sp_bulk sp ip ipsec freed)
        ≡ count_if p (packets ip) + count_if p (packets ipsec) + count_if p freed.mbufs)
      × (held p (check_sp_sa_bulk sp sa_ctx ip freed)
          ≡ count_if p (packets ip) + count_if p freed.mbufs)
unfolding check_sp_bulk check_sp_sa_bulk
check_sp_bulk-conserves p none sa_ctx ip ipsec freed = omega arith
check_sp_bulk-conserves p (some acl) sa_ctx ip ipsec freed = (
  omega (
    arith,
    place_all-held p (sp_verdict acl) ip (record { ip = []; ipsec = ipsec; freed = freed }),
  ),
  omega (
    arith,
    place_all-held p (sp_sa_verdict sa_ctx acl) ip (record { ip = []; ipsec = []; freed = freed }),
  ),
)

place-ipsec :
    (v : Verdict) (m : Mbuf) (s : Split) → ((i : ℕ) → v ≢ protect i) → (place v m s).ipsec ≡ s.ipsec
unfolding place
place-ipsec drop m s h = refl
place-ipsec keep m s h = refl
place-ipsec (protect i) m s h = absurd (h i refl)

place_all-ipsec :
    (verdict : Mbuf → ℕ → Verdict) (ip : List (Mbuf × ℕ)) (s : Split)
    → ((m : Mbuf) (nlp i : ℕ) → verdict m nlp ≢ protect i)
    → (place_all verdict ip s).ipsec ≡ s.ipsec
unfolding place_all
place_all-ipsec verdict [] s h = refl
place_all-ipsec verdict ((m, nlp) ∷ rest) s h =
    place_all-ipsec verdict rest (place (verdict m nlp) m s) h
    ∙ place-ipsec (verdict m nlp) m s (h m nlp)

sp_sa_verdict-ne-protect :
    (sa_ctx : SaCtx) (acl : Acl) (m : Mbuf) (nlp i : ℕ) → sp_sa_verdict sa_ctx acl m nlp ≢ protect i
unfolding sp_sa_verdict sa_verdict
sp_sa_verdict-ne-protect sa_ctx acl m nlp i = λ e. ground arith

-- check_sp_sa_bulk sends nothing to IPsec.
pub check_sp_sa_bulk-ipsec :
    (sp : Option Acl) (sa_ctx : SaCtx) (ip : List (Mbuf × ℕ)) (freed : Freed)
    → (check_sp_sa_bulk sp sa_ctx ip freed).ipsec ≡ []
unfolding check_sp_sa_bulk
check_sp_sa_bulk-ipsec none sa_ctx ip freed = refl
check_sp_sa_bulk-ipsec (some acl) sa_ctx ip freed =
    place_all-ipsec (sp_sa_verdict sa_ctx acl) ip (record { ip = []; ipsec = []; freed = freed })
      (sp_sa_verdict-ne-protect sa_ctx acl)

-- The packets for which `check_sp` gives an answer that passes the test, in order.
abbrev pub checked : (Option ℕ → Bool) → Option Acl → List (Mbuf × ℕ) → List Mbuf
checked test sp [] = []
checked test sp ((m, nlp) ∷ rest) =
    (if test (check_sp sp m nlp) then m ∷ [] else []) ++ checked test sp rest

abbrev pub is_bypass : Option ℕ → Bool
is_bypass none = false
is_bypass (some i) = i == bypass

abbrev pub is_refused : Option ℕ → Bool
is_refused none = true
is_refused (some i) = false

-- The packets that `check_sp` protects, with its answer.
abbrev pub to_protect : Option ℕ → Mbuf → List (Mbuf × ℕ)
to_protect none m = []
to_protect (some i) m = if i == bypass then [] else (m, i) ∷ []

abbrev pub protected_by : Option Acl → List (Mbuf × ℕ) → List (Mbuf × ℕ)
protected_by sp [] = []
protected_by sp ((m, nlp) ∷ rest) = to_protect (check_sp sp m nlp) m ++ protected_by sp rest

-- The verdict on a packet and the answer of `check_sp` for it.
data SameAnswer : Verdict → Option ℕ → Type 0 where
  refused : {v : Verdict} {o : Option ℕ} → v ≡ drop → o ≡ none → SameAnswer v o
  bypassed : {v : Verdict} {o : Option ℕ} → v ≡ keep → o ≡ some bypass → SameAnswer v o
  protected :
      {v : Verdict} {o : Option ℕ} (i : ℕ)
      → v ≡ protect i
      → o ≡ some i
      → (i == bypass) ≡ false
      → SameAnswer v o

same_answer :
    (acl : Acl) (m : Mbuf) (nlp : ℕ) → SameAnswer (sp_verdict acl m nlp) (check_sp (some acl) m nlp)
unfolding sp_verdict check_sp
same_answer acl m nlp =
    let res = u32 (acl m nlp) in
    elim (Bool-cases (res == discard)) [
      | inl d ↦ refused (ground arith) (ground arith)
      | inr d ↦ elim (Bool-cases (res == bypass)) [
        | inl b ↦ bypassed (ground arith) (ground arith)
        | inr b ↦ protected (res - 1) (ground arith) (ground arith) (ground arith)
      ]
    ]

-- Where the packets of a burst are, by the answers of `check_sp`, after those there already.
record AsChecked (acl : Acl) (ip : List (Mbuf × ℕ)) (s out : Split) : Type 0 where
  stays : out.ip ≡ s.ip ++ checked is_bypass (some acl) ip
  to_ipsec : out.ipsec ≡ s.ipsec ++ protected_by (some acl) ip
  frees : out.freed.mbufs ≡ s.freed.mbufs ++ checked is_refused (some acl) ip

abbrev if_passes : (Option ℕ → Bool) → Option ℕ → Mbuf → List Mbuf
if_passes test o m = if test o then m ∷ [] else []

place-AsChecked :
    {v : Verdict} {o : Option ℕ} (m : Mbuf) (s : Split)
    → SameAnswer v o
    → ((place v m s).ip ≡ s.ip ++ if_passes is_bypass o m)
      × ((place v m s).ipsec ≡ s.ipsec ++ to_protect o m)
      × ((place v m s).freed.mbufs ≡ s.freed.mbufs ++ if_passes is_refused o m)
unfolding place free_pkts
place-AsChecked m s (refused v o) =
    rw (v, o) (sym (append-nil s.ip), sym (append-nil s.ipsec), refl)
place-AsChecked m s (bypassed v o) =
    rw (v, o) (refl, sym (append-nil s.ipsec), sym (append-nil s.freed.mbufs))
place-AsChecked m s (protected i v o ne) =
    rw (v, o, ne) (sym (append-nil s.ip), refl, sym (append-nil s.freed.mbufs))

extend {ℓ} :
    {A : Type ℓ} (s a c : List A) {out next : List A}
    → out ≡ next ++ c
    → next ≡ s ++ a
    → out ≡ s ++ (a ++ c)
extend s a c e f = e ∙ ap (λ t. t ++ c) f ∙ append_assoc s a c

place_all-AsChecked :
    (acl : Acl) (ip : List (Mbuf × ℕ)) (s : Split)
    → AsChecked acl ip s (place_all (sp_verdict acl) ip s)
unfolding place_all
place_all-AsChecked acl [] s = record {
  stays = sym (append-nil s.ip);
  to_ipsec = sym (append-nil s.ipsec);
  frees = sym (append-nil s.freed.mbufs);
}
place_all-AsChecked acl ((m, nlp) ∷ rest) s =
    let one = place-AsChecked m s (same_answer acl m nlp) in
    let ih = place_all-AsChecked acl rest (place (sp_verdict acl m nlp) m s) in
    record {
      stays = extend _ _ _ ih.stays one.0;
      to_ipsec = extend _ _ _ ih.to_ipsec one.1;
      frees = extend _ _ _ ih.frees one.2;
    }

-- With a policy database, check_sp_bulk does to each packet of a burst what check_sp says of it
-- alone, each in the order of the burst: those that it bypasses stay, those that it protects are put
-- behind the packets for IPsec, with the index that check_sp gives, and those that it refuses are
-- freed.
pub check_sp_bulk-check_sp :
    (acl : Acl) (ip ipsec : List (Mbuf × ℕ)) (freed : Freed)
    → let s = check_sp_bulk (some acl) ip ipsec freed in
      (s.ip ≡ checked is_bypass (some acl) ip)
      × (s.ipsec ≡ ipsec ++ protected_by (some acl) ip)
      × (s.freed.mbufs ≡ freed.mbufs ++ checked is_refused (some acl) ip)
unfolding check_sp_bulk
check_sp_bulk-check_sp acl ip ipsec freed =
    let a = place_all-AsChecked acl ip (record { ip = []; ipsec = ipsec; freed = freed }) in
    (a.stays, a.to_ipsec, a.frees)
