-- ===== src/Poll/Policies.antt =====
-- The inbound policies of the poll mode: what they keep, and what they count.
use ipsec_secgw_old.Prelude.{
  ℕ, ◌+◌, ◌-◌, ◌<◌, ◌≡◌, ◌≢◌, ◌⊎◌, refl, sym, ap, subst, ◌∙◌, append-nil, append_assoc, inl, inr,
  true, List, [], ◌∷◌, ◌++◌, some, Bool, not, ◌==◌, ◌&&◌, arith, length, length-append, get_elem?,
  count_if, count_if-append, Bool-cases,
}
use ipsec_secgw_old.Packet.{Mbuf, Sa, SaCtx, Freed, free_pkts, u32}
use ipsec_secgw_old.Packet.Tally.{packets, count_if-packets}
use ipsec_secgw_old.SaLookup.{inbound_sa_check}
use ipsec_secgw_old.SaLookup.Pointers.{inbound_sa_check-inv, inbound_sa_check-matches}
use ipsec_secgw_old.Worker.Policy.{Acl, discard, bypass}
use ipsec_secgw_old.Poll.{
  SpdStats, Checked, InVerdict, bypassed, discarded, protected, inbound_sp_verdict, keep_or_free,
  inbound_sp_loop, inbound_sp_sa,
}

-- The number of packets that the statistics have counted.
abbrev pub counted : SpdStats → ℕ
counted s = s.protect + s.bypass + s.discard

-- The packets of a check, wherever they are.
abbrev pub check_held : (Mbuf → Bool) → Checked → ℕ
check_held p c = count_if p (packets c.ip) + count_if p (packets c.ipsec) + count_if p c.freed.mbufs

-- A packet that may pass: a rule bypasses it; or a rule protects it, its SA has the SPI of the SA that
-- the rule names, and where it is among the first `lim` packets the device has processed it.
abbrev pub Allowed : SaCtx → Acl → ℕ → Mbuf → ℕ → Type 0
Allowed sa_ctx acl lim m ofs =
    let res = u32 (acl m ofs) in
    (res ≡ bypass)
    ⊎ ((res ≢ discard)
        × (0 < lim → m.rx_sec_offload ≡ true)
        × ((sa : Sa) × (rule : Sa) × (m.priv_sa ≡ some sa)
            × (get_elem? sa_ctx.sa (res - 1) ≡ some rule)
            × (rule.spi ≡ sa.spi)))

-- Of a burst, the packets that may pass, in their order.
pub data Sifted (sa_ctx : SaCtx) (acl : Acl) : ℕ → List (Mbuf × ℕ) → List (Mbuf × ℕ) → Type 0 where
  ended : {lim : ℕ} → Sifted sa_ctx acl lim [] []
  passes :
      {lim ofs : ℕ} {m : Mbuf} {rest out : List (Mbuf × ℕ)}
      → Allowed sa_ctx acl lim m ofs
      → Sifted sa_ctx acl (lim - 1) rest out
      → Sifted sa_ctx acl lim ((m, ofs) ∷ rest) ((m, ofs) ∷ out)
  refused :
      {lim ofs : ℕ} {m : Mbuf} {rest out : List (Mbuf × ℕ)}
      → (Allowed sa_ctx acl lim m ofs → ⊥)
      → Sifted sa_ctx acl (lim - 1) rest out
      → Sifted sa_ctx acl lim ((m, ofs) ∷ rest) out

keep_or_free-counts :
    (p : Mbuf → Bool) (v : InVerdict) (m : Mbuf) (ofs : ℕ) (c : Checked)
    → let c' = keep_or_free v m ofs c in
      (check_held p c' ≡ check_held p c + count_if p (m ∷ []))
      × (counted c'.stats ≡ counted c.stats + 1)
      × (length c'.ip + c.stats.protect + c.stats.bypass
          ≡ length c.ip + c'.stats.protect + c'.stats.bypass)
unfolding keep_or_free free_pkts
keep_or_free-counts p bypassed m ofs c = (
  omega (arith, count_if-packets p c.ip ((m, ofs) ∷ [])),
  omega arith,
  omega (arith, length-append c.ip ((m, ofs) ∷ [])),
)
keep_or_free-counts p protected m ofs c = (
  omega (arith, count_if-packets p c.ip ((m, ofs) ∷ [])),
  omega arith,
  omega (arith, length-append c.ip ((m, ofs) ∷ [])),
)
keep_or_free-counts p discarded m ofs c =
    (omega (arith, count_if-append p c.freed.mbufs (m ∷ [])), omega arith, omega arith)

-- The verdict discards exactly the packets that may not pass.
data Decided (sa_ctx : SaCtx) (acl : Acl) (lim : ℕ) (m : Mbuf) (ofs : ℕ) : InVerdict → Type 0 where
  let_pass :
      {v : InVerdict}
      → v ≢ discarded
      → Allowed sa_ctx acl lim m ofs
      → Decided sa_ctx acl lim m ofs v
  not_allowed :
      {v : InVerdict}
      → v ≡ discarded
      → (Allowed sa_ctx acl lim m ofs → ⊥)
      → Decided sa_ctx acl lim m ofs v

inbound_sp_verdict-Decided :
    (sa_ctx : SaCtx) (acl : Acl) (lim : ℕ) (m : Mbuf) (ofs : ℕ)
    → Decided sa_ctx acl lim m ofs (inbound_sp_verdict sa_ctx acl (not (lim == 0)) m ofs)
unfolding inbound_sp_verdict
inbound_sp_verdict-Decided sa_ctx acl lim m ofs =
    let res = u32 (acl m ofs) in
    elim (Bool-cases (res == bypass)) [
      | inl e ↦ let_pass (rw (e) (λ d. cc d)) (inl (ground arith))
      | inr e ↦
          let not_bypass : res ≢ bypass = λ b. ground arith in
          elim (Bool-cases (res == discard)) [
            | inl f ↦
                let is_discard : res ≡ discard = ground arith in
                not_allowed (rw (e, f) refl)
                  (λ a. elim a [ inl b ↦ not_bypass b | inr (ne, flag, noted) ↦ ne is_discard ])
            | inr f ↦ elim (Bool-cases (not (lim == 0) && not m.rx_sec_offload)) [
              | inl g ↦ not_allowed (rw (e, f, g) refl) (λ a. elim a [
                | inl b ↦ not_bypass b
                | inr (ne, processed, noted) ↦
                    let early : 0 < lim = ground arith in
                    let flag : m.rx_sec_offload ≡ true = processed early in ground arith
              ])
              | inr g ↦
                  let processed : 0 < lim → m.rx_sec_offload ≡ true = λ early. ground arith in
                  elim (Bool-cases (inbound_sa_check sa_ctx m (res - 1))) [
                    | inl k ↦
                        let_pass (rw (e, f, g, k) (λ d. cc d))
                          (inr (ground arith, processed, inbound_sa_check-inv sa_ctx m (res - 1) k))
                    | inr k ↦ not_allowed (rw (e, f, g, k) refl) (λ a. elim a [
                      | inl b ↦ not_bypass b
                      | inr (ne, flag, (sa, rule, own, named, same)) ↦
                          let matches : inbound_sa_check sa_ctx m (res - 1) ≡ true =
                            inbound_sa_check-matches sa_ctx m (res - 1) sa rule own named same in
                          cc (matches, k)
                    ])
                  ]
            ]
          ]
    ]

keep_or_free-passes :
    (v : InVerdict) (m : Mbuf) (ofs : ℕ) (c : Checked)
    → v ≢ discarded
    → (keep_or_free v m ofs c).ip ≡ c.ip ++ ((m, ofs) ∷ [])
unfolding keep_or_free
keep_or_free-passes bypassed m ofs c h = refl
keep_or_free-passes protected m ofs c h = refl
keep_or_free-passes discarded m ofs c h = absurd (h refl)

keep_or_free-refuses :
    (m : Mbuf) (ofs : ℕ) (c : Checked) → (keep_or_free discarded m ofs c).ip ≡ c.ip
unfolding keep_or_free
keep_or_free-refuses m ofs c = refl

-- The packets that stay come after those there were.
abbrev pub Stay : SaCtx → Acl → ℕ → List (Mbuf × ℕ) → Checked → Checked → Type 0
Stay sa_ctx acl lim ip c c' =
    (out : List (Mbuf × ℕ)) × (c'.ip ≡ c.ip ++ out) × Sifted sa_ctx acl lim ip out

next-Stay :
    (sa_ctx : SaCtx) (acl : Acl) (lim : ℕ) (m : Mbuf) (ofs : ℕ) (rest : List (Mbuf × ℕ))
    (v : InVerdict) (c c' : Checked)
    → Decided sa_ctx acl lim m ofs v
    → Stay sa_ctx acl (lim - 1) rest (keep_or_free v m ofs c) c'
    → Stay sa_ctx acl lim ((m, ofs) ∷ rest) c c'
next-Stay sa_ctx acl lim m ofs rest v c c' (let_pass kept allowed) (out, e, sifted) = (
  (m, ofs) ∷ out,
  e
      ∙ ap (λ l. l ++ out) (keep_or_free-passes v m ofs c kept)
      ∙ append_assoc c.ip ((m, ofs) ∷ []) out,
  passes allowed sifted,
)
next-Stay sa_ctx acl lim m ofs rest v c c' (not_allowed dropped barred) (out, e, sifted) = (
  out,
  e
      ∙ ap (λ w. (keep_or_free w m ofs c).ip ++ out) dropped
      ∙ ap (λ l. l ++ out) (keep_or_free-refuses m ofs c),
  refused barred sifted,
)

-- What the checks of a burst come to, from `c`.
abbrev pub InboundOutcome :
    (Mbuf → Bool) → SaCtx → Acl → ℕ → List (Mbuf × ℕ) → Checked → Checked → Type 0
InboundOutcome p sa_ctx acl lim ip c c' =
    Stay sa_ctx acl lim ip c c'
    × (check_held p c' ≡ check_held p c + count_if p (packets ip))
    × (counted c'.stats ≡ counted c.stats + length ip)
    × (length c'.ip + c.stats.protect + c.stats.bypass
        ≡ length c.ip + c'.stats.protect + c'.stats.bypass)

inbound_sp_loop-outcome :
    (p : Mbuf → Bool) (sa_ctx : SaCtx) (acl : Acl) (lim : ℕ) (ip : List (Mbuf × ℕ)) (c : Checked)
    → InboundOutcome p sa_ctx acl lim ip c (inbound_sp_loop sa_ctx acl lim ip c)
unfolding inbound_sp_loop
inbound_sp_loop-outcome p sa_ctx acl lim [] c =
    (([], sym (append-nil c.ip), ended), omega arith, omega arith, refl)
inbound_sp_loop-outcome p sa_ctx acl lim ((m, ofs) ∷ rest) c =
    let v = inbound_sp_verdict sa_ctx acl (not (lim == 0)) m ofs in
    let one = keep_or_free-counts p v m ofs c in
    let (stay, held, count, kept) =
      inbound_sp_loop-outcome p sa_ctx acl (lim - 1) rest (keep_or_free v m ofs c) in
    (
      next-Stay sa_ctx acl lim m ofs rest v c
          (inbound_sp_loop sa_ctx acl (lim - 1) rest (keep_or_free v m ofs c))
          (inbound_sp_verdict-Decided sa_ctx acl lim m ofs) stay,
      omega (arith, held, one),
      omega (arith, count, one),
      omega (arith, kept, one),
    )

-- With a policy database, inbound_sp_sa keeps, in their order, exactly the packets that may pass: a
-- rule bypasses it, or a rule protects it, the SA noted for it has the SPI of the SA that the rule
-- names, and where it is among the first `lim` it has the flag RTE_MBUF_F_RX_SEC_OFFLOAD. No packet
-- is lost; and the statistics count every packet once, as bypassed or protected if it is kept and as
-- discarded if it is freed.
pub inbound_sp_sa-admits :
    (p : Mbuf → Bool) (acl : Acl) (sa_ctx : SaCtx) (ip : List (Mbuf × ℕ)) (lim : ℕ) (freed : Freed)
    (stats : SpdStats)
    → let c' = inbound_sp_sa (some acl) sa_ctx ip lim freed stats in
      Sifted sa_ctx acl lim ip c'.ip
      × (check_held p c' ≡ count_if p freed.mbufs + count_if p (packets ip))
      × (counted c'.stats ≡ counted stats + length ip)
      × (length c'.ip + stats.protect + stats.bypass ≡ c'.stats.protect + c'.stats.bypass)
unfolding inbound_sp_sa
inbound_sp_sa-admits p acl sa_ctx ip lim freed stats =
    let start : Checked = record { ip = []; ipsec = []; freed = freed; stats = stats } in
    let ((out, e, sifted), held, count, kept) = inbound_sp_loop-outcome p sa_ctx acl lim ip start in
    (
      subst (Sifted sa_ctx acl lim ip) (sym e) sifted,
      omega (arith, held),
      omega (arith, count),
      omega (arith, kept),
    )
