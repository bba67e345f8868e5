-- ===== src/SaGroup/Runs.antt =====
-- The groups are the runs of equal SA pointers.
use ipsec_secgw_old.Prelude.{
  ℕ, zero, suc, ◌+◌, ◌-◌, ◌<◌, ◌≡◌, ◌≢◌, refl, sym, List, [], ◌∷◌, ◌++◌, some, arith, ◌==◌,
  Bool-cases, inl, inr, ==_iff,
}
use ipsec_secgw_old.SaGroup.{Group, group_from, visit, close, sa_group}

abbrev pub replicate : ℕ → ℕ → List ℕ
replicate zero a = []
replicate (suc n) a = a ∷ replicate n a

-- The SA pointers of the packets of the groups, in order.
abbrev pub pointers : List Group → List ℕ
pointers [] = []
pointers (g ∷ gs) = replicate g.cnt g.id ++ pointers gs

-- The groups cover the packets from index `i` on, without a gap, and none is empty.
abbrev pub Covers : ℕ → List Group → Type 0
Covers i [] = Unit {0}
Covers i (g ∷ gs) = (g.m ≡ i) × (0 < g.cnt) × Covers (i + g.cnt) gs

-- Neighbouring groups have different pointers, and the first one's is not `sa`.
abbrev pub Alternates : ℕ → List Group → Type 0
Alternates sa [] = Unit {0}
Alternates sa (g ∷ gs) = (g.id ≢ sa) × Alternates g.id gs

abbrev pub Neighbours : List Group → Type 0
Neighbours [] = Unit {0}
Neighbours (g ∷ gs) = Alternates g.id gs

replicate-snoc : (n a : ℕ) (xs : List ℕ) → replicate n a ++ (a ∷ xs) ≡ replicate (n + 1) a ++ xs
replicate-snoc zero a xs = refl
replicate-snoc (suc n) a xs =
    let e : suc n + 1 ≡ suc (n + 1) = omega arith in rw (replicate-snoc n a xs) (rw e)

-- The run that is open holds the packets from `m` up to `i`.
pointers-open :
    (i m sa : ℕ) (ptrs : List ℕ)
    → m < i
    → pointers (group_from i ptrs (some (sa, m))) ≡ replicate (i - m) sa ++ ptrs
unfolding group_from visit close
pointers-open i m sa [] h = refl
pointers-open i m sa (p ∷ ps) h = elim (Bool-cases (sa == p)) [
  | inl same ↦
      let longer : i + 1 - m ≡ i - m + 1 = omega arith in
      rw (same, ← (==_iff sa p).0 same, pointers-open (i + 1) m sa ps (omega arith), longer)
        (sym (replicate-snoc (i - m) sa ps))
  | inr other ↦
      let one : i + 1 - i ≡ 1 = omega arith in
      rw (other, pointers-open (i + 1) i p ps (omega arith), one)
]

Covers-open : (i m sa : ℕ) (ptrs : List ℕ) → m < i → Covers m (group_from i ptrs (some (sa, m)))
unfolding group_from visit close
Covers-open i m sa [] h = omega arith
Covers-open i m sa (p ∷ ps) h = elim (Bool-cases (sa == p)) [
  | inl same ↦ rw same (Covers-open (i + 1) m sa ps (omega arith))
  | inr other ↦
      let next : m + (i - m) ≡ i = omega arith in
      rw (other, next) (refl, omega arith, Covers-open (i + 1) i p ps (omega arith))
]

-- The next group is that of the run that is open.
Alternates-open :
    (i m sa sa' : ℕ) (ptrs : List ℕ) → sa ≢ sa' → Alternates sa' (group_from i ptrs (some (sa, m)))
unfolding group_from visit close
Alternates-open i m sa sa' [] ne = (ne, tt)
Alternates-open i m sa sa' (p ∷ ps) ne = elim (Bool-cases (sa == p)) [
  | inl same ↦ rw same (Alternates-open (i + 1) m sa sa' ps ne)
  | inr other ↦ rw other (ne, Alternates-open (i + 1) i p sa ps (ground (arith, ==_iff sa p)))
]

Neighbours-Alternates : (sa : ℕ) (gs : List Group) → Alternates sa gs → Neighbours gs
Neighbours-Alternates sa [] h = tt
Neighbours-Alternates sa (g ∷ gs) h = h.1

-- sa_group splits a burst into its runs of equal SA pointers: the groups hold the packets of the
-- burst in order and without a gap, no group is empty, the packets of a group have the pointer
-- that is its id, and neighbouring groups have different ones.
pub sa_group-runs :
    (ptrs : List ℕ)
    → (pointers (sa_group ptrs) ≡ ptrs) × Covers 0 (sa_group ptrs) × Neighbours (sa_group ptrs)
unfolding sa_group group_from visit close
sa_group-runs [] = (refl, tt, tt)
sa_group-runs (p ∷ ps) = (
  pointers-open 1 0 p ps (omega arith),
  Covers-open 1 0 p ps (omega arith),
  Neighbours-Alternates (suc p) _ (Alternates-open 1 0 p (suc p) ps (omega arith)),
)
