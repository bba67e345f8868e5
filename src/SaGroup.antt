-- ===== src/SaGroup.antt =====
-- sa_group of ipsec_process.c: the packets of a burst, grouped by runs of the same SA pointer.
pub mod Runs
use ipsec_secgw_old.Prelude.{
  ℕ, suc, ◌+◌, ◌-◌, List, [], ◌∷◌, ◌++◌, Option, none, some, ◌==◌, if◌then◌else◌,
}

-- struct rte_ipsec_group: the SA pointer, the index of the first packet, and how many there are.
pub record Group : Type 0 where
  pub id : ℕ
  pub m : ℕ
  pub cnt : ℕ

-- The group that is being filled, if there is one: `sa != nosa`, with `grp[n].id` and `grp[n].m`.
-- `nosa` is the address of a local variable, so it is no SA pointer.
abbrev pub Open : Type 0
Open = Option (ℕ × ℕ)

-- The groups completed before packet `i` when the group that is open is left.
close : ℕ → Open → List Group
close i none = []
close i (some (sa, m)) = record { id = sa; m = m; cnt = i - m } ∷ []

-- The body of the loop at packet `i`: what it completes, and the group that is open after it.
visit : ℕ → ℕ → Open → List Group × Open
visit i ptr none = ([], some (ptr, i))
visit i ptr (some (sa, m)) =
    if sa == ptr
    then ([], some (sa, m))
    else (record { id = sa; m = m; cnt = i - m } ∷ [], some (ptr, i))

group_from : ℕ → List ℕ → Open → List Group
unfolding visit close
group_from i [] o = close i o
group_from i (ptr ∷ ptrs) o = let (done, o') = visit i ptr o in done ++ group_from (i + 1) ptrs o'

-- The groups in order; the result of the C function is their number.
unfoldable pub sa_group : List ℕ → List Group
unfolding group_from
sa_group ptrs = group_from 0 ptrs none
