-- ===== src/MergeBb/Merge/Assertion.antt =====
-- The assertion in `replaceBB` of lib/MergeBB.cpp.
use llvm_study.Base.{
  ℕ, ◌≡◌, refl, Bool, true, false, not, ◌&&◌, List, [], ◌∷◌, ◌==◌, ==_iff, if◌then◌else◌, arith,
}
use llvm_study.Containers.{address_eq, has}
use llvm_study.Cfg.{Block}
use package.llvm_study.MergeBb.Merge.{retarget, is_updated, updates_all}
use package.llvm_study.MergeBb.Merge.Retarget.{mentions-set_targets}

abbrev pub distinct : List ℕ → Bool
distinct [] = true
distinct (p ∷ ps) = not (has p ps) && distinct ps

-- Each block has an edge to the block to erase.
abbrev pub all_branch : List ℕ → ℕ → List Block → Bool
all_branch [] erase bs = true
all_branch (p ∷ ps) erase bs = is_updated p erase bs && all_branch ps erase bs

-- A terminator that was updated has no edge left.
is_updated-retarget :
    (p q erase retain : ℕ) (bs : List Block)
    → (retain == erase) ≡ false
    → is_updated q erase (retarget p erase retain bs)
      ≡ (if p == q then false else is_updated q erase bs)
is_updated-retarget p q erase retain [] ne = ground arith
is_updated-retarget p q erase retain (x ∷ xs) ne = ground (
  arith,
  is_updated-retarget p q erase retain xs ne,
  mentions-set_targets erase retain x.term.operands ne,
)

all_branch-retarget :
    (p erase retain : ℕ) (qs : List ℕ) (bs : List Block)
    → (retain == erase) ≡ false
    → all_branch qs erase (retarget p erase retain bs) ≡ (not (has p qs) && all_branch qs erase bs)
unfolding has
all_branch-retarget p erase retain [] bs ne = refl
all_branch-retarget p erase retain (q ∷ qs) bs ne = ground (
  arith,
  all_branch-retarget p erase retain qs bs ne,
  is_updated-retarget p q erase retain bs ne,
  ==_iff p q,
  ==_iff q p,
)

-- For two different blocks: the assertion that an operand was updated holds for all listed
-- predecessors exactly when each of them has an edge to the block to erase and none is listed twice.
pub replace_bb-updates :
    (ps : List ℕ) (erase retain : ℕ) (bs : List Block)
    → (retain == erase) ≡ false
    → updates_all ps erase retain bs ≡ (all_branch ps erase bs && distinct ps)
unfolding updates_all
replace_bb-updates [] erase retain bs ne = refl
replace_bb-updates (p ∷ ps) erase retain bs ne = ground (
  arith,
  replace_bb-updates ps erase retain (retarget p erase retain bs) ne,
  all_branch-retarget p erase retain ps bs ne,
)
