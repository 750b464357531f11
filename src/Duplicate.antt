-- ===== src/Duplicate.antt =====
-- lib/DuplicateBB.cpp: which blocks are duplicated, and on which value their clones branch.
pub mod Clone
pub mod Select
pub mod Whole
use llvm_study.Base.{
  ℕ, zero, suc, ◌+◌, Bool, true, false, List, [], ◌∷◌, ◌==◌, if◌then◌else◌, length, get_or,
}
use llvm_study.Containers.{Eq, address_eq, at}
use llvm_study.Mba.Block.{PreservedAnalyses, preserve_none, preserve_all}
use llvm_study.Riv.{Result}

-- What the pass asks LLVM and the random number generator: `isLandingPad` of a block, whether a
-- value is a `GlobalValue`, and the draw number `i` of an index below a size.
pub record Queries : Type 0 where
  pub is_landing_pad : ℕ → Bool
  pub is_global : ℕ → Bool
  pub pick : ℕ → ℕ → ℕ

module _ (q : Queries) (riv : Result) where
  -- `findBBsToDuplicate`, over the blocks of the function and before draw `i`.
  unfoldable pub find_from : ℕ → List ℕ → List (ℕ × ℕ)
  unfolding at
  find_from i [] = []
  find_from i (b ∷ bs) =
      let values = at [] b riv in
      let count = length values in
      let chosen = get_or values (q.pick i count) 0 in
      elim (q.is_landing_pad b) [
        | true ↦ find_from i bs
        | false ↦ elim (count == 0) [
          | true ↦ find_from i bs
          | false ↦ elim (q.is_global chosen) [
            | true ↦ find_from (i + 1) bs
            | false ↦ (b, chosen) ∷ find_from (i + 1) bs
          ]
        ]
      ]

  unfoldable pub find_bbs_to_duplicate : List ℕ → List (ℕ × ℕ)
  unfolding find_from
  find_bbs_to_duplicate bs = find_from 0 bs

  abbrev pub is_empty : List (ℕ × ℕ) → Bool
  is_empty [] = true
  is_empty (t ∷ ts) = false

  -- What `run` returns, after it has cloned every target.
  unfoldable pub run : List ℕ → PreservedAnalyses
  unfolding find_bbs_to_duplicate
  run bs = if is_empty (find_bbs_to_duplicate bs) then preserve_none else preserve_all

  -- What `runOnFunction` of the legacy pass returns.
  unfoldable pub legacy_run_on_function : List ℕ → Bool
  unfolding find_bbs_to_duplicate
  legacy_run_on_function bs = if is_empty (find_bbs_to_duplicate bs) then false else true
