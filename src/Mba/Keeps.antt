-- ===== src/Mba/Keeps.antt =====
-- What it means that a rewritten block keeps what the block computed, and the loop over the
-- blocks of a function.
use llvm_study.Base.{ℕ, ◌≤◌, ◌≡◌, refl, ap₂, false, List, [], ◌∷◌, All, arith}
use llvm_study.Ir.{Instr}
use llvm_study.Ir.Exec.{Machine, State, exec_all, Agree, IsScoped}
use package.llvm_study.Mba.Block.{BlockResult, run_blocks}
use native.Mathlib.Nat.{le_trans}

-- From states that agree on memory and on the values numbered below `n`, the two blocks end in
-- such states.
abbrev pub KeepsBlock : Machine → ℕ → List Instr → List Instr → Type 0
KeepsBlock m n old new =
    (s t : State m.Mem) → Agree m n s t → Agree m n (exec_all m new s) (exec_all m old t)

-- As many blocks, each kept.
abbrev pub KeepsBlocks : Machine → ℕ → List (List Instr) → List (List Instr) → Type 0
KeepsBlocks m n [] [] = Unit
KeepsBlocks m n (old ∷ olds) (new ∷ news) = KeepsBlock m n old new × KeepsBlocks m n olds news
KeepsBlocks m n _ _ = ⊥

module _ (run_block : List Instr → ℕ → BlockResult) where
  pub run_blocks-Keeps :
      (m : Machine) (n : ℕ)
      → ((insts : List Instr) (k : ℕ)
          → n ≤ k
          → All (IsScoped n) insts
          → (k ≤ (run_block insts k).next) × KeepsBlock m n insts (run_block insts k).insts)
      → (blocks : List (List Instr)) (k : ℕ) → n ≤ k
      → All (All (IsScoped n)) blocks
      → KeepsBlocks m n blocks (run_blocks run_block blocks k).blocks
  unfolding run_blocks
  run_blocks-Keeps m n keeps [] k le scoped = tt
  run_blocks-Keeps m n keeps (block ∷ blocks) k le scoped =
      let (grows, kept) = keeps block k le scoped.0 in
      (
        kept,
        run_blocks-Keeps m n keeps blocks (run_block block k).next (le_trans le grows) scoped.1,
      )

  pub run_blocks-unchanged :
      ((insts : List Instr) (k : ℕ)
        → (run_block insts k).changed ≡ false
        → (run_block insts k).insts ≡ insts)
      → (blocks : List (List Instr)) (k : ℕ) → (run_blocks run_block blocks k).changed ≡ false
      → (run_blocks run_block blocks k).blocks ≡ blocks
  unfolding run_blocks
  run_blocks-unchanged same [] k h = refl
  run_blocks-unchanged same (block ∷ blocks) k h =
      let r = run_block block k in
      ap₂ ◌∷◌ (same block k (ground arith)) (run_blocks-unchanged same blocks r.next (ground arith))
