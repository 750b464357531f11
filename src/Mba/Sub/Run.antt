-- ===== src/Mba/Sub/Run.antt =====
-- lib/MBASub.cpp over a whole function.
use llvm_study.Base.{
  ℕ, ◌≤◌, ◌≡◌, refl, ap, sym, false, List, [], ◌∷◌, All, arith, none, some, Option-cases, inl, inr,
  ◌+◌,
}
use mathlib.Core.Bool.{false≢true}
use llvm_study.Ir.{Instr}
use llvm_study.Ir.Exec.{Machine, IsScoped}
use llvm_study.Ir.Frame.{All-InScope-weaken}
use llvm_study.Ir.Builder.{Builder, IsBuilder}
use llvm_study.Mba.Block.{preserve_all, preserved}
use llvm_study.Mba.Keeps.{KeepsBlocks, run_blocks-Keeps, run_blocks-unchanged}
use package.llvm_study.Mba.Sub.{run_on_basic_block, run_on_function, run, sub_width, replace_sub}
use package.llvm_study.Mba.Sub.Laws.{
  run_on_basic_block-Agree_from, run-keep, run-replace, placed_grows,
}

-- The instructions that the pass substitutes.
abbrev pub count_subs : List Instr → ℕ
count_subs [] = 0
count_subs (inst ∷ rest) = elim (sub_width inst.kind inst.ty) [
  | none ↦ count_subs rest
  | some w ↦ count_subs rest + 1
]

module _ (m : Machine) (b : Builder) (laws : IsBuilder m b) where
  next_grows :
      (insts : List Instr) (n k : ℕ)
      → n ≤ k
      → All (IsScoped n) insts
      → k ≤ (run_on_basic_block b insts k).next
  unfolding run_on_basic_block
  next_grows [] n k le scoped = omega arith
  next_grows (inst ∷ rest) n k le scoped = elim (Option-cases (sub_width inst.kind inst.ty)) [
    | inl keep ↦ rw (run-keep b inst rest k keep) (next_grows rest n k le scoped.1)
    | inr (w, found) ↦
        let uses = All-InScope-weaken inst.operands le scoped.0.uses in
        let grown = placed_grows m b laws inst w k uses in
        rw (run-replace b inst rest k w found)
          (omega (arith, next_grows rest n (replace_sub b w inst k).next (omega arith) scoped.1))
  ]

  -- On a function whose instructions are numbered below `n`, with fresh numbers from `n` on, and
  -- for every effect of the instructions that are no integer arithmetic: the pass leaves as many
  -- blocks, and each new block takes states that agree on memory and on the values numbered below
  -- `n` to states that agree so.
  pub mba_sub-Keeps :
      (blocks : List (List Instr)) (n : ℕ)
      → All (All (IsScoped n)) blocks
      → KeepsBlocks m n blocks (run_on_function b blocks n).blocks
  unfolding run_on_function
  mba_sub-Keeps blocks n scoped =
      run_blocks-Keeps (run_on_basic_block b) m n
        (λ insts k le h. (
          next_grows insts n k le h,
          λ s t agree. run_on_basic_block-Agree_from m b laws insts n k s t le h agree,
        ))
        blocks n (omega arith) scoped

unchanged :
    (b : Builder) (insts : List Instr) (k : ℕ)
    → (run_on_basic_block b insts k).changed ≡ false
    → (run_on_basic_block b insts k).insts ≡ insts
unfolding run_on_basic_block
unchanged b [] k h = refl
unchanged b (inst ∷ rest) k h = elim (Option-cases (sub_width inst.kind inst.ty)) [
  | inl keep ↦
      rw (run-keep b inst rest k keep)
        (ap (λ r. inst ∷ r) (unchanged b rest k (rw (run-keep b inst rest k keep) at h)))
  | inr (w, found) ↦ absurd (false≢true (sym (rw (run-replace b inst rest k w found) at h)))
]

-- Where `run` reports every analysis as preserved, the blocks are the ones it was given.
pub mba_sub-preserve_all :
    (b : Builder) (blocks : List (List Instr)) (n : ℕ)
    → run b blocks n ≡ preserve_all
    → (run_on_function b blocks n).blocks ≡ blocks
unfolding run run_on_function preserved
mba_sub-preserve_all b blocks n h =
    run_blocks-unchanged (run_on_basic_block b) (unchanged b) blocks n (ground arith)
