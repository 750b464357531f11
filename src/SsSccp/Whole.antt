-- ===== src/SsSccp/Whole.antt =====
-- `DoSCCP` of SsSCCP/SsSCCP.cpp with its guards, both halves one after the other, and `run` and
-- `runOnFunction` of the two pass managers.
pub mod Unchanged
pub mod Ends
use llvm_study.Base.{
  ℕ, suc, ◌≡◌, ◌||◌, Bool, true, false, List, [], ◌∷◌, ◌++◌, Option, none, some, if◌then◌else◌,
  ◌==◌, not,
}
use llvm_study.Ir.{Value, Instr}
use llvm_study.Cfg.{Block, Func, find_block}
use llvm_study.Riv.{DomTrees}
use llvm_study.Mba.Block.{PreservedAnalyses, preserved}
use package.llvm_study.SsSccp.{Outcome, finished, cast_failed, undefined, and_then, Blocks}
use package.llvm_study.SsSccp.Replace.{propagate}
use package.llvm_study.SsSccp.Walk.{depth}
use package.llvm_study.SsSccp.Fold.{Predicate, find_inst, fold_branches}

-- The instructions of a block, its terminator the last of them.
abbrev pub all_insts : Option Block → List Instr
all_insts none = []
all_insts (some x) = x.insts ++ x.term ∷ []

unfoldable pub blocks_of : List Block → Blocks
unfolding find_block
blocks_of bs b = all_insts (find_block b bs)

-- The instructions before the terminator `t`, and the terminator as it is now; `none` where it was
-- erased, and the block has no terminator any more.
unfoldable pub split_term : Instr → List Instr → Option (List Instr × Instr)
split_term t [] = none
split_term t (x ∷ []) = if x.id == t.id then some ([], x) else none
split_term t (x ∷ y ∷ ys) = elim (split_term t (y ∷ ys)) [
  | none ↦ none
  | some (insts, term) ↦ some (x ∷ insts, term)
]

-- The blocks with these instructions.
unfoldable pub set_insts : Blocks → List Block → Option (List Block)
unfolding split_term
set_insts blocks [] = some []
set_insts blocks (x ∷ xs) = elim (split_term x.term (blocks x.name)) [
  | none ↦ none
  | some (insts, term) ↦ elim (set_insts blocks xs) [
    | none ↦ none
    | some ys ↦ some (record x { insts = insts; term = term } ∷ ys)
  ]
]

abbrev pub is_some {ℓ} : {A : Type ℓ} → Option A → Bool
is_some none = false
is_some (some a) = true

-- The value is that of an instruction of the function, no argument.
abbrev pub is_inst_of : List Block → ℕ → Bool
is_inst_of [] p = false
is_inst_of (x ∷ xs) p = is_some (find_inst p (all_insts (some x))) || is_inst_of xs p

-- What `run` returns for a change.
unfoldable pub reported : Outcome (List Block × Bool) → Outcome (List Block × PreservedAnalyses)
unfolding preserved
reported o = and_then o (λ (bs, changed). finished (bs, preserved changed))

-- `foo` stands for the name "foo". `users` are the users of an instruction, in the order of LLVM's use
-- lists; the other parameters are those of the two halves.
module _ (foo : ℕ) (users : ℕ → List Instr) (constant_of : ℕ → ℕ → Value)
    (predicate_of : Instr → Option Predicate) (is_sgt : ℕ → ℕ → ℕ → Bool)
    (predecessors : List Block → ℕ → List ℕ) (delete_dead_block : ℕ → List Block → List Block) where
  -- The second half, on what the first leaves. A block that lost its terminator is no block any more,
  -- and what LLVM does with it is undefined.
  unfoldable pub fold_propagated : Func → ℕ → Blocks × Bool → Outcome (List Block × Bool)
  unfolding set_insts fold_branches
  fold_propagated f n (blocks, changed) = elim (set_insts blocks f.blocks) [
    | none ↦ undefined
    | some bs ↦ fold_branches predicate_of is_sgt predecessors delete_dead_block bs changed n
  ]

  -- `DoSCCP`: the dominator tree below the entry block, where there is one, the function's name, and
  -- the first free number. The fuel is the depth of the tree.
  unfoldable pub do_sccp : Option DomTrees → ℕ → Func → ℕ → Outcome (List Block × Bool)
  unfolding propagate fold_propagated blocks_of
  do_sccp none name f n = finished (f.blocks, false)
  do_sccp (some below) name f n =
      if not (name == foo)
      then finished (f.blocks, false)
      else and_then
          (propagate (is_inst_of f.blocks) constant_of users (suc (depth below)) f.entry below
            (blocks_of f.blocks))
          (fold_propagated f n)

  -- `SsSCCP::run`, whose analysis manager always has a tree.
  unfoldable pub run : DomTrees → ℕ → Func → ℕ → Outcome (List Block × PreservedAnalyses)
  unfolding do_sccp reported
  run below name f n = reported (do_sccp (some below) name f n)

  -- `LegacySsSCCP::runOnFunction`.
  unfoldable pub legacy_run_on_function : DomTrees → ℕ → Func → ℕ → Outcome (List Block × Bool)
  unfolding do_sccp reported
  legacy_run_on_function below name f n = do_sccp (some below) name f n
