-- ===== src/Tests/Merging.antt =====
-- lib/MergeBB.cpp on a concrete function.
use mathlib.Core.Bool.{false≢true}
use llvm_study.MergeBb.Merge.{updates_all}
use llvm_study.MergeBb.Merge.Assertion.{all_branch, distinct, replace_bb-updates}
use llvm_study.Base.{
  ◌&&◌, ◌==◌, false, ◌↔◌, sym, ◌∙◌, Bool-cases, inl, inr, ℕ, ◌≡◌, ◌≢◌, refl, Bool, true, not, List,
  [], ◌∷◌, some, if◌then◌else◌, arith, ==_iff,
}
use mathlib.Core.Path.{subst}
use llvm_study.Ir.{Value, const, local, block, void, Instr, br, dbg, other, other_terminator}
use llvm_study.Containers.{has, insert}
use llvm_study.Cfg.{Block, Func, branches_to}
use llvm_study.MergeBb.{can_merge_instructions}
use llvm_study.MergeBb.Lockstep.{mismatch}
use llvm_study.MergeBb.Lockstep.Laws.{non_dbg, all_merge, mismatch-all_merge}
use llvm_study.MergeBb.Merge.{merge_all, run, legacy_run_on_function}
use llvm_study.MergeBb.Merge.Unchanged.{merge_bb-preserve_all, merge_bb-preserve_all_iff}
use llvm_study.Mba.Block.{preserve_all}
use llvm_study.MergeBb.Merge.Dead.{merge_all-IsDead}
use llvm_study.MergeBb.Merge.Retarget.{Listed, IsDead}

-- The predecessors in the order of the blocks.
abbrev pub predecessors : List Block → ℕ → List ℕ
predecessors [] b = []
predecessors (x ∷ xs) b = if branches_to x b then x.name ∷ predecessors xs b else predecessors xs b

Listed-weaken : (b p : ℕ) (ps : List ℕ) (bs : List Block) → Listed b ps bs → Listed b (p ∷ ps) bs
unfolding has
Listed-weaken b p ps [] h = tt
Listed-weaken b p ps (x ∷ xs) h = (ground (arith, h.0), Listed-weaken b p ps xs h.1)

pub predecessors-Listed : (bs : List Block) (b : ℕ) → Listed b (predecessors bs b) bs
unfolding has
predecessors-Listed [] b = tt
predecessors-Listed (x ∷ xs) b = elim (Bool-cases (branches_to x b)) [
  | inl e ↦
      let found : predecessors (x ∷ xs) b ≡ x.name ∷ predecessors xs b = rw e refl in
      subst (λ ps. Listed b ps (x ∷ xs)) (sym found)
        (
          λ h. ground (arith, ==_iff x.name x.name),
          Listed-weaken b x.name (predecessors xs b) xs (predecessors-Listed xs b),
        )
  | inr e ↦
      let skipped : predecessors (x ∷ xs) b ≡ predecessors xs b = rw e refl in
      subst (λ ps. Listed b ps (x ∷ xs)) (sym skipped)
        (λ h. absurd (false≢true (sym e ∙ h)), predecessors-Listed xs b)
]

abbrev pub jump : ℕ → List Value → Instr
jump id targets = record { id = id; kind = br; ty = void; operands = targets }

abbrev store : ℕ → Instr
store id = record { id = id; kind = other 1; ty = void; operands = const 32 5 ∷ [] }

-- Both sides of a branch hold the same store, one of them after a debug instruction.
abbrev branching : Func
branching = record {
  entry = 1;
  blocks =
      record { name = 1; insts = []; term = jump 10 (local 0 ∷ block 3 ∷ block 2 ∷ []) }
      ∷ record { name = 2; insts = store 11 ∷ []; term = jump 12 (block 4 ∷ []) }
      ∷ record {
        name = 3;
        insts = record { id = 13; kind = dbg; ty = void; operands = [] } ∷ store 14 ∷ [];
        term = jump 15 (block 4 ∷ []);
      }
      ∷ record {
        name = 4;
        insts = [];
        term = record { id = 16; kind = other_terminator 0; ty = void; operands = [] };
      }
      ∷ [];
}

abbrev same_operation : Instr → Instr → Bool
same_operation x y = true

abbrev can_merge : Instr → Instr → Bool
can_merge = can_merge_instructions same_operation branching.blocks 2 3

abbrev side : List Instr
side = record { id = 13; kind = dbg; ty = void; operands = [] } ∷ store 14 ∷ []

mismatch-all_merge_example :
    mismatch can_merge (store 11 ∷ []) side
    ≡ some (not (all_merge can_merge (non_dbg (store 11 ∷ [])) (non_dbg side)))
mismatch-all_merge_example = mismatch-all_merge can_merge (store 11 ∷ []) side refl

merge_all-IsDead_example :
    IsDead 2 (merge_all same_operation predecessors branching).blocks × ◌≢◌ {A = ℕ} 2 1
unfolding merge_all has can_merge_instructions insert
merge_all-IsDead_example =
    merge_all-IsDead same_operation predecessors predecessors-Listed branching 2 refl

-- A function whose blocks have nothing in common.
abbrev straight : Func
straight = record {
  entry = 1;
  blocks =
      record { name = 1; insts = store 11 ∷ []; term = jump 10 (block 2 ∷ []) }
      ∷ record {
        name = 2;
        insts = [];
        term = record { id = 16; kind = other_terminator 0; ty = void; operands = [] };
      }
      ∷ [];
}

abbrev delete : ℕ → List Block → List Block
delete d [] = []
delete d (x ∷ xs) = if x.name == d then delete d xs else x ∷ delete d xs

merge_bb-preserve_all_example :
    ((run same_operation predecessors delete straight).0 ≡ straight.blocks)
    × ((legacy_run_on_function same_operation predecessors delete straight).0 ≡ straight.blocks)
unfolding run
merge_bb-preserve_all_example =
    merge_bb-preserve_all same_operation predecessors delete straight refl

merge_bb-preserve_all_iff_example :
    (((run same_operation predecessors delete branching).1 ≡ preserve_all)
      ↔ ((merge_all same_operation predecessors branching).num_dedup ≡ 0))
    × (((run same_operation predecessors delete branching).1 ≡ preserve_all)
        ↔ ((legacy_run_on_function same_operation predecessors delete branching).1 ≡ false))
merge_bb-preserve_all_iff_example =
    merge_bb-preserve_all_iff same_operation predecessors delete branching

-- The block 1 reaches the block 2 over two edges, and is listed twice.
abbrev twice : List Block
twice = record { name = 1; insts = []; term = jump 10 (local 0 ∷ block 2 ∷ block 2 ∷ []) } ∷ []

replace_bb-updates_example :
    updates_all (1 ∷ 1 ∷ []) 2 3 twice ≡ (all_branch (1 ∷ 1 ∷ []) 2 twice && distinct (1 ∷ 1 ∷ []))
replace_bb-updates_example = replace_bb-updates (1 ∷ 1 ∷ []) 2 3 twice refl
