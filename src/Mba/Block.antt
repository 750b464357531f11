-- ===== src/Mba/Block.antt =====
-- The state of `runOnBasicBlock` after its loop, and of `run` after the blocks of a function.
use llvm_study.Base.{ℕ, ◌+◌, Bool, true, false, List, [], ◌∷◌, ◌++◌, ◌||◌, if◌then◌else◌}
use llvm_study.Ir.{Instr}

-- The instructions left, the first free number, `Changed`, and by how much `SubstCount` grew.
pub record BlockResult : Type 0 where
  pub insts : List Instr
  pub next : ℕ
  pub changed : Bool
  pub subst_count : ℕ

pub record FunctionResult : Type 0 where
  pub blocks : List (List Instr)
  pub next : ℕ
  pub changed : Bool
  pub subst_count : ℕ

pub data PreservedAnalyses : Type 0 where
  preserve_none preserve_all : PreservedAnalyses

-- The instruction stays as it is (`continue`).
abbrev pub keep_inst : Instr → BlockResult → BlockResult
keep_inst inst rest = record rest { insts = inst ∷ rest.insts }

-- `placed` is inserted, and the instruction replaced by `new`.
abbrev pub replace_inst : List Instr → Instr → BlockResult → BlockResult
replace_inst placed new rest = record {
  insts = placed ++ new ∷ rest.insts;
  next = rest.next;
  changed = true;
  subst_count = rest.subst_count + 1;
}

-- `runOnFunction`, and the loop of `run`: the blocks in turn.
unfoldable pub run_blocks : (List Instr → ℕ → BlockResult) → List (List Instr) → ℕ → FunctionResult
run_blocks run_block [] n = record { blocks = []; next = n; changed = false; subst_count = 0 }
run_blocks run_block (block ∷ blocks) n =
    let r = run_block block n in
    let rest = run_blocks run_block blocks r.next in
    record {
      blocks = r.insts ∷ rest.blocks;
      next = rest.next;
      changed = r.changed || rest.changed;
      subst_count = r.subst_count + rest.subst_count;
    }

-- The result of `run`.
unfoldable pub preserved : Bool → PreservedAnalyses
preserved changed = if changed then preserve_none else preserve_all

-- What replaces one instruction: the instructions placed before it, the new one, and the first
-- number that is free after them.
pub record Replacement : Type 0 where
  pub placed : List Instr
  pub new : Instr
  pub next : ℕ
