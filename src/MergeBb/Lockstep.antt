-- ===== src/MergeBb/Lockstep.antt =====
-- `LockstepReverseIterator`: two blocks from their ends, debug instructions skipped.
pub mod Laws
use llvm_study.Base.{
  ℕ, zero, suc, Bool, true, false, not, ◌||◌, List, [], ◌∷◌, Option, none, some, length,
  if◌then◌else◌,
}
use mathlib.Core.List.{reverse}
use llvm_study.Ir.{Instr}
use llvm_study.Cfg.{is_dbg}

-- A cursor is the instruction that it points to and those before it, the nearest first; an empty
-- one is the null pointer.
pub record Lockstep : Type 0 where
  pub cursor1 : List Instr
  pub cursor2 : List Instr
  pub fail : Bool

-- `Inst = Inst->getPrevNode()` while it is a debug instruction.
unfoldable pub skip_dbg : List Instr → List Instr
skip_dbg [] = []
skip_dbg (inst ∷ before) = if is_dbg inst.kind then skip_dbg before else inst ∷ before

-- `getLastNonDbgInst`, from the terminator backwards.
unfoldable pub last_non_dbg : List Instr → List Instr
unfolding skip_dbg
last_non_dbg insts = skip_dbg (reverse insts)

abbrev pub is_null : List Instr → Bool
is_null [] = true
is_null (inst ∷ before) = false

unfoldable pub start : List Instr → List Instr → Lockstep
unfolding last_non_dbg
start insts1 insts2 =
    let c1 = last_non_dbg insts1 in
    let c2 = last_non_dbg insts2 in
    record { cursor1 = c1; cursor2 = c2; fail = is_null c1 || is_null c2 }

abbrev pub previous : List Instr → List Instr
previous [] = []
previous (inst ∷ before) = before

-- `operator--`: the second cursor stays where the first one reached the beginning.
unfoldable pub retreat : Lockstep → Lockstep
unfolding skip_dbg
retreat it =
    if it.fail
    then it
    else let c1 = skip_dbg (previous it.cursor1) in
      let c2 = skip_dbg (previous it.cursor2) in
      if is_null c1
      then record it { cursor1 = c1; fail = true }
      else record { cursor1 = c1; cursor2 = c2; fail = is_null c2 }

module _ (can_merge : Instr → Instr → Bool) where
  abbrev pub heads_merge : List Instr → List Instr → Bool
  heads_merge (x ∷ xs) (y ∷ ys) = can_merge x y
  heads_merge _ _ = false

  -- `while (LRI.isValid() && canMergeInstructions(*LRI)) --LRI;` with fuel; `none` means that the
  -- fuel ran out, `some` has the iterator after the loop.
  unfoldable pub run_loop : ℕ → Lockstep → Option Lockstep
  unfolding retreat
  run_loop zero it = none
  run_loop (suc fuel) it = elim it.fail [
    | true ↦ some it
    | false ↦ elim (heads_merge it.cursor1 it.cursor2) [
      | true ↦ run_loop fuel (retreat it)
      | false ↦ some it
    ]
  ]

  -- The loop over two blocks, and whether its iterator is valid in the end: a mismatch. Each round
  -- takes an instruction from the first cursor.
  unfoldable pub mismatch : List Instr → List Instr → Option Bool
  unfolding run_loop start
  mismatch insts1 insts2 = elim (run_loop (suc (length insts1)) (start insts1 insts2)) [
    | none ↦ none
    | some it ↦ some (not it.fail)
  ]
