-- ===== src/MergeBb/Steps.antt =====
-- What a function does, block by block, after the language reference: against it lib/MergeBB.cpp is
-- judged. Straight-line code is run by `exec_all`.
pub mod Alike
use llvm_study.Base.{ℕ, zero, suc, ◌+◌, List, [], ◌∷◌, map, Option, none, some, ◌==◌, if◌then◌else◌}
use llvm_study.Ir.{Value, local, block, Kind, br, other_terminator, Instr}
use llvm_study.Ir.Exec.{Machine, State, value_of, exec_all}
use llvm_study.Cfg.{Block, find_block, is_phi}
use llvm_study.Duplicate.Clone.Joined.{enter_phis}
use llvm_study.Duplicate.Whole.{phis_of, after_phis}

-- Where a terminator leads: to a block, out of the function with the values of its operands, or
-- nowhere that is described here, as for a switch.
pub data Exit : Type 0 where
  enters : ℕ → Exit
  leaves : ℕ → List ℕ → Exit
  unknown : Exit

-- The function is at the start of a block, which was entered from another one.
pub record Config (Mem : Type 0) : Type 0 where
  pub at : ℕ
  pub from : ℕ
  pub state : State Mem

-- After a block: the next one, the end of the function with its values and the memory, or neither.
pub data Next (Mem : Type 0) : Type 0 where
  goes_on : Config Mem → Next Mem
  ends_with : ℕ → List ℕ → Mem → Next Mem
  stuck : Next Mem

module _ (m : Machine) where
  unfoldable pub exit_of : (ℕ → ℕ) → Kind → List Value → Exit
  exit_of env br (block t ∷ []) = enters t
  exit_of env br (local c ∷ (block succ1 ∷ (block succ0 ∷ []))) =
      if env c == 0 then enters succ1 else enters succ0
  exit_of env (other_terminator k) vs = leaves k (map (value_of m env) vs)
  exit_of env _ vs = unknown

  -- The state at the end of a block.
  abbrev pub run_block : ℕ → List Instr → State m.Mem → State m.Mem
  run_block from insts s = exec_all m (after_phis insts) (enter_phis m from s (phis_of insts) s)

  abbrev pub next_of : ℕ → State m.Mem → Exit → Next m.Mem
  next_of b s (enters t) = goes_on (record { at = t; from = b; state = s })
  next_of b s (leaves k values) = ends_with k values s.mem
  next_of b s unknown = stuck

  unfoldable pub step : List Block → Config m.Mem → Next m.Mem
  unfolding exec_all enter_phis phis_of after_phis exit_of find_block
  step bs c = elim (find_block c.at bs) [
    | none ↦ stuck
    | some x ↦
        let s = run_block c.from x.insts c.state in
        next_of c.at s (exit_of s.env x.term.kind x.term.operands)
  ]

  -- What the function has come to after as many blocks, or where it ended before.
  unfoldable pub steps : ℕ → List Block → Config m.Mem → Next m.Mem
  unfolding step
  steps zero bs c = goes_on c
  steps (suc n) bs c = elim (step bs c) [
    | goes_on c' ↦ steps n bs c'
    | ends_with k values mem ↦ ends_with k values mem
    | stuck ↦ stuck
  ]
