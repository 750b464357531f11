-- ===== src/SsLoopVec/Exec.antt =====
-- What the instructions that the pass creates do, after the language reference, over 32-bit
-- elements: memory is a cell for each element, and addresses count cells.
use llvm_study.Base.{
  ℕ, ◌+◌, ◌-◌, ◌%◌, ◌^◌, Bool, ◌&&◌, List, [], ◌∷◌, ◌==◌, ltb, not, if◌then◌else◌, get_or,
}
use package.llvm_study.SsLoopVec.{
  Operand, constant_int, value, other_operand, add, get_element_ptr, bit_cast, load, store, alloca,
  extract_element, phi, other, Inst,
}

-- The value of an instruction has a word for each lane.
pub record State : Type 0 where
  pub env : ℕ → ℕ → ℕ
  pub mem : ℕ → ℕ

-- What blocks and globals stand for, where an alloca is placed, and what every other instruction does.
pub record Machine : Type 0 where
  pub symbol : Operand → ℕ
  pub place : ℕ → ℕ
  pub effect : Inst → State → State

abbrev pub define : ℕ → (ℕ → ℕ) → State → State
define id v s = record s { env = λ i. if i == id then v else s.env i }

-- `a` is one of the `lanes` cells from `p` on.
abbrev pub in_range : ℕ → ℕ → ℕ → Bool
in_range p lanes a = not (ltb a p) && ltb a (p + lanes)

module _ (m : Machine) where
  abbrev pub read : (ℕ → ℕ → ℕ) → Operand → ℕ → ℕ
  read env (constant_int w c) j = c
  read env (value i) j = env i j
  read env op j = m.symbol op

  abbrev pub arg : List Operand → ℕ → Operand
  arg ops i = get_or ops i (other_operand 0)

  unfoldable pub exec : Inst → State → State
  exec x s = elim x.opcode [
    | add ↦
        define x.id
          (λ j. (read s.env (arg x.operands 0) j + read s.env (arg x.operands 1) j) % 2 ^ 32) s
    | bit_cast ↦ define x.id (read s.env (arg x.operands 0)) s
    | load ↦ define x.id (λ j. s.mem (read s.env (arg x.operands 0) 0 + j)) s
    | store ↦
        let p = read s.env (arg x.operands 1) 0 in
        record s {
          mem =
              λ a. if in_range p x.lanes a then read s.env (arg x.operands 0) (a - p) else s.mem a;
        }
    | extract_element ↦
        define x.id (λ j. read s.env (arg x.operands 0) (read s.env (arg x.operands 1) 0)) s
    | alloca ↦ define x.id (λ j. m.place x.id) s
    | get_element_ptr ↦ m.effect x s
    | phi ↦ m.effect x s
    | other k ↦ m.effect x s
  ]

  unfoldable pub exec_all : List Inst → State → State
  unfolding exec
  exec_all [] s = s
  exec_all (x ∷ xs) s = exec_all xs (exec x s)
