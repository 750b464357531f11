-- ===== src/Ir/Builder.antt =====
-- The interface of LLVM's IRBuilder that the passes use. `create` and `create_not` place
-- instructions before the insertion point, or fold constants and place none; LLVM's documentation
-- promises what `IsBuilder` says.
pub mod Laws
use llvm_study.Base.{ℕ, ◌+◌, ◌-◌, ◌^◌, ◌%◌, ◌≤◌, ◌≡◌, Option, some, List, bit_xor}
use package.llvm_study.Ir.{Value, Instr, BinOp, other_op}
use package.llvm_study.Ir.Exec.{Machine, State, read, word_op, exec_all, Agree, InScope}

-- The value to use, the instructions placed, and the first number that is free after them.
pub record Built : Type 0 where
  pub value : Value
  pub insts : List Instr
  pub next : ℕ

pub record Builder : Type 0 where
  -- operation, width, operands, first free number
  pub create : BinOp → ℕ → Value → Value → ℕ → Built
  pub create_not : ℕ → Value → ℕ → Built

abbrev pub IsWrapping : BinOp → Type 0
IsWrapping (other_op k) = ⊥
IsWrapping _ = Unit

-- From any state the placed instructions compute `spec` at iw into `value`, and change neither
-- memory nor a value numbered below `n`.
pub record Computes (m : Machine) (w n : ℕ) (spec : State m.Mem → Option ℕ) (c : Built)
    : Type 0 where
  pub grows : n ≤ c.next
  pub scoped : InScope c.next c.value
  pub keeps : (s : State m.Mem) → Agree m n (exec_all m c.insts s) s
  pub computes : (s : State m.Mem) → spec s ≡ some (read m w (exec_all m c.insts s).env c.value)

pub record IsBuilder (m : Machine) (b : Builder) : Type 0 where
  pub create_lem :
      (op : BinOp) (w : ℕ) (x y : Value) (n : ℕ)
      → IsWrapping op
      → InScope n x
      → InScope n y
      → Computes m w n
          (λ s. word_op op w (read m w s.env x) (read m w s.env y))
          (b.create op w x y n)
  pub create_not_lem :
      (w : ℕ) (x : Value) (n : ℕ)
      → InScope n x
      → Computes m w n (λ s. some (bit_xor (read m w s.env x) (2 ^ w - 1))) (b.create_not w x n)
