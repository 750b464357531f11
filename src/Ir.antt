-- ===== src/Ir.antt =====
-- LLVM's in-memory IR, as far as the passes under lib/ look at it: types, operands,
-- instructions and basic blocks. An instruction is known by its number, as LLVM knows it by its
-- address, and that number is also the name of the value that it defines.
pub mod Exec
pub mod Frame
pub mod Builder
use llvm_study.Base.{ℕ, List, get_or, Bool, true, false}

-- `int w` is the integer type iw; an instruction of type `void` defines no value.
pub data Ty : Type 0 where
  int : ℕ → Ty
  void : Ty
  other_ty : ℕ → Ty

-- `isVoidTy`.
abbrev pub is_void : Ty → Bool
is_void void = true
is_void _ = false

-- What an operand refers to: a constant of type iw, an instruction or an argument, a basic
-- block, or a global.
pub data Value : Type 0 where
  const : ℕ → ℕ → Value
  local block global : ℕ → Value
  undef : Value

pub data BinOp : Type 0 where
  add sub mul and xor : BinOp
  other_op : ℕ → BinOp

-- A phi carries its incoming blocks, which are no operands of it.
pub data Kind : Type 0 where
  binary : BinOp → Kind
  phi : List ℕ → Kind
  dbg br switch alloca load store : Kind
  other_terminator other : ℕ → Kind

pub record Instr : Type 0 where
  pub id : ℕ
  pub kind : Kind
  pub ty : Ty
  pub operands : List Value

-- `getOperand(i)`.
abbrev pub operand : Instr → ℕ → Value
operand inst i = get_or inst.operands i undef
