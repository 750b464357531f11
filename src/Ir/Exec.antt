-- ===== src/Ir/Exec.antt =====
-- What straight-line IR does, after the language reference: the integer operations wrap at the
-- width of their type, and whatever else an instruction does is a parameter, `Machine`.
use llvm_study.Base.{
  ℕ, ◌+◌, ◌-◌, ◌*◌, ◌%◌, ◌^◌, ◌<◌, bit_and, bit_xor, ◌≡◌, refl, Option, none, some, List, [], ◌∷◌,
  ◌++◌, map, ◌==◌, if◌then◌else◌, get_or, All,
}
use package.llvm_study.Ir.{
  Ty, int, is_void, Value, const, local, block, global, undef, BinOp, add, sub, mul, and, xor,
  other_op, Kind, binary, Instr,
}

-- Memory, what names of globals and blocks stand for, and the effect of each instruction that is
-- no integer arithmetic: from its kind, its type, its operands' values and the memory.
pub record Machine : Type 1 where
  pub Mem : Type 0
  pub symbol : Value → ℕ
  pub effect : Kind → Ty → List ℕ → Mem → ℕ × Mem

pub record State (Mem : Type 0) : Type 0 where
  pub env : ℕ → ℕ
  pub mem : Mem

abbrev pub update : (ℕ → ℕ) → ℕ → ℕ → ℕ → ℕ
update env i v j = if j == i then v else env j

-- `some` for the wrapping operations on iw; its inputs are below 2 ^ w.
unfoldable pub word_op : BinOp → ℕ → ℕ → ℕ → Option ℕ
word_op add w a b = some ((a + b) % 2 ^ w)
word_op sub w a b = some ((a + 2 ^ w - b) % 2 ^ w)
word_op mul w a b = some ((a * b) % 2 ^ w)
word_op and w a b = some (bit_and a b % 2 ^ w)
word_op xor w a b = some (bit_xor a b % 2 ^ w)
word_op (other_op k) w a b = none

module _ (m : Machine) where
  open m use {Mem, symbol, effect}

  abbrev pub value_of : (ℕ → ℕ) → Value → ℕ
  value_of env (const w n) = n
  value_of env (local i) = env i
  value_of env (block b) = symbol (block b)
  value_of env (global g) = symbol (global g)
  value_of env undef = symbol undef

  -- The value of an operand that is used at type iw.
  abbrev pub read : ℕ → (ℕ → ℕ) → Value → ℕ
  read w env v = value_of env v % 2 ^ w

  -- The value that an instruction defines, and the memory after it.
  unfoldable pub result : Kind → Ty → List ℕ → Mem → ℕ × Mem
  result (binary op) (int w) vals mem =
      elim (word_op op w (get_or vals 0 (symbol undef) % 2 ^ w)
        (get_or vals 1 (symbol undef) % 2 ^ w)) [
          | some r ↦ (r, mem)
          | none ↦ effect (binary op) (int w) vals mem
        ]
  result kind ty vals mem = effect kind ty vals mem

  unfoldable pub exec : Instr → State Mem → State Mem
  exec inst s =
      let r = result inst.kind inst.ty (map (value_of s.env) inst.operands) s.mem in
      record { env = if is_void inst.ty then s.env else update s.env inst.id r.0; mem = r.1 }

  unfoldable pub exec_all : List Instr → State Mem → State Mem
  exec_all [] s = s
  exec_all (inst ∷ insts) s = exec_all insts (exec inst s)

  pub exec_all-append :
      (xs ys : List Instr) (s : State Mem) → exec_all (xs ++ ys) s ≡ exec_all ys (exec_all xs s)
  unfolding exec_all
  exec_all-append [] ys s = refl
  exec_all-append (x ∷ xs) ys s = exec_all-append xs ys (exec x s)

  -- The states agree on memory and on every value that is numbered below `n`.
  pub record Agree (n : ℕ) (s t : State Mem) : Type 0 where
    pub same_mem : s.mem ≡ t.mem
    pub same_env : (i : ℕ) → i < n → s.env i ≡ t.env i

-- The operand is defined, if at all, by a value numbered below `n`.
abbrev pub InScope : ℕ → Value → Type 0
InScope n (local i) = i < n
InScope n _ = Unit

-- The instruction defines and uses values numbered below `n`.
pub record IsScoped (n : ℕ) (inst : Instr) : Type 0 where
  pub defines : inst.id < n
  pub uses : All (InScope n) inst.operands
