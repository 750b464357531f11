-- ===== src/Ir/Builder/Laws.antt =====
-- Consequences of `Computes`: what is read across the instructions that a builder placed.
use llvm_study.Base.{ℕ, ◌%◌, ◌^◌, ◌≤◌, ◌≡◌, ap, Option, some}
use llvm_study.Ir.{Value}
use llvm_study.Ir.Exec.{Machine, State, read, exec_all, Agree, InScope}
use llvm_study.Ir.Frame.{value_of-Agree, InScope-weaken, Agree-trans, Agree-weaken}
use package.llvm_study.Ir.Builder.{Built, Computes}

module _ {m : Machine} {w n : ℕ} {spec : State m.Mem → Option ℕ} {c : Built}
    (h : Computes m w n spec c) where
  -- A value in scope reads as it did.
  pub read_kept :
      (v : Value) (s : State m.Mem)
      → InScope n v
      → read m w (exec_all m c.insts s).env v ≡ read m w s.env v
  read_kept v s scoped = ap (λ (x : ℕ). x % 2 ^ w) (value_of-Agree m v scoped (h.keeps s))

  -- The value that was built reads as specified.
  pub read_built :
      (s : State m.Mem) (r : ℕ) → spec s ≡ some r → read m w (exec_all m c.insts s).env c.value ≡ r
  read_built s r e = cc (h.computes s)

  pub scope_grows : (v : Value) → InScope n v → InScope c.next v
  scope_grows v scoped = InScope-weaken v h.grows scoped

  -- What agreed with a state before the instructions agrees with it after them.
  pub keeps_then :
      (k : ℕ) (s t : State m.Mem) → k ≤ n → Agree m k s t → Agree m k (exec_all m c.insts s) t
  keeps_then k s t le agree = Agree-trans m (Agree-weaken m le (h.keeps s)) agree
