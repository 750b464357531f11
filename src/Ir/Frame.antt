-- ===== src/Ir/Frame.antt =====
-- Execution depends only on the values in scope: states that agree stay in agreement.
use llvm_study.Base.{ℕ, ◌≤◌, ◌≡◌, refl, sym, ap₂, ap, ◌∙◌, List, [], ◌∷◌, map, All, arith}
use package.llvm_study.Ir.{Value, const, local, block, global, undef, Instr, is_void}
use package.llvm_study.Ir.Exec.{
  Machine, State, value_of, result, exec, exec_all, Agree, InScope, IsScoped,
}

pub InScope-weaken : {n k : ℕ} (v : Value) → n ≤ k → InScope n v → InScope k v
InScope-weaken (const w n) h s = tt
InScope-weaken (local i) h s = omega arith
InScope-weaken (block b) h s = tt
InScope-weaken (global g) h s = tt
InScope-weaken undef h s = tt

pub All-InScope-weaken :
    {n k : ℕ} (vs : List Value) → n ≤ k → All (InScope n) vs → All (InScope k) vs
All-InScope-weaken [] h s = tt
All-InScope-weaken (v ∷ vs) h s = (InScope-weaken v h s.0, All-InScope-weaken vs h s.1)

module _ (m : Machine) where
  pub Agree-refl : (n : ℕ) (s : State m.Mem) → Agree m n s s
  Agree-refl n s = record { same_mem = refl; same_env = λ i h. refl }

  pub Agree-sym : {n : ℕ} {s t : State m.Mem} → Agree m n s t → Agree m n t s
  Agree-sym h = record { same_mem = sym h.same_mem; same_env = λ i k. sym (h.same_env i k) }

  pub Agree-trans : {n : ℕ} {s t u : State m.Mem} → Agree m n s t → Agree m n t u → Agree m n s u
  Agree-trans h k = record {
    same_mem = h.same_mem ∙ k.same_mem;
    same_env = λ i l. h.same_env i l ∙ k.same_env i l;
  }

  pub Agree-weaken : {n k : ℕ} {s t : State m.Mem} → n ≤ k → Agree m k s t → Agree m n s t
  Agree-weaken h a = record { same_mem = a.same_mem; same_env = λ i l. a.same_env i (omega arith) }

  pub value_of-Agree :
      {n : ℕ} {s t : State m.Mem} (v : Value)
      → InScope n v
      → Agree m n s t
      → value_of m s.env v ≡ value_of m t.env v
  value_of-Agree (const w k) h a = refl
  value_of-Agree (local i) h a = a.same_env i h
  value_of-Agree (block b) h a = refl
  value_of-Agree (global g) h a = refl
  value_of-Agree undef h a = refl

  pub map-value_of-Agree :
      {n : ℕ} {s t : State m.Mem} (vs : List Value)
      → All (InScope n) vs
      → Agree m n s t
      → map (value_of m s.env) vs ≡ map (value_of m t.env) vs
  map-value_of-Agree [] h a = refl
  map-value_of-Agree (v ∷ vs) h a = ap₂ ◌∷◌ (value_of-Agree v h.0 a) (map-value_of-Agree vs h.1 a)

  -- Two instructions with one number and one result, each in its state.
  pub exec-Agree_of_result :
      {n : ℕ} {s t : State m.Mem} (a b : Instr)
      → a.id ≡ b.id
      → a.ty ≡ b.ty
      → result m a.kind a.ty (map (value_of m s.env) a.operands) s.mem
        ≡ result m b.kind b.ty (map (value_of m t.env) b.operands) t.mem
      → Agree m n s t
      → Agree m n (exec m a s) (exec m b t)
  unfolding exec
  exec-Agree_of_result {s} {t} a b ids tys r h = record {
    same_mem = ap (λ (q : ℕ × m.Mem). q.1) r;
    same_env = λ i k. ground (arith, h.same_env i k, ap is_void tys, ap (λ (q : ℕ × m.Mem). q.0) r);
  }

  pub exec-Agree :
      {n : ℕ} {s t : State m.Mem} (inst : Instr)
      → IsScoped n inst
      → Agree m n s t
      → Agree m n (exec m inst s) (exec m inst t)
  exec-Agree {s} {t} inst scoped h =
      exec-Agree_of_result inst inst refl refl
        (ap₂ (result m inst.kind inst.ty) (map-value_of-Agree inst.operands scoped.uses h)
          h.same_mem)
        h

  pub exec_all-Agree :
      (n : ℕ) (xs : List Instr) (s t : State m.Mem)
      → All (IsScoped n) xs
      → Agree m n s t
      → Agree m n (exec_all m xs s) (exec_all m xs t)
  unfolding exec_all
  exec_all-Agree n [] s t h a = a
  exec_all-Agree n (x ∷ xs) s t h a =
      exec_all-Agree n xs (exec m x s) (exec m x t) h.1 (exec-Agree x h.0 a)
