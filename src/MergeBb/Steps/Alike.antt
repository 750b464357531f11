-- ===== src/MergeBb/Steps/Alike.antt =====
-- States that agree but for some values, through code that does not read these.
use llvm_study.Base.{
  ℕ, ◌≡◌, refl, sym, ap, ap₂, ◌∙◌, Bool, true, false, not, ◌&&◌, ◌||◌, List, [], ◌∷◌, map, ◌==◌,
  ==_iff, All, Bool-cases, inl, inr, arith,
}
use mathlib.Core.Bool.{false≢true}
use llvm_study.Ir.{Value, const, local, block, global, undef, Instr, is_void}
use llvm_study.Ir.Exec.{Machine, State, update, value_of, result, exec, exec_all}
use llvm_study.Cfg.{value_eq, mentions, incoming_value}
use llvm_study.Duplicate.Clone.Joined.{incoming_number, enter_phis}

-- None of the values is an operand.
abbrev pub Unread : (ℕ → Bool) → List Value → Type 0
Unread hidden vs = (i : ℕ) → hidden i ≡ true → mentions vs (local i) ≡ false

-- An instruction of the list has a result under this number.
abbrev pub computes : List Instr → ℕ → Bool
computes [] i = false
computes (x ∷ xs) i = (not (is_void x.ty) && x.id == i) || computes xs i

module _ (m : Machine) where
  -- The states agree on memory and on every value that is not hidden.
  pub record Alike (hidden : ℕ → Bool) (s t : State m.Mem) : Type 0 where
    pub same_mem : s.mem ≡ t.mem
    pub same_env : (i : ℕ) → hidden i ≡ false → s.env i ≡ t.env i

  pub values-Alike :
      (hidden : ℕ → Bool) (s t : State m.Mem) (vs : List Value)
      → Alike hidden s t
      → Unread hidden vs
      → map (value_of m s.env) vs ≡ map (value_of m t.env) vs
  unfolding value_eq
  values-Alike hidden s t [] a h = refl
  values-Alike hidden s t (v ∷ vs) a h =
      ap₂ ◌∷◌ (value_Alike v (λ i k. ground (arith, h i k)))
        (values-Alike hidden s t vs a (λ i k. ground (arith, h i k)))
    where
      value_Alike :
          (v : Value)
          → ((i : ℕ) → hidden i ≡ true → value_eq v (local i) ≡ false)
          → value_of m s.env v ≡ value_of m t.env v
      value_Alike (local i) g = a.same_env i (elim (Bool-cases (hidden i)) [
        | inl e ↦ absurd (false≢true (sym (g i e) ∙ (==_iff i i).1 refl))
        | inr e ↦ e
      ])
      value_Alike (const w n) g = refl
      value_Alike (block b) g = refl
      value_Alike (global k) g = refl
      value_Alike undef g = refl

  -- The result of an instruction is hidden no more.
  abbrev pub shown : (ℕ → Bool) → List Instr → ℕ → Bool
  shown hidden xs i = hidden i && not (computes xs i)

  exec-Alike :
      (hidden : ℕ → Bool) (s t : State m.Mem) (x : Instr)
      → Alike hidden s t
      → Unread hidden x.operands
      → Alike (λ i. hidden i && not (not (is_void x.ty) && x.id == i)) (exec m x s) (exec m x t)
  unfolding exec
  exec-Alike hidden s t x a h =
      let same : result m x.kind x.ty (map (value_of m s.env) x.operands) s.mem
          ≡ result m x.kind x.ty (map (value_of m t.env) x.operands) t.mem =
        ap₂ (result m x.kind x.ty) (values-Alike hidden s t x.operands a h) a.same_mem in
      record {
        same_mem = ap (λ (r : ℕ × m.Mem). r.1) same;
        same_env =
            λ i k. ground (arith, a.same_env i, ap (λ (r : ℕ × m.Mem). r.0) same, ==_iff i x.id);
      }

  pub Alike-weaken :
      (hidden more : ℕ → Bool) (s t : State m.Mem)
      → ((i : ℕ) → more i ≡ false → hidden i ≡ false)
      → Alike hidden s t
      → Alike more s t
  Alike-weaken hidden more s t w a = record {
    same_mem = a.same_mem;
    same_env = λ i h. a.same_env i (w i h);
  }

  -- Code that reads no hidden value leaves the states alike, and agreeing on what it computes.
  pub exec_all-Alike :
      (hidden : ℕ → Bool) (s t : State m.Mem) (xs : List Instr)
      → Alike hidden s t
      → All (λ (x : Instr). Unread hidden x.operands) xs
      → Alike (shown hidden xs) (exec_all m xs s) (exec_all m xs t)
  unfolding exec_all
  exec_all-Alike hidden s t [] a h = Alike-weaken hidden _ s t (λ i k. ground (arith, k)) a
  exec_all-Alike hidden s t (x ∷ xs) a h =
      Alike-weaken _ _ (exec_all m xs (exec m x s)) (exec_all m xs (exec m x t))
        (λ i k. ground (arith, k))
        (exec_all-Alike (λ i. hidden i && not (not (is_void x.ty) && x.id == i)) (exec m x s)
          (exec m x t) xs (exec-Alike hidden s t x a h.0) (weaken xs h.1))
    where
      weaken :
          (ys : List Instr)
          → All (λ (y : Instr). Unread hidden y.operands) ys
          → All
              (λ (y : Instr).
                Unread (λ i. hidden i && not (not (is_void x.ty) && x.id == i)) y.operands)
              ys
      weaken [] g = tt
      weaken (y ∷ ys) g = (λ i k. g.0 i (ground (arith, k)), weaken ys g.1)

  -- The phis take the same values.
  abbrev pub PhisAgree : ℕ → ℕ → State m.Mem → State m.Mem → List Instr → Type 0
  PhisAgree from1 from2 s t ps =
      All
        (λ (p : Instr).
          incoming_number m s (incoming_value p from1)
          ≡ incoming_number m t (incoming_value p from2))
        ps

  pub enter_phis-Alike :
      (hidden : ℕ → Bool) (from1 from2 : ℕ) (s t u v : State m.Mem) (ps : List Instr)
      → Alike hidden u v
      → PhisAgree from1 from2 s t ps
      → Alike hidden (enter_phis m from1 s ps u) (enter_phis m from2 t ps v)
  unfolding enter_phis
  enter_phis-Alike hidden from1 from2 s t u v [] a h = a
  enter_phis-Alike hidden from1 from2 s t u v (p ∷ ps) a h =
      enter_phis-Alike hidden from1 from2 s t
        (record u { env = update u.env p.id (incoming_number m s (incoming_value p from1)) })
        (record v { env = update v.env p.id (incoming_number m t (incoming_value p from2)) }) ps
        (record { same_mem = a.same_mem; same_env = λ i k. ground (arith, a.same_env i k, h.0) })
        h.1

  -- Code leaves the values that it does not compute.
  pub exec_all-keeps :
      (i : ℕ) (xs : List Instr) (s : State m.Mem)
      → computes xs i ≡ false
      → (exec_all m xs s).env i ≡ s.env i
  unfolding exec_all exec
  exec_all-keeps i [] s h = refl
  exec_all-keeps i (x ∷ xs) s h =
      exec_all-keeps i xs (exec m x s) (ground arith) ∙ ground (arith, ==_iff i x.id)
