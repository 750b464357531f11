-- ===== src/Duplicate/Clone/Laws.antt =====
-- Whichever clone is taken, a duplicated block computes what the block computed.
use llvm_study.Base.{
  ℕ, ◌+◌, ◌<◌, ◌≡◌, ◌≢◌, refl, ap, Bool, List, [], ◌∷◌, ==_iff, if◌then◌else◌, All, arith,
}
use native.Mathlib.Nat.{add-zero}
use llvm_study.Ir.{Instr, is_void}
use llvm_study.Ir.Exec.{Machine, State, exec_all, Agree, IsScoped}
use llvm_study.Containers.{address_eq, modify}
use llvm_study.Cfg.{incoming_value}
use package.llvm_study.Duplicate.Clone.{clone, join_phi, clone_insts, clone_bb}
use package.llvm_study.Duplicate.Clone.Joined.{
  IsTyped, incoming_number, enter_phis, side, phis_of, joined-Agree,
}

module _ (then_block else_block : ℕ) where
  then_insts-side :
      (insts : List Instr) (tm em : List (ℕ × ℕ)) (k : ℕ)
      → (clone_insts then_block else_block insts tm em k).then_insts ≡ side 0 insts tm k
  unfolding clone_insts
  then_insts-side [] tm em k = refl
  then_insts-side (inst ∷ insts) tm em k = rw (add-zero k) (
      ap (λ (l : List Instr). clone tm k inst ∷ l)
        (then_insts-side insts (modify k inst.id (λ _. k) tm)
          (modify (k + 1) inst.id (λ _. k + 1) em) (k + 2)))

  else_insts-side :
      (insts : List Instr) (tm em : List (ℕ × ℕ)) (k : ℕ)
      → (clone_insts then_block else_block insts tm em k).else_insts ≡ side 1 insts em k
  unfolding clone_insts
  else_insts-side [] tm em k = refl
  else_insts-side (inst ∷ insts) tm em k =
      ap (λ (l : List Instr). clone em (k + 1) inst ∷ l)
        (else_insts-side insts (modify k inst.id (λ _. k) tm)
          (modify (k + 1) inst.id (λ _. k + 1) em) (k + 2))

  phis-phis_of :
      (m : Machine) (n o : ℕ) (valued : ℕ → Bool) (small : o < 2) (from : ℕ)
      (enters : (inst : Instr) (k : ℕ) (e : State m.Mem)
        → incoming_number m e (incoming_value (join_phi then_block else_block inst k (k + 1)) from)
          ≡ e.env (k + o))
      (insts : List Instr) (tm em : List (ℕ × ℕ)) (k : ℕ)
      → (clone_insts then_block else_block insts tm em k).phis
        ≡ phis_of m n o valued small then_block else_block from enters insts k
  unfolding clone_insts
  phis-phis_of m n o valued small from enters [] tm em k = refl
  phis-phis_of m n o valued small from enters (inst ∷ insts) tm em k =
      ap
        (λ (l : List Instr).
          if is_void inst.ty then l else join_phi then_block else_block inst k (k + 1) ∷ l)
        (phis-phis_of m n o valued small from enters insts (modify k inst.id (λ _. k) tm)
          (modify (k + 1) inst.id (λ _. k + 1) em) (k + 2))

  enters_then :
      (m : Machine) (inst : Instr) (k : ℕ) (e : State m.Mem)
      → incoming_number m e
          (incoming_value (join_phi then_block else_block inst k (k + 1)) then_block)
        ≡ e.env (k + 0)
  unfolding incoming_value
  enters_then m inst k e = rw ((==_iff then_block then_block).1 refl, add-zero k)

  enters_else :
      (m : Machine) (inst : Instr) (k : ℕ) (e : State m.Mem)
      → then_block ≢ else_block
      → incoming_number m e
          (incoming_value (join_phi then_block else_block inst k (k + 1)) else_block)
        ≡ e.env (k + 1)
  unfolding incoming_value
  enters_else m inst k e differ = ground arith

  -- The state in which the tail starts, for the clone that holds `insts` and is named `from`.
  abbrev pub after_clone : (m : Machine) → ℕ → List Instr → List Instr → State m.Mem → State m.Mem
  after_clone m from insts phis s = let e = exec_all m insts s in enter_phis m from e phis e

  -- On a block whose instructions are numbered below `n` and use no void instruction as an operand,
  -- with fresh numbers from `n` on, for two clone blocks with different names and every effect of
  -- the instructions that are no integer arithmetic: from states that agree on memory and on the
  -- values numbered below `n`, either clone followed by the phis of the tail ends in a state that
  -- agrees so with the one in which the original instructions end.
  pub clone_bb-Agree :
      (m : Machine) (n : ℕ) (valued : ℕ → Bool) (insts : List Instr) (s t : State m.Mem)
      → then_block ≢ else_block
      → Agree m n s t
      → All (IsScoped n) insts
      → All (IsTyped valued) insts
      → let c = clone_bb then_block else_block insts n in
        Agree m n (after_clone m then_block c.then_insts c.phis s) (exec_all m insts t)
        × Agree m n (after_clone m else_block c.else_insts c.phis s) (exec_all m insts t)
  unfolding clone_bb incoming_value
  clone_bb-Agree m n valued insts s t differ agree scoped typed =
      let on_then = λ (inst : Instr) (k : ℕ) (e : State m.Mem). enters_then m inst k e in
      let on_else = λ (inst : Instr) (k : ℕ) (e : State m.Mem). enters_else m inst k e differ in
      (
        rw
            (
              then_insts-side insts [] [] n,
              phis-phis_of m n 0 valued (omega arith) then_block on_then insts [] [] n,
            )
            (joined-Agree m n 0 valued (omega arith) then_block else_block then_block on_then insts
              s t agree scoped typed),
        rw
            (
              else_insts-side insts [] [] n,
              phis-phis_of m n 1 valued (omega arith) else_block on_else insts [] [] n,
            )
            (joined-Agree m n 1 valued (omega arith) then_block else_block else_block on_else insts
              s t agree scoped typed),
      )
