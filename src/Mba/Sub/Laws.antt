-- ===== src/Mba/Sub/Laws.antt =====
-- lib/MBASub.cpp keeps what a block computes.
use native.Mathlib.Nat.{add-mod, one-le-pow}
use llvm_study.Base.{
  ℕ, ◌+◌, ◌-◌, ◌%◌, ◌^◌, ◌≤◌, ◌<◌, ◌≡◌, refl, sym, ap, ◌∙◌, none, some, List, [], ◌∷◌, map, arith,
  All, bit_xor_ones, Option-cases, inl, inr, get_or-map, All-get_or,
}
use llvm_study.Ir.{Instr, operand, Ty, int, undef, add, sub, Kind, binary}
use llvm_study.Ir.Exec.{
  Machine, State, value_of, read, result, exec, exec_all, exec_all-append, Agree, InScope, IsScoped,
  word_op,
}
use llvm_study.Ir.Frame.{
  All-InScope-weaken, Agree-trans, Agree-weaken, exec-Agree, exec-Agree_of_result,
}
use llvm_study.Ir.Builder.{Builder, IsBuilder}
use llvm_study.Ir.Builder.Laws.{read_kept, read_built, scope_grows}
use llvm_study.Mba.Block.{Replacement, keep_inst, replace_inst}
use package.llvm_study.Mba.Sub.{sub_width, replace_sub, run_on_basic_block}

sub_width-eq-some :
    (k : Kind) (t : Ty) (w : ℕ) → sub_width k t ≡ some w → (k ≡ binary sub) × (t ≡ int w)
unfolding sub_width
sub_width-eq-some k t w h = ground arith

-- Two's complement: adding the complement and 1 subtracts.
complement_add : (M x y : ℕ) → x < M → y < M → ((x + (M - 1 - y)) % M + 1 % M) % M ≡ (x + M - y) % M
complement_add M x y hx hy =
    sym (add-mod (x + (M - 1 - y)) 1 M) ∙ ap (λ (t : ℕ). t % M) (omega arith)

pub run-keep :
    (b : Builder) (inst : Instr) (rest : List Instr) (n : ℕ)
    → sub_width inst.kind inst.ty ≡ none
    → run_on_basic_block b (inst ∷ rest) n ≡ keep_inst inst (run_on_basic_block b rest n)
unfolding run_on_basic_block
run-keep b inst rest n e = rw (e, run_on_basic_block)

abbrev replacement : Builder → ℕ → Instr → ℕ → Replacement
replacement b w inst n = replace_sub b w inst n

pub run-replace :
    (b : Builder) (inst : Instr) (rest : List Instr) (n w : ℕ)
    → sub_width inst.kind inst.ty ≡ some w
    → run_on_basic_block b (inst ∷ rest) n
      ≡ replace_inst
          (replace_sub b w inst n).placed
          (replace_sub b w inst n).new
          (run_on_basic_block b rest (replace_sub b w inst n).next)
unfolding run_on_basic_block
run-replace b inst rest n w e = rw (e, run_on_basic_block)

module _ (m : Machine) (b : Builder) (laws : IsBuilder m b) where
  -- The instructions placed for a subtraction leave in the last one the difference.
  sum_reads :
      (inst : Instr) (w n : ℕ) (s : State m.Mem)
      → All (InScope n) inst.operands
      → let flipped = b.create_not w (operand inst 1) n in
        let sum = b.create add w (operand inst 0) flipped.value flipped.next in
        (read m w (exec_all m sum.insts (exec_all m flipped.insts s)).env sum.value + 1 % 2 ^ w)
          % 2 ^ w
        ≡ (read m w s.env (operand inst 0) + 2 ^ w - read m w s.env (operand inst 1)) % 2 ^ w
  unfolding word_op
  sum_reads inst w n s scoped =
      let x = operand inst 0 in
      let y = operand inst 1 in
      let scoped_x : InScope n x = All-get_or (InScope n) inst.operands 0 undef scoped tt in
      let scoped_y : InScope n y = All-get_or (InScope n) inst.operands 1 undef scoped tt in
      let flipped = b.create_not w y n in
      let sum = b.create add w x flipped.value flipped.next in
      let hf = laws.create_not_lem w y n scoped_y in
      let hs =
        laws.create_lem add w x flipped.value flipped.next tt (scope_grows hf x scoped_x)
          hf.scoped in
      let s1 = exec_all m flipped.insts s in
      rw
        (
          read_built hs s1 _ refl,
          read_kept hf x s scoped_x,
          read_built hf s _ refl,
          bit_xor_ones w (read m w s.env y) (omega (arith, one-le-pow w 2)),
        )
        (complement_add (2 ^ w) (read m w s.env x) (read m w s.env y)
          (omega (arith, one-le-pow w 2)) (omega (arith, one-le-pow w 2)))

  -- What is placed before the new instruction changes nothing that the block knows.
  pub placed_grows :
      (inst : Instr) (w n : ℕ) → All (InScope n) inst.operands → n ≤ (replace_sub b w inst n).next
  unfolding replace_sub
  placed_grows inst w n scoped =
      let x = operand inst 0 in
      let y = operand inst 1 in
      let scoped_x : InScope n x = All-get_or (InScope n) inst.operands 0 undef scoped tt in
      let scoped_y : InScope n y = All-get_or (InScope n) inst.operands 1 undef scoped tt in
      let flipped = b.create_not w y n in
      let hf = laws.create_not_lem w y n scoped_y in
      let hs =
        laws.create_lem add w x flipped.value flipped.next tt (scope_grows hf x scoped_x)
          hf.scoped in
      omega (arith, hf.grows, hs.grows)

  placed_keeps :
      (inst : Instr) (w n : ℕ) (s : State m.Mem)
      → All (InScope n) inst.operands
      → Agree m n (exec_all m (replace_sub b w inst n).placed s) s
  unfolding replace_sub
  placed_keeps inst w n s scoped =
      let x = operand inst 0 in
      let y = operand inst 1 in
      let scoped_x : InScope n x = All-get_or (InScope n) inst.operands 0 undef scoped tt in
      let scoped_y : InScope n y = All-get_or (InScope n) inst.operands 1 undef scoped tt in
      let flipped = b.create_not w y n in
      let sum = b.create add w x flipped.value flipped.next in
      let hf = laws.create_not_lem w y n scoped_y in
      let hs =
        laws.create_lem add w x flipped.value flipped.next tt (scope_grows hf x scoped_x)
          hf.scoped in
      rw (exec_all-append m flipped.insts sum.insts s) (
        Agree-trans m (Agree-weaken m hf.grows (hs.keeps (exec_all m flipped.insts s)))
          (hf.keeps s))

  -- The new instruction has the result of the subtraction that it replaces.
  new_result :
      (inst : Instr) (w n : ℕ) (s : State m.Mem)
      → inst.kind ≡ binary sub
      → inst.ty ≡ int w
      → All (InScope n) inst.operands
      → let r = replace_sub b w inst n in
        let s' = exec_all m r.placed s in
        result m r.new.kind r.new.ty (map (value_of m s'.env) r.new.operands) s.mem
        ≡ result m inst.kind inst.ty (map (value_of m s.env) inst.operands) s.mem
  unfolding replace_sub result word_op
  new_result inst w n s is_sub is_int scoped =
      let x = operand inst 0 in
      let flipped = b.create_not w (operand inst 1) n in
      let sum = b.create add w x flipped.value flipped.next in
      rw
        (
          is_sub,
          is_int,
          exec_all-append m flipped.insts sum.insts s,
          get_or-map (value_of m s.env) inst.operands 0 undef,
          get_or-map (value_of m s.env) inst.operands 1 undef,
        )
        (ap (λ (t : ℕ). (t, s.mem)) (sum_reads inst w n s scoped))

  replaced-Agree :
      (inst : Instr) (w n k : ℕ) (s : State m.Mem)
      → n ≤ k
      → sub_width inst.kind inst.ty ≡ some w
      → IsScoped n inst
      → let r = replace_sub b w inst k in
        Agree m n (exec m r.new (exec_all m r.placed s)) (exec m inst s)
  unfolding replace_sub
  replaced-Agree inst w n k s le found scoped =
      let uses = All-InScope-weaken inst.operands le scoped.uses in
      let keeps = placed_keeps inst w k s uses in
      let (is_sub, is_int) = sub_width-eq-some inst.kind inst.ty w found in
      exec-Agree_of_result m (replace_sub b w inst k).new inst refl refl
        (rw keeps.same_mem (new_result inst w k s is_sub is_int uses)) (Agree-weaken m le keeps)

  -- On every block whose instructions are numbered below `n`, the pass leaves a block that, from
  -- states that agree below `n`, ends in states that agree below `n`.
  pub run_on_basic_block-Agree_from :
      (insts : List Instr) (n k : ℕ) (s t : State m.Mem)
      → n ≤ k
      → All (IsScoped n) insts
      → Agree m n s t
      → Agree m n (exec_all m (run_on_basic_block b insts k).insts s) (exec_all m insts t)
  unfolding run_on_basic_block exec_all
  run_on_basic_block-Agree_from [] n k s t le scoped agree = agree
  run_on_basic_block-Agree_from (inst ∷ rest) n k s t le scoped agree =
      elim (Option-cases (sub_width inst.kind inst.ty)) [
        | inl keep ↦ rw (run-keep b inst rest k keep) (
            run_on_basic_block-Agree_from rest n k (exec m inst s) (exec m inst t) le scoped.1
              (exec-Agree m inst scoped.0 agree))
        | inr (w, found) ↦
            let r = replace_sub b w inst k in
            let grown = placed_grows inst w k (All-InScope-weaken inst.operands le scoped.0.uses) in
            rw
              (
                run-replace b inst rest k w found,
                exec_all-append m r.placed (r.new ∷ (run_on_basic_block b rest r.next).insts) s,
              )
              (run_on_basic_block-Agree_from rest n r.next (exec m r.new (exec_all m r.placed s))
                (exec m inst t) (omega arith) scoped.1
                (Agree-trans m (replaced-Agree inst w n k s le found scoped.0)
                  (exec-Agree m inst scoped.0 agree)))
      ]
