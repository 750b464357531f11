-- ===== src/Duplicate/Clone/Joined.antt =====
-- The clones of a block followed by the phis that join them, against the block.
use llvm_study.Base.{
  ℕ, ◌+◌, ◌≤◌, ◌<◌, ◌≡◌, refl, ap, ap₂, ◌∙◌, Bool, true, false, ◌&&◌, ◌||◌, not, List, [], ◌∷◌,
  Option, none, some, ◌==◌, ==_iff, if◌then◌else◌, map, All, arith, Bool-cases, inl, inr,
}
use llvm_study.Ir.{Value, const, local, block, global, undef, Instr, is_void}
use llvm_study.Ir.Exec.{
  Machine, State, update, value_of, result, exec, exec_all, Agree, InScope, IsScoped,
}
use llvm_study.Containers.{address_eq, at, modify}
use llvm_study.Containers.Laws.{at-modify_default}
use llvm_study.Cfg.{incoming_value}
use package.llvm_study.Duplicate.Clone.{remap_value, clone, join_phi}

-- Whether an operand refers to a value, and not to a void instruction.
abbrev pub RefersTo : (ℕ → Bool) → Value → Type 0
RefersTo valued (local i) = valued i ≡ true
RefersTo valued _ = Unit

-- No void instruction counts as a value, and the operands refer to values.
pub record IsTyped (valued : ℕ → Bool) (inst : Instr) : Type 0 where
  pub void_no_value : is_void inst.ty ≡ true → valued inst.id ≡ false
  pub operands_valued : All (RefersTo valued) inst.operands

module _ (m : Machine) where
  abbrev pub incoming_number : State m.Mem → Option Value → ℕ
  incoming_number s (some v) = value_of m s.env v
  incoming_number s none = m.symbol undef

  -- The phis at the start of a block that is entered from the block `from` in the state `s`: each
  -- takes its incoming value for that block, as it was in `s`.
  unfoldable pub enter_phis : ℕ → State m.Mem → List Instr → State m.Mem → State m.Mem
  enter_phis from s [] u = u
  enter_phis from s (p ∷ ps) u =
      enter_phis from s ps
        (record u { env = update u.env p.id (incoming_number s (incoming_value p from)) })

-- An instruction of the list defines the value.
abbrev defines_value : List Instr → ℕ → Bool
defines_value [] i = false
defines_value (inst ∷ insts) i = (not (is_void inst.ty) && inst.id == i) || defines_value insts i

-- One side of the clones: the numbers `k + o`, `k + 2 + o`, and so on.
abbrev pub side : ℕ → List Instr → List (ℕ × ℕ) → ℕ → List Instr
side o [] vmap k = []
side o (inst ∷ insts) vmap k =
    clone vmap (k + o) inst ∷ side o insts (modify (k + o) inst.id (λ _. k + o) vmap) (k + 2)

module _ (m : Machine) (n o : ℕ) (valued : ℕ → Bool) (small : o < 2) where
  -- The clones' state follows the original's through the map, whose numbers are below `k`.
  record Follows (vmap : List (ℕ × ℕ)) (k : ℕ) (s t : State m.Mem) : Type 0 where
    same_mem : s.mem ≡ t.mem
    below : n ≤ k
    mapped : (i : ℕ) → i < n → at i i vmap < k
    same : (i : ℕ) → i < n → valued i ≡ true → s.env (at i i vmap) ≡ t.env i

  value_of-Follows :
      (vmap : List (ℕ × ℕ)) (k : ℕ) (s t : State m.Mem) (v : Value)
      → Follows vmap k s t
      → InScope n v
      → RefersTo valued v
      → value_of m s.env (remap_value vmap v) ≡ value_of m t.env v
  value_of-Follows vmap k s t (const w c) f h r = refl
  value_of-Follows vmap k s t (local i) f h r = f.same i h r
  value_of-Follows vmap k s t (block b) f h r = refl
  value_of-Follows vmap k s t (global g) f h r = refl
  value_of-Follows vmap k s t undef f h r = refl

  values-Follows :
      (vmap : List (ℕ × ℕ)) (k : ℕ) (s t : State m.Mem) (vs : List Value)
      → Follows vmap k s t
      → All (InScope n) vs
      → All (RefersTo valued) vs
      → map (value_of m s.env) (map (remap_value vmap) vs) ≡ map (value_of m t.env) vs
  values-Follows vmap k s t [] f h r = refl
  values-Follows vmap k s t (v ∷ vs) f h r =
      ap₂ ◌∷◌ (value_of-Follows vmap k s t v f h.0 r.0) (values-Follows vmap k s t vs f h.1 r.1)

  module _ (inst : Instr) (vmap : List (ℕ × ℕ)) (k : ℕ) (s t : State m.Mem)
      (follows : Follows vmap k s t) (scoped : IsScoped n inst) (typed : IsTyped valued inst) where
    same_result :
        result m inst.kind inst.ty
          (map (value_of m s.env) (map (remap_value vmap) inst.operands))
          s.mem
        ≡ result m inst.kind inst.ty (map (value_of m t.env) inst.operands) t.mem
    same_result =
        ap₂ (result m inst.kind inst.ty)
          (values-Follows vmap k s t inst.operands follows scoped.uses typed.operands_valued)
          follows.same_mem

    at-grown :
        (i : ℕ)
        → at i i (modify (k + o) inst.id (λ _. k + o) vmap)
          ≡ (if inst.id == i then k + o else at i i vmap)
    at-grown i = at-modify_default i (k + o) inst.id i (λ _. k + o) vmap

    Follows-clone :
        Follows
          (modify (k + o) inst.id (λ _. k + o) vmap)
          (k + 2)
          (exec m (clone vmap (k + o) inst) s)
          (exec m inst t)
    unfolding exec
    Follows-clone = record {
      same_mem = ap (λ (q : ℕ × m.Mem). q.1) same_result;
      below = omega (arith, follows.below);
      mapped = λ i h. ground (arith, follows.mapped i h, at-grown i);
      same = λ i h v. ground (
        arith,
        follows.mapped i h,
        follows.same i h v,
        typed.void_no_value,
        at-grown i,
        ==_iff inst.id i,
        ap (λ (q : ℕ × m.Mem). q.0) same_result,
        ap (λ (a : ℕ). s.env a) (at-grown i),
      );
    }

  module _ (then_block else_block from : ℕ)
      (enters : (inst : Instr) (k : ℕ) (e : State m.Mem)
        → incoming_number m e (incoming_value (join_phi then_block else_block inst k (k + 1)) from)
          ≡ e.env (k + o)) where
    abbrev pub phis_of : List Instr → ℕ → List Instr
    phis_of [] k = []
    phis_of (inst ∷ insts) k =
        if is_void inst.ty
        then phis_of insts (k + 2)
        else join_phi then_block else_block inst k (k + 1) ∷ phis_of insts (k + 2)

    -- What the clones leave in `e`, where the original block leaves `t'`.
    record Ends (insts : List Instr) (k : ℕ) (s t e t' : State m.Mem) : Type 0 where
      same_mem : e.mem ≡ t'.mem
      kept : (i : ℕ) → i < k → e.env i ≡ s.env i
      untouched : (i : ℕ) → defines_value insts i ≡ false → t'.env i ≡ t.env i
      joined :
          (u : State m.Mem) (i : ℕ)
          → i < n
          → (enter_phis m from e (phis_of insts k) u).env i
            ≡ (if defines_value insts i then t'.env i else u.env i)
      joined_mem : (u : State m.Mem) → (enter_phis m from e (phis_of insts k) u).mem ≡ u.mem

    -- One more instruction in front.
    Ends-cons :
        (inst : Instr) (insts : List Instr) (vmap : List (ℕ × ℕ)) (k : ℕ) (s t e t' : State m.Mem)
        → Follows vmap k s t
        → IsScoped n inst
        → IsTyped valued inst
        → Ends insts (k + 2) (exec m (clone vmap (k + o) inst) s) (exec m inst t) e t'
        → Ends (inst ∷ insts) k s t e t'
    unfolding exec enter_phis
    Ends-cons inst insts vmap k s t e t' follows scoped typed rest =
        let entered = λ (u : State m.Mem).
          let x : State m.Mem = record u {
            env = update u.env inst.id (
                incoming_number m e
                  (incoming_value (join_phi then_block else_block inst k (k + 1)) from));
          } in
          x in
        record {
          same_mem = rest.same_mem;
          kept = λ i h. ground (arith, rest.kept i);
          untouched = λ i h. ground (arith, rest.untouched i);
          joined = λ u i h. elim (Bool-cases (is_void inst.ty)) [
            | inl gone ↦ rw gone (rest.joined u i h)
            | inr there ↦ rw there (
                rest.joined (entered u) i h
                ∙ ground (
                  arith,
                  there,
                  enters inst k e,
                  rest.kept (k + o),
                  rest.untouched i,
                  ==_iff inst.id i,
                  ap (λ (q : ℕ × m.Mem). q.0) (same_result inst vmap k s t follows scoped typed),
                ))
          ];
          joined_mem = λ u. elim (Bool-cases (is_void inst.ty)) [
            | inl gone ↦ rw gone (rest.joined_mem u)
            | inr there ↦ rw there (rest.joined_mem (entered u))
          ];
        }

    side-Ends :
        (insts : List Instr) (vmap : List (ℕ × ℕ)) (k : ℕ) (s t : State m.Mem)
        → Follows vmap k s t
        → All (IsScoped n) insts
        → All (IsTyped valued) insts
        → Ends insts k s t (exec_all m (side o insts vmap k) s) (exec_all m insts t)
    unfolding exec_all enter_phis
    side-Ends [] vmap k s t follows scoped typed = record {
      same_mem = follows.same_mem;
      kept = λ i h. refl;
      untouched = λ i h. refl;
      joined = λ u i h. refl;
      joined_mem = λ u. refl;
    }
    side-Ends (inst ∷ insts) vmap k s t follows scoped typed =
        Ends-cons inst insts vmap k s t _ _ follows scoped.0 typed.0 (
          side-Ends insts (modify (k + o) inst.id (λ _. k + o) vmap) (k + 2)
            (exec m (clone vmap (k + o) inst) s) (exec m inst t)
            (Follows-clone inst vmap k s t follows scoped.0 typed.0) scoped.1 typed.1)

    -- From states that agree, the clones and the phis end where the block ends.
    pub joined-Agree :
        (insts : List Instr) (s t : State m.Mem)
        → Agree m n s t
        → All (IsScoped n) insts
        → All (IsTyped valued) insts
        → let e = exec_all m (side o insts [] n) s in
          Agree m n (enter_phis m from e (phis_of insts n) e) (exec_all m insts t)
    unfolding at
    joined-Agree insts s t agree scoped typed =
        let follows : Follows [] n s t = record {
          same_mem = agree.same_mem;
          below = omega arith;
          mapped = λ i h. h;
          same = λ i h v. agree.same_env i h;
        } in
        let ends = side-Ends insts [] n s t follows scoped typed in
        let e = exec_all m (side o insts [] n) s in
        record {
          same_mem = ends.joined_mem e ∙ ends.same_mem;
          same_env = λ i h.
              ground
                (arith, ends.joined e i h, ends.kept i h, ends.untouched i, agree.same_env i h);
        }
