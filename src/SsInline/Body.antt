-- ===== src/SsInline/Body.antt =====
-- What the instructions that replace a call compute: the body of the called function, with its
-- arguments bound to the operands of the call.
pub mod Values
pub mod Step
use llvm_study.Base.{
  ℕ, ◌+◌, ◌≤◌, ◌<◌, ◌≡◌, refl, sym, ap, ap₂, ◌∙◌, Bool, true, false, List, [], ◌∷◌, ◌++◌, map,
  Option, none, some, ◌==◌, ==_iff, if◌then◌else◌, get_or, All, All-get_or, arith, Bool-cases, inl,
  inr,
}
use mathlib.Core.Path.{subst}
use mathlib.Core.Bool.{false≢true}
use llvm_study.Ir.{Value, const, local, block, global, undef, Instr, is_void, operand}
use llvm_study.Ir.Exec.{Machine, State, value_of, result, exec, exec_all, InScope}
use llvm_study.Ir.Frame.{InScope-weaken}
use llvm_study.Containers.{address_eq, at, modify, has}
use llvm_study.Containers.Laws.{at-modify_default}
use llvm_study.Cfg.{value_eq}
use llvm_study.Duplicate.Clone.{remap_value}
use package.llvm_study.SsInline.{is_terminator, replace_args, Inlined, clone_inst, inline_insts}
use package.llvm_study.SsInline.Arguments.{
  IsOutside, IsKnown, IsFirstKnown, IsBody, bound, subst_arg, replace_args-map, subst_arg-outside,
  subst_arg-other, subst_arg-operand, subst_arg-bound,
}
use package.llvm_study.SsInline.Body.Values.{
  IsCaller, Follows, translate, translate-Follows, scope-translate, apart-translate,
}
use package.llvm_study.SsInline.Body.Step.{Follows-entered, Follows-exec}

-- The called function's state at its entry.
abbrev pub entered : (m : Machine) → List ℕ → Instr → State m.Mem → State m.Mem
entered m args call s = record s { env = bound (value_of m s.env) call args 0 s.env }

All-weaken :
    (k l : ℕ) (cs : List Instr)
    → k ≤ l
    → All (λ (c : Instr). l ≤ c.id) cs
    → All (λ (c : Instr). k ≤ c.id) cs
All-weaken k l [] h a = tt
All-weaken k l (c ∷ cs) h a = (omega (arith, a.0), All-weaken k l cs h a.1)

inline-step :
    (args : List ℕ) (call inst : Instr) (insts : List Instr) (vmap : List (ℕ × ℕ))
    (old : Option Value) (k : ℕ) (r : Inlined)
    → is_terminator inst.kind ≡ false
    → inline_insts args call insts (modify k inst.id (λ _. k) vmap) old (k + 1) ≡ some r
    → inline_insts args call (inst ∷ insts) vmap old k
      ≡ some (record r {
        insts = clone_inst args call (modify k inst.id (λ _. k) vmap) k inst ∷ r.insts;
      })
unfolding inline_insts
inline-step args call inst insts vmap old k r e h = rw (e, h, inline_insts) refl

inline-return :
    (args : List ℕ) (call ret : Instr) (vmap : List (ℕ × ℕ)) (old : Option Value) (k : ℕ)
    (w : Value) (ws : List Value)
    → is_terminator ret.kind ≡ true
    → (clone_inst args call (modify k ret.id (λ _. k) vmap) k ret).operands ≡ w ∷ ws
    → inline_insts args call (ret ∷ []) vmap old k
      ≡ some (record { insts = []; ret_val = some w; next = k + 1 })
unfolding inline_insts
inline-return args call ret vmap old k w ws e h = rw (e, h, inline_insts) refl

has_first :
    (args done : List ℕ) (ops : List Value)
    → IsFirstKnown args done ops
    → (vs : List Value) × (ops ≡ get_or ops 0 undef ∷ vs) × IsKnown args done (get_or ops 0 undef)
has_first args done [] h = absurd h
has_first args done (v ∷ vs) h = (vs, refl, h)

module _ (m : Machine) (inside : ℕ → Bool) (n : ℕ) (args : List ℕ) (call : Instr)
    (arguments : All (λ a. inside a ≡ true) args) (caller : All (IsCaller inside n) call.operands)
    (s0 : State m.Mem) where
  -- What inlining leaves: the clones, started in `s`, end in a state where the value that is used in
  -- place of the call is the value that the function returns, and that differs from `s` in no
  -- value of the caller.
  pub record Inlines (insts : List Instr) (ret : Instr) (vmap : List (ℕ × ℕ)) (old : Option Value)
      (k : ℕ) (s t : State m.Mem) : Type 0 where
    pub left : Inlined
    pub returns : inline_insts args call (insts ++ ret ∷ []) vmap old k ≡ some left
    pub value : Value
    pub has_value : left.ret_val ≡ some value
    pub grows : k ≤ left.next
    pub new_ids : All (λ (c : Instr). k ≤ c.id) left.insts
    pub scoped : InScope left.next value
    pub apart :
        (i : ℕ)
        → i < n
        → ((j : ℕ) → value_eq (operand call j) (local i) ≡ false)
        → value_eq value (local i) ≡ false
    pub same_mem : (exec_all m left.insts s).mem ≡ (exec_all m insts t).mem
    pub same_value :
        value_of m (exec_all m left.insts s).env value
        ≡ value_of m (exec_all m insts t).env (operand ret 0)
    pub kept : (i : ℕ) → i < n → (exec_all m left.insts s).env i ≡ s0.env i

  inline_insts-Follows :
      (insts : List Instr) (ret : Instr) (vmap : List (ℕ × ℕ)) (done : List ℕ) (old : Option Value)
      (k : ℕ) (s t : State m.Mem)
      → Follows m inside n args call arguments caller s0 vmap done k s t
      → IsBody inside args done insts ret
      → Inlines insts ret vmap old k s t
  unfolding inline_insts exec_all
  inline_insts-Follows [] ret vmap done old k s t f (term, own, new, first) =
      let vmap'' = modify k ret.id (λ _. k) vmap in
      let g =
        Follows-entered m inside n args call arguments caller s0 vmap done k s t ret f own new in
      let (vs, cons, known) = has_first args done ret.operands first in
      let w = translate m inside n args call arguments caller s0 vmap'' (operand ret 0) in
      let ops : (clone_inst args call vmap'' k ret).operands
          ≡ w ∷ map (remap_value vmap'') (map (subst_arg call args 0) vs) =
        ap (map (remap_value vmap''))
          (replace_args-map args 0 call ret.operands ∙ ap (map (subst_arg call args 0)) cons) in
      record {
        left = record { insts = []; ret_val = some w; next = k + 1 };
        returns = inline-return args call ret vmap old k w _ term ops;
        value = w;
        has_value = refl;
        grows = omega arith;
        new_ids = tt;
        scoped = InScope-weaken w (omega arith) (
            scope-translate m inside n args call arguments caller s0 vmap'' done k s t
              (operand ret 0) g known);
        apart = λ i lt h.
            apart-translate m inside n args call arguments caller s0 vmap'' done k s t
              (operand ret 0) g known i lt h;
        same_mem = f.same_mem;
        same_value =
            translate-Follows m inside n args call arguments caller s0 vmap'' done k s t
              (operand ret 0) g known;
        kept = f.kept;
      }
  inline_insts-Follows (inst ∷ insts) ret vmap done old k s t f
        (term, own, no_arg, new, known, body) =
      let vmap'' = modify k inst.id (λ _. k) vmap in
      let c = clone_inst args call vmap'' k inst in
      let rest =
        inline_insts-Follows insts ret vmap'' (if is_void inst.ty then done else inst.id ∷ done) old
          (k + 1) (exec m c s) (exec m inst t)
          (Follows-exec m inside n args call arguments caller s0 vmap done k s t inst f own new
            known no_arg)
          body in
      record {
        left = record rest.left { insts = c ∷ rest.left.insts };
        returns =
            inline-step args call inst (insts ++ ret ∷ []) vmap old k rest.left term rest.returns;
        value = rest.value;
        has_value = rest.has_value;
        grows = omega (arith, rest.grows);
        new_ids = (omega arith, All-weaken k (k + 1) rest.left.insts (omega arith) rest.new_ids);
        scoped = rest.scoped;
        apart = rest.apart;
        same_mem = rest.same_mem;
        same_value = rest.same_value;
        kept = rest.kept;
      }

-- For a called function with straight-line code that returns a value, whose instructions have
-- numbers of their own, and a call whose operands are values of the caller numbered below `n`: the
-- pass inlines it, and from every state the instructions that it inserts leave the memory that the
-- function leaves when it is entered with the operands as its arguments, compute the value that it
-- returns, and change no value of the caller.
pub inline_insts-Inlines :
    (m : Machine) (inside : ℕ → Bool) (n : ℕ) (args : List ℕ) (call : Instr) (insts : List Instr)
    (ret : Instr) (s : State m.Mem)
    → (arguments : All (λ a. inside a ≡ true) args)
    → (caller : All (IsCaller inside n) call.operands) → IsBody inside args [] insts ret
    → Inlines m inside n args call arguments caller s insts ret [] none n s (entered m args call s)
unfolding at has
inline_insts-Inlines m inside n args call insts ret s arguments caller body =
    inline_insts-Follows m inside n args call arguments caller s insts ret [] [] none n s
      (entered m args call s)
      (record {
        same_mem = refl;
        below = omega arith;
        kept = λ i h. refl;
        bound_args = λ a h. refl;
        unmapped = λ i h. refl;
        mapped = λ i h. absurd (false≢true h);
        fresh = λ i h. absurd (false≢true h);
      })
      body
