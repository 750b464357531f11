-- ===== src/SsInline/Body/Step.antt =====
-- One clone of an instruction of the called function, against that instruction.
use llvm_study.Base.{
  ℕ, ◌+◌, ◌≡◌, refl, sym, ap, ap₂, ◌∙◌, Bool, true, false, List, ◌∷◌, map, ◌==◌, ==_iff,
  if◌then◌else◌, All, arith, Bool-cases, inl, inr,
}
use mathlib.Core.Bool.{false≢true}
use llvm_study.Ir.{Instr, is_void}
use llvm_study.Ir.Exec.{Machine, State, value_of, result, exec}
use llvm_study.Containers.{address_eq, at, modify, has}
use llvm_study.Containers.Laws.{at-modify_default}
use llvm_study.Duplicate.Clone.{remap_value}
use package.llvm_study.SsInline.{replace_args, clone_inst}
use package.llvm_study.SsInline.Arguments.{IsKnown, replace_args-map}
use package.llvm_study.SsInline.Body.Values.{IsCaller, Follows, values-Follows}

module _ (m : Machine) (inside : ℕ → Bool) (n : ℕ) (args : List ℕ) (call : Instr)
    (arguments : All (λ a. inside a ≡ true) args) (caller : All (IsCaller inside n) call.operands)
    (s0 : State m.Mem) where
  -- The instruction is entered in the map.
  module _ (vmap : List (ℕ × ℕ)) (done : List ℕ) (k : ℕ) (s t : State m.Mem) (inst : Instr)
      (f : Follows m inside n args call arguments caller s0 vmap done k s t)
      (own : inside inst.id ≡ true) (new : has inst.id done ≡ false) where
    abbrev vmap' : List (ℕ × ℕ)
    vmap' = modify k inst.id (λ _. k) vmap

    at-entered : (i : ℕ) → at i i vmap' ≡ (if inst.id == i then k else at i i vmap)
    at-entered i = at-modify_default i k inst.id i (λ _. k) vmap

    differs :
        (xs : List ℕ) (i : ℕ) → has inst.id xs ≡ false → has i xs ≡ true → (inst.id == i) ≡ false
    differs xs i h k = elim (Bool-cases (inst.id == i)) [
      | inl e ↦
          let same : inst.id ≡ i = (==_iff inst.id i).0 e in
          absurd (false≢true (sym h ∙ ap (λ j. has j xs) same ∙ k))
      | inr e ↦ e
    ]

    at-known : (i : ℕ) → has i done ≡ true → at i i vmap' ≡ at i i vmap
    at-known i h = at-entered i ∙ rw (differs done i new h) refl

    pub Follows-entered : Follows m inside n args call arguments caller s0 vmap' done k s t
    Follows-entered = record {
      same_mem = f.same_mem;
      below = f.below;
      kept = f.kept;
      bound_args = f.bound_args;
      unmapped = λ i h. ground (
        arith,
        at-entered i,
        f.unmapped i h,
        own,
        ==_iff inst.id i,
        ap inside ((==_iff inst.id i).0 _),
      );
      mapped = λ i h. ap s.env (at-known i h) ∙ f.mapped i h;
      fresh = λ i h. omega (arith, at-known i h, f.fresh i h);
    }

    same_result :
        (known : All (IsKnown args done) inst.operands)
        → result m inst.kind inst.ty
            (map
              (value_of m s.env)
              (map (remap_value vmap') (replace_args args 0 call inst.operands)))
            s.mem
          ≡ result m inst.kind inst.ty (map (value_of m t.env) inst.operands) t.mem
    same_result known =
        ap₂ (result m inst.kind inst.ty)
          (ap (λ vs. map (value_of m s.env) (map (remap_value vmap') vs))
              (replace_args-map args 0 call inst.operands)
            ∙ values-Follows m inside n args call arguments caller s0 vmap' done k s t inst.operands
                Follows-entered known)
          f.same_mem

    pub Follows-exec :
        (known : All (IsKnown args done) inst.operands)
        → has inst.id args ≡ false
        → Follows m inside n args call arguments caller s0 vmap'
            (if is_void inst.ty then done else inst.id ∷ done)
            (k + 1)
            (exec m (clone_inst args call vmap' k inst) s)
            (exec m inst t)
    unfolding exec has
    Follows-exec known no_arg = record {
      same_mem = ap (λ (q : ℕ × m.Mem). q.1) (same_result known);
      below = omega (arith, f.below);
      kept = λ i h. ground (arith, f.kept i h, f.below);
      bound_args = λ a h. ground (arith, f.bound_args a h, differs args a no_arg h);
      unmapped = Follows-entered.unmapped;
      mapped = λ i h. ground (
        arith,
        h,
        at-entered i,
        f.mapped i,
        f.fresh i,
        differs done i new,
        ==_iff inst.id i,
        ap s.env (at-entered i),
        ap (λ (q : ℕ × m.Mem). q.0) (same_result known),
      );
      fresh = λ i h. ground (arith, h, at-entered i, f.fresh i, differs done i new, f.below);
    }
