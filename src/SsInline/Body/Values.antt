-- ===== src/SsInline/Body/Values.antt =====
-- While the clones of a called function run: the state of the caller against the state of the function,
-- and the values that the clones use.
use llvm_study.Base.{
  ℕ, ◌≤◌, ◌<◌, ◌≡◌, refl, sym, ap, ap₂, ◌∙◌, Bool, true, false, List, [], ◌∷◌, map, All, All-get_or,
  arith, Bool-cases, inl, inr,
}
use mathlib.Core.Path.{subst}
use llvm_study.Ir.{Value, const, local, block, global, undef, Instr, operand}
use llvm_study.Ir.Exec.{Machine, State, value_of, InScope}
use llvm_study.Containers.{address_eq, at, has}
use llvm_study.Cfg.{value_eq}
use llvm_study.Duplicate.Clone.{remap_value}
use package.llvm_study.SsInline.Arguments.{
  IsOutside, IsKnown, bound, subst_arg, subst_arg-outside, subst_arg-other, subst_arg-operand,
  subst_arg-bound,
}

-- The operands of the call are values of the caller, numbered below `n`.
abbrev pub IsCaller : (ℕ → Bool) → ℕ → Value → Type 0
IsCaller inside n v = IsOutside inside v × InScope n v

module _ (m : Machine) (inside : ℕ → Bool) (n : ℕ) (args : List ℕ) (call : Instr)
    (arguments : All (λ a. inside a ≡ true) args) (caller : All (IsCaller inside n) call.operands)
    (s0 : State m.Mem) where
  operand-IsCaller : (j : ℕ) → IsCaller inside n (operand call j)
  operand-IsCaller j = All-get_or (IsCaller inside n) call.operands j undef caller (tt, tt)

  -- The state of the clones follows the state of the function.
  pub record Follows (vmap : List (ℕ × ℕ)) (done : List ℕ) (k : ℕ) (s t : State m.Mem)
      : Type 0 where
    pub same_mem : s.mem ≡ t.mem
    pub below : n ≤ k
    pub kept : (i : ℕ) → i < n → s.env i ≡ s0.env i
    pub bound_args :
        (a : ℕ) → has a args ≡ true → t.env a ≡ bound (value_of m s0.env) call args 0 s0.env a
    pub unmapped : (i : ℕ) → inside i ≡ false → at i i vmap ≡ i
    pub mapped : (i : ℕ) → has i done ≡ true → s.env (at i i vmap) ≡ t.env i
    pub fresh : (i : ℕ) → has i done ≡ true → (n ≤ at i i vmap) × (at i i vmap < k)

  value_of-caller :
      (vmap : List (ℕ × ℕ)) (done : List ℕ) (k : ℕ) (s t : State m.Mem) (v : Value)
      → Follows vmap done k s t
      → IsCaller inside n v
      → value_of m s.env (remap_value vmap v) ≡ value_of m s0.env v
  value_of-caller vmap done k s t (const w c) f h = refl
  value_of-caller vmap done k s t (local i) f h = ap s.env (f.unmapped i h.0) ∙ f.kept i h.1
  value_of-caller vmap done k s t (block b) f h = refl
  value_of-caller vmap done k s t (global g) f h = refl
  value_of-caller vmap done k s t undef f h = refl

  abbrev pub translate : List (ℕ × ℕ) → Value → Value
  translate vmap v = remap_value vmap (subst_arg call args 0 v)

  pub translate-Follows :
      (vmap : List (ℕ × ℕ)) (done : List ℕ) (k : ℕ) (s t : State m.Mem) (v : Value)
      → Follows vmap done k s t
      → IsKnown args done v
      → value_of m s.env (translate vmap v) ≡ value_of m t.env v
  translate-Follows vmap done k s t (local a) f h = elim (Bool-cases (has a args)) [
    | inl e ↦
        value_of-caller vmap done k s t (subst_arg call args 0 (local a)) f (
          subst_arg-operand inside call (λ j. (operand-IsCaller j).0) (IsCaller inside n) args 0 a
            arguments operand-IsCaller e)
        ∙ subst_arg-bound inside call (λ j. (operand-IsCaller j).0) (value_of m s0.env) s0.env args
            0 a arguments e
        ∙ sym (f.bound_args a e)
    | inr e ↦
        ap (λ v. value_of m s.env (remap_value vmap v)) (subst_arg-other inside call args 0 a e)
        ∙ f.mapped a (rw e at h)
  ]
  translate-Follows vmap done k s t (const w c) f h =
      ap (λ v. value_of m s.env (remap_value vmap v))
        (subst_arg-outside inside call args 0 (const w c) arguments tt)
  translate-Follows vmap done k s t (block b) f h =
      ap (λ v. value_of m s.env (remap_value vmap v))
        (subst_arg-outside inside call args 0 (block b) arguments tt)
  translate-Follows vmap done k s t (global g) f h =
      ap (λ v. value_of m s.env (remap_value vmap v))
        (subst_arg-outside inside call args 0 (global g) arguments tt)
  translate-Follows vmap done k s t undef f h =
      ap (λ v. value_of m s.env (remap_value vmap v))
        (subst_arg-outside inside call args 0 undef arguments tt)

  pub values-Follows :
      (vmap : List (ℕ × ℕ)) (done : List ℕ) (k : ℕ) (s t : State m.Mem) (vs : List Value)
      → Follows vmap done k s t
      → All (IsKnown args done) vs
      → map (value_of m s.env) (map (remap_value vmap) (map (subst_arg call args 0) vs))
        ≡ map (value_of m t.env) vs
  values-Follows vmap done k s t [] f h = refl
  values-Follows vmap done k s t (v ∷ vs) f h =
      ap₂ ◌∷◌ (translate-Follows vmap done k s t v f h.0) (values-Follows vmap done k s t vs f h.1)

  scope-caller :
      (vmap : List (ℕ × ℕ)) (done : List ℕ) (k : ℕ) (s t : State m.Mem) (v : Value)
      → Follows vmap done k s t
      → IsCaller inside n v
      → InScope k (remap_value vmap v)
  scope-caller vmap done k s t (local i) f h = omega (arith, f.unmapped i h.0, h.1, f.below)
  scope-caller vmap done k s t (const w c) f h = tt
  scope-caller vmap done k s t (block b) f h = tt
  scope-caller vmap done k s t (global g) f h = tt
  scope-caller vmap done k s t undef f h = tt

  scope-outside :
      (vmap : List (ℕ × ℕ)) (k : ℕ) (v : Value)
      → IsOutside inside v
      → InScope k (remap_value vmap v)
      → InScope k (translate vmap v)
  scope-outside vmap k v o h =
      subst (λ w. InScope k (remap_value vmap w))
        (sym (subst_arg-outside inside call args 0 v arguments o)) h

  pub scope-translate :
      (vmap : List (ℕ × ℕ)) (done : List ℕ) (k : ℕ) (s t : State m.Mem) (v : Value)
      → Follows vmap done k s t
      → IsKnown args done v
      → InScope k (translate vmap v)
  scope-translate vmap done k s t (local a) f h = elim (Bool-cases (has a args)) [
    | inl e ↦ scope-caller vmap done k s t (subst_arg call args 0 (local a)) f (
        subst_arg-operand inside call (λ j. (operand-IsCaller j).0) (IsCaller inside n) args 0 a
          arguments operand-IsCaller e)
    | inr e ↦
        subst (λ v. InScope k (remap_value vmap v)) (sym (subst_arg-other inside call args 0 a e))
          (f.fresh a (rw e at h)).1
  ]
  scope-translate vmap done k s t (const w c) f h = scope-outside vmap k (const w c) tt tt
  scope-translate vmap done k s t (block b) f h = scope-outside vmap k (block b) tt tt
  scope-translate vmap done k s t (global g) f h = scope-outside vmap k (global g) tt tt
  scope-translate vmap done k s t undef f h = scope-outside vmap k undef tt tt

  -- A value that is used in place of the call is no other value of the caller than an operand.
  apart-caller :
      (vmap : List (ℕ × ℕ)) (done : List ℕ) (k : ℕ) (s t : State m.Mem) (v : Value)
      → Follows vmap done k s t
      → IsOutside inside v
      → remap_value vmap v ≡ v
  apart-caller vmap done k s t (local i) f h = ap local (f.unmapped i h)
  apart-caller vmap done k s t (const w c) f h = refl
  apart-caller vmap done k s t (block b) f h = refl
  apart-caller vmap done k s t (global g) f h = refl
  apart-caller vmap done k s t undef f h = refl

  apart-outside :
      (vmap : List (ℕ × ℕ)) (v : Value) (i : ℕ)
      → IsOutside inside v
      → value_eq (remap_value vmap v) (local i) ≡ false
      → value_eq (translate vmap v) (local i) ≡ false
  apart-outside vmap v i o h =
      subst (λ w. value_eq (remap_value vmap w) (local i) ≡ false)
        (sym (subst_arg-outside inside call args 0 v arguments o)) h

  pub apart-translate :
      (vmap : List (ℕ × ℕ)) (done : List ℕ) (k : ℕ) (s t : State m.Mem) (v : Value)
      → Follows vmap done k s t
      → IsKnown args done v
      → (i : ℕ) → i < n
      → ((j : ℕ) → value_eq (operand call j) (local i) ≡ false)
      → value_eq (translate vmap v) (local i) ≡ false
  unfolding value_eq
  apart-translate vmap done k s t (local a) f h i lt apart = elim (Bool-cases (has a args)) [
    | inl e ↦
        (subst_arg-operand inside call (λ j. (operand-IsCaller j).0)
          (λ v. value_eq (remap_value vmap v) (local i) ≡ false) args 0 a arguments
          (λ j.
            ap (λ v. value_eq v (local i))
              (apart-caller vmap done k s t (operand call j) f (operand-IsCaller j).0)
            ∙ apart j)
          e)
    | inr e ↦
        subst (λ v. value_eq (remap_value vmap v) (local i) ≡ false)
          (sym (subst_arg-other inside call args 0 a e)) (ground (arith, f.fresh a (rw e at h)))
  ]
  apart-translate vmap done k s t (const w c) f h i lt apart =
      apart-outside vmap (const w c) i tt refl
  apart-translate vmap done k s t (block b) f h i lt apart = apart-outside vmap (block b) i tt refl
  apart-translate vmap done k s t (global g) f h i lt apart =
      apart-outside vmap (global g) i tt refl
  apart-translate vmap done k s t undef f h i lt apart = apart-outside vmap undef i tt refl
