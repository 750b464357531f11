-- ===== src/SsInline/Arguments.antt =====
-- The loop over the arguments in `inlineOnce`: an operand that is an argument of the called function
-- becomes the operand of the call.
use llvm_study.Base.{
  ℕ, ◌+◌, ◌≡◌, refl, sym, ap, ◌∙◌, Bool, true, false, ◌||◌, List, [], ◌∷◌, map, ◌==◌, ==_iff,
  if◌then◌else◌, All, arith, Bool-cases, inl, inr,
}
use mathlib.Core.Path.{subst}
use mathlib.Core.Bool.{false≢true}
use llvm_study.Ir.{Value, const, local, block, global, undef, Instr, is_void, operand}
use llvm_study.Containers.{address_eq, has}
use llvm_study.Cfg.{value_eq}
use package.llvm_study.SsInline.{is_terminator, replace_arg, replace_args}

-- The value does not belong to the called function.
abbrev pub IsOutside : (ℕ → Bool) → Value → Type 0
IsOutside inside (local i) = inside i ≡ false
IsOutside inside _ = Unit

-- The arguments, from operand `i` of the call on, bound in an environment.
abbrev pub bound : (Value → ℕ) → Instr → List ℕ → ℕ → (ℕ → ℕ) → ℕ → ℕ
bound value call [] i env a = env a
bound value call (x ∷ xs) i env a =
    if x == a then value (operand call i) else bound value call xs (i + 1) env a

-- An operand refers to an argument, or to one of the values computed so far.
abbrev pub IsKnown : List ℕ → List ℕ → Value → Type 0
IsKnown args done (local i) = (has i args || has i done) ≡ true
IsKnown args done _ = Unit

-- The list has a first operand, and it is known.
abbrev pub IsFirstKnown : List ℕ → List ℕ → List Value → Type 0
IsFirstKnown args done [] = ⊥
IsFirstKnown args done (v ∷ vs) = IsKnown args done v

-- Straight-line code of the called function that ends with the return `ret`, whose instructions are
-- numbered differently from each other, from the arguments and from the caller's.
abbrev pub IsBody : (ℕ → Bool) → List ℕ → List ℕ → List Instr → Instr → Type 0
IsBody inside args done [] ret =
    (is_terminator ret.kind ≡ true)
    × (inside ret.id ≡ true)
    × (has ret.id done ≡ false)
    × IsFirstKnown args done ret.operands
IsBody inside args done (inst ∷ insts) ret =
    (is_terminator inst.kind ≡ false)
    × (inside inst.id ≡ true)
    × (has inst.id args ≡ false)
    × (has inst.id done ≡ false)
    × All (IsKnown args done) inst.operands
    × IsBody inside args (if is_void inst.ty then done else inst.id ∷ done) insts ret

-- One operand after the loop over the arguments.
abbrev pub subst_arg : Instr → List ℕ → ℕ → Value → Value
subst_arg call [] i v = v
subst_arg call (a ∷ args) i v =
    subst_arg call args (i + 1) (if value_eq v (local a) then operand call i else v)

replace_arg-map :
    (a : ℕ) (w : Value) (ops : List Value)
    → replace_arg a w ops ≡ map (λ v. if value_eq v (local a) then w else v) ops
replace_arg-map a w [] = refl
replace_arg-map a w (v ∷ ops) =
    ap (λ l. (if value_eq v (local a) then w else v) ∷ l) (replace_arg-map a w ops)

pub replace_args-map :
    (args : List ℕ) (i : ℕ) (call : Instr) (ops : List Value)
    → replace_args args i call ops ≡ map (subst_arg call args i) ops
unfolding replace_args
replace_args-map [] i call [] = refl
replace_args-map [] i call (v ∷ ops) = ap (λ l. v ∷ l) (replace_args-map [] i call ops)
replace_args-map (a ∷ args) i call ops =
    replace_args-map args (i + 1) call (replace_arg a (operand call i) ops)
    ∙ ap (map (subst_arg call args (i + 1))) (replace_arg-map a (operand call i) ops)
    ∙ map-two (subst_arg call args (i + 1))
        (λ v. if value_eq v (local a) then operand call i else v) ops
  where
    map-two : (f g : Value → Value) (vs : List Value) → map f (map g vs) ≡ map (λ v. f (g v)) vs
    map-two f g [] = refl
    map-two f g (v ∷ vs) = ap (λ l. f (g v) ∷ l) (map-two f g vs)

module _ (inside : ℕ → Bool) (call : Instr) where
  value_eq-outside :
      (a : ℕ) (v : Value) → inside a ≡ true → IsOutside inside v → value_eq v (local a) ≡ false
  unfolding value_eq
  value_eq-outside a (const w c) h o = refl
  value_eq-outside a (local j) h o = ground (arith, h, o, ==_iff j a, ap inside ((==_iff j a).0 _))
  value_eq-outside a (block b) h o = refl
  value_eq-outside a (global g) h o = refl
  value_eq-outside a undef h o = refl

  pub subst_arg-outside :
      (args : List ℕ) (i : ℕ) (v : Value)
      → All (λ a. inside a ≡ true) args
      → IsOutside inside v
      → subst_arg call args i v ≡ v
  subst_arg-outside [] i v h o = refl
  subst_arg-outside (a ∷ args) i v h o =
      rw (value_eq-outside a v h.0 o) (subst_arg-outside args (i + 1) v h.1 o)

  value_eq-local : (a x : ℕ) → value_eq (local a) (local x) ≡ (x == a)
  unfolding value_eq
  value_eq-local a x = ground (arith, ==_iff a x, ==_iff x a)

  subst_arg-step :
      (x : ℕ) (args : List ℕ) (i a : ℕ) (b : Bool)
      → (x == a) ≡ b
      → subst_arg call (x ∷ args) i (local a)
        ≡ subst_arg call args (i + 1) (if b then operand call i else local a)
  subst_arg-step x args i a b e =
      ap (λ (t : Bool). subst_arg call args (i + 1) (if t then operand call i else local a))
        (value_eq-local a x ∙ e)

  pub subst_arg-other :
      (args : List ℕ) (i a : ℕ) → has a args ≡ false → subst_arg call args i (local a) ≡ local a
  unfolding has
  subst_arg-other [] i a h = refl
  subst_arg-other (x ∷ args) i a h = elim (Bool-cases (x == a)) [
    | inl e ↦ absurd (false≢true (sym (rw e at h)))
    | inr e ↦ subst_arg-step x args i a false e ∙ subst_arg-other args (i + 1) a (rw e at h)
  ]

  module _ (outside : (j : ℕ) → IsOutside inside (operand call j)) where
    pub subst_arg-operand :
        (P : Value → Type 0) (args : List ℕ) (i a : ℕ)
        → All (λ x. inside x ≡ true) args
        → ((j : ℕ) → P (operand call j))
        → has a args ≡ true
        → P (subst_arg call args i (local a))
    unfolding has
    subst_arg-operand P [] i a h p k = absurd (false≢true k)
    subst_arg-operand P (x ∷ args) i a h p k = elim (Bool-cases (x == a)) [
      | inl e ↦
          subst P
            (sym (
              subst_arg-step x args i a true e
              ∙ subst_arg-outside args (i + 1) (operand call i) h.1 (outside i)))
            (p i)
      | inr e ↦
          subst P (sym (subst_arg-step x args i a false e))
            (subst_arg-operand P args (i + 1) a h.1 p (rw e at k))
    ]

    pub subst_arg-bound :
        (value : Value → ℕ) (env : ℕ → ℕ) (args : List ℕ) (i a : ℕ)
        → All (λ x. inside x ≡ true) args
        → has a args ≡ true
        → value (subst_arg call args i (local a)) ≡ bound value call args i env a
    unfolding has
    subst_arg-bound value env [] i a h k = absurd (false≢true k)
    subst_arg-bound value env (x ∷ args) i a h k = elim (Bool-cases (x == a)) [
      | inl e ↦ rw e (
          ap value (
            subst_arg-step x args i a true e
            ∙ subst_arg-outside args (i + 1) (operand call i) h.1 (outside i)))
      | inr e ↦ rw e (
          ap value (subst_arg-step x args i a false e)
          ∙ subst_arg-bound value env args (i + 1) a h.1 (rw e at k))
    ]
