-- ===== src/SsLoopVec/Step.antt =====
-- The step of the loop: the addition of a constant in `LInc`.
use llvm_study.Base.{
  ℕ, ◌+◌, ◌*◌, ◌%◌, ◌^◌, ◌<◌, ◌≡◌, refl, ap, ◌∙◌, fun_ext, Bool, true, false, List, [], ◌∷◌, ◌++◌,
  All, arith,
}
use native.Mathlib.Nat.{add-mod-mod}
use package.llvm_study.SsLoopVec.{
  Operand, constant_int, value, Inst, add, is_add, limited, scale_step,
}
use package.llvm_study.SsLoopVec.Exec.{Machine, State, define, exec}

scale_step-skip :
    (i : ℕ) (xs ys : List Inst)
    → All (λ (x : Inst). is_add x.opcode ≡ false) xs
    → scale_step i (xs ++ ys) ≡ xs ++ scale_step i ys
unfolding scale_step
scale_step-skip i [] ys h = refl
scale_step-skip i (x ∷ xs) ys h =
    rw (scale_step, h.0) (ap (λ l. x ∷ l) (scale_step-skip i xs ys h.1))

-- `i + c`, or `c + i`.
abbrev pub step_operands : Bool → ℕ → ℕ → List Operand
step_operands true i c = value i ∷ constant_int 32 c ∷ []
step_operands false i c = constant_int 32 c ∷ value i ∷ []

abbrev pub step : Bool → ℕ → ℕ → ℕ → Inst
step order id i c = record { id = id; opcode = add; lanes = 1; operands = step_operands order i c }

limited-small : (c : ℕ) → c < 2 ^ 32 → limited c ≡ c
limited-small c h = ground (arith, h)

scaled-step :
    (order : Bool) (id i c : ℕ) (rest : List Inst)
    → scale_step 0 (step order id i c ∷ rest) ≡ step true id i (limited c * 4 % 2 ^ 32) ∷ rest
unfolding scale_step
scaled-step true id i c rest = refl
scaled-step false id i c rest = refl

-- Where the first addition of the step block adds a constant below 2 ^ 32, in either order: the pass
-- changes no other instruction, and the new addition goes on by four times the constant, modulo 2 ^ 32.
pub scale_step-quadruples :
    (m : Machine) (order : Bool) (id i c : ℕ) (before rest : List Inst) (s : State)
    → All (λ (x : Inst). is_add x.opcode ≡ false) before
    → c < 2 ^ 32
    → (new : Inst) × (scale_step 0 (before ++ step order id i c ∷ rest) ≡ before ++ new ∷ rest)
      × (exec m new s ≡ define id (λ j. (s.env i j + 4 * c) % 2 ^ 32) s)
unfolding exec
scale_step-quadruples m order id i c before rest s no_add small = (
  step true id i (limited c * 4 % 2 ^ 32),
  scale_step-skip 0 before (step order id i c ∷ rest) no_add
      ∙ ap (λ l. before ++ l) (scaled-step order id i c rest),
  ap (λ (k : ℕ → ℕ). define id k s)
      (fun_ext (λ j.
        ap (λ (q : ℕ). (s.env i j + q * 4 % 2 ^ 32) % 2 ^ 32) (limited-small c small)
        ∙ add-mod-mod (s.env i j) (c * 4) (2 ^ 32)
        ∙ ap (λ (q : ℕ). (s.env i j + q) % 2 ^ 32) (omega arith))),
)
