-- ===== src/MergeBb/Merge/Twins/Phi.antt =====
-- The phi that follows two merged blocks of lib/MergeBB.cpp takes the same value from either.
use llvm_study.Base.{
  ℕ, ◌≡◌, refl, sym, ap, ◌∙◌, Bool, true, false, List, [], ◌∷◌, ◌++◌, Option, none, some, ==_iff,
  All, Bool-cases, Option-cases, inl, inr,
}
use mathlib.Core.Bool.{false≢true}
use llvm_study.Ir.{Value, const, local, block, global, undef, Instr}
use llvm_study.Containers.{address_eq}
use llvm_study.Cfg.{Block, value_eq_iff, is_phi}
use llvm_study.Cfg.Uses.{parent_of}
use llvm_study.Cfg.Named.{All-map}
use llvm_study.Duplicate.Whole.{phis_of, after_phis}
use package.llvm_study.MergeBb.Merge.{SuccPhi, no_phi, one_phi, succ_phi, same_value, defined_in}

abbrev phi_or : Instr → SuccPhi → Instr
phi_or d (one_phi z) = z
phi_or d _ = d

abbrev is_one : SuccPhi → Bool
is_one (one_phi z) = true
is_one _ = false

abbrev is_none : SuccPhi → Bool
is_none no_phi = true
is_none _ = false

pub succ_phi-no_phi : (zs : List Instr) → succ_phi zs ≡ no_phi → phis_of zs ≡ []
unfolding succ_phi phis_of
succ_phi-no_phi [] h = refl
succ_phi-no_phi (i ∷ []) h = elim (Bool-cases (is_phi i.kind)) [
  | inl e ↦ absurd (false≢true (ap is_none (rw e at h)))
  | inr e ↦ rw e refl
]
succ_phi-no_phi (i ∷ j ∷ rest) h = elim (Bool-cases (is_phi i.kind)) [
  | inl e ↦ elim (Bool-cases (is_phi j.kind)) [
    | inl e' ↦ absurd (false≢true (ap is_none (rw (e, e') at h)))
    | inr e' ↦ absurd (false≢true (ap is_none (rw (e, e') at h)))
  ]
  | inr e ↦ rw e refl
]

pub succ_phi-one_phi :
    (zs : List Instr) (pn : Instr) → succ_phi zs ≡ one_phi pn → phis_of zs ≡ pn ∷ []
unfolding succ_phi phis_of
succ_phi-one_phi [] pn h = absurd (false≢true (ap is_one h))
succ_phi-one_phi (i ∷ []) pn h = elim (Bool-cases (is_phi i.kind)) [
  | inl e ↦ let same : i ≡ pn = ap (phi_or i) (rw e at h) in rw e (ap (λ (z : Instr). z ∷ []) same)
  | inr e ↦ absurd (false≢true (ap is_one (rw e at h)))
]
succ_phi-one_phi (i ∷ j ∷ rest) pn h = elim (Bool-cases (is_phi i.kind)) [
  | inl e ↦ elim (Bool-cases (is_phi j.kind)) [
    | inl e' ↦ absurd (false≢true (ap is_one (rw (e, e') at h)))
    | inr e' ↦
        let same : i ≡ pn = ap (phi_or i) (rw (e, e') at h) in
        rw (e, e') (ap (λ (z : Instr). z ∷ []) same)
  ]
  | inr e ↦ absurd (false≢true (ap is_one (rw e at h)))
]

-- Phis stand at the start of a block: what holds of these holds of all its phis.
pub phis_of-only :
    (P : Instr → Type 0) (zs : List Instr) (term : Instr)
    → All P (phis_of zs)
    → All (λ (z : Instr). is_phi z.kind ≡ false) (after_phis zs ++ term ∷ [])
    → All (λ (z : Instr). is_phi z.kind ≡ true → P z) (zs ++ term ∷ [])
unfolding phis_of after_phis
phis_of-only P [] term h k = (λ e. absurd (false≢true (sym k.0 ∙ e)), tt)
phis_of-only P (z ∷ zs) term h k = elim (Bool-cases (is_phi z.kind)) [
  | inl e ↦
      let g : P z × All P (phis_of zs) = rw e at h in
      (λ e'. g.0, phis_of-only P zs term g.1 (rw e at k))
  | inr e ↦
      All-map _ _ (z ∷ zs ++ term ∷ []) (λ w n e'. absurd (false≢true (sym n ∙ e'))) (rw e at k)
]

pub defined_in-local :
    (bs : List Block) (o : Option Value) (b : ℕ)
    → defined_in bs o b ≡ true
    → (i : ℕ) × (o ≡ some (local i)) × (parent_of i bs ≡ some b)
defined_in-local bs none b h = absurd (false≢true h)
defined_in-local bs (some (local i)) b h = elim (Option-cases (parent_of i bs)) [
  | inl e ↦ absurd (false≢true (rw (defined_in, e) at h))
  | inr (a, e) ↦ (i, refl, e ∙ ap (λ (c : ℕ). some c) ((==_iff a b).0 (rw (defined_in, e) at h)))
]
defined_in-local bs (some (const w n)) b h = absurd (false≢true h)
defined_in-local bs (some (block c)) b h = absurd (false≢true h)
defined_in-local bs (some (global g)) b h = absurd (false≢true h)
defined_in-local bs (some undef) b h = absurd (false≢true h)

pub same_value-eq : (v w : Option Value) → same_value v w ≡ true → v ≡ w
same_value-eq none w h = absurd (false≢true h)
same_value-eq (some v) none h = absurd (false≢true h)
same_value-eq (some v) (some w) h = ap (λ (x : Value). some x) ((value_eq_iff v w).0 h)
