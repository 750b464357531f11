-- ===== src/MergeBb/Merge/Rules.antt =====
-- `replaceBB` of lib/MergeBB.cpp keeps a function well-formed.
use llvm_study.Base.{
  ℕ, ◌+◌, ◌≡◌, refl, ap, ◌∙◌, false, List, [], ◌∷◌, ◌++◌, ◌==◌, if◌then◌else◌, All, Bool-cases, inl,
  inr, arith,
}
use llvm_study.Ir.{Value, const, local, block, global, undef, Instr}
use llvm_study.Containers.{address_eq}
use llvm_study.Cfg.{Block, value_eq, is_phi}
use llvm_study.Cfg.Uses.{count_operands, num_uses}
use llvm_study.Cfg.Named.{IsNamed, All-map}
use llvm_study.Duplicate.Whole.{after_phis}
use package.llvm_study.MergeBb.Merge.{set_targets, retarget_block, retarget, replace_bb}
use package.llvm_study.MergeBb.Merge.Redirect.{find_block-retarget}
use package.llvm_study.MergeBb.Merge.Twins.{IsWellFormed}

pub count_operands-set_targets :
    (c e r : ℕ) (vs : List Value)
    → count_operands (local c) (set_targets e r vs) ≡ count_operands (local c) vs
unfolding count_operands value_eq
count_operands-set_targets c e r [] = refl
count_operands-set_targets c e r (const w k ∷ vs) =
    omega (arith, count_operands-set_targets c e r vs)
count_operands-set_targets c e r (local i ∷ vs) =
    ap (λ k. (if i == c then 1 else 0) + k) (count_operands-set_targets c e r vs)
count_operands-set_targets c e r (block b ∷ vs) =
    ground (arith, count_operands-set_targets c e r vs)
count_operands-set_targets c e r (global g ∷ vs) =
    omega (arith, count_operands-set_targets c e r vs)
count_operands-set_targets c e r (undef ∷ vs) = omega (arith, count_operands-set_targets c e r vs)

num_uses-retarget :
    (id p e r : ℕ) (bs : List Block) → num_uses id (retarget p e r bs) ≡ num_uses id bs
unfolding num_uses
num_uses-retarget id p e r [] = refl
num_uses-retarget id p e r (x ∷ xs) = elim (Bool-cases (x.name == p)) [
  | inl q ↦ rw q (
      omega
        (arith, num_uses-retarget id p e r xs, count_operands-set_targets id e r x.term.operands))
  | inr q ↦ rw q (omega (arith, num_uses-retarget id p e r xs))
]

All-retarget :
    (P : Block → Type 0) (p e r : ℕ) (bs : List Block)
    → ((x : Block) → P x → P (retarget_block e r x))
    → All P bs
    → All P (retarget p e r bs)
All-retarget P p e r [] f h = tt
All-retarget P p e r (x ∷ xs) f h = elim (Bool-cases (x.name == p)) [
  | inl q ↦ rw q (f x h.0, All-retarget P p e r xs f h.1)
  | inr q ↦ rw q (h.0, All-retarget P p e r xs f h.1)
]

IsNamed-retarget :
    (p e r : ℕ) (bs xs : List Block)
    → IsNamed bs xs
    → IsNamed (retarget p e r bs) (retarget p e r xs)
IsNamed-retarget p e r bs [] h = tt
IsNamed-retarget p e r bs (x ∷ xs) h =
    let here = find_block-retarget x.name p e r bs x h.0 in
    elim (Bool-cases (x.name == p)) [
      | inl q ↦ rw q (here ∙ rw q refl, IsNamed-retarget p e r bs xs h.1)
      | inr q ↦ rw q (here ∙ rw q refl, IsNamed-retarget p e r bs xs h.1)
    ]

change-last :
    (P : Instr → Type 0) (zs : List Instr) (s t : Instr)
    → (P s → P t)
    → All P (zs ++ s ∷ [])
    → All P (zs ++ t ∷ [])
change-last P [] s t f h = (f h.0, tt)
change-last P (z ∷ zs) s t f h = (h.0, change-last P zs s t f h.1)

retarget-IsWellFormed :
    (p e r : ℕ) (bs : List Block) → IsWellFormed bs → IsWellFormed (retarget p e r bs)
retarget-IsWellFormed p e r bs w = record {
  named = IsNamed-retarget p e r bs bs w.named;
  distinct = All-retarget _ p e r bs (λ x h. h) w.distinct;
  debug = All-retarget _ p e r bs (λ x h. h) w.debug;
  void_unused =
      All-retarget _ p e r bs (λ x h. h)
        (All-map _ _ bs
          (λ x h. All-map _ _ x.insts (λ z g v. num_uses-retarget z.id p e r bs ∙ g v) h)
          w.void_unused);
  phis_first =
      All-retarget _ p e r bs
        (λ x h.
          change-last (λ (z : Instr). is_phi z.kind ≡ false) (after_phis x.insts) x.term
            (retarget_block e r x).term (λ g. g) h)
        w.phis_first;
}

pub replace_bb-IsWellFormed :
    (ps : List ℕ) (e r : ℕ) (bs : List Block)
    → IsWellFormed bs
    → IsWellFormed (replace_bb ps e r bs)
unfolding replace_bb
replace_bb-IsWellFormed [] e r bs w = w
replace_bb-IsWellFormed (p ∷ ps) e r bs w =
    replace_bb-IsWellFormed ps e r (retarget p e r bs) (retarget-IsWellFormed p e r bs w)
