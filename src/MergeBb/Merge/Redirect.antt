-- ===== src/MergeBb/Merge/Redirect.antt =====
-- `replaceBB` of lib/MergeBB.cpp: where the blocks lead to after it.
use llvm_study.Base.{
  ℕ, ◌≡◌, refl, sym, ap, ◌∙◌, true, false, List, [], ◌∷◌, none, some, ◌==◌, ==_iff, if◌then◌else◌,
  Bool-cases, inl, inr, arith,
}
use mathlib.Core.Bool.{false≢true}
use mathlib.Core.Option.{none-ne-some, some-injective}
use llvm_study.Ir.{Value, block, Kind, br, switch}
use llvm_study.Ir.Exec.{Machine}
use llvm_study.Containers.{address_eq, has}
use llvm_study.Cfg.{Block, value_eq, find_block, mentions, branches_to, is_br_or_switch}
use llvm_study.MergeBb.Steps.{Exit, enters, exit_of}
use package.llvm_study.MergeBb.Merge.{
  set_targets, retarget_block, retarget, replace_bb, preds_branch,
}
use package.llvm_study.MergeBb.Merge.Retarget.{mentions-set_targets}

abbrev pub redirect : ℕ → ℕ → ℕ → ℕ
redirect erase retain b = if b == erase then retain else b

abbrev pub redirect_exit : ℕ → ℕ → Exit → Exit
redirect_exit erase retain (enters b) = enters (redirect erase retain b)
redirect_exit erase retain e = e

-- Without the erased block there is nothing to do.
set_targets-none :
    (erase retain : ℕ) (vs : List Value)
    → mentions vs (block erase) ≡ false
    → set_targets erase retain vs ≡ vs
set_targets-none erase retain [] h = refl
set_targets-none erase retain (v ∷ vs) h =
    let here : value_eq v (block erase) ≡ false = ground arith in
    rw here (ap (λ l. v ∷ l) (set_targets-none erase retain vs (ground arith)))

set_targets-twice :
    (erase retain : ℕ) (vs : List Value)
    → (retain == erase) ≡ false
    → set_targets erase retain (set_targets erase retain vs) ≡ set_targets erase retain vs
set_targets-twice erase retain vs ne =
    set_targets-none erase retain (set_targets erase retain vs)
      (mentions-set_targets erase retain vs ne)

exit_of-set_targets :
    (m : Machine) (env : ℕ → ℕ) (erase retain : ℕ) (k : Kind) (vs : List Value)
    → is_br_or_switch k ≡ true
    → exit_of m env k (set_targets erase retain vs)
      ≡ redirect_exit erase retain (exit_of m env k vs)
unfolding exit_of value_eq
exit_of-set_targets m env erase retain switch vs h = refl
exit_of-set_targets m env erase retain br [] h = refl
exit_of-set_targets m env erase retain br (block t ∷ []) h = ground arith
exit_of-set_targets m env erase retain br (v ∷ []) h = ground arith
exit_of-set_targets m env erase retain br (v ∷ w ∷ []) h = ground arith
exit_of-set_targets m env erase retain br (v ∷ w ∷ u ∷ []) h = ground arith
exit_of-set_targets m env erase retain br (v ∷ w ∷ u ∷ z ∷ vs) h = ground arith
exit_of-set_targets m env erase retain _ vs h = absurd (false≢true h)

-- No operand of a terminator that leaves the function is the erased block.
pub exit_of-retarget_block :
    (m : Machine) (env : ℕ → ℕ) (erase retain : ℕ) (x : Block)
    → (branches_to x erase ≡ true → is_br_or_switch x.term.kind ≡ true)
    → exit_of m env x.term.kind (set_targets erase retain x.term.operands)
      ≡ redirect_exit erase retain (exit_of m env x.term.kind x.term.operands)
unfolding exit_of
exit_of-retarget_block m env erase retain x h = elim (Bool-cases (is_br_or_switch x.term.kind)) [
  | inl e ↦ exit_of-set_targets m env erase retain x.term.kind x.term.operands e
  | inr e ↦
      ap (exit_of m env x.term.kind)
        (set_targets-none erase retain x.term.operands (ground (arith, h)))
      ∙ stays x.term.kind x.term.operands e
]
  where
    stays :
        (k : Kind) (vs : List Value)
        → is_br_or_switch k ≡ false
        → exit_of m env k vs ≡ redirect_exit erase retain (exit_of m env k vs)
    stays br vs g = absurd (false≢true (sym g))
    stays switch vs g = absurd (false≢true (sym g))
    stays _ vs g = refl

retarget_block-none :
    (erase retain : ℕ) (x : Block) → branches_to x erase ≡ false → retarget_block erase retain x ≡ x
retarget_block-none erase retain x h =
    ap (λ (vs : List Value). record x { term = record x.term { operands = vs } })
      (set_targets-none erase retain x.term.operands h)

pub find_block-retarget :
    (b p erase retain : ℕ) (bs : List Block) (x : Block)
    → find_block b bs ≡ some x
    → find_block b (retarget p erase retain bs)
      ≡ some (if b == p then retarget_block erase retain x else x)
unfolding find_block
find_block-retarget b p erase retain [] x h = absurd (none-ne-some x h)
find_block-retarget b p erase retain (z ∷ zs) x h = elim (Bool-cases (z.name == b)) [
  | inl e ↦
      let here : z.name ≡ b = (==_iff z.name b).0 e in
      let same : z ≡ x = some-injective z x (rw e at h) in
      elim (Bool-cases (b == p)) [
        | inl e' ↦
            let at_p : (z.name == p) ≡ true = ap (λ (n : ℕ). n == p) here ∙ e' in
            rw (at_p, e, e') (ap (λ (y : Block). some (retarget_block erase retain y)) same)
        | inr e' ↦
            let at_p : (z.name == p) ≡ false = ap (λ (n : ℕ). n == p) here ∙ e' in
            rw (at_p, e, e') (ap (λ (y : Block). some y) same)
      ]
  | inr e ↦ elim (Bool-cases (z.name == p)) [
    | inl e' ↦ rw (e', e) (find_block-retarget b p erase retain zs x (rw e at h))
    | inr e' ↦ rw (e', e) (find_block-retarget b p erase retain zs x (rw e at h))
  ]
]

-- Retargeted once or more often, or not at all.
pub find_block-replace_bb :
    (b erase retain : ℕ) (ps : List ℕ) (bs : List Block) (x : Block)
    → (retain == erase) ≡ false
    → find_block b bs ≡ some x
    → (branches_to x erase ≡ true → has b ps ≡ true)
    → find_block b (replace_bb ps erase retain bs) ≡ some (retarget_block erase retain x)
unfolding replace_bb has
find_block-replace_bb b erase retain [] bs x ne h listed =
    h
    ∙ ap (λ (y : Block). some y) (sym (retarget_block-none erase retain x (ground (arith, listed))))
find_block-replace_bb b erase retain (p ∷ ps) bs x ne h listed = elim (Bool-cases (b == p)) [
  | inl e ↦
      let y = retarget_block erase retain x in
      find_block-replace_bb b erase retain ps (retarget p erase retain bs) y ne
        (find_block-retarget b p erase retain bs x h ∙ rw e refl)
        (λ r. absurd (false≢true (sym (mentions-set_targets erase retain x.term.operands ne) ∙ r)))
      ∙ ap (λ (vs : List Value). some (record x { term = record x.term { operands = vs } }))
          (set_targets-twice erase retain x.term.operands ne)
  | inr e ↦
      find_block-replace_bb b erase retain ps (retarget p erase retain bs) x ne
        (find_block-retarget b p erase retain bs x h ∙ rw e refl)
        (λ r. ground (arith, listed r, ==_iff b p, ==_iff p b))
]

find_block-retarget-none :
    (b p erase retain : ℕ) (bs : List Block)
    → find_block b bs ≡ none
    → find_block b (retarget p erase retain bs) ≡ none
unfolding find_block
find_block-retarget-none b p erase retain [] h = refl
find_block-retarget-none b p erase retain (z ∷ zs) h = elim (Bool-cases (z.name == b)) [
  | inl e ↦ absurd (none-ne-some z (sym (rw e at h)))
  | inr e ↦ elim (Bool-cases (z.name == p)) [
    | inl e' ↦ rw (e', e) (find_block-retarget-none b p erase retain zs (rw e at h))
    | inr e' ↦ rw (e', e) (find_block-retarget-none b p erase retain zs (rw e at h))
  ]
]

pub find_block-replace_bb-none :
    (b erase retain : ℕ) (ps : List ℕ) (bs : List Block)
    → find_block b bs ≡ none
    → find_block b (replace_bb ps erase retain bs) ≡ none
unfolding replace_bb
find_block-replace_bb-none b erase retain [] bs h = h
find_block-replace_bb-none b erase retain (p ∷ ps) bs h =
    find_block-replace_bb-none b erase retain ps (retarget p erase retain bs)
      (find_block-retarget-none b p erase retain bs h)

-- A listed predecessor ends in a branch or a switch.
pub preds_branch-listed :
    (bs : List Block) (b : ℕ) (x : Block) (ps : List ℕ)
    → preds_branch bs ps ≡ true
    → find_block b bs ≡ some x
    → has b ps ≡ true
    → is_br_or_switch x.term.kind ≡ true
unfolding has
preds_branch-listed bs b x [] h found listed = absurd (false≢true listed)
preds_branch-listed bs b x (p ∷ ps) h found listed = elim (Bool-cases (b == p)) [
  | inl e ↦
      let at_p : find_block p bs ≡ some x =
        ap (λ (c : ℕ). find_block c bs) (sym ((==_iff b p).0 e)) ∙ found in
      ground (arith, rw at_p at h)
  | inr e ↦
      preds_branch-listed bs b x ps (ground arith) found (ground (arith, ==_iff b p, ==_iff p b))
]
