-- ===== src/MergeBb/Merge/Same/Steps.antt =====
-- One merge of lib/MergeBB.cpp: step by step.
use llvm_study.Base.{
  ℕ, zero, suc, ◌≡◌, refl, sym, ap, ◌∙◌, Bool, true, false, List, [], ◌∷◌, none, some, ◌==◌, ==_iff,
  Bool-cases, Option-cases, inl, inr, ◌⊎◌, arith,
}
use mathlib.Core.Bool.{false≢true}
use mathlib.Core.Option.{some-injective}
use mathlib.Core.Path.{subst}
use llvm_study.Ir.{Instr}
use llvm_study.Ir.Exec.{Machine, exec_all}
use llvm_study.Containers.{address_eq}
use llvm_study.Cfg.{Block, find_block}
use llvm_study.Duplicate.Clone.Joined.{enter_phis}
use llvm_study.Duplicate.Whole.{phis_of}
use llvm_study.MergeBb.Steps.{
  enters, exit_of, Config, Next, goes_on, ends_with, stuck, run_block, next_of, step, steps,
}
use llvm_study.MergeBb.Steps.Alike.{Alike, Alike-weaken, PhisAgree}
use package.llvm_study.MergeBb.Merge.{retarget_block, preds_branch, phi_allows, one_phi}
use package.llvm_study.MergeBb.Merge.Retarget.{Listed}
use package.llvm_study.MergeBb.Merge.Redirect.{redirect, redirect_exit, find_block-replace_bb-none}
use package.llvm_study.MergeBb.Merge.Twins.{IsWellFormed}
use package.llvm_study.MergeBb.Merge.Twins.Readers.{AreTwins, unconditional-br}
use package.llvm_study.MergeBb.Merge.Twins.Hidden.{hidden}
use package.llvm_study.MergeBb.Merge.Twins.Exec.{IsSilent, IsSound}
use package.llvm_study.MergeBb.Merge.Twins.Crossing.{
  IsPhiFree, after_phis-free, phis_of-free, second-IsPhiFree, cross-exec,
}
use package.llvm_study.MergeBb.Merge.Twins.Values.{phi-value}
use package.llvm_study.MergeBb.Merge.Same.{
  exit_of-Alike, AgreeNext, Related, merged, found-merged, exit-merged, run-Alike, term-Unread,
  next-Related,
}

module _ (same_operation : Instr → Instr → Bool) (sound : IsSound same_operation) (bs : List Block)
    (rules : IsWellFormed bs) (succ : ℕ) (x y : Block) (t : AreTwins same_operation bs succ x y)
    (free : IsPhiFree x.insts) (m : Machine) (silent : IsSilent m) (ps : List ℕ)
    (listed : Listed x.name ps bs) (branch : preds_branch bs ps ≡ true) (next : Block)
    (found_next : find_block succ bs ≡ some next)
    (allowed : (phis_of next.insts ≡ [])
      ⊎ ((pn : Instr) × (phis_of next.insts ≡ pn ∷ [])
          × (phi_allows bs (one_phi pn) x.name y.name ≡ true))) where
  abbrev hides : ℕ → Bool
  hides = hidden same_operation bs rules succ x y t

  abbrev pub IsRelated : Config m.Mem → Config m.Mem → Type 0
  IsRelated = Related same_operation sound bs rules succ x y t free m silent

  abbrev after : List Block
  after = merged same_operation sound bs rules succ x y t free m silent ps listed branch

  -- The step from the block that is after, against that from the block that replaces it.
  cross-Related :
      (c d : Config m.Mem)
      → Alike m hides c.state d.state
      → IsRelated
          (record { at = succ; from = x.name; state = run_block m c.from x.insts c.state })
          (record {
            at = redirect x.name y.name succ;
            from = y.name;
            state = run_block m d.from y.insts d.state;
          })
  unfolding enter_phis
  cross-Related c d a =
      let free2 = second-IsPhiFree same_operation sound bs rules succ x y t free in
      let crossed =
        cross-exec same_operation sound bs rules succ x y t free m silent c.state d.state a in
      rw
        (
          after_phis-free x.insts free,
          phis_of-free x.insts free,
          after_phis-free y.insts free2,
          phis_of-free y.insts free2,
        )
        (record {
          at_same = refl;
          alike = crossed.0;
          phis = λ w found.
              let same : w ≡ next = some-injective w next (sym found ∙ found_next) in
              elim allowed [
                | inl none_there ↦
                    subst
                      (λ (ps : List Instr).
                        PhisAgree m x.name y.name (exec_all m x.insts c.state)
                          (exec_all m y.insts d.state) ps)
                      (sym (ap (λ (v : Block). phis_of v.insts) same ∙ none_there)) tt
                | inr (pn, only, allows) ↦
                    subst
                      (λ (ps : List Instr).
                        PhisAgree m x.name y.name (exec_all m x.insts c.state)
                          (exec_all m y.insts d.state) ps)
                      (sym (ap (λ (v : Block). phis_of v.insts) same ∙ only))
                      (
                        phi-value same_operation sound bs rules succ x y t free next pn found_next
                            only m (exec_all m x.insts c.state) (exec_all m y.insts d.state)
                            crossed.0 crossed.1 allows,
                        tt,
                      )
              ];
        })

  -- The step, at the block that is found under a name.
  step-found :
      (cs : List Block) (c : Config m.Mem) (b : ℕ) (w : Block)
      → c.at ≡ b
      → find_block b cs ≡ some w
      → step m cs c
        ≡ next_of m b
            (run_block m c.from w.insts c.state)
            (exit_of m (run_block m c.from w.insts c.state).env w.term.kind w.term.operands)
  unfolding step
  step-found cs c b w at found =
      ap (λ (k : ℕ). step m cs (record c { at = k })) at ∙ rw (step, found) refl

  step-stays :
      (c d : Config m.Mem) (w : Block)
      → IsRelated c d
      → find_block c.at bs ≡ some w
      → (c.at == x.name) ≡ false
      → AgreeNext m IsRelated (step m bs c) (step m after d)
  step-stays c d w r found other =
      let stays : d.at ≡ c.at = r.at_same ∙ rw other refl in
      let a =
        run-Alike same_operation sound bs rules succ x y t free m silent ps listed branch c.at w c d
          found r.alike (r.phis w found) in
      let s = run_block m c.from w.insts c.state in
      let u = run_block m d.from w.insts d.state in
      let exits =
        exit-merged same_operation sound bs rules succ x y t free m silent ps listed branch c.at w
          u.env found
        ∙ ap (redirect_exit x.name y.name) (
            sym (
              exit_of-Alike m hides s u w.term.kind w.term.operands
                (Alike-weaken m _ hides s u (λ i h. ground (arith, h)) a)
                (term-Unread same_operation sound bs rules succ x y t free m silent ps listed branch
                  c.at w found))) in
      rw
        (
          step-found bs c c.at w refl found,
          step-found after d c.at (retarget_block x.name y.name w) stays (
              found-merged same_operation sound bs rules succ x y t free m silent ps listed branch
                c.at w found),
          exits,
        )
        (next-Related same_operation sound bs rules succ x y t free m silent ps listed branch c.at w
          s u (exit_of m s.env w.term.kind w.term.operands) found other a)

  step-crosses :
      (c d : Config m.Mem)
      → IsRelated c d
      → (c.at == x.name) ≡ true
      → AgreeNext m IsRelated (step m bs c) (step m after d)
  unfolding exit_of
  step-crosses c d r here =
      let at_x : c.at ≡ x.name = (==_iff c.at x.name).0 here in
      let at_y : d.at ≡ y.name = r.at_same ∙ rw here refl in
      let s = run_block m c.from x.insts c.state in
      let u = run_block m d.from y.insts d.state in
      let (kind1, ops1) = unconditional-br x.term.kind x.term.operands succ t.to1 in
      let (kind2, ops2) = unconditional-br y.term.kind y.term.operands succ t.to2 in
      let exit1 : exit_of m s.env x.term.kind x.term.operands ≡ enters succ =
        rw (kind1, ops1) refl in
      let exit2 : exit_of m u.env y.term.kind y.term.operands ≡ enters succ =
        rw (kind2, ops2) refl in
      rw
        (
          step-found bs c x.name x at_x t.found1,
          step-found after d y.name (retarget_block x.name y.name y) at_y (
              found-merged same_operation sound bs rules succ x y t free m silent ps listed branch
                y.name y t.found2),
          exit1,
          exit-merged same_operation sound bs rules succ x y t free m silent ps listed branch y.name
                y u.env t.found2
              ∙ ap (redirect_exit x.name y.name) exit2,
        )
        (cross-Related c d r.alike)

  step-Related :
      (c d : Config m.Mem) → IsRelated c d → AgreeNext m IsRelated (step m bs c) (step m after d)
  unfolding step
  step-Related c d r = elim (Bool-cases (c.at == x.name)) [
    | inl here ↦ step-crosses c d r here
    | inr other ↦ elim (Option-cases (find_block c.at bs)) [
      | inr (w, found) ↦ step-stays c d w r found other
      | inl gone ↦
          let stays : d.at ≡ c.at = r.at_same ∙ rw other refl in
          let gone' : find_block d.at after ≡ none =
            ap (λ (k : ℕ). find_block k after) stays
            ∙ find_block-replace_bb-none c.at x.name y.name ps bs gone in
          rw (gone, gone', step) tt
    ]
  ]

  pub steps-Related :
      (n : ℕ) (c d : Config m.Mem)
      → IsRelated c d
      → AgreeNext m IsRelated (steps m n bs c) (steps m n after d)
  unfolding steps
  steps-Related zero c d r = r
  steps-Related (suc n) c d r =
      by_next (step m bs c) (step m after d) (step-Related c d r)
        (λ c' d' h. steps-Related n c' d' h)
    where
      by_next :
          (e e' : Next m.Mem)
          → AgreeNext m IsRelated e e'
          → ((c' d' : Config m.Mem)
              → IsRelated c' d'
              → AgreeNext m IsRelated (steps m n bs c') (steps m n after d'))
          → AgreeNext m IsRelated
              (elim e [
                | goes_on c' ↦ steps m n bs c'
                | ends_with k values mem ↦ ends_with k values mem
                | stuck ↦ stuck
              ])
              (elim e' [
                | goes_on c' ↦ steps m n after c'
                | ends_with k values mem ↦ ends_with k values mem
                | stuck ↦ stuck
              ])
      by_next (goes_on c') (goes_on d') h rest = rest c' d' h
      by_next (ends_with k vs mem) (ends_with l ws mem') h rest = h
      by_next stuck stuck h rest = tt
      by_next (goes_on c') (ends_with l ws mem') h rest = absurd (false≢true h)
      by_next (goes_on c') stuck h rest = absurd (false≢true h)
      by_next (ends_with k vs mem) (goes_on d') h rest = absurd (false≢true h)
      by_next (ends_with k vs mem) stuck h rest = absurd (false≢true h)
      by_next stuck (goes_on d') h rest = absurd (false≢true h)
      by_next stuck (ends_with l ws mem') h rest = absurd (false≢true h)
