-- ===== src/SsSccp/Whole/Unchanged.antt =====
-- What `DoSCCP` of SsSCCP/SsSCCP.cpp reports against what it does to the function.
use llvm_study.Base.{
  ℕ, suc, ◌≡◌, refl, sym, ap, ap₂, ◌∙◌, Bool, false, List, [], ◌∷◌, ◌++◌, Option, none, some, ◌==◌,
  ==_iff, Bool-cases, Option-cases, inl, inr, arith,
}
use mathlib.Core.Option.{some-injective}
use llvm_study.Ir.{Value, Instr}
use llvm_study.Cfg.{Block, Func}
use llvm_study.Cfg.Named.{IsNamed}
use llvm_study.Riv.{DomTrees}
use llvm_study.Mba.Block.{PreservedAnalyses, preserve_all, preserved}
use package.llvm_study.SsSccp.{
  Outcome, finished, cast_failed, undefined, endless, out_of_fuel, Blocks,
}
use package.llvm_study.SsSccp.Yields.{IsHonest, Yields, Yields-map, and_then-Yields}
use package.llvm_study.SsSccp.Replace.Unchanged.{propagate-Yields}
use package.llvm_study.SsSccp.Walk.{depth}
use package.llvm_study.SsSccp.Fold.{Predicate}
use package.llvm_study.SsSccp.Fold.Unchanged.{IsReported, fold_branches-Yields}
use package.llvm_study.SsSccp.Whole.{
  blocks_of, all_insts, split_term, set_insts, reported, is_inst_of, fold_propagated, do_sccp, run,
  legacy_run_on_function,
}

abbrev state_of {ℓ} : {S : Type ℓ} → S → Outcome S → S
state_of d (finished s) = s
state_of d _ = d

preserved-false : (changed : Bool) → preserved changed ≡ preserve_all → changed ≡ false
unfolding preserved
preserved-false changed h = ground arith

split_term-last :
    (t : Instr) (insts : List Instr) → split_term t (insts ++ t ∷ []) ≡ some (insts, t)
unfolding split_term
split_term-last t [] = rw ((==_iff t.id t.id).1 refl) refl
split_term-last t (x ∷ []) = rw (split_term, split_term-last t []) refl
split_term-last t (x ∷ y ∷ ys) = rw (split_term, split_term-last t (y ∷ ys)) refl

-- The blocks with their own instructions.
set_insts-own : (bs xs : List Block) → IsNamed bs xs → set_insts (blocks_of bs) xs ≡ some xs
unfolding set_insts blocks_of
set_insts-own bs [] h = refl
set_insts-own bs (x ∷ xs) h =
    let own : blocks_of bs x.name ≡ x.insts ++ x.term ∷ [] = ap all_insts h.0 in
    rw (set_insts, own, split_term-last x.term x.insts, set_insts-own bs xs h.1) refl

module _ (foo : ℕ) (users : ℕ → List Instr) (constant_of : ℕ → ℕ → Value)
    (predicate_of : Instr → Option Predicate) (is_sgt : ℕ → ℕ → ℕ → Bool)
    (predecessors : List Block → ℕ → List ℕ) (delete_dead_block : ℕ → List Block → List Block) where
  fold_propagated-Yields :
      (f : Func) (n : ℕ) (s : Blocks × Bool)
      → IsNamed f.blocks f.blocks
      → IsHonest (blocks_of f.blocks) s
      → Yields (IsHonest f.blocks) (
          fold_propagated foo users constant_of predicate_of is_sgt predecessors delete_dead_block f
            n s)
  unfolding fold_propagated
  fold_propagated-Yields f n (blocks, changed) named h =
      elim (Option-cases (set_insts blocks f.blocks)) [
        | inl e ↦ rw (fold_propagated, e) tt
        | inr (bs, e) ↦
            rw (fold_propagated, e)
              (Yields-map (IsReported bs changed) (IsHonest f.blocks) _
                (fold_branches-Yields predicate_of is_sgt predecessors delete_dead_block bs changed
                  n)
                (λ r g e'.
                  let (idle, same) = g e' in
                  same
                  ∙ some-injective bs f.blocks (
                      sym e
                      ∙ ap (λ (b : Blocks). set_insts b f.blocks) (h idle)
                      ∙ set_insts-own f.blocks f.blocks named)))
      ]

  do_sccp-Yields :
      (tree : Option DomTrees) (name : ℕ) (f : Func) (n : ℕ)
      → IsNamed f.blocks f.blocks
      → Yields (IsHonest f.blocks) (
          do_sccp foo users constant_of predicate_of is_sgt predecessors delete_dead_block tree name
            f n)
  unfolding do_sccp
  do_sccp-Yields none name f n named = λ e. refl
  do_sccp-Yields (some below) name f n named = elim (Bool-cases (name == foo)) [
    | inr e ↦ rw e (λ e'. refl)
    | inl e ↦ rw e (
        and_then-Yields (IsHonest (blocks_of f.blocks)) (IsHonest f.blocks) _
          (fold_propagated foo users constant_of predicate_of is_sgt predecessors delete_dead_block
            f n)
          (propagate-Yields (is_inst_of f.blocks) constant_of users (suc (depth below)) f.entry
            below (blocks_of f.blocks))
          (λ s h. fold_propagated-Yields f n s named h))
  ]

  -- Where every block is the one found under its name: if `run` reports every analysis as preserved,
  -- the blocks that it leaves are the ones it was given, and the legacy pass leaves them too and
  -- reports no change.
  pub run-preserve_all :
      (below : DomTrees) (name : ℕ) (f : Func) (n : ℕ) (bs : List Block)
      → IsNamed f.blocks f.blocks
      → run foo users constant_of predicate_of is_sgt predecessors delete_dead_block below name f n
        ≡ finished (bs, preserve_all)
      → (bs ≡ f.blocks)
        × (legacy_run_on_function foo users constant_of predicate_of is_sgt predecessors
              delete_dead_block below name f n
            ≡ finished (f.blocks, false))
  unfolding run legacy_run_on_function
  run-preserve_all below name f n bs named e =
      of_outcome _ (do_sccp-Yields (some below) name f n named) e
    where
      of_outcome :
          (o : Outcome (List Block × Bool))
          → Yields (IsHonest f.blocks) o
          → reported o ≡ finished (bs, preserve_all)
          → (bs ≡ f.blocks) × (o ≡ finished (f.blocks, false))
      of_outcome (finished (left, changed)) h e =
          let same : left ≡ bs =
            ap (λ (o : Outcome (List Block × PreservedAnalyses)). (state_of (bs, preserve_all) o).0)
              e in
          let idle = preserved-false changed (
            ap (λ (o : Outcome (List Block × PreservedAnalyses)). (state_of (bs, preserve_all) o).1)
              e) in
          let kept = h idle in (sym same ∙ kept, ap₂ (λ l c. finished (l, c)) kept idle)
      of_outcome cast_failed h e = ground arith
      of_outcome undefined h e = ground arith
      of_outcome endless h e = ground arith
      of_outcome out_of_fuel h e = ground arith
