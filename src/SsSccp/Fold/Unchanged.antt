-- ===== src/SsSccp/Fold/Unchanged.antt =====
-- Steps 1 to 10 of `DoSCCP` of SsSCCP/SsSCCP.cpp: what they report against what they do.
use llvm_study.Base.{
  ℕ, ◌+◌, ◌≡◌, refl, sym, ap, ◌∙◌, Bool, true, false, ◌||◌, List, [], ◌∷◌, ◌++◌, Option, none, some,
  if◌then◌else◌, Option-cases, inl, inr, arith,
}
use mathlib.Core.Bool.{false≢true}
use llvm_study.Ir.{Instr}
use llvm_study.Cfg.{Block, find_block}
use llvm_study.MergeBb.Merge.{names}
use package.llvm_study.SsSccp.{
  Outcome, finished, cast_failed, undefined, endless, out_of_fuel, and_then,
}
use package.llvm_study.SsSccp.Yields.{Yields}
use package.llvm_study.SsSccp.Fold.{
  Predicate, Choice, keep, uninitialised, fold, Folding, Placing, fold_branch, fold_block,
  fold_blocks, emplace_all, any_pair, fold_branches,
}

-- The folded state, if there is one, still has these blocks where no block is to be copied.
abbrev IsKept : List Block → Option Folding → Type 0
IsKept before none = Unit
IsKept before (some f) = any_pair f.to_emplace ≡ false → f.blocks ≡ before

any_pair-last : (ps : List (ℕ × ℕ)) (p : ℕ × ℕ) → any_pair (ps ++ p ∷ []) ≡ true
any_pair-last [] p = refl
any_pair-last (q ∷ ps) p = refl

to_emplace-nil : (ps : List (ℕ × ℕ)) → any_pair ps ≡ false → ps ≡ []
to_emplace-nil [] h = refl
to_emplace-nil (p ∷ ps) h = absurd (false≢true (sym h))

-- Where nothing is reported, nothing was before, and the blocks are these.
abbrev pub IsReported : List Block → Bool → List Block × Bool → Type 0
IsReported before changed r = r.1 ≡ false → (changed ≡ false) × (r.0 ≡ before)

module _ (predicate_of : Instr → Option Predicate) (is_sgt : ℕ → ℕ → ℕ → Bool)
    (predecessors : List Block → ℕ → List ℕ) (delete_dead_block : ℕ → List Block → List Block) where
  fold_branch-IsKept :
      (before : List Block) (b c target dead : ℕ) (f : Folding)
      → IsKept before
          (fold_branch predicate_of is_sgt predecessors delete_dead_block b c target dead f)
  unfolding fold_branch
  fold_branch-IsKept before b c target dead f = from_test _ _
    where
      from_test :
          (undef : Bool) (bs : List Block)
          → IsKept before (
              if undef
              then none
              else some (record {
                blocks = bs;
                to_emplace = f.to_emplace ++ (b, target) ∷ [];
                next = f.next + 1;
              }))
      from_test true bs = tt
      from_test false bs = λ h. absurd (false≢true (sym h ∙ any_pair-last f.to_emplace (b, target)))

  fold_block-IsKept :
      (before : List Block) (b : ℕ) (f : Folding)
      → IsKept before (some f)
      → IsKept before (fold_block predicate_of is_sgt predecessors delete_dead_block b f)
  unfolding fold_block
  fold_block-IsKept before b f h = elim (Option-cases (find_block b f.blocks)) [
    | inl gone ↦ rw (gone, fold_block) h
    | inr (x, found) ↦ rw (found, fold_block) (by_choice _)
  ]
    where
      by_choice :
          (o : Choice)
          → IsKept before (elim o [
            | keep ↦ some f
            | uninitialised ↦ none
            | fold c target dead ↦
                fold_branch predicate_of is_sgt predecessors delete_dead_block b c target dead f
          ])
      by_choice keep = h
      by_choice uninitialised = tt
      by_choice (fold c target dead) = fold_branch-IsKept before b c target dead f

  fold_blocks-IsKept :
      (before : List Block) (bs : List ℕ) (f : Folding)
      → IsKept before (some f)
      → IsKept before (fold_blocks predicate_of is_sgt predecessors delete_dead_block bs f)
  unfolding fold_blocks
  fold_blocks-IsKept before [] f h = h
  fold_blocks-IsKept before (b ∷ bs) f h =
      elim (fold_block predicate_of is_sgt predecessors delete_dead_block b f)
          as (λ o.
            IsKept before o
            → IsKept before (elim o [
              | none ↦ none
              | some f' ↦ fold_blocks predicate_of is_sgt predecessors delete_dead_block bs f'
            ])) [ none ↦ λ g. tt | some f' ↦ λ g. fold_blocks-IsKept before bs f' g ]
        (fold_block-IsKept before b f h)

  abbrev emplaced : Folding → Outcome Placing
  emplaced f =
      emplace_all predicate_of is_sgt predecessors delete_dead_block f.to_emplace
        (record { blocks = f.blocks; vmap = []; next = f.next })

  abbrev blocks_or : List Block → Outcome Placing → List Block
  blocks_or bs (finished p) = p.blocks
  blocks_or bs _ = bs

  -- Where no block is to be copied, none is.
  emplaced-nil :
      (f : Folding) (p : Placing)
      → emplaced f ≡ finished p
      → any_pair f.to_emplace ≡ false
      → p.blocks ≡ f.blocks
  unfolding emplace_all
  emplaced-nil f p e h =
      let start : Placing = record { blocks = f.blocks; vmap = []; next = f.next } in
      ap (blocks_or f.blocks) (
        sym e
        ∙ ap (λ ps. emplace_all predicate_of is_sgt predecessors delete_dead_block ps start)
            (to_emplace-nil f.to_emplace h))

  -- From the blocks `before`.
  pub fold_branches-Yields :
      (before : List Block) (changed : Bool) (n : ℕ)
      → Yields
          (IsReported before changed)
          (fold_branches predicate_of is_sgt predecessors delete_dead_block before changed n)
  unfolding fold_branches
  fold_branches-Yields before changed n =
      let start : Folding = record { blocks = before; to_emplace = []; next = n } in
      elim (fold_blocks predicate_of is_sgt predecessors delete_dead_block (names before) start)
          as (λ o.
            IsKept before o
            → Yields (IsReported before changed) (elim o [
              | none ↦ undefined
              | some f ↦
                  and_then (emplaced f) (λ p. finished (p.blocks, changed || any_pair f.to_emplace))
            ])) [ none ↦ λ g. tt | some f ↦ λ g. by_outcome f g (emplaced f) refl ]
        (fold_blocks-IsKept before (names before) start (λ h. refl))
    where
      by_outcome :
          (f : Folding)
          → IsKept before (some f)
          → (o : Outcome Placing) → emplaced f ≡ o
          → Yields
              (IsReported before changed)
              (and_then o (λ p. finished (p.blocks, changed || any_pair f.to_emplace)))
      by_outcome f g (finished p) e = λ h.
          let idle : any_pair f.to_emplace ≡ false = ground arith in
          (ground arith, emplaced-nil f p e idle ∙ g idle)
      by_outcome f g cast_failed e = tt
      by_outcome f g undefined e = tt
      by_outcome f g endless e = tt
      by_outcome f g out_of_fuel e = tt
