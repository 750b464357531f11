-- ===== src/MergeBb/Merge/Preserved.antt =====
-- The loop of lib/MergeBB.cpp: the function takes the same steps before and after all merges.
use llvm_study.Base.{
  ℕ, ◌≡◌, sym, ap, ◌∙◌, Bool, true, false, List, [], ◌∷◌, some, ◌==◌, Bool-cases, Option-cases, inl,
  inr, arith,
}
use mathlib.Core.Path.{subst}
use llvm_study.Ir.{Instr}
use llvm_study.Ir.Exec.{Machine}
use llvm_study.Containers.{address_eq, has, insert}
use llvm_study.Containers.Laws.{has-insert}
use llvm_study.Cfg.{Block, Func, find_block}
use llvm_study.Cfg.Named.{IsNamed, find_block-name}
use llvm_study.MergeBb.Steps.{Config, steps}
use package.llvm_study.MergeBb.Merge.{
  preds_branch, duplicate_of, Merging, merge_duplicated_block, merge_blocks, names, merge_all,
}
use package.llvm_study.MergeBb.Merge.Retarget.{Listed}
use package.llvm_study.MergeBb.Merge.Chosen.{Branching, duplicate_of-Choice}
use package.llvm_study.MergeBb.Merge.Twins.{IsWellFormed}
use package.llvm_study.MergeBb.Merge.Twins.Exec.{IsSilent, IsSound}
use package.llvm_study.MergeBb.Merge.Twins.Crossing.{IsPhiFree}
use package.llvm_study.MergeBb.Merge.Same.Observed.{Observed}
use package.llvm_study.MergeBb.Merge.Kept.{Kept, Kept-refl, Kept-trans, merged-Kept}

-- No block that is on the delete list in the end has a phi.
abbrev pub MergesNoPhi : Merging → Merging → Type 0
MergesNoPhi g last =
    (b : ℕ) (w : Block)
    → find_block b g.blocks ≡ some w
    → has b last.deleted ≡ true
    → IsPhiFree w.insts

module _ (same_operation : Instr → Instr → Bool) (predecessors : List Block → ℕ → List ℕ)
    (sound : IsSound same_operation)
    (complete : (bs : List Block) (b : ℕ) → Listed b (predecessors bs b) bs)
    (branching : (bs : List Block) (b : ℕ) → IsNamed bs bs → Branching b (predecessors bs b) bs)
    (m : Machine) (silent : IsSilent m) where
  merge_duplicated_block-Kept :
      (entry bb1 : ℕ) (g : Merging)
      → IsWellFormed g.blocks
      → ((x : Block)
          → find_block bb1 g.blocks ≡ some x
          → has bb1 (merge_duplicated_block same_operation predecessors entry bb1 g).deleted ≡ true
          → IsPhiFree x.insts)
      → Kept m entry g (merge_duplicated_block same_operation predecessors entry bb1 g)
  unfolding merge_duplicated_block
  merge_duplicated_block-Kept entry bb1 g rules free =
      elim (Option-cases (find_block bb1 g.blocks)) [
        | inl gone ↦ rw (gone, merge_duplicated_block) (Kept-refl m entry g rules)
        | inr (x, found) ↦ elim (Bool-cases (bb1 == entry)) [
          | inl at_entry ↦ rw (found, at_entry, merge_duplicated_block) (Kept-refl m entry g rules)
          | inr apart ↦ elim (Bool-cases (preds_branch g.blocks (predecessors g.blocks bb1))) [
            | inr other ↦
                rw (found, apart, other, merge_duplicated_block) (Kept-refl m entry g rules)
            | inl branch ↦
                elim (Option-cases
                  (duplicate_of same_operation predecessors entry g.blocks g.deleted x)) [
                    | inl unique ↦
                        rw (found, apart, branch, unique, merge_duplicated_block)
                          (Kept-refl m entry g rules)
                    | inr (bb2, twin) ↦
                        let at_x : x.name ≡ bb1 = find_block-name bb1 g.blocks x found in
                        let choice =
                          duplicate_of-Choice same_operation predecessors entry g.blocks g.deleted x
                            bb2 (λ b. branching g.blocks b rules.named)
                            (ap (λ (b : ℕ). find_block b g.blocks) at_x ∙ found) twin in
                        let listed : has bb1 (insert bb1 g.deleted) ≡ true =
                          ground (arith, has-insert bb1 bb1 g.deleted) in
                        let deleted : has bb1
                              (merge_duplicated_block same_operation predecessors entry bb1
                                g).deleted
                            ≡ true =
                          rw (found, apart, branch, twin, merge_duplicated_block) listed in
                        rw (found, apart, branch, twin, merge_duplicated_block)
                          (merged-Kept same_operation predecessors sound complete branching m silent
                            entry bb1 bb2 g x rules found apart branch choice
                            (free x found deleted))
                  ]
          ]
        ]
      ]

  merge_duplicated_block-grows :
      (entry bb1 d : ℕ) (g : Merging)
      → has d g.deleted ≡ true
      → has d (merge_duplicated_block same_operation predecessors entry bb1 g).deleted ≡ true
  unfolding merge_duplicated_block
  merge_duplicated_block-grows entry bb1 d g h = elim (Option-cases (find_block bb1 g.blocks)) [
    | inl gone ↦ rw (gone, merge_duplicated_block) h
    | inr (x, found) ↦ elim (Bool-cases (bb1 == entry)) [
      | inl at_entry ↦ rw (found, at_entry, merge_duplicated_block) h
      | inr apart ↦ elim (Bool-cases (preds_branch g.blocks (predecessors g.blocks bb1))) [
        | inr other ↦ rw (found, apart, other, merge_duplicated_block) h
        | inl branch ↦
            elim (Option-cases
              (duplicate_of same_operation predecessors entry g.blocks g.deleted x)) [
                | inl unique ↦ rw (found, apart, branch, unique, merge_duplicated_block) h
                | inr (bb2, twin) ↦
                    rw (found, apart, branch, twin, merge_duplicated_block)
                      (ground (arith, has-insert d bb1 g.deleted, h))
              ]
      ]
    ]
  ]

  merge_blocks-grows :
      (entry d : ℕ) (bbs : List ℕ) (g : Merging)
      → has d g.deleted ≡ true
      → has d (merge_blocks same_operation predecessors entry bbs g).deleted ≡ true
  unfolding merge_blocks
  merge_blocks-grows entry d [] g h = h
  merge_blocks-grows entry d (bb ∷ bbs) g h =
      merge_blocks-grows entry d bbs (merge_duplicated_block same_operation predecessors entry bb g)
        (merge_duplicated_block-grows entry bb d g h)

  merge_blocks-Kept :
      (entry : ℕ) (bbs : List ℕ) (g : Merging)
      → IsWellFormed g.blocks
      → MergesNoPhi g (merge_blocks same_operation predecessors entry bbs g)
      → Kept m entry g (merge_blocks same_operation predecessors entry bbs g)
  unfolding merge_blocks
  merge_blocks-Kept entry [] g rules free = Kept-refl m entry g rules
  merge_blocks-Kept entry (bb ∷ bbs) g rules free =
      let next = merge_duplicated_block same_operation predecessors entry bb g in
      let kept =
        merge_duplicated_block-Kept entry bb g rules
          (λ x found deleted. free bb x found (merge_blocks-grows entry bb bbs next deleted)) in
      Kept-trans m entry g next (merge_blocks same_operation predecessors entry bbs next) kept (
        merge_blocks-Kept entry bbs next kept.rules (λ b w found deleted.
          let (v, found_v, same) = kept.back b w found in
          subst IsPhiFree (sym same) (free b v found_v deleted)))

  -- For a machine on which debug instructions do nothing, a well-formed function, an
  -- `isSameOperationAs` that accepts only instructions of one kind and type (phis apart), predecessor
  -- lists of just the blocks that branch to a block, and no phis in a block that is merged into
  -- another: from the entry block, after any number of blocks, the original and the function with all
  -- merges made are both under way with the same memory, or have both left the function with the same
  -- values and the same memory, or are both stuck.
  pub merge_all-Observed :
      (f : Func) (n : ℕ) (c : Config m.Mem)
      → IsWellFormed f.blocks
      → MergesNoPhi
          (record { blocks = f.blocks; deleted = []; changed = false; num_dedup = 0 })
          (merge_all same_operation predecessors f)
      → c.at ≡ f.entry
      → Observed m
          (steps m n f.blocks c)
          (steps m n (merge_all same_operation predecessors f).blocks c)
  unfolding merge_all
  merge_all-Observed f n c rules free start =
      let before : Merging = record {
        blocks = f.blocks;
        deleted = [];
        changed = false;
        num_dedup = 0;
      } in
      let kept = merge_blocks-Kept f.entry (names f.blocks) before rules free in
      kept.observed n c start
