-- ===== src/MergeBb/Merge/Unchanged.antt =====
-- What `run` of lib/MergeBB.cpp reports against what it does to the function.
use mathlib.Core.Bool.{false≢true}
use llvm_study.Base.{
  ℕ, ◌≡◌, ◌↔◌, refl, sym, ap, ◌∙◌, Bool, false, not, List, [], ◌∷◌, Option-cases, Bool-cases, inl,
  inr, ◌==◌, arith,
}
use llvm_study.Mba.Block.{preserve_all, preserved}
use llvm_study.Cfg.{Block, Func, find_block}
use llvm_study.Ir.{Instr}
use package.llvm_study.MergeBb.Merge.{
  Merging, preds_branch, duplicate_of, merge_duplicated_block, merge_blocks, merge_all, names, run,
  legacy_run_on_function, delete_blocks,
}

-- Where nothing was reported, nothing was done, and the statistics agree with the report.
record IsHonest (blocks : List Block) (m : Merging) : Type 0 where
  untouched : m.changed ≡ false → (m.blocks ≡ blocks) × (m.deleted ≡ [])
  counted : m.changed ≡ not (m.num_dedup == 0)

module _ (same_operation : Instr → Instr → Bool) (predecessors : List Block → ℕ → List ℕ) where
  merge_duplicated_block-IsHonest :
      (blocks : List Block) (entry bb1 : ℕ) (m : Merging)
      → IsHonest blocks m
      → IsHonest blocks (merge_duplicated_block same_operation predecessors entry bb1 m)
  unfolding merge_duplicated_block
  merge_duplicated_block-IsHonest blocks entry bb1 m h =
      elim (Option-cases (find_block bb1 m.blocks)) [
        | inl gone ↦ rw (gone, merge_duplicated_block) h
        | inr (b1, found) ↦ elim (Bool-cases (bb1 == entry)) [
          | inl at_entry ↦ rw (found, at_entry, merge_duplicated_block) h
          | inr ne_entry ↦ elim (Bool-cases (preds_branch m.blocks (predecessors m.blocks bb1))) [
            | inr other ↦ rw (found, ne_entry, other, merge_duplicated_block) h
            | inl branch ↦
                elim (Option-cases
                  (duplicate_of same_operation predecessors entry m.blocks m.deleted b1)) [
                    | inl unique ↦ rw (found, ne_entry, branch, unique, merge_duplicated_block) h
                    | inr (bb2, twin) ↦
                        rw (found, ne_entry, branch, twin, merge_duplicated_block)
                          (record {
                            untouched = λ e. absurd (false≢true (sym e));
                            counted = ground arith;
                          })
                  ]
          ]
        ]
      ]

  merge_blocks-IsHonest :
      (blocks : List Block) (entry : ℕ) (bbs : List ℕ) (m : Merging)
      → IsHonest blocks m
      → IsHonest blocks (merge_blocks same_operation predecessors entry bbs m)
  unfolding merge_blocks
  merge_blocks-IsHonest blocks entry [] m h = h
  merge_blocks-IsHonest blocks entry (bb ∷ bbs) m h =
      merge_blocks-IsHonest blocks entry bbs
        (merge_duplicated_block same_operation predecessors entry bb m)
        (merge_duplicated_block-IsHonest blocks entry bb m h)

  module _ (delete_dead_block : ℕ → List Block → List Block) (f : Func) where
    start : Merging
    start = record { blocks = f.blocks; deleted = []; changed = false; num_dedup = 0 }

    merge_all-IsHonest : IsHonest f.blocks (merge_all same_operation predecessors f)
    unfolding merge_all start
    merge_all-IsHonest =
        merge_blocks-IsHonest f.blocks f.entry (names f.blocks) start
          (record { untouched = λ e. (refl, refl); counted = refl })

    -- Where `run` reports every analysis as preserved, the blocks are the ones it was given, and
    -- the legacy pass leaves the same blocks.
    pub merge_bb-preserve_all :
        (run same_operation predecessors delete_dead_block f).1 ≡ preserve_all
        → ((run same_operation predecessors delete_dead_block f).0 ≡ f.blocks)
          × ((legacy_run_on_function same_operation predecessors delete_dead_block f).0 ≡ f.blocks)
    unfolding run legacy_run_on_function delete_blocks preserved
    merge_bb-preserve_all h =
        let m = merge_all same_operation predecessors f in
        let (same, none_deleted) = merge_all-IsHonest.untouched (ground arith) in
        let left : delete_blocks same_operation predecessors delete_dead_block m.deleted m.blocks
            ≡ f.blocks =
          ap (λ ds. delete_blocks same_operation predecessors delete_dead_block ds m.blocks)
            none_deleted
          ∙ same in
        (left, left)

    -- `run` reports every analysis as preserved exactly when the statistics count no merged block,
    -- and exactly when the legacy pass reports no change.
    pub merge_bb-preserve_all_iff :
        (((run same_operation predecessors delete_dead_block f).1 ≡ preserve_all)
          ↔ ((merge_all same_operation predecessors f).num_dedup ≡ 0))
        × (((run same_operation predecessors delete_dead_block f).1 ≡ preserve_all)
            ↔ ((legacy_run_on_function same_operation predecessors delete_dead_block f).1 ≡ false))
    unfolding run legacy_run_on_function preserved
    merge_bb-preserve_all_iff = (ground (arith, merge_all-IsHonest.counted), ground arith)
