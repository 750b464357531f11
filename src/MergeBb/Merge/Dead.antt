-- ===== src/MergeBb/Merge/Dead.antt =====
-- The blocks on the delete list are dead: nothing branches to them.
use llvm_study.Base.{
  ℕ, ◌+◌, ◌≡◌, ◌≢◌, refl, sym, ◌∙◌, inl, inr, Bool, true, false, List, [], ◌∷◌, Option, none, some,
  ◌==◌, ==_iff, arith, Bool-cases, Option-cases,
}
use mathlib.Core.Path.{subst}
use mathlib.Core.Bool.{false≢true}
use mathlib.Core.Option.{none-ne-some}
use llvm_study.Ir.{Instr}
use llvm_study.Containers.{address_eq, has, insert}
use llvm_study.Containers.Laws.{has-insert}
use llvm_study.Cfg.{Block, Func, find_block, unconditional_target}
use llvm_study.Cfg.Named.{find_block-name}
use package.llvm_study.MergeBb.Merge.{
  replace_bb, SuccPhi, no_phi, several_phis, one_phi, succ_phi, preds_branch, accepts,
  find_duplicate, duplicate_of, Merging, merge_duplicated_block, merge_blocks, names, merge_all,
}
use package.llvm_study.MergeBb.Merge.Retarget.{IsDead, Listed, IsDead-replace_bb, IsDead-erased}

module _ (same_operation : Instr → Instr → Bool) (predecessors : List Block → ℕ → List ℕ) where
  -- What is known of the block that another one is merged into.
  record IsTarget (entry : ℕ) (deleted : List ℕ) (b1 : Block) (d : ℕ) : Type 0 where
    not_deleted : has d deleted ≡ false
    not_itself : (d == b1.name) ≡ false

  accepts-IsTarget :
      (bs : List Block) (entry : ℕ) (deleted : List ℕ) (pn : SuccPhi) (b1 b2 : Block)
      → accepts same_operation predecessors bs entry deleted pn b1 b2 ≡ true
      → IsTarget entry deleted b1 b2.name
  unfolding accepts
  accepts-IsTarget bs entry deleted pn b1 b2 h = ground arith

  find_duplicate-IsTarget :
      (bs : List Block) (entry : ℕ) (deleted : List ℕ) (pn : SuccPhi) (b1 : Block) (ps : List ℕ)
      (d : ℕ)
      → find_duplicate same_operation predecessors bs entry deleted pn b1 ps ≡ some d
      → IsTarget entry deleted b1 d
  unfolding find_duplicate
  find_duplicate-IsTarget bs entry deleted pn b1 [] d h = ground arith
  find_duplicate-IsTarget bs entry deleted pn b1 (p ∷ ps) d h =
      elim (Option-cases (find_block p bs)) [
        | inl gone ↦
            find_duplicate-IsTarget bs entry deleted pn b1 ps d (rw (gone, find_duplicate) at h)
        | inr (b2, found) ↦
            elim (Bool-cases (accepts same_operation predecessors bs entry deleted pn b1 b2)) [
              | inl fits ↦
                  let e : some b2.name ≡ some d = rw (found, fits, find_duplicate) at h in
                  ground (arith, accepts-IsTarget bs entry deleted pn b1 b2 fits)
              | inr unfit ↦
                  find_duplicate-IsTarget bs entry deleted pn b1 ps d
                    (rw (found, unfit, find_duplicate) at h)
            ]
      ]

  duplicate_of-IsTarget :
      (entry : ℕ) (bs : List Block) (deleted : List ℕ) (b1 : Block) (d : ℕ)
      → duplicate_of same_operation predecessors entry bs deleted b1 ≡ some d
      → IsTarget entry deleted b1 d
  unfolding duplicate_of
  duplicate_of-IsTarget entry bs deleted b1 d h =
      elim (Option-cases (unconditional_target b1.term.kind b1.term.operands)) [
        | inl gone ↦ absurd (none-ne-some d (rw (gone, duplicate_of) at h))
        | inr (succ, target) ↦ elim (Option-cases (find_block succ bs)) [
          | inl gone ↦ absurd (none-ne-some d (rw (target, gone, duplicate_of) at h))
          | inr (s, found) ↦ by_phi succ (succ_phi s.insts) (rw (target, found, duplicate_of) at h)
        ]
      ]
    where
      by_phi :
          (succ : ℕ) (pn : SuccPhi)
          → elim pn as (λ _. Option ℕ) [
            | several_phis ↦ none
            | no_phi ↦
                find_duplicate same_operation predecessors bs entry deleted no_phi b1
                  (predecessors bs succ)
            | one_phi q ↦
                find_duplicate same_operation predecessors bs entry deleted
                  (one_phi q)
                  b1
                  (predecessors bs succ)
          ]
            ≡ some d
          → IsTarget entry deleted b1 d
      by_phi succ several_phis k = absurd (none-ne-some d k)
      by_phi succ no_phi k =
          find_duplicate-IsTarget bs entry deleted no_phi b1 (predecessors bs succ) d k
      by_phi succ (one_phi q) k =
          find_duplicate-IsTarget bs entry deleted (one_phi q) b1 (predecessors bs succ) d k

  -- Nothing branches to a block on the delete list, and the entry block is not on it.
  record IsSafe (entry : ℕ) (m : Merging) : Type 0 where
    dead : (d : ℕ) → has d m.deleted ≡ true → IsDead d m.blocks
    not_entry : has entry m.deleted ≡ false

  module _ (complete : (bs : List Block) (b : ℕ) → Listed b (predecessors bs b) bs) where
    merged-IsSafe :
        (entry bb1 bb2 : ℕ) (m : Merging)
        → IsSafe entry m
        → (bb1 == entry) ≡ false
        → has bb2 m.deleted ≡ false
        → (bb2 == bb1) ≡ false
        → IsSafe entry (record {
          blocks = replace_bb (predecessors m.blocks bb1) bb1 bb2 m.blocks;
          deleted = insert bb1 m.deleted;
          changed = true;
          num_dedup = m.num_dedup + 1;
        })
    merged-IsSafe entry bb1 bb2 m safe ne_entry live ne = record {
      dead = λ d k. elim (Bool-cases (has d m.deleted)) [
        | inl old ↦
            IsDead-replace_bb (predecessors m.blocks bb1) bb1 bb2 d m.blocks
              (ground (arith, ==_iff bb2 d)) (safe.dead d old)
        | inr new ↦
            let e : bb1 ≡ d = ground (arith, has-insert d bb1 m.deleted) in
            subst (λ t. IsDead t (replace_bb (predecessors m.blocks bb1) bb1 bb2 m.blocks)) e
              (IsDead-erased (predecessors m.blocks bb1) bb1 bb2 m.blocks ne
                (complete m.blocks bb1))
      ];
      not_entry = ground (arith, has-insert entry bb1 m.deleted, safe.not_entry);
    }

    merge_duplicated_block-IsSafe :
        (entry bb1 : ℕ) (m : Merging)
        → IsSafe entry m
        → IsSafe entry (merge_duplicated_block same_operation predecessors entry bb1 m)
    unfolding merge_duplicated_block
    merge_duplicated_block-IsSafe entry bb1 m safe = elim (Option-cases (find_block bb1 m.blocks)) [
      | inl gone ↦ rw (gone, merge_duplicated_block) safe
      | inr (b1, found) ↦ elim (Bool-cases (bb1 == entry)) [
        | inl at_entry ↦ rw (found, at_entry, merge_duplicated_block) safe
        | inr ne_entry ↦ elim (Bool-cases (preds_branch m.blocks (predecessors m.blocks bb1))) [
          | inr other ↦ rw (found, ne_entry, other, merge_duplicated_block) safe
          | inl branch ↦
              elim (Option-cases
                (duplicate_of same_operation predecessors entry m.blocks m.deleted b1)) [
                  | inl unique ↦ rw (found, ne_entry, branch, unique, merge_duplicated_block) safe
                  | inr (bb2, twin) ↦
                      let target = duplicate_of-IsTarget entry m.blocks m.deleted b1 bb2 twin in
                      rw (found, ne_entry, branch, twin, merge_duplicated_block)
                        (merged-IsSafe entry bb1 bb2 m safe ne_entry target.not_deleted
                          (rw (find_block-name bb1 m.blocks b1 found) at (target.not_itself)))
                ]
        ]
      ]
    ]

    merge_blocks-IsSafe :
        (entry : ℕ) (bbs : List ℕ) (m : Merging)
        → IsSafe entry m
        → IsSafe entry (merge_blocks same_operation predecessors entry bbs m)
    unfolding merge_blocks
    merge_blocks-IsSafe entry [] m safe = safe
    merge_blocks-IsSafe entry (bb ∷ bbs) m safe =
        merge_blocks-IsSafe entry bbs
          (merge_duplicated_block same_operation predecessors entry bb m)
          (merge_duplicated_block-IsSafe entry bb m safe)

    -- Where `predecessors` lists every block that branches to a block: when all blocks have been
    -- visited, no terminator of the function branches to a block on the delete list, and the entry
    -- block is not on it.
    pub merge_all-IsDead :
        (f : Func) (d : ℕ)
        → has d (merge_all same_operation predecessors f).deleted ≡ true
        → IsDead d (merge_all same_operation predecessors f).blocks × (d ≢ f.entry)
    unfolding merge_all has
    merge_all-IsDead f d h =
        let start : Merging = record {
          blocks = f.blocks;
          deleted = [];
          changed = false;
          num_dedup = 0;
        } in
        let safe =
          merge_blocks-IsSafe f.entry (names f.blocks) start
            (record { dead = λ c k. absurd (false≢true k); not_entry = refl }) in
        (safe.dead d h, λ e. false≢true (sym safe.not_entry ∙ rw e at h))
