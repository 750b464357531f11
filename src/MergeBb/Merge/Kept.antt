-- ===== src/MergeBb/Merge/Kept.antt =====
-- One merge of lib/MergeBB.cpp, of a block into its twin: the function takes the same steps after it.
use llvm_study.Base.{
  ℕ, ◌+◌, ◌≡◌, refl, sym, ap, ◌∙◌, Bool, true, false, List, [], ◌∷◌, some, ◌==◌, ==_iff,
  Option-cases, inl, inr, arith,
}
use mathlib.Core.Option.{none-ne-some, some-injective}
use mathlib.Core.Path.{subst}
use llvm_study.Ir.{Instr}
use llvm_study.Ir.Exec.{Machine}
use llvm_study.Containers.{address_eq, has, insert}
use llvm_study.Containers.Laws.{has-insert}
use llvm_study.Cfg.{Block, find_block, branches_to}
use llvm_study.Cfg.Named.{IsNamed, All-find_block, find_block-name}
use llvm_study.Duplicate.Whole.{phis_of}
use llvm_study.MergeBb.Steps.{Config, steps}
use llvm_study.MergeBb.Steps.Alike.{PhisAgree}
use package.llvm_study.MergeBb.Merge.{retarget_block, replace_bb, preds_branch, Merging}
use package.llvm_study.MergeBb.Merge.Retarget.{Listed}
use package.llvm_study.MergeBb.Merge.Redirect.{find_block-replace_bb, find_block-replace_bb-none}
use package.llvm_study.MergeBb.Merge.Rules.{replace_bb-IsWellFormed}
use package.llvm_study.MergeBb.Merge.Chosen.{Branching, Choice}
use package.llvm_study.MergeBb.Merge.Same.Steps.{IsRelated, steps-Related}
use package.llvm_study.MergeBb.Merge.Twins.{IsWellFormed}
use package.llvm_study.MergeBb.Merge.Twins.Exec.{IsSilent, IsSound}
use package.llvm_study.MergeBb.Merge.Twins.Crossing.{IsPhiFree}
use package.llvm_study.MergeBb.Merge.Same.Observed.{
  Observed, Observed-refl, Observed-trans, AgreeNext-map,
}

-- What a part of the loop keeps: the function's steps from its entry block, the rules of the IR, the
-- instructions of every block, and the blocks on the delete list.
pub record Kept (m : Machine) (entry : ℕ) (before after : Merging) : Type 0 where
  pub observed :
      (n : ℕ) (c : Config m.Mem)
      → c.at ≡ entry
      → Observed m (steps m n before.blocks c) (steps m n after.blocks c)
  pub rules : IsWellFormed after.blocks
  pub back :
      (b : ℕ) (w : Block)
      → find_block b after.blocks ≡ some w
      → (v : Block) × (find_block b before.blocks ≡ some v) × (w.insts ≡ v.insts)
  grows : (d : ℕ) → has d before.deleted ≡ true → has d after.deleted ≡ true

pub Kept-refl : (m : Machine) (entry : ℕ) (g : Merging) → IsWellFormed g.blocks → Kept m entry g g
Kept-refl m entry g rules = record {
  observed = λ n c start. Observed-refl m (steps m n g.blocks c);
  rules = rules;
  back = λ b w found. (w, found, refl);
  grows = λ d h. h;
}

pub Kept-trans :
    (m : Machine) (entry : ℕ) (f g h : Merging)
    → Kept m entry f g
    → Kept m entry g h
    → Kept m entry f h
Kept-trans m entry f g h k l = record {
  observed = λ n c start.
      Observed-trans m (steps m n f.blocks c) (steps m n g.blocks c) (steps m n h.blocks c)
        (k.observed n c start) (l.observed n c start);
  rules = l.rules;
  back = λ b w found.
      let (v, found_v, same) = l.back b w found in
      let (u, found_u, same') = k.back b v found_v in (u, found_u, same ∙ same');
  grows = λ d e. l.grows d (k.grows d e);
}

module _ (same_operation : Instr → Instr → Bool) (predecessors : List Block → ℕ → List ℕ)
    (sound : IsSound same_operation)
    (complete : (bs : List Block) (b : ℕ) → Listed b (predecessors bs b) bs)
    (branching : (bs : List Block) (b : ℕ) → IsNamed bs bs → Branching b (predecessors bs b) bs)
    (m : Machine) (silent : IsSilent m) where
  -- The merge of the block `bb1`.
  pub merged-Kept :
      (entry bb1 bb2 : ℕ) (g : Merging) (x : Block)
      → IsWellFormed g.blocks
      → find_block bb1 g.blocks ≡ some x
      → (bb1 == entry) ≡ false
      → preds_branch g.blocks (predecessors g.blocks bb1) ≡ true
      → Choice same_operation predecessors g.blocks x bb2
      → IsPhiFree x.insts
      → Kept m entry g (record {
        blocks = replace_bb (predecessors g.blocks bb1) bb1 bb2 g.blocks;
        deleted = insert bb1 g.deleted;
        changed = true;
        num_dedup = g.num_dedup + 1;
      })
  merged-Kept entry bb1 bb2 g x rules found apart branch choice free =
      let at_x : x.name ≡ bb1 = find_block-name bb1 g.blocks x found in
      let ps = predecessors g.blocks bb1 in
      subst
        (λ (e : ℕ). Kept m entry g (record {
          blocks = replace_bb ps e bb2 g.blocks;
          deleted = insert e g.deleted;
          changed = true;
          num_dedup = g.num_dedup + 1;
        }))
        at_x
        (subst
          (λ (r : ℕ). Kept m entry g (record {
            blocks = replace_bb ps x.name r g.blocks;
            deleted = insert x.name g.deleted;
            changed = true;
            num_dedup = g.num_dedup + 1;
          }))
          choice.named
          (record {
            observed = λ n c start.
                AgreeNext-map m _ (λ c d. c.state.mem ≡ d.state.mem) (steps m n g.blocks c) _
                  (λ c' d' r. r.alike.same_mem)
                  (steps-Related same_operation sound g.blocks rules choice.succ x choice.y
                    choice.twins free m silent ps listed branch choice.next choice.found_next
                    choice.allowed n c c (related c start));
            rules = replace_bb-IsWellFormed ps x.name choice.y.name g.blocks rules;
            back = λ b w there. elim (Option-cases (find_block b g.blocks)) [
              | inl gone ↦ absurd (
                  none-ne-some w (
                    sym (find_block-replace_bb-none b x.name choice.y.name ps g.blocks gone)
                    ∙ there))
              | inr (v, here) ↦
                  let left =
                    find_block-replace_bb b x.name choice.y.name ps g.blocks v choice.twins.differ
                      here (back_listed b v here) in
                  (
                    v,
                    here,
                    ap (λ (k : Block). k.insts)
                        (some-injective w (retarget_block x.name choice.y.name v)
                          (sym there ∙ left)),
                  )
            ];
            grows = λ d h. ground (arith, has-insert d x.name g.deleted, h);
          }))
    where
      listed : Listed x.name (predecessors g.blocks bb1) g.blocks
      listed =
          subst (λ (e : ℕ). Listed e (predecessors g.blocks bb1) g.blocks)
            (sym (find_block-name bb1 g.blocks x found)) (complete g.blocks bb1)

      back_listed :
          (b : ℕ) (v : Block)
          → find_block b g.blocks ≡ some v
          → branches_to v x.name ≡ true
          → has b (predecessors g.blocks bb1) ≡ true
      back_listed b v here r =
          ap (λ (c : ℕ). has c (predecessors g.blocks bb1))
            (sym (find_block-name b g.blocks v here))
          ∙ All-find_block
              (λ (w : Block).
                branches_to w x.name ≡ true → has w.name (predecessors g.blocks bb1) ≡ true)
              b g.blocks v here listed r

      related :
          (c : Config m.Mem)
          → c.at ≡ entry
          → IsRelated same_operation sound g.blocks rules choice.succ x choice.y choice.twins free m
              silent
              (predecessors g.blocks bb1)
              listed
              branch
              choice.next
              choice.found_next
              choice.allowed
              c
              c
      related c start = record {
        at_same =
            let other : (c.at == x.name) ≡ false = ground (
              arith,
              start,
              apart,
              find_block-name bb1 g.blocks x found,
              ==_iff bb1 entry,
              ==_iff c.at x.name,
            ) in
            rw other refl;
        alike = record { same_mem = refl; same_env = λ i h. refl };
        phis = λ w there. same_phis (phis_of w.insts);
      }
        where
          same_phis : (ps : List Instr) → PhisAgree m c.from c.from c.state c.state ps
          same_phis [] = tt
          same_phis (p ∷ ps) = (refl, same_phis ps)
