-- ===== src/Tests/Stepping.antt =====
-- lib/MergeBB.cpp on a concrete function, and the steps that it takes.
use llvm_study.Base.{
  ℕ, ◌+◌, ◌≡◌, refl, sym, ap, ◌∙◌, Bool, true, false, ◌&&◌, List, [], ◌∷◌, some, ◌==◌, ==_iff, All,
  arith, Bool-cases, inl, inr,
}
use mathlib.Core.Bool.{false≢true}
use mathlib.Core.Option.{some-injective}
use llvm_study.Ir.{
  const, local, block, Ty, int, void, Kind, Instr, phi, dbg, other, other_terminator,
}
use llvm_study.Ir.Exec.{Machine, exec, result}
use llvm_study.Containers.{address_eq, has, insert}
use llvm_study.Cfg.{Block, Func, incoming_value, find_block, branches_to, value_eq}
use llvm_study.Cfg.Uses.{count_operands, uses_in, num_uses}
use llvm_study.Duplicate.Whole.{after_phis}
use llvm_study.Cfg.Named.{IsNamed, All-find_block, find_block-name}
use llvm_study.MergeBb.Steps.{Config, ends_with, steps}
use llvm_study.MergeBb.Merge.{Merging, merge_all}
use llvm_study.MergeBb.{can_merge_instructions}
use llvm_study.MergeBb.Merge.Chosen.{Branching}
use llvm_study.MergeBb.Merge.Same.Observed.{Observed}
use llvm_study.MergeBb.Merge.Preserved.{MergesNoPhi, merge_all-Observed}
use llvm_study.MergeBb.Merge.Twins.{IsWellFormed}
use llvm_study.MergeBb.Merge.Twins.Exec.{IsSilent, IsSound}
use llvm_study.MergeBb.Merge.Twins.Crossing.{IsPhiFree}
use package.llvm_study.Tests.Merging.{predecessors, predecessors-Listed, jump}

-- The instructions `other 1` of the type i32 are the same operation.
abbrev is_get : Instr → Bool
is_get x = is_first x.kind && is_i32 x.ty
  where
    is_first : Kind → Bool
    is_first (other k) = k == 1
    is_first _ = false

    is_i32 : Ty → Bool
    is_i32 (int w) = w == 32
    is_i32 _ = false

abbrev both_get : Instr → Instr → Bool
both_get x y = is_get x && is_get y

is_get-kind : (x : Instr) → is_get x ≡ true → (x.kind ≡ other 1) × (x.ty ≡ int 32)
is_get-kind x h = (by_kind x.kind (ground arith), by_type x.ty (ground arith))
  where
    by_kind :
        (k : Kind) → elim k as (λ _. Bool) [ other j ↦ j == 1 | _ ↦ false ] ≡ true → k ≡ other 1
    by_kind (other j) g = ap (λ (i : ℕ). other i) ((==_iff j 1).0 g)
    by_kind _ g = absurd (false≢true g)

    by_type :
        (ty : Ty) → elim ty as (λ _. Bool) [ int w ↦ w == 32 | _ ↦ false ] ≡ true → ty ≡ int 32
    by_type (int w) g = ap (λ (i : ℕ). int i) ((==_iff w 32).0 g)
    by_type _ g = absurd (false≢true g)

both_get-IsSound : IsSound both_get
both_get-IsSound x y h no_phi =
    let first = is_get-kind x (ground arith) in
    let second = is_get-kind y (ground arith) in (first.0 ∙ sym second.0, first.1 ∙ sym second.1)

predecessors-Branching :
    (bs : List Block) (b : ℕ) → IsNamed bs bs → Branching b (predecessors bs b) bs
predecessors-Branching bs b named = go bs named
  where
    go :
        (xs : List Block)
        → IsNamed bs xs
        → All
            (λ (p : ℕ). (w : Block) → find_block p bs ≡ some w → branches_to w b ≡ true)
            (predecessors xs b)
    go [] h = tt
    go (x ∷ xs) h = elim (Bool-cases (branches_to x b)) [
      | inl e ↦ rw e (
        λ w found.
            ap (λ (v : Block). branches_to v b) (sym (some-injective x w (sym h.0 ∙ found))) ∙ e,
        go xs h.1,
      )
      | inr e ↦ rw e (go xs h.1)
    ]

-- An instruction that is no debug instruction gives the memory's number, and counts it up.
abbrev counts : Kind → ℕ → ℕ
counts dbg n = n
counts _ n = n + 1

abbrev tallying : Machine
tallying = record { Mem = ℕ; symbol = λ v. 0; effect = λ kind ty vals mem. (mem, counts kind mem) }

tallying-IsSilent : IsSilent tallying
tallying-IsSilent ty vals mem = refl

abbrev get : ℕ → Instr
get id = record { id = id; kind = other 1; ty = int 32; operands = const 32 5 ∷ [] }

-- Both sides of a branch get a number, one of them after a debug instruction; a phi takes it from
-- either, and the function returns it.
abbrev joining : Func
joining = record {
  entry = 1;
  blocks =
      record { name = 1; insts = []; term = jump 10 (local 0 ∷ block 3 ∷ block 2 ∷ []) }
      ∷ record { name = 2; insts = get 11 ∷ []; term = jump 12 (block 4 ∷ []) }
      ∷ record {
        name = 3;
        insts = record { id = 13; kind = dbg; ty = void; operands = [] } ∷ get 14 ∷ [];
        term = jump 15 (block 4 ∷ []);
      }
      ∷ record {
        name = 4;
        insts =
            record {
              id = 16;
              kind = phi (2 ∷ 3 ∷ []);
              ty = int 32;
              operands = local 11 ∷ local 14 ∷ [];
            }
            ∷ [];
        term = record { id = 17; kind = other_terminator 0; ty = void; operands = local 16 ∷ [] };
      }
      ∷ [];
}

joining-IsWellFormed : IsWellFormed joining.blocks
unfolding find_block num_uses after_phis count_operands uses_in value_eq
joining-IsWellFormed = record {
  named = (refl, (refl, (refl, (refl, tt))));
  distinct = (tt, ((refl, tt), ((refl, (refl, tt)), ((refl, tt), tt))));
  debug = (
    tt,
    (
      (λ h. absurd (false≢true h), tt),
      (
        ((λ h. (refl, λ i. refl)), (λ h. absurd (false≢true h), tt)),
        ((λ h. absurd (false≢true h), tt), tt),
      ),
    ),
  );
  void_unused = (
    tt,
    (
      (λ h. absurd (false≢true h), tt),
      ((λ h. refl, (λ h. absurd (false≢true h), tt)), ((λ h. absurd (false≢true h), tt), tt)),
    ),
  );
  phis_first = ((refl, tt), ((refl, (refl, tt)), ((refl, (refl, (refl, tt))), ((refl, tt), tt))));
}

abbrev unmerged : Merging
unmerged = record { blocks = joining.blocks; deleted = []; changed = false; num_dedup = 0 }

abbrev DeletedFree : Block → Type 0
DeletedFree x =
    has x.name (merge_all both_get predecessors joining).deleted ≡ true → IsPhiFree x.insts

joining-DeletedFree : All DeletedFree joining.blocks
unfolding merge_all has can_merge_instructions insert
joining-DeletedFree =
    (λ h. tt, (λ h. (refl, tt), (λ h. (refl, (refl, tt)), (λ h. absurd (false≢true h), tt))))

joining-MergesNoPhi : MergesNoPhi unmerged (merge_all both_get predecessors joining)
joining-MergesNoPhi b w found deleted =
    All-find_block DeletedFree b joining.blocks w found joining-DeletedFree (
      ap (λ (d : ℕ). has d (merge_all both_get predecessors joining).deleted)
        (find_block-name b joining.blocks w found)
      ∙ deleted)

abbrev entering : Config ℕ
entering = record { at = 1; from = 0; state = record { env = λ i. 1; mem = 7 } }

merge_all-Observed_example :
    Observed tallying
      (steps tallying 3 joining.blocks entering)
      (steps tallying 3 (merge_all both_get predecessors joining).blocks entering)
merge_all-Observed_example =
    merge_all-Observed both_get predecessors both_get-IsSound predecessors-Listed
      predecessors-Branching tallying tallying-IsSilent joining 3 entering joining-IsWellFormed
      joining-MergesNoPhi refl

-- The block 2 is merged into the block 3.
merged_blocks : (merge_all both_get predecessors joining).num_dedup ≡ 1
unfolding merge_all has can_merge_instructions insert
merged_blocks = refl

-- The blocks 1, 2 and 4 are run, and the function returns the number that it got.
returned : steps tallying 3 joining.blocks entering ≡ ends_with 0 (7 ∷ []) 8
unfolding steps exec result incoming_value
returned = refl
