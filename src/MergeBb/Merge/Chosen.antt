-- ===== src/MergeBb/Merge/Chosen.antt =====
-- `mergeDuplicatedBlock` of lib/MergeBB.cpp: what is known of the block that it chooses.
use llvm_study.Base.{
  ℕ, ◌+◌, ◌≡◌, refl, sym, ap, ◌∙◌, Bool, true, false, List, [], ◌∷◌, Option, none, some, length,
  ◌==◌, ==_iff, All, Bool-cases, Option-cases, inl, inr, ◌⊎◌, arith,
}
use mathlib.Core.Bool.{false≢true}
use mathlib.Core.Option.{none-ne-some, some-injective}
use mathlib.Core.Path.{subst}
use llvm_study.Ir.{Value, block, Instr}
use llvm_study.Containers.{address_eq}
use llvm_study.Cfg.{Block, value_eq, find_block, unconditional_target, mentions, branches_to}
use llvm_study.Cfg.Named.{find_block-name}
use llvm_study.Duplicate.Whole.{phis_of}
use llvm_study.MergeBb.Lockstep.Laws.{non_dbg, all_merge, mismatch-all_merge}
use package.llvm_study.MergeBb.{can_merge_instructions, count_non_dbg, num_non_dbg}
use package.llvm_study.MergeBb.Merge.{
  SuccPhi, no_phi, several_phis, one_phi, succ_phi, phi_allows, is_unconditional, matches, accepts,
  find_duplicate, duplicate_of,
}
use package.llvm_study.MergeBb.Merge.Twins.{all_merge-AllTwins}
use package.llvm_study.MergeBb.Merge.Twins.Readers.{AreTwins, unconditional-br}
use package.llvm_study.MergeBb.Merge.Twins.Phi.{succ_phi-no_phi, succ_phi-one_phi}

-- The listed blocks branch to the block.
abbrev pub Branching : ℕ → List ℕ → List Block → Type 0
Branching b ps bs =
    All (λ (p : ℕ). (x : Block) → find_block p bs ≡ some x → branches_to x b ≡ true) ps

length-non_dbg : (zs : List Instr) → length (non_dbg zs) ≡ count_non_dbg zs
length-non_dbg [] = refl
length-non_dbg (z ∷ zs) = ground (arith, length-non_dbg zs)

-- The only block that an unconditional branch mentions.
unconditional-target :
    (x : Block) (succ : ℕ)
    → is_unconditional x ≡ true
    → branches_to x succ ≡ true
    → unconditional_target x.term.kind x.term.operands ≡ some succ
unfolding value_eq
unconditional-target x succ h b =
    elim (Option-cases (unconditional_target x.term.kind x.term.operands)) [
      | inl e ↦ absurd (false≢true (rw (is_unconditional, e) at h))
      | inr (t, e) ↦
          let (kind, ops) = unconditional-br x.term.kind x.term.operands t e in
          let there : mentions (block t ∷ []) (block succ) ≡ true =
            ap (λ (vs : List Value). mentions vs (block succ)) (sym ops) ∙ b in
          e ∙ ap (λ (k : ℕ). some k) ((==_iff t succ).0 (ground (arith, there)))
    ]

-- The phi of the successor, where it has one, lets the blocks be merged.
abbrev pub Allowed : List Block → Block → Block → Block → Type 0
Allowed bs next x y =
    (phis_of next.insts ≡ [])
    ⊎ ((pn : Instr) × (phis_of next.insts ≡ pn ∷ [])
        × (phi_allows bs (one_phi pn) x.name y.name ≡ true))

module _ (same_operation : Instr → Instr → Bool) (predecessors : List Block → ℕ → List ℕ) where
  -- The blocks and what they branch to.
  pub record Choice (bs : List Block) (x : Block) (d : ℕ) : Type 0 where
    pub succ : ℕ
    pub next : Block
    pub y : Block
    pub named : y.name ≡ d
    pub twins : AreTwins same_operation bs succ x y
    pub found_next : find_block succ bs ≡ some next
    pub allowed : Allowed bs next x y

  record Passed (bs : List Block) (pn : SuccPhi) (x : Block) (succ : ℕ) (y : Block) : Type 0 where
    found : find_block y.name bs ≡ some y
    branch : branches_to y succ ≡ true
    unconditional : is_unconditional y ≡ true
    differ : (y.name == x.name) ≡ false
    as_many : num_non_dbg x ≡ num_non_dbg y
    allows : phi_allows bs pn x.name y.name ≡ true
    matching : matches same_operation predecessors bs x y ≡ true

  find_duplicate-Passed :
      (bs : List Block) (entry : ℕ) (deleted : List ℕ) (pn : SuccPhi) (x : Block) (succ : ℕ)
      (ps : List ℕ) (d : ℕ)
      → Branching succ ps bs
      → find_duplicate same_operation predecessors bs entry deleted pn x ps ≡ some d
      → (y : Block) × (y.name ≡ d) × Passed bs pn x succ y
  unfolding find_duplicate accepts
  find_duplicate-Passed bs entry deleted pn x succ [] d branching h = absurd (none-ne-some d h)
  find_duplicate-Passed bs entry deleted pn x succ (p ∷ ps) d branching h =
      elim (Option-cases (find_block p bs)) [
        | inl gone ↦
            find_duplicate-Passed bs entry deleted pn x succ ps d branching.1
              (rw (gone, find_duplicate) at h)
        | inr (y, found) ↦
            elim (Bool-cases (accepts same_operation predecessors bs entry deleted pn x y)) [
              | inr unfit ↦
                  find_duplicate-Passed bs entry deleted pn x succ ps d branching.1
                    (rw (found, unfit, find_duplicate) at h)
              | inl fits ↦
                  let e : some y.name ≡ some d = rw (found, fits, find_duplicate) at h in
                  let at_p : y.name ≡ p = find_block-name p bs y found in
                  (
                    y,
                    some-injective y.name d e,
                    record {
                      found = ap (λ (k : ℕ). find_block k bs) at_p ∙ found;
                      branch = branching.0 y found;
                      unconditional = ground arith;
                      differ = ground arith;
                      as_many = ground arith;
                      allows = ground arith;
                      matching = ground arith;
                    },
                  )
            ]
      ]

  num_non_dbg-insts :
      (b : Block) (t : ℕ)
      → unconditional_target b.term.kind b.term.operands ≡ some t
      → num_non_dbg b ≡ length (non_dbg b.insts) + 1
  unfolding num_non_dbg
  num_non_dbg-insts b t h =
      rw (num_non_dbg, (unconditional-br b.term.kind b.term.operands t h).0)
        (omega (arith, length-non_dbg b.insts))

  -- What the lockstep loop found.
  matching-merge :
      (bs : List Block) (x y : Block)
      → length (non_dbg x.insts) ≡ length (non_dbg y.insts)
      → matches same_operation predecessors bs x y ≡ true
      → all_merge
          (can_merge_instructions same_operation bs x.name y.name)
          (non_dbg x.insts)
          (non_dbg y.insts)
        ≡ true
  unfolding matches
  matching-merge bs x y same h =
      let can = can_merge_instructions same_operation bs x.name y.name in
      let found = mismatch-all_merge can x.insts y.insts same in
      let g = rw (matches, found) at h in ground (arith, g)

  Passed-Choice :
      (bs : List Block) (pn : SuccPhi) (x : Block) (succ : ℕ) (next y : Block)
      → find_block x.name bs ≡ some x
      → unconditional_target x.term.kind x.term.operands ≡ some succ
      → find_block succ bs ≡ some next
      → succ_phi next.insts ≡ pn
      → Passed bs pn x succ y
      → Choice bs x y.name
  unfolding phi_allows
  Passed-Choice bs pn x succ next y found to found_next first p =
      let to2 = unconditional-target y succ p.unconditional p.branch in
      let same : length (non_dbg x.insts) ≡ length (non_dbg y.insts) =
        omega (arith, num_non_dbg-insts x succ to, num_non_dbg-insts y succ to2, p.as_many) in
      record {
        succ = succ;
        next = next;
        y = y;
        named = refl;
        twins = record {
          found1 = found;
          found2 = p.found;
          differ = p.differ;
          to1 = to;
          to2 = to2;
          twins =
              all_merge-AllTwins same_operation bs x.name y.name (non_dbg x.insts) (non_dbg y.insts)
                (matching-merge bs x y same p.matching);
        };
        found_next = found_next;
        allowed = by_phi pn first p.allows;
      }
    where
      by_phi :
          (q : SuccPhi)
          → succ_phi next.insts ≡ q
          → phi_allows bs q x.name y.name ≡ true
          → Allowed bs next x y
      by_phi no_phi e a = inl (succ_phi-no_phi next.insts e)
      by_phi several_phis e a = absurd (false≢true a)
      by_phi (one_phi z) e a = inr (z, succ_phi-one_phi next.insts z e, a)

  -- Where the listed predecessors branch to their block: the block that is chosen has the same
  -- successor and the same instructions.
  pub duplicate_of-Choice :
      (entry : ℕ) (bs : List Block) (deleted : List ℕ) (x : Block) (d : ℕ)
      → ((b : ℕ) → Branching b (predecessors bs b) bs)
      → find_block x.name bs ≡ some x
      → duplicate_of same_operation predecessors entry bs deleted x ≡ some d
      → Choice bs x d
  unfolding duplicate_of
  duplicate_of-Choice entry bs deleted x d branching found h =
      elim (Option-cases (unconditional_target x.term.kind x.term.operands)) [
        | inl gone ↦ absurd (none-ne-some d (rw (gone, duplicate_of) at h))
        | inr (succ, target) ↦ elim (Option-cases (find_block succ bs)) [
          | inl gone ↦ absurd (none-ne-some d (rw (target, gone, duplicate_of) at h))
          | inr (next, found_next) ↦
              by_phi succ next target found_next (succ_phi next.insts) refl
                (rw (target, found_next, duplicate_of) at h)
        ]
      ]
    where
      chosen :
          (succ : ℕ) (next : Block) (pn : SuccPhi)
          → unconditional_target x.term.kind x.term.operands ≡ some succ
          → find_block succ bs ≡ some next
          → succ_phi next.insts ≡ pn
          → find_duplicate same_operation predecessors bs entry deleted pn x (predecessors bs succ)
            ≡ some d
          → Choice bs x d
      chosen succ next pn to found_next first k =
          let (y, named, passed) =
            find_duplicate-Passed bs entry deleted pn x succ (predecessors bs succ) d
              (branching succ) k in
          subst (Choice bs x) named
            (Passed-Choice bs pn x succ next y found to found_next first passed)

      by_phi :
          (succ : ℕ) (next : Block)
          → unconditional_target x.term.kind x.term.operands ≡ some succ
          → find_block succ bs ≡ some next
          → (pn : SuccPhi) → succ_phi next.insts ≡ pn
          → elim pn as (λ _. Option ℕ) [
            | several_phis ↦ none
            | no_phi ↦
                find_duplicate same_operation predecessors bs entry deleted no_phi x
                  (predecessors bs succ)
            | one_phi q ↦
                find_duplicate same_operation predecessors bs entry deleted
                  (one_phi q)
                  x
                  (predecessors bs succ)
          ]
            ≡ some d
          → Choice bs x d
      by_phi succ next to found_next several_phis first k = absurd (none-ne-some d k)
      by_phi succ next to found_next no_phi first k = chosen succ next no_phi to found_next first k
      by_phi succ next to found_next (one_phi q) first k =
          chosen succ next (one_phi q) to found_next first k
