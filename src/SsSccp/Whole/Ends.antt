-- ===== src/SsSccp/Whole/Ends.antt =====
-- The recursions of `DoSCCP` of SsSCCP/SsSCCP.cpp: the fuel that they are given here is enough.
use llvm_study.Base.{
  ℕ, suc, ◌≤◌, ◌≡◌, refl, ap, ◌∙◌, Bool, true, false, List, [], ◌∷◌, ◌++◌, Option, none, some, ◌==◌,
  ==_iff, All, Bool-cases, Option-cases, inl, inr, arith,
}
use mathlib.Core.Path.{subst}
use llvm_study.Ir.{Value, Instr}
use llvm_study.Cfg.{Block, Func, find_block}
use llvm_study.Riv.{DomTrees, leaf, tree}
use package.llvm_study.SsSccp.{
  Outcome, finished, cast_failed, undefined, endless, out_of_fuel, and_then, is_store, pointer,
  AllocaMap, gather_alloca, Node, nodes_of, each_at, walk, Blocks, erase, erase_stored, search_dfs,
}
use package.llvm_study.SsSccp.Walk.{depth, preorder, visit_all, walk-visit_all}
use package.llvm_study.SsSccp.Replace.{
  Replacing, erase_entered, replace_block, replace_dfs, propagate_below, propagate,
}
use llvm_study.MergeBb.Merge.{names}
use package.llvm_study.SsSccp.Fold.{
  Predicate, Folding, Placing, fold_blocks, final_block, copied_into_itself, emplace, emplace_all,
  fold_branches,
}
use package.llvm_study.SsSccp.Whole.{set_insts, blocks_of, is_inst_of, fold_propagated, do_sccp}

-- The outcome is no lack of fuel.
abbrev pub is_fuelled {ℓ} : {S : Type ℓ} → Outcome S → Bool
is_fuelled out_of_fuel = false
is_fuelled _ = true

and_then-is_fuelled {ℓ} :
    {S T : Type ℓ} (o : Outcome S) (k : S → Outcome T)
    → is_fuelled o ≡ true
    → ((s : S) → is_fuelled (k s) ≡ true)
    → is_fuelled (and_then o k) ≡ true
and_then-is_fuelled (finished s) k h next = next s
and_then-is_fuelled cast_failed k h next = refl
and_then-is_fuelled undefined k h next = refl
and_then-is_fuelled endless k h next = refl
and_then-is_fuelled out_of_fuel k h next = h

visit_all-is_fuelled {ℓ} :
    {S : Type ℓ} (visit : ℕ → S → Outcome S) (bs : List ℕ) (s : S)
    → ((b : ℕ) (u : S) → is_fuelled (visit b u) ≡ true)
    → is_fuelled (visit_all visit bs s) ≡ true
visit_all-is_fuelled visit [] s h = refl
visit_all-is_fuelled visit (b ∷ bs) s h =
    and_then-is_fuelled (visit b s) (visit_all visit bs) (h b s)
      (λ u. visit_all-is_fuelled visit bs u h)

walk-is_fuelled {ℓ} :
    {S : Type ℓ} (visit : ℕ → S → Outcome S) (fuel : ℕ) (n : Node) (level : ℕ) (s : S)
    → suc (depth n.below) ≤ fuel
    → (n.level == level) ≡ true
    → ((b : ℕ) (u : S) → is_fuelled (visit b u) ≡ true)
    → is_fuelled (walk visit (suc fuel) n level s) ≡ true
walk-is_fuelled visit fuel n level s enough here h =
    subst (λ (l : ℕ). is_fuelled (walk visit (suc fuel) n l s) ≡ true)
      ((==_iff n.level level).0 here)
      (ap is_fuelled (walk-visit_all visit fuel n s enough)
        ∙ visit_all-is_fuelled visit (n.block ∷ preorder n.below) s h)

-- The nodes that are visited have trees below them that are not as deep.
each_at-is_fuelled {ℓ} :
    {S : Type ℓ} (level d : ℕ) (visit : Node → S → Outcome S) (ns : List Node) (s : S)
    → All (λ (n : Node). suc (depth n.below) ≤ d) ns
    → ((n : Node) (u : S)
        → suc (depth n.below) ≤ d
        → (n.level == level) ≡ true
        → is_fuelled (visit n u) ≡ true)
    → is_fuelled (each_at level visit ns s) ≡ true
each_at-is_fuelled level d visit [] s all h = refl
each_at-is_fuelled level d visit (n ∷ ns) s all h = elim (Bool-cases (n.level == level)) [
  | inl e ↦ rw e (
      and_then-is_fuelled (visit n s) (each_at level visit ns) (h n s all.0 e)
        (λ u. each_at-is_fuelled level d visit ns u all.1 h))
  | inr e ↦ rw e (each_at-is_fuelled level d visit ns s all.1 h)
]

All-append : (P : Node → Type 0) (xs ys : List Node) → All P xs → All P ys → All P (xs ++ ys)
All-append P [] ys h g = g
All-append P (x ∷ xs) ys h g = (h.0, All-append P xs ys h.1 g)

nodes_of-depth :
    (level d : ℕ) (t : DomTrees)
    → depth t ≤ d
    → All (λ (n : Node). suc (depth n.below) ≤ d) (nodes_of level t)
nodes_of-depth level d leaf h = tt
nodes_of-depth level d (tree b children siblings) h = (
  ground arith,
  All-append _ (nodes_of (suc level) children) (nodes_of level siblings)
      (nodes_of-depth (suc level) d children (ground arith))
      (nodes_of-depth level d siblings (ground arith)),
)

module _ (predicate_of : Instr → Option Predicate) (is_sgt : ℕ → ℕ → ℕ → Bool)
    (predecessors : List Block → ℕ → List ℕ) (delete_dead_block : ℕ → List Block → List Block) where
  copied_into_itself-is_fuelled : (xs : List Instr) → is_fuelled (copied_into_itself xs) ≡ true
  copied_into_itself-is_fuelled [] = refl
  copied_into_itself-is_fuelled (x ∷ xs) = refl

  emplace-is_fuelled :
      (src dst : ℕ) (p : Placing)
      → is_fuelled (emplace predicate_of is_sgt predecessors delete_dead_block src dst p) ≡ true
  unfolding emplace
  emplace-is_fuelled src dst p = elim (Option-cases (find_block src p.blocks)) [
    | inl e ↦ rw (e, emplace) refl
    | inr (x, e) ↦ elim (Option-cases (find_block dst p.blocks)) [
      | inl e1 ↦ rw (e, e1, emplace) refl
      | inr (y, e1) ↦ elim (Option-cases (final_block y.term.operands)) [
        | inl e2 ↦ elim (Bool-cases (src == dst)) [
          | inl e3 ↦ rw (e, e1, e2, e3, emplace) (copied_into_itself-is_fuelled y.insts)
          | inr e3 ↦ rw (e, e1, e2, e3, emplace) refl
        ]
        | inr (final, e2) ↦ elim (Bool-cases (src == dst)) [
          | inl e3 ↦ rw (e, e1, e2, e3, emplace) (copied_into_itself-is_fuelled y.insts)
          | inr e3 ↦ rw (e, e1, e2, e3, emplace) refl
        ]
      ]
    ]
  ]

  emplace_all-is_fuelled :
      (ps : List (ℕ × ℕ)) (p : Placing)
      → is_fuelled (emplace_all predicate_of is_sgt predecessors delete_dead_block ps p) ≡ true
  unfolding emplace_all
  emplace_all-is_fuelled [] p = refl
  emplace_all-is_fuelled ((src, dst) ∷ ps) p =
      and_then-is_fuelled _ _ (emplace-is_fuelled src dst p) (emplace_all-is_fuelled ps)

  fold_branches-is_fuelled :
      (bs : List Block) (changed : Bool) (n : ℕ)
      → is_fuelled (fold_branches predicate_of is_sgt predecessors delete_dead_block bs changed n)
        ≡ true
  unfolding fold_branches
  fold_branches-is_fuelled bs changed n =
      let start : Folding = record { blocks = bs; to_emplace = []; next = n } in
      elim (Option-cases
        (fold_blocks predicate_of is_sgt predecessors delete_dead_block (names bs) start)) [
          | inl e ↦ rw (fold_branches, e) refl
          | inr (f, e) ↦
              rw (fold_branches, e)
                (and_then-is_fuelled _ _ (emplace_all-is_fuelled f.to_emplace _) (λ p. refl))
        ]

module _ (is_inst : ℕ → Bool) where
  erase_stored-is_fuelled :
      (xs : List Instr) (m : AllocaMap) → is_fuelled (erase_stored is_inst xs m) ≡ true
  unfolding erase_stored
  erase_stored-is_fuelled [] m = refl
  erase_stored-is_fuelled (x ∷ xs) m = elim (Bool-cases (is_store x.kind)) [
    | inr e ↦ rw (e, erase_stored) (erase_stored-is_fuelled xs m)
    | inl e ↦ elim (Option-cases (pointer is_inst x.operands)) [
      | inl e' ↦ rw (e, e', erase_stored) refl
      | inr (p, e') ↦ rw (e, e', erase_stored) (erase_stored-is_fuelled xs (erase p m))
    ]
  ]

  module _ (constant_of : ℕ → ℕ → Value) where
    propagate_below-is_fuelled :
        (d : ℕ) (am : AllocaMap) (n : Node) (s : Blocks × Bool)
        → suc (depth n.below) ≤ d
        → (n.level == 1) ≡ true
        → is_fuelled (propagate_below is_inst constant_of (suc d) am n s) ≡ true
    unfolding propagate_below search_dfs replace_dfs
    propagate_below-is_fuelled d am n (blocks, changed) enough here =
        and_then-is_fuelled (search_dfs is_inst blocks (suc d) n 1 am) _
          (walk-is_fuelled (λ b m. erase_stored is_inst (blocks b) m) d n 1 am enough here
            (λ b m. erase_stored-is_fuelled (blocks b) m))
          (λ local_map.
            let start : Replacing = record { blocks = blocks; replace_map = [] } in
            and_then-is_fuelled (replace_dfs is_inst constant_of local_map (suc d) n 1 start)
              (erase_entered changed)
              (walk-is_fuelled (replace_block is_inst constant_of local_map) d n 1 start enough here
                (λ b r. refl))
              (λ r. refl))

    propagate-is_fuelled :
        (users : ℕ → List Instr) (entry : ℕ) (below : DomTrees) (blocks : Blocks)
        → is_fuelled (propagate is_inst constant_of users (suc (depth below)) entry below blocks)
          ≡ true
    unfolding propagate
    propagate-is_fuelled users entry below blocks =
        let am = gather_alloca users entry (blocks entry) [] in
        each_at-is_fuelled 1 (depth below)
          (propagate_below is_inst constant_of (suc (depth below)) am) (nodes_of 1 below)
          (blocks, false) (nodes_of-depth 1 (depth below) below (omega arith))
          (λ n s enough here. propagate_below-is_fuelled (depth below) am n s enough here)

module _ (foo : ℕ) (users : ℕ → List Instr) (constant_of : ℕ → ℕ → Value)
    (predicate_of : Instr → Option Predicate) (is_sgt : ℕ → ℕ → ℕ → Bool)
    (predecessors : List Block → ℕ → List ℕ) (delete_dead_block : ℕ → List Block → List Block) where
  fold_propagated-is_fuelled :
      (f : Func) (n : ℕ) (s : Blocks × Bool)
      → is_fuelled (
          fold_propagated foo users constant_of predicate_of is_sgt predecessors delete_dead_block f
            n s)
        ≡ true
  unfolding fold_propagated
  fold_propagated-is_fuelled f n (blocks, changed) =
      elim (Option-cases (set_insts blocks f.blocks)) [
        | inl e ↦ rw (fold_propagated, e) refl
        | inr (bs, e) ↦
            rw (fold_propagated, e)
              (fold_branches-is_fuelled predicate_of is_sgt predecessors delete_dead_block bs
                changed n)
      ]

  -- With the depth of the dominator tree as fuel, neither recursion of the pass is ever out of fuel: what
  -- it comes to is a result, a failed `cast`, undefined behaviour, or the endless loop of a block that
  -- is copied into itself.
  pub do_sccp-is_fuelled :
      (below : Option DomTrees) (name : ℕ) (f : Func) (n : ℕ)
      → is_fuelled (
          do_sccp foo users constant_of predicate_of is_sgt predecessors delete_dead_block below
            name f n)
        ≡ true
  unfolding do_sccp
  do_sccp-is_fuelled none name f n = refl
  do_sccp-is_fuelled (some below) name f n = elim (Bool-cases (name == foo)) [
    | inr e ↦ rw e refl
    | inl e ↦ rw e (
        and_then-is_fuelled _
          (fold_propagated foo users constant_of predicate_of is_sgt predecessors delete_dead_block
            f n)
          (propagate-is_fuelled (is_inst_of f.blocks) constant_of users f.entry below
            (blocks_of f.blocks))
          (λ s. fold_propagated-is_fuelled f n s))
  ]
