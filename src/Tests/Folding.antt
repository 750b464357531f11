-- ===== src/Tests/Folding.antt =====
-- The second half of `DoSCCP` on a branch that compares 5 with 3.
use llvm_study.Base.{
  ℕ, ◌≡◌, refl, sym, Bool, true, false, List, [], ◌∷◌, Option, none, some, ◌==◌, ltb, if◌then◌else◌,
  arith, Bool-cases, inl, inr,
}
use mathlib.Core.Bool.{false≢true}
use mathlib.Core.Option.{none-ne-some}
use llvm_study.Ir.{const, local, block, int, void, Kind, br, other, other_terminator, Instr}
use llvm_study.Containers.{address_eq, at}
use llvm_study.Cfg.{Block, goes, value_eq, find_block}
use llvm_study.Cfg.Uses.{count_operands, uses_in}
use llvm_study.SsSccp.Fold.{Predicate, sgt, find_inst, find_in, Folding, fold_block, emplace}
use llvm_study.SsSccp.Fold.Taken.{
  IsOnlyUser, IsDeletion, IsConstantBranch, Folded, fold_block-Folded,
}
use llvm_study.SsSccp.Fold.Copies.{Copies, emplace-Copies}
use llvm_study.MergeBb.Merge.Retarget.{IsDead}
use package.llvm_study.Tests.Machines.{counting}
use package.llvm_study.Tests.Merging.{predecessors, predecessors-Listed}

-- `other 9` is the comparison; literals have no sign bit here.
abbrev pub predicate_of : Instr → Option Predicate
predicate_of inst = if is_compare inst.kind then some sgt else none
  where
    is_compare : Kind → Bool
    is_compare (other k) = k == 9
    is_compare _ = false

abbrev pub is_sgt : ℕ → ℕ → ℕ → Bool
is_sgt w a b = ltb b a

abbrev pub without : ℕ → List Block → List Block
without d [] = []
without d (x ∷ xs) = if x.name == d then without d xs else x ∷ without d xs

without-keeps :
    (d b : ℕ) (bs : List Block) (x : Block)
    → (d == b) ≡ false
    → find_block b bs ≡ some x
    → (y : Block) × (find_block b (without d bs) ≡ some y)
unfolding find_block
without-keeps d b [] x ne h = absurd (none-ne-some x h)
without-keeps d b (z ∷ zs) x ne h = elim (Bool-cases (z.name == d)) [
  | inl q ↦ rw q (without-keeps d b zs x ne (ground (arith, q, ne, h)))
  | inr q ↦ elim (Bool-cases (z.name == b)) [
    | inl q' ↦ rw (q, q') (z, refl)
    | inr q' ↦ rw (q, q') (without-keeps d b zs x ne (rw q' at h))
  ]
]

without-adds_no_use :
    (d b c : ℕ) (bs : List Block) → IsOnlyUser c b bs → IsOnlyUser c b (without d bs)
without-adds_no_use d b c [] h = tt
without-adds_no_use d b c (x ∷ xs) h = elim (Bool-cases (x.name == d)) [
  | inl q ↦ rw q (without-adds_no_use d b c xs h.1)
  | inr q ↦ rw q (h.0, without-adds_no_use d b c xs h.1)
]

without-removes : (d : ℕ) (bs : List Block) → find_block d (without d bs) ≡ none
unfolding find_block
without-removes d [] = refl
without-removes d (x ∷ xs) = elim (Bool-cases (x.name == d)) [
  | inl e ↦ rw e (without-removes d xs)
  | inr e ↦ rw (e, e) (without-removes d xs)
]

without-IsDead : (d : ℕ) (bs : List Block) → IsDead d bs → IsDead d (without d bs)
without-IsDead d [] h = tt
without-IsDead d (x ∷ xs) h = elim (Bool-cases (x.name == d)) [
  | inl e ↦ rw e (without-IsDead d xs h.1)
  | inr e ↦ rw e (h.0, without-IsDead d xs h.1)
]

without-IsDeletion : IsDeletion without
without-IsDeletion = record {
  keeps = without-keeps;
  removes = λ d bs h. without-removes d bs;
  adds_no_branch = without-IsDead;
  adds_no_use = without-adds_no_use;
}

abbrev pub greater : Instr
greater = record { id = 10; kind = other 9; ty = int 1; operands = const 32 5 ∷ const 32 3 ∷ [] }

abbrev pub jump : ℕ → ℕ → Instr
jump id target = record { id = id; kind = br; ty = void; operands = block target ∷ [] }

abbrev head : Block
head = record {
  name = 1;
  insts = greater ∷ [];
  term = record { id = 11; kind = br; ty = void; operands = local 10 ∷ block 3 ∷ block 2 ∷ [] };
}

abbrev taken : Block
taken = record {
  name = 2;
  insts = record { id = 12; kind = other 1; ty = int 32; operands = const 32 7 ∷ [] } ∷ [];
  term = jump 13 4;
}

abbrev start : Folding
start = record {
  blocks =
      head
      ∷ taken
      ∷ record { name = 3; insts = []; term = jump 14 4 }
      ∷ record {
        name = 4;
        insts = [];
        term = record { id = 15; kind = other_terminator 0; ty = void; operands = [] };
      }
      ∷ [];
  to_emplace = [];
  next = 20;
}

head-IsConstantBranch : IsConstantBranch predicate_of start.blocks 1 10 3 2 head greater 32 5 3
unfolding find_block find_in find_inst count_operands uses_in value_eq
head-IsConstantBranch = record {
  found = refl;
  conditional = refl;
  operands = refl;
  compares = refl;
  greater = refl;
  of_constants = refl;
  only = (
    (refl, λ h. absurd (false≢true (sym h))),
    ((refl, λ h. refl), ((refl, λ h. refl), ((refl, λ h. refl), tt))),
  );
  differ = refl;
  differ1 = refl;
  differ0 = refl;
}

fold_block-Folded_example :
    (goes (λ i. 1) head.term.kind head.term.operands ≡ some 2)
    × Folded (λ i. 1) 1 3 2 start (fold_block predicate_of is_sgt predecessors without 1 start)
fold_block-Folded_example =
    fold_block-Folded predicate_of is_sgt predecessors without start 1 10 3 2 head greater 32 5 3
      (λ i. 1) without-IsDeletion head-IsConstantBranch (predecessors-Listed start.blocks) refl

-- What is left once the branch is folded.
abbrev folded : Block
folded = record { name = 1; insts = []; term = jump 20 2 }

emplace-Copies_example :
    Copies counting 21
      (λ i. true)
      1
      2
      4
      folded
      taken
      without
      (emplace predicate_of is_sgt predecessors without 1 2
        (record { blocks = folded ∷ taken ∷ []; vmap = []; next = 21 }))
unfolding find_block value_eq at
emplace-Copies_example =
    emplace-Copies counting 21 (λ i. true) predicate_of is_sgt predecessors without 1 2 4 folded
      taken [] (folded ∷ taken ∷ []) refl refl refl refl refl tt (refl, tt) tt
      (record { defines = omega arith; uses = (tt, tt) }, tt)
      (record { void_no_value = λ h. absurd (false≢true h); operands_valued = (tt, tt) }, tt)
      ((refl, tt), tt) (λ i h. (h, λ v. refl))
