-- ===== src/SsSccp/Fold/Taken.antt =====
-- Steps 1 to 7 of `DoSCCP`: a branch on a comparison of two constants.
use llvm_study.Base.{
  ℕ, ◌+◌, ◌≡◌, refl, sym, ap, ◌∙◌, Bool, true, false, List, [], ◌∷◌, ◌++◌, Option, none, some, ◌==◌,
  if◌then◌else◌, All, arith, Bool-cases, inl, inr,
}
use mathlib.Core.Option.{none-ne-some}
use llvm_study.Ir.{local, block, br, Instr}
use llvm_study.Containers.{address_eq}
use llvm_study.Cfg.{Block, goes, value_eq, find_block}
use llvm_study.Cfg.Uses.{count_operands, uses_in, num_uses}
use llvm_study.MergeBb.Merge.{retarget_block, retarget, replace_bb}
use llvm_study.MergeBb.Merge.Rules.{count_operands-set_targets}
use llvm_study.MergeBb.Merge.Retarget.{IsDead, Listed, IsDead-erased}
use package.llvm_study.SsSccp.Fold.{
  Predicate, sgt, constants, find_in, fold, choose, branch_to, set_term, erase_in, erase_inst,
  Folding, fold_branch, fold_block, merge_branch_two_bb_to_one_bb,
}

-- No operand but those of the terminator of `b` is the value `c`.
abbrev pub IsOnlyUser : ℕ → ℕ → List Block → Type 0
IsOnlyUser c b bs =
    All
      (λ (y : Block).
        (uses_in (local c) y.insts ≡ 0)
        × ((y.name == b) ≡ false → count_operands (local c) y.term.operands ≡ 0))
      bs

-- `DeleteDeadBlock` removes the block, keeps the other blocks, and adds no use of a value and no branch
-- to the block.
pub record IsDeletion (delete_dead_block : ℕ → List Block → List Block) : Type 0 where
  pub keeps :
      (d b : ℕ) (bs : List Block) (x : Block)
      → (d == b) ≡ false
      → find_block b bs ≡ some x
      → (y : Block) × (find_block b (delete_dead_block d bs) ≡ some y)
  pub removes :
      (d : ℕ) (bs : List Block) → IsDead d bs → find_block d (delete_dead_block d bs) ≡ none
  pub adds_no_branch : (d : ℕ) (bs : List Block) → IsDead d bs → IsDead d (delete_dead_block d bs)
  pub adds_no_use :
      (d b c : ℕ) (bs : List Block) → IsOnlyUser c b bs → IsOnlyUser c b (delete_dead_block d bs)

IsOnlyUser-retarget :
    (c b p e r : ℕ) (bs : List Block) → IsOnlyUser c b bs → IsOnlyUser c b (retarget p e r bs)
IsOnlyUser-retarget c b p e r [] h = tt
IsOnlyUser-retarget c b p e r (x ∷ xs) h = elim (Bool-cases (x.name == p)) [
  | inl q ↦ rw q (
    (h.0.0, λ ne. count_operands-set_targets c e r x.term.operands ∙ h.0.1 ne),
    IsOnlyUser-retarget c b p e r xs h.1,
  )
  | inr q ↦ rw q (h.0, IsOnlyUser-retarget c b p e r xs h.1)
]

IsOnlyUser-replace_bb :
    (c b e r : ℕ) (ps : List ℕ) (bs : List Block)
    → IsOnlyUser c b bs
    → IsOnlyUser c b (replace_bb ps e r bs)
unfolding replace_bb
IsOnlyUser-replace_bb c b e r [] bs h = h
IsOnlyUser-replace_bb c b e r (p ∷ ps) bs h =
    IsOnlyUser-replace_bb c b e r ps (retarget p e r bs) (IsOnlyUser-retarget c b p e r bs h)

-- The new branch drops the last use of the comparison.
num_uses-set_term :
    (c b k t : ℕ) (bs : List Block)
    → IsOnlyUser c b bs
    → num_uses c (set_term b (branch_to k t) bs) ≡ 0
unfolding num_uses count_operands value_eq
num_uses-set_term c b k t [] h = refl
num_uses-set_term c b k t (x ∷ xs) h = elim (Bool-cases (x.name == b)) [
  | inl q ↦ rw q (omega (arith, h.0.0, num_uses-set_term c b k t xs h.1))
  | inr q ↦ rw q (omega (arith, h.0.0, h.0.1 q, num_uses-set_term c b k t xs h.1))
]

find_block-retarget :
    (b p e r : ℕ) (bs : List Block) (x : Block)
    → find_block b bs ≡ some x
    → (y : Block) × (find_block b (retarget p e r bs) ≡ some y)
unfolding find_block
find_block-retarget b p e r [] x h = absurd (none-ne-some x h)
find_block-retarget b p e r (z ∷ zs) x h = elim (Bool-cases (z.name == b)) [
  | inl q ↦ elim (Bool-cases (z.name == p)) [
    | inl q' ↦ rw (q', q) (retarget_block e r z, refl)
    | inr q' ↦ rw (q', q) (z, refl)
  ]
  | inr q ↦
      let rest = find_block-retarget b p e r zs x (rw q at h) in
      elim (Bool-cases (z.name == p)) [ inl q' ↦ rw (q', q) rest | inr q' ↦ rw (q', q) rest ]
]

find_block-replace_bb :
    (b e r : ℕ) (ps : List ℕ) (bs : List Block) (x : Block)
    → find_block b bs ≡ some x
    → (y : Block) × (find_block b (replace_bb ps e r bs) ≡ some y)
unfolding replace_bb
find_block-replace_bb b e r [] bs x h = (x, h)
find_block-replace_bb b e r (p ∷ ps) bs x h =
    let y = find_block-retarget b p e r bs x h in
    find_block-replace_bb b e r ps (retarget p e r bs) y.0 y.1

find_block-set_term :
    (b c : ℕ) (t : Instr) (bs : List Block) (x : Block)
    → find_block b bs ≡ some x
    → (y : Block) × (find_block b (erase_inst c (set_term b t bs)) ≡ some y) × (y.term ≡ t)
unfolding find_block
find_block-set_term b c t [] x h = absurd (none-ne-some x h)
find_block-set_term b c t (z ∷ zs) x h = elim (Bool-cases (z.name == b)) [
  | inl q ↦ rw (q, q) (record z { insts = erase_in c z.insts; term = t }, refl, refl)
  | inr q ↦ rw (q, q) (find_block-set_term b c t zs x (rw q at h))
]

find_block-erase_inst :
    (d c : ℕ) (bs : List Block) → find_block d bs ≡ none → find_block d (erase_inst c bs) ≡ none
unfolding find_block
find_block-erase_inst d c [] h = refl
find_block-erase_inst d c (z ∷ zs) h = elim (Bool-cases (z.name == d)) [
  | inl q ↦ absurd (none-ne-some z (sym (rw q at h)))
  | inr q ↦ rw q (find_block-erase_inst d c zs (rw q at h))
]

find_block-set_term-none :
    (d b : ℕ) (t : Instr) (bs : List Block)
    → find_block d bs ≡ none
    → find_block d (set_term b t bs) ≡ none
unfolding find_block
find_block-set_term-none d b t [] h = refl
find_block-set_term-none d b t (z ∷ zs) h = elim (Bool-cases (z.name == d)) [
  | inl q ↦ absurd (none-ne-some z (sym (rw q at h)))
  | inr q ↦ elim (Bool-cases (z.name == b)) [
    | inl e ↦ rw (e, q) (find_block-set_term-none d b t zs (rw q at h))
    | inr e ↦ rw (e, q) (find_block-set_term-none d b t zs (rw q at h))
  ]
]

-- A branch to another block.
IsDead-set_term :
    (d b k t : ℕ) (bs : List Block)
    → (t == d) ≡ false
    → IsDead d bs
    → IsDead d (set_term b (branch_to k t) bs)
unfolding value_eq
IsDead-set_term d b k t [] ne h = tt
IsDead-set_term d b k t (x ∷ xs) ne h = elim (Bool-cases (x.name == b)) [
  | inl q ↦ rw q (rw ne refl, IsDead-set_term d b k t xs ne h.1)
  | inr q ↦ rw q (h.0, IsDead-set_term d b k t xs ne h.1)
]

IsDead-erase_inst : (d c : ℕ) (bs : List Block) → IsDead d bs → IsDead d (erase_inst c bs)
IsDead-erase_inst d c [] h = tt
IsDead-erase_inst d c (x ∷ xs) h = (h.0, IsDead-erase_inst d c xs h.1)

-- What the pass makes of the block `b`, which went to `target`: it still does, and `dead` is gone.
pub record Folded (m_env : ℕ → ℕ) (b dead target : ℕ) (f : Folding) (o : Option Folding)
    : Type 0 where
  pub left : Folding
  pub folds : o ≡ some left
  pub ends_in :
      (y : Block) × (find_block b left.blocks ≡ some y)
      × (goes m_env y.term.kind y.term.operands ≡ some target)
  pub recorded : left.to_emplace ≡ f.to_emplace ++ (b, target) ∷ []
  pub unreached : IsDead dead left.blocks
  pub gone : find_block dead left.blocks ≡ none

module _ (predicate_of : Instr → Option Predicate) (is_sgt : ℕ → ℕ → ℕ → Bool)
    (predecessors : List Block → ℕ → List ℕ) (delete_dead_block : ℕ → List Block → List Block)
    (deletes : IsDeletion delete_dead_block) where
  fold_branch-Folded :
      (b c target dead : ℕ) (f : Folding) (x : Block) (env : ℕ → ℕ)
      → find_block b f.blocks ≡ some x
      → IsOnlyUser c b f.blocks
      → Listed dead (predecessors f.blocks dead) f.blocks
      → (dead == b) ≡ false
      → (dead == target) ≡ false
      → Folded env b dead target f
          (fold_branch predicate_of is_sgt predecessors delete_dead_block b c target dead f)
  unfolding fold_branch merge_branch_two_bb_to_one_bb
  fold_branch-Folded b c target dead f x env found only listed own other =
      let ps = predecessors f.blocks dead in
      let merged = replace_bb ps dead target f.blocks in
      let y = find_block-replace_bb b dead target ps f.blocks x found in
      let z = deletes.keeps dead b merged y.0 own y.1 in
      let unreached = IsDead-erased ps dead target f.blocks (ground (arith, other)) listed in
      let deleted = delete_dead_block dead merged in
      let w = find_block-set_term b c (branch_to f.next target) deleted z.0 z.1 in
      let unused = num_uses-set_term c b f.next target deleted (
        deletes.adds_no_use dead b c merged
          (IsOnlyUser-replace_bb c b dead target ps f.blocks only)) in
      record {
        left = record {
          blocks = erase_inst c (set_term b (branch_to f.next target) deleted);
          to_emplace = f.to_emplace ++ (b, target) ∷ [];
          next = f.next + 1;
        };
        folds = rw (own, other, unused) refl;
        ends_in = (w.0, w.1, ap (λ (t : Instr). goes env t.kind t.operands) w.2);
        recorded = refl;
        unreached = IsDead-erase_inst dead c _ (
            IsDead-set_term dead b f.next target deleted (ground (arith, other))
              (deletes.adds_no_branch dead merged unreached));
        gone = find_block-erase_inst dead c _ (
            find_block-set_term-none dead b (branch_to f.next target) deleted
              (deletes.removes dead merged unreached));
      }

-- The block `b` ends in a conditional branch on the comparison `cmp`, which nothing else uses, of two
-- constants; its successors differ from each other and from the block.
pub record IsConstantBranch (predicate_of : Instr → Option Predicate) (bs : List Block)
    (b c succ1 succ0 : ℕ) (x : Block) (cmp : Instr) (w a d : ℕ) : Type 0 where
  pub found : find_block b bs ≡ some x
  pub conditional : x.term.kind ≡ br
  pub operands : x.term.operands ≡ local c ∷ block succ1 ∷ block succ0 ∷ []
  pub compares : find_in c bs ≡ some cmp
  pub greater : predicate_of cmp ≡ some sgt
  pub of_constants : constants cmp.operands ≡ some (w, a, d)
  pub only : IsOnlyUser c b bs
  pub differ : (succ1 == succ0) ≡ false
  pub differ1 : (succ1 == b) ≡ false
  pub differ0 : (succ0 == b) ≡ false

module _ (predicate_of : Instr → Option Predicate) (is_sgt : ℕ → ℕ → ℕ → Bool)
    (predecessors : List Block → ℕ → List ℕ) (delete_dead_block : ℕ → List Block → List Block) where
  abbrev target_of : Bool → ℕ → ℕ → ℕ
  target_of holds succ1 succ0 = if holds then succ0 else succ1

  abbrev other_of : Bool → ℕ → ℕ → ℕ
  other_of holds succ1 succ0 = if holds then succ1 else succ0

  goes-target_of :
      (holds : Bool) (env : ℕ → ℕ) (c succ1 succ0 : ℕ)
      → env c ≡ (if holds then 1 else 0)
      → goes env br (local c ∷ block succ1 ∷ block succ0 ∷ []) ≡ some (target_of holds succ1 succ0)
  goes-target_of true env c succ1 succ0 h = rw h refl
  goes-target_of false env c succ1 succ0 h = rw h refl

  targets_differ :
      (holds : Bool) (succ1 succ0 : ℕ)
      → (succ1 == succ0) ≡ false
      → (other_of holds succ1 succ0 == target_of holds succ1 succ0) ≡ false
  targets_differ true succ1 succ0 h = h
  targets_differ false succ1 succ0 h = ground (arith, h)

  other_of-other :
      (holds : Bool) (b succ1 succ0 : ℕ)
      → (succ1 == b) ≡ false
      → (succ0 == b) ≡ false
      → (other_of holds succ1 succ0 == b) ≡ false
  other_of-other true b succ1 succ0 h1 h0 = h1
  other_of-other false b succ1 succ0 h1 h0 = h0

  choose-fold :
      (bs : List Block) (b c succ1 succ0 : ℕ) (x : Block) (cmp : Instr) (w a d : ℕ)
      → IsConstantBranch predicate_of bs b c succ1 succ0 x cmp w a d
      → choose predicate_of is_sgt predecessors delete_dead_block bs x.term.kind x.term.operands
        ≡ fold c (target_of (is_sgt w a d) succ1 succ0) (other_of (is_sgt w a d) succ1 succ0)
  unfolding choose
  choose-fold bs b c succ1 succ0 x cmp w a d h = elim (Bool-cases (is_sgt w a d)) [
    | inl e ↦ rw (h.conditional, h.operands, choose, h.compares, h.greater, h.of_constants, e) refl
    | inr e ↦ rw (h.conditional, h.operands, choose, h.compares, h.greater, h.of_constants, e) refl
  ]

  fold_block-branch :
      (f : Folding) (b c target dead : ℕ) (x : Block)
      → find_block b f.blocks ≡ some x
      → choose predicate_of is_sgt predecessors delete_dead_block f.blocks x.term.kind
          x.term.operands
        ≡ fold c target dead
      → fold_block predicate_of is_sgt predecessors delete_dead_block b f
        ≡ fold_branch predicate_of is_sgt predecessors delete_dead_block b c target dead f
  unfolding fold_block
  fold_block-branch f b c target dead x found chosen = rw (fold_block, found) (rw chosen refl)

  -- In a state where a conditional branch's condition is the value of a comparison `sgt` of two
  -- constants, whose one use it is, and whose two successors differ from each other and from the
  -- branch's block: where `DeleteDeadBlock` removes a block that nothing branches to, keeps the others
  -- and adds neither uses nor branches to it, and the predecessors are all listed, the pass replaces the
  -- branch by one that goes to the same block, which is successor 0 where the comparison holds and
  -- successor 1 otherwise, and notes that block for copying; of the blocks that it leaves, none is the
  -- other successor, and none branches to that.
  pub fold_block-Folded :
      (f : Folding) (b c succ1 succ0 : ℕ) (x : Block) (cmp : Instr) (w a d : ℕ) (env : ℕ → ℕ)
      → IsDeletion delete_dead_block
      → IsConstantBranch predicate_of f.blocks b c succ1 succ0 x cmp w a d
      → ((k : ℕ) → Listed k (predecessors f.blocks k) f.blocks)
      → env c ≡ (if is_sgt w a d then 1 else 0)
      → let target = if is_sgt w a d then succ0 else succ1 in
        let dead = if is_sgt w a d then succ1 else succ0 in
        (goes env x.term.kind x.term.operands ≡ some target)
        × Folded env b dead target f
            (fold_block predicate_of is_sgt predecessors delete_dead_block b f)
  fold_block-Folded f b c succ1 succ0 x cmp w a d env deletes h listed holds =
      let target = target_of (is_sgt w a d) succ1 succ0 in
      let dead = if is_sgt w a d then succ1 else succ0 in
      let chosen = choose-fold f.blocks b c succ1 succ0 x cmp w a d h in
      (
        rw (h.conditional, h.operands) (goes-target_of (is_sgt w a d) env c succ1 succ0 holds),
        rw (fold_block-branch f b c target dead x h.found chosen) (
            fold_branch-Folded predicate_of is_sgt predecessors delete_dead_block deletes b c target
              dead f x env h.found h.only (listed dead)
              (other_of-other (is_sgt w a d) b succ1 succ0 h.differ1 h.differ0)
              (targets_differ (is_sgt w a d) succ1 succ0 h.differ)),
      )
