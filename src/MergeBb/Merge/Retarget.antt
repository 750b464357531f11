-- ===== src/MergeBb/Merge/Retarget.antt =====
-- `replaceBB` of lib/MergeBB.cpp: which blocks nothing branches to after it.
use llvm_study.Base.{ℕ, ◌≡◌, refl, true, false, List, [], ◌∷◌, ◌==◌, ==_iff, All, arith}
use llvm_study.Ir.{Value, block}
use llvm_study.Containers.{address_eq, has}
use llvm_study.Cfg.{Block, value_eq, mentions, branches_to}
use package.llvm_study.MergeBb.Merge.{set_targets, retarget, replace_bb}

value_eq-block : (a b : ℕ) → value_eq (block a) (block b) ≡ (a == b)
unfolding value_eq
value_eq-block a b = refl

-- After the operand loop no operand is the erased block.
pub mentions-set_targets :
    (erase retain : ℕ) (vs : List Value)
    → (retain == erase) ≡ false
    → mentions (set_targets erase retain vs) (block erase) ≡ false
mentions-set_targets erase retain [] ne = refl
mentions-set_targets erase retain (v ∷ vs) ne =
    ground (arith, mentions-set_targets erase retain vs ne, value_eq-block retain erase)

-- It brings in no block but the retained one.
mentions-set_targets_other :
    (erase retain d : ℕ) (vs : List Value)
    → (retain == d) ≡ false
    → mentions vs (block d) ≡ false
    → mentions (set_targets erase retain vs) (block d) ≡ false
mentions-set_targets_other erase retain d [] ne h = refl
mentions-set_targets_other erase retain d (v ∷ vs) ne h =
    ground (arith, mentions-set_targets_other erase retain d vs ne, value_eq-block retain d)

-- Nothing branches to the block.
abbrev pub IsDead : ℕ → List Block → Type 0
IsDead d bs = All (λ (x : Block). branches_to x d ≡ false) bs

IsDead-retarget :
    (p erase retain d : ℕ) (bs : List Block)
    → (retain == d) ≡ false
    → IsDead d bs
    → IsDead d (retarget p erase retain bs)
IsDead-retarget p erase retain d [] ne h = tt
IsDead-retarget p erase retain d (x ∷ xs) ne h = (
  ground (arith, mentions-set_targets_other erase retain d x.term.operands ne h.0, h.0),
  IsDead-retarget p erase retain d xs ne h.1,
)

pub IsDead-replace_bb :
    (ps : List ℕ) (erase retain d : ℕ) (bs : List Block)
    → (retain == d) ≡ false
    → IsDead d bs
    → IsDead d (replace_bb ps erase retain bs)
unfolding replace_bb
IsDead-replace_bb [] erase retain d bs ne h = h
IsDead-replace_bb (p ∷ ps) erase retain d bs ne h =
    IsDead-replace_bb ps erase retain d (retarget p erase retain bs) ne
      (IsDead-retarget p erase retain d bs ne h)

-- Every block that branches to `d` is listed.
abbrev pub Listed : ℕ → List ℕ → List Block → Type 0
Listed d ps bs = All (λ (x : Block). branches_to x d ≡ true → has x.name ps ≡ true) bs

Listed-retarget :
    (p erase retain : ℕ) (ps : List ℕ) (bs : List Block)
    → (retain == erase) ≡ false
    → Listed erase (p ∷ ps) bs
    → Listed erase ps (retarget p erase retain bs)
unfolding has
Listed-retarget p erase retain ps [] ne h = tt
Listed-retarget p erase retain ps (x ∷ xs) ne h = (
  ground (
    arith,
    h.0,
    mentions-set_targets erase retain x.term.operands ne,
    ==_iff x.name p,
    ==_iff p x.name,
  ),
  Listed-retarget p erase retain ps xs ne h.1,
)

Listed-nil : (d : ℕ) (bs : List Block) → Listed d [] bs → IsDead d bs
unfolding has
Listed-nil d [] h = tt
Listed-nil d (x ∷ xs) h = (ground (arith, h.0), Listed-nil d xs h.1)

-- After `replaceBB` nothing branches to the erased block.
pub IsDead-erased :
    (ps : List ℕ) (erase retain : ℕ) (bs : List Block)
    → (retain == erase) ≡ false
    → Listed erase ps bs
    → IsDead erase (replace_bb ps erase retain bs)
unfolding replace_bb
IsDead-erased [] erase retain bs ne h = Listed-nil erase bs h
IsDead-erased (p ∷ ps) erase retain bs ne h =
    IsDead-erased ps erase retain (retarget p erase retain bs) ne
      (Listed-retarget p erase retain ps bs ne h)
