-- ===== src/Cfg/Named.antt =====
-- Blocks and their names.
use llvm_study.Base.{
  ℕ, ◌≡◌, sym, ap, ◌∙◌, false, List, [], ◌∷◌, some, ◌==◌, ==_iff, All, Bool-cases, inl, inr, arith,
}
use mathlib.Core.Option.{none-ne-some, some-injective}
use mathlib.Core.Path.{subst}
use llvm_study.Ir.{Instr}
use llvm_study.Containers.{address_eq}
use package.llvm_study.Cfg.{Block, find_block}
use package.llvm_study.Cfg.Uses.Laws.{all_insts}

pub find_block-name : (b : ℕ) (bs : List Block) (x : Block) → find_block b bs ≡ some x → x.name ≡ b
unfolding find_block
find_block-name b [] x h = ground arith
find_block-name b (y ∷ ys) x h = ground (arith, find_block-name b ys x)

-- What holds of all blocks holds of the one that is found.
pub All-find_block :
    (P : Block → Type 0) (b : ℕ) (bs : List Block) (x : Block)
    → find_block b bs ≡ some x
    → All P bs
    → P x
unfolding find_block
All-find_block P b [] x h all = absurd (none-ne-some x h)
All-find_block P b (y ∷ ys) x h all = elim (Bool-cases (y.name == b)) [
  | inl e ↦ subst P (some-injective y x (rw e at h)) all.0
  | inr e ↦ All-find_block P b ys x (rw e at h) all.1
]

-- Every block of the list is the one that is found under its name.
abbrev pub IsNamed : List Block → List Block → Type 0
IsNamed bs xs = All (λ (x : Block). find_block x.name bs ≡ some x) xs

-- It holds of every instruction of the function, in its block.
abbrev pub Everywhere : (ℕ → Instr → Type 0) → List Block → Type 0
Everywhere P bs = All (λ (y : Block). All (P y.name) (all_insts y)) bs

pub Everywhere-at :
    (P : ℕ → Instr → Type 0) (b : ℕ) (bs : List Block) (x : Block)
    → find_block b bs ≡ some x
    → Everywhere P bs
    → All (P b) (all_insts x)
Everywhere-at P b bs x h all =
    subst (λ (c : ℕ). All (P c) (all_insts x)) (find_block-name b bs x h)
      (All-find_block (λ (y : Block). All (P y.name) (all_insts y)) b bs x h all)

pub All-map :
    {A : Type 0} (P Q : A → Type 0) (xs : List A) → ((x : A) → P x → Q x) → All P xs → All Q xs
All-map P Q [] f h = tt
All-map P Q (x ∷ xs) f h = (f x h.0, All-map P Q xs f h.1)

pub Everywhere-map :
    (P Q : ℕ → Instr → Type 0) (bs : List Block)
    → ((b : ℕ) (x : Instr) → P b x → Q b x)
    → Everywhere P bs
    → Everywhere Q bs
Everywhere-map P Q bs f h =
    All-map _ _ bs (λ y g. All-map (P y.name) (Q y.name) (all_insts y) (f y.name) g) h

-- What holds of the instructions of one block, said of the whole function.
pub Everywhere-only :
    (P : Instr → Type 0) (b : ℕ) (bs : List Block) (s : Block)
    → find_block b bs ≡ some s
    → IsNamed bs bs
    → All P (all_insts s)
    → Everywhere (λ c x. c ≡ b → P x) bs
Everywhere-only P b bs s h named all =
    All-map _ _ bs
      (λ y found. elim (Bool-cases (y.name == b)) [
        | inl e ↦
            let same : y ≡ s =
              some-injective y s
                (sym found ∙ ap (λ (c : ℕ). find_block c bs) ((==_iff y.name b).0 e) ∙ h) in
            All-map P _ (all_insts y) (λ x g q. g)
              (subst (λ (z : Block). All P (all_insts z)) (sym same) all)
        | inr e ↦ never y e (all_insts y)
      ])
      named
  where
    never :
        (y : Block)
        → (y.name == b) ≡ false
        → (xs : List Instr) → All (λ (x : Instr). y.name ≡ b → P x) xs
    never y e [] = tt
    never y e (x ∷ xs) = (λ q. absurd (ground (arith, ==_iff y.name b)), never y e xs)

pub All-and :
    {A : Type 0} (P Q : A → Type 0) (xs : List A) → All P xs → All Q xs → All (λ x. P x × Q x) xs
All-and P Q [] h g = tt
All-and P Q (x ∷ xs) h g = ((h.0, g.0), All-and P Q xs h.1 g.1)

pub Everywhere-and :
    (P Q : ℕ → Instr → Type 0) (bs : List Block)
    → Everywhere P bs
    → Everywhere Q bs
    → Everywhere (λ b x. P b x × Q b x) bs
Everywhere-and P Q bs h g =
    All-map _ _ bs (λ y k. All-and (P y.name) (Q y.name) (all_insts y) k.0 k.1) (All-and _ _ bs h g)
