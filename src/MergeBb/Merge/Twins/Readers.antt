-- ===== src/MergeBb/Merge/Twins/Readers.antt =====
-- The values of two blocks that lib/MergeBB.cpp merges: nothing reads them but a phi of the successor.
use llvm_study.Base.{
  ℕ, ◌≡◌, refl, sym, ap, ◌∙◌, Bool, true, false, List, [], ◌∷◌, ◌++◌, some, ◌==◌, ==_iff, All,
  Bool-cases, inl, inr,
}
use mathlib.Core.Bool.{false≢true}
use mathlib.Core.Option.{none-ne-some, some-injective}
use mathlib.Core.Path.{subst}
use llvm_study.Ir.{Value, local, block, Kind, br, Instr, is_void}
use llvm_study.Containers.{address_eq}
use llvm_study.Cfg.{Block, value_eq, find_block, is_dbg, unconditional_target, mentions}
use llvm_study.Cfg.Uses.{Placed, num_uses, defines}
use llvm_study.Cfg.Uses.Laws.{reads, all_insts, IsUser, AreUsers, num_uses-AreUnread}
use llvm_study.Cfg.Named.{All-find_block, All-map, All-and, Everywhere-at, Everywhere-map}
use llvm_study.MergeBb.Lockstep.Laws.{non_dbg}
use package.llvm_study.MergeBb.{successor_of}
use package.llvm_study.MergeBb.Merge.Twins.{
  IsMeta, IsWellFormed, ReadBy, PhiOnly, AllTwins, Removable-PhiOnly,
}

pub All-non_dbg : (P : Instr → Type 0) (xs : List Instr) → All P xs → All P (non_dbg xs)
All-non_dbg P [] h = tt
All-non_dbg P (x ∷ xs) h = elim (Bool-cases (is_dbg x.kind)) [
  | inl e ↦ rw e (All-non_dbg P xs h.1)
  | inr e ↦ rw e (h.0, All-non_dbg P xs h.1)
]

-- Debug instructions apart.
pub non_dbg-All :
    (P : Instr → Type 0) (xs : List Instr)
    → All (λ (x : Instr). is_dbg x.kind ≡ true → P x) xs
    → All P (non_dbg xs)
    → All P xs
non_dbg-All P [] d h = tt
non_dbg-All P (x ∷ xs) d h = elim (Bool-cases (is_dbg x.kind)) [
  | inl e ↦ (d.0 e, non_dbg-All P xs d.1 (rw e at h))
  | inr e ↦ let g : P x × All P (non_dbg xs) = rw e at h in (g.0, non_dbg-All P xs d.1 g.1)
]

All-last :
    (P : Instr → Type 0) (xs : List Instr) (t : Instr) → All P xs → P t → All P (xs ++ t ∷ [])
All-last P [] t h k = (k, tt)
All-last P (x ∷ xs) t h k = (h.0, All-last P xs t h.1 k)

pub All-but_last :
    (P : Instr → Type 0) (xs : List Instr) (t : Instr) → All P (xs ++ t ∷ []) → All P xs
All-but_last P [] t h = tt
All-but_last P (x ∷ xs) t h = (h.0, All-but_last P xs t h.1)

pub unconditional-br :
    (k : Kind) (vs : List Value) (t : ℕ)
    → unconditional_target k vs ≡ some t
    → (k ≡ br) × (vs ≡ block t ∷ [])
unfolding unconditional_target
unconditional-br br (block b ∷ []) t h = (refl, ap (λ (c : ℕ). block c ∷ []) (some-injective b t h))
unconditional-br _ vs t h = absurd (none-ne-some t h)

unconditional-reads :
    (x : Instr) (t i : ℕ) → unconditional_target x.kind x.operands ≡ some t → reads x i ≡ false
unfolding value_eq
unconditional-reads x t i h = rw ((unconditional-br x.kind x.operands t h).1) refl

-- Two readers of one value in the two blocks: there is none.
twins-unread :
    (same_operation : Instr → Instr → Bool) (bs : List Block) (b1 b2 id : ℕ) (u : Placed)
    (xs ys : List Instr)
    → AllTwins same_operation bs b1 b2 xs ys
    → All (IsUser id u b1) xs
    → All (IsUser id u b2) ys
    → (b2 == b1) ≡ false
    → All (λ (x : Instr). reads x id ≡ false) xs × All (λ (y : Instr). reads y id ≡ false) ys
twins-unread same_operation bs b1 b2 id u [] [] twins h k ne = (tt, tt)
twins-unread same_operation bs b1 b2 id u [] (y ∷ ys) twins h k ne = absurd (false≢true twins)
twins-unread same_operation bs b1 b2 id u (x ∷ xs) [] twins h k ne = absurd (false≢true twins)
twins-unread same_operation bs b1 b2 id u (x ∷ xs) (y ∷ ys) twins h k ne =
    let same : reads x id ≡ reads y id =
      ap (λ (vs : List Value). mentions vs (local id)) twins.0.operands in
    let rest = twins-unread same_operation bs b1 b2 id u xs ys twins.1 h.1 k.1 ne in
    elim (Bool-cases (reads x id)) [
      | inr e ↦ ((e, rest.0), (sym same ∙ e, rest.1))
      | inl e ↦
          let at1 : b1 ≡ u.parent = (h.0 e).0 in
          let at2 : b2 ≡ u.parent = (k.0 (sym same ∙ e)).0 in
          absurd (false≢true (sym ne ∙ (==_iff b2 b1).1 (at2 ∙ sym at1)))
    ]

-- Two blocks that end in unconditional branches to `succ`, whose instructions are twins.
pub record AreTwins (same_operation : Instr → Instr → Bool) (bs : List Block) (succ : ℕ)
    (x y : Block) : Type 0 where
  pub found1 : find_block x.name bs ≡ some x
  pub found2 : find_block y.name bs ≡ some y
  pub differ : (y.name == x.name) ≡ false
  pub to1 : unconditional_target x.term.kind x.term.operands ≡ some succ
  pub to2 : unconditional_target y.term.kind y.term.operands ≡ some succ
  pub twins : AllTwins same_operation bs x.name y.name (non_dbg x.insts) (non_dbg y.insts)

module _ (same_operation : Instr → Instr → Bool) (bs : List Block) (rules : IsWellFormed bs)
    (succ : ℕ) (x y : Block) (t : AreTwins same_operation bs succ x y) where
  -- Debug instructions and the terminator read nothing either.
  unread-block :
      (b : Block) (id : ℕ)
      → find_block b.name bs ≡ some b
      → unconditional_target b.term.kind b.term.operands ≡ some succ
      → All (λ (z : Instr). reads z id ≡ false) (non_dbg b.insts)
      → All (λ (z : Instr). reads z id ≡ false) (all_insts b)
  unread-block b id found to h =
      All-last _ b.insts b.term
        (non_dbg-All _ b.insts
          (All-map IsMeta _ b.insts (λ z g d. (g d).1 id)
            (All-find_block (λ (z : Block). All IsMeta z.insts) b.name bs b found rules.debug))
          h)
        (unconditional-reads b.term succ id to)

  pub outside :
      (id : ℕ) (u : Placed)
      → AreUsers id u bs
      → All (λ (z : Instr). reads z id ≡ false) (all_insts x)
        × All (λ (z : Instr). reads z id ≡ false) (all_insts y)
  outside id u users =
      let users1 =
        All-non_dbg _ x.insts (
          All-but_last _ x.insts x.term (Everywhere-at (IsUser id u) x.name bs x t.found1 users)) in
      let users2 =
        All-non_dbg _ y.insts (
          All-but_last _ y.insts y.term (Everywhere-at (IsUser id u) y.name bs y t.found2 users)) in
      let unread =
        twins-unread same_operation bs x.name y.name id u (non_dbg x.insts) (non_dbg y.insts)
          t.twins users1 users2 t.differ in
      (unread-block x id t.found1 t.to1 unread.0, unread-block y id t.found2 t.to2 unread.1)

  pub successor :
      (b : Block)
      → find_block b.name bs ≡ some b
      → unconditional_target b.term.kind b.term.operands ≡ some succ
      → successor_of bs b.name ≡ some succ
  unfolding successor_of
  successor b found to = rw (successor_of, found) to

  twins-PhiOnly :
      (xs ys : List Instr)
      → AllTwins same_operation bs x.name y.name xs ys
      → All (λ (z : Instr). PhiOnly bs succ x.name z.id) xs
        × All (λ (z : Instr). PhiOnly bs succ y.name z.id) ys
  twins-PhiOnly [] [] twins = (tt, tt)
  twins-PhiOnly [] (b ∷ ys) twins = absurd (false≢true twins)
  twins-PhiOnly (a ∷ xs) [] twins = absurd (false≢true twins)
  twins-PhiOnly (a ∷ xs) (b ∷ ys) twins =
      let rest = twins-PhiOnly xs ys twins.1 in
      (
        (
          Removable-PhiOnly bs succ x.name a x rules.named t.found1 (successor x t.found1 t.to1)
              twins.0.first (λ u users. (outside a.id u users).0),
          rest.0,
        ),
        (
          Removable-PhiOnly bs succ y.name b y rules.named t.found2 (successor y t.found2 t.to2)
              twins.0.second (λ u users. (outside b.id u users).1),
          rest.1,
        ),
      )

  -- Debug instructions have no uses at all.
  block-PhiOnly :
      (b : Block)
      → find_block b.name bs ≡ some b
      → All (λ (z : Instr). PhiOnly bs succ b.name z.id) (non_dbg b.insts)
      → All (λ (z : Instr). PhiOnly bs succ b.name z.id) b.insts
  block-PhiOnly b found h =
      let void = All-find_block (λ (z : Block). All IsMeta z.insts) b.name bs b found rules.debug in
      let unused =
        All-find_block
          (λ (z : Block). All (λ (w : Instr). is_void w.ty ≡ true → num_uses w.id bs ≡ 0) z.insts)
          b.name bs b found rules.void_unused in
      non_dbg-All _ b.insts
        (All-map _ _ b.insts
          (λ z g d.
            Everywhere-map (λ c w. reads w z.id ≡ false) (ReadBy succ b.name z.id) bs
              (λ c w unread r. absurd (false≢true (sym unread ∙ r)))
              (num_uses-AreUnread z.id bs (g.1 (g.0 d).0)))
          (All-and _ _ b.insts void unused))
        h

  defines-PhiOnly :
      (b id : ℕ) (xs : List Instr)
      → All (λ (z : Instr). PhiOnly bs succ b z.id) xs
      → defines xs id ≡ true
      → PhiOnly bs succ b id
  defines-PhiOnly b id [] h d = absurd (false≢true d)
  defines-PhiOnly b id (z ∷ zs) h d = elim (Bool-cases (z.id == id)) [
    | inl e ↦ subst (λ (i : ℕ). PhiOnly bs succ b i) ((==_iff z.id id).0 e) h.0
    | inr e ↦ defines-PhiOnly b id zs h.1 (rw e at d)
  ]

  -- The values of the first block are read by phis of the successor only, for the edge from it.
  pub first-PhiOnly : (id : ℕ) → defines x.insts id ≡ true → PhiOnly bs succ x.name id
  first-PhiOnly id =
      defines-PhiOnly x.name id x.insts
        (block-PhiOnly x t.found1 (twins-PhiOnly (non_dbg x.insts) (non_dbg y.insts) t.twins).0)

  pub second-PhiOnly : (id : ℕ) → defines y.insts id ≡ true → PhiOnly bs succ y.name id
  second-PhiOnly id =
      defines-PhiOnly y.name id y.insts
        (block-PhiOnly y t.found2 (twins-PhiOnly (non_dbg x.insts) (non_dbg y.insts) t.twins).1)
