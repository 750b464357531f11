-- ===== src/MergeBb/Merge/Twins/Crossing.antt =====
-- One of two merged blocks of lib/MergeBB.cpp in place of the other: up to the phi that follows.
use llvm_study.Base.{
  ℕ, ◌≡◌, refl, sym, ap, ◌∙◌, Bool, true, false, List, [], ◌∷◌, ◌++◌, some, ◌==◌, ==_iff, All,
  Bool-cases, inl, inr, arith,
}
use mathlib.Core.Bool.{false≢true}
use mathlib.Core.Path.{subst}
use llvm_study.Ir.{Kind, Instr}
use llvm_study.Ir.Exec.{Machine, State, exec_all}
use llvm_study.Containers.{address_eq}
use llvm_study.Cfg.{Block, find_block, is_phi, is_dbg}
use llvm_study.Cfg.Uses.{defines}
use llvm_study.Cfg.Named.{All-find_block, All-map, All-and}
use llvm_study.Duplicate.Whole.{phis_of, after_phis}
use llvm_study.MergeBb.Lockstep.Laws.{non_dbg}
use llvm_study.MergeBb.Steps.Alike.{Unread, Alike}
use package.llvm_study.MergeBb.Merge.Twins.{IsDistinct, IsMeta, IsWellFormed, AllTwins}
use package.llvm_study.MergeBb.Merge.Twins.Readers.{
  All-non_dbg, non_dbg-All, All-but_last, AreTwins,
}
use package.llvm_study.MergeBb.Merge.Twins.Hidden.{hidden, block-Unread}
use package.llvm_study.MergeBb.Merge.Twins.Exec.{
  IsSilent, IsSound, exec_all-non_dbg, SameResults, IsInner, twins-exec,
}

-- No phis.
abbrev pub IsPhiFree : List Instr → Type 0
IsPhiFree zs = All (λ (z : Instr). is_phi z.kind ≡ false) zs

pub after_phis-free : (zs : List Instr) → IsPhiFree zs → after_phis zs ≡ zs
unfolding after_phis
after_phis-free [] h = refl
after_phis-free (z ∷ zs) h = rw (h.0) refl

pub phis_of-free : (zs : List Instr) → IsPhiFree zs → phis_of zs ≡ []
unfolding phis_of
phis_of-free [] h = refl
phis_of-free (z ∷ zs) h = rw (h.0) refl

dbg_no_phi : (k : Kind) → is_dbg k ≡ true → is_phi k ≡ false
dbg_no_phi k h = ground arith

IsPhiFree-twins :
    (same_operation : Instr → Instr → Bool) (bs : List Block) (b1 b2 : ℕ) (xs ys : List Instr)
    → IsSound same_operation
    → AllTwins same_operation bs b1 b2 xs ys
    → IsPhiFree xs
    → IsPhiFree ys
IsPhiFree-twins same_operation bs b1 b2 [] [] sound twins h = tt
IsPhiFree-twins same_operation bs b1 b2 [] (y ∷ ys) sound twins h = absurd (false≢true twins)
IsPhiFree-twins same_operation bs b1 b2 (x ∷ xs) [] sound twins h = absurd (false≢true twins)
IsPhiFree-twins same_operation bs b1 b2 (x ∷ xs) (y ∷ ys) sound twins h = (
  ap is_phi (sym (sound x y twins.0.same_op h.0).0) ∙ h.0,
  IsPhiFree-twins same_operation bs b1 b2 xs ys sound twins.1 h.1,
)

non_dbg-distinct : (zs : List Instr) → IsDistinct zs → IsDistinct (non_dbg zs)
non_dbg-distinct [] h = tt
non_dbg-distinct (z ∷ zs) h = elim (Bool-cases (is_dbg z.kind)) [
  | inl e ↦ rw e (non_dbg-distinct zs h.1)
  | inr e ↦ rw e (non_dbg-undefined zs z.id h.0, non_dbg-distinct zs h.1)
]
  where
    non_dbg-undefined :
        (ws : List Instr) (i : ℕ) → defines ws i ≡ false → defines (non_dbg ws) i ≡ false
    non_dbg-undefined [] i g = refl
    non_dbg-undefined (w ∷ ws) i g = elim (Bool-cases (w.id == i)) [
      | inl e ↦ absurd (false≢true (sym (rw e at g)))
      | inr e ↦ elim (Bool-cases (is_dbg w.kind)) [
        | inl e' ↦ rw e' (non_dbg-undefined ws i (rw e at g))
        | inr e' ↦ rw e' (rw e (non_dbg-undefined ws i (rw e at g)))
      ]
    ]

defines-own : (zs : List Instr) → All (λ (z : Instr). defines zs z.id ≡ true) zs
defines-own [] = tt
defines-own (z ∷ zs) = (
  rw ((==_iff z.id z.id).1 refl) refl,
  All-map _ _ zs (λ w g. ground (arith, g)) (defines-own zs),
)

module _ (same_operation : Instr → Instr → Bool) (sound : IsSound same_operation) (bs : List Block)
    (rules : IsWellFormed bs) (succ : ℕ) (x y : Block) (t : AreTwins same_operation bs succ x y)
    (free : IsPhiFree x.insts) where
  abbrev hides : ℕ → Bool
  hides = hidden same_operation bs rules succ x y t

  pub found-IsMeta : (b : Block) → find_block b.name bs ≡ some b → All IsMeta b.insts
  found-IsMeta b found =
      All-find_block (λ (z : Block). All IsMeta z.insts) b.name bs b found rules.debug

  distinct_of : (b : Block) → find_block b.name bs ≡ some b → IsDistinct (non_dbg b.insts)
  distinct_of b found =
      non_dbg-distinct b.insts
        (All-find_block (λ (z : Block). IsDistinct z.insts) b.name bs b found rules.distinct)

  -- The second block has no phis either.
  pub second-IsPhiFree : IsPhiFree y.insts
  second-IsPhiFree =
      non_dbg-All (λ (z : Instr). is_phi z.kind ≡ false) y.insts
        (All-map IsMeta _ y.insts (λ z g d. dbg_no_phi z.kind d) (found-IsMeta y t.found2))
        (IsPhiFree-twins same_operation bs x.name y.name (non_dbg x.insts) (non_dbg y.insts) sound
          t.twins (All-non_dbg (λ (z : Instr). is_phi z.kind ≡ false) x.insts free))

  first-IsInner : All (IsInner hides) (non_dbg x.insts)
  first-IsInner =
      let unread : All (λ (z : Instr). Unread hides z.operands) x.insts =
        All-but_last _ x.insts x.term (
          subst
            (λ (zs : List Instr). All (λ (z : Instr). Unread hides z.operands) (zs ++ x.term ∷ []))
            (after_phis-free x.insts free)
            (block-Unread same_operation bs rules succ x y t x.name x t.found1)) in
      All-non_dbg _ x.insts (
        All-map _ _ x.insts (λ z k. (k.0, k.1.0, ground (arith, k.1.1)))
          (All-and _ _ x.insts free (All-and _ _ x.insts unread (defines-own x.insts))))

  second-hidden : All (λ (z : Instr). hides z.id ≡ true) (non_dbg y.insts)
  second-hidden =
      All-non_dbg _ y.insts (All-map _ _ y.insts (λ z g. ground (arith, g)) (defines-own y.insts))

  module _ (m : Machine) (silent : IsSilent m) where
    abbrev pub Crossed : State m.Mem → State m.Mem → Type 0
    Crossed s u = Alike m hides s u × SameResults s.env u.env (non_dbg x.insts) (non_dbg y.insts)

    -- The first block in one state, the second in the other.
    pub cross-exec :
        (s u : State m.Mem)
        → Alike m hides s u
        → Crossed (exec_all m x.insts s) (exec_all m y.insts u)
    cross-exec s u a =
        rw
          (
            exec_all-non_dbg m x.insts s silent (found-IsMeta x t.found1),
            exec_all-non_dbg m y.insts u silent (found-IsMeta y t.found2),
          )
          (twins-exec m same_operation sound bs x.name y.name hides (non_dbg x.insts)
            (non_dbg y.insts) s u t.twins first-IsInner second-hidden (distinct_of x t.found1)
            (distinct_of y t.found2) a)
