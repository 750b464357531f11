-- ===== src/MergeBb/Merge/Twins.antt =====
-- The instructions of two blocks that `canMergeInstructions` of lib/MergeBB.cpp accepts pair by pair:
-- who reads their values.
pub mod Readers
pub mod Hidden
pub mod Exec
pub mod Edges
pub mod Crossing
pub mod Phi
pub mod Values
use llvm_study.Base.{
  ℕ, ◌+◌, ◌≤◌, ◌<◌, ◌≡◌, refl, sym, ap, ap₂, ◌∙◌, Bool, true, false, not, ◌&&◌, ◌||◌, List, [], ◌∷◌,
  ◌++◌, Option, none, some, ◌==◌, ==_iff, if◌then◌else◌, All, Bool-cases, Option-cases, inl, inr,
  ◌⊎◌, arith,
}
use mathlib.Core.Bool.{false≢true}
use llvm_study.Ir.{Value, local, block, Kind, br, Instr, is_void}
use llvm_study.Containers.{address_eq}
use llvm_study.Cfg.{
  Block, value_eq, value_eq_iff, find_block, is_phi, is_dbg, incoming_value, unconditional_target,
  mentions,
}
use llvm_study.Cfg.Uses.{Placed, count_operands, num_uses, the_user, defines}
use llvm_study.Cfg.Uses.Laws.{
  reads, all_insts, IsUser, AreUsers, the_user-AreUsers, num_uses-AreUnread, num_uses-member,
}
use llvm_study.Cfg.Named.{
  IsNamed, Everywhere, Everywhere-at, Everywhere-map, Everywhere-only, Everywhere-and,
}
use llvm_study.Duplicate.Whole.{after_phis}
use llvm_study.MergeBb.Lockstep.Laws.{non_dbg, all_merge}
use package.llvm_study.MergeBb.{
  same_operands, successor_of, can_remove_inst, can_merge_instructions, is_some_of, is_value,
}

-- Every instruction has a number of its own.
abbrev pub IsDistinct : List Instr → Type 0
IsDistinct [] = Unit
IsDistinct (x ∷ xs) = (defines xs x.id ≡ false) × IsDistinct xs

-- A debug instruction has no result, and its operands are metadata.
abbrev pub IsMeta : Instr → Type 0
IsMeta x = is_dbg x.kind ≡ true → (is_void x.ty ≡ true) × ((i : ℕ) → reads x i ≡ false)

-- Rules of LLVM's IR: blocks and the instructions of a block are told apart, debug instructions have
-- neither results nor values as operands, an instruction without a result has no uses, and phis stand
-- at the start of a block.
pub record IsWellFormed (bs : List Block) : Type 0 where
  pub named : IsNamed bs bs
  pub distinct : All (λ (y : Block). IsDistinct y.insts) bs
  pub debug : All (λ (y : Block). All IsMeta y.insts) bs
  pub void_unused :
      All
        (λ (y : Block). All (λ (x : Instr). is_void x.ty ≡ true → num_uses x.id bs ≡ 0) y.insts)
        bs
  pub phis_first :
      All
        (λ (y : Block).
          All (λ (x : Instr). is_phi x.kind ≡ false) (after_phis y.insts ++ y.term ∷ []))
        bs

same_operands-eq : (xs ys : List Value) → same_operands xs ys ≡ true → xs ≡ ys
same_operands-eq [] [] h = refl
same_operands-eq [] (y ∷ ys) h = absurd (false≢true h)
same_operands-eq (x ∷ xs) [] h = absurd (false≢true h)
same_operands-eq (x ∷ xs) (y ∷ ys) h =
    ap₂ ◌∷◌ (sym ((value_eq_iff y x).0 (ground arith))) (same_operands-eq xs ys (ground arith))

-- The only reader is a phi of the block `succ`, for the edge from the block `b`.
abbrev pub ReadBy : ℕ → ℕ → ℕ → ℕ → Instr → Type 0
ReadBy succ b id c z =
    reads z id ≡ true
    → (c ≡ succ)
      × (is_phi z.kind ≡ true)
      × (incoming_value z b ≡ some (local id))
      × (count_operands (local id) z.operands ≤ 1)

abbrev pub PhiOnly : List Block → ℕ → ℕ → ℕ → Type 0
PhiOnly bs succ b id = Everywhere (ReadBy succ b id) bs

-- What `canMergeInstructions` wants of an instruction of the block `b`.
abbrev pub Removable : List Block → ℕ → Instr → Type 0
Removable bs b x =
    (num_uses x.id bs ≡ 0) ⊎ ((num_uses x.id bs ≡ 1) × (can_remove_inst bs b x ≡ true))

pub record Twin (same_operation : Instr → Instr → Bool) (bs : List Block) (b1 b2 : ℕ) (x y : Instr)
    : Type 0 where
  pub same_op : same_operation x y ≡ true
  pub operands : x.operands ≡ y.operands
  pub same_uses : num_uses x.id bs ≡ num_uses y.id bs
  pub first : Removable bs b1 x
  pub second : Removable bs b2 y

-- The tests of `canMergeInstructions`, for the numbers of uses and the results of the other tests.
abbrev Verdict : Bool → Bool → Bool → Bool → ℕ → ℕ → Type 0
Verdict op ops r1 r2 n1 n2 =
    (op ≡ true)
    × (ops ≡ true)
    × (n1 ≡ n2)
    × ((n1 ≡ 0) ⊎ ((n1 ≡ 1) × (r1 ≡ true)))
    × ((n2 ≡ 0) ⊎ ((n2 ≡ 1) × (r2 ≡ true)))

read-Verdict :
    (op ops r1 r2 : Bool) (n1 n2 : ℕ)
    → (op
        && (if not (n1 == 0) then n1 == 1 && n2 == 1 else n1 == 0 && n2 == 0)
        && (if not (n1 == 0) then r1 && r2 else true)
        && ops)
      ≡ true
    → Verdict op ops r1 r2 n1 n2
read-Verdict op ops r1 r2 n1 n2 h = elim (Bool-cases (n1 == 0)) [
  | inl e ↦
      let g = rw e at h in
      (ground arith, ground arith, ground arith, inl (ground arith), inl (ground arith))
  | inr e ↦
      let g = rw e at h in
      (
        ground arith,
        ground arith,
        ground arith,
        inr (ground arith, ground arith),
        inr (ground arith, ground arith),
      )
]

can_merge-Twin :
    (same_operation : Instr → Instr → Bool) (bs : List Block) (b1 b2 : ℕ) (x y : Instr)
    → can_merge_instructions same_operation bs b1 b2 x y ≡ true
    → Twin same_operation bs b1 b2 x y
unfolding can_merge_instructions
can_merge-Twin same_operation bs b1 b2 x y h =
    let passed =
      read-Verdict (same_operation x y) (same_operands x.operands y.operands)
        (can_remove_inst bs b1 x) (can_remove_inst bs b2 y) (num_uses x.id bs) (num_uses y.id bs)
        h in
    let (same_op, same_ops, same_uses, first, second) = passed in
    record {
      same_op = same_op;
      operands = same_operands-eq x.operands y.operands same_ops;
      same_uses = same_uses;
      first = first;
      second = second;
    }

pub phi_fits :
    (p q r here : Bool)
    → (p && q && r || here) ≡ true
    → here ≡ false
    → (p ≡ true) × (q ≡ true) × (r ≡ true)
phi_fits p q r here h e = (ground arith, ground arith, ground arith)

pub is_value-some : (o : Option Value) (v : Value) → is_value o v ≡ true → o ≡ some v
is_value-some none v h = absurd (false≢true h)
is_value-some (some w) v h = ap (λ (x : Value). some x) ((value_eq_iff w v).0 h)

pub Removable-PhiOnly :
    (bs : List Block) (succ b : ℕ) (x : Instr) (y : Block)
    → IsNamed bs bs
    → find_block b bs ≡ some y
    → successor_of bs b ≡ some succ
    → Removable bs b x
    → ((u : Placed) → AreUsers x.id u bs → All (λ (z : Instr). reads z x.id ≡ false) (all_insts y))
    → PhiOnly bs succ b x.id
unfolding can_remove_inst
Removable-PhiOnly bs succ b x y named found to (inl unused) outside =
    Everywhere-map (λ c z. reads z x.id ≡ false) (ReadBy succ b x.id) bs
      (λ c z none r. absurd (false≢true (sym none ∙ r))) (num_uses-AreUnread x.id bs unused)
Removable-PhiOnly bs succ b x y named found to (inr (once, removable)) outside =
    elim (Option-cases (the_user x.id bs)) [
      | inl e ↦ absurd (false≢true (rw (can_remove_inst, e) at removable))
      | inr (u, e) ↦
          let users = the_user-AreUsers x.id bs u once e in
          let known =
            Everywhere-and (IsUser x.id u)
              (λ c z. (c ≡ b → reads z x.id ≡ false) × (count_operands (local x.id) z.operands ≤ 1))
              bs users
              (Everywhere-and (λ c z. c ≡ b → reads z x.id ≡ false)
                (λ c z. count_operands (local x.id) z.operands ≤ 1) bs
                (Everywhere-only (λ z. reads z x.id ≡ false) b bs y found named (outside u users))
                (num_uses-member x.id 1 bs (omega arith))) in
          let test = rw (can_remove_inst, e, to) at removable in
          Everywhere-map _ (ReadBy succ b x.id) bs
            (λ c z k r.
              let (parent, this) = k.0 r in
              let not_here : (u.parent == b) ≡ false = elim (Bool-cases (u.parent == b)) [
                | inr e' ↦ e'
                | inl e' ↦ absurd (false≢true (sym (k.1.0 (parent ∙ (==_iff u.parent b).0 e')) ∙ r))
              ] in
              let fits =
                phi_fits (is_phi u.inst.kind) (succ == u.parent) _ (u.parent == b) test not_here in
              (
                parent ∙ sym ((==_iff succ u.parent).0 fits.1),
                ap (λ (w : Instr). is_phi w.kind) this ∙ fits.0,
                ap (λ (w : Instr). incoming_value w b) this
                    ∙ is_value-some (incoming_value u.inst b) (local x.id) fits.2,
                k.1.1,
              ))
            known
    ]

-- Pair by pair.
abbrev pub AllTwins : (Instr → Instr → Bool) → List Block → ℕ → ℕ → List Instr → List Instr → Type 0
AllTwins same_operation bs b1 b2 [] [] = Unit
AllTwins same_operation bs b1 b2 (x ∷ xs) (y ∷ ys) =
    Twin same_operation bs b1 b2 x y × AllTwins same_operation bs b1 b2 xs ys
AllTwins same_operation bs b1 b2 _ _ = false ≡ true

pub all_merge-AllTwins :
    (same_operation : Instr → Instr → Bool) (bs : List Block) (b1 b2 : ℕ) (xs ys : List Instr)
    → all_merge (can_merge_instructions same_operation bs b1 b2) xs ys ≡ true
    → AllTwins same_operation bs b1 b2 xs ys
all_merge-AllTwins same_operation bs b1 b2 [] [] h = tt
all_merge-AllTwins same_operation bs b1 b2 [] (y ∷ ys) h = h
all_merge-AllTwins same_operation bs b1 b2 (x ∷ xs) [] h = h
all_merge-AllTwins same_operation bs b1 b2 (x ∷ xs) (y ∷ ys) h = (
  can_merge-Twin same_operation bs b1 b2 x y (ground arith),
  all_merge-AllTwins same_operation bs b1 b2 xs ys (ground arith),
)
