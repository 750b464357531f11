-- ===== src/Cfg/Uses/Laws.antt =====
-- A value with one use: which instructions have it as an operand.
use llvm_study.Base.{
  ℕ, ◌+◌, ◌≤◌, ◌<◌, ◌≡◌, refl, sym, ap, ◌∙◌, Bool, true, false, List, [], ◌∷◌, ◌++◌, Option, none,
  some, ◌==◌, All, Bool-cases, Option-cases, inl, inr, arith,
}
use mathlib.Core.Bool.{false≢true}
use mathlib.Core.Path.{subst}
use mathlib.Core.Option.{some-injective, none-ne-some}
use llvm_study.Ir.{Value, local, Instr}
use package.llvm_study.Cfg.{Block, mentions}
use package.llvm_study.Cfg.Uses.{
  Placed, count_operands, uses_in, num_uses, user_in, or_else, the_user,
}

-- The instruction has the value as an operand.
abbrev pub reads : Instr → ℕ → Bool
reads x id = mentions x.operands (local id)

-- All instructions of a block, its terminator the last.
abbrev pub all_insts : Block → List Instr
all_insts b = b.insts ++ b.term ∷ []

count_operands-zero :
    (v : Value) (vs : List Value) → count_operands v vs ≡ 0 → mentions vs v ≡ false
unfolding count_operands
count_operands-zero v [] h = refl
count_operands-zero v (x ∷ xs) h = ground (arith, count_operands-zero v xs)

count_operands-unread :
    (v : Value) (vs : List Value) → mentions vs v ≡ false → count_operands v vs ≡ 0
unfolding count_operands
count_operands-unread v [] h = refl
count_operands-unread v (x ∷ xs) h = ground (arith, count_operands-unread v xs)

pub count_operands-positive :
    (v : Value) (vs : List Value) → mentions vs v ≡ true → 0 < count_operands v vs
unfolding count_operands
count_operands-positive v [] h = absurd (false≢true h)
count_operands-positive v (x ∷ xs) h = ground (arith, count_operands-positive v xs)

uses_in-snoc :
    (v : Value) (xs : List Instr) (t : Instr)
    → uses_in v (xs ++ t ∷ []) ≡ uses_in v xs + count_operands v t.operands
unfolding uses_in
uses_in-snoc v [] t = omega arith
uses_in-snoc v (x ∷ xs) t = omega (arith, uses_in-snoc v xs t)

uses_in-zero :
    (id : ℕ) (xs : List Instr)
    → uses_in (local id) xs ≡ 0
    → All (λ (x : Instr). reads x id ≡ false) xs
unfolding uses_in
uses_in-zero id [] h = tt
uses_in-zero id (x ∷ xs) h =
    (count_operands-zero (local id) x.operands (omega arith), uses_in-zero id xs (omega arith))

user_in-zero : (id p : ℕ) (xs : List Instr) → uses_in (local id) xs ≡ 0 → user_in id p xs ≡ none
unfolding uses_in
user_in-zero id p [] h = refl
user_in-zero id p (x ∷ xs) h =
    let here = count_operands-zero (local id) x.operands (omega arith) in
    rw here (user_in-zero id p xs (omega arith))

-- A reader of a value in a block is this one.
abbrev pub IsUser : ℕ → Placed → ℕ → Instr → Type 0
IsUser id u b x = reads x id ≡ true → (b ≡ u.parent) × (x ≡ u.inst)

no_reader-IsUser :
    (id : ℕ) (u : Placed) (b : ℕ) (xs : List Instr)
    → All (λ (x : Instr). reads x id ≡ false) xs
    → All (IsUser id u b) xs
no_reader-IsUser id u b [] h = tt
no_reader-IsUser id u b (x ∷ xs) h =
    (λ r. absurd (false≢true (sym h.0 ∙ r)), no_reader-IsUser id u b xs h.1)

user_in-IsUser :
    (id b : ℕ) (xs : List Instr) (u : Placed)
    → uses_in (local id) xs ≡ 1
    → user_in id b xs ≡ some u
    → All (IsUser id u b) xs
unfolding uses_in
user_in-IsUser id b [] u h e = absurd (none-ne-some u e)
user_in-IsUser id b (x ∷ xs) u h e = elim (Bool-cases (reads x id)) [
  | inl r ↦
      let this : record { parent = b; inst = x } ≡ u =
        some-injective (record { parent = b; inst = x }) u (rw r at e) in
      let positive = count_operands-positive (local id) x.operands r in
      (
        λ r'. (ap (λ (v : Placed). v.parent) this, ap (λ (v : Placed). v.inst) this),
        no_reader-IsUser id u b xs (uses_in-zero id xs (omega arith)),
      )
  | inr r ↦
      let none_here = count_operands-unread (local id) x.operands r in
      (λ r'. absurd (false≢true (sym r ∙ r')), user_in-IsUser id b xs u (omega arith) (rw r at e))
]

user_in-some :
    (id b : ℕ) (xs : List Instr) (v : Option Placed)
    → uses_in (local id) xs ≡ 1
    → user_in id b xs ≡ or_else (user_in id b xs) v
unfolding uses_in
user_in-some id b [] v h = ground arith
user_in-some id b (x ∷ xs) v h = elim (Bool-cases (reads x id)) [
  | inl r ↦ rw r refl
  | inr r ↦
      let none_here = count_operands-unread (local id) x.operands r in
      rw r (user_in-some id b xs v (omega arith))
]

-- In every block, a reader of the value is this one.
abbrev pub AreUsers : ℕ → Placed → List Block → Type 0
AreUsers id u bs = All (λ (y : Block). All (IsUser id u y.name) (all_insts y)) bs

abbrev AreUnread : ℕ → List Block → Type 0
AreUnread id bs = All (λ (y : Block). All (λ (x : Instr). reads x id ≡ false) (all_insts y)) bs

pub num_uses-AreUnread : (id : ℕ) (bs : List Block) → num_uses id bs ≡ 0 → AreUnread id bs
unfolding num_uses
num_uses-AreUnread id [] h = tt
num_uses-AreUnread id (b ∷ bs) h =
    let here = uses_in-snoc (local id) b.insts b.term in
    (uses_in-zero id (all_insts b) (omega arith), num_uses-AreUnread id bs (omega arith))

AreUnread-AreUsers : (id : ℕ) (u : Placed) (bs : List Block) → AreUnread id bs → AreUsers id u bs
AreUnread-AreUsers id u [] h = tt
AreUnread-AreUsers id u (b ∷ bs) h =
    (no_reader-IsUser id u b.name (all_insts b) h.0, AreUnread-AreUsers id u bs h.1)

-- Where a value has one use, every reader of it is the one that `the_user` finds.
pub the_user-AreUsers :
    (id : ℕ) (bs : List Block) (u : Placed)
    → num_uses id bs ≡ 1
    → the_user id bs ≡ some u
    → AreUsers id u bs
unfolding num_uses the_user
the_user-AreUsers id [] u h e = absurd (none-ne-some u e)
the_user-AreUsers id (b ∷ bs) u h e =
    let count = uses_in-snoc (local id) b.insts b.term in
    elim (Bool-cases (uses_in (local id) (all_insts b) == 0)) [
      | inl z ↦
          let unused : uses_in (local id) (all_insts b) ≡ 0 = ground arith in
          let skip = user_in-zero id b.name (all_insts b) unused in
          (
            no_reader-IsUser id u b.name (all_insts b) (uses_in-zero id (all_insts b) unused),
            the_user-AreUsers id bs u (omega arith) (rw skip at e),
          )
      | inr z ↦
          let once : uses_in (local id) (all_insts b) ≡ 1 = ground arith in
          let found = user_in-some id b.name (all_insts b) (the_user id bs) once in
          (
            user_in-IsUser id b.name (all_insts b) u once (found ∙ e),
            AreUnread-AreUsers id u bs (num_uses-AreUnread id bs (omega arith)),
          )
    ]

uses_in-member :
    (v : Value) (k : ℕ) (xs : List Instr)
    → uses_in v xs ≤ k
    → All (λ (x : Instr). count_operands v x.operands ≤ k) xs
unfolding uses_in
uses_in-member v k [] h = tt
uses_in-member v k (x ∷ xs) h = (omega arith, uses_in-member v k xs (omega arith))

-- No instruction has a value more often as an operand than the function uses it.
pub num_uses-member :
    (id k : ℕ) (bs : List Block)
    → num_uses id bs ≤ k
    → All
        (λ (y : Block). All (λ (x : Instr). count_operands (local id) x.operands ≤ k) (all_insts y))
        bs
unfolding num_uses
num_uses-member id k [] h = tt
num_uses-member id k (b ∷ bs) h =
    let count = uses_in-snoc (local id) b.insts b.term in
    (uses_in-member (local id) k (all_insts b) (omega arith), num_uses-member id k bs (omega arith))

-- What holds of every instruction of the function holds of the user, which reads the value.
pub the_user-reads :
    (P : ℕ → Instr → Type 0) (id : ℕ) (bs : List Block) (u : Placed)
    → All (λ (y : Block). All (P y.name) (all_insts y)) bs
    → the_user id bs ≡ some u
    → P u.parent u.inst × (reads u.inst id ≡ true)
unfolding the_user
the_user-reads P id [] u h e = absurd (none-ne-some u e)
the_user-reads P id (b ∷ bs) u h e = elim (Option-cases (user_in id b.name (all_insts b))) [
  | inl none_here ↦ the_user-reads P id bs u h.1 (rw none_here at e)
  | inr (v, here) ↦ in_block (all_insts b) h.0 (here ∙ (rw here at e))
]
  where
    in_block :
        (xs : List Instr)
        → All (P b.name) xs
        → user_in id b.name xs ≡ some u
        → P u.parent u.inst × (reads u.inst id ≡ true)
    in_block [] g k = absurd (none-ne-some u k)
    in_block (x ∷ xs) g k = elim (Bool-cases (reads x id)) [
      | inl r ↦
          subst (λ (w : Placed). P w.parent w.inst × (reads w.inst id ≡ true))
            (some-injective (record { parent = b.name; inst = x }) u (rw r at k)) (g.0, r)
      | inr r ↦ in_block xs g.1 (rw r at k)
    ]
