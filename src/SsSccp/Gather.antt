-- ===== src/SsSccp/Gather.antt =====
-- `SCCP_GatherAlloca`: which constant is entered for an alloca.
use llvm_study.Base.{
  ℕ, ◌^◌, ◌≡◌, refl, ap, ◌∙◌, Bool, true, false, ◌||◌, ◌&&◌, List, [], ◌∷◌, Option, none, some,
  ◌==◌, ==_iff, if◌then◌else◌, ltb, ◌-◌, arith, Bool-cases, inl, inr,
}
use llvm_study.Containers.{address_eq, find, modify}
use llvm_study.Containers.Laws.{find-modify}
use llvm_study.Ir.{Value, const, local, block, global, undef, Kind, alloca, store, Instr}
use package.llvm_study.SsSccp.{
  is_store, AllocaInfo, AllocaMap, limited, stored_constant, gather_users, gather_alloca,
}

-- The constant that an instruction stores, or 2 ^ 32 - 1 where it does not fit into 32 bits.
abbrev pub constant_of : Kind → List Value → Option ℕ
constant_of store (const w n ∷ _) = some (if ltb (2 ^ 32 - 1) n then 2 ^ 32 - 1 else n)
constant_of _ _ = none

-- The constant of the last user that stores one.
abbrev pub last_constant : List Instr → Option ℕ
last_constant [] = none
last_constant (user ∷ users) = elim (last_constant users) [
  | some n ↦ some n
  | none ↦ constant_of user.kind user.operands
]

limited-capped : (n : ℕ) → limited n ≡ (if ltb (2 ^ 32 - 1) n then 2 ^ 32 - 1 else n)
limited-capped n = ground arith

stored_constant-of : (user : Instr) → stored_constant user ≡ constant_of user.kind user.operands
stored_constant-of user = by_kind user.kind user.operands
  where
    by_kind :
        (k : Kind) (ops : List Value)
        → (if is_store k then elim ops [ const w n ∷ _ ↦ some (limited n) | _ ↦ none ] else none)
          ≡ constant_of k ops
    by_kind store [] = refl
    by_kind store (const w n ∷ ops) = ap (λ (i : ℕ). some i) (limited-capped n)
    by_kind store (local i ∷ ops) = refl
    by_kind store (block i ∷ ops) = refl
    by_kind store (global i ∷ ops) = refl
    by_kind store (undef ∷ ops) = refl
    by_kind _ ops = refl

-- An entry where there is a constant, and what there was before otherwise.
abbrev pub entry_of : ℕ → Option ℕ → Option AllocaInfo → Option AllocaInfo
entry_of bb none before = before
entry_of bb (some n) before = some (record { bb = bb; num = n })

abbrev pub is_alloca : Kind → Bool
is_alloca alloca = true
is_alloca _ = false

-- The alloca `k` is in the list.
abbrev pub has_alloca : List Instr → ℕ → Bool
has_alloca [] k = false
has_alloca (x ∷ xs) k = (is_alloca x.kind && x.id == k) || has_alloca xs k

if_same : (b : Bool) (x : Option AllocaInfo) → x ≡ (if b then x else x)
if_same true x = refl
if_same false x = refl

-- The map after one user.
abbrev entered : ℕ → ℕ → Option ℕ → AllocaMap → AllocaMap
entered bb id o m = elim o [
  | none ↦ m
  | some n ↦ let info : AllocaInfo = record { bb = bb; num = n } in modify info id (λ _. info) m
]

find-entered :
    (bb id j : ℕ) (o : Option ℕ) (m : AllocaMap)
    → find j (entered bb id o m) ≡ (if id == j then entry_of bb o (find j m) else find j m)
find-entered bb id j none m = if_same (id == j) (find j m)
find-entered bb id j (some n) m =
    let info : AllocaInfo = record { bb = bb; num = n } in find-modify info id j (λ _. info) m

entry_of-twice :
    (bb : ℕ) (later earlier : Option ℕ) (before : Option AllocaInfo)
    → entry_of bb later (entry_of bb earlier before)
      ≡ entry_of bb (elim later [ some n ↦ some n | none ↦ earlier ]) before
entry_of-twice bb none earlier before = refl
entry_of-twice bb (some n) earlier before = refl

gather_users-find :
    (bb id j : ℕ) (users : List Instr) (m : AllocaMap)
    → find j (gather_users bb id users m)
      ≡ (if id == j then entry_of bb (last_constant users) (find j m) else find j m)
unfolding gather_users
gather_users-find bb id j [] m = if_same (id == j) (find j m)
gather_users-find bb id j (user ∷ users) m =
    gather_users-find bb id j users (entered bb id (stored_constant user) m)
    ∙ elim (Bool-cases (id == j)) [
      | inl e ↦ rw e (
          ap (entry_of bb (last_constant users)) (
            find-entered bb id j (stored_constant user) m
            ∙ rw e (ap (λ o. entry_of bb o (find j m)) (stored_constant-of user)))
          ∙ entry_of-twice bb (last_constant users) (constant_of user.kind user.operands)
              (find j m))
      | inr e ↦ rw e (find-entered bb id j (stored_constant user) m ∙ rw e refl)
    ]

entry_of-again :
    (bb : ℕ) (o : Option ℕ) (before : Option AllocaInfo)
    → entry_of bb o (entry_of bb o before) ≡ entry_of bb o before
entry_of-again bb none before = refl
entry_of-again bb (some n) before = refl

abbrev gather_inst : (ℕ → List Instr) → ℕ → Kind → ℕ → AllocaMap → AllocaMap
gather_inst users bb kind id m = elim kind [ alloca ↦ gather_users bb id (users id) m | _ ↦ m ]

find-gather_inst :
    (users : ℕ → List Instr) (bb k : ℕ) (kind : Kind) (id : ℕ) (m : AllocaMap)
    → find k (gather_inst users bb kind id m) ≡ (
        if is_alloca kind && id == k
        then entry_of bb (last_constant (users k)) (find k m)
        else find k m)
find-gather_inst users bb k alloca id m =
    gather_users-find bb id k (users id) m ∙ elim (Bool-cases (id == k)) [
      | inl e ↦
          rw e
            (ap (λ (j : ℕ). entry_of bb (last_constant (users j)) (find k m)) ((==_iff id k).0 e))
      | inr e ↦ rw e refl
    ]
find-gather_inst users bb k _ id m = refl

both_entered :
    (bb : ℕ) (o : Option ℕ) (before : Option AllocaInfo) (first rest : Bool)
    → let found = if first then entry_of bb o before else before in
      (if rest then entry_of bb o found else found)
      ≡ (if first || rest then entry_of bb o before else before)
both_entered bb o before true true = entry_of-again bb o before
both_entered bb o before true false = refl
both_entered bb o before false true = refl
both_entered bb o before false false = refl

-- For a map `m`: after the loop over the instructions of the block `bb`, an alloca of that block
-- has the constant that the last of its users stores which stores one, where there is one, or
-- 2 ^ 32 - 1 where that constant is larger; every other entry is that of `m`.
pub gather_alloca-find :
    (users : ℕ → List Instr) (bb k : ℕ) (xs : List Instr) (m : AllocaMap)
    → find k (gather_alloca users bb xs m)
      ≡ (if has_alloca xs k then entry_of bb (last_constant (users k)) (find k m) else find k m)
unfolding gather_alloca
gather_alloca-find users bb k [] m = refl
gather_alloca-find users bb k (x ∷ xs) m =
    let o = last_constant (users k) in
    gather_alloca-find users bb k xs (gather_inst users bb x.kind x.id m)
    ∙ ap (λ (found : Option AllocaInfo). if has_alloca xs k then entry_of bb o found else found)
        (find-gather_inst users bb k x.kind x.id m)
    ∙ both_entered bb o (find k m) (is_alloca x.kind && x.id == k) (has_alloca xs k)
