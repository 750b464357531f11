-- ===== src/SsLoopVec/Body.antt =====
-- The loop body that the pass makes, and what the loop and its exit block then add up.
use llvm_study.Base.{
  ℕ, ◌+◌, ◌<◌, ◌≤◌, ◌≡◌, refl, ap, ◌∙◌, Bool, true, false, List, [], ◌∷◌, ◌++◌, none, some, ◌==◌,
  ==_iff, All, arith,
}
use package.llvm_study.SsLoopVec.{
  value, Opcode, Inst, Block, Casts, is_gep, is_load, find_opcode, insert_after, cast_user,
  cast_users, accumulate, drop_after, bit_cast_of, load_of,
}
use package.llvm_study.SsLoopVec.Pass.{vectorise_body}
use package.llvm_study.SsLoopVec.Sum.{round}

-- None of the instructions is numbered `id`.
abbrev pub IsWithout : ℕ → List Inst → Type 0
IsWithout id xs = All (λ (x : Inst). (x.id == id) ≡ false) xs

insert_after-skip :
    (id : ℕ) (new xs ys : List Inst)
    → IsWithout id xs
    → insert_after id new (xs ++ ys) ≡ xs ++ insert_after id new ys
insert_after-skip id new [] ys h = refl
insert_after-skip id new (x ∷ xs) ys h =
    rw h.0 (ap (λ l. x ∷ l) (insert_after-skip id new xs ys h.1))

drop_after-skip :
    (id : ℕ) (xs ys : List Inst)
    → IsWithout id xs
    → drop_after id (xs ++ ys) ≡ xs ++ drop_after id ys
unfolding drop_after
drop_after-skip id [] ys h = refl
drop_after-skip id (x ∷ xs) ys h = rw h.0 (ap (λ l. x ∷ l) (drop_after-skip id xs ys h.1))

find_opcode-skip :
    (p : Opcode → Bool) (xs ys : List Inst)
    → All (λ (x : Inst). p x.opcode ≡ false) xs
    → find_opcode p (xs ++ ys) ≡ find_opcode p ys
unfolding find_opcode
find_opcode-skip p [] ys h = refl
find_opcode-skip p (x ∷ xs) ys h = rw h.0 (find_opcode-skip p xs ys h.1)

IsWithout-new :
    (n id : ℕ) (xs : List Inst) → n ≤ id → All (λ (x : Inst). x.id < n) xs → IsWithout id xs
IsWithout-new n id [] le h = tt
IsWithout-new n id (x ∷ xs) le h = (ground (arith, h.0), IsWithout-new n id xs le h.1)

-- The loop body `before ++ gep ∷ rest`: its first GetElementPtr is `gep`, whose only user is a load.
pub record IsSummingBody (users : List Block → ℕ → List Inst) (n : ℕ) (bs : List Block)
    (before : List Inst) (gep user : Inst) : Type 0 where
  pub first : All (λ (x : Inst). is_gep x.opcode ≡ false) before
  pub is_gep_there : is_gep gep.opcode ≡ true
  pub other_numbers : IsWithout gep.id before
  pub numbered : All (λ (x : Inst). x.id < n) before
  pub numbered_gep : gep.id < n
  pub used : users bs gep.id ≡ user ∷ []
  pub by_load : is_load user.opcode ≡ true
  pub as_pointer : user.operands ≡ value gep.id ∷ []

module _ (users : List Block → ℕ → List Inst) (tmp n : ℕ) (bs : List Block)
    (before rest : List Inst) (gep user : Inst) (h : IsSummingBody users n bs before gep user) where
  found : find_opcode is_gep (before ++ gep ∷ rest) ≡ some gep
  unfolding find_opcode
  found = find_opcode-skip is_gep before (gep ∷ rest) h.first ∙ rw h.is_gep_there refl

  casts :
      cast_users gep.id (users bs gep.id) (record { inserted = []; load_cast = none; next = n })
      ≡ record {
        inserted = bit_cast_of n gep.id ∷ load_of (n + 1) n ∷ [];
        load_cast = some (n + 1);
        next = n + 2;
      }
  unfolding cast_users cast_user
  casts = rw (h.used, h.by_load, h.as_pointer, (==_iff gep.id gep.id).1 refl) refl

  abbrev bit_cast_load : List Inst → List Inst
  bit_cast_load xs = bit_cast_of n gep.id ∷ load_of (n + 1) n ∷ xs

  at_gep :
      insert_after gep.id (bit_cast_load []) (before ++ gep ∷ rest)
      ≡ before ++ gep ∷ bit_cast_load rest
  at_gep =
      insert_after-skip gep.id (bit_cast_load []) before (gep ∷ rest) h.other_numbers
      ∙ ap (λ l. before ++ l) (rw ((==_iff gep.id gep.id).1 refl) refl)

  differs : (a b : ℕ) → a < b → (a == b) ≡ false
  differs a b lt = ground (arith, lt)

  at_load :
      insert_after (n + 1) (accumulate (n + 2) (n + 1) tmp) (before ++ gep ∷ bit_cast_load rest)
      ≡ before ++ gep ∷ bit_cast_load (accumulate (n + 2) (n + 1) tmp ++ rest)
  at_load =
      insert_after-skip (n + 1) (accumulate (n + 2) (n + 1) tmp) before (gep ∷ bit_cast_load rest)
        (IsWithout-new n (n + 1) before (omega arith) h.numbered)
      ∙ ap (λ l. before ++ l)
          (rw
            (
              differs gep.id (n + 1) (omega (arith, h.numbered_gep)),
              differs n (n + 1) (omega arith),
              (==_iff (n + 1) (n + 1)).1 refl,
            )
            refl)

  at_store :
      drop_after
        (n + 2 + 2)
        (before ++ gep ∷ bit_cast_load (accumulate (n + 2) (n + 1) tmp ++ rest))
      ≡ before ++ gep ∷ round n gep.id tmp
  unfolding drop_after
  at_store =
      drop_after-skip (n + 2 + 2) before
        (gep ∷ bit_cast_load (accumulate (n + 2) (n + 1) tmp ++ rest))
        (IsWithout-new n (n + 2 + 2) before (omega arith) h.numbered)
      ∙ ap (λ l. before ++ l)
          (rw
            (
              differs gep.id (n + 2 + 2) (omega (arith, h.numbered_gep)),
              differs n (n + 2 + 2) (omega arith),
              differs (n + 1) (n + 2 + 2) (omega arith),
              differs (n + 2) (n + 2 + 2) (omega arith),
              differs (n + 2 + 1) (n + 2 + 2) (omega arith),
              (==_iff (n + 2 + 2) (n + 2 + 2)).1 refl,
            )
            refl)

  body_insts :
      drop_after (n + 2 + 2) (
        insert_after (n + 1) (accumulate (n + 2) (n + 1) tmp) (
          insert_after gep.id
            (bit_cast_of n gep.id ∷ load_of (n + 1) n ∷ [])
            (before ++ gep ∷ rest)))
      ≡ before ++ gep ∷ round n gep.id tmp
  unfolding drop_after
  body_insts =
      ap (λ l. drop_after (n + 2 + 2) (insert_after (n + 1) (accumulate (n + 2) (n + 1) tmp) l))
        at_gep
      ∙ ap (drop_after (n + 2 + 2)) at_load
      ∙ at_store

  -- The casts stand behind the GetElementPtr, the accumulation behind them, and nothing else is left.
  pub vectorise_body-round :
      vectorise_body users tmp n bs (before ++ gep ∷ rest)
      ≡ some (before ++ gep ∷ round n gep.id tmp, n + 2 + 3)
  unfolding vectorise_body
  vectorise_body-round =
      rw (vectorise_body, found)
        (ap
            (λ (c : Casts). elim c.load_cast [
              | none ↦ none
              | some l ↦ some (
                drop_after (c.next + 2) (
                    insert_after l (accumulate c.next l tmp)
                      (insert_after gep.id c.inserted (before ++ gep ∷ rest))),
                c.next + 3,
              )
            ])
            casts
          ∙ ap (λ l. some (l, n + 2 + 3)) body_insts)
