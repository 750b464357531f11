-- ===== src/SsSccp/Search.antt =====
-- `SCCP_SearchDFS`: which allocas keep their constant.
use llvm_study.Base.{
  ℕ, suc, ◌≤◌, ◌≡◌, refl, ap, ◌∙◌, Bool, true, false, ◌||◌, ◌&&◌, List, [], ◌∷◌, Option, none, some,
  if◌then◌else◌, ◌==◌, All, arith, Bool-cases, inl, inr,
}
use llvm_study.Containers.{address_eq, find}
use llvm_study.Ir.{Instr}
use package.llvm_study.SsSccp.{
  is_store, AllocaMap, Outcome, finished, Node, Blocks, erase, erase_stored, pointer, search_dfs,
}
use package.llvm_study.SsSccp.Walk.{depth, preorder, visit_all, walk-visit_all}

abbrev points_to : Option ℕ → ℕ → Bool
points_to none k = false
points_to (some p) k = p == k

find-erase : (k j : ℕ) (m : AllocaMap) → find j (erase k m) ≡ (if k == j then none else find j m)
unfolding find erase
find-erase k j [] = ground arith
find-erase k j ((i, info) ∷ m) = ground (arith, find-erase k j m)

-- `is_inst` tells the values of instructions from arguments.
module _ (is_inst : ℕ → Bool) where
  -- An instruction of the list stores to the instruction `k`.
  abbrev pub stores_to : List Instr → ℕ → Bool
  stores_to [] k = false
  stores_to (x ∷ xs) k =
      (is_store x.kind && points_to (pointer is_inst x.operands) k) || stores_to xs k

  abbrev pub any_stores_to : Blocks → List ℕ → ℕ → Bool
  any_stores_to blocks [] k = false
  any_stores_to blocks (b ∷ bs) k = stores_to (blocks b) k || any_stores_to blocks bs k

  -- Every store has an instruction as its pointer.
  abbrev pub IsCastable : List Instr → Type 0
  IsCastable [] = Unit
  IsCastable (x ∷ xs) =
      (is_store x.kind ≡ true → (p : ℕ) × (pointer is_inst x.operands ≡ some p)) × IsCastable xs

  -- What one block leaves of the map.
  record Erased (blocks : Blocks) (bs : List ℕ) (m : AllocaMap) (o : Outcome AllocaMap)
      : Type 0 where
    left : AllocaMap
    ends : o ≡ finished left
    entries : (k : ℕ) → find k left ≡ (if any_stores_to blocks bs k then none else find k m)

  record ErasedIn (xs : List Instr) (m : AllocaMap) (o : Outcome AllocaMap) : Type 0 where
    left : AllocaMap
    ends : o ≡ finished left
    entries : (k : ℕ) → find k left ≡ (if stores_to xs k then none else find k m)

  erase_stored-store :
      (x : Instr) (xs : List Instr) (m : AllocaMap) (p : ℕ)
      → is_store x.kind ≡ true
      → pointer is_inst x.operands ≡ some p
      → erase_stored is_inst (x ∷ xs) m ≡ erase_stored is_inst xs (erase p m)
  unfolding erase_stored
  erase_stored-store x xs m p e h = rw (e, h, erase_stored) refl

  erase_stored-Erased :
      (xs : List Instr) (m : AllocaMap) → IsCastable xs → ErasedIn xs m (erase_stored is_inst xs m)
  unfolding erase_stored
  erase_stored-Erased [] m h = record { left = m; ends = refl; entries = λ k. refl }
  erase_stored-Erased (x ∷ xs) m h = elim (Bool-cases (is_store x.kind)) [
    | inr e ↦
        let r = erase_stored-Erased xs m h.1 in
        record {
          left = r.left;
          ends = rw (e, erase_stored) r.ends;
          entries = λ k. ground (arith, r.entries k);
        }
    | inl e ↦
        let (p, found) = h.0 e in
        let r = erase_stored-Erased xs (erase p m) h.1 in
        record {
          left = r.left;
          ends = erase_stored-store x xs m p e found ∙ r.ends;
          entries =
              λ k. ground (arith, r.entries k, find-erase p k m, ap (λ q. points_to q k) found);
        }
  ]

  visit_all-Erased :
      (blocks : Blocks) (bs : List ℕ) (m : AllocaMap)
      → All (λ b. IsCastable (blocks b)) bs
      → Erased blocks bs m (visit_all (λ b m'. erase_stored is_inst (blocks b) m') bs m)
  visit_all-Erased blocks [] m h = record { left = m; ends = refl; entries = λ k. refl }
  visit_all-Erased blocks (b ∷ bs) m h =
      let first = erase_stored-Erased (blocks b) m h.0 in
      let rest = visit_all-Erased blocks bs first.left h.1 in
      record {
        left = rest.left;
        ends = rw first.ends rest.ends;
        entries = λ k. ground (arith, first.entries k, rest.entries k);
      }

  -- Where the pointers of all stores in the subtree are instructions, and with fuel above its depth:
  -- the search from a node at its own level ends, and leaves in the map exactly the entries of the
  -- instructions that no block of the subtree stores to.
  pub search_dfs-find :
      (blocks : Blocks) (fuel : ℕ) (n : Node) (m : AllocaMap) (k : ℕ)
      → suc (depth n.below) ≤ fuel
      → All (λ b. IsCastable (blocks b)) (n.block ∷ preorder n.below)
      → (r : AllocaMap) × (search_dfs is_inst blocks (suc fuel) n n.level m ≡ finished r)
        × (find k r
            ≡ (if any_stores_to blocks (n.block ∷ preorder n.below) k then none else find k m))
  unfolding search_dfs
  search_dfs-find blocks fuel n m k enough castable =
      let done = visit_all-Erased blocks (n.block ∷ preorder n.below) m castable in
      (
        done.left,
        walk-visit_all (λ b m'. erase_stored is_inst (blocks b) m') fuel n m enough ∙ done.ends,
        done.entries k,
      )
