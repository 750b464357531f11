-- ===== src/Tests/Propagating.antt =====
-- SsSCCP/SsSCCP.cpp on a concrete dominator tree.
use llvm_study.Base.{true, ℕ, ◌≡◌, refl, List, [], ◌∷◌, none, some, All, if◌then◌else◌, ◌==◌, arith}
use mathlib.Core.Bool.{false≢true}
use llvm_study.Containers.{address_eq, find}
use llvm_study.Ir.{const, local, int, other_ty, void, alloca, load, store, Instr}
use llvm_study.Riv.{leaf, tree}
use llvm_study.SsSccp.{gather_alloca, AllocaMap, finished, Node, walk, Blocks, search_dfs}
use llvm_study.SsSccp.Gather.{last_constant, entry_of, gather_alloca-find}
use llvm_study.SsSccp.Walk.{preorder, visit_all, walk-visit_all}
use llvm_study.SsSccp.Search.{any_stores_to, IsCastable, search_dfs-find}

-- The block 1 dominates 2 and 3, and 3 dominates 4.
abbrev top : Node
top = record { block = 1; level = 1; below = tree 2 leaf (tree 3 (tree 4 leaf leaf) leaf) }

-- The block 4 stores to the alloca 8, and the block 2 loads from the alloca 7.
abbrev blocks : Blocks
blocks b =
    if b == 4
    then record { id = 20; kind = store; ty = void; operands = const 64 5 ∷ local 8 ∷ [] } ∷ []
    else if b == 2
    then record { id = 21; kind = load; ty = int 32; operands = local 7 ∷ [] } ∷ []
    else []

abbrev gathered : AllocaMap
gathered = (7, record { bb = 0; num = 1 }) ∷ (8, record { bb = 0; num = 2 }) ∷ []

walk-visit_all_example :
    walk (λ b (seen : List ℕ). finished (b ∷ seen)) 4 top 1 []
    ≡ visit_all (λ b (seen : List ℕ). finished (b ∷ seen)) (1 ∷ preorder top.below) []
walk-visit_all_example =
    walk-visit_all (λ b (seen : List ℕ). finished (b ∷ seen)) 3 top [] (omega arith)

blocks-IsCastable : All (λ b. IsCastable (λ i. true) (blocks b)) (1 ∷ preorder top.below)
blocks-IsCastable = (tt, ((λ h. absurd (false≢true h), tt), (tt, ((λ h. (8, refl), tt), tt))))

search_dfs-find_example :
    (r : AllocaMap) × (search_dfs (λ i. true) blocks 4 top 1 gathered ≡ finished r)
    × (find 8 r ≡ (
        if any_stores_to (λ i. true) blocks (1 ∷ preorder top.below) 8
        then none
        else find 8 gathered))
search_dfs-find_example =
    search_dfs-find (λ i. true) blocks 3 top gathered 8 (omega arith) blocks-IsCastable

-- The alloca 7 gets 9 and then a constant beyond 32 bits.
abbrev users_of : ℕ → List Instr
users_of i =
    record { id = 30; kind = store; ty = void; operands = const 64 9 ∷ local 7 ∷ [] }
    ∷ record { id = 31; kind = store; ty = void; operands = const 64 5000000000 ∷ local 7 ∷ [] }
    ∷ []

abbrev entry_block : List Instr
entry_block = record { id = 7; kind = alloca; ty = other_ty 0; operands = [] } ∷ []

gather_alloca-find_example :
    find 7 (gather_alloca users_of 0 entry_block []) ≡ entry_of 0 (last_constant (users_of 7)) none
unfolding find
gather_alloca-find_example = gather_alloca-find users_of 0 7 entry_block []

gathered_there :
    find 7 (gather_alloca users_of 0 entry_block []) ≡ some (record { bb = 0; num = 4294967295 })
unfolding find gather_alloca
gathered_there = refl
