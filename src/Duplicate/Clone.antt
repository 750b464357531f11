-- ===== src/Duplicate/Clone.antt =====
-- `cloneBB` of lib/DuplicateBB.cpp: the two clones of a block, and the tail that joins them.
-- A phi that replaces an instruction takes over its uses, and so its number; the maps of values
-- follow the replacement.

pub mod Joined
pub mod Laws
use llvm_study.Base.{
  ℕ, ◌+◌, Bool, true, false, List, [], ◌∷◌, ◌++◌, Option, none, some, ◌==◌, if◌then◌else◌, map,
}
use llvm_study.Ir.{Value, const, local, block, global, undef, Kind, phi, Instr, is_void}
use llvm_study.Containers.{Eq, address_eq, find, at, modify}

-- `RemapInstruction` with RF_IgnoreMissingLocals: mapped operands are replaced, others stay.
abbrev pub remap_value : List (ℕ × ℕ) → Value → Value
remap_value vmap (local i) = local (at i i vmap)
remap_value vmap v = v

abbrev pub remap : List (ℕ × ℕ) → Instr → Instr
remap vmap inst = record inst { operands = map (remap_value vmap) inst.operands }

-- The three blocks while the loop runs: what it has inserted into the two clones, and the phis of
-- the tail, each list in order; the maps of values; and the first free number.
pub record Cloned : Type 0 where
  pub then_insts : List Instr
  pub else_insts : List Instr
  pub phis : List Instr
  pub next : ℕ

-- A clone of the instruction under a new number.
abbrev pub clone : List (ℕ × ℕ) → ℕ → Instr → Instr
clone vmap id inst = record (remap vmap inst) { id = id }

-- The names of the clone blocks, for the phis.
module _ (then_block else_block : ℕ) where
  abbrev pub join_phi : Instr → ℕ → ℕ → Instr
  join_phi inst then_id else_id = record inst {
    kind = phi (then_block ∷ else_block ∷ []);
    operands = local then_id ∷ local else_id ∷ [];
  }

  -- The loop over the instructions of the tail, its terminator left out.
  unfoldable pub clone_insts : List Instr → List (ℕ × ℕ) → List (ℕ × ℕ) → ℕ → Cloned
  unfolding at modify
  clone_insts [] then_map else_map n = record {
    then_insts = [];
    else_insts = [];
    phis = [];
    next = n;
  }
  clone_insts (inst ∷ insts) then_map else_map n =
      let rest =
        clone_insts insts (modify n inst.id (λ _. n) then_map)
          (modify (n + 1) inst.id (λ _. n + 1) else_map) (n + 2) in
      record {
        then_insts = clone then_map n inst ∷ rest.then_insts;
        else_insts = clone else_map (n + 1) inst ∷ rest.else_insts;
        phis = if is_void inst.ty then rest.phis else join_phi inst n (n + 1) ∷ rest.phis;
        next = rest.next;
      }

  unfoldable pub clone_bb : List Instr → ℕ → Cloned
  unfolding clone_insts
  clone_bb insts n = clone_insts insts [] [] n
