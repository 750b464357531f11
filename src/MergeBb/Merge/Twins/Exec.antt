-- ===== src/MergeBb/Merge/Twins/Exec.antt =====
-- What two blocks whose instructions are twins compute.
use llvm_study.Base.{
  ℕ, ◌≡◌, refl, sym, ap, ap₂, ◌∙◌, Bool, true, false, List, [], ◌∷◌, map, ==_iff, All, Bool-cases,
  inl, inr, arith,
}
use mathlib.Core.Bool.{false≢true}
use llvm_study.Ir.{Ty, dbg, Kind, Instr, is_void}
use llvm_study.Ir.Exec.{Machine, State, value_of, result, exec, exec_all}
use llvm_study.Cfg.{Block, is_phi, is_dbg}
use llvm_study.Cfg.Uses.{defines}
use llvm_study.MergeBb.Lockstep.Laws.{non_dbg}
use llvm_study.MergeBb.Steps.Alike.{Unread, computes, Alike, values-Alike, exec_all-keeps}
use package.llvm_study.MergeBb.Merge.Twins.{IsDistinct, IsMeta, Twin, AllTwins}

-- A debug instruction does nothing to memory.
abbrev pub IsSilent : Machine → Type 0
IsSilent m = (ty : Ty) (vals : List ℕ) (mem : m.Mem) → (m.effect dbg ty vals mem).1 ≡ mem

-- What `isSameOperationAs` promises of instructions that are no phis.
abbrev pub IsSound : (Instr → Instr → Bool) → Type 0
IsSound same_operation =
    (x y : Instr)
    → same_operation x y ≡ true
    → is_phi x.kind ≡ false
    → (x.kind ≡ y.kind) × (x.ty ≡ y.ty)

is_dbg-eq : (k : Kind) → is_dbg k ≡ true → k ≡ dbg
is_dbg-eq dbg h = refl
is_dbg-eq _ h = absurd (false≢true h)

computes-defines : (xs : List Instr) (i : ℕ) → defines xs i ≡ false → computes xs i ≡ false
computes-defines [] i h = refl
computes-defines (x ∷ xs) i h = ground (arith, computes-defines xs i)

-- An instruction that reads no hidden value, and whose own value is hidden.
abbrev pub IsInner : (ℕ → Bool) → Instr → Type 0
IsInner hidden x = (is_phi x.kind ≡ false) × Unread hidden x.operands × (hidden x.id ≡ true)

-- Twins have the same results.
abbrev pub SameResults : (ℕ → ℕ) → (ℕ → ℕ) → List Instr → List Instr → Type 0
SameResults env1 env2 (x ∷ xs) (y ∷ ys) =
    (is_void x.ty ≡ false → env1 x.id ≡ env2 y.id) × SameResults env1 env2 xs ys
SameResults env1 env2 _ _ = Unit

module _ (m : Machine) where
  exec-dbg :
      (x : Instr) (s : State m.Mem) → IsSilent m → IsMeta x → is_dbg x.kind ≡ true → exec m x s ≡ s
  unfolding exec result
  exec-dbg x s silent h d =
      rw ((h d).0, is_dbg-eq x.kind d)
        (ap (λ (k : m.Mem). record { env = s.env; mem = k })
          (silent x.ty (map (value_of m s.env) x.operands) s.mem))

  -- Debug instructions change nothing.
  pub exec_all-non_dbg :
      (xs : List Instr) (s : State m.Mem)
      → IsSilent m
      → All IsMeta xs
      → exec_all m xs s ≡ exec_all m (non_dbg xs) s
  unfolding exec_all
  exec_all-non_dbg [] s silent h = refl
  exec_all-non_dbg (x ∷ xs) s silent h = elim (Bool-cases (is_dbg x.kind)) [
    | inl e ↦ rw e (
        ap (λ (u : State m.Mem). exec_all m xs u) (exec-dbg x s silent h.0 e)
        ∙ exec_all-non_dbg xs s silent h.1)
    | inr e ↦ rw e (exec_all-non_dbg xs (exec m x s) silent h.1)
  ]

  module _ (same_operation : Instr → Instr → Bool) (sound : IsSound same_operation)
      (bs : List Block) (b1 b2 : ℕ) (hidden : ℕ → Bool) where
    module _ (x y : Instr) (s t : State m.Mem) (twin : Twin same_operation bs b1 b2 x y)
        (inner : IsInner hidden x) (hidden_y : hidden y.id ≡ true) (a : Alike m hidden s t) where
      same_type : x.ty ≡ y.ty
      same_type = (sound x y twin.same_op inner.0).1

      same_result :
          result m x.kind x.ty (map (value_of m s.env) x.operands) s.mem
          ≡ result m y.kind y.ty (map (value_of m t.env) y.operands) t.mem
      same_result =
          ap₂ (result m x.kind x.ty)
            (values-Alike m hidden s t x.operands a inner.1
              ∙ ap (map (value_of m t.env)) twin.operands)
            a.same_mem
          ∙ ap₂ (λ (k : Kind) (ty : Ty). result m k ty (map (value_of m t.env) y.operands) t.mem)
              (sound x y twin.same_op inner.0).0 same_type

      twin-Alike : Alike m hidden (exec m x s) (exec m y t)
      unfolding exec
      twin-Alike = record {
        same_mem = ap (λ (r : ℕ × m.Mem). r.1) same_result;
        same_env =
            λ i k. ground (arith, a.same_env i k, ==_iff i x.id, ==_iff i y.id, inner.2, hidden_y);
      }

      twin-value : is_void x.ty ≡ false → (exec m x s).env x.id ≡ (exec m y t).env y.id
      unfolding exec
      twin-value h =
          let h' : is_void y.ty ≡ false = ap is_void (sym same_type) ∙ h in
          rw (h, h', (==_iff x.id x.id).1 refl, (==_iff y.id y.id).1 refl)
            (ap (λ (r : ℕ × m.Mem). r.0) same_result)

    pub twins-exec :
        (xs ys : List Instr) (s t : State m.Mem)
        → AllTwins same_operation bs b1 b2 xs ys
        → All (IsInner hidden) xs
        → All (λ (y : Instr). hidden y.id ≡ true) ys
        → IsDistinct xs
        → IsDistinct ys
        → Alike m hidden s t
        → Alike m hidden (exec_all m xs s) (exec_all m ys t)
          × SameResults (exec_all m xs s).env (exec_all m ys t).env xs ys
    unfolding exec_all
    twins-exec [] [] s t twins inner hid d1 d2 a = (a, tt)
    twins-exec [] (y ∷ ys) s t twins inner hid d1 d2 a = absurd (false≢true twins)
    twins-exec (x ∷ xs) [] s t twins inner hid d1 d2 a = absurd (false≢true twins)
    twins-exec (x ∷ xs) (y ∷ ys) s t twins inner hid d1 d2 a =
        let rest =
          twins-exec xs ys (exec m x s) (exec m y t) twins.1 inner.1 hid.1 d1.1 d2.1
            (twin-Alike x y s t twins.0 inner.0 hid.0 a) in
        (
          rest.0,
          (
            λ h.
                exec_all-keeps m x.id xs (exec m x s) (computes-defines xs x.id d1.0)
                ∙ twin-value x y s t twins.0 inner.0 hid.0 a h
                ∙ sym (exec_all-keeps m y.id ys (exec m y t) (computes-defines ys y.id d2.0)),
            rest.1,
          ),
        )
