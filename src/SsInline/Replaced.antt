-- ===== src/SsInline/Replaced.antt =====
-- The code after a call of `inlineOnce`, once another value stands for the call.
use llvm_study.Base.{
  ℕ, ◌<◌, ◌≡◌, refl, sym, ap, ap₂, ◌∙◌, false, List, [], ◌∷◌, ◌++◌, map, ◌==◌, ==_iff,
  if◌then◌else◌, All, arith, Bool-cases, inl, inr,
}
use llvm_study.Ir.{Value, const, local, block, global, undef, Instr, is_void}
use llvm_study.Ir.Exec.{Machine, State, update, value_of, result, exec, exec_all, InScope, IsScoped}
use llvm_study.Cfg.{value_eq}
use llvm_study.Cfg.Uses.{count_operands}
use package.llvm_study.SsInline.{set_use, update_user}

-- An instruction with `w` for every use of the call.
abbrev replace_use : ℕ → Value → Value → Value
replace_use id w v = if value_eq v (local id) then w else v

abbrev pub replace_uses : ℕ → Value → Instr → Instr
replace_uses id w x = record x { operands = map (replace_use id w) x.operands }

-- The call is used once, by the instruction `u`.
abbrev pub IsOnlyUse : ℕ → ℕ → Instr → Type 0
IsOnlyUse u id x = count_operands (local id) x.operands ≡ (if x.id == u then 1 else 0)

map-replace_use :
    (id : ℕ) (w : Value) (vs : List Value)
    → count_operands (local id) vs ≡ 0
    → map (replace_use id w) vs ≡ vs
unfolding count_operands
map-replace_use id w [] h = refl
map-replace_use id w (v ∷ vs) h = ground (arith, map-replace_use id w vs)

set_use-replace :
    (id : ℕ) (w : Value) (vs : List Value)
    → count_operands (local id) vs ≡ 1
    → set_use id w vs ≡ map (replace_use id w) vs
unfolding count_operands
set_use-replace id w [] h = refl
set_use-replace id w (v ∷ []) h = ground (arith, h)
set_use-replace id w (v ∷ (v' ∷ vs)) h =
    ground (arith, h, set_use-replace id w (v' ∷ vs), map-replace_use id w (v' ∷ vs))

pub update_user-replace :
    (u id : ℕ) (w : Value) (xs : List Instr)
    → All (IsOnlyUse u id) xs
    → update_user u id w xs ≡ map (replace_uses id w) xs
update_user-replace u id w [] h = refl
update_user-replace u id w (x ∷ xs) h = elim (Bool-cases (x.id == u)) [
  | inl e ↦ rw e (
      ap₂ (λ (ops : List Value) (r : List Instr). record x { operands = ops } ∷ r)
        (set_use-replace id w x.operands (rw e at h.0)) (update_user-replace u id w xs h.1))
  | inr e ↦ rw e (
      ap₂ (λ (ops : List Value) (r : List Instr). record x { operands = ops } ∷ r)
        (sym (map-replace_use id w x.operands (rw e at h.0))) (update_user-replace u id w xs h.1))
]

pub update_user-kept :
    (u id : ℕ) (w : Value) (xs : List Instr)
    → All (λ (x : Instr). (x.id == u) ≡ false) xs
    → update_user u id w xs ≡ xs
update_user-kept u id w [] h = refl
update_user-kept u id w (x ∷ xs) h = rw h.0 (ap (λ l. x ∷ l) (update_user-kept u id w xs h.1))

pub update_user-append :
    (u id : ℕ) (w : Value) (xs ys : List Instr)
    → update_user u id w (xs ++ ys) ≡ update_user u id w xs ++ update_user u id w ys
update_user-append u id w [] ys = refl
update_user-append u id w (x ∷ xs) ys =
    ap (λ l. (if x.id == u then record x { operands = set_use id w x.operands } else x) ∷ l)
      (update_user-append u id w xs ys)

module _ (m : Machine) (n id : ℕ) (w : Value) where
  -- The states agree but for the value of the call, for which `w` stands.
  pub record AgreeBut (s t : State m.Mem) : Type 0 where
    pub same_mem : s.mem ≡ t.mem
    pub same_env : (i : ℕ) → i < n → (i == id) ≡ false → s.env i ≡ t.env i
    pub stands : value_of m s.env w ≡ t.env id

  -- The instruction defines neither the call's value nor `w`.
  abbrev pub IsApart : Instr → Type 0
  IsApart x = IsScoped n x × ((x.id == id) ≡ false) × (value_eq w (local x.id) ≡ false)

  value_of-replaced :
      (s t : State m.Mem) (v : Value)
      → AgreeBut s t
      → InScope n v
      → value_of m s.env (replace_use id w v) ≡ value_of m t.env v
  unfolding value_eq
  value_of-replaced s t (local i) a h = ground (arith, a.same_env i h, a.stands, ==_iff i id)
  value_of-replaced s t (const v c) a h = refl
  value_of-replaced s t (block b) a h = refl
  value_of-replaced s t (global g) a h = refl
  value_of-replaced s t undef a h = refl

  values-replaced :
      (s t : State m.Mem) (vs : List Value)
      → AgreeBut s t
      → All (InScope n) vs
      → map (value_of m s.env) (map (replace_use id w) vs) ≡ map (value_of m t.env) vs
  values-replaced s t [] a h = refl
  values-replaced s t (v ∷ vs) a h =
      ap₂ ◌∷◌ (value_of-replaced s t v a h.0) (values-replaced s t vs a h.1)

  value_of-update :
      (env : ℕ → ℕ) (v : Value) (i r : ℕ)
      → value_eq v (local i) ≡ false
      → value_of m (update env i r) v ≡ value_of m env v
  unfolding value_eq
  value_of-update env (local j) i r h = ground (arith, h)
  value_of-update env (const u c) i r h = refl
  value_of-update env (block b) i r h = refl
  value_of-update env (global g) i r h = refl
  value_of-update env undef i r h = refl

  exec-replaced :
      (s t : State m.Mem) (x : Instr)
      → AgreeBut s t
      → IsApart x
      → AgreeBut (exec m (replace_uses id w x) s) (exec m x t)
  unfolding exec
  exec-replaced s t x a (scoped, other, fresh) =
      let same : result m x.kind x.ty (map (value_of m s.env) (map (replace_use id w) x.operands))
            s.mem
          ≡ result m x.kind x.ty (map (value_of m t.env) x.operands) t.mem =
        ap₂ (result m x.kind x.ty) (values-replaced s t x.operands a scoped.uses) a.same_mem in
      record {
        same_mem = ap (λ (q : ℕ × m.Mem). q.1) same;
        same_env = λ i lt ne. ground (arith, a.same_env i lt ne, ap (λ (q : ℕ × m.Mem). q.0) same);
        stands = elim (Bool-cases (is_void x.ty)) [
          | inl e ↦ rw e a.stands
          | inr e ↦ rw e (value_of-update s.env w x.id _ fresh ∙ a.stands ∙ ground (arith, other))
        ];
      }

  pub exec_all-replaced :
      (xs : List Instr) (s t : State m.Mem)
      → AgreeBut s t
      → All IsApart xs
      → AgreeBut (exec_all m (map (replace_uses id w) xs) s) (exec_all m xs t)
  unfolding exec_all
  exec_all-replaced [] s t a h = a
  exec_all-replaced (x ∷ xs) s t a h =
      exec_all-replaced xs (exec m (replace_uses id w x) s) (exec m x t) (exec-replaced s t x a h.0)
        h.1
