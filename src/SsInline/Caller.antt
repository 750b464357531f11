-- ===== src/SsInline/Caller.antt =====
-- The block that held the call, after step 1 to 4 of `inlineOnce`.
use llvm_study.Base.{
  ℕ, ◌+◌, ◌≤◌, ◌<◌, ◌≡◌, refl, sym, ap, ap₂, ◌∙◌, Bool, true, false, if◌then◌else◌, List, [], ◌∷◌,
  ◌++◌, map, Option, none, some, ◌==◌, ==_iff, All, arith, append-nil, map-append,
}
use llvm_study.Ir.{Value, local, Instr, is_void, operand}
use llvm_study.Ir.Exec.{
  Machine, State, value_of, result, exec, exec_all, exec_all-append, Agree, IsScoped,
}
use llvm_study.Ir.Frame.{exec_all-Agree, map-value_of-Agree}
use llvm_study.Cfg.{value_eq}
use llvm_study.Cfg.Uses.{count_operands, uses_in}
use llvm_study.Counters.StaticCallCounter.{CallSites}
use package.llvm_study.SsInline.{
  Inlined, inline_insts, update_user, update_users, Callee, Site, inline_site, set_ret_val, inlined,
  undefined, all_insts,
}
use package.llvm_study.SsInline.Arguments.{IsBody}
use package.llvm_study.SsInline.Body.Values.{IsCaller}
use package.llvm_study.SsInline.Body.{entered, Inlines, inline_insts-Inlines}
use package.llvm_study.SsInline.Replaced.{
  replace_uses, IsOnlyUse, update_user-replace, update_user-kept, update_user-append, AgreeBut,
  IsApart, exec_all-replaced,
}

All-new :
    (n u : ℕ) (cs : List Instr)
    → u < n
    → All (λ (c : Instr). n ≤ c.id) cs
    → All (λ (c : Instr). (c.id == u) ≡ false) cs
All-new n u [] h a = tt
All-new n u (c ∷ cs) h a = (ground (arith, a.0), All-new n u cs h a.1)

-- A call in a block, of a function with the straight-line code `insts` and the return `ret`, whose
-- value the instruction `u` uses and no other.
pub record IsSite (m : Machine) (inside : ℕ → Bool) (n u : ℕ) (f : Callee) (insts : List Instr)
    (ret : Instr) (site : Site) : Type 0 where
  pub arguments : All (λ a. inside a ≡ true) f.args
  pub code : f.blocks ≡ (insts ++ ret ∷ []) ∷ []
  pub body : IsBody inside f.args [] insts ret
  pub caller : All (IsCaller inside n) site.call.operands
  pub scoped : IsScoped n site.call
  pub valued : is_void site.call.ty ≡ false
  pub used : u < n
  pub scoped_before : All (IsScoped n) site.before
  pub no_use_before : All (λ (x : Instr). (x.id == u) ≡ false) site.before
  pub only_use : All (IsOnlyUse u site.call.id) site.after
  pub after :
      All
        (λ (x : Instr).
          IsScoped n x
          × ((x.id == site.call.id) ≡ false)
          × ((j : ℕ) → value_eq (operand site.call j) (local x.id) ≡ false))
        site.after
  -- the call does what the function does
  pub calls :
      (s : State m.Mem)
      → let e = exec_all m insts (entered m f.args site.call s) in
        result m site.call.kind site.call.ty (map (value_of m s.env) site.call.operands) s.mem
        ≡ (value_of m e.env (operand ret 0), e.mem)

-- How many operands in the blocks are the value `local id`, and the first instruction that has one.
abbrev pub uses_of : ℕ → List (List Instr) → ℕ
uses_of id [] = 0
uses_of id (b ∷ bs) = uses_in (local id) b + uses_of id bs

abbrev pub first_user : ℕ → List Instr → Option ℕ
first_user id [] = none
first_user id (x ∷ xs) =
    if count_operands (local id) x.operands == 0 then first_user id xs else some x.id

-- What LLVM's lists of uses give: where the call has one use, and `RetVal` is the value of an
-- instruction without uses, the loop ends after that use, which is then the last in its list.
abbrev pub IsWalk : (List (List Instr) → ℕ → Option Value → List ℕ) → Type 0
IsWalk users_met =
    (bs : List (List Instr)) (id u i : ℕ)
    → uses_of id bs ≡ 1
    → first_user id (all_insts bs) ≡ some u
    → uses_of i bs ≡ 0
    → users_met bs id (some (local i)) ≡ u ∷ []

-- The blocks when the loop over the users begins.
abbrev pub with_clones : List (List Instr) → List (List Instr) → Site → Inlined → List (List Instr)
with_clones earlier later site r =
    earlier ++ (site.before ++ (r.insts ++ site.call ∷ site.after)) ∷ later

-- The call has the one use by `u`, and `RetVal` is the value of an instruction without uses.
pub record OneUse (u : ℕ) (site : Site) (r : Inlined) (bs : List (List Instr)) : Type 0 where
  pub value : ℕ
  pub returned : r.ret_val ≡ some (local value)
  pub one_use : uses_of site.call.id bs ≡ 1
  pub by : first_user site.call.id (all_insts bs) ≡ some u
  pub unused : uses_of value bs ≡ 0

-- That is so of what the inlining of the call makes.
abbrev pub IsWalked : ℕ → Callee → ℕ → List (List Instr) → List (List Instr) → Site → Type 0
IsWalked u f n earlier later site =
    (r : Inlined)
    → inline_insts f.args site.call (all_insts f.blocks) [] none n ≡ some r
    → OneUse u site r (with_clones earlier later site r)

module _ (m : Machine) (inside : ℕ → Bool) (n u : ℕ) (f : Callee) (insts : List Instr) (ret : Instr)
    (site : Site) (h : IsSite m inside n u f insts ret site) where
  inlines :
      (s : State m.Mem)
      → Inlines m inside n f.args site.call h.arguments h.caller s insts ret [] none n s
          (entered m f.args site.call s)
  inlines s =
      inline_insts-Inlines m inside n f.args site.call insts ret s h.arguments h.caller h.body

  All-IsApart :
      (s : State m.Mem) (xs : List Instr)
      → All
          (λ (x : Instr).
            IsScoped n x
            × ((x.id == site.call.id) ≡ false)
            × ((j : ℕ) → value_eq (operand site.call j) (local x.id) ≡ false))
          xs
      → All (IsApart m n site.call.id (inlines s).value) xs
  All-IsApart s [] a = tt
  All-IsApart s (x ∷ xs) a =
      ((a.0.0, a.0.1, (inlines s).apart x.id a.0.0.defines a.0.2), All-IsApart s xs a.1)

  -- The call, and the instructions that were inserted for it.
  called-AgreeBut :
      (s t : State m.Mem)
      → Agree m n s t
      → AgreeBut m n site.call.id
          (inlines s).value
          (exec_all m (inlines s).left.insts s)
          (exec m site.call t)
  unfolding exec
  called-AgreeBut s t a =
      let r = inlines s in
      let same =
        ap₂ (result m site.call.kind site.call.ty)
          (sym (map-value_of-Agree m site.call.operands h.scoped.uses a)) (sym a.same_mem)
        ∙ h.calls s in
      rw h.valued (record {
        same_mem = r.same_mem ∙ sym (ap (λ (q : ℕ × m.Mem). q.1) same);
        same_env = λ i lt ne. ground (arith, r.kept i lt, a.same_env i lt, ne);
        stands =
            r.same_value
            ∙ sym (ap (λ (q : ℕ × m.Mem). q.0) same)
            ∙ rw ((==_iff site.call.id site.call.id).1 refl) refl;
      })

  -- The users' update leaves what stands before the call, and the clones.
  block-updated :
      (s : State m.Mem)
      → let r = inlines s in
        update_user u site.call.id r.value (site.before ++ (r.left.insts ++ site.after))
        ≡ site.before ++ (r.left.insts ++ map (replace_uses site.call.id r.value) site.after)
  block-updated s =
      let r = inlines s in
      let id = site.call.id in
      update_user-append u id r.value site.before (r.left.insts ++ site.after)
      ∙ ap₂ ◌++◌ (update_user-kept u id r.value site.before h.no_use_before) (
          update_user-append u id r.value r.left.insts site.after
          ∙ ap₂ ◌++◌
              (update_user-kept u id r.value r.left.insts
                (All-new n u r.left.insts h.used r.new_ids))
              (update_user-replace u id r.value site.after h.only_use))

  block-AgreeBut :
      (s t : State m.Mem)
      → Agree m n s t
      → let sb = exec_all m site.before s in
        let r = inlines sb in
        AgreeBut m n site.call.id r.value
          (exec_all m
            (update_user u site.call.id r.value (site.before ++ (r.left.insts ++ site.after)))
            s)
          (exec_all m (site.before ++ site.call ∷ site.after) t)
  unfolding exec_all
  block-AgreeBut s t a =
      let sb = exec_all m site.before s in
      let tb = exec_all m site.before t in
      let r = inlines sb in
      rw
        (
          block-updated sb,
          exec_all-append m site.before
              (r.left.insts ++ map (replace_uses site.call.id r.value) site.after) s,
          exec_all-append m r.left.insts (map (replace_uses site.call.id r.value) site.after) sb,
          exec_all-append m site.before (site.call ∷ site.after) t,
        )
        (exec_all-replaced m n site.call.id r.value site.after (exec_all m r.left.insts sb)
          (exec m site.call tb)
          (called-AgreeBut sb tb (exec_all-Agree m n site.before s t h.scoped_before a))
          (All-IsApart sb site.after h.after))

  -- For a call of a function with straight-line code that returns a value, in a block where the one
  -- use of the call's value does not stand before the call; where, when the loop over the users begins,
  -- the value returned is that of an instruction without uses, and that loop then meets just the call's
  -- one user: the pass inlines the call, and from states that agree on memory and on the values
  -- numbered below `n` the new block ends in a state that agrees so with the end of the old block, but
  -- for the call's own value, for which the value that replaces it stands.
  pub inline_site-AgreeBut :
      (sites : CallSites Instr ℕ) (is_call : Instr → Bool) (functions : ℕ → Callee)
      (users_met : List (List Instr) → ℕ → Option Value → List ℕ)
      (earlier later : List (List Instr)) (s t : State m.Mem)
      → functions site.callee ≡ f
      → IsWalk users_met
      → IsWalked u f n earlier later site
      → Agree m n s t
      → (w : Value) × (block : List Instr) × (next : ℕ) × (inline_site sites is_call functions
            users_met earlier site later n
          ≡ inlined
              (map (update_user u site.call.id w) earlier
                ++ block ∷ map (update_user u site.call.id w) later)
              next)
        × (n ≤ next)
        × AgreeBut m n site.call.id w
            (exec_all m block s)
            (exec_all m (site.before ++ site.call ∷ site.after) t)
  unfolding inline_site set_ret_val update_users
  inline_site-AgreeBut sites is_call functions users_met earlier later s t callee walk walked a =
      let r = inlines (exec_all m site.before s) in
      let old = λ (l : Inlined). with_clones earlier later site l in
      let code : all_insts f.blocks ≡ insts ++ ret ∷ [] =
        ap all_insts h.code ∙ append-nil (insts ++ ret ∷ []) in
      let one =
        walked r.left (ap (λ xs. inline_insts f.args site.call xs [] none n) code ∙ r.returns) in
      let met : users_met (old r.left) site.call.id (some r.value) ≡ u ∷ [] =
        ap (λ o. users_met (old r.left) site.call.id o) (sym r.has_value ∙ one.returned)
        ∙ walk (old r.left) site.call.id u one.value one.one_use one.by one.unused in
      (
        r.value,
        update_user u site.call.id r.value (site.before ++ (r.left.insts ++ site.after)),
        r.left.next,
        ap
              (λ (g : Callee). elim (inline_insts g.args site.call (all_insts g.blocks) [] none n) [
                | none ↦ undefined
                | some l ↦
                    set_ret_val sites is_call functions users_met
                      (users_met (old l) site.call.id l.ret_val) site.call.id l.ret_val
                      (earlier ++ (site.before ++ (l.insts ++ site.after)) ∷ later) l.next
              ])
              callee
            ∙ rw (code, r.returns, r.has_value, met)
                (ap (λ bs. inlined bs r.left.next)
                  (map-append (update_user u site.call.id r.value) earlier _)),
        r.grows,
        block-AgreeBut s t a,
      )
