-- ===== src/Organisation/Chain.antt =====
-- Chains of managers end.
use onboard_ai.Common.{
  ℕ, zero, suc, ◌≡◌, refl, ◌∙◌, arith, inl, inr, true, false, Option, none, some, List, [], ◌∷◌,
  ◌==◌, ==_iff, ==_refl, Bool-cases, Option-cases, clash,
}
use onboard_ai.Organisation.{
  Employees, is_seen, walk, max_manager_chain_depth, manager_assignment_would_cycle, set_manager,
}

-- Going up from here comes to an end.
pub data Ends (employees : Employees) : Option ℕ → Type 0 where
  top : Ends employees none
  gone : {k : ℕ} → employees k ≡ none → Ends employees (some k)
  up : {k : ℕ} {m : Option ℕ} → employees k ≡ some m → Ends employees m → Ends employees (some k)

-- Going up from every employee comes to an end: nobody is their own manager's manager.
abbrev pub IsAcyclic : Employees → Type 0
IsAcyclic employees = (k : ℕ) → Ends employees (some k)

module _ (employees : Employees) (e m : ℕ) where
  -- Away from the employee whose manager changes, a chain is what it was.
  same_row : (k : ℕ) → (k == e) ≡ false → set_manager e m employees k ≡ employees k
  unfolding set_manager
  same_row k other = rw other refl

  -- A walk that finds no cycle ends, before and after the change.
  walk-Ends :
      (depth : ℕ) (seen : List ℕ) (c : Option ℕ)
      → is_seen e seen ≡ true
      → walk employees depth seen c ≡ false
      → Ends (set_manager e m employees) c
  unfolding walk
  walk-Ends zero seen c h w = cc
  walk-Ends (suc depth) seen none h w = top
  walk-Ends (suc depth) seen (some k) h w = elim (Bool-cases (k == e)) [
    | inl same ↦ absurd (ground (arith, h, w, same))
    | inr other ↦ elim (Option-cases (employees k)) [
      | inl missing ↦ gone (same_row k other ∙ missing)
      | inr (manager, found) ↦
          up (same_row k other ∙ found)
            (walk-Ends depth (k ∷ seen) manager (ground (arith, h)) (ground (arith, w, found)))
    ]
  ]

  manager_row : set_manager e m employees e ≡ some (some m)
  unfolding set_manager
  manager_row = rw (==_refl e) refl

  employee-Ends :
      Ends (set_manager e m employees) (some m) → Ends (set_manager e m employees) (some e)
  employee-Ends h = up manager_row h

  old-Ends :
      {c : Option ℕ}
      → Ends (set_manager e m employees) (some m)
      → Ends employees c
      → Ends (set_manager e m employees) c
  old-Ends h top = top
  old-Ends h (gone {k = k} missing) = elim (Bool-cases (k == e)) [
    | inl same ↦ rw ((==_iff k e).0 same) (employee-Ends h)
    | inr other ↦ gone (same_row k other ∙ missing)
  ]
  old-Ends h (up {k = k} found rest) = elim (Bool-cases (k == e)) [
    | inl same ↦ rw ((==_iff k e).0 same) (employee-Ends h)
    | inr other ↦ up (same_row k other ∙ found) (old-Ends h rest)
  ]

  walked :
      manager_assignment_would_cycle employees e m ≡ false
      → walk employees max_manager_chain_depth (e ∷ []) (some m) ≡ false
  unfolding manager_assignment_would_cycle
  walked checked = elim (Bool-cases (e == m)) [
    | inl same ↦ absurd (clash checked (rw same refl))
    | inr other ↦ rw other at checked
  ]

  -- Where every chain of managers ends, giving an employee a manager that passes the check keeps it
  -- so: no cycle arises.
  pub manager_assignment-IsAcyclic :
      IsAcyclic employees
      → manager_assignment_would_cycle employees e m ≡ false
      → IsAcyclic (set_manager e m employees)
  unfolding manager_assignment_would_cycle
  manager_assignment-IsAcyclic acyclic checked k =
      old-Ends
        (walk-Ends max_manager_chain_depth (e ∷ []) (some m) (rw (==_refl e) refl) (walked checked))
        (acyclic k)
