-- ===== src/Organisation/Race.antt =====
-- Two checks that run before either change is stored.
use onboard_ai.Common.{
  ℕ, suc, ◌≡◌, ◌⊎◌, refl, arith, inl, inr, false, Option, none, some, List, [], ◌∷◌, ◌==◌, ==_refl,
  none≢some,
}
use onboard_ai.Organisation.{Employees, is_seen, walk, manager_assignment_would_cycle, set_manager}
use onboard_ai.Organisation.Chain.{Ends, top, gone, up, IsAcyclic}

-- The chain of an employee without a manager.
walk-top :
    (employees : Employees) (depth : ℕ) (seen : List ℕ) (k : ℕ)
    → is_seen k seen ≡ false
    → employees k ≡ some none
    → walk employees (suc (suc depth)) seen (some k) ≡ false
unfolding walk
walk-top employees depth seen k new found = rw (new, found) refl

checked :
    (employees : Employees) (a b : ℕ)
    → (a == b) ≡ false
    → employees b ≡ some none
    → manager_assignment_would_cycle employees a b ≡ false
unfolding manager_assignment_would_cycle
checked employees a b apart found =
    rw apart (walk-top employees 254 (a ∷ []) b (ground arith) found)

module _ (employees : Employees) (a b : ℕ) (apart : (a == b) ≡ false) where
  crossed : Employees
  crossed = set_manager a b (set_manager b a employees)

  row_a : crossed a ≡ some (some b)
  unfolding crossed set_manager
  row_a = rw (==_refl a) refl

  row_b : crossed b ≡ some (some a)
  unfolding crossed set_manager
  row_b = ground arith

  loops : {c : Option ℕ} → Ends crossed c → (c ≡ some a) ⊎ (c ≡ some b) → ⊥
  loops top (inl e) = none≢some e
  loops top (inr e) = none≢some e
  loops (gone {k = k} missing) (inl e) = ground (arith, e, missing, row_a)
  loops (gone {k = k} missing) (inr e) = ground (arith, e, missing, row_b)
  loops (up {k = k} found rest) (inl e) = loops rest (inr (ground (arith, e, found, row_a)))
  loops (up {k = k} found rest) (inr e) = loops rest (inl (ground (arith, e, found, row_b)))

-- Two employees without a manager, each given the other as manager: both checks pass on the rows as
-- they were, and storing both changes then leaves a cycle.
pub crossed_managers :
    (employees : Employees) (a b : ℕ)
    → (a == b) ≡ false
    → employees a ≡ some none
    → employees b ≡ some none
    → (manager_assignment_would_cycle employees a b ≡ false)
      × (manager_assignment_would_cycle employees b a ≡ false)
      × (IsAcyclic (set_manager a b (set_manager b a employees)) → ⊥)
crossed_managers employees a b apart found_a found_b = (
  checked employees a b apart found_b,
  checked employees b a (ground arith) found_a,
  λ acyclic. loops employees a b apart {c = some a} (unfold crossed in acyclic a) (inl refl),
)
