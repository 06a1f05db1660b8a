-- ===== src/History/Order.antt =====
-- The turns that are selected are turns of the conversation, in its order.
use onboard_ai.Common.{
  append_nil, ℕ, zero, suc, ◌+◌, ◌-◌, ◌≡◌, refl, ◌∙◌, subst, List, [], ◌∷◌, ◌++◌, ltb, length, drop,
  Bool-cases, inl, inr,
}
use onboard_ai.History.{HistoryTurn, is_empty, choose, backwards, newest}

-- The first list is the second with some elements left out.
pub data IsWithin : List HistoryTurn → List HistoryTurn → Type 0 where
  ends : IsWithin [] []
  skips : {t : HistoryTurn} {xs ys : List HistoryTurn} → IsWithin xs ys → IsWithin xs (t ∷ ys)
  takes : {t : HistoryTurn} {xs ys : List HistoryTurn} → IsWithin xs ys → IsWithin (t ∷ xs) (t ∷ ys)

IsWithin-refl : (xs : List HistoryTurn) → IsWithin xs xs
IsWithin-refl [] = ends
IsWithin-refl (t ∷ ts) = takes (IsWithin-refl ts)

IsWithin-trans : {xs ys zs : List HistoryTurn} → IsWithin xs ys → IsWithin ys zs → IsWithin xs zs
IsWithin-trans p ends = p
IsWithin-trans p (skips q) = skips (IsWithin-trans p q)
IsWithin-trans (skips p) (takes q) = skips (IsWithin-trans p q)
IsWithin-trans (takes p) (takes q) = takes (IsWithin-trans p q)

backwards-IsWithin :
    (older : List HistoryTurn) {xs ys : List HistoryTurn}
    → IsWithin xs ys
    → IsWithin (backwards older xs) (backwards older ys)
unfolding backwards
backwards-IsWithin [] p = p
backwards-IsWithin (t ∷ older) p = backwards-IsWithin older (takes p)

IsWithin-backwards :
    (older : List HistoryTurn) {xs ys : List HistoryTurn}
    → IsWithin xs ys
    → IsWithin xs (backwards older ys)
unfolding backwards
IsWithin-backwards [] p = p
IsWithin-backwards (t ∷ older) p = IsWithin-backwards older (skips p)

choose-IsWithin :
    (max_chars : ℕ) (selected : List HistoryTurn) (total : ℕ) (older : List HistoryTurn)
    → IsWithin (choose max_chars selected total older) (backwards older selected)
unfolding choose backwards
choose-IsWithin max_chars selected total [] = IsWithin-refl selected
choose-IsWithin max_chars selected total (t ∷ older) =
    elim (Bool-cases (ltb max_chars (length t.content))) [
      | inl long ↦
          rw (long, choose)
            (IsWithin-trans (choose-IsWithin max_chars selected total older)
              (backwards-IsWithin older (skips (IsWithin-refl selected))))
      | inr short ↦
          rw (short, choose)
            (elim (Bool-cases (is_empty selected)) [
              | inl first ↦
                  rw first
                    (choose-IsWithin max_chars (t ∷ selected) (total + length t.content) older)
              | inr later ↦ rw later (elim (Bool-cases (ltb max_chars (total + length t.content))) [
                | inl full ↦ rw full (IsWithin-backwards older (skips (IsWithin-refl selected)))
                | inr fits ↦
                    rw fits
                      (choose-IsWithin max_chars (t ∷ selected) (total + length t.content) older)
              ])
            ])
    ]

backwards-backwards :
    (xs ys zs : List HistoryTurn) → backwards (backwards xs ys) zs ≡ backwards ys (xs ++ zs)
unfolding backwards
backwards-backwards [] ys zs = refl
backwards-backwards (x ∷ xs) ys zs = backwards-backwards xs (x ∷ ys) zs

drop-IsWithin : (n : ℕ) (xs : List HistoryTurn) → IsWithin (drop n xs) xs
drop-IsWithin zero xs = IsWithin-refl xs
drop-IsWithin (suc n) [] = ends
drop-IsWithin (suc n) (x ∷ xs) = skips (drop-IsWithin n xs)

backwards_twice : (xs : List HistoryTurn) → backwards (backwards xs []) [] ≡ xs
unfolding backwards
backwards_twice xs = backwards-backwards xs [] [] ∙ append_nil xs

-- What is chosen of the newest turns.
pub choose-newest-IsWithin :
    (max_messages max_chars : ℕ) (turns : List HistoryTurn)
    → IsWithin (choose max_chars [] 0 (backwards (newest max_messages turns) [])) turns
unfolding newest
choose-newest-IsWithin max_messages max_chars turns =
    let recent = drop (length turns - max_messages) turns in
    IsWithin-trans
      (subst (IsWithin _) (backwards_twice recent)
        (choose-IsWithin max_chars [] 0 (backwards recent [])))
      (drop-IsWithin (length turns - max_messages) turns)
