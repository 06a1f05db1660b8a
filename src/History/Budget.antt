-- ===== src/History/Budget.antt =====
-- The history stays within its budgets.
use onboard_ai.Common.{
  ℕ, zero, suc, ◌+◌, ◌-◌, ◌≡◌, ◌≤◌, refl, arith, List, [], ◌∷◌, length, drop, ok,
}
use onboard_ai.History.Order.{IsWithin, ends, choose-newest-IsWithin}
use onboard_ai.History.{HistoryTurn, choose, backwards, newest, select_history_for_llm}

-- The characters of the turns.
abbrev pub chars : List HistoryTurn → ℕ
chars [] = 0
chars (t ∷ ts) = length t.content + chars ts

choose-chars :
    (max_chars : ℕ) (selected : List HistoryTurn) (total : ℕ) (older : List HistoryTurn)
    → chars selected ≡ total
    → total ≤ max_chars
    → chars (choose max_chars selected total older) ≤ max_chars
unfolding choose
choose-chars max_chars selected total [] same fits = omega (arith, same, fits)
choose-chars max_chars [] total (t ∷ older) same fits = ground (
  arith,
  choose-chars max_chars [] total older,
  choose-chars max_chars (t ∷ []) (total + length t.content) older,
)
choose-chars max_chars (s ∷ ss) total (t ∷ older) same fits = ground (
  arith,
  choose-chars max_chars (s ∷ ss) total older,
  choose-chars max_chars (t ∷ s ∷ ss) (total + length t.content) older,
)

length-choose-le :
    (max_chars : ℕ) (selected : List HistoryTurn) (total : ℕ) (older : List HistoryTurn)
    → length (choose max_chars selected total older) ≤ length selected + length older
unfolding choose
length-choose-le max_chars selected total [] = omega arith
length-choose-le max_chars selected total (t ∷ older) = ground (
  arith,
  length-choose-le max_chars selected total older,
  length-choose-le max_chars (t ∷ selected) (total + length t.content) older,
)

length-backwards :
    (ts done : List HistoryTurn) → length (backwards ts done) ≡ length ts + length done
unfolding backwards
length-backwards [] done = omega arith
length-backwards (t ∷ ts) done = omega (arith, length-backwards ts (t ∷ done))

length-drop : (n : ℕ) (ts : List HistoryTurn) → length (drop n ts) ≡ length ts - n
length-drop zero ts = omega arith
length-drop (suc n) [] = omega arith
length-drop (suc n) (t ∷ ts) = omega (arith, length-drop n ts)

-- With both budgets at least 1 a history is always selected: turns of the conversation in its order,
-- with no more messages and no more characters than the budgets.
history_fits_budget :
    (max_messages max_chars : ℕ) (turns : List HistoryTurn)
    → 1 ≤ max_messages
    → 1 ≤ max_chars
    → (out : List HistoryTurn) × (select_history_for_llm max_messages max_chars turns ≡ ok out)
      × (length out ≤ max_messages)
      × (chars out ≤ max_chars)
      × IsWithin out turns
unfolding select_history_for_llm newest
history_fits_budget max_messages max_chars [] some_message some_char =
    ([], ground arith, omega arith, omega arith, ends)
history_fits_budget max_messages max_chars (t ∷ ts) some_message some_char = (
  choose max_chars [] 0 (backwards (newest max_messages (t ∷ ts)) []),
  ground arith,
  omega (
    arith,
    length-choose-le max_chars [] 0 (backwards (newest max_messages (t ∷ ts)) []),
    length-backwards (newest max_messages (t ∷ ts)) [],
    length-drop (length (t ∷ ts) - max_messages) (t ∷ ts),
  ),
  choose-chars max_chars [] 0 _ refl (omega arith),
  choose-newest-IsWithin max_messages max_chars (t ∷ ts),
)
