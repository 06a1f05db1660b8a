-- ===== src/History.antt =====
-- The history of a conversation that goes into a prompt: app/services/ai/history.py.
pub mod Budget
pub mod Order
mod Tests
use onboard_ai.Common.{
  ℕ, ◌+◌, ◌-◌, Bool, true, false, ◌&&◌, List, [], ◌∷◌, ltb, ◌==◌, length, drop, if◌then◌else◌,
  Result, ok, err, validation,
}
use onboard_ai.Common.Text.{Text}

pub data Speaker : Type 0 where
  user assistant : Speaker

pub record HistoryTurn : Type 0 where
  pub role : Speaker
  pub content : Text

abbrev pub is_empty : List HistoryTurn → Bool
is_empty [] = true
is_empty (t ∷ ts) = false

-- The loop, newest turn first. `selected` is kept oldest first, as the source leaves it when it
-- has reversed it at the end.
pub choose : ℕ → List HistoryTurn → ℕ → List HistoryTurn → List HistoryTurn
choose max_chars selected total [] = selected
choose max_chars selected total (turn ∷ older) = elim (ltb max_chars (length turn.content)) [
  | true ↦ choose max_chars selected total older
  | false ↦ elim (is_empty selected) [
    | true ↦ choose max_chars (turn ∷ selected) (total + length turn.content) older
    | false ↦ elim (ltb max_chars (total + length turn.content)) [
      | true ↦ selected
      | false ↦ choose max_chars (turn ∷ selected) (total + length turn.content) older
    ]
  ]
]

pub backwards : List HistoryTurn → List HistoryTurn → List HistoryTurn
backwards [] done = done
backwards (t ∷ ts) done = backwards ts (t ∷ done)

-- `list(turns)[-max_messages:]`
pub newest : ℕ → List HistoryTurn → List HistoryTurn
newest max_messages turns = drop (length turns - max_messages) turns

pub select_history_for_llm : ℕ → ℕ → List HistoryTurn → Result (List HistoryTurn)
unfolding choose backwards newest
select_history_for_llm max_messages max_chars turns =
    if ltb max_messages 1
    then err validation
    else (if ltb max_chars 1
        then err validation
        else (if is_empty turns
            then ok []
            else ok (choose max_chars [] 0 (backwards (newest max_messages turns) []))))
