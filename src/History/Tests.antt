-- ===== src/History/Tests.antt =====
-- Runs of the selection.
use onboard_ai.Common.Text.{codes}
use onboard_ai.History.{HistoryTurn, user, assistant}

abbrev question : HistoryTurn
question = record { role = user; content = codes "who approves leave?" }

abbrev answer : HistoryTurn
answer = record { role = assistant; content = codes "your manager" }
