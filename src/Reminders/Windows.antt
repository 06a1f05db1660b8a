-- ===== src/Reminders/Windows.antt =====
-- Windows of the day, overnight ones included.
use onboard_ai.Common.{ℕ, ◌≡◌, ◌≢◌, not, arith}
use onboard_ai.Reminders.{in_half_open_window}

-- Two different times of day cut the day in two: every moment lies in exactly one of the windows
-- between them, the one that runs overnight included.
windows_partition :
    (current start end : ℕ)
    → start ≢ end
    → in_half_open_window current end start ≡ not (in_half_open_window current start end)
unfolding in_half_open_window
windows_partition current start end apart = ground arith
