-- ===== src/Chunking/Cover.antt =====
-- The windows of split_windows: each ends after it begins and is no longer than the size, and
-- together they cover the text.
use onboard_ai.Common.{
  ℕ, zero, suc, ◌+◌, ◌-◌, ◌/◌, min, max, ◌≤◌, ◌<◌, ◌≡◌, refl, inl, inr, arith, true, false, some,
  List, [], ◌∷◌, length, take, drop, leb, Bool-cases, Option-cases, leb→le, leb→gt, lt→leb,
}
use onboard_ai.Common.Text.{Text}
use onboard_ai.Chunking.{
  breaks, starts_with, rfind, break_in, slice, best_break, Window, window_end, next_start, windows,
}

starts_with-length : (t s : Text) → starts_with t s ≡ true → length t ≤ length s
unfolding starts_with
starts_with-length [] s h = omega arith
starts_with-length (c ∷ cs) [] h = cc
starts_with-length (c ∷ cs) (d ∷ ds) h = ground (arith, starts_with-length cs ds)

-- The separator that is found lies in the text.
rfind-length : (sep s : Text) (i : ℕ) → rfind sep s ≡ some i → i + length sep ≤ length s
unfolding rfind
rfind-length sep [] i h = cc
rfind-length sep (c ∷ cs) i h = elim (Option-cases (rfind sep cs)) [
  | inl gone ↦ ground (arith, gone, h, starts_with-length sep (c ∷ cs))
  | inr (j, later) ↦ ground (arith, later, h, rfind-length sep cs j later)
]

break_in-length :
    (window : Text) (m : ℕ) (seps : List Text) (i : ℕ)
    → break_in window m seps ≡ some i
    → (m ≤ i) × (i ≤ length window)
unfolding break_in
break_in-length window m [] i h = cc
break_in-length window m (sep ∷ seps) i h = elim (Option-cases (rfind sep window)) [
  | inl gone ↦ break_in-length window m seps i (rw (gone, break_in) at h)
  | inr (j, found) ↦ elim (Bool-cases (leb m j)) [
    | inl far ↦ ground (arith, found, far, h, rfind-length sep window j found)
    | inr near ↦ break_in-length window m seps i (rw (found, break_in, near) at h)
  ]
]

length-drop : (s : Text) (n : ℕ) → length (drop n s) ≡ length s - n
length-drop s zero = omega arith
length-drop [] (suc n) = omega arith
length-drop (c ∷ cs) (suc n) = omega (arith, length-drop cs n)

length-take-le : (s : Text) (n : ℕ) → length (take n s) ≤ n
length-take-le s zero = omega arith
length-take-le [] (suc n) = omega arith
length-take-le (c ∷ cs) (suc n) = omega (arith, length-take-le cs n)

pub length-slice-le : (s : Text) (first last : ℕ) → length (slice s first last) ≤ last - first
length-slice-le s first last = length-take-le (drop first s) (last - first)

-- A break lies after the beginning of its window, and not after its end.
best_break-bounds :
    (s : Text) (first last : ℕ)
    → first < last
    → (first < best_break s first last) × (best_break s first last ≤ last)
unfolding best_break
best_break-bounds s first last h =
    let window = slice s first last in
    elim (Option-cases (break_in window (max (length window / 2) 1) breaks)) [
      | inl gone ↦ rw (gone, best_break) (h, omega arith)
      | inr (i, found) ↦
          let bounds = break_in-length window (max (length window / 2) 1) breaks i found in
          rw (found, best_break)
            (omega (arith, bounds.0), omega (arith, bounds.1, length-slice-le s first last))
    ]

window_end-bounds :
    (s : Text) (size first : ℕ)
    → 1 ≤ size
    → first < length s
    → (first < window_end s size first)
      × (window_end s size first ≤ first + size)
      × (window_end s size first ≤ length s)
unfolding window_end
window_end-bounds s size first h below =
    ground (arith, best_break-bounds s first (min (first + size) (length s)))

next_start-bounds :
    (overlap first last : ℕ)
    → first < last
    → (first < next_start overlap first last) × (next_start overlap first last ≤ last)
unfolding next_start
next_start-bounds overlap first last h = ground arith

-- Every place of the text from `reached` on is in a window of at most `size` places.
abbrev pub IsCover : ℕ → ℕ → ℕ → List Window → Type 0
IsCover size n reached [] = reached ≡ n
IsCover size n reached (w ∷ ws) =
    (w.first ≤ reached)
    × (w.first < w.last)
    × (w.last ≤ w.first + size)
    × (w.last ≤ n)
    × IsCover size n w.last ws

-- Whatever the overlap is, fuel for the places that are left is enough, and the windows cover
-- them.
pub windows-IsCover :
    (fuel : ℕ) (s : Text) (size overlap first reached : ℕ)
    → 1 ≤ size
    → first < length s
    → length s ≤ first + fuel
    → first ≤ reached
    → (ws : List Window) × (windows fuel s size overlap first ≡ some ws)
      × IsCover size (length s) reached ws
unfolding windows
windows-IsCover zero s size overlap first reached h below enough from =
    absurd (omega (arith, below, enough))
windows-IsCover (suc fuel) s size overlap first reached h below enough from =
    let last = window_end s size first in
    let bounds = window_end-bounds s size first h below in
    let next = next_start-bounds overlap first last bounds.0 in
    let ahead : leb (length s) first ≡ false = lt→leb (length s) first below in
    elim (Bool-cases (leb (length s) last)) [
      | inl ends ↦ (
        record { first = first; last = last } ∷ [],
        rw (ahead, ends) refl,
        (from, bounds.0, bounds.1, bounds.2, omega (arith, leb→le (length s) last ends, bounds.2)),
      )
      | inr goes ↦
          let (ws, more, covered) =
            windows-IsCover fuel s size overlap (next_start overlap first last) last h
              (omega (arith, leb→gt (length s) last goes, next.1)) (omega (arith, next.0, enough))
              next.1 in
          (
            record { first = first; last = last } ∷ ws,
            rw (ahead, goes, more) refl,
            (from, bounds.0, bounds.1, bounds.2, covered),
          )
    ]
