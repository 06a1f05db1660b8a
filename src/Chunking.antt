-- ===== src/Chunking.antt =====
-- Chunks of a knowledge article: app/services/ai/chunking.py. The conversion of HTML is a parameter,
-- being calls of Python's `re` and `html`. The sizes are the code's defaults or arguments; that they
-- are whole numbers is their type.
pub mod Cover
pub mod Total
mod Tests
use onboard_ai.Common.{
  ℕ, zero, suc, ◌+◌, ◌-◌, ◌*◌, ◌/◌, min, max, Bool, true, false, ◌&&◌, ◌||◌, not, Option, none,
  some, List, [], ◌∷◌, ◌++◌, length, take, drop, leb, ltb, ◌==◌, if◌then◌else◌, Result, ok, err,
  validation, runtime, ◌>>=◌, ◌>>◌, require, given,
}
use onboard_ai.Common.Text.{Text, codes, text_eq, lower, strip}

abbrev pub default_chunk_size : ℕ
default_chunk_size = 1500

abbrev pub default_overlap : ℕ
default_overlap = 200

abbrev pub small_article : ℕ
small_article = 1500

abbrev pub max_chunk_chars_safe : ℕ
max_chunk_chars_safe = 6000

-- `_BREAKS`, without the empty one that ends it.
abbrev pub breaks : List Text
breaks =
    (10 ∷ codes "## ")
    ∷ (10 ∷ codes "# ")
    ∷ (10 ∷ 10 ∷ [])
    ∷ (10 ∷ [])
    ∷ codes ". "
    ∷ codes "? "
    ∷ codes "! "
    ∷ codes " "
    ∷ []

-- `replace("\\r\\n", "\\n")`, and `replace("\\r", "\\n")`.
pub join_lines : Text → Text
join_lines [] = []
join_lines (c ∷ []) = c ∷ []
join_lines (c ∷ d ∷ cs) =
    let rest = join_lines (d ∷ cs) in if c == 13 && d == 10 then rest else c ∷ rest

pub line_char : ℕ → ℕ
line_char c = if c == 13 then 10 else c

pub line_chars : Text → Text
unfolding line_char
line_chars [] = []
line_chars (c ∷ cs) = line_char c ∷ line_chars cs

unfoldable pub normalize : Text → Text
unfolding join_lines line_chars
normalize s = strip (line_chars (join_lines s))

abbrev pub is_blank : Text → Bool
is_blank [] = true
is_blank (c ∷ cs) = false

-- `s.startswith(t)`
pub starts_with : Text → Text → Bool
starts_with [] s = true
starts_with (c ∷ cs) [] = false
starts_with (c ∷ cs) (d ∷ ds) = (c == d) && starts_with cs ds

abbrev or_here : Bool → Option ℕ → Option ℕ
or_here here (some i) = some (suc i)
or_here true none = some 0
or_here false none = none

-- `s.rfind(sep)` of a separator that is not empty; none for -1.
pub rfind : Text → Text → Option ℕ
unfolding starts_with
rfind sep [] = none
rfind sep (c ∷ cs) = or_here (starts_with sep (c ∷ cs)) (rfind sep cs)

-- Where the first separator of the list breaks the window, past its middle.
pub break_in : Text → ℕ → List Text → Option ℕ
unfolding rfind
break_in window min_pos [] = none
break_in window min_pos (sep ∷ seps) = elim (rfind sep window) [
  | none ↦ break_in window min_pos seps
  | some i ↦ if leb min_pos i then some (i + length sep) else break_in window min_pos seps
]

-- `text[start:end]`
abbrev pub slice : Text → ℕ → ℕ → Text
slice s first last = take (last - first) (drop first s)

pub best_break : Text → ℕ → ℕ → ℕ
unfolding break_in
best_break s first last =
    let window = slice s first last in
    elim (break_in window (max (length window / 2) 1) breaks) [ none ↦ last | some i ↦ first + i ]

pub record Window : Type 0 where
  pub first : ℕ
  pub last : ℕ

-- The end of the window that begins at `first`.
pub window_end : Text → ℕ → ℕ → ℕ
unfolding best_break
window_end s size first =
    let last = min (first + size) (length s) in
    if ltb last (length s)
    then (let broken = best_break s first last in if leb broken first then last else broken)
    else last

pub next_start : ℕ → ℕ → ℕ → ℕ
next_start overlap first last = if leb (last - overlap) first then last else last - overlap

-- The loop of `split_windows`, whose windows become pieces; none when the fuel is used up.
pub windows : ℕ → Text → ℕ → ℕ → ℕ → Option (List Window)
unfolding window_end next_start
windows zero s size overlap first = none
windows (suc fuel) s size overlap first =
    let last = window_end s size first in
    let rest = windows fuel s size overlap (next_start overlap first last) in
    if leb (length s) first
    then some []
    else (if leb (length s) last
        then some (record { first = first; last = last } ∷ [])
        else elim rest [
          | none ↦ none
          | some ws ↦ some (record { first = first; last = last } ∷ ws)
        ])

pub pieces : Text → List Window → List Text
pieces s [] = []
pieces s (w ∷ ws) =
    let rest = pieces s ws in
    if is_blank (strip (slice s w.first w.last))
    then rest
    else strip (slice s w.first w.last) ∷ rest

abbrev windows_of : Text → ℕ → ℕ → Option (List Window)
windows_of s size overlap = windows (length s) s size overlap 0

-- A loop that does not end has no result; `runtime` stands for it, and is never reached.
unfoldable pub split_windows : Text → ℕ → ℕ → Result (List Text)
unfolding windows pieces
split_windows raw size overlap = do
  require (leb 1 size) validation
  require (ltb overlap size) validation
  let s = normalize raw
  (if is_blank s
      then ok []
      else (if leb (length s) size then ok (s ∷ []) else elim (windows_of s size overlap) [
        | none ↦ err runtime
        | some ws ↦ ok (pieces s ws)
      ]))

-- `extract_index_text`, of the body.
pub index_body : (Text → Text) → Text → Text → Text
index_body html_to_text body body_format =
    if text_eq (lower body_format) (codes "html")
    then normalize (html_to_text body)
    else normalize body

-- Each piece after the title, in the order of the article.
pub titled_chunks : Text → ℕ → List Text → Result (List Text)
titled_chunks prefix most [] = ok []
titled_chunks prefix most (piece ∷ more) =
    if is_blank (strip (prefix ++ piece)) then titled_chunks prefix most more else (do
      require (leb (length (strip (prefix ++ piece))) most) validation
      rest ← titled_chunks prefix most more
      ok (strip (prefix ++ piece) ∷ rest))

abbrev pub prefix_of : Text → Text
prefix_of [] = []
prefix_of (c ∷ cs) = (c ∷ cs) ++ 10 ∷ 10 ∷ []

-- `chunk_size - len(prefix)`, and the whole size where that is below 32.
pub body_window : ℕ → Text → ℕ
body_window chunk_size prefix =
    if ltb chunk_size (length prefix + 32) then chunk_size else chunk_size - length prefix

-- The chunks of the normalized title and body.
pub chunk_parts : Text → Text → ℕ → ℕ → ℕ → Result (List Text)
unfolding body_window split_windows titled_chunks
chunk_parts title body chunk_size overlap most =
    let prefix = prefix_of title in
    if is_blank body
    then ok (if is_blank title then [] else title ∷ [])
    else (if leb (length prefix + length body) small_article
        then ok (if is_blank (strip (prefix ++ body)) then [] else (prefix ++ body) ∷ [])
        else (do
          parts ← split_windows body (body_window chunk_size prefix) overlap
          titled_chunks prefix most parts))

unfoldable pub chunk_article : (Text → Text) → Text → Text → Text → ℕ → ℕ → ℕ → Result (List Text)
unfolding index_body chunk_parts
chunk_article html_to_text title body body_format chunk_size overlap most =
    chunk_parts (normalize title) (index_body html_to_text body body_format) chunk_size overlap most
