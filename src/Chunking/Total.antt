-- ===== src/Chunking/Total.antt =====
-- The chunking ends, with chunks that are small enough.
use onboard_ai.Common.{
  ℕ, ◌+◌, ◌≤◌, ◌<◌, ◌≡◌, refl, inl, inr, arith, true, false, List, [], ◌∷◌, ◌++◌, All, length,
  length-append, leb, ltb, Bool-cases, if◌then◌else◌, leb→le, leb→gt, le→leb, ok, All-weaken,
}
use onboard_ai.Common.Text.{Text, strip, length-strip-le}
use onboard_ai.Chunking.{
  default_chunk_size, default_overlap, max_chunk_chars_safe, small_article, join_lines, line_chars,
  normalize, is_blank, slice, Window, pieces, split_windows, index_body, titled_chunks, prefix_of,
  body_window, chunk_parts, chunk_article,
}
use onboard_ai.Chunking.Cover.{IsCover, length-slice-le, windows-IsCover}

length-join_lines-le : (s : Text) → length (join_lines s) ≤ length s
unfolding join_lines
length-join_lines-le [] = omega arith
length-join_lines-le (c ∷ []) = omega arith
length-join_lines-le (c ∷ d ∷ cs) = ground (arith, length-join_lines-le (d ∷ cs))

length-line_chars : (s : Text) → length (line_chars s) ≡ length s
unfolding line_chars
length-line_chars [] = refl
length-line_chars (c ∷ cs) = omega (arith, length-line_chars cs)

length-normalize-le : (s : Text) → length (normalize s) ≤ length s
unfolding normalize
length-normalize-le s = omega (
  arith,
  length-strip-le (line_chars (join_lines s)),
  length-line_chars (join_lines s),
  length-join_lines-le s,
)

-- At most `size` characters, and at least one.
abbrev pub IsPiece : ℕ → Text → Type 0
IsPiece size s = (1 ≤ length s) × (length s ≤ size)

IsPiece-strip : (size : ℕ) (s : Text) → is_blank s ≡ false → length s ≤ size → IsPiece size s
IsPiece-strip size [] h e = cc
IsPiece-strip size (c ∷ cs) h e = (omega arith, e)

pieces-IsPiece :
    (size n reached : ℕ) (s : Text) (ws : List Window)
    → IsCover size n reached ws
    → All (IsPiece size) (pieces s ws)
unfolding pieces
pieces-IsPiece size n reached s [] h = tt
pieces-IsPiece size n reached s (w ∷ ws) h =
    let piece = strip (slice s w.first w.last) in
    let small : length piece ≤ size = omega (
      arith,
      length-strip-le (slice s w.first w.last),
      length-slice-le s w.first w.last,
      h.2,
      h.1,
    ) in
    elim (Bool-cases (is_blank piece)) [
      | inl blank ↦ rw blank (pieces-IsPiece size n w.last s ws h.4)
      | inr black ↦
          rw black (IsPiece-strip size piece black small, pieces-IsPiece size n w.last s ws h.4)
    ]

-- For every text, size and overlap that is smaller than the size, the splitting ends without an error,
-- and each of its pieces has at least one and at most `size` characters.
split_windows-IsPiece :
    (raw : Text) (size overlap : ℕ)
    → overlap < size
    → (parts : List Text) × (split_windows raw size overlap ≡ ok parts) × All (IsPiece size) parts
unfolding split_windows
split_windows-IsPiece raw size overlap h =
    let s = normalize raw in
    let positive : leb 1 size ≡ true = ground (arith, h) in
    let smaller : ltb overlap size ≡ true = ground (arith, h) in
    elim (Bool-cases (is_blank s)) [
      | inl blank ↦ ([], rw (split_windows, positive, smaller, blank) refl, tt)
      | inr black ↦ elim (Bool-cases (leb (length s) size)) [
        | inl short ↦ (
          s ∷ [],
          rw (split_windows, positive, smaller, black, short) refl,
          (IsPiece-strip size s black (leb→le (length s) size short), tt),
        )
        | inr long ↦
            let (ws, found, cover) =
              windows-IsCover (length s) s size overlap 0 0 (omega (arith, h))
                (omega (arith, leb→gt (length s) size long)) (omega arith) (omega arith) in
            (
              pieces s ws,
              rw (split_windows, positive, smaller, black, long, found) refl,
              pieces-IsPiece size (length s) 0 s ws cover,
            )
      ]
    ]

titled_chunks-small :
    (prefix : Text) (most size : ℕ) (parts : List Text)
    → All (IsPiece size) parts
    → length prefix + size ≤ most
    → (chunks : List Text) × (titled_chunks prefix most parts ≡ ok chunks)
      × All (IsPiece (length prefix + size)) chunks
unfolding titled_chunks
titled_chunks-small prefix most size [] h e = ([], refl, tt)
titled_chunks-small prefix most size (piece ∷ parts) h e =
    let content = strip (prefix ++ piece) in
    let small : length content ≤ length prefix + size =
      omega (arith, length-strip-le (prefix ++ piece), length-append prefix piece, h.0.1) in
    let fits : leb (length content) most ≡ true =
      le→leb (length content) most (omega (arith, small, e)) in
    let (chunks, made, sizes) = titled_chunks-small prefix most size parts h.1 e in
    elim (Bool-cases (is_blank content)) [
      | inl blank ↦ (chunks, rw blank made, sizes)
      | inr black ↦ (
        content ∷ chunks,
        rw (black, fits, made) refl,
        (IsPiece-strip (length prefix + size) content black small, sizes),
      )
    ]

length-prefix_of-le : (title : Text) → length (prefix_of title) ≤ length title + 2
length-prefix_of-le [] = omega arith
length-prefix_of-le (c ∷ cs) = omega (arith, length-append cs (10 ∷ 10 ∷ []))

-- The window after a title of at most 500 characters: it leaves room for the title and is longer than
-- the overlap.
body_window-bounds :
    (prefix : Text)
    → length prefix ≤ 502
    → (default_overlap < body_window default_chunk_size prefix)
      × (length prefix + body_window default_chunk_size prefix ≤ default_chunk_size)
unfolding body_window
body_window-bounds prefix h = ground (arith, h)

title_chunk :
    (title : Text)
    → length title ≤ 500
    → All (IsPiece default_chunk_size) (if is_blank title then [] else title ∷ [])
title_chunk [] h = tt
title_chunk (c ∷ cs) h = ((omega arith, omega (arith, h)), tt)

abbrev IsChunked : Text → Text → Type 0
IsChunked title body =
    (chunks : List Text) × (chunk_parts title body default_chunk_size default_overlap
        max_chunk_chars_safe
      ≡ ok chunks)
    × All (IsPiece default_chunk_size) chunks

small_chunk :
    (s : Text)
    → length s ≤ small_article
    → All (IsPiece default_chunk_size) (if is_blank (strip s) then [] else s ∷ [])
unfolding strip
small_chunk [] h = tt
small_chunk (c ∷ cs) h = elim (Bool-cases (is_blank (strip (c ∷ cs)))) [
  | inl blank ↦ rw blank tt
  | inr black ↦ rw black ((omega arith, h), tt)
]

chunk_parts-small : (title body : Text) → length title ≤ 500 → IsChunked title body
unfolding chunk_parts
chunk_parts-small title body h =
    let prefix = prefix_of title in
    let short : length prefix ≤ 502 = omega (arith, length-prefix_of-le title, h) in
    elim (Bool-cases (is_blank body)) [
      | inl blank ↦
          ((if is_blank title then [] else title ∷ []), rw blank refl, title_chunk title h)
      | inr black ↦ elim (Bool-cases (leb (length prefix + length body) small_article)) [
        | inl little ↦ (
          (if is_blank (strip (prefix ++ body)) then [] else (prefix ++ body) ∷ []),
          rw (black, little) refl,
          small_chunk (prefix ++ body) (
              omega (
                arith,
                length-append prefix body,
                leb→le (length prefix + length body) small_article little,
              )),
        )
        | inr much ↦
            let room = body_window-bounds prefix short in
            let (parts, split, sizes) =
              split_windows-IsPiece body (body_window default_chunk_size prefix) default_overlap
                room.0 in
            let (chunks, made, small) =
              titled_chunks-small prefix max_chunk_chars_safe
                (body_window default_chunk_size prefix) parts sizes (omega (arith, room.1)) in
            (
              chunks,
              rw (black, much, split) made,
              All-weaken (IsPiece (length prefix + body_window default_chunk_size prefix))
                  (IsPiece default_chunk_size) chunks (λ c p. (p.0, omega (arith, p.1, room.1)))
                  small,
            )
      ]
    ]

-- An article whose title has at most 500 characters, which is what the interface accepts, is chunked
-- without an error whatever its body and however HTML is converted, with the default sizes, and
-- every chunk has at least one and at most 1500 characters.
pub chunk_article_total :
    (html_to_text : Text → Text) (title body body_format : Text)
    → length title ≤ 500
    → (chunks : List Text) × (chunk_article html_to_text title body body_format default_chunk_size
          default_overlap max_chunk_chars_safe
        ≡ ok chunks)
      × All (IsPiece default_chunk_size) chunks
unfolding chunk_article
chunk_article_total html_to_text title body body_format h =
    chunk_parts-small (normalize title) (index_body html_to_text body body_format)
      (omega (arith, length-normalize-le title, h))
