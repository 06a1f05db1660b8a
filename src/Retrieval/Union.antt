-- ===== src/Retrieval/Union.antt =====
-- The rows of a union of searches are rows of the searches.
use onboard_ai.Common.{inl, inr, Option, none, some, List, [], ◌∷◌, ◌==◌, All, Bool-cases}
use onboard_ai.Retrieval.{
  Floats, Chunk, SearchRow, put_row, keep_nearer, nearer_row, nearer_rows, nearer_groups,
  union_vector_rows,
}

-- The union of searches has rows of the searches.
module _ (fl : Floats) (P : Chunk → Type 0) where
  All-put_row :
      (r : SearchRow fl) (rows : List (SearchRow fl))
      → P r.chunk
      → All (λ x. P x.chunk) rows
      → All (λ x. P x.chunk) (put_row fl r rows)
  unfolding put_row
  All-put_row r [] h k = (h, tt)
  All-put_row r (x ∷ xs) h k = elim (Bool-cases (x.chunk.id == r.chunk.id)) [
    | inl same ↦ rw same (h, k.1)
    | inr other ↦ rw other (k.0, All-put_row r xs h k.1)
  ]

  All-keep_nearer :
      (o : Option (SearchRow fl)) (r : SearchRow fl) (best : List (SearchRow fl))
      → P r.chunk
      → All (λ x. P x.chunk) best
      → All (λ x. P x.chunk) (keep_nearer fl o r best)
  unfolding keep_nearer
  All-keep_nearer none r best h k = All-put_row r best h k
  All-keep_nearer (some current) r best h k = elim (Bool-cases (fl.lt r.value current.value)) [
    | inl nearer ↦ rw nearer (All-put_row r best h k)
    | inr farther ↦ rw farther k
  ]

  All-nearer_rows :
      (best rows : List (SearchRow fl))
      → All (λ x. P x.chunk) rows
      → All (λ x. P x.chunk) best
      → All (λ x. P x.chunk) (nearer_rows fl best rows)
  unfolding nearer_rows nearer_row
  All-nearer_rows best [] h k = k
  All-nearer_rows best (r ∷ rows) h k =
      All-nearer_rows (nearer_row fl best r) rows h.1 (All-keep_nearer _ r best h.0 k)

  All-nearer_groups :
      (best : List (SearchRow fl)) (groups : List (List (SearchRow fl)))
      → All (All (λ x. P x.chunk)) groups
      → All (λ x. P x.chunk) best
      → All (λ x. P x.chunk) (nearer_groups fl best groups)
  unfolding nearer_groups
  All-nearer_groups best [] h k = k
  All-nearer_groups best (rows ∷ groups) h k =
      All-nearer_groups (nearer_rows fl best rows) groups h.1 (All-nearer_rows best rows h.0 k)

  pub All-union :
      (groups : List (List (SearchRow fl)))
      → All (All (λ x. P x.chunk)) groups
      → All (λ x. P x.chunk) (union_vector_rows fl groups)
  unfolding union_vector_rows
  All-union groups h = All-nearer_groups [] groups h tt
