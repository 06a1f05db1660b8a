-- ===== src/Chunking/Tests.antt =====
-- Runs of the chunking on short texts and small sizes.
use onboard_ai.Common.{◌≡◌, refl, arith, List, [], ◌∷◌, ◌++◌, All, ok, err, validation}
use onboard_ai.Common.Text.{Text, codes, strip, text_eq, lower}
use onboard_ai.Chunking.{
  default_chunk_size, default_overlap, max_chunk_chars_safe, normalize, split_windows,
  chunk_article,
}
use onboard_ai.Chunking.Total.{IsPiece, chunk_article_total}

splits :
    split_windows (codes "one two three four") 9 2
    ≡ ok (codes "one two" ∷ codes "o three" ∷ codes "e four" ∷ [])
unfolding split_windows normalize strip
splits = refl

refuses : split_windows (codes "one") 3 3 ≡ err validation
unfolding split_windows
refuses = refl

titles :
    chunk_article (λ s. s) (codes "Leave") (codes "Ask first.") (codes "markdown") 1500 200 6000
    ≡ ok ((codes "Leave" ++ 10 ∷ 10 ∷ codes "Ask first.") ∷ [])
unfolding chunk_article normalize strip text_eq lower
titles = refl

chunk_article_total_example :
    (chunks : List Text) × (chunk_article
        (λ s. s)
        (codes "Leave")
        (codes "Ask first.")
        (codes "html")
        default_chunk_size
        default_overlap
        max_chunk_chars_safe
      ≡ ok chunks)
    × All (IsPiece default_chunk_size) chunks
chunk_article_total_example =
    chunk_article_total (λ s. s) (codes "Leave") (codes "Ask first.") (codes "html") (omega arith)
