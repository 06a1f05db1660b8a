-- ===== src/Retrieval/Selection/Limits.antt =====
-- What holds of the hits however the loops choose them.
use onboard_ai.Common.{
  ℕ, ◌+◌, ◌≤◌, ◌<◌, ◌≡◌, refl, sym, ap, ◌∙◌, inl, inr, arith, false, Option, List, [], ◌∷◌, ◌++◌,
  map, any, keep, length, length-append, leb, ◌==◌, All, All-append, Unique, Unique-snoc,
  Bool-cases, if◌then◌else◌,
}
use onboard_ai.Common.Text.{Text}
use onboard_ai.Retrieval.{Floats, PoolEntry, RetrievalHit, hit_from_pool, below_min}
use onboard_ai.Retrieval.Selection.Reserves.{definitions_of-All, reserved_lexical_chunks-All}
use onboard_ai.Retrieval.Selection.Complete.{Settled, choose_by_score-Settled}
use onboard_ai.Retrieval.Selection.{
  Chosen, Definitions, nothing_chosen, is_seen, offer, offer_unseen, choose_definitions,
  choose_reserved, choose_by_score, reserved_definition_chunks, dedupe_and_score,
}

module _ (fl : Floats) where
  open fl use {Float, lt}

  -- How many of the hits are of an article.
  abbrev pub count_of : ℕ → List (RetrievalHit fl) → ℕ
  count_of k hits = length (keep (λ (h : RetrievalHit fl). k == h.article_id) hits)

  count_of-snoc :
      (k : ℕ) (hits : List (RetrievalHit fl)) (h : RetrievalHit fl)
      → count_of k (hits ++ h ∷ [])
        ≡ (if k == h.article_id then count_of k hits + 1 else count_of k hits)
  count_of-snoc k [] h = ground arith
  count_of-snoc k (x ∷ xs) h = ground (arith, count_of-snoc k xs h)

  pub any-ids :
      (k : ℕ) (hits : List (RetrievalHit fl))
      → any (λ j. j == k) (map (λ (h : RetrievalHit fl). h.chunk_id) hits)
        ≡ any (λ (h : RetrievalHit fl). h.chunk_id == k) hits
  any-ids k [] = refl
  any-ids k (x ∷ xs) = ground (arith, any-ids k xs)

  map-snoc :
      (hits : List (RetrievalHit fl)) (h : RetrievalHit fl)
      → map (λ (x : RetrievalHit fl). x.chunk_id) (hits ++ h ∷ [])
        ≡ map (λ (x : RetrievalHit fl). x.chunk_id) hits ++ h.chunk_id ∷ []
  map-snoc [] h = refl
  map-snoc (x ∷ xs) h = rw (map-snoc xs h) refl

  module _ (Good : PoolEntry fl → Type 0) (GoodHit : RetrievalHit fl → Type 0)
      (good : (e : PoolEntry fl) → Good e → GoodHit (hit_from_pool fl e)) (top_k : ℕ) where
    pub record IsWithin (c : Chosen fl) : Type 0 where
      pub few : length c.hits ≤ top_k
      pub counted : (k : ℕ) → c.seen_article k ≡ count_of k c.hits
      pub capped : (k : ℕ) → count_of k c.hits ≤ 2
      pub seen : c.seen_ids ≡ map (λ (h : RetrievalHit fl). h.chunk_id) c.hits
      pub unique : Unique (λ (h : RetrievalHit fl). h.chunk_id) c.hits
      pub fine : All GoodHit c.hits

    pub nothing_chosen-IsWithin : IsWithin (nothing_chosen fl)
    nothing_chosen-IsWithin = record {
      few = omega arith;
      counted = λ k. refl;
      capped = λ k. omega arith;
      seen = refl;
      unique = tt;
      fine = tt;
    }

    offer-IsWithin :
        (e : PoolEntry fl) (c : Chosen fl)
        → Good e
        → length c.hits < top_k
        → is_seen fl c e.chunk.id ≡ false
        → IsWithin c
        → IsWithin (offer fl e c)
    unfolding offer
    offer-IsWithin e c g room fresh w =
        elim (Bool-cases (leb 2 (c.seen_article e.chunk.article_id))) [
          | inl full ↦ rw full w
          | inr free ↦ rw free (record {
            few = omega (arith, length-append c.hits (hit_from_pool fl e ∷ []), room);
            counted = λ k. ground (arith, w.counted k, count_of-snoc k c.hits (hit_from_pool fl e));
            capped = λ k. ground (
              arith,
              w.counted k,
              w.capped k,
              count_of-snoc k c.hits (hit_from_pool fl e),
              w.counted e.chunk.article_id,
            );
            seen = rw (w.seen) (sym (map-snoc c.hits (hit_from_pool fl e)));
            unique =
                Unique-snoc _ c.hits (hit_from_pool fl e)
                  (sym (any-ids e.chunk.id c.hits)
                    ∙ ap (any (λ j. j == e.chunk.id)) (sym w.seen)
                    ∙ fresh)
                  w.unique;
            fine = All-append GoodHit c.hits (hit_from_pool fl e ∷ []) w.fine (good e g, tt);
          })
        ]

    offer_unseen-IsWithin :
        (e : PoolEntry fl) (c : Chosen fl)
        → Good e
        → length c.hits < top_k
        → IsWithin c
        → IsWithin (offer_unseen fl e c)
    unfolding offer_unseen
    offer_unseen-IsWithin e c g room w = elim (Bool-cases (is_seen fl c e.chunk.id)) [
      | inl seen_id ↦ rw seen_id w
      | inr fresh ↦ rw fresh (offer-IsWithin e c g room fresh w)
    ]

    choose_reserved-IsWithin :
        (entries : List (PoolEntry fl)) (c : Chosen fl)
        → All Good entries
        → IsWithin c
        → IsWithin (choose_reserved fl top_k entries c)
    unfolding choose_reserved
    choose_reserved-IsWithin [] c g w = w
    choose_reserved-IsWithin (e ∷ entries) c g w = elim (Bool-cases (leb top_k (length c.hits))) [
      | inl full ↦ rw full w
      | inr room ↦ rw room (
          choose_reserved-IsWithin entries (offer_unseen fl e c) g.1
            (offer_unseen-IsWithin e c g.0 (ground (arith, room)) w))
    ]

    -- The definitions come first, and there is at most one.
    choose_definitions-IsWithin :
        (entries : List (PoolEntry fl))
        → All Good entries
        → length entries ≤ 1
        → IsWithin (choose_definitions fl top_k entries (nothing_chosen fl))
    unfolding choose_definitions
    choose_definitions-IsWithin [] g one = nothing_chosen-IsWithin
    choose_definitions-IsWithin (e ∷ []) g one = elim (Bool-cases (leb top_k 0)) [
      | inl full ↦ rw full nothing_chosen-IsWithin
      | inr room ↦ rw room (
          offer-IsWithin e (nothing_chosen fl) g.0 (ground (arith, room)) refl
            nothing_chosen-IsWithin)
    ]
    choose_definitions-IsWithin (e ∷ e' ∷ entries) g one = absurd (omega (arith, one))

    module _ (min_score : Option Float) (Known : PoolEntry fl → Type 0)
        (know : (e : PoolEntry fl)
          → Known e
          → below_min fl min_score e.score ≡ false
          → Good e) where
      choose_by_score-IsWithin :
          (entries : List (PoolEntry fl)) (c : Chosen fl)
          → All Known entries
          → IsWithin c
          → IsWithin (choose_by_score fl top_k min_score entries c)
      unfolding choose_by_score
      choose_by_score-IsWithin [] c g w = w
      choose_by_score-IsWithin (e ∷ entries) c g w = elim (Bool-cases (leb top_k (length c.hits))) [
        | inl full ↦ rw full w
        | inr room ↦ elim (Bool-cases (below_min fl min_score e.score)) [
          | inl low ↦ rw (room, low) (choose_by_score-IsWithin entries c g.1 w)
          | inr high ↦
              rw (room, high)
                (choose_by_score-IsWithin entries (offer_unseen fl e c) g.1
                  (offer_unseen-IsWithin e c (know e g.0 high) (ground (arith, room)) w))
        ]
      ]

      module _ (defs : Definitions fl) where
        pub dedupe_and_score-IsWithin :
            (sorted_pool : List (PoolEntry fl)) (query : Text)
            → All Known sorted_pool
            → (c : Chosen fl) × (dedupe_and_score fl defs sorted_pool top_k min_score query
                ≡ c.hits)
              × IsWithin c
              × All (Settled fl top_k min_score c) sorted_pool
        unfolding dedupe_and_score reserved_definition_chunks
        dedupe_and_score-IsWithin sorted_pool query h =
            let (good_definitions, one) =
              definitions_of-All fl Good min_score Known know defs sorted_pool
                (defs.lookup_term query) h in
            (
              _,
              refl,
              choose_by_score-IsWithin sorted_pool _ h (
                  choose_reserved-IsWithin _ _
                    (reserved_lexical_chunks-All fl Good min_score Known know sorted_pool h)
                    (choose_definitions-IsWithin _ good_definitions one)),
              choose_by_score-Settled fl top_k min_score sorted_pool _,
            )
