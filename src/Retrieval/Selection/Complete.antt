-- ===== src/Retrieval/Selection/Complete.antt =====
-- What the loops leave out: an entry that is not chosen has a reason.
use onboard_ai.Common.{
  ℕ, ◌≤◌, ◌≡◌, ◌⊎◌, refl, sym, subst, inl, inr, arith, true, Option, List, [], ◌∷◌, ◌++◌, any,
  length, length-append, leb, ◌==◌, All, All-true, Bool-cases,
}
use onboard_ai.Retrieval.{Floats, PoolEntry, hit_from_pool, below_min}
use onboard_ai.Retrieval.Selection.{Chosen, is_seen, offer, offer_unseen, choose_by_score}

module _ (fl : Floats) (top_k : ℕ) (min_score : Option fl.Float) where
  -- The entry is chosen, the hits are complete, its article has its two, or its score is too low.
  abbrev pub Settled : Chosen fl → PoolEntry fl → Type 0
  Settled c e =
      (is_seen fl c e.chunk.id ≡ true)
      ⊎ (top_k ≤ length c.hits)
      ⊎ (2 ≤ c.seen_article e.chunk.article_id)
      ⊎ (below_min fl min_score e.score ≡ true)

  any-snoc :
      (k j : ℕ) (ids : List ℕ)
      → any (λ i. i == k) ids ≡ true
      → any (λ i. i == k) (ids ++ j ∷ []) ≡ true
  any-snoc k j [] h = cc
  any-snoc k j (i ∷ ids) h = ground (arith, any-snoc k j ids)

  any_last : (k : ℕ) (ids : List ℕ) → any (λ i. i == k) (ids ++ k ∷ []) ≡ true
  any_last k [] = ground arith
  any_last k (i ∷ ids) = ground (arith, any_last k ids)

  -- A reason remains one.
  offer-Settled : (x e : PoolEntry fl) (c : Chosen fl) → Settled c e → Settled (offer fl x c) e
  unfolding offer
  offer-Settled x e c h = elim (Bool-cases (leb 2 (c.seen_article x.chunk.article_id))) [
    | inl full ↦ rw full h
    | inr free ↦ rw free (elim h [
      | inl chosen ↦ inl (any-snoc e.chunk.id x.chunk.id c.seen_ids chosen)
      | inr (inl complete) ↦
          inr (inl (omega (arith, complete, length-append c.hits (hit_from_pool fl x ∷ []))))
      | inr (inr (inl two)) ↦ inr (inr (inl (ground (arith, two))))
      | inr (inr (inr low)) ↦ inr (inr (inr low))
    ])
  ]

  offer_unseen-Settled :
      (x e : PoolEntry fl) (c : Chosen fl) → Settled c e → Settled (offer_unseen fl x c) e
  unfolding offer_unseen
  offer_unseen-Settled x e c h = elim (Bool-cases (is_seen fl c x.chunk.id)) [
    | inl seen_id ↦ rw seen_id h
    | inr fresh ↦ rw fresh (offer-Settled x e c h)
  ]

  -- An entry that is offered has one.
  offered-Settled : (e : PoolEntry fl) (c : Chosen fl) → Settled (offer_unseen fl e c) e
  unfolding offer_unseen offer
  offered-Settled e c = elim (Bool-cases (is_seen fl c e.chunk.id)) [
    | inl seen_id ↦ rw seen_id (inl seen_id)
    | inr fresh ↦ elim (Bool-cases (leb 2 (c.seen_article e.chunk.article_id))) [
      | inl full ↦ rw (fresh, full) (inr (inr (inl (ground (arith, full)))))
      | inr free ↦ rw (fresh, free) (inl (any_last e.chunk.id c.seen_ids))
    ]
  ]

  loop-Settled :
      (entries : List (PoolEntry fl)) (e : PoolEntry fl) (c : Chosen fl)
      → Settled c e
      → Settled (choose_by_score fl top_k min_score entries c) e
  unfolding choose_by_score
  loop-Settled [] e c h = h
  loop-Settled (x ∷ entries) e c h = elim (Bool-cases (leb top_k (length c.hits))) [
    | inl full ↦ rw full h
    | inr room ↦ elim (Bool-cases (below_min fl min_score x.score)) [
      | inl low ↦ rw (room, low) (loop-Settled entries e c h)
      | inr high ↦
          rw (room, high)
            (loop-Settled entries e (offer_unseen fl x c) (offer_unseen-Settled x e c h))
    ]
  ]

  pub choose_by_score-Settled :
      (entries : List (PoolEntry fl)) (c : Chosen fl)
      → All (Settled (choose_by_score fl top_k min_score entries c)) entries
  unfolding choose_by_score
  choose_by_score-Settled [] c = tt
  choose_by_score-Settled (x ∷ entries) c = elim (Bool-cases (leb top_k (length c.hits))) [
    | inl full ↦
        let stop : choose_by_score fl top_k min_score (x ∷ entries) c ≡ c = rw full refl in
        subst (λ d. All (Settled d) (x ∷ entries)) (sym stop)
          (All-true (Settled c) (x ∷ entries) (λ e. inr (inl (ground (arith, full)))))
    | inr room ↦ elim (Bool-cases (below_min fl min_score x.score)) [
      | inl low ↦
          let step : choose_by_score fl top_k min_score (x ∷ entries) c
              ≡ choose_by_score fl top_k min_score entries c =
            rw (room, low) refl in
          subst (λ d. All (Settled d) (x ∷ entries)) (sym step)
            (loop-Settled entries x c (inr (inr (inr low))), choose_by_score-Settled entries c)
      | inr high ↦
          let step : choose_by_score fl top_k min_score (x ∷ entries) c
              ≡ choose_by_score fl top_k min_score entries (offer_unseen fl x c) =
            rw (room, high) refl in
          subst (λ d. All (Settled d) (x ∷ entries)) (sym step)
            (
              loop-Settled entries x (offer_unseen fl x c) (offered-Settled x c),
              choose_by_score-Settled entries (offer_unseen fl x c),
            )
    ]
  ]
