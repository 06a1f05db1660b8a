-- ===== src/Common/Keys.antt =====
-- Lists of rows whose elements differ in a numeric key.
use Prim.Native.Nat.{ℕ}
use mathlib.Core.Path.{◌≡◌, refl, sym, ap, ◌∙◌, subst}
use mathlib.Core.Option.{none, some}
use mathlib.Core.Logic.{◌≢◌, inl, inr}
use mathlib.Core.Bool.{Bool, true, false, ◌&&◌}
use mathlib.Core.List.{List, [], ◌∷◌, ◌++◌, map}
use native.Mathlib.Omega.{arith}
use onboard_ai.Common.Tests.{◌==◌, ==_iff, clash, Bool-cases}
use onboard_ai.Common.Lists.{find, any, All, All-append, All-weaken}

module _ {ℓ} {A : Type ℓ} (key : A → ℕ) where
  -- No element has the key of `x`.
  abbrev pub Differs : ℕ → List A → Type 0
  Differs k = All (λ y. key y ≢ k)

  abbrev pub Unique : List A → Type 0
  Unique [] = Unit
  Unique (x ∷ xs) = Differs (key x) xs × Unique xs

  Differs-map :
      (f : A → A) (k : ℕ) (xs : List A)
      → ((x : A) → key (f x) ≡ key x)
      → Differs k xs
      → Differs k (map f xs)
  Differs-map f k [] same h = tt
  Differs-map f k (x ∷ xs) same h = (ground (arith, same x, h.0), Differs-map f k xs same h.1)

  -- A change that keeps the keys keeps them distinct.
  pub Unique-map :
      (f : A → A) (xs : List A) → ((x : A) → key (f x) ≡ key x) → Unique xs → Unique (map f xs)
  Unique-map f [] same h = tt
  Unique-map f (x ∷ xs) same h =
      (ground (arith, same x, Differs-map f (key x) xs same h.0), Unique-map f xs same h.1)

  Differs-any : (k : ℕ) (xs : List A) → any (λ y. key y == k) xs ≡ false → Differs k xs
  Differs-any k [] h = tt
  Differs-any k (x ∷ xs) h = (ground arith, Differs-any k xs (ground arith))

  Differs-snoc : (k : ℕ) (xs : List A) (x : A) → Differs k xs → key x ≢ k → Differs k (xs ++ x ∷ [])
  Differs-snoc k xs x h new = All-append (λ y. key y ≢ k) xs (x ∷ []) h (new, tt)

  -- A new element with a fresh key.
  pub Unique-snoc :
      (xs : List A) (x : A)
      → any (λ y. key y == key x) xs ≡ false
      → Unique xs
      → Unique (xs ++ x ∷ [])
  Unique-snoc [] x fresh h = (tt, tt)
  Unique-snoc (y ∷ ys) x fresh h =
      (Differs-snoc (key y) ys x h.0 (ground arith), Unique-snoc ys x (ground arith) h.1)

  absent :
      (k : ℕ) (p : A → Bool) (xs : List A)
      → Differs k xs
      → All (λ y. (key y == k) ≡ true → p y ≡ true) xs
  absent k p xs h = All-weaken (λ y. key y ≢ k) _ xs (λ y d e. ground arith) h

  not_any :
      (k : ℕ) (p : A → Bool) (xs : List A)
      → Differs k xs
      → any (λ y. (key y == k) && p y) xs ≡ true
      → ⊥
  not_any k p [] h e = cc
  not_any k p (x ∷ xs) h e = not_any k p xs h.1 (ground arith)

  head_passes :
      (k : ℕ) (p : A → Bool) (x : A) (xs : List A)
      → Differs k xs
      → any (λ y. (key y == k) && p y) (x ∷ xs) ≡ true
      → p x ≡ true
  head_passes k p x xs d e = elim (Bool-cases (p x)) [
    | inl hit ↦ hit
    | inr miss ↦ absurd (not_any k p xs d (ground arith))
  ]

  -- If some row with this key passes, every row with this key does: there is only one.
  pub Unique-any :
      (k : ℕ) (p : A → Bool) (xs : List A)
      → Unique xs
      → any (λ y. (key y == k) && p y) xs ≡ true
      → All (λ y. (key y == k) ≡ true → p y ≡ true) xs
  Unique-any k p [] h e = tt
  Unique-any k p (x ∷ xs) h e = elim (Bool-cases (key x == k)) [
    | inl same ↦
        let at_k : key x ≡ k = (==_iff (key x) k).0 same in
        let d : Differs k xs = subst (λ j. Differs j xs) at_k h.0 in
        (λ _. head_passes k p x xs d e, absent k p xs d)
    | inr other ↦ (λ here. absurd (clash other here), Unique-any k p xs h.1 (ground arith))
  ]

-- A test that at most one element passes, as under a unique constraint.
module _ {ℓ} {A : Type ℓ} (p : A → Bool) where
  abbrev pub AtMostOne : List A → Type 0
  AtMostOne [] = Unit
  AtMostOne (x ∷ xs) = (p x ≡ true → any p xs ≡ false) × AtMostOne xs

  any-map : (f : A → A) (xs : List A) → ((x : A) → p (f x) ≡ p x) → any p (map f xs) ≡ any p xs
  any-map f [] same = refl
  any-map f (x ∷ xs) same = ground (arith, same x, any-map f xs same)

  pub AtMostOne-map :
      (f : A → A) (xs : List A) → ((x : A) → p (f x) ≡ p x) → AtMostOne xs → AtMostOne (map f xs)
  AtMostOne-map f [] same h = tt
  AtMostOne-map f (x ∷ xs) same h =
      (λ e. any-map f xs same ∙ h.0 (sym (same x) ∙ e), AtMostOne-map f xs same h.1)

  any-snoc : (xs : List A) (x : A) → any p xs ≡ false → p x ≡ false → any p (xs ++ x ∷ []) ≡ false
  any-snoc [] x h k = rw k
  any-snoc (y ∷ ys) x h k = ground (arith, any-snoc ys x (ground arith) k)

  pub AtMostOne-snoc :
      (xs : List A) (x : A)
      → (p x ≡ true → any p xs ≡ false)
      → AtMostOne xs
      → AtMostOne (xs ++ x ∷ [])
  AtMostOne-snoc [] x new h = (λ e. refl, tt)
  AtMostOne-snoc (y ∷ ys) x new h = (
    λ e. elim (Bool-cases (p x)) [
      | inl hit ↦ absurd (clash (new hit) (rw e))
      | inr miss ↦ any-snoc ys x (h.0 e) miss
    ],
    AtMostOne-snoc ys x
        (λ e. elim (Bool-cases (any p ys)) [
          | inl some_y ↦ absurd (clash (new e) (ground (arith, some_y)))
          | inr none_y ↦ none_y
        ])
        h.1,
  )

  find-none : (q : A → Bool) (xs : List A) → any p xs ≡ false → find (λ x. p x && q x) xs ≡ none
  find-none q [] h = refl
  find-none q (x ∷ xs) h = ground (arith, find-none q xs)

  -- If the only element that passes fails another test, no element passes both.
  pub find_both_none :
      (q : A → Bool) (xs : List A) {r : A}
      → AtMostOne xs
      → find p xs ≡ some r
      → q r ≡ false
      → find (λ x. p x && q x) xs ≡ none
  find_both_none q [] h e miss = refl
  find_both_none q (x ∷ xs) {r = r} h e miss = elim (Bool-cases (p x)) [
    | inl hit ↦
        let same : x ≡ r = ground arith in ground (arith, find-none q xs (h.0 hit), ap q same)
    | inr other ↦ ground (arith, find_both_none q xs {r = r} h.1 (ground arith) miss)
  ]
