-- ===== src/Course/Steps/Attempts.antt =====
-- What an attempt at a structured quiz leaves in its progress row.
use onboard_ai.Common.{
  ℕ, ◌*◌, ◌≤◌, ◌≡◌, ◌↔◌, ◌∙◌, refl, subst, inl, inr, arith, Bool, true, false, not, none, some,
  Bool-cases, if◌then◌else◌, ok, ◌>>=◌, >>=-ok, ok-injective,
}
use onboard_ai.Common.Text.{Text, codes, text_eq}
use onboard_ai.Common.Json.{
  Json, null, number, Fields, end, field, lookup, get, as_int, select_keys, set_key,
  lookup-select_keys, lookup-set_key, lookup-set_key_other,
}
use onboard_ai.Quiz.{is_structured_quiz}
use onboard_ai.Quiz.Answers.{
  QuizScoreResult, score_structured_quiz, apply_quiz_attempt, next_int, or_zero,
}
use onboard_ai.Quiz.Answers.Scores.{scored_fairly}
use onboard_ai.Quiz.Answers.Right.{IsCountOf, score_structured_quiz-IsCountOf}
use onboard_ai.Course.{in_progress, completed, Progress}
use onboard_ai.Course.Steps.{
  Env, update_keys, fields_of, attempt_fields, record_attempt, completion,
}

-- A key that the update does not have keeps its value.
lookup-update_keys :
    (key : Text) (fs more : Fields)
    → lookup key more ≡ none
    → lookup key (update_keys fs more) ≡ lookup key fs
unfolding update_keys lookup
lookup-update_keys key fs end h = refl
lookup-update_keys key fs (field k v more) h = elim (Bool-cases (text_eq k key)) [
  | inl same ↦ ground (arith, same, h)
  | inr other ↦
      lookup-update_keys key (set_key k v fs) more (rw other at h)
      ∙ lookup-set_key_other key k v fs other
]

-- The next attempt of a row.
abbrev pub next_count : Json → Json
next_count payload = number (next_int (or_zero (as_int (get (codes "attempt_count") payload))))

lookup-update_keys_first :
    (key : Text) (v : Json) (fs more : Fields)
    → lookup key more ≡ none
    → lookup key (update_keys fs (field key v more)) ≡ some v
unfolding update_keys
lookup-update_keys_first key v fs more h =
    lookup-update_keys key (set_key key v fs) more h ∙ lookup-set_key key v fs

abbrev other_fields : Fields → Fields
other_fields end = end
other_fields (field k v more) = more

attempt_fields-answers :
    (env : Env) (now : ℕ) (r : QuizScoreResult) (payload : Json)
    → lookup (codes "answers") (attempt_fields env now r payload) ≡ none
unfolding attempt_fields apply_quiz_attempt lookup text_eq
attempt_fields-answers env now r payload =
    let kept : Text → Bool = λ k. not (text_eq k (codes "answers")) in
    lookup-update_keys (codes "answers") (select_keys kept (fields_of payload))
      (apply_quiz_attempt payload r (env.stamp now)) refl
    ∙ lookup-select_keys kept (codes "answers") (fields_of payload)

attempt_fields-count :
    (env : Env) (now : ℕ) (r : QuizScoreResult) (payload : Json)
    → lookup (codes "attempt_count") (attempt_fields env now r payload) ≡ some (next_count payload)
unfolding attempt_fields apply_quiz_attempt lookup text_eq
attempt_fields-count env now r payload =
    lookup-update_keys_first (codes "attempt_count") (next_count payload)
      (select_keys (λ k. not (text_eq k (codes "answers"))) (fields_of payload))
      (other_fields (apply_quiz_attempt payload r (env.stamp now))) refl

-- What an attempt at a structured quiz leaves: a row that is completed exactly where four fifths of the
-- answers are right, without the answers, and with one more attempt.
abbrev pub IsRecorded : Progress → QuizScoreResult → Progress → Type 0
IsRecorded p r q =
    ((q.status ≡ completed) ↔ (4 * r.total ≤ 5 * r.correct_count))
    × (get (codes "answers") q.payload ≡ null)
    × (get (codes "attempt_count") q.payload ≡ next_count p.payload)

completed_iff : (b : Bool) → ((if b then completed else in_progress) ≡ completed) ↔ (b ≡ true)
completed_iff true = (λ _. refl, λ _. refl)
completed_iff false = (λ e. cc, λ e. cc)

record_attempt-IsRecorded :
    (env : Env) (now : ℕ) (r : QuizScoreResult) (p : Progress)
    → ((r.passed ≡ true) ↔ (4 * r.total ≤ 5 * r.correct_count))
    → IsRecorded p r (record_attempt env now r p)
unfolding record_attempt get
record_attempt-IsRecorded env now r p fair = (
  (λ e. fair.0 ((completed_iff r.passed).0 e), λ e. (completed_iff r.passed).1 (fair.1 e)),
  rw (attempt_fields-answers env now r p.payload) refl,
  rw (attempt_fields-count env now r p.payload) refl,
)

-- Whatever is handed in for a structured quiz, if the attempt is accepted then its answers were
-- scored: the questions counted as right are those of whose options exactly the correct ones were
-- chosen. The row is completed exactly where at least four fifths of the questions are answered
-- rightly, its payload has no answers, and counts one attempt more than before.
pub completion-IsRecorded :
    (env : Env) (now : ℕ) (content payload : Json) (p q : Progress)
    → is_structured_quiz content ≡ true
    → completion env now (codes "quiz") content payload p ≡ ok q
    → (r : QuizScoreResult) × (score_structured_quiz env.show content
          (get (codes "answers") payload)
        ≡ ok r)
      × IsCountOf env.show content (get (codes "answers") payload) r
      × IsRecorded p r q
unfolding completion text_eq
completion-IsRecorded env now content payload p q structured h =
    let chain : (score_structured_quiz env.show content (get (codes "answers") payload) >>= λ r.
    ok (record_attempt env now r p))
        ≡ ok q =
      rw structured at h in
    let (r, scored, last) =
      >>=-ok (score_structured_quiz env.show content (get (codes "answers") payload))
        (λ r. ok (record_attempt env now r p)) chain in
    let fair = scored_fairly env.show content (get (codes "answers") payload) r scored in
    (
      r,
      scored,
      score_structured_quiz-IsCountOf env.show content (get (codes "answers") payload) r scored,
      subst (IsRecorded p r) (ok-injective last) (record_attempt-IsRecorded env now r p fair.4),
    )
