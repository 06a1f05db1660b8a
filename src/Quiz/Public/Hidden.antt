-- ===== src/Quiz/Public/Hidden.antt =====
-- Nothing that gives an answer away leaves the service: what public_quiz_content and
-- public_progress_payload take out, and what they keep.
use onboard_ai.Common.{
  not, ◌∙◌, ◌≡◌, subst, refl, inl, inr, Bool, true, false, Option, none, some, Bool-cases,
  if◌then◌else◌,
}
use onboard_ai.Common.Text.{Text, codes, text_eq, text_eq_refl}
use onboard_ai.Common.Json.{
  Json, null, boolean, number, real, text, array, object, Items, nil, cons, Fields, or_null, lookup,
  get, has_key, lookup-select_keys, lookup-set_key, lookup-set_key_other, select_keys,
}
use onboard_ai.Quiz.{is_in}
use onboard_ai.Quiz.Public.{
  hidden_keys, public_question, public_questions, clean_questions, public_quiz_content, clean_score,
  public_progress_payload,
}

-- A question without its answers and without its explanation.
abbrev pub IsBare : Json → Type 0
IsBare q =
    (has_key (codes "correct") q ≡ false)
    × (has_key (codes "answer") q ≡ false)
    × (has_key (codes "correct_option_ids") q ≡ false)
    × (has_key (codes "explanation") q ≡ false)

abbrev pub AllBare : Items → Type 0
AllBare nil = Unit
AllBare (cons q qs) = IsBare q × AllBare qs

hidden_key-gone :
    (key : Text) (fs : Fields)
    → is_in key hidden_keys ≡ true
    → has_key key (public_question (object fs)) ≡ false
unfolding public_question has_key
hidden_key-gone key fs hidden =
    rw (lookup-select_keys (λ k. not (is_in k hidden_keys)) key fs, hidden) refl

public_question-IsBare : (q : Json) → IsBare (public_question q)
unfolding public_question has_key text_eq
public_question-IsBare null = (refl, refl, refl, refl)
public_question-IsBare (boolean b) = (refl, refl, refl, refl)
public_question-IsBare (number z) = (refl, refl, refl, refl)
public_question-IsBare (real r) = (refl, refl, refl, refl)
public_question-IsBare (text s) = (refl, refl, refl, refl)
public_question-IsBare (array xs) = (refl, refl, refl, refl)
public_question-IsBare (object fs) = (
  hidden_key-gone (codes "correct") fs refl,
  hidden_key-gone (codes "answer") fs refl,
  hidden_key-gone (codes "correct_option_ids") fs refl,
  hidden_key-gone (codes "explanation") fs refl,
)

public_questions-AllBare : (qs : Items) → AllBare (public_questions qs)
unfolding public_questions
public_questions-AllBare nil = tt
public_questions-AllBare (cons q qs) = (public_question-IsBare q, public_questions-AllBare qs)

questions_of : Option Json → Items
questions_of (some (array xs)) = xs
questions_of other = nil

-- The questions that are read back from the cleaned content are the cleaned ones.
clean_questions-AllBare :
    (found : Option Json) (fs : Fields)
    → lookup (codes "questions") fs ≡ found
    → AllBare (questions_of (lookup (codes "questions") (clean_questions found fs)))
unfolding clean_questions questions_of
clean_questions-AllBare none fs h = rw h tt
clean_questions-AllBare (some (array xs)) fs h =
    rw (lookup-set_key (codes "questions") (array (public_questions xs)) fs)
      (public_questions-AllBare xs)
clean_questions-AllBare (some null) fs h = rw h tt
clean_questions-AllBare (some (boolean b)) fs h = rw h tt
clean_questions-AllBare (some (number z)) fs h = rw h tt
clean_questions-AllBare (some (real r)) fs h = rw h tt
clean_questions-AllBare (some (text s)) fs h = rw h tt
clean_questions-AllBare (some (object gs)) fs h = rw h tt

public_quiz_content-AllBare :
    (content : Json)
    → AllBare (questions_of (lookup (codes "questions") (public_quiz_content content)))
unfolding public_quiz_content lookup questions_of
public_quiz_content-AllBare (object fs) =
    clean_questions-AllBare (lookup (codes "questions") fs) fs refl
public_quiz_content-AllBare null = tt
public_quiz_content-AllBare (boolean b) = tt
public_quiz_content-AllBare (number z) = tt
public_quiz_content-AllBare (real r) = tt
public_quiz_content-AllBare (text s) = tt
public_quiz_content-AllBare (array xs) = tt

-- Whatever a quiz's content holds, if the content that employees receive has a list of questions, no
-- question in it has a `correct`, `answer`, `correct_option_ids` or `explanation`.
pub answers_hidden :
    (content : Json) (qs : Items)
    → lookup (codes "questions") (public_quiz_content content) ≡ some (array qs)
    → AllBare qs
unfolding questions_of
answers_hidden content qs h =
    subst (λ found. AllBare (questions_of found)) h (public_quiz_content-AllBare content)

clean_questions_keeps :
    (found : Option Json) (fs : Fields) (key : Text)
    → text_eq (codes "questions") key ≡ false
    → lookup key (clean_questions found fs) ≡ lookup key fs
unfolding clean_questions
clean_questions_keeps none fs key other = refl
clean_questions_keeps (some (array xs)) fs key other =
    lookup-set_key_other key (codes "questions") (array (public_questions xs)) fs other
clean_questions_keeps (some null) fs key other = refl
clean_questions_keeps (some (boolean b)) fs key other = refl
clean_questions_keeps (some (number z)) fs key other = refl
clean_questions_keeps (some (real r)) fs key other = refl
clean_questions_keeps (some (text s)) fs key other = refl
clean_questions_keeps (some (object gs)) fs key other = refl

-- Outside the questions the content is as it was; and of a question, whatever its fields, exactly the
-- hidden values are gone.
public_content_keeps :
    (fs gs : Fields) (key : Text)
    → text_eq (codes "questions") key ≡ false
    → (lookup key (public_quiz_content (object fs)) ≡ lookup key fs)
      × (get key (public_question (object gs))
          ≡ (if is_in key hidden_keys then null else get key (object gs)))
unfolding public_quiz_content public_question get
public_content_keeps fs gs key other = elim (Bool-cases (is_in key hidden_keys)) [
  | inl hidden ↦ (
    clean_questions_keeps (lookup (codes "questions") fs) fs key other,
    rw (lookup-select_keys (λ k. not (is_in k hidden_keys)) key gs, hidden) refl,
  )
  | inr shown ↦ (
    clean_questions_keeps (lookup (codes "questions") fs) fs key other,
    rw (lookup-select_keys (λ k. not (is_in k hidden_keys)) key gs, shown) refl,
  )
]

clean_score-bare :
    (found : Option Json) (fs : Fields)
    → lookup (codes "quiz_score") fs ≡ found
    → has_key (codes "results") (or_null (lookup (codes "quiz_score") (clean_score found fs)))
      ≡ false
unfolding clean_score has_key
clean_score-bare none fs h = rw h refl
clean_score-bare (some (object score)) fs h =
    let kept : Text → Bool = λ k. not (text_eq k (codes "results")) in
    rw
      (
        lookup-set_key (codes "quiz_score") (object (select_keys kept score)) fs,
        lookup-select_keys kept (codes "results") score,
        text_eq_refl (codes "results"),
      )
      refl
clean_score-bare (some null) fs h = rw h refl
clean_score-bare (some (boolean b)) fs h = rw h refl
clean_score-bare (some (number z)) fs h = rw h refl
clean_score-bare (some (real r)) fs h = rw h refl
clean_score-bare (some (text s)) fs h = rw h refl
clean_score-bare (some (array xs)) fs h = rw h refl

clean_score_other :
    (key : Text) (found : Option Json) (fs : Fields)
    → text_eq (codes "quiz_score") key ≡ false
    → lookup key (clean_score found fs) ≡ lookup key fs
unfolding clean_score
clean_score_other key none fs other = refl
clean_score_other key (some (object score)) fs other =
    lookup-set_key_other key (codes "quiz_score")
      (object (select_keys (λ k. not (text_eq k (codes "results"))) score)) fs other
clean_score_other key (some null) fs other = refl
clean_score_other key (some (boolean b)) fs other = refl
clean_score_other key (some (number z)) fs other = refl
clean_score_other key (some (real r)) fs other = refl
clean_score_other key (some (text s)) fs other = refl
clean_score_other key (some (array xs)) fs other = refl

-- Of an attempt employees see neither the answers nor the results per question, whatever the stored
-- payload holds.
progress_hidden :
    (payload : Json)
    → (lookup (codes "answers") (public_progress_payload payload) ≡ none)
      × (has_key
            (codes "results")
            (or_null (lookup (codes "quiz_score") (public_progress_payload payload)))
          ≡ false)
unfolding public_progress_payload lookup has_key text_eq
progress_hidden (object fs) =
    let kept : Text → Bool = λ k. not (text_eq k (codes "answers")) in
    let out = select_keys kept fs in
    (
      clean_score_other (codes "answers") (lookup (codes "quiz_score") out) out refl
          ∙ lookup-select_keys kept (codes "answers") fs,
      clean_score-bare (lookup (codes "quiz_score") out) out refl,
    )
progress_hidden null = (refl, refl)
progress_hidden (boolean b) = (refl, refl)
progress_hidden (number z) = (refl, refl)
progress_hidden (real r) = (refl, refl)
progress_hidden (text s) = (refl, refl)
progress_hidden (array xs) = (refl, refl)
