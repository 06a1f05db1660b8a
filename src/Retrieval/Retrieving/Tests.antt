-- ===== src/Retrieval/Retrieving/Tests.antt =====
-- A company with an article for everyone and one for a course, and a search in it.
use onboard_ai.Common.{
  ℕ, ◌≡◌, refl, arith, true, false, none, some, List, [], ◌∷◌, keep, take, All, ok,
}
use onboard_ai.Common.Text.{codes, text_eq, strip}
use onboard_ai.Access.{employee, hr}
use onboard_ai.Store.Memory.{memory}
use onboard_ai.Course.{Step}
use onboard_ai.StepOrder.{Program}
use onboard_ai.Knowledge.{
  published, Article, Version, Link, program, Owned, Enrolment, Tables, State, links_of,
}
use onboard_ai.Knowledge.Reading.{is_management, list_articles, employee_may_list_article}
use onboard_ai.Retrieval.{
  Chunk, RetrievalHit, merged_pool, union_vector_rows, reserved_lexical_chunks,
}
use onboard_ai.Retrieval.Sorting.{sort_down}
use onboard_ai.Retrieval.Selection.{merge_and_score}
use onboard_ai.Retrieval.Tests.{hundredths, no_definitions}
use onboard_ai.Retrieval.Retrieving.{Engine, is_usable, allowed_published_articles, retrieve}
use onboard_ai.Retrieval.Retrieving.Allowed.{MayRead}
use onboard_ai.Retrieval.Retrieving.Readable.{retrieved_readable}
use onboard_ai.Retrieval.Retrieving.Pages.{all_pages}
use onboard_ai.Retrieval.Retrieving.Paging.{published_rows, pages_stop_early}

abbrev in_memory : Tables
in_memory = record {
  articles = memory Article;
  versions = memory Version;
  links = memory Link;
  owned = memory Owned;
  programs = memory Program;
  steps = memory Step;
  assignments = memory Enrolment;
}

abbrev leave : Article
leave = record {
  id = 7;
  company_id = 9;
  category_id = none;
  current_version_id = some 70;
  status = published;
  visibility = codes "company";
  created_by_id = none;
  tags = [];
}

abbrev sales : Article
sales = record leave { id = 8; current_version_id = some 80; visibility = codes "program" }

abbrev leave_text : Version
leave_text = record {
  id = 70;
  company_id = 9;
  article_id = 7;
  version = 2;
  title = codes "Leave";
  body = [];
  body_format = codes "plain";
  change_summary = none;
  created_by_id = none;
  published_at = none;
}

abbrev office : State in_memory
office = record {
  articles = sales ∷ leave ∷ [];
  versions = leave_text ∷ record leave_text { id = 80; article_id = 8; title = codes "Sales" } ∷ [];
  links = record { company_id = 9; article_id = 8; target_type = program; target_id = 2 } ∷ [];
  categories = [];
  tags = [];
  companies = record { id = 9; company_id = 9 } ∷ [];
  programs = [];
  steps = [];
  assignments = [];
}

-- The second chunk is of an old version, and the third of an article that is hidden.
abbrev stored : List Chunk
stored =
    record { id = 1; article_id = 7; version_id = 70; chunk_index = 0; content = codes "20 days" }
    ∷ record { id = 2; article_id = 7; version_id = 69; chunk_index = 0; content = codes "19 days" }
    ∷ record { id = 3; article_id = 8; version_id = 80; chunk_index = 0; content = codes "offers" }
    ∷ []

abbrev engine : Engine hundredths
engine = record {
  Vector = ℕ;
  embed = λ texts. ok (5 ∷ []);
  distance = λ v c. 30;
  text_rank = λ q c. 4;
  matches = λ q c. true;
  is_compatible = λ v. true;
  is_indexed = λ v. true;
  in_order = λ rows. rows;
  embed_texts = λ q e. e ∷ [];
  tsquery = λ q. some q;
}

abbrev hits : List (RetrievalHit hundredths)
hits =
    record {
      chunk_id = 1;
      article_id = 7;
      version_id = 70;
      chunk_index = 0;
      article_title = codes "Leave";
      content = codes "20 days";
      score = 85;
    }
    ∷ []

finds :
    retrieve hundredths no_definitions engine in_memory
      (memory Chunk)
      stored
      office
      (λ xs. xs)
      (codes "days")
      9
      6
      employee
      false
      5
      none
      none
      none
    ≡ ok hits
unfolding retrieve text_eq strip list_articles merge_and_score sort_down merged_pool
    union_vector_rows reserved_lexical_chunks
finds = refl

retrieved_readable_example : All (MayRead in_memory 9 employee 6 office hundredths) hits
unfolding is_management
retrieved_readable_example =
    retrieved_readable hundredths no_definitions engine in_memory (memory Chunk) stored office
      (λ P xs h. h) (λ xs. xs) 9 employee 6 (λ P xs h. h) (omega arith) refl (codes "days") false 5
      none none none hits finds

pages_stop_early_example :
    allowed_published_articles in_memory (λ xs. xs) 9 employee 6 office
    ≡ ok (
        keep is_usable (
          keep
            (λ a. employee_may_list_article in_memory a (some 6) office)
            (take 1000 (published_rows in_memory (λ xs. xs) 9 office))))
unfolding is_management employee_may_list_article text_eq links_of
pages_stop_early_example = pages_stop_early in_memory (λ xs. xs) 9 employee 6 office refl refl refl

all_pages_example :
    allowed_published_articles in_memory (λ xs. xs) 9 hr 6 office
    ≡ ok (keep is_usable (published_rows in_memory (λ xs. xs) 9 office))
unfolding is_management
all_pages_example = all_pages in_memory (λ xs. xs) 9 hr 6 office refl refl (omega arith)
