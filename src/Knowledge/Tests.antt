-- ===== src/Knowledge/Tests.antt =====
-- Runs of the life of an article, from its creation to a restored version, and who may read it.
use onboard_ai.Common.{
  ℕ, ◌≡◌, refl, true, none, some, [], ◌∷◌, ◌++◌, All, ok, err, not_found, validation,
}
use onboard_ai.Common.Text.{Text, codes, text_eq}
use onboard_ai.Access.{employee, hr}
use onboard_ai.Store.Memory.{memory}
use onboard_ai.Reminders.{completed, cancelled}
use onboard_ai.Course.{Step}
use onboard_ai.StepOrder.{Program}
use onboard_ai.Knowledge.{
  is_archived, draft, published, archived, Article, Version, Link, program, Owned, Enrolment,
  Tables, State, get_article_row, get_version_row, current_version, next_version_number, links_of,
}
use onboard_ai.Knowledge.Reading.{is_management, get_article, list_articles, get_version}
use onboard_ai.Knowledge.Reading.Access.{listed_readable}
use onboard_ai.Knowledge.Editing.{
  NewArticle, ArticleValues, create_article, update_article, publish_article, archive_article,
  restore_version,
}
use onboard_ai.Knowledge.Editing.Calls.{Reach, here, next, updates, archives, restores}
use onboard_ai.Knowledge.Editing.LifeCycle.{life_cycle, StaysOut}
use onboard_ai.Knowledge.Editing.History.{versions_kept, Keeps}
use onboard_ai.Knowledge.Editing.Restoring.{restored_text}

abbrev in_memory : Tables
in_memory = record {
  articles = memory Article;
  versions = memory Version;
  links = memory Link;
  owned = memory Owned;
  programs = memory Program;
  steps = memory Step;
  assignments = memory Enrolment;
}

abbrev Store : Type 0
Store = State in_memory

abbrev empty : Store
empty = record {
  articles = [];
  versions = [];
  links = [];
  categories = [];
  tags = record { id = 3; company_id = 9 } ∷ [];
  companies = record { id = 9; company_id = 9 } ∷ [];
  programs = record { id = 2; company_id = 9; revision = 1 } ∷ [];
  steps = [];
  assignments =
      record { employee_id = 5; program_id = some 2; status = completed }
      ∷ record { employee_id = 6; program_id = some 2; status = cancelled }
      ∷ [];
}

abbrev leave : NewArticle
leave = record {
  id = 1;
  version_id = 10;
  company_id = 9;
  title = codes "Leave";
  body = codes "20 days";
  body_format = codes "plain";
  category_id = none;
  visibility = codes "program";
  tag_ids = 3 ∷ 3 ∷ [];
  change_summary = none;
  created_by_id = some 4;
  program_ids = 2 ∷ [];
}

abbrev article : Article
article = record {
  id = 1;
  company_id = 9;
  category_id = none;
  current_version_id = some 10;
  status = draft;
  visibility = codes "program";
  created_by_id = some 4;
  tags = 3 ∷ [];
}

abbrev version : Version
version = record {
  id = 10;
  company_id = 9;
  article_id = 1;
  version = 1;
  title = codes "Leave";
  body = codes "20 days";
  body_format = codes "plain";
  change_summary = none;
  created_by_id = some 4;
  published_at = none;
}

abbrev drafted : Store
drafted = record empty {
  articles = article ∷ [];
  versions = version ∷ [];
  links = record { company_id = 9; article_id = 1; target_type = program; target_id = 2 } ∷ [];
}

creates_leave : create_article in_memory leave 9 empty ≡ ok drafted
unfolding create_article text_eq
creates_leave = refl

abbrev live : Store
live = record drafted {
  articles = record article { status = published } ∷ [];
  versions = record version { published_at = some 70 } ∷ [];
}

publishes_leave : publish_article in_memory 70 1 9 drafted ≡ ok live
unfolding publish_article
publishes_leave = refl

abbrev more_days : ArticleValues
more_days = record {
  category_id = none;
  visibility = none;
  tag_ids = none;
  program_ids = none;
  title = none;
  body = some (codes "25 days");
  body_format = none;
  change_summary = some (some (codes "more"));
  other_keys = [];
}

abbrev edited : Store
edited = record live {
  articles = record article { status = published; current_version_id = some 11 } ∷ [];
  versions =
      record version { published_at = some 70 }
      ∷ record version {
        id = 11;
        version = 2;
        body = codes "25 days";
        change_summary = some (codes "more");
        created_by_id = none;
      }
      ∷ [];
}

edits_leave : update_article in_memory 11 1 none more_days 9 live ≡ ok edited
unfolding update_article text_eq
edits_leave = refl

abbrev summary_of : ℕ → Text
summary_of k = codes "restored"

abbrev back : Store
back = record edited {
  articles = record article { status = published; current_version_id = some 12 } ∷ [];
  versions =
      edited.versions
      ++ record version {
        id = 12;
        version = 3;
        change_summary = some (codes "restored");
        created_by_id = none;
      }
        ∷ [];
}

restores_leave : restore_version in_memory summary_of 12 1 1 9 hr none edited ≡ ok back
unfolding restore_version text_eq
restores_leave = refl

abbrev closed : Store
closed = record back {
  articles = record article { status = archived; current_version_id = some 12 } ∷ [];
}

archives_leave : archive_article in_memory 1 9 back ≡ ok closed
unfolding archive_article
archives_leave = refl

-- An archived article is not published again.
refuses_archived : publish_article in_memory 80 1 9 closed ≡ err validation
unfolding publish_article
refuses_archived = refl

abbrev published_leave : Article
published_leave = record article { status = published }

later : Reach in_memory summary_of live closed
later =
    next
      (next (next here (updates 11 1 none more_days 9 edits_leave))
        (restores 12 1 1 9 hr none restores_leave))
      (archives 1 9 archives_leave)

life_cycle_example :
    ((b : Article) × (get_article_row in_memory 1 closed ≡ some b) × StaysOut published_leave b)
    × (is_archived published_leave.status ≡ true
        → get_article_row in_memory 1 closed ≡ some published_leave)
unfolding get_article_row
life_cycle_example = life_cycle in_memory 1 published_leave summary_of live closed refl later

versions_kept_example :
    (w : Version) × (get_version_row in_memory 10 closed ≡ some w)
    × Keeps (record version { published_at = some 70 }) w
unfolding get_version_row
versions_kept_example =
    versions_kept in_memory 10 (record version { published_at = some 70 }) summary_of live closed
      refl later

restored_text_example :
    (v : Version) × (a : Article) × (w : Version) × (get_version in_memory 1 1 9 hr edited ≡ ok v)
    × (get_article_row in_memory 1 back ≡ some a)
    × (current_version in_memory a back ≡ some w)
    × (w.version ≡ next_version_number in_memory 1 edited)
    × (w.title ≡ v.title)
    × (w.body ≡ v.body)
    × (w.body_format ≡ v.body_format)
restored_text_example =
    restored_text in_memory summary_of 12 1 1 9 hr none edited back refl restores_leave

lists_leave :
    list_articles in_memory (λ xs. xs) none 9 9 (some employee) (some 5) live
    ≡ ok (published_leave ∷ [])
unfolding list_articles text_eq links_of
lists_leave = refl

-- A cancelled assignment does not open the article.
hides_leave : get_article in_memory 1 9 employee (some 6) live ≡ err not_found
unfolding get_article text_eq links_of
hides_leave = refl

listed_readable_example :
    All (λ a. get_article in_memory a.id 9 employee (some 5) live ≡ ok a) (published_leave ∷ [])
unfolding is_management
listed_readable_example =
    listed_readable in_memory (λ xs. xs) none 9 9 employee (some 5) live (published_leave ∷ [])
      (λ P xs h. h) (tt, tt) refl lists_leave
