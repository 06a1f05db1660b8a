-- ===== src/Course/Snapshot.antt =====
-- The structure of a course as an assignment keeps it: app/services/course_snapshot.py. Of a step
-- that is resolved only its type and content are modelled, which are what its progress depends on.
-- `uuid_text` and `read_uuid` are Python's `str(UUID)` and `UUID(str)`.
pub mod History
use onboard_ai.Common.{
  ℕ, Bool, true, false, Option, none, some, List, [], ◌∷◌, holds, leb, if◌then◌else◌, pos, map,
}
use onboard_ai.Common.Text.{Text, codes}
use onboard_ai.Common.Json.{
  Json, null, boolean, number, real, text, array, object, Fields, end, field, get, is_object,
  as_list, items, truthy,
}
use onboard_ai.Course.{Step}

-- `content if isinstance(content, dict) else {}`
unfoldable pub as_dict : Json → Json
as_dict (object fs) = object fs
as_dict v = object end

-- `sorted(steps, key=position)`, which keeps the order of equal positions.
unfoldable pub insert_step : Step → List Step → List Step
insert_step x [] = x ∷ []
insert_step x (y ∷ ys) = if leb x.position y.position then x ∷ y ∷ ys else y ∷ insert_step x ys

unfoldable pub sort_steps : List Step → List Step
unfolding insert_step
sort_steps [] = []
sort_steps (x ∷ xs) = insert_step x (sort_steps xs)

abbrev text_or_null : Option Text → Json
text_or_null none = null
text_or_null (some s) = text s

abbrev count_or_null : Option ℕ → Json
count_or_null none = null
count_or_null (some n) = number (pos n)

-- The entry of one step.
pub step_entry : (ℕ → Text) → Step → Json
unfolding as_dict
step_entry uuid_text step = object (
    field (codes "id") (text (uuid_text step.id)) (
      field (codes "title") (text step.title) (
        field (codes "description") (text_or_null step.description) (
          field (codes "step_type") (text step.step_type) (
            field (codes "position") (number (pos step.position)) (
              field (codes "is_required") (boolean step.is_required) (
                field (codes "estimated_minutes") (count_or_null step.estimated_minutes)
                  (field (codes "content") (as_dict step.content) end))))))))

unfoldable pub build_structure_snapshot : (ℕ → Text) → ℕ → List Step → Json
unfolding sort_steps step_entry
build_structure_snapshot uuid_text revision steps = object (
    field (codes "revision") (number (pos revision))
      (field (codes "steps") (array (items (map (step_entry uuid_text) (sort_steps steps)))) end))

-- What `resolve_progress_step_fields` gives.
pub record Resolved : Type 0 where
  pub step_type : Text
  pub content : Json

module _ (show : Json → Text) (read_uuid : Text → Option ℕ) where
  -- `str(value)`
  abbrev printed_all : Json → Text
  printed_all (text s) = s
  printed_all v = show v

  -- Whether an entry is that of a step; its id must be there and be one.
  pub is_entry_of : ℕ → Json → Bool
  unfolding get
  is_entry_of k (object fs) = elim (get (codes "id") (object fs)) [
    | null ↦ false
    | raw ↦ holds (read_uuid (printed_all raw)) k
  ]
  is_entry_of k v = false

  -- The last entry of a step: `snapshot_step_map(snapshot).get(step_id)`.
  pub find_entry : ℕ → List Json → Option Json
  unfolding is_entry_of
  find_entry k [] = none
  find_entry k (item ∷ raw) =
      let later = find_entry k raw in
      elim later [ some v ↦ some v | none ↦ if is_entry_of k item then some item else none ]

  pub snapped_step : ℕ → Json → Option Json
  unfolding find_entry get
  snapped_step k snapshot = elim (as_list (get (codes "steps") snapshot)) [
    | none ↦ none
    | some raw ↦ find_entry k raw
  ]

  abbrev type_or_content : Json → Text
  type_or_content v = if truthy v then printed_all v else codes "content"

  -- An entry's fields.
  pub resolved_entry : Json → Resolved
  unfolding get as_dict
  resolved_entry entry = record {
    step_type = type_or_content (get (codes "step_type") entry);
    content = as_dict (get (codes "content") entry);
  }

  abbrev live_fields : Option Step → Option Resolved
  live_fields none = none
  live_fields (some step) =
      some record { step_type = step.step_type; content = as_dict step.content }

  -- The snapshot first, then the step as it is now.
  unfoldable pub resolve_progress_step_fields : ℕ → Option Step → Json → Option Resolved
  unfolding snapped_step resolved_entry
  resolve_progress_step_fields step_id live_step snapshot = elim (snapped_step step_id snapshot) [
    | some entry ↦ some (resolved_entry entry)
    | none ↦ live_fields live_step
  ]
