-- ===== src/Common/Json.antt =====
-- JSON values as Python reads them. A `real` is a float, and an object's keys are distinct.
use Prim.Native.Nat.{zero}
use mathlib.Core.Bool.{Bool, true, false, ◌||◌, not}
use mathlib.Core.Option.{Option, none, some}
use mathlib.Core.List.{List, [], ◌∷◌}
use mathlib.Core.Path.{◌≡◌, refl}
use mathlib.Core.Logic.{inl, inr}
use onboard_ai.Common.Tests.{Bool-cases, if◌then◌else◌, is_some}
use native.Mathlib.Omega.{arith}
use onboard_ai.Common.Integers.{ℤ, pos}
use onboard_ai.Common.Text.{Text, codes, text_eq, text_eq_refl, text_eq_sound, strip}

mutual
  pub data Json : Type 0 where
    null : Json
    boolean : Bool → Json
    number : ℤ → Json
    real : Text → Json
    text : Text → Json
    array : Items → Json
    object : Fields → Json

  pub data Items : Type 0 where
    nil : Items
    cons : Json → Items → Items

  pub data Fields : Type 0 where
    end : Fields
    field : Text → Json → Fields → Fields

abbrev pub elements : Items → List Json
elements nil = []
elements (cons x xs) = x ∷ elements xs

-- A Python list as a JSON array.
abbrev pub items : List Json → Items
items [] = nil
items (x ∷ xs) = cons x (items xs)

-- `fields.get(key)`, and `key in fields`
unfoldable pub lookup : Text → Fields → Option Json
lookup key end = none
lookup key (field k v fs) = if text_eq k key then some v else lookup key fs

abbrev pub or_null : Option Json → Json
or_null none = null
or_null (some v) = v

-- `value.get(key)` of an object; of anything else, which the callers have tested for, nothing.
unfoldable pub get : Text → Json → Json
unfolding lookup
get key (object fs) = or_null (lookup key fs)
get key v = null

unfoldable pub has_key : Text → Json → Bool
unfolding lookup
has_key key (object fs) = is_some (lookup key fs)
has_key key v = false

unfoldable pub is_object : Json → Bool
is_object (object fs) = true
is_object v = false

-- `{k: v for k, v in fields.items() if keep(k)}`
unfoldable pub select_keys : (Text → Bool) → Fields → Fields
select_keys kept end = end
select_keys kept (field k v fs) =
    if kept k then field k v (select_keys kept fs) else select_keys kept fs

-- `fields[key] = value`: in its place, or at the end.
unfoldable pub set_key : Text → Json → Fields → Fields
set_key key v end = field key v end
set_key key v (field k w fs) = if text_eq k key then field k v fs else field k w (set_key key v fs)

-- `isinstance(v, list)`, and its elements
abbrev pub as_list : Json → Option (List Json)
as_list (array xs) = some (elements xs)
as_list v = none

abbrev pub as_text : Json → Option Text
as_text (text s) = some s
as_text v = none

-- `isinstance(v, str) and v.strip()`: the stripped text, if there is anything left of it.
abbrev pub filled : Text → Option Text
filled [] = none
filled (c ∷ cs) = some (c ∷ cs)

unfoldable pub as_filled : Json → Option Text
as_filled (text s) = filled (strip s)
as_filled v = none

-- `isinstance(v, int)`, which holds of Python's Booleans as well.
abbrev pub as_int : Json → Option ℤ
as_int (number z) = some z
as_int (boolean true) = some (pos 1)
as_int (boolean false) = some (pos 0)
as_int v = none

pub lookup-select_keys :
    (kept : Text → Bool) (key : Text) (fs : Fields)
    → lookup key (select_keys kept fs) ≡ (if kept key then lookup key fs else none)
unfolding lookup select_keys
lookup-select_keys kept key end = ground arith
lookup-select_keys kept key (field k v fs) = elim (Bool-cases (text_eq k key)) [
  | inl same ↦ elim (Bool-cases (kept key)) [
    | inl keep ↦ rw (text_eq_sound k key same, keep, text_eq_refl key) refl
    | inr drop ↦
        rw (text_eq_sound k key same, drop) (ground (arith, lookup-select_keys kept key fs, drop))
  ]
  | inr other ↦ elim (Bool-cases (kept k)) [
    | inl keep ↦ rw (keep, other) (lookup-select_keys kept key fs)
    | inr drop ↦ rw (drop, other) (lookup-select_keys kept key fs)
  ]
]

pub lookup-set_key : (key : Text) (v : Json) (fs : Fields) → lookup key (set_key key v fs) ≡ some v
unfolding lookup set_key
lookup-set_key key v end = rw (text_eq_refl key) refl
lookup-set_key key v (field k w fs) = elim (Bool-cases (text_eq k key)) [
  | inl same ↦ rw (same, same) refl
  | inr other ↦ rw (other, other) (lookup-set_key key v fs)
]

-- Another key keeps its value.
pub lookup-set_key_other :
    (key k : Text) (v : Json) (fs : Fields)
    → text_eq k key ≡ false
    → lookup key (set_key k v fs) ≡ lookup key fs
unfolding lookup set_key
lookup-set_key_other key k v end other = rw other refl
lookup-set_key_other key k v (field l w fs) other = elim (Bool-cases (text_eq l k)) [
  | inl same ↦ rw (same, text_eq_sound l k same, other) refl
  | inr differs ↦ rw differs (ground (arith, lookup-set_key_other key k v fs other))
]

-- `bool(value)`: a `real` is the text that Python prints of the float.
unfoldable pub truthy : Json → Bool
truthy null = false
truthy (boolean b) = b
truthy (number (pos zero)) = false
truthy (number z) = true
truthy (real r) = not (text_eq r (codes "0.0") || text_eq r (codes "-0.0"))
truthy (text []) = false
truthy (text s) = true
truthy (array nil) = false
truthy (array xs) = true
truthy (object end) = false
truthy (object fs) = true

-- `v or w`
abbrev pub or_else : Json → Json → Json
or_else v w = if truthy v then v else w
