-- ===== src/Common/Text.antt =====
-- Python's `str` as the list of its code points, with the methods that the source calls on it.
use Prim.Native.Char.{code}
use Prim.Native.String.{String}
use Prim.Native.Nat.{ℕ, suc, ◌+◌, ◌≤◌}
use mathlib.Core.Path.{◌≡◌, refl}
use mathlib.Core.Logic.{inl, inr}
use mathlib.Core.Bool.{Bool, true, false, ◌&&◌, ◌||◌}
use mathlib.Core.List.{List, [], ◌∷◌}
use native.Mathlib.Omega.{arith}
use onboard_ai.Common.Tests.{leb, ◌==◌, if◌then◌else◌, Bool-cases}
use onboard_ai.Common.Lists.{length}

abbrev pub Text : Type 0
Text = List ℕ

-- The code points of a literal.
abbrev pub codes : String → Text
codes String.[] = []
codes (String.◌∷◌ c s) = code c ∷ codes s

-- `a == b` on texts.
unfoldable pub text_eq : Text → Text → Bool
text_eq [] [] = true
text_eq [] (d ∷ ds) = false
text_eq (c ∷ cs) [] = false
text_eq (c ∷ cs) (d ∷ ds) = (c == d) && text_eq cs ds

pub text_eq_refl : (s : Text) → text_eq s s ≡ true
unfolding text_eq
text_eq_refl [] = refl
text_eq_refl (c ∷ cs) = ground (arith, text_eq_refl cs)

pub text_eq_sound : (s t : Text) → text_eq s t ≡ true → s ≡ t
unfolding text_eq
text_eq_sound [] [] h = refl
text_eq_sound [] (d ∷ ds) h = cc
text_eq_sound (c ∷ cs) [] h = cc
text_eq_sound (c ∷ cs) (d ∷ ds) h = ground (arith, text_eq_sound cs ds)

pub text_eq_sym : (s t : Text) → text_eq s t ≡ text_eq t s
unfolding text_eq
text_eq_sym [] [] = refl
text_eq_sym [] (d ∷ ds) = refl
text_eq_sym (c ∷ cs) [] = refl
text_eq_sym (c ∷ cs) (d ∷ ds) = ground (arith, text_eq_sym cs ds)

-- `str.isspace` on one code point: what `strip()` takes off.
unfoldable pub is_space : ℕ → Bool
is_space c =
    (leb 9 c && leb c 13)
    || (leb 28 c && leb c 32)
    || c == 133
    || c == 160
    || c == 5760
    || (leb 8192 c && leb c 8202)
    || c == 8232
    || c == 8233
    || c == 8239
    || c == 8287
    || c == 12288

-- `str.lower` where its result is ASCII: the capitals, and the Kelvin sign. Every other code point
-- outside ASCII has a lower form outside ASCII, which the callers' patterns refuse as they refuse
-- the code point itself.
pub lower_char : ℕ → ℕ
lower_char c = if leb 65 c && leb c 90 then c + 32 else if c == 8490 then 107 else c

unfoldable pub lower : Text → Text
unfolding lower_char
lower [] = []
lower (c ∷ cs) = lower_char c ∷ lower cs

pub lstrip : Text → Text
lstrip [] = []
lstrip (c ∷ cs) = let rest = lstrip cs in if is_space c then rest else c ∷ cs

-- Drops a space only where nothing but spaces follows it.
pub keep_left : ℕ → Text → Text
keep_left c [] = if is_space c then [] else c ∷ []
keep_left c (d ∷ ds) = c ∷ d ∷ ds

pub rstrip : Text → Text
rstrip [] = []
rstrip (c ∷ cs) = keep_left c (rstrip cs)

-- `s.strip()`
unfoldable pub strip : Text → Text
unfolding lstrip rstrip keep_left is_space
strip s = rstrip (lstrip s)

length-lstrip-le : (s : Text) → length (lstrip s) ≤ length s
unfolding lstrip
length-lstrip-le [] = omega arith
length-lstrip-le (c ∷ cs) = ground (arith, length-lstrip-le cs)

length-keep_left-le : (c : ℕ) (s : Text) → length (keep_left c s) ≤ suc (length s)
unfolding keep_left
length-keep_left-le c [] = ground arith
length-keep_left-le c (d ∷ ds) = omega arith

length-rstrip-le : (s : Text) → length (rstrip s) ≤ length s
unfolding rstrip
length-rstrip-le [] = omega arith
length-rstrip-le (c ∷ cs) = omega (arith, length-keep_left-le c (rstrip cs), length-rstrip-le cs)

pub length-strip-le : (s : Text) → length (strip s) ≤ length s
unfolding strip
length-strip-le s = omega (arith, length-lstrip-le s, length-rstrip-le (lstrip s))

-- A text with no space in front, and one with none at its end.
abbrev StartsBlack : Text → Type 0
StartsBlack [] = Unit
StartsBlack (c ∷ cs) = is_space c ≡ false

lstrip-StartsBlack : (s : Text) → StartsBlack (lstrip s)
unfolding lstrip
lstrip-StartsBlack [] = tt
lstrip-StartsBlack (c ∷ cs) = elim (Bool-cases (is_space c)) [
  | inl white ↦ rw white (lstrip-StartsBlack cs)
  | inr black ↦ rw black black
]

keep_left-StartsBlack : (c : ℕ) (s : Text) → is_space c ≡ false → StartsBlack (keep_left c s)
unfolding keep_left
keep_left-StartsBlack c [] h = rw h h
keep_left-StartsBlack c (d ∷ ds) h = h

rstrip-StartsBlack : (s : Text) → StartsBlack s → StartsBlack (rstrip s)
unfolding rstrip
rstrip-StartsBlack [] h = tt
rstrip-StartsBlack (c ∷ cs) h = keep_left-StartsBlack c (rstrip cs) h

lstrip_idle : (s : Text) → StartsBlack s → lstrip s ≡ s
unfolding lstrip
lstrip_idle [] h = refl
lstrip_idle (c ∷ cs) h = rw h

rstrip-keep_left : (c : ℕ) (s : Text) → rstrip s ≡ s → rstrip (keep_left c s) ≡ keep_left c s
unfolding rstrip keep_left
rstrip-keep_left c [] h = ground arith
rstrip-keep_left c (d ∷ ds) h = rw h

rstrip-rstrip : (s : Text) → rstrip (rstrip s) ≡ rstrip s
unfolding rstrip
rstrip-rstrip [] = refl
rstrip-rstrip (c ∷ cs) = rstrip-keep_left c (rstrip cs) (rstrip-rstrip cs)

-- Stripping a second time changes nothing.
pub strip-strip : (s : Text) → strip (strip s) ≡ strip s
unfolding strip
strip-strip s =
    rw (lstrip_idle (rstrip (lstrip s)) (rstrip-StartsBlack (lstrip s) (lstrip-StartsBlack s)))
      (rstrip-rstrip (lstrip s))
