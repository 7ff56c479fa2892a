-- ===== src/GitHub/Blank.antt =====
-- Texts that `strip` leaves empty: the client of src/adapters/connectors/github/client.py refuses them
-- as the body of a comment.
use Prim.Native.Char.{Char, code}
use qaestro.Prelude.{
  eqb_iff, String, Bool, true, false, not, ◌&&◌, ◌≡◌, refl, ap, ◌∙◌, is_set, is_space, is_empty,
  strip, lstrip, rstrip, starts_with, occurs, arith,
}

abbrev is_blank : String → Bool
is_blank String.[] = true
is_blank (String.◌∷◌ c s) = is_space c && is_blank s

rstrip_blank : (s : String) → is_empty (rstrip s) ≡ is_blank s
unfolding rstrip is_empty
rstrip_blank String.[] = refl
rstrip_blank (String.◌∷◌ c s) = ground (arith, rstrip_blank s)

lstrip_blank : (s : String) → is_blank (lstrip s) ≡ is_blank s
unfolding lstrip
lstrip_blank String.[] = refl
lstrip_blank (String.◌∷◌ c s) = ground (arith, lstrip_blank s)

set_empty : (s : String) → is_set s ≡ not (is_empty s)
unfolding is_set is_empty
set_empty String.[] = refl
set_empty (String.◌∷◌ c s) = refl

strip_blank : (s : String) → is_set (strip s) ≡ not (is_blank s)
unfolding strip
strip_blank s = set_empty (rstrip (lstrip s)) ∙ ap not (rstrip_blank (lstrip s) ∙ lstrip_blank s)

blank_set : (s : String) → is_blank s ≡ false → is_set s ≡ true
unfolding is_set
blank_set String.[] h = cc
blank_set (String.◌∷◌ c s) h = refl

-- What was stripped and is not empty is not blank.
rstrip_again : (s : String) → is_blank s ≡ false → is_blank (rstrip s) ≡ false
unfolding rstrip
rstrip_again String.[] h = h
rstrip_again (String.◌∷◌ c s) h = ground (arith, rstrip_again s, rstrip_blank s)

stripped_blank : (s : String) → is_set (strip s) ≡ true → is_blank (strip s) ≡ false
unfolding strip
stripped_blank s h = rstrip_again (lstrip s) (lstrip_blank s ∙ ground (arith, strip_blank s))

is_space-code : (c d : Char) → code c ≡ code d → is_space c ≡ is_space d
unfolding is_space
is_space-code c d e = rw e refl

starts_with_blank :
    (p s : String) → starts_with p s ≡ true → is_blank p ≡ false → is_blank s ≡ false
unfolding starts_with
starts_with_blank String.[] s h k = cc
starts_with_blank (String.◌∷◌ c p) String.[] h k = cc
starts_with_blank (String.◌∷◌ c p) (String.◌∷◌ d s) h k =
    let same = is_space-code c d ((eqb_iff (code c) (code d)).0 (ground arith)) in
    ground (arith, starts_with_blank p s, same)

occurs_blank : (p s : String) → occurs p s ≡ true → is_blank p ≡ false → is_blank s ≡ false
unfolding occurs
occurs_blank p String.[] h k = starts_with_blank p String.[] h k
occurs_blank p (String.◌∷◌ c s) h k =
    ground (arith, starts_with_blank p (String.◌∷◌ c s), occurs_blank p s)

-- A text that holds a stripped one is not blank.
pub occurs-strip :
    (m s : String) → is_set (strip m) ≡ true → occurs (strip m) s ≡ true → is_set (strip s) ≡ true
occurs-strip m s h found =
    strip_blank s ∙ ap not (occurs_blank (strip m) s found (stripped_blank m h))
