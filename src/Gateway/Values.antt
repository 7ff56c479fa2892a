-- ===== src/Gateway/Values.antt =====
-- How the parsers of src/core/contracts/parsers.py read a JSON value, with what they raise.
-- `int_of_text` is Python's `int` on a text, `none` where it raises.
use Prim.Native.Nat.{◌/◌}
use qaestro.Prelude.{
  ℕ, ℤ, pos, negsuc, zero, suc, ◌^◌, String, Bool, true, false, Option, none, some, List, [], ◌∷◌,
  Result, ok, err, ◌>>=◌, if◌then◌else◌, is_set, lower,
}
use qaestro.Json.{
  Json, Items, Fields, null, bool, int, float, not_finite, str, arr, obj, nil, cons, end, field,
  get_default,
}
use qaestro.Gateway.Raw.{RawFileChange}
use qaestro.Gateway.{Fault, attribute_error, type_error, value_error, overflow_error, key_error}

abbrev pub Read : Type 0 → Type 0
Read A = Result Fault A

-- The receiver of a call of `get`.
unfoldable pub as_mapping : Json → Read Fields
as_mapping (obj fs) = ok fs
as_mapping value = err attribute_error

unfoldable pub truthy : Json → Bool
truthy null = false
truthy (bool b) = b
truthy (int (pos zero)) = false
truthy (int n) = true
truthy (float (pos zero) k) = false
truthy (float m k) = true
truthy not_finite = true
truthy (str s) = is_set s
truthy (arr nil) = false
truthy (arr (cons x xs)) = true
truthy (obj end) = false
truthy (obj (field k v fs)) = true

-- `value or ""`
unfoldable pub or_empty : Json → Json
or_empty value = if truthy value then value else str ""

-- `-a` for a natural number.
abbrev pub minus : ℕ → ℤ
minus zero = pos 0
minus (suc n) = negsuc n

abbrev pub or_value_error : Option ℤ → Read ℤ
or_value_error none = err value_error
or_value_error (some n) = ok n

-- The values that a `for` goes over. The keys of an object and the characters of a text are texts.
unfoldable pub iterate : Json → Read Items
iterate (arr xs) = ok xs
iterate (obj end) = ok nil
iterate (obj (field k v fs)) = ok (cons (str k) nil)
iterate (str s) = ok (if is_set s then cons (str s) nil else nil)
iterate value = err type_error

-- `_get(d, outer, inner)`
unfoldable pub get_nested : String → String → Fields → Json
get_nested outer inner d = elim (get_default outer (str "") d) [
  | obj fs ↦ get_default inner (str "") fs
  | _ ↦ str ""
]

module _ (int_of_text : String → Option ℤ) where
  -- `int(value)`; a float loses what follows its point.
  unfoldable pub to_int : Json → Read ℤ
  to_int (int n) = ok n
  to_int (bool true) = ok (pos 1)
  to_int (bool false) = ok (pos 0)
  to_int (float (pos m) k) = ok (pos (m / 2 ^ k))
  to_int (float (negsuc m) k) = ok (minus (suc m / 2 ^ k))
  to_int not_finite = err overflow_error
  to_int (str s) = or_value_error (int_of_text s)
  to_int value = err type_error

  -- `int(value) if value is not None else None`
  unfoldable pub to_optional_int : Option Json → Read (Option ℤ)
  to_optional_int none = ok none
  to_optional_int (some null) = ok none
  to_optional_int (some value) = do n ← to_int value; ok (some n)

  unfoldable pub parse_file : Json → Read RawFileChange
  parse_file value = do
    f ← as_mapping value
    additions ← to_int (get_default "additions" (int (pos 0)) f)
    deletions ← to_int (get_default "deletions" (int (pos 0)) f)
    let path = (get_default "filename" (str "") f)
    let status = (get_default "status" (str "modified") f)
    let previous = (or_empty (get_default "previous_filename" (str "") f))
    ok (record {
      path = path;
      status = status;
      additions = additions;
      deletions = deletions;
      previous_filename = previous;
    })

  unfoldable pub parse_items : Items → Read (List RawFileChange)
  parse_items nil = ok []
  parse_items (cons x xs) = do f ← parse_file x; fs ← parse_items xs; ok (f ∷ fs)

  unfoldable pub parse_files : Json → Read (List RawFileChange)
  parse_files value = do items ← iterate value; parse_items items

-- `[j.get("name", "") for j in jobs if j.get("name")]`
unfoldable pub named_first : Json → List Json → List Json
named_first name rest = if truthy name then name ∷ rest else rest

unfoldable pub failed_names : Items → Read (List Json)
unfolding named_first
failed_names nil = ok []
failed_names (cons x xs) = do
  j ← as_mapping x
  rest ← failed_names xs
  ok (named_first (get_default "name" (str "") j) rest)

-- `pull_requests[0]`
unfoldable pub first_of : Json → Read Json
first_of (arr (cons x xs)) = ok x
first_of (obj fs) = err key_error
first_of (str s) = ok (str s)
first_of value = err type_error

-- `.lower()`
unfoldable pub lower_of : Json → Read String
lower_of (str s) = ok (lower s)
lower_of value = err attribute_error

-- `"key" in comment` and then `comment.get`: the first raises on a number, the second on a text or
-- a list.
unfoldable pub as_comment : Json → Read Fields
as_comment (obj fs) = ok fs
as_comment (str s) = err attribute_error
as_comment (arr xs) = err attribute_error
as_comment value = err type_error
