-- ===== src/Jobs/Decode.antt =====
-- `_deserialize_job` of src/app/jobs.py. `fromisoformat` is `datetime.fromisoformat` of the
-- standard library, `none` where it raises.
use qaestro.Prelude.{
  ℕ, ◌+◌, pos, ℤ, String, Bool, Option, none, some, List, [], ◌∷◌, Result, ok, err, ◌>>=◌,
}
use qaestro.Json.{Json, Items, Fields, null, bool, int, str, arr, obj, nil, cons, get_default}
use qaestro.Contracts.{
  EventType, EventSource, Timestamp, EventMeta, FileChange, event_type_of, event_source_of,
}
use qaestro.Jobs.{
  Place, named, in_meta, file, in_file, failed_job, an_object, a_string, an_integer, a_boolean,
  a_list, DecodeError, must_be, not_an_event_type, not_an_event_source, not_iso_format,
}

abbrev pub Decoded : Type 0 → Type 0
Decoded A = Result DecodeError A

unfoldable pub require_mapping : Json → Place → Decoded Fields
require_mapping (obj fs) place = ok fs
require_mapping value place = err (must_be place an_object)

unfoldable pub require_str : Json → Place → Decoded String
require_str (str s) place = ok s
require_str value place = err (must_be place a_string)

-- A Boolean is not taken for an integer.
unfoldable pub require_int : Json → Place → Decoded ℤ
require_int (int n) place = ok n
require_int value place = err (must_be place an_integer)

unfoldable pub optional_int : Json → Place → Decoded (Option ℤ)
optional_int null place = ok none
optional_int (int n) place = ok (some n)
optional_int value place = err (must_be place an_integer)

unfoldable pub require_bool : Json → Place → Decoded Bool
require_bool (bool b) place = ok b
require_bool value place = err (must_be place a_boolean)

unfoldable pub require_list : Json → Place → Decoded Items
require_list (arr xs) place = ok xs
require_list value place = err (must_be place a_list)

unfoldable pub strings_from : ℕ → Items → Decoded (List String)
unfolding require_str
strings_from index nil = ok []
strings_from index (cons x xs) = do
  s ← require_str x (failed_job index)
  ss ← strings_from (index + 1) xs
  ok (s ∷ ss)

unfoldable pub str_tuple : Json → Place → Decoded (List String)
unfolding require_list
str_tuple value place = do xs ← require_list value place; strings_from 0 xs

-- `_require_str(data.get(key), key)` and the like, for a key of the event's own object.
unfoldable pub str_field : String → Fields → Decoded String
unfolding require_str
str_field key data' = require_str (get_default key null data') (named key)

unfoldable pub str_field_or_empty : String → Fields → Decoded String
unfolding require_str
str_field_or_empty key data' = require_str (get_default key (str "") data') (named key)

unfoldable pub int_field : String → Fields → Decoded ℤ
unfolding require_int
int_field key data' = require_int (get_default key null data') (named key)

unfoldable pub optional_int_field : String → Fields → Decoded (Option ℤ)
optional_int_field key data' = optional_int (get_default key null data') (named key)

unfoldable pub parse_event_type : String → Decoded EventType
parse_event_type text = elim (event_type_of text) [
  | none ↦ err (not_an_event_type text)
  | some t ↦ ok t
]

unfoldable pub parse_event_source : String → Decoded EventSource
parse_event_source text = elim (event_source_of text) [
  | none ↦ err (not_an_event_source text)
  | some s ↦ ok s
]

unfoldable pub file_change_from_payload : Json → ℕ → Decoded FileChange
unfolding require_mapping require_str require_int
file_change_from_payload value index = do
  values ← require_mapping value (file index)
  path ← require_str (get_default "path" null values) (in_file index "path")
  status ← require_str (get_default "status" null values) (in_file index "status")
  additions ← require_int (get_default "additions" (int (pos 0)) values) (in_file index "additions")
  deletions ← require_int (get_default "deletions" (int (pos 0)) values) (in_file index "deletions")
  previous ←
      require_str (get_default "previous_filename" (str "") values)
        (in_file index "previous_filename")
  ok (record {
    path = path;
    status = status;
    additions = additions;
    deletions = deletions;
    previous_filename = previous;
  })

unfoldable pub files_from : ℕ → Items → Decoded (List FileChange)
files_from index nil = ok []
files_from index (cons x xs) = do
  f ← file_change_from_payload x index
  fs ← files_from (index + 1) xs
  ok (f ∷ fs)

module _ (fromisoformat : String → Option Timestamp) where
  unfoldable pub parse_timestamp : String → Decoded Timestamp
  parse_timestamp text = elim (fromisoformat text) [
    | none ↦ err (not_iso_format text)
    | some t ↦ ok t
  ]

  meta_str : String → Fields → Decoded String
  unfolding require_str
  meta_str key data' = require_str (get_default key null data') (in_meta key)

  unfoldable pub meta_from_payload : Fields → Decoded EventMeta
  unfolding meta_str
  meta_from_payload data' = do
    event_id ← meta_str "event_id" data'
    type_text ← meta_str "event_type" data'
    event_type ← parse_event_type type_text
    correlation_id ← meta_str "correlation_id" data'
    time_text ← meta_str "timestamp" data'
    timestamp ← parse_timestamp time_text
    source_text ← meta_str "source" data'
    source ← parse_event_source source_text
    ok (record {
      event_id = event_id;
      event_type = event_type;
      correlation_id = correlation_id;
      timestamp = timestamp;
      source = source;
    })
