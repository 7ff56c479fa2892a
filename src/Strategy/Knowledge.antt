-- ===== src/Strategy/Knowledge.antt =====
-- `InMemoryKnowledgeBase` of src/core/knowledge/memory.py. A set of terms is the list of them.
use qaestro.Prelude.{
  String, Bool, not, ◌&&◌, ◌||◌, List, [], ◌∷◌, if◌then◌else◌, string_eq, contains, any,
  is_nonempty, filter, leb, lower, join, words, strip_chars, text_length, occurs, sorted_by,
}
use qaestro.Strategy.{KnowledgeEntry, KnowledgeQuery}

abbrev pub bare_token : String → String
bare_token token = strip_chars ".,:;()[]{}#'\"" token

unfoldable pub tokens_of : List String → List String
tokens_of [] = []
tokens_of (w ∷ ws) =
    let rest = tokens_of ws in
    if leb 3 (text_length (bare_token w)) then lower (bare_token w) ∷ rest else rest

-- `_tokens`
unfoldable pub tokens : String → List String
unfolding tokens_of
tokens text = tokens_of (words text)

abbrev pub haystack_of : KnowledgeEntry → String
haystack_of entry = join " " (entry.key ∷ entry.summary ∷ join " " entry.checklist_items ∷ [])

unfoldable pub entry_matches_terms : KnowledgeEntry → List String → Bool
entry_matches_terms entry terms =
    any (contains (tokens (haystack_of entry))) terms
    || any (λ term. occurs term (lower (haystack_of entry))) terms

-- The entry's repositories, where it names any, hold the query's.
unfoldable pub in_scope : KnowledgeQuery → KnowledgeEntry → Bool
in_scope query entry =
    not (is_nonempty entry.repos && not (contains entry.repos query.repo_full_name))

unfoldable pub is_match : KnowledgeQuery → KnowledgeEntry → Bool
is_match query entry =
    let query_terms = tokens query.query_text in
    in_scope query entry && (not (is_nonempty query_terms) || entry_matches_terms entry query_terms)

unfoldable pub search : List KnowledgeEntry → KnowledgeQuery → List KnowledgeEntry
search entries query = sorted_by (λ entry. entry.key) (filter (is_match query) entries)
