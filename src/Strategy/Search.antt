-- ===== src/Strategy/Search.antt =====
-- What a search of the knowledge base finds.
use qaestro.Prelude.{
  String, Bool, List, ◌≡◌, ◌==◌, string_eq, filter, IsSorted, sorted_by-IsSorted, filter-sorted_by,
}
use qaestro.Strategy.{KnowledgeEntry, KnowledgeQuery}
use qaestro.Strategy.Knowledge.{is_match, search}

abbrev pub of_key : String → KnowledgeEntry → Bool
of_key k entry = entry.key == k

-- `found` are the matching entries in the order of their keys; entries of one key keep their order.
abbrev pub IsSearch : List KnowledgeEntry → KnowledgeQuery → List KnowledgeEntry → Type 0
IsSearch entries query found =
    IsSorted (λ e. e.key) found
    × ((k : String) → filter (of_key k) found ≡ filter (of_key k) (filter (is_match query) entries))

-- A search finds exactly the matching entries, in the order of their keys.
search-IsSearch :
    (entries : List KnowledgeEntry) (query : KnowledgeQuery)
    → IsSearch entries query (search entries query)
unfolding search
search-IsSearch entries query = (
  sorted_by-IsSorted (λ e. e.key) (filter (is_match query) entries),
  λ k. filter-sorted_by (λ e. e.key) k (filter (is_match query) entries),
)
