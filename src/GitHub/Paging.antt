-- ===== src/GitHub/Paging.antt =====
-- The loop over the pages of a listing (src/adapters/connectors/github/client.py).
use qaestro.Prelude.{ℕ, zero, suc, ◌+◌, List, [], ◌++◌, length, ltb, if◌then◌else◌}
use qaestro.Prelude.Exec.{Exec, pure, ◌>>=◌}

-- `_MAX_PAGES`
abbrev pub max_pages : ℕ
max_pages = 30

module _ {E S A : Type 0} (fetch : ℕ → Exec E S (List A)) (per_page : ℕ) where
  -- The rounds that are left, the page that is next, and the results so far.
  unfoldable pub walk : ℕ → ℕ → List A → Exec E S (List A)
  walk zero page results = pure results
  walk (suc rounds) page results = do
    items ← fetch page
    if ltb (length items) per_page
        then pure (results ++ items)
        else walk rounds (page + 1) (results ++ items)

  unfoldable pub walk_pages : Exec E S (List A)
  unfolding walk
  walk_pages = walk max_pages 1 []
