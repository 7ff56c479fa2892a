-- ===== src/GitHub/Listing.antt =====
-- What the loop over the pages (src/adapters/connectors/github/client.py) collects.
use qaestro.Prelude.{
  ℕ, zero, suc, ◌+◌, ◌*◌, ◌≤◌, ◌≡◌, ap, ◌∙◌, List, [], ◌++◌, ok, length, ltb, take, drop, take-drop,
  drop_full, take_at, take_short, Bool-cases, inl, inr, arith,
}
use qaestro.Prelude.Exec.{Exec}
use qaestro.GitHub.Paging.{max_pages, walk, walk_pages}

module _ {E S A : Type 0} (fetch : ℕ → Exec E S (List A)) (per_page : ℕ) where
  -- Every page up to the first that is not full is a slice of the list, in the states that satisfy
  -- `P` and lead to each other.
  pub record FetchesSlices (P : S → Type 0) (xs : List A) : Type 0 where
    pub at :
        (page : ℕ) (s : S)
        → page * per_page ≤ length xs
        → P s
        → ((fetch (suc page) s).0 ≡ ok (take per_page (drop (page * per_page) xs)))
          × P (fetch (suc page) s).1

  module _ (P : S → Type 0) (xs : List A) where
    -- A page that is short ends the list; another one is followed by the rest.
    walk-take :
        FetchesSlices P xs
        → (rounds page : ℕ) (results : List A) (s : S) → page * per_page ≤ length xs
        → results ≡ take (page * per_page) xs
        → P s
        → ((walk fetch per_page rounds (suc page) results s).0
            ≡ ok (take ((page + rounds) * per_page) xs))
          × P (walk fetch per_page rounds (suc page) results s).1
    unfolding walk
    walk-take h zero page results s low e p =
        (ap ok e ∙ ap ok (take_at (page * per_page) ((page + 0) * per_page) xs (omega arith)), p)
    walk-take h (suc rounds) page results s low e p =
        let k = page * per_page in
        let (served, p') = h.at page s low p in
        let slice = take per_page (drop k xs) in
        let gathered = ap (λ ys. ys ++ slice) e in
        rw served (elim (Bool-cases (ltb (length slice) per_page)) [
          | inl short ↦ rw short (
              (
                ap ok (
                    gathered
                    ∙ ap (λ ys. take k xs ++ ys)
                        (take_short per_page (rounds * per_page) (drop k xs) short)
                    ∙ take-drop k (per_page + rounds * per_page) xs
                    ∙ take_at (k + (per_page + rounds * per_page)) ((page + suc rounds) * per_page)
                        xs (omega arith)),
                p',
              ))
          | inr full ↦ rw full (
              let next : suc page + 1 ≡ suc (suc page) = omega arith in
              let (rest, p'') =
                walk-take h rounds (suc page) (results ++ slice) (fetch (suc page) s).1
                  (let more = drop_full k per_page xs low full in omega (arith, more))
                  (gathered
                    ∙ take-drop k per_page xs
                    ∙ take_at (k + per_page) (suc page * per_page) xs (omega arith))
                  p' in
              rw next (
                rest
                    ∙ ap ok (
                        take_at ((suc page + rounds) * per_page) ((page + suc rounds) * per_page) xs
                          (omega arith)),
                p'',
              ))
        ])

    pub walk_pages-take :
        FetchesSlices P xs
        → (s : S) → P s
        → ((walk_pages fetch per_page s).0 ≡ ok (take (max_pages * per_page) xs))
          × P (walk_pages fetch per_page s).1
    unfolding walk_pages
    walk_pages-take h s p =
        walk-take h max_pages 0 [] s (omega arith) (take_at 0 (0 * per_page) xs (omega arith)) p
