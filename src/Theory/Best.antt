-- ===== src/Theory/Best.antt =====
-- The loop over all roots and rows finds the matches that no other beats.
use midicrt.Prelude.{
  ℕ, ◌≡◌, ◌⊎◌, Bool, true, false, ◌&&◌, not, Option, none, some, List, [], ◌∷◌, ◌++◌, keep, All,
  map,
}
use midicrt.Theory.{Shape, Score, Hit, roots, better, same_score, hit_at, passes}

-- No hit of the list beats this one.
unfoldable pub unbeaten : List Hit → Hit → Bool
unbeaten [] c = true
unbeaten (d ∷ cs) c = not (better d.score c.score) && unbeaten cs c

-- Some hit of the list scores this.
abbrev Attained : Score → List Hit → Type 0
Attained b [] = ⊥
Attained b (c ∷ cs) = (c.score ≡ b) ⊎ Attained b cs

-- What the loop knows of the hits that it has been offered.
abbrev Knows : List Hit → Option Score → List Hit → Type 0
Knows cs none hits = (cs ≡ []) × (hits ≡ [])
Knows cs (some b) hits =
    (hits ≡ keep (λ c. same_score c.score b) cs)
    × All (λ c. better c.score b ≡ false) cs
    × Attained b cs

module _ (pcs : List ℕ) (require_root_in_pcs : Bool) (min_match min_ratio : ℕ) where
  -- The matches that meet the thresholds, row after row and root after root.
  abbrev candidates_at : Shape → List ℕ → List Hit
  candidates_at item rs =
      keep (passes pcs require_root_in_pcs min_match min_ratio)
        (map (hit_at pcs require_root_in_pcs min_match min_ratio item) rs)

  unfoldable pub candidates : List Shape → List Hit
  candidates [] = []
  candidates (item ∷ db) = candidates_at item roots ++ candidates db
