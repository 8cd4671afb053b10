-- ===== src/Theory.antt =====
-- src/midicrt/analyzers/theory.py: which chords and scales of a table fit a set of pitch classes. A set is a
-- list in which no number stands twice; the tables are read from files and are arguments here. A ratio is
-- tested without division, in tenths; the source's quotients of numbers up to 12 compare in the same way.
pub mod Ranking
pub mod Best
mod Tests
use midicrt.Prelude.{
  ℕ, ◌+◌, ◌*◌, ◌%◌, Bool, true, false, ◌&&◌, ◌||◌, not, Option, none, some, String, List, [], ◌∷◌,
  ◌++◌, if◌then◌else◌, eqb, leb, ltb, ◌==◌, text_test, number_test, pair_test, elem, keep, length,
  map, max,
}

-- A row of a table: a name, and the pitch classes above the root 0.
pub record Shape : Type 0 where
  pub name : String
  pub pcs : List ℕ

-- How many notes match, how many the pattern does not have, how many of the pattern's are missing, and how
-- many the pattern has: the source's score, but for the signs of the last three.
pub record Score : Type 0 where
  pub match_count : ℕ
  pub extra : ℕ
  pub missing : ℕ
  pub size : ℕ

pub record Hit : Type 0 where
  pub root : ℕ
  pub name : String
  pub score : Score

abbrev pub pattern_at : ℕ → List ℕ → List ℕ
pattern_at root base = map (λ p. (root + p) % 12) base

-- pcs & pattern, and pcs - pattern
abbrev pub common : List ℕ → List ℕ → List ℕ
common pcs pattern = keep (λ p. elem p pattern) pcs

abbrev pub without : List ℕ → List ℕ → List ℕ
without pcs pattern = keep (λ p. not (elem p pattern)) pcs

unfoldable pub score_of : List ℕ → List ℕ → Score
score_of pcs pattern = record {
  match_count = length (common pcs pattern);
  extra = length (without pcs pattern);
  missing = length (without pattern pcs);
  size = length pattern;
}

-- Python's order of the score tuples.
unfoldable pub better : Score → Score → Bool
better a b =
    ltb b.match_count a.match_count
    || (eqb a.match_count b.match_count
        && (ltb a.extra b.extra
            || (eqb a.extra b.extra
                && (ltb a.missing b.missing || (eqb a.missing b.missing && ltb a.size b.size)))))

unfoldable pub same_score : Score → Score → Bool
same_score a b =
    (eqb a.match_count b.match_count && eqb a.extra b.extra)
    && (eqb a.missing b.missing && eqb a.size b.size)

-- The best hits so far.
pub record Found : Type 0 where
  pub best_score : Option Score
  pub hits : List Hit

abbrev pub nothing_found : Found
nothing_found = record { best_score = none; hits = [] }

abbrev pub roots : List ℕ
roots = 0 ∷ 1 ∷ 2 ∷ 3 ∷ 4 ∷ 5 ∷ 6 ∷ 7 ∷ 8 ∷ 9 ∷ 10 ∷ 11 ∷ []

abbrev pub enter : Option Score → Hit → Found → Found
enter none hit f = record { best_score = some hit.score; hits = hit ∷ [] }
enter (some best) hit f =
    if better hit.score best
    then record { best_score = some hit.score; hits = hit ∷ [] }
    else if same_score hit.score best
    then record { best_score = some best; hits = f.hits ++ hit ∷ [] }
    else f

unfoldable pub enter_hit : Hit → Found → Found
enter_hit hit f = enter f.best_score hit f

abbrev pub unless_tied : ℕ → List Hit → Option (List Hit)
unless_tied max_ties [] = none
unless_tied max_ties (hit ∷ hits) =
    if ltb max_ties (length (hit ∷ hits)) then none else some (hit ∷ hits)

module _ (pcs : List ℕ) (require_root_in_pcs : Bool) (min_match min_ratio : ℕ) where
  abbrev pub hit_at : Shape → ℕ → Hit
  hit_at item root = record {
    root = root;
    name = item.name;
    score = score_of pcs (pattern_at root item.pcs);
  }

  -- The three conditions of the loop, on a root and what it scores.
  abbrev pub passes : Hit → Bool
  passes hit =
      not (require_root_in_pcs && not (elem hit.root pcs))
      && (not (ltb hit.score.match_count min_match)
          && not (ltb (hit.score.match_count * 10) (min_ratio * max 1 (length pcs))))

  unfoldable pub try_roots : Shape → List ℕ → Found → Found
  try_roots item [] f = f
  try_roots item (root ∷ rest) f =
      let hit = hit_at item root in try_roots item rest (if passes hit then enter_hit hit f else f)

  unfoldable pub try_items : List Shape → Found → Found
  try_items [] f = f
  try_items (item ∷ db) f = try_items db (try_roots item roots f)

  -- `_best_matches`
  unfoldable pub best_matches : List Shape → ℕ → Option (List Hit)
  best_matches db max_ties = unless_tied max_ties (try_items db nothing_found).hits

-- A match with what a page shows of it; the ratio is a quotient.
pub record Info : Type 0 where
  pub root : ℕ
  pub name : String
  pub pcs : List ℕ
  pub missing : List ℕ
  pub match_count : ℕ
  pub ratio : ℕ × ℕ

unfoldable pub insert_pc : ℕ → List ℕ → List ℕ
insert_pc p [] = p ∷ []
insert_pc p (q ∷ ps) = let rest = insert_pc p ps in if leb p q then p ∷ q ∷ ps else q ∷ rest

unfoldable pub sort_pcs : List ℕ → List ℕ
sort_pcs [] = []
sort_pcs (p ∷ ps) = insert_pc p (sort_pcs ps)

-- The pitch classes of the first row with the name.
unfoldable pub base_of : String → List Shape → Option (List ℕ)
base_of name [] = none
base_of name (item ∷ db) =
    let rest = base_of name db in if item.name == name then some item.pcs else rest

abbrev pub info_from : Option (List ℕ) → Hit → List ℕ → List Info
info_from none hit pcs = []
info_from (some base) hit pcs =
    let pattern = pattern_at hit.root base in
    record {
      root = hit.root;
      name = hit.name;
      pcs = pattern;
      missing = sort_pcs (without pattern pcs);
      match_count = length (common pcs pattern);
      ratio = (length (common pcs pattern), length pattern);
    }
    ∷ []

-- `_make_info_list`
unfoldable pub make_infos : List Hit → List Shape → List ℕ → List Info
make_infos [] db pcs = []
make_infos (hit ∷ hits) db pcs = info_from (base_of hit.name db) hit pcs ++ make_infos hits db pcs

abbrev pub unless_empty : List Info → Option (List Info)
unless_empty [] = none
unless_empty (i ∷ infos) = some (i ∷ infos)

abbrev pub make_info_list : Option (List Hit) → List Shape → List ℕ → Option (List Info)
make_info_list none db pcs = none
make_info_list (some hits) db pcs = unless_empty (make_infos hits db pcs)

-- `detect_harmony_info` with its thresholds
unfoldable pub detect_harmony_info :
    List Shape → List Shape → List ℕ → ℕ → ℕ → ℕ → ℕ → Option (List Info) × Option (List Info)
detect_harmony_info chords scales pcs min_chord min_scale chord_ratio scale_ratio = (
  if leb min_chord (length pcs)
      then make_info_list (best_matches pcs true min_chord chord_ratio chords 3) chords pcs
      else none,
  if leb min_scale (length pcs)
      then make_info_list (best_matches pcs false min_scale scale_ratio scales 3) scales pcs
      else none,
)
