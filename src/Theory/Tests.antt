-- ===== src/Theory/Tests.antt =====
-- Chords against a table of two.
use midicrt.Prelude.{◌≡◌, refl, none, some, List, [], ◌∷◌, text_test, number_test}
use midicrt.Theory.{
  Shape, score_of, better, same_score, enter_hit, try_roots, try_items, best_matches, insert_pc,
  sort_pcs, base_of, make_infos, detect_harmony_info,
}
use midicrt.Theory.Best.{unbeaten, candidates}

abbrev triads : List Shape
triads =
    record { name = "maj"; pcs = 0 ∷ 4 ∷ 7 ∷ [] }
    ∷ record { name = "min"; pcs = 0 ∷ 3 ∷ 7 ∷ [] }
    ∷ []

-- What the tests compute with.
execution : Unit {0}
unfolding score_of better same_score enter_hit try_roots try_items best_matches insert_pc sort_pcs
    base_of make_infos detect_harmony_info unbeaten candidates
execution = tt

-- F, A and C are F major; the scales' table is empty.
f_major : detect_harmony_info triads [] (5 ∷ 9 ∷ 0 ∷ []) 2 3 6 7 ≡ (
  some (
      record {
        root = 5;
        name = "maj";
        pcs = 5 ∷ 9 ∷ 0 ∷ [];
        missing = [];
        match_count = 3;
        ratio = (3, 3);
      }
      ∷ []),
  none,
)
unfolding execution
f_major = refl
