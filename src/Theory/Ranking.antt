-- ===== src/Theory/Ranking.antt =====
-- The order of scores.
use midicrt.Prelude.{◌≡◌, true, false, arith}
use midicrt.Theory.{Score, better, same_score}

pub better_trans : (a b c : Score) → better a b ≡ true → better b c ≡ true → better a c ≡ true
unfolding better
better_trans a b c h k = ground (arith, h, k)

pub same-better : (a b c : Score) → same_score a b ≡ true → better b c ≡ true → better a c ≡ true
unfolding better same_score
same-better a b c h k = ground (arith, h, k)

pub better-same : (a b c : Score) → better a b ≡ true → same_score b c ≡ true → better a c ≡ true
unfolding better same_score
better-same a b c h k = ground (arith, h, k)

pub same_unbeaten : (a b : Score) → same_score a b ≡ true → better a b ≡ false
unfolding better same_score
same_unbeaten a b h = ground (arith, h)

pub same_self : (a : Score) → same_score a a ≡ true
unfolding same_score
same_self a = ground arith

pub unbeaten_same : (a b : Score) → better a b ≡ false → better b a ≡ false → same_score a b ≡ true
unfolding better same_score
unbeaten_same a b h k = ground (arith, h, k)
