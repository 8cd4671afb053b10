-- ===== src/Voices/Fits.antt =====
-- What one channel counts, and that striking, releasing and clearing keep it right.
use midicrt.Prelude.{
  ℕ, ◌+◌, ◌-◌, ◌≤◌, ◌<◌, ◌≡◌, refl, Bool-cases, some, arith, leb, number_test, option_test, inl,
  inr,
}
use midicrt.Dict.{
  get, Distinct, get-nil, get-put, get-remove, put-Distinct, remove-Distinct, total, total-put,
  total-remove,
}
use midicrt.Voices.Defs.{Channel, count_of, struck, released, cleared}

abbrev pub itself : ℕ → ℕ
itself n = n

abbrev pub active_of : Channel → ℕ
active_of c = c.active

-- A channel's count is the sum over its notes, each of which is held, and is at most its peak.
pub record Fits (c : Channel) : Type 0 where
  pub counted : c.active ≡ total itself c.notes
  pub peaked : c.active ≤ c.peak
  pub held : (note k : ℕ) → get c.notes note ≡ some k → 0 < k
  pub distinct : Distinct c.notes

pub struck-Fits : (c : Channel) (note : ℕ) → Fits c → Fits (struck c note)
unfolding struck
struck-Fits c note h = record {
  counted =
      ground (arith, h.counted, total-put itself c.notes note (count_of (get c.notes note) + 1));
  peaked = omega arith;
  held = λ n k. rw get-put (ground (arith, h.held n k));
  distinct = put-Distinct c.notes note _ h.distinct;
}

pub released-Fits :
    (c : Channel) (note k : ℕ) → get c.notes note ≡ some k → Fits c → Fits (released c note k)
unfolding released
released-Fits c note k at h = elim (Bool-cases (leb k 1)) [
  | inl last ↦ rw last (record {
    counted =
        ground
          (arith, h.counted, last, h.held note k at, total-remove itself c.notes note h.distinct);
    peaked = omega (arith, h.peaked);
    held = λ n j. rw get-remove (ground (arith, h.held n j));
    distinct = remove-Distinct c.notes note h.distinct;
  })
  | inr more ↦ rw more (record {
    counted = ground (arith, h.counted, more, total-put itself c.notes note (k - 1));
    peaked = omega (arith, h.peaked);
    held = λ n j. rw get-put (ground (arith, h.held n j, more));
    distinct = put-Distinct c.notes note (k - 1) h.distinct;
  })
]

pub cleared-Fits : (c : Channel) → Fits (cleared c)
cleared-Fits c = record {
  counted = unfold total in refl;
  peaked = omega arith;
  held = λ n k h. cc (get-nil {V = ℕ} n);
  distinct = tt;
}
