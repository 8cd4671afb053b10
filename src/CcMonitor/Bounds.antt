-- ===== src/CcMonitor/Bounds.antt =====
-- What the tables hold, and how much.
use midicrt.Prelude.{
  ℕ, suc, ◌+◌, ◌≤◌, ◌≡◌, refl, ap, ◌∙◌, ◌&&◌, not, Option, none, some, List, [], ◌∷◌, arith, leb,
  eqb, ltb, ◌==◌, ==_iff, max, length, length-append, pair_test, number_test, Bool-cases,
  Option-cases, inl, inr,
}
use midicrt.Event.{Kind, control_change, Input, drive, drive_keeps}
use midicrt.Dict.{Dict, get, put, has, Distinct, get-put, get-nil, put-Distinct, length-put}
use midicrt.CcMonitor.{
  Key, Entry, CcMonitor, init, tail, append_recent, peak_of, make_room, updated, on_control,
  dispatch, handle, tick_entries, tick,
}

-- At most sixteen controllers are tracked, none twice, and at most six values are kept for a channel; a
-- tracked value is not above the controller's peak.
pub record IsSound (s : CcMonitor) : Type 0 where
  pub few : length s.tracked ≤ 16
  pub distinct : Distinct s.tracked
  pub short : (ch : ℕ) → length (s.recent ch) ≤ 6
  pub peaked : (k : Key) (e : Entry) → get s.tracked k ≡ some e → e.value ≤ peak_of (get s.peak k)

length-append_recent :
    (xs : List (ℕ × ℕ)) (x : ℕ × ℕ) → length xs ≤ 6 → length (append_recent xs x) ≤ 6
unfolding append_recent
length-append_recent [] x h = ground (arith, length-append {A = ℕ × ℕ} [] (x ∷ []))
length-append_recent (y ∷ ys) x h =
    ground (arith, h, length-append ys (x ∷ []), length-append (y ∷ ys) (x ∷ []))

get-tail :
    (d : Dict Key Entry) (k : Key) (e : Entry)
    → Distinct d
    → get (tail d) k ≡ some e
    → get d k ≡ some e
unfolding get
get-tail [] k e h at = at
get-tail ((j, v) ∷ d) k e h at = ground (arith, h.0, at, ==_iff {K = Key} j k)

tail-Distinct : (d : Dict Key Entry) → Distinct d → Distinct (tail d)
tail-Distinct [] h = tt
tail-Distinct ((j, v) ∷ d) h = h.1

get-make_room :
    (key : Key) (d : Dict Key Entry) (k : Key) (e : Entry)
    → Distinct d
    → get (make_room key d) k ≡ some e
    → get d k ≡ some e
unfolding make_room
get-make_room key d k e h at = elim (Bool-cases (not (has d key) && leb 16 (length d))) [
  | inl full ↦ get-tail d k e h (ground (arith, full, at))
  | inr room ↦ ground (arith, room, at)
]

make_room-Distinct : (key : Key) (d : Dict Key Entry) → Distinct d → Distinct (make_room key d)
unfolding make_room
make_room-Distinct key d h = elim (Bool-cases (not (has d key) && leb 16 (length d))) [
  | inl full ↦ rw full (tail-Distinct d h)
  | inr room ↦ rw room h
]

-- There is room for one more, unless the controller is tracked already.
length-put-make_room :
    (key : Key) (d : Dict Key Entry) (e : Entry)
    → length d ≤ 16
    → length (put (make_room key d) key e) ≤ 16
unfolding make_room get
length-put-make_room key [] e h = ground (arith, length-put {V = Entry} [] key e)
length-put-make_room key ((j, v) ∷ d) e h =
    ground (arith, h, length-put d key e, length-put ((j, v) ∷ d) key e)

control-IsSound :
    (ch cc value ts : ℕ) (s : CcMonitor) → IsSound s → IsSound (on_control ch cc value ts s)
unfolding on_control updated
control-IsSound ch cc value ts s h =
    let key : Key = (ch, cc) in
    let tracked = make_room key s.tracked in
    let new = updated (get tracked key) value ts in
    let newest : new.value ≡ value = elim (Option-cases (get tracked key)) [
      | inl absent ↦ rw absent refl
      | inr (e, at) ↦ rw at refl
    ] in
    record {
      few = length-put-make_room key s.tracked new h.few;
      distinct = put-Distinct tracked key new (make_room-Distinct key s.tracked h.distinct);
      short = λ c. elim (Bool-cases (eqb c ch)) [
        | inl here ↦ rw here (length-append_recent (s.recent c) (cc, value) (h.short c))
        | inr other ↦ rw other (h.short c)
      ];
      peaked = λ k e at. elim (Bool-cases (key == k)) [
        | inl mine ↦
            let top = max (peak_of (get s.peak key)) value in
            let this : new ≡ e = ground (arith, mine, at, get-put tracked key k new) in
            ground (arith, ap (λ (x : Entry). x.value) this, newest, mine, get-put s.peak key k top)
        | inr other ↦
            let top = max (peak_of (get s.peak key)) value in
            let before : get tracked k ≡ some e =
              ground (arith, other, at, get-put tracked key k new) in
            ground (
              arith,
              h.peaked k e (get-make_room key s.tracked k e h.distinct before),
              other,
              get-put s.peak key k top,
            )
      ];
    }

dispatch-IsSound :
    (kind : Kind) (channel cc value : Option ℕ) (ts : ℕ) (s : CcMonitor)
    → IsSound s
    → IsSound (dispatch kind channel cc value ts s).0
unfolding dispatch
dispatch-IsSound control_change (some channel) (some cc) (some value) ts s h =
    control-IsSound (channel + 1) cc value ts s h
dispatch-IsSound _ _ _ _ ts s h = h

length-tick_entries : (now : ℕ) (d : Dict Key Entry) → length (tick_entries now d).0 ≡ length d
unfolding tick_entries
length-tick_entries now [] = refl
length-tick_entries now ((k, e) ∷ d) = ap suc (length-tick_entries now d)

-- What a tick of the clock makes of an entry.
abbrev aged : ℕ → Option Entry → Option Entry
aged now none = none
aged now (some e) = some (record e { fresh = some (ltb now (e.ts + 2000)) })

get-tick_entries :
    (now : ℕ) (d : Dict Key Entry) (k : Key) → get (tick_entries now d).0 k ≡ aged now (get d k)
unfolding tick_entries get
get-tick_entries now [] k = refl
get-tick_entries now ((j, e) ∷ d) k = elim (Bool-cases (j == k)) [
  | inl mine ↦ rw mine refl
  | inr other ↦ rw other (get-tick_entries now d k)
]

tick_entries-Distinct :
    (now : ℕ) (d : Dict Key Entry) → Distinct d → Distinct (tick_entries now d).0
unfolding tick_entries
tick_entries-Distinct now [] h = tt
tick_entries-Distinct now ((k, e) ∷ d) h =
    (get-tick_entries now d k ∙ ap (λ o. aged now o) h.0, tick_entries-Distinct now d h.1)

tick-IsSound : (now : ℕ) (s : CcMonitor) → IsSound s → IsSound (tick s now).0
unfolding tick
tick-IsSound now s h = record {
  few = rw length-tick_entries h.few;
  distinct = tick_entries-Distinct now s.tracked h.distinct;
  short = h.short;
  peaked = λ k e at. elim (Option-cases (get s.tracked k)) [
    | inl absent ↦ absurd (cc (at, get-tick_entries now s.tracked k, absent))
    | inr (e', there) ↦
        let this : record e' { fresh = some (ltb now (e'.ts + 2000)) } ≡ e =
          cc (at, get-tick_entries now s.tracked k, ap (λ o. aged now o) there) in
        let same : e'.value ≡ e.value = ap (λ (x : Entry). x.value) this in
        rw (← same) (h.peaked k e' there)
  ];
}

-- Whatever events and ticks the monitor meets, at most sixteen controllers are tracked, none of them
-- twice, at most six values are kept for a channel, and no tracked value is above its controller's peak.
pub drive_bounded : (todo : List Input) → IsSound (drive handle tick init todo)
unfolding handle
drive_bounded todo =
    drive_keeps handle tick IsSound
      (λ s ev h. dispatch-IsSound ev.kind ev.channel ev.data1 ev.data2 ev.ts s h)
      (λ s now h. tick-IsSound now s h) init todo
      (unfold init in
        record {
          few = omega arith;
          distinct = tt;
          short = λ ch. omega arith;
          peaked = λ k e at. absurd (cc (at, get-nil {V = Entry} k));
        })
