-- ===== src/StuckNotes/Linger.antt =====
-- The linger window: what the view shows after the last alert has cleared.
use midicrt.Prelude.{
  ℕ, ◌+◌, ◌≤◌, ◌<◌, ◌≡◌, ◌≢◌, ◌∙◌, ap, refl, true, false, none, [], ◌∷◌, arith, ==_refl, pair_test,
  number_test,
}
use midicrt.Prelude.Int.{ℤ}
use midicrt.Dict.{Dict, get, get-nil}
use midicrt.StuckNotes.Defs.{Key, Entry, Level, StuckNotes}
use midicrt.StuckNotes.Tick.{tick_notes, tick_linger, tick, alerts_list, sort_alerts, view_model}
use midicrt.StuckNotes.Invariant.{IsValid}

no_entries : (d : Dict Key Level) → ((k : Key) → get d k ≡ none) → d ≡ []
unfolding get
no_entries [] h = refl
no_entries ((k, v) ∷ d) h = ground (arith, h k, ==_refl k)

module _ (round1 : ℤ → ℤ) where
  tick_silent :
      (s : StuckNotes) (now : ℕ)
      → IsValid s
      → s.active ≡ []
      → (s.levels ≡ []) × (tick round1 s now ≡ tick_linger round1 s now)
  unfolding tick tick_notes
  tick_silent s now h a =
      let silent =
        no_entries s.levels
          (λ k. h.levelled k (ap (λ (d : Dict Key Entry). get d k) a ∙ get-nil k)) in
      (silent, ground (arith, silent))

  -- On a valid state in which no note is held any more, but the last tick showed alerts, the tick at
  -- `cleared` freezes the alerts of that last tick into the view and reports a change. The next tick,
  -- up to `hold_after` later, changes and reports nothing; past that it empties the view and reports it.
  pub linger_window :
      (s : StuckNotes) (cleared now : ℕ)
      → IsValid s
      → s.active ≡ []
      → s.had_stuck ≡ true
      → let (s', dirty) = tick round1 s cleared in
        (dirty ≡ true)
        × ((view_model round1 s').alerts ≡ [])
        × ((view_model round1 s').cleared ≡ s.last_alerting_snapshot)
        × (now ≤ cleared + s.hold_after → tick round1 s' now ≡ (s', false))
        × (cleared + s.hold_after < now
            → ((tick round1 s' now).1 ≡ true)
              × ((view_model round1 (tick round1 s' now).0).cleared ≡ []))
  unfolding tick tick_notes tick_linger view_model alerts_list sort_alerts
  linger_window s cleared now h a stuck = ground (arith, (tick_silent s cleared h a).0)

  -- After a tick that leaves some level set, the view shows the alerts, nothing lingers, and the
  -- frozen copy for a later linger is the list of alerts that the view shows.
  pub alerting_tick :
      (s : StuckNotes) (now : ℕ)
      → let s' = (tick round1 s now).0 in
        s'.levels ≢ []
        → (s'.had_stuck ≡ true)
          × (s'.last_alerting_snapshot ≡ (view_model round1 s').alerts)
          × ((view_model round1 s').cleared ≡ [])
  unfolding tick tick_linger view_model alerts_list
  alerting_tick s now some_level = ground arith
