-- ===== src/Engine/Loop/Queue.antt =====
-- The order of the events that the engine takes from its queue, and how many it takes at once.
use midicrt.Engine.Panic.{dispatch_to_state}
use mathlib.Core.List.{append-nil, append_assoc}
use midicrt.Prelude.{
  ℕ, zero, suc, ◌+◌, ◌-◌, ◌*◌, ◌≤◌, ◌≡◌, refl, sym, ap, ◌∙◌, Bool, not, Option, none, some, String,
  List, [], ◌∷◌, ◌++◌, arith, keep, take, length, length-append, drop, take-append-drop,
  length-drop, subst, Bool-cases, inl, inr, keep-append,
}
use midicrt.Prelude.Int.{ℤ}
use midicrt.Event.{Kind, MidiEvent, sysex}
use midicrt.Actions.Defs.{Value}
use midicrt.Bindings.Defs.{is_learnable_event}
use midicrt.Bindings.Learn.{Arm}
use midicrt.Engine.Loop.{
  Engine, is_own, count_event, show_event, offer, learn_or_offer, bind, receive_as, take_in, handle,
  drain, take_burst, after_burst, round,
}

-- What does not come back from the engine's own output.
unfoldable pub foreign : String → MidiEvent → Bool
foreign port_name ev = not (is_own port_name ev)

-- All that came in.
unfoldable pub arrivals : List (ℕ × List MidiEvent) → List MidiEvent
arrivals [] = []
arrivals ((now, new) ∷ rest) = new ++ arrivals rest

-- What was taken from a queue, what is left of it, and what comes after.
regroup :
    (own : MidiEvent → Bool) (queue later left heard heard' : List MidiEvent)
    → left ≡ drop 500 queue
    → heard' ≡ heard ++ keep own (take 500 queue)
    → heard' ++ keep own (left ++ later) ≡ heard ++ keep own (queue ++ later)
regroup own queue later left heard heard' h k =
    let taken = take 500 queue in
    let rest = drop 500 queue in
    rw (h, k)
      (append_assoc heard (keep own taken) (keep own (rest ++ later))
        ∙ ap (λ l. heard ++ l)
            (sym (keep-append own taken (rest ++ later))
              ∙ ap (λ l. keep own l)
                  (sym (append_assoc taken rest later)
                    ∙ ap (λ l. l ++ later) (take-append-drop 500 queue))))

-- Engines that have heard the same on the same port, and watch the same.
abbrev pub Same : Engine → Engine → Type 0
Same e e' = (e'.heard ≡ e.heard) × (e'.port_name ≡ e.port_name) × (e'.watch ≡ e.watch)

module _ (fnmatch : String → String → Bool) (mix : ℕ → ℤ → ℤ → Value) (escape : String → String)
    (before_suffix : String → Option String) (digits : ℕ → String) (accepted : List ℕ → Bool) where
  learn_or_offer-Same :
      (armed : Option Arm) (now : ℕ) (ev : MidiEvent) (e : Engine)
      → Same e (learn_or_offer fnmatch mix escape before_suffix digits accepted armed now ev e)
  unfolding learn_or_offer offer
  learn_or_offer-Same none now ev e = (refl, refl, refl)
  learn_or_offer-Same (some arm) now ev e = elim (Bool-cases (is_learnable_event ev)) [
    | inl learnable ↦ rw learnable (refl, refl, refl)
    | inr other ↦ rw other (refl, refl, refl)
  ]

  bind-Same :
      (now : ℕ) (ev : MidiEvent) (e : Engine)
      → Same e (bind fnmatch mix escape before_suffix digits accepted now ev e)
  unfolding bind
  bind-Same now ev e = elim (Bool-cases e.replay) [
    | inl replayed ↦ simp replayed (refl, refl, refl)
    | inr live ↦ simp live (learn_or_offer-Same e.learn.armed now ev e)
  ]

  receive-Same :
      (kind : Kind) (ev : MidiEvent) (e : Engine)
      → Same e (receive_as fnmatch mix escape before_suffix digits accepted kind ev e)
  unfolding receive_as
  receive-Same sysex ev e = (refl, refl, refl)
  receive-Same _ ev e = (refl, refl, refl)

  pub take_in-Heard :
      (now : ℕ) (ev : MidiEvent) (e : Engine)
      → let e' = take_in fnmatch mix escape before_suffix digits accepted now ev e in
        (e'.heard ≡ e.heard ++ ev ∷ [])
        × (e'.port_name ≡ e.port_name)
        × (e'.watch ≡ dispatch_to_state ev e.watch)
  unfolding take_in show_event count_event
  take_in-Heard now ev e =
      let noted = record e { heard = e.heard ++ ev ∷ [] } in
      let bound = bind fnmatch mix escape before_suffix digits accepted now ev noted in
      let (heard, port, watch) = bind-Same now ev noted in
      let (heard', port', watch') = receive-Same ev.kind ev (count_event ev bound) in
      (heard' ∙ heard, port' ∙ port, ap (dispatch_to_state ev) (watch' ∙ watch))

  abbrev act : ℕ → MidiEvent → Engine → Engine
  act now ev e = handle fnmatch mix escape before_suffix digits accepted now ev e

  handle-Heard :
      (now : ℕ) (ev : MidiEvent) (e : Engine)
      → ((act now ev e).heard ≡ e.heard ++ keep (foreign e.port_name) (ev ∷ []))
        × ((act now ev e).port_name ≡ e.port_name)
  unfolding handle foreign
  handle-Heard now ev e = elim (Bool-cases (is_own e.port_name ev)) [
    | inl own ↦ simp own (rw append-nil refl, refl)
    | inr from_outside ↦
        simp from_outside (let (heard, port, watch) = take_in-Heard now ev e in (heard, port))
  ]

  -- What a burst hears: what it takes from the queue, in order.
  drain-Heard :
      (now n : ℕ) (queue : List MidiEvent) (e : Engine)
      → let (queue', e') = drain fnmatch mix escape before_suffix digits accepted now n queue e in
        (queue' ≡ drop n queue)
        × (e'.heard ≡ e.heard ++ keep (foreign e.port_name) (take n queue))
        × (e'.port_name ≡ e.port_name)
  unfolding drain
  drain-Heard now zero queue e = (refl, rw append-nil refl, refl)
  drain-Heard now (suc n) [] e = (refl, rw append-nil refl, refl)
  drain-Heard now (suc n) (ev ∷ queue) e =
      let e' = act now ev e in
      let (heard, port) = handle-Heard now ev e in
      let (left, heard', port') = drain-Heard now n queue e' in
      let own = foreign e.port_name in
      (
        left,
        heard'
            ∙ ap (λ p. e'.heard ++ keep (foreign p) (take n queue)) port
            ∙ ap (λ h. h ++ keep own (take n queue)) heard
            ∙ append_assoc e.heard (keep own (ev ∷ [])) (keep own (take n queue))
            ∙ ap (λ l. e.heard ++ l) (sym (keep-append own (ev ∷ []) (take n queue))),
        port' ∙ port,
      )

  take_burst_drains :
      (now : ℕ) (queue : List MidiEvent) (e : Engine)
      → take_burst fnmatch mix escape before_suffix digits accepted now queue e
        ≡ drain fnmatch mix escape before_suffix digits accepted now 500 queue e
  unfolding take_burst drain
  take_burst_drains now [] e = refl
  take_burst_drains now (first ∷ queue) e = refl

  module _ (panic_on_crit : Bool) (round1 : ℤ → ℤ) where
    round-Heard :
        (now : ℕ) (queue : List MidiEvent) (e : Engine)
        → let (queue', (e', asked)) =
            round fnmatch mix escape before_suffix digits accepted panic_on_crit round1 now queue
              e in
          (queue' ≡ drop 500 queue)
          × (e'.heard ≡ e.heard ++ keep (foreign e.port_name) (take 500 queue))
          × (e'.port_name ≡ e.port_name)
    unfolding round after_burst
    round-Heard now queue e = rw take_burst_drains (drain-Heard now 500 queue e)

    -- Rounds of the loop, each at a time and with the events that came in before it.
    unfoldable pub rounds :
        List (ℕ × List MidiEvent) → List MidiEvent → Engine → List MidiEvent × Engine
    rounds [] queue e = (queue, e)
    rounds ((now, new) ∷ rest) queue e =
        let (queue', (e', asked)) =
          round fnmatch mix escape before_suffix digits accepted panic_on_crit round1 now
            (queue ++ new) e in
        rounds rest queue' e'

    -- However events come in between rounds, what the engine has heard, followed by what still waits, is
    -- what it had heard before, what waited, and what came in, in this order, but for the events that come
    -- back from its own output: none is lost, heard twice or overtaken. A backlog to which nothing is added
    -- shrinks by 500 events a round, until it is gone.
    pub none_lost :
        (todo : List (ℕ × List MidiEvent)) (queue : List MidiEvent) (e : Engine)
        → let (queue', e') = rounds todo queue e in
          (e'.heard ++ keep (foreign e.port_name) queue'
            ≡ e.heard ++ keep (foreign e.port_name) (queue ++ arrivals todo))
          × (length queue' ≤ (length queue - 500 * length todo) + length (arrivals todo))
    unfolding rounds arrivals
    none_lost [] queue e = (rw append-nil refl, omega arith)
    none_lost ((now, new) ∷ rest) queue e =
        let (left, heard, port) = round-Heard now (queue ++ new) e in
        let (queue', (e', asked)) =
          round fnmatch mix escape before_suffix digits accepted panic_on_crit round1 now
            (queue ++ new) e in
        let (order, bound) = none_lost rest queue' e' in
        let own = foreign e.port_name in
        let (last, final) = rounds rest queue' e' in
        let order' : final.heard ++ keep own last ≡ e'.heard ++ keep own (queue' ++ arrivals rest) =
          subst
            (λ p.
              final.heard ++ keep (foreign p) last
              ≡ e'.heard ++ keep (foreign p) (queue' ++ arrivals rest))
            port order in
        let size : length queue' ≡ length queue + length new - 500 =
          ap length left
          ∙ length-drop 500 (queue ++ new)
          ∙ ap (λ n. n - 500) (length-append queue new) in
        (
          order'
              ∙ regroup own (queue ++ new) (arrivals rest) queue' e.heard e'.heard left heard
              ∙ ap (λ l. e.heard ++ keep own l) (append_assoc queue new (arrivals rest)),
          omega (arith, bound, size, length-append new (arrivals rest)),
        )
