-- ===== src/Bindings/Crossings.antt =====
-- The intents of an event after a history of events.
use midicrt.Prelude.{
  ℕ, ◌≡◌, refl, ap, ◌∙◌, Bool, false, Option, none, String, List, [], ◌∷◌, arith, if◌then◌else◌,
  ◌==◌, ==_iff, text_test, number_test, option_test, pair_test, All,
}
use midicrt.Prelude.Int.{ℤ}
use midicrt.Dict.{get, get-nil}
use midicrt.Event.{MidiEvent}
use midicrt.Actions.Defs.{Value}
use midicrt.Bindings.Defs.{
  Binding, Control, Memory, Dispatcher, set_bindings, control_of, evaluate, evaluate_all,
  handle_with_origin,
}
use midicrt.Bindings.History.{
  has_id, Apart, or_before, value_for, last_value, get-evaluate, get-evaluate_other,
  get-evaluate_all,
}
use midicrt.Bindings.Expected.{expected, expected_all, intent-evaluate}

module _ (fnmatch : String → String → Bool) (mix : ℕ → ℤ → ℤ → Value) where
  -- What the memory holds for the bindings, after another binding has seen the event.
  before-evaluate :
      (b : Binding) (bs : List Binding) (ev : MidiEvent) (memory : Memory)
      (prev : Binding → Option ℕ)
      → has_id b.id bs ≡ false
      → All (λ c. get memory (control_of c ev) ≡ prev c) bs
      → All (λ c. get (evaluate fnmatch mix b ev memory).0 (control_of c ev) ≡ prev c) bs
  before-evaluate b [] ev memory prev apart h = tt
  before-evaluate b (c ∷ cs) ev memory prev apart h = (
    get-evaluate_other fnmatch mix b ev memory c.id ev.source ev.channel
          (ground (arith, apart, ==_iff c.id b.id, ==_iff b.id c.id))
        ∙ h.0,
    before-evaluate b cs ev memory prev (ground (arith, apart)) h.1,
  )

  intents-evaluate_all :
      (bs : List Binding) (ev : MidiEvent) (memory : Memory) (prev : Binding → Option ℕ)
      → Apart bs
      → All (λ b. get memory (control_of b ev) ≡ prev b) bs
      → (evaluate_all fnmatch mix bs ev memory).1 ≡ expected_all fnmatch mix bs ev prev
  unfolding evaluate_all expected_all
  intents-evaluate_all [] ev memory prev apart h = refl
  intents-evaluate_all (b ∷ bs) ev memory prev apart h =
      let same : (evaluate fnmatch mix b ev memory).1 ≡ expected fnmatch mix b ev (prev b) =
        intent-evaluate fnmatch mix b ev memory ∙ ap (expected fnmatch mix b ev) h.0 in
      let later =
        intents-evaluate_all bs ev (evaluate fnmatch mix b ev memory).0 prev apart.1
          (before-evaluate b bs ev memory prev apart.0 h.1) in
      rw (same, later) refl

  unfoldable pub feed : Dispatcher → List MidiEvent → Dispatcher
  feed d [] = d
  feed d (ev ∷ evs) = feed (handle_with_origin fnmatch mix d ev).0 evs

  -- What the memory holds for each binding, of any port and channel.
  abbrev Holds : Memory → (Binding → Control → Option ℕ) → List Binding → Type 0
  Holds memory prev = All (λ c.
      (source : String) (channel : Option ℕ)
      → get memory (c.id, (source, channel)) ≡ prev c (c.id, (source, channel)))

  unfoldable pub next_value :
      MidiEvent → (Binding → Control → Option ℕ) → Binding → Control → Option ℕ
  next_value ev prev b k =
      if control_of b ev == k then or_before (value_for fnmatch mix b ev) (prev b k) else prev b k

  evaluate-Holds :
      (b : Binding) (bs : List Binding) (ev : MidiEvent) (memory : Memory)
      (prev : Binding → Control → Option ℕ)
      → has_id b.id bs ≡ false
      → Holds memory prev bs
      → Holds (evaluate fnmatch mix b ev memory).0 prev bs
  evaluate-Holds b [] ev memory prev apart h = tt
  evaluate-Holds b (c ∷ cs) ev memory prev apart h =
      let other : (b.id == c.id) ≡ false =
        ground (arith, apart, ==_iff c.id b.id, ==_iff b.id c.id) in
      (
        (λ source channel.
            get-evaluate_other fnmatch mix b ev memory c.id source channel other
            ∙ h.0 source channel),
        evaluate-Holds b cs ev memory prev (ground (arith, apart)) h.1,
      )

  evaluate_all-Holds :
      (bs : List Binding) (ev : MidiEvent) (memory : Memory) (prev : Binding → Control → Option ℕ)
      → Apart bs
      → Holds memory prev bs
      → Holds (evaluate_all fnmatch mix bs ev memory).0 (next_value ev prev) bs
  unfolding evaluate_all
  evaluate_all-Holds [] ev memory prev apart h = tt
  evaluate_all-Holds (b ∷ bs) ev memory prev apart h =
      let memory' = (evaluate fnmatch mix b ev memory).0 in
      (
        (λ source channel.
            let k : Control = (b.id, (source, channel)) in
            get-evaluate_all fnmatch mix bs ev memory' b.id source channel apart.0
            ∙ get-evaluate fnmatch mix b ev memory k
            ∙ (unfold next_value in
                ap
                  (λ o.
                    if control_of b ev == k then or_before (value_for fnmatch mix b ev) o else o)
                  (h.0 source channel))),
        evaluate_all-Holds bs ev memory' prev apart.1
            (evaluate-Holds b bs ev memory prev apart.0 h.1),
      )

  feed-Holds :
      (d : Dispatcher) (evs : List MidiEvent) (prev : Binding → Control → Option ℕ)
      → Apart d.bindings
      → Holds d.last_cc_value prev d.bindings
      → Holds
          (feed d evs).last_cc_value
          (λ b k. last_value fnmatch mix b k evs (prev b k))
          d.bindings
  unfolding feed handle_with_origin last_value next_value
  feed-Holds d [] prev apart h = h
  feed-Holds d (ev ∷ evs) prev apart h =
      feed-Holds (handle_with_origin fnmatch mix d ev).0 evs (next_value ev prev) apart
        (evaluate_all-Holds d.bindings ev d.last_cc_value prev apart h)

  bindings-feed : (d : Dispatcher) (evs : List MidiEvent) → (feed d evs).bindings ≡ d.bindings
  unfolding feed handle_with_origin
  bindings-feed d [] = refl
  bindings-feed d (ev ∷ evs) = bindings-feed (handle_with_origin fnmatch mix d ev).0 evs

  fresh-Holds : (bs : List Binding) → Holds [] (λ b k. none) bs
  fresh-Holds [] = tt
  fresh-Holds (b ∷ bs) =
      ((λ source channel. get-nil {V = ℕ} (b.id, (source, channel))), fresh-Holds bs)

  at_event :
      (bs : List Binding) (memory : Memory) (ev : MidiEvent) (prev : Binding → Control → Option ℕ)
      → Holds memory prev bs
      → All (λ b. get memory (control_of b ev) ≡ prev b (control_of b ev)) bs
  at_event [] memory ev prev h = tt
  at_event (b ∷ bs) memory ev prev h = (h.0 ev.source ev.channel, at_event bs memory ev prev h.1)

  -- When no two bindings have the same id, then after any events since they were set an event yields
  -- exactly what the whole history says, for each binding that matches the event, in their order: a
  -- trigger on a controller fires when the value reaches its threshold from below, judged by the last
  -- value that the same port and channel sent it, and not on the first value; a trigger on a note fires
  -- on a velocity above 0; a continuous binding fires with its one open argument filled, if the event
  -- has a value and exactly one argument is open.
  pub intents_after :
      (bs : List Binding) (evs : List MidiEvent) (ev : MidiEvent)
      → Apart bs
      → (handle_with_origin fnmatch mix (feed (set_bindings bs) evs) ev).1
        ≡ expected_all fnmatch mix bs ev (λ b. last_value fnmatch mix b (control_of b ev) evs none)
  unfolding handle_with_origin set_bindings
  intents_after bs evs ev apart =
      let d = set_bindings bs in
      let kept : (feed d evs).bindings ≡ bs = bindings-feed d evs in
      rw kept (
        intents-evaluate_all bs ev (feed d evs).last_cc_value _ apart (
          at_event bs (feed d evs).last_cc_value ev (λ b k. last_value fnmatch mix b k evs none)
            (feed-Holds d evs (λ b k. none) apart (fresh-Holds bs))))
