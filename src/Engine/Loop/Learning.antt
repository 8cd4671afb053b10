-- ===== src/Engine/Loop/Learning.antt =====
-- Learning in the loop: the event that teaches a binding does not fire one.
use midicrt.Prelude.{
  ℕ, ◌≡◌, refl, sym, ap, ◌∙◌, Bool, true, false, Option, none, some, String, List, [], ◌∷◌, ◌++◌,
  if◌then◌else◌, if_false, subst,
}
use midicrt.Prelude.Int.{ℤ}
use midicrt.Event.{Kind, MidiEvent, note_on, control_change, sysex}
use midicrt.Actions.Defs.{Value}
use midicrt.Bindings.Defs.{set_bindings, is_learnable_event, handle_with_origin}
use midicrt.Bindings.Learn.{Arm, Learn, capture_learn, bind_match, save_bindings}
use midicrt.Engine.Loop.{
  Engine, is_own, count_event, show_event, offer, learn_or_offer, bind, receive_as, take_in, handle,
}

-- The slot is free, and the dispatcher starts anew with the file's bindings.
record Settled (s : Learn) : Type 0 where
  unarmed : s.armed ≡ none
  anew : s.dispatcher ≡ set_bindings s.file

module _ (escape : String → String) (before_suffix : String → Option String)
    (digits : ℕ → String) where
  capture-Settled :
      (kind : Kind) (now number : ℕ) (arm : Arm) (ev : MidiEvent) (s : Learn)
      → ev.kind ≡ kind
      → is_learnable_event ev ≡ true
      → ev.data1 ≡ some number
      → Settled (capture_learn escape before_suffix digits now arm ev s)
  unfolding capture_learn bind_match save_bindings is_learnable_event
  capture-Settled note_on now number arm ev s is_kind learnable numbered =
      rw (numbered, is_kind, capture_learn) (record { unarmed = refl; anew = refl })
  capture-Settled control_change now number arm ev s is_kind learnable numbered =
      rw (numbered, is_kind, capture_learn) (record { unarmed = refl; anew = refl })
  capture-Settled _ now number arm ev s is_kind learnable numbered =
      absurd (cc (rw (is_kind, is_learnable_event) at learnable))

-- Engines that agree on what the bindings work with.
Same : Engine → Engine → Type 0
Same e e' =
    (e'.learn ≡ e.learn)
    × (e'.pending ≡ e.pending)
    × (e'.port_name ≡ e.port_name)
    × (e'.replay ≡ e.replay)

module _ (fnmatch : String → String → Bool) (mix : ℕ → ℤ → ℤ → Value) (escape : String → String)
    (before_suffix : String → Option String) (digits : ℕ → String) (accepted : List ℕ → Bool) where
  abbrev act : ℕ → MidiEvent → Engine → Engine
  act now ev e = handle fnmatch mix escape before_suffix digits accepted now ev e

  abbrev tried : Option Arm → ℕ → MidiEvent → Engine → Engine
  tried armed now ev e =
      learn_or_offer fnmatch mix escape before_suffix digits accepted armed now ev e

  receive-Same :
      (kind : Kind) (ev : MidiEvent) (e : Engine)
      → Same e (receive_as fnmatch mix escape before_suffix digits accepted kind ev e)
  unfolding receive_as Same
  receive-Same sysex ev e = (refl, refl, refl, refl)
  receive-Same _ ev e = (refl, refl, refl, refl)

  abbrev note : MidiEvent → Engine → Engine
  note ev e = record e { heard = e.heard ++ ev ∷ [] }

  bind_live :
      (now : ℕ) (ev : MidiEvent) (e : Engine)
      → e.replay ≡ false
      → bind fnmatch mix escape before_suffix digits accepted now ev e
        ≡ tried e.learn.armed now ev e
  unfolding bind
  bind_live now ev e live = if_false e.replay e (tried e.learn.armed now ev e) live

  -- An event from outside, when nothing is replayed.
  live-Same :
      (now : ℕ) (ev : MidiEvent) (e : Engine)
      → is_own e.port_name ev ≡ false
      → e.replay ≡ false
      → Same (tried e.learn.armed now ev (note ev e)) (act now ev e)
  unfolding handle take_in show_event count_event Same
  live-Same now ev e from_outside live =
      let bound = bind fnmatch mix escape before_suffix digits accepted now ev (note ev e) in
      let taken : act now ev e ≡ take_in fnmatch mix escape before_suffix digits accepted now ev e =
        if_false (is_own e.port_name ev) e _ from_outside in
      subst (λ x. Same (tried e.learn.armed now ev (note ev e)) x) (sym taken)
        (subst (λ x. Same x (take_in fnmatch mix escape before_suffix digits accepted now ev e))
          (bind_live now ev (note ev e) live) (receive-Same ev.kind ev (count_event ev bound)))

  -- The event that teaches a binding asks for no action and leaves the slot free; the event that follows
  -- is met by the bindings of the new file, none of which remembers a controller's value.
  pub taught_asks_nothing :
      (now later number : ℕ) (ev next : MidiEvent) (arm : Arm) (e : Engine)
      → is_own e.port_name ev ≡ false
      → is_own e.port_name next ≡ false
      → e.replay ≡ false
      → e.learn.armed ≡ some arm
      → is_learnable_event ev ≡ true
      → ev.data1 ≡ some number
      → let e' = act now ev e in
        (e'.pending ≡ e.pending)
        × (e'.learn.armed ≡ none)
        × ((act later next e').pending
            ≡ e.pending ++ (handle_with_origin fnmatch mix (set_bindings e'.learn.file) next).1)
  unfolding learn_or_offer offer Same
  taught_asks_nothing now later number ev next arm e outside outside' live armed learnable
        numbered =
      let e' = act now ev e in
      let new = capture_learn escape before_suffix digits now arm ev e.learn in
      let settled =
        capture-Settled escape before_suffix digits ev.kind now number arm ev e.learn refl learnable
          numbered in
      let taught : tried e.learn.armed now ev (note ev e) ≡ record (note ev e) { learn = new } =
        ap (λ a. tried a now ev (note ev e)) armed
        ∙ ap
            (λ b.
              if b
              then record (note ev e) { learn = new }
              else offer fnmatch mix escape before_suffix digits accepted ev (note ev e))
            learnable in
      let (learn, pending, port, replay) = live-Same now ev e outside live in
      let learn' : e'.learn ≡ new = learn ∙ ap (λ (x : Engine). x.learn) taught in
      let pending' : e'.pending ≡ e.pending = pending ∙ ap (λ (x : Engine). x.pending) taught in
      let port' : e'.port_name ≡ e.port_name = port ∙ ap (λ (x : Engine). x.port_name) taught in
      let replay' : e'.replay ≡ e.replay = replay ∙ ap (λ (x : Engine). x.replay) taught in
      let unarmed : e'.learn.armed ≡ none = ap (λ (x : Learn). x.armed) learn' ∙ settled.unarmed in
      let anew : e'.learn.dispatcher ≡ set_bindings e'.learn.file =
        subst (λ (x : Learn). x.dispatcher ≡ set_bindings x.file) (sym learn') settled.anew in
      let (learn'', pending'', port'', replay'') =
        live-Same later next e' (ap (λ p. is_own p next) port' ∙ outside') (replay' ∙ live) in
      (
        pending',
        unarmed,
        pending''
            ∙ ap (λ a. (tried a later next (note next e')).pending) unarmed
            ∙ ap (λ d. e'.pending ++ (handle_with_origin fnmatch mix d next).1) anew
            ∙ ap (λ q. q ++ (handle_with_origin fnmatch mix (set_bindings e'.learn.file) next).1)
                pending',
      )
