-- ===== src/Pages/SendNotes/Released.antt =====
-- Every note that the page sends on is sent off.
use mathlib.Core.List.{append-nil, append_assoc}
use midicrt.Prelude.{
  ℕ, ◌+◌, ◌-◌, ◌*◌, ◌≡◌, ◌∙◌, refl, sym, ap, Bool, true, false, Option, none, some, String, List,
  [], ◌∷◌, ◌++◌, if◌then◌else◌, if_true, if_false, Bool-cases, inl, inr, leb, ◌==◌, text_test, max,
  min,
}
use midicrt.Dict.{get}
use midicrt.Pages.SendNotes.{
  Gated, SendNotes, init, keymap, Applied, unknown, adjusted, strike, Send, note_on, note_off, Desk,
  sends_of, drain_expired, offs, apply_key, sendnotes_key, tick, stop,
}

-- A key, or a tick of the clock, at a time.
pub data Act : Type 0 where
  pressed : String → ℕ → Act
  passed : ℕ → Act

module _ (lower : String → String) where
  unfoldable pub act : Act → Desk → Desk
  act (pressed key now) d = sendnotes_key lower key now d
  act (passed now) d = tick now d

  unfoldable pub run : List Act → Desk → Desk
  run [] d = d
  run (a ∷ acts) d = run acts (act a d)

-- The notes that were sent on, and those that were sent off, with their channels, in order.
unfoldable pub notes_on : List Send → List (ℕ × ℕ)
notes_on [] = []
notes_on (note_on note velocity ch ∷ sent) = (note, ch) ∷ notes_on sent
notes_on (note_off note ch ∷ sent) = notes_on sent

unfoldable pub notes_off : List Send → List (ℕ × ℕ)
notes_off [] = []
notes_off (note_on note velocity ch ∷ sent) = notes_off sent
notes_off (note_off note ch ∷ sent) = (note, ch) ∷ notes_off sent

abbrev sounding : List Gated → List (ℕ × ℕ)
sounding [] = []
sounding (g ∷ gs) = (g.note, g.ch) ∷ sounding gs

-- What was sent on was sent off, or sounds still, in this order.
Balanced : Desk → Type 0
Balanced d = notes_on d.sent ≡ notes_off d.sent ++ sounding d.page.active

on-append : (a b : List Send) → notes_on (a ++ b) ≡ notes_on a ++ notes_on b
unfolding notes_on
on-append [] b = refl
on-append (note_on note velocity ch ∷ a) b = ap (λ l. (note, ch) ∷ l) (on-append a b)
on-append (note_off note ch ∷ a) b = on-append a b

off-append : (a b : List Send) → notes_off (a ++ b) ≡ notes_off a ++ notes_off b
unfolding notes_off
off-append [] b = refl
off-append (note_on note velocity ch ∷ a) b = off-append a b
off-append (note_off note ch ∷ a) b = ap (λ l. (note, ch) ∷ l) (off-append a b)

sounding-append : (a b : List Gated) → sounding (a ++ b) ≡ sounding a ++ sounding b
sounding-append [] b = refl
sounding-append (g ∷ a) b = ap (λ l. (g.note, g.ch) ∷ l) (sounding-append a b)

notes-offs : (gs : List Gated) → (notes_on (offs gs) ≡ []) × (notes_off (offs gs) ≡ sounding gs)
unfolding notes_on notes_off offs
notes-offs [] = (refl, refl)
notes-offs (g ∷ gs) =
    let (none_on, all_off) = notes-offs gs in (none_on, ap (λ l. (g.note, g.ch) ∷ l) all_off)

-- A key makes its note sound, if it has one, and releases none.
Adds : SendNotes → SendNotes × Applied → Type 0
Adds s r =
    (sounding r.0.active ≡ sounding s.active ++ notes_on (sends_of r.1))
    × (notes_off (sends_of r.1) ≡ [])

quiet-Adds :
    (s s' : SendNotes) (a : Applied) → s'.active ≡ s.active → sends_of a ≡ [] → Adds s (s', a)
unfolding Adds notes_on notes_off
quiet-Adds s s' a same silent = (
  ap sounding same
      ∙ sym (append-nil (sounding s.active))
      ∙ ap (λ l. sounding s.active ++ notes_on l) (sym silent),
  ap notes_off silent,
)

if-Adds :
    (s : SendNotes) (b : Bool) (s' : SendNotes) (a : Applied) (r : SendNotes × Applied)
    → s'.active ≡ s.active
    → sends_of a ≡ []
    → Adds s r
    → Adds s (if b then (s', a) else r)
if-Adds s true s' a r same silent h = quiet-Adds s s' a same silent
if-Adds s false s' a r same silent h = h

strike-Adds : (o : Option ℕ) (now : ℕ) (s : SendNotes) → Adds s (strike o now s)
unfolding Adds notes_on notes_off
strike-Adds none now s = (sym (append-nil (sounding s.active)), refl)
strike-Adds (some offset) now s = (
  sounding-append s.active (
      record { expire_ts = now + s.gate_ms; note = 12 * s.octave_up + offset; ch = s.channel }
      ∷ []),
  refl,
)

apply-Adds :
    (lower : String → String) (key : String) (now : ℕ) (s : SendNotes)
    → Adds s (apply_key lower key now s)
unfolding apply_key
apply-Adds lower key now s = if-Adds s (key == "") s unknown _ refl refl (
    if-Adds s (key == ",") (record s { channel = max 1 (s.channel - 1) }) adjusted _ refl refl
      (if-Adds s (key == ".") (record s { channel = min 16 (s.channel + 1) }) adjusted _ refl refl
        (if-Adds s (key == "[") (record s { octave_up = s.octave_up - 1 }) adjusted _ refl refl
          (if-Adds s (key == "]") (record s { octave_up = min 10 (s.octave_up + 1) }) adjusted _
            refl refl
            (if-Adds s (key == "-") (record s { velocity = max 1 (s.velocity - 8) }) adjusted _ refl
              refl
              (if-Adds s (key == "=") (record s { velocity = min 127 (s.velocity + 8) }) adjusted _
                refl refl
                (if-Adds s (lower key == "g") (record s { gate_ms = max 20 (s.gate_ms - 20) })
                  adjusted _ refl refl
                  (if-Adds s (lower key == "h") (record s { gate_ms = min 2000 (s.gate_ms + 20) })
                    adjusted _ refl refl (strike-Adds (get keymap (lower key)) now s)))))))))

drained :
    (now : ℕ) (gs : List Gated)
    → sounding (drain_expired now gs).0 ++ sounding (drain_expired now gs).1 ≡ sounding gs
unfolding drain_expired
drained now [] = refl
drained now (g ∷ gs) =
    let (gone, left) = drain_expired now gs in
    elim (Bool-cases (leb g.expire_ts now)) [
      | inl over ↦
          ap (λ (r : List Gated × List Gated). sounding r.0 ++ sounding r.1)
            (if_true (leb g.expire_ts now) (g ∷ gone, left) ([], g ∷ gs) over)
          ∙ ap (λ l. (g.note, g.ch) ∷ l) (drained now gs)
      | inr early ↦
          ap (λ (r : List Gated × List Gated). sounding r.0 ++ sounding r.1)
            (if_false (leb g.expire_ts now) (g ∷ gone, left) ([], g ∷ gs) early)
    ]

act-Balanced :
    (lower : String → String) (a : Act) (d : Desk) → Balanced d → Balanced (act lower a d)
unfolding act Balanced sendnotes_key tick Adds
act-Balanced lower (pressed key now) d h =
    let (page, applied) = apply_key lower key now d.page in
    let (more, none_off) = apply-Adds lower key now d.page in
    let sends = sends_of applied in
    on-append d.sent sends
    ∙ ap (λ l. l ++ notes_on sends) h
    ∙ append_assoc (notes_off d.sent) (sounding d.page.active) (notes_on sends)
    ∙ ap (λ l. notes_off d.sent ++ l) (sym more)
    ∙ ap (λ l. l ++ sounding page.active)
        (sym (
          off-append d.sent sends
          ∙ ap (λ l. notes_off d.sent ++ l) none_off
          ∙ append-nil (notes_off d.sent)))
act-Balanced lower (passed now) d h =
    let (gone, left) = drain_expired now d.page.active in
    let (none_on, all_off) = notes-offs gone in
    on-append d.sent (offs gone)
    ∙ ap (λ l. notes_on d.sent ++ l) none_on
    ∙ append-nil (notes_on d.sent)
    ∙ h
    ∙ ap (λ l. notes_off d.sent ++ l) (sym (drained now d.page.active))
    ∙ sym (append_assoc (notes_off d.sent) (sounding gone) (sounding left))
    ∙ ap (λ l. l ++ sounding left)
        (sym (off-append d.sent (offs gone) ∙ ap (λ l. notes_off d.sent ++ l) all_off))

run-Balanced :
    (lower : String → String) (acts : List Act) (d : Desk)
    → Balanced d
    → Balanced (run lower acts d)
unfolding run
run-Balanced lower [] d h = h
run-Balanced lower (a ∷ acts) d h =
    run-Balanced lower acts (act lower a d) (act-Balanced lower a d h)

-- Whatever keys are pressed and however the clock ticks, when the engine has stopped, every note that the
-- page sent on has been sent off on its channel, once for each time, in the order of the keys.
pub all_released :
    (lower : String → String) (acts : List Act)
    → let sent = (stop (run lower acts (record { page = init; sent = [] }))).sent in
      notes_on sent ≡ notes_off sent
unfolding stop notes_on notes_off Balanced
all_released lower acts =
    let d = run lower acts (record { page = init; sent = [] }) in
    let (none_on, all_off) = notes-offs d.page.active in
    on-append d.sent (offs d.page.active)
    ∙ ap (λ l. notes_on d.sent ++ l) none_on
    ∙ append-nil (notes_on d.sent)
    ∙ run-Balanced lower acts (record { page = init; sent = [] }) refl
    ∙ sym (off-append d.sent (offs d.page.active) ∙ ap (λ l. notes_off d.sent ++ l) all_off)
