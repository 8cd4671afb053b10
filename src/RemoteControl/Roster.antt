-- ===== src/RemoteControl/Roster.antt =====
-- The page actions and the remote control keep the current page in the roster.
use midicrt.Prelude.{
  ℕ, ◌-◌, ◌≡◌, refl, Bool, true, false, Bool-cases, Option-cases, Option, none, some, String, List,
  [], ◌∷◌, arith, leb, not, ◌&&◌, eqb, text_test, number_test, elem, length, get_elem?,
  get_elem?-elem, inl, inr, if◌then◌else◌,
}
use midicrt.Prelude.Int.{ℤ, pos, negsuc}
use midicrt.Dict.{has}
use midicrt.Event.{MidiEvent}
use midicrt.RemoteControl.Frames.{
  FrameError, missing_cmd, unsupported_version, Parsed, parse_command,
}
use midicrt.RemoteControl.Desk.{
  Desk, set_current_page, index, turn, page_next, Detail, Mark, goto_mark, page_prev, page_goto,
  page_jump, pagecycle_enable, or_same, page_ids,
}
use midicrt.RemoteControl.Receiver.{
  note_status, send_sysex, answer, record_action, goto_page, show_page, sysex_switch_page, blank,
  sysex_screensaver, sysex_page_cycle, sysex_capture_recent, sysex_capabilities,
  dispatch_sysex_command, obey, announce, handle_parsed, handle_sysex, page_of_id,
}

-- What every step keeps: the roster, and that the current page stands in it.
pub record Keeps (s s' : Desk) : Type 0 where
  pub roster : s'.pages ≡ s.pages
  pub shown : elem s.current_page s.pages ≡ true → elem s'.current_page s.pages ≡ true

same-Keeps : (s s' : Desk) → s'.pages ≡ s.pages → s'.current_page ≡ s.current_page → Keeps s s'
same-Keeps s s' roster page = record { roster = roster; shown = λ h. rw page h }

then-Keeps : (s s' s'' : Desk) → Keeps s s' → Keeps s' s'' → Keeps s s''
then-Keeps s s' s'' h k = record {
  roster = cc (h.roster, k.roster);
  shown = λ on. ground (arith, h.roster, h.shown on, k.shown);
}

set_current_page-Keeps :
    (name : String) (s : Desk) → elem name s.pages ≡ true → Keeps s (set_current_page name s)
unfolding set_current_page
set_current_page-Keeps name s known = record { roster = refl; shown = λ _. known }

turn-Keeps : (step : ℕ → ℕ) (s : Desk) → Keeps s (or_same (turn step s) s)
unfolding turn set_current_page
turn-Keeps step s = elim (Option-cases (index s.current_page s.pages)) [
  | inl lost ↦ rw (lost, turn) (same-Keeps s s refl refl)
  | inr (i, at) ↦ elim (Option-cases (get_elem? s.pages (step i))) [
    | inl out ↦ rw (at, out, turn) (same-Keeps s s refl refl)
    | inr (name, there) ↦
        rw (at, there, turn)
          (set_current_page-Keeps name s (get_elem?-elem s.pages (step i) name there))
  ]
]

either-Keeps :
    (test : Bool) (s x y : Desk)
    → (test ≡ true → Keeps s x)
    → Keeps s y
    → Keeps s (if test then x else y)
either-Keeps true s x y left right = left refl
either-Keeps false s x y left right = right

either_same :
    (test : Bool) (s : Desk) (x y : Option Desk)
    → (test ≡ true → Keeps s (or_same x s))
    → Keeps s (or_same y s)
    → Keeps s (or_same (if test then x else y) s)
either_same true s x y left right = left refl
either_same false s x y left right = right

page_goto-Keeps : (name : String) (s : Desk) → Keeps s (or_same (page_goto name s) s)
unfolding page_goto
page_goto-Keeps name s = either_same (elem name s.pages) s _ _ (set_current_page-Keeps name s) (
    either_same (has page_ids name) s _ _ (λ _. same-Keeps s s refl refl)
      (same-Keeps s s refl refl))

page_jump-Keeps : (position : ℤ) (s : Desk) → Keeps s (or_same (page_jump position s) s)
unfolding page_jump
page_jump-Keeps (negsuc n) s = same-Keeps s s refl refl
page_jump-Keeps (pos position) s = elim (Option-cases (get_elem? s.pages (position - 1))) [
  | inl out ↦ elim (Bool-cases (leb 1 position && leb position (length s.pages))) [
    | inl inside ↦ rw (inside, out) (same-Keeps s s refl refl)
    | inr outside ↦ rw outside (same-Keeps s s refl refl)
  ]
  | inr (name, there) ↦
      let at_page =
        set_current_page-Keeps name s (get_elem?-elem s.pages (position - 1) name there) in
      elim (Bool-cases (leb 1 position && leb position (length s.pages))) [
        | inl inside ↦ rw (inside, there) at_page
        | inr outside ↦ rw outside (same-Keeps s s refl refl)
      ]
]

answer-Keeps :
    (version : Option ℕ) (cmd st : ℕ) (payload : List ℕ) (s s' : Desk)
    → Keeps s s'
    → Keeps s (answer version cmd st payload s')
unfolding answer send_sysex
answer-Keeps none cmd st payload s s' h = h
answer-Keeps (some version) cmd st payload s s' h = record { roster = h.roster; shown = h.shown }

note-Keeps :
    (version : Option ℕ) (cmd : ℕ) (ok : Bool) (detail : Detail) (ts : ℕ) (s s' : Desk)
    → Keeps s s'
    → Keeps s (note_status version cmd ok detail ts s')
unfolding note_status
note-Keeps version cmd ok detail ts s s' h = record { roster = h.roster; shown = h.shown }

-- A handler ends by noting its status and answering.
ends-Keeps :
    (version : Option ℕ) (cmd st : ℕ) (payload : List ℕ) (ok : Bool) (detail : Detail) (ts : ℕ)
    (s s' : Desk)
    → Keeps s s'
    → Keeps s (answer version cmd st payload (note_status version cmd ok detail ts s'))
ends-Keeps version cmd st payload ok detail ts s s' h =
    answer-Keeps version cmd st payload s _ (note-Keeps version cmd ok detail ts s s' h)

record-Keeps : (mark : Mark) (s s' : Desk) → Keeps s s' → Keeps s (record_action mark s')
unfolding record_action
record-Keeps mark s s' h = record { roster = h.roster; shown = h.shown }

goto_page-Keeps : (name : String) (s : Desk) → Keeps s (goto_page name s)
unfolding goto_page
goto_page-Keeps name s = page_goto-Keeps name s

show-Keeps :
    (version : Option ℕ) (page_id : ℕ) (name : Option String) (ts : ℕ) (s : Desk)
    → Keeps s (show_page version page_id name ts s)
unfolding show_page
show-Keeps version page_id none ts s =
    ends-Keeps version 1 1 _ _ _ ts s s (same-Keeps s s refl refl)
show-Keeps version page_id (some name) ts s =
    either-Keeps (elem name s.pages) s _ _
      (λ _. ends-Keeps version 1 0 _ _ _ ts s _ (record-Keeps _ s _ (goto_page-Keeps name s)))
      (ends-Keeps version 1 1 _ _ _ ts s s (same-Keeps s s refl refl))

switch-Keeps :
    (version : Option ℕ) (args : List ℕ) (ts : ℕ) (s : Desk)
    → Keeps s (sysex_switch_page version args ts s)
unfolding sysex_switch_page
switch-Keeps version [] ts s = ends-Keeps version 1 1 _ _ _ ts s s (same-Keeps s s refl refl)
switch-Keeps version (page_id ∷ _) ts s = show-Keeps version page_id (page_of_id page_id) ts s

blank-Keeps : (arg : ℕ) (s : Desk) → Keeps s (blank arg s)
unfolding blank
blank-Keeps arg s =
    either-Keeps (not (eqb arg 0) && elem "screensaver" s.pages) s
      (record_action (goto_mark "screensaver") (goto_page "screensaver" s)) s
      (λ _. record-Keeps _ s _ (goto_page-Keeps "screensaver" s)) (same-Keeps s s refl refl)

screensaver-Keeps :
    (version : Option ℕ) (args : List ℕ) (ts : ℕ) (s : Desk)
    → Keeps s (sysex_screensaver version args ts s)
unfolding sysex_screensaver
screensaver-Keeps version [] ts s = ends-Keeps version 2 1 _ _ _ ts s s (same-Keeps s s refl refl)
screensaver-Keeps version (arg ∷ _) ts s = ends-Keeps version 2 0 _ _ _ ts s _ (blank-Keeps arg s)

page_cycle-Keeps :
    (version : Option ℕ) (args : List ℕ) (ts : ℕ) (s : Desk)
    → Keeps s (sysex_page_cycle version args ts s)
unfolding sysex_page_cycle pagecycle_enable
page_cycle-Keeps version [] ts s = ends-Keeps version 3 1 _ _ _ ts s s (same-Keeps s s refl refl)
page_cycle-Keeps version (arg ∷ _) ts s =
    ends-Keeps version 3 0 _ _ _ ts s _ (record-Keeps _ s _ (same-Keeps s _ refl refl))

module _ (accepted : List ℕ → Bool) where
  capabilities-Keeps :
      (version : Option ℕ) (ts : ℕ) (s : Desk) → Keeps s (sysex_capabilities accepted version ts s)
  unfolding sysex_capabilities send_sysex
  capabilities-Keeps none ts s = note-Keeps none 16 _ _ ts s s (same-Keeps s s refl refl)
  capabilities-Keeps (some version) ts s =
      note-Keeps (some version) 16 _ _ ts s _ (same-Keeps s _ refl refl)

  dispatch-Keeps :
      (version : Option ℕ) (cmd : ℕ) (args : List ℕ) (ts : ℕ) (s : Desk)
      → Keeps s (dispatch_sysex_command accepted version cmd args ts s)
  unfolding dispatch_sysex_command sysex_capture_recent
  dispatch-Keeps version cmd args ts s =
      either-Keeps (eqb cmd 1) s _ _ (λ _. switch-Keeps version args ts s)
        (either-Keeps (eqb cmd 2) s _ _ (λ _. screensaver-Keeps version args ts s)
          (either-Keeps (eqb cmd 3) s _ _ (λ _. page_cycle-Keeps version args ts s)
            (either-Keeps (eqb cmd 4) s _ _
              (λ _. ends-Keeps version 4 1 _ _ _ ts s s (same-Keeps s s refl refl))
              (either-Keeps (eqb cmd 16) s _ _ (λ _. capabilities-Keeps version ts s)
                (ends-Keeps version cmd 1 _ _ _ ts s s (same-Keeps s s refl refl))))))

  obey-Keeps :
      (error : Option FrameError) (version cmd : Option ℕ) (args : List ℕ) (ts : ℕ) (s : Desk)
      → Keeps s (obey accepted error version cmd args ts s)
  unfolding obey send_sysex note_status
  obey-Keeps (some missing_cmd) version cmd args ts s = same-Keeps s _ refl refl
  obey-Keeps (some unsupported_version) version (some cmd) args ts s = same-Keeps s _ refl refl
  obey-Keeps (some unsupported_version) version none args ts s = same-Keeps s _ refl refl
  obey-Keeps none version (some cmd) args ts s = dispatch-Keeps version cmd args ts s
  obey-Keeps none version none args ts s = same-Keeps s _ refl refl

  parsed-Keeps :
      (parsed : Option Parsed) (ts : ℕ) (s : Desk) → Keeps s (handle_parsed accepted parsed ts s)
  unfolding handle_parsed announce
  parsed-Keeps none ts s = same-Keeps s s refl refl
  parsed-Keeps (some p) ts s =
      then-Keeps s (announce accepted p ts s) _ (same-Keeps s _ refl refl)
        (obey-Keeps p.error p.version p.cmd p.args ts (announce accepted p ts s))

  sysex-Keeps : (ev : MidiEvent) (s : Desk) → Keeps s (handle_sysex accepted ev s)
  unfolding handle_sysex
  sysex-Keeps ev s = elim (Option-cases ev.sysex_data) [
    | inl absent ↦ rw (absent, handle_sysex) (same-Keeps s s refl refl)
    | inr (bytes, there) ↦ rw (there, handle_sysex) (parsed-Keeps (parse_command bytes) ev.ts s)
  ]

  -- What can turn the page: the page actions, whose exceptions change nothing, and SysEx frames.
  pub data Act : Type 0 where
    next prev : Act
    goto : String → Act
    jump : ℤ → Act
    sysex : MidiEvent → Act

  unfoldable pub act : Act → Desk → Desk
  act next s = or_same (page_next s) s
  act prev s = or_same (page_prev s) s
  act (goto name) s = or_same (page_goto name s) s
  act (jump position) s = or_same (page_jump position s) s
  act (sysex ev) s = handle_sysex accepted ev s

  unfoldable pub acts : List Act → Desk → Desk
  acts [] s = s
  acts (a ∷ rest) s = acts rest (act a s)

  act-Keeps : (a : Act) (s : Desk) → Keeps s (act a s)
  unfolding act page_next page_prev
  act-Keeps next s = turn-Keeps _ s
  act-Keeps prev s = turn-Keeps _ s
  act-Keeps (goto name) s = page_goto-Keeps name s
  act-Keeps (jump position) s = page_jump-Keeps position s
  act-Keeps (sysex ev) s = sysex-Keeps ev s

  -- Whatever page actions and SysEx frames come, the current page stays in the roster if it was there,
  -- and the roster stays the same.
  pub current_page_stays :
      (todo : List Act) (s : Desk)
      → elem s.current_page s.pages ≡ true
      → ((acts todo s).pages ≡ s.pages) × (elem (acts todo s).current_page s.pages ≡ true)
  unfolding acts
  current_page_stays [] s on = (refl, on)
  current_page_stays (a ∷ rest) s on =
      let k = act-Keeps a s in
      ground (arith, k.roster, k.shown on, current_page_stays rest (act a s))
