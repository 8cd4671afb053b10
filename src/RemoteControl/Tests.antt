-- ===== src/RemoteControl/Tests.antt =====
-- Concrete runs of the pages and the remote control.
use midicrt.Prelude.{
  ℕ, ◌≡◌, refl, Bool, true, false, none, List, [], ◌∷◌, arith, elem, text_test, number_test,
}
use midicrt.Prelude.Int.{pos}
use midicrt.Dict.{get}
use midicrt.Event.{MidiEvent}
use midicrt.Event.Samples.{exclusive}
use midicrt.RemoteControl.Frames.{frame, parse_command, build_reply}
use midicrt.RemoteControl.Desk.{
  Desk, set_current_page, index, turn, page_next, page_prev, page_goto, page_jump, pagecycle_enable,
}
use midicrt.RemoteControl.Receiver.{
  note_status, send_sysex, answer, record_action, insert_id, reachable_ids, capabilities_payload,
  goto_page, show_page, sysex_switch_page, blank, sysex_screensaver, sysex_page_cycle,
  sysex_capture_recent, sysex_capabilities, dispatch_sysex_command, obey, announce, handle_parsed,
  handle_sysex,
}
use midicrt.RemoteControl.Roster.{Act, next, sysex, goto, jump, act, acts, current_page_stays}
use midicrt.RemoteControl.Replies.{Answered, versioned_frame-Answered}

abbrev taken : List ℕ → Bool
taken _ = true

abbrev desk : Desk
desk = record {
  pages = "harmony" ∷ "voices" ∷ "notes" ∷ [];
  current_page = "notes";
  last_activity = 0;
  cycling = false;
  status = none;
  sent = [];
  notices = [];
  marks = [];
}

execution : Unit {0}
unfolding get parse_command build_reply set_current_page index turn page_next page_prev page_goto
    page_jump pagecycle_enable note_status send_sysex answer record_action insert_id reachable_ids
    capabilities_payload goto_page show_page sysex_switch_page blank sysex_screensaver
    sysex_page_cycle sysex_capture_recent sysex_capabilities dispatch_sysex_command obey announce
    handle_parsed handle_sysex act acts
execution = tt

abbrev to_voices : MidiEvent
to_voices = exclusive 1000 (frame (64 ∷ 1 ∷ 13 ∷ []))

switched : (handle_sysex taken to_voices desk).current_page ≡ "voices"
unfolding execution
switched = refl

switch_replied : (handle_sysex taken to_voices desk).sent ≡ frame (65 ∷ 1 ∷ 0 ∷ 13 ∷ []) ∷ []
unfolding execution
switch_replied = refl

capable :
    (handle_sysex taken (exclusive 1000 (frame (65 ∷ 16 ∷ []))) desk).sent
    ≡ frame (65 ∷ 16 ∷ 0 ∷ 1 ∷ 0 ∷ 0 ∷ 1 ∷ 1 ∷ 3 ∷ 0 ∷ 1 ∷ 1 ∷ 2 ∷ 1 ∷ 13 ∷ []) ∷ []
unfolding execution
capable = refl

versioned_frame-Answered_example :
    Answered 9 desk (handle_sysex taken (exclusive 1000 (frame (70 ∷ 9 ∷ []))) desk)
versioned_frame-Answered_example =
    versioned_frame-Answered taken (exclusive 1000 (frame (70 ∷ 9 ∷ []))) 70 9 [] desk refl
      (omega arith)

abbrev tour : List (Act taken)
tour = next ∷ goto "tuner" ∷ sysex to_voices ∷ jump (pos 3) ∷ []

current_page_stays_example :
    ((acts taken tour desk).pages ≡ desk.pages)
    × (elem (acts taken tour desk).current_page desk.pages ≡ true)
current_page_stays_example = current_page_stays taken tour desk refl
