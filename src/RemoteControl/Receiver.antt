-- ===== src/RemoteControl/Receiver.antt =====
-- The SysEx handlers of `Engine` (src/midicrt/engine/core.py), from `_handle_sysex` on. `accepted`
-- says whether the MIDI output took a frame: the output's port is not part of the program.
use midicrt.Prelude.{
  ℕ, Bool, true, false, not, ◌&&◌, Option, none, some, String, List, [], ◌∷◌, ◌++◌, if◌then◌else◌,
  leb, eqb, elem, text_test, number_test, length, min, map,
}
use midicrt.Dict.{Dict, get}
use midicrt.Event.{MidiEvent}
use midicrt.RemoteControl.Frames.{
  FrameError, missing_cmd, unsupported_version, Parsed, supported, highest, parse_command,
  build_reply,
}
use midicrt.RemoteControl.Desk.{
  sysex_command, Mark, goto_mark, enable_mark, Detail, no_cmd, bad_version, unknown, missing_page,
  missing_arg, capture_fail, needs_version, caps_sent, caps_local_only, screen_on, screen_off,
  cycle_on, cycle_off, invalid_page, to_page, Desk, page_ids, page_goto, or_same, pagecycle_enable,
}

-- `_SYSEX_PAGE_ID_MAP`
abbrev pub swap : Dict String ℕ → Dict ℕ String
swap [] = []
swap ((name, pid) ∷ rest) = (pid, name) ∷ swap rest

abbrev pub page_of_id : ℕ → Option String
page_of_id pid = get (swap page_ids) pid

-- `SysexStore.record_command_status`
unfoldable pub note_status : Option ℕ → ℕ → Bool → Detail → ℕ → Desk → Desk
note_status version cmd ok detail ts s = record s {
  status = some (record { version = version; cmd = cmd; ok = ok; detail = detail }, ts);
}

unfoldable pub send_sysex : List ℕ → Desk → Desk
send_sysex bytes s = record s { sent = s.sent ++ bytes ∷ [] }

-- The reply that a versioned frame gets and a legacy frame does not.
unfoldable pub answer : Option ℕ → ℕ → ℕ → List ℕ → Desk → Desk
answer none cmd status payload s = s
answer (some version) cmd status payload s = send_sysex (build_reply version cmd status payload) s

unfoldable pub record_action : Mark → Desk → Desk
record_action mark s = record s { marks = s.marks ++ mark ∷ [] }

-- The ids of the pages in the roster, in increasing order.
unfoldable pub insert_id : ℕ → List ℕ → List ℕ
insert_id i [] = i ∷ []
insert_id i (j ∷ rest) = let later = insert_id i rest in if leb i j then i ∷ j ∷ rest else j ∷ later

unfoldable pub reachable_ids : Dict String ℕ → List String → List ℕ
reachable_ids [] pages = []
reachable_ids ((name, pid) ∷ rest) pages =
    let others = reachable_ids rest pages in
    if elem name pages then insert_id pid others else others

unfoldable pub capabilities_payload : ℕ → List String → List ℕ
capabilities_payload version pages =
    let ids = reachable_ids page_ids pages in
    map (min 127) (
      (version ∷ 0 ∷ 0 ∷ length supported ∷ supported)
      ++ (3 ∷ 0 ∷ 1 ∷ 1 ∷ [])
      ++ (length ids ∷ ids))

-- `self._page_goto(name)` where `name` is known to be in the roster.
unfoldable pub goto_page : String → Desk → Desk
goto_page name s = or_same (page_goto name s) s

unfoldable pub show_page : Option ℕ → ℕ → Option String → ℕ → Desk → Desk
show_page version page_id none ts s =
    answer version 1 1 (page_id ∷ []) (note_status version 1 false (invalid_page page_id) ts s)
show_page version page_id (some name) ts s =
    if elem name s.pages
    then answer version 1 0 (page_id ∷ []) (
        note_status version 1 true (to_page name) ts
          (record_action (goto_mark name) (goto_page name s)))
    else answer version 1 1 (page_id ∷ []) (note_status version 1 false (invalid_page page_id) ts s)

unfoldable pub sysex_switch_page : Option ℕ → List ℕ → ℕ → Desk → Desk
sysex_switch_page version [] ts s =
    answer version 1 1 [] (note_status version 1 false missing_page ts s)
sysex_switch_page version (page_id ∷ _) ts s = show_page version page_id (page_of_id page_id) ts s

-- The screen is blanked by showing the page "screensaver", if the roster has it.
unfoldable pub blank : ℕ → Desk → Desk
blank arg s =
    if not (eqb arg 0) && elem "screensaver" s.pages
    then record_action (goto_mark "screensaver") (goto_page "screensaver" s)
    else s

unfoldable pub sysex_screensaver : Option ℕ → List ℕ → ℕ → Desk → Desk
sysex_screensaver version [] ts s =
    answer version 2 1 [] (note_status version 2 false missing_arg ts s)
sysex_screensaver version (arg ∷ _) ts s =
    answer version 2 0 ((if eqb arg 0 then 0 else 1) ∷ [])
      (note_status version 2 true (if eqb arg 0 then screen_on else screen_off) ts (blank arg s))

unfoldable pub sysex_page_cycle : Option ℕ → List ℕ → ℕ → Desk → Desk
sysex_page_cycle version [] ts s =
    answer version 3 1 [] (note_status version 3 false missing_arg ts s)
sysex_page_cycle version (arg ∷ _) ts s =
    let enabled = not (eqb arg 0) in
    answer version 3 0 ((if enabled then 1 else 0) ∷ []) (
      note_status version 3 true (if enabled then cycle_on else cycle_off) ts
        (record_action (enable_mark enabled) (pagecycle_enable enabled s)))

unfoldable pub sysex_capture_recent : Option ℕ → ℕ → Desk → Desk
sysex_capture_recent version ts s =
    answer version 4 1 [] (note_status version 4 false capture_fail ts s)

module _ (accepted : List ℕ → Bool) where
  unfoldable pub sysex_capabilities : Option ℕ → ℕ → Desk → Desk
  sysex_capabilities none ts s = note_status none 16 false needs_version ts s
  sysex_capabilities (some version) ts s =
      let reply = build_reply version 16 0 (capabilities_payload version s.pages) in
      note_status (some version) 16 true (if accepted reply then caps_sent else caps_local_only) ts
        (send_sysex reply s)

  unfoldable pub dispatch_sysex_command : Option ℕ → ℕ → List ℕ → ℕ → Desk → Desk
  dispatch_sysex_command version cmd args ts s =
      if eqb cmd 1
      then sysex_switch_page version args ts s
      else if eqb cmd 2
      then sysex_screensaver version args ts s
      else if eqb cmd 3
      then sysex_page_cycle version args ts s
      else if eqb cmd 4
      then sysex_capture_recent version ts s
      else if eqb cmd 16
      then sysex_capabilities version ts s
      else answer version cmd 1 [] (note_status version cmd false unknown ts s)

  -- What follows once the frame is known to be addressed to the program. Only the first error
  -- comes without a command.
  unfoldable pub obey : Option FrameError → Option ℕ → Option ℕ → List ℕ → ℕ → Desk → Desk
  obey (some missing_cmd) version cmd args ts s = note_status (some 0) 0 false no_cmd ts s
  obey (some unsupported_version) version (some cmd) args ts s =
      send_sysex (build_reply highest cmd 1 supported)
        (note_status version cmd false bad_version ts s)
  obey none version (some cmd) args ts s = dispatch_sysex_command version cmd args ts s
  obey _ version none args ts s = s

  unfoldable pub announce : Parsed → ℕ → Desk → Desk
  announce parsed ts s = record s {
    last_activity = ts;
    notices = s.notices ++ sysex_command parsed.version parsed.cmd parsed.args parsed.error ∷ [];
  }

  unfoldable pub handle_parsed : Option Parsed → ℕ → Desk → Desk
  handle_parsed none ts s = s
  handle_parsed (some parsed) ts s =
      obey parsed.error parsed.version parsed.cmd parsed.args ts (announce parsed ts s)

  unfoldable pub handle_sysex : MidiEvent → Desk → Desk
  handle_sysex ev s = elim ev.sysex_data [
    | none ↦ s
    | some bytes ↦ handle_parsed (parse_command bytes) ev.ts s
  ]
