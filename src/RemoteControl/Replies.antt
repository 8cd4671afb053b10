-- ===== src/RemoteControl/Replies.antt =====
-- The replies of the remote control.
use midicrt.Prelude.{
  ℕ, ◌+◌, ◌-◌, ◌≤◌, ◌≡◌, refl, ap, Bool-cases, inl, inr, Bool, true, false, Option, none, some,
  String, List, [], ◌∷◌, ◌++◌, arith, eqb, elem, text_test, number_test, if◌then◌else◌,
}
use midicrt.Event.{MidiEvent}
use midicrt.RemoteControl.Frames.{
  frame, version_base, supported, highest, parse_command, parse_versioned, build_reply,
}
use midicrt.RemoteControl.Desk.{
  Desk, Detail, missing_page, missing_arg, capture_fail, unknown, page_goto, pagecycle_enable,
  set_current_page,
}
use midicrt.RemoteControl.Receiver.{
  note_status, send_sysex, answer, record_action, goto_page, show_page, sysex_switch_page, blank,
  sysex_screensaver, sysex_page_cycle, sysex_capture_recent, sysex_capabilities,
  dispatch_sysex_command, obey, announce, handle_parsed, handle_sysex, capabilities_payload,
  page_of_id,
}

-- One more frame was sent: a reply of the supported version to this command.
abbrev pub Answered : ℕ → Desk → Desk → Type 0
Answered cmd s s' =
    (st : ℕ) × (payload : List ℕ) × (s'.sent ≡ s.sent ++ build_reply highest cmd st payload ∷ [])

pub sent-goto_page : (name : String) (s : Desk) → (goto_page name s).sent ≡ s.sent
unfolding goto_page page_goto set_current_page
sent-goto_page name s = ground arith

pub sent-blank : (arg : ℕ) (s : Desk) → (blank arg s).sent ≡ s.sent
unfolding blank record_action
sent-blank arg s = ground (arith, sent-goto_page "screensaver" s)

answered :
    (ok : Bool) (cmd st : ℕ) (payload : List ℕ) (detail : Detail) (ts : ℕ) (s s' : Desk)
    → s'.sent ≡ s.sent
    → Answered cmd s
        (answer (some highest) cmd st payload (note_status (some highest) cmd ok detail ts s'))
unfolding answer note_status send_sysex
answered ok cmd st payload detail ts s s' same =
    (st, payload, ap (λ sent. sent ++ build_reply highest cmd st payload ∷ []) same)

show-Answered :
    (page_id : ℕ) (name : Option String) (ts : ℕ) (s : Desk)
    → Answered 1 s (show_page (some highest) page_id name ts s)
unfolding show_page record_action
show-Answered page_id none ts s = answered _ 1 1 _ _ ts s s refl
show-Answered page_id (some name) ts s = elim (Bool-cases (elem name s.pages)) [
  | inl shown ↦ rw shown (answered _ 1 0 _ _ ts s _ (sent-goto_page name s))
  | inr absent ↦ rw absent (answered _ 1 1 _ _ ts s s refl)
]

switch-Answered :
    (args : List ℕ) (ts : ℕ) (s : Desk) → Answered 1 s (sysex_switch_page (some highest) args ts s)
unfolding sysex_switch_page
switch-Answered [] ts s = answered _ 1 1 [] missing_page ts s s refl
switch-Answered (page_id ∷ _) ts s = show-Answered page_id (page_of_id page_id) ts s

screensaver-Answered :
    (args : List ℕ) (ts : ℕ) (s : Desk) → Answered 2 s (sysex_screensaver (some highest) args ts s)
unfolding sysex_screensaver
screensaver-Answered [] ts s = answered _ 2 1 [] missing_arg ts s s refl
screensaver-Answered (arg ∷ _) ts s = answered _ 2 0 _ _ ts s (blank arg s) (sent-blank arg s)

page_cycle-Answered :
    (args : List ℕ) (ts : ℕ) (s : Desk) → Answered 3 s (sysex_page_cycle (some highest) args ts s)
unfolding sysex_page_cycle record_action pagecycle_enable
page_cycle-Answered [] ts s = answered _ 3 1 [] missing_arg ts s s refl
page_cycle-Answered (arg ∷ _) ts s = answered _ 3 0 _ _ ts s _ refl

capture_recent-Answered :
    (ts : ℕ) (s : Desk) → Answered 4 s (sysex_capture_recent (some highest) ts s)
unfolding sysex_capture_recent
capture_recent-Answered ts s = answered _ 4 1 [] capture_fail ts s s refl

at : (n cmd : ℕ) (s s' : Desk) → eqb cmd n ≡ true → Answered n s s' → Answered cmd s s'
at n cmd s s' e = let same : cmd ≡ n = ground (arith, e) in rw same (λ h. h)

pub either :
    (P : Desk → Type 0) (test : Bool) (x y : Desk)
    → (test ≡ true → P x)
    → P y
    → P (if test then x else y)
either P true x y left right = left refl
either P false x y left right = right

module _ (accepted : List ℕ → Bool) where
  capabilities-Answered :
      (ts : ℕ) (s : Desk) → Answered 16 s (sysex_capabilities accepted (some highest) ts s)
  unfolding sysex_capabilities note_status send_sysex
  capabilities-Answered ts s = (0, capabilities_payload highest s.pages, refl)

  dispatch-Answered :
      (cmd : ℕ) (args : List ℕ) (ts : ℕ) (s : Desk)
      → Answered cmd s (dispatch_sysex_command accepted (some highest) cmd args ts s)
  unfolding dispatch_sysex_command
  dispatch-Answered cmd args ts s =
      let P = Answered cmd s in
      let v : Option ℕ = some highest in
      let switch = sysex_switch_page v args ts s in
      let screensaver = sysex_screensaver v args ts s in
      let page_cycle = sysex_page_cycle v args ts s in
      let capture = sysex_capture_recent v ts s in
      let capabilities = sysex_capabilities accepted v ts s in
      either P (eqb cmd 1) switch _ (λ e. at 1 cmd s switch e (switch-Answered args ts s))
        (either P (eqb cmd 2) screensaver _
          (λ e. at 2 cmd s screensaver e (screensaver-Answered args ts s))
          (either P (eqb cmd 3) page_cycle _
            (λ e. at 3 cmd s page_cycle e (page_cycle-Answered args ts s))
            (either P (eqb cmd 4) capture _
              (λ e. at 4 cmd s capture e (capture_recent-Answered ts s))
              (either P (eqb cmd 16) capabilities _
                (λ e. at 16 cmd s capabilities e (capabilities-Answered ts s))
                (answered _ cmd 1 [] unknown ts s s refl)))))

  versioned-Answered :
      (marker cmd : ℕ) (args : List ℕ) (ts : ℕ) (s : Desk)
      → Answered cmd s (handle_parsed accepted (some (parse_versioned marker (cmd ∷ args))) ts s)
  unfolding handle_parsed obey announce
  versioned-Answered marker cmd args ts s = elim (Bool-cases (eqb marker version_base)) [
    | inl negotiated ↦ rw negotiated (dispatch-Answered cmd args ts (announce accepted _ ts s))
    | inr named ↦ elim (Bool-cases (elem (marker - version_base) supported)) [
      | inl known ↦
          let first : marker - version_base ≡ highest = ground (arith, known) in
          rw (named, known, first) (dispatch-Answered cmd args ts (announce accepted _ ts s))
      | inr other ↦ rw (named, other) (unfold note_status send_sysex in (1, supported, refl))
    ]
  ]

  -- An event with a versioned frame that has a command byte is answered by exactly one frame, of the
  -- supported version and for the same command, whatever the version and the command are.
  pub versioned_frame-Answered :
      (ev : MidiEvent) (marker cmd : ℕ) (args : List ℕ) (s : Desk)
      → ev.sysex_data ≡ some (frame (marker ∷ cmd ∷ args))
      → version_base ≤ marker
      → Answered cmd s (handle_sysex accepted ev s)
  unfolding handle_sysex
  versioned_frame-Answered ev marker cmd args s at_frame versioned =
      let parsed : parse_command (frame (marker ∷ cmd ∷ args))
          ≡ some (parse_versioned marker (cmd ∷ args)) =
        unfold parse_command in ground (arith, versioned) in
      rw (at_frame, parsed) (versioned-Answered marker cmd args ev.ts s)

  -- Any frame that the program sends in reply, if it comes back in, is answered by another one.
  pub reply-Answered :
      (ev : MidiEvent) (version cmd st : ℕ) (payload : List ℕ) (s : Desk)
      → ev.sysex_data ≡ some (build_reply version cmd st payload)
      → Answered cmd s (handle_sysex accepted ev s)
  unfolding build_reply
  reply-Answered ev version cmd st payload s back =
      versioned_frame-Answered ev (version_base + version) cmd (st ∷ payload) s back (omega arith)
