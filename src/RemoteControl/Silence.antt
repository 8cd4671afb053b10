-- ===== src/RemoteControl/Silence.antt =====
-- Frames that the remote control does not answer.
use midicrt.Prelude.{
  ℕ, ◌<◌, ◌≡◌, refl, Bool, Bool-cases, Option, none, some, String, List, [], ◌∷◌, arith, eqb, elem,
  text_test, number_test, inl, inr,
}
use midicrt.Event.{MidiEvent}
use midicrt.RemoteControl.Frames.{frame, version_base, parse_command}
use midicrt.RemoteControl.Desk.{Desk, pagecycle_enable}
use midicrt.RemoteControl.Receiver.{
  note_status, answer, record_action, show_page, sysex_switch_page, sysex_screensaver,
  sysex_page_cycle, sysex_capture_recent, sysex_capabilities, dispatch_sysex_command, obey,
  announce, handle_parsed, handle_sysex, page_of_id,
}
use midicrt.RemoteControl.Replies.{either, sent-goto_page, sent-blank}

sent-show :
    (page_id : ℕ) (name : Option String) (ts : ℕ) (s : Desk)
    → (show_page none page_id name ts s).sent ≡ s.sent
unfolding show_page answer note_status record_action
sent-show page_id none ts s = refl
sent-show page_id (some name) ts s = elim (Bool-cases (elem name s.pages)) [
  | inl shown ↦ rw shown (sent-goto_page name s)
  | inr absent ↦ rw absent refl
]

sent-switch : (args : List ℕ) (ts : ℕ) (s : Desk) → (sysex_switch_page none args ts s).sent ≡ s.sent
unfolding sysex_switch_page answer note_status
sent-switch [] ts s = refl
sent-switch (page_id ∷ _) ts s = sent-show page_id (page_of_id page_id) ts s

sent-screensaver :
    (args : List ℕ) (ts : ℕ) (s : Desk) → (sysex_screensaver none args ts s).sent ≡ s.sent
unfolding sysex_screensaver answer note_status
sent-screensaver [] ts s = refl
sent-screensaver (arg ∷ _) ts s = sent-blank arg s

sent-page_cycle :
    (args : List ℕ) (ts : ℕ) (s : Desk) → (sysex_page_cycle none args ts s).sent ≡ s.sent
unfolding sysex_page_cycle answer note_status record_action pagecycle_enable
sent-page_cycle [] ts s = refl
sent-page_cycle (arg ∷ _) ts s = refl

module _ (accepted : List ℕ → Bool) where
  sent-dispatch :
      (cmd : ℕ) (args : List ℕ) (ts : ℕ) (s : Desk)
      → (dispatch_sysex_command accepted none cmd args ts s).sent ≡ s.sent
  unfolding dispatch_sysex_command sysex_capture_recent sysex_capabilities answer note_status
  sent-dispatch cmd args ts s =
      let P = λ (d : Desk). d.sent ≡ s.sent in
      either P (eqb cmd 1) (sysex_switch_page none args ts s) _ (λ _. sent-switch args ts s)
        (either P (eqb cmd 2) (sysex_screensaver none args ts s) _ (λ _. sent-screensaver args ts s)
          (either P (eqb cmd 3) (sysex_page_cycle none args ts s) _ (λ _. sent-page_cycle args ts s)
            (either P (eqb cmd 4) (sysex_capture_recent none ts s) _ (λ _. refl)
              (either P (eqb cmd 16) (sysex_capabilities accepted none ts s) _ (λ _. refl) refl))))

  -- A legacy frame is obeyed without an answer: whatever its command is, no frame is sent.
  pub legacy_frame_unanswered :
      (ev : MidiEvent) (cmd : ℕ) (args : List ℕ) (s : Desk)
      → ev.sysex_data ≡ some (frame (cmd ∷ args))
      → cmd < version_base
      → (handle_sysex accepted ev s).sent ≡ s.sent
  unfolding handle_sysex handle_parsed obey announce
  legacy_frame_unanswered ev cmd args s at_frame legacy =
      let parsed : parse_command (frame (cmd ∷ args))
          ≡ some (record { version = none; cmd = some cmd; args = args; error = none }) =
        unfold parse_command in ground (arith, legacy) in
      rw (at_frame, parsed) (sent-dispatch cmd args ev.ts (announce accepted _ ev.ts s))
