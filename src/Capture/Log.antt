-- ===== src/Capture/Log.antt =====
-- What a session's file holds.
use mathlib.Core.List.{append-nil, append_assoc}
use midicrt.Prelude.{
  ℕ, ◌+◌, ◌-◌, ◌≡◌, refl, sym, ap, ◌∙◌, subst, Bool, true, false, ◌||◌, not, Option, none, some,
  String, List, [], ◌∷◌, ◌++◌, arith, if◌then◌else◌, if_true, if_false, leb, ltb, ◌==◌, ==_refl,
  ==_iff, text_test, number_test, option_test, Bool-cases, inl, inr,
}
use midicrt.Dict.{get, put, get-put}
use midicrt.Event.{MidiEvent}
use midicrt.Capture.{
  Line, tempo, action, page_changed, ActionArgs, Sink, lines_of, written, write_lines, is_nil,
  flush, maybe_flush, record_line, batch_start, line_of, record_tempo, maybe_record_tempo,
  record_event, record_action, record_page_changed, kind_name, count_of,
}

-- What is recorded so far: the file, and what waits to be written.
abbrev pub content : Sink → List Line
content s = written s.session_id s.files ++ s.buffer

-- What the engine tells the sink while it records: the events, the actions and the pages, and the time.
pub data Note : Type 0 where
  seen : MidiEvent → Note
  did : ℕ → String → ActionArgs → String → Note
  turned : ℕ → String → Note
  passed : ℕ → Note

module _ (bpm : ℕ → ℕ) where
  unfoldable pub note : Note → Sink → Sink
  note (seen ev) s = record_event bpm ev s
  note (did now name args origin) s = record_action now name args origin s
  note (turned now page) s = record_page_changed now page s
  note (passed now) s = (maybe_flush none now s).0

  unfoldable pub note_all : List Note → Sink → Sink
  note_all [] s = s
  note_all (n ∷ ns) s = note_all ns (note n s)

  -- The tempo that a clock event adds, after the last one.
  unfoldable pub tempo_after : Option ℕ → ℕ → Option ℕ → Option ℕ
  tempo_after none ts last = last
  tempo_after (some began) ts last = if leb ts began then last else some (bpm (ts - began))

  unfoldable pub tempo_lines : Option ℕ → ℕ → Option ℕ → List Line
  tempo_lines none ts last = []
  tempo_lines (some began) ts last =
      if leb ts began || last == some (bpm (ts - began))
      then []
      else tempo ts (bpm (ts - began)) ∷ []

  unfoldable pub last_after : Note → Option ℕ → Option ℕ
  last_after (seen ev) last = tempo_after (batch_start ev.kind ev.clock_batch_start) ev.ts last
  last_after _ last = last

  -- The lines of what the sink is told, where `last` is the last tempo.
  unfoldable pub lines_for : Note → Option ℕ → List Line
  lines_for (seen ev) last =
      line_of ev ∷ tempo_lines (batch_start ev.kind ev.clock_batch_start) ev.ts last
  lines_for (did now name args origin) last = action now name args origin ∷ []
  lines_for (turned now page) last = page_changed now page ∷ []
  lines_for (passed now) last = []

  unfoldable pub transcript : List Note → Option ℕ → List Line
  transcript [] last = []
  transcript (n ∷ ns) last = lines_for n last ++ transcript ns (last_after n last)

-- A session is recorded.
pub record Recording (id : String) (s : Sink) : Type 0 where
  pub on : s.recording ≡ true
  pub named : s.session_id ≡ some id
  pub file : s.is_open ≡ true

record_recording :
    (line : Line) (s : Sink)
    → s.recording ≡ true
    → record_line line s ≡ record s { buffer = s.buffer ++ line ∷ [] }
unfolding record_line
record_recording line s on = if_true s.recording (record s { buffer = s.buffer ++ line ∷ [] }) s on

record_line-Recording :
    (id : String) (line : Line) (s : Sink) → Recording id s → Recording id (record_line line s)
record_line-Recording id line s h =
    rw (record_recording line s h.on) (record { on = h.on; named = h.named; file = h.file })

content-record_line :
    (line : Line) (s : Sink)
    → s.recording ≡ true
    → content (record_line line s) ≡ content s ++ line ∷ []
content-record_line line s on =
    rw (record_recording line s on)
      (sym (append_assoc (written s.session_id s.files) s.buffer (line ∷ [])))

-- Writing without a failure moves the lines from the buffer to the file.
content-write :
    (id : String) (s : Sink) → s.session_id ≡ some id → content (write_lines none s).0 ≡ content s
content-write id s named =
    rw (named, get-put, ==_refl {K = String} id)
      (append-nil (lines_of (get s.files id) ++ s.buffer))

-- A step that records nothing and does not fail.
pub record Kept (id : String) (s : Sink) (r : Sink × Bool) : Type 0 where
  pub recording : Recording id r.0
  pub same : content r.0 ≡ content s
  pub tempo : r.0.last_bpm ≡ s.last_bpm
  pub done : r.1 ≡ true

write-Kept : (id : String) (s : Sink) → Recording id s → Kept id s (write_lines none s)
write-Kept id s h = record {
  recording = record { on = h.on; named = h.named; file = h.file };
  same = content-write id s h.named;
  tempo = refl;
  done = refl;
}

pub flush-Kept : (id : String) (s : Sink) → Recording id s → Kept id s (flush none s)
unfolding flush
flush-Kept id s h = elim (Bool-cases (not s.is_open || is_nil s.buffer)) [
  | inl empty ↦
      subst (Kept id s) (sym (if_true _ (s, true) (write_lines none s) empty))
        (record { recording = h; same = refl; tempo = refl; done = refl })
  | inr full ↦
      subst (Kept id s) (sym (if_false _ (s, true) (write_lines none s) full)) (write-Kept id s h)
]

maybe_flush-Kept :
    (id : String) (now : ℕ) (s : Sink) → Recording id s → Kept id s (maybe_flush none now s)
unfolding maybe_flush
maybe_flush-Kept id now s h =
    let k = flush-Kept id s h in
    let s' = (flush none s).0 in
    let ok = (flush none s).1 in
    elim (Bool-cases
      (not s.recording || (not s.is_open || ltb now (s.last_flush_ts + s.flush_interval)))) [
        | inl early ↦
            subst (Kept id s) (sym (if_true _ (s, true) _ early))
              (record { recording = h; same = refl; tempo = refl; done = refl })
        | inr due ↦
            subst (Kept id s)
              (sym (
                if_false _ (s, true) ((if ok then record s' { last_flush_ts = now } else s'), ok)
                  due))
              (subst (λ t. Kept id s (t, ok))
                (sym (if_true ok (record s' { last_flush_ts = now }) s' k.done))
                (record {
                  recording = record {
                    on = k.recording.on;
                    named = k.recording.named;
                    file = k.recording.file;
                  };
                  same = k.same;
                  tempo = k.tempo;
                  done = k.done;
                }))
      ]

-- A step that records some lines, and leaves this tempo.
record Records (id : String) (s s' : Sink) (lines : List Line) (last : Option ℕ) : Type 0 where
  pub recording : Recording id s'
  added : content s' ≡ content s ++ lines
  pub tempo : s'.last_bpm ≡ last

line-Records :
    (id : String) (line : Line) (s : Sink)
    → Recording id s
    → Records id s (record_line line s) (line ∷ []) s.last_bpm
line-Records id line s h = record {
  recording = record_line-Recording id line s h;
  added = content-record_line line s h.on;
  tempo = ap (λ (x : Sink). x.last_bpm) (record_recording line s h.on);
}

module _ (bpm : ℕ → ℕ) where
  -- Whether a clock event adds no tempo.
  abbrev silent : ℕ → ℕ → Option ℕ → Bool
  silent ts began last = leb ts began || last == some (bpm (ts - began))

  record_silent :
      (ts began : ℕ) (s : Sink)
      → silent ts began s.last_bpm ≡ true
      → record_tempo bpm ts began s ≡ s
  unfolding record_tempo
  record_silent ts began s h = if_true (silent ts began s.last_bpm) s _ h

  record_new :
      (ts began : ℕ) (s : Sink)
      → silent ts began s.last_bpm ≡ false
      → record_tempo bpm ts began s
        ≡ record_line
            (tempo ts (bpm (ts - began)))
            (record s { last_bpm = some (bpm (ts - began)) })
  unfolding record_tempo
  record_new ts began s h = if_false (silent ts began s.last_bpm) s _ h

  tempo-Records :
      (id : String) (began : Option ℕ) (ts : ℕ) (s : Sink)
      → Recording id s
      → Records id s
          (maybe_record_tempo bpm began ts s)
          (tempo_lines bpm began ts s.last_bpm)
          (tempo_after bpm began ts s.last_bpm)
  unfolding tempo_lines tempo_after
  tempo-Records id none ts s h = record {
    recording = h;
    added = sym (append-nil (content s));
    tempo = refl;
  }
  tempo-Records id (some began) ts s h =
      let new = bpm (ts - began) in
      let s' = record s { last_bpm = some new } in
      elim (Bool-cases (silent ts began s.last_bpm)) [
        | inl same ↦
            let last : (if leb ts began then s.last_bpm else some new) ≡ s.last_bpm =
              ground (arith, same, ==_iff s.last_bpm (some new)) in
            rw (record_silent ts began s same, same, last)
              (record { recording = h; added = sym (append-nil (content s)); tempo = refl })
        | inr other ↦
            let last : (if leb ts began then s.last_bpm else some new) ≡ some new =
              ground (arith, other) in
            let h' : Recording id s' = record { on = h.on; named = h.named; file = h.file } in
            let r = line-Records id (tempo ts new) s' h' in
            rw (record_new ts began s other, other, last)
              (record { recording = r.recording; added = r.added; tempo = r.tempo })
      ]

  -- What the sink is told becomes its lines.
  note-Records :
      (id : String) (n : Note) (s : Sink)
      → Recording id s
      → Records id s (note bpm n s) (lines_for bpm n s.last_bpm) (last_after bpm n s.last_bpm)
  unfolding note lines_for last_after record_action record_page_changed record_event
  note-Records id (seen ev) s h =
      let r = line-Records id (line_of ev) s h in
      let counted = record (record_line (line_of ev) s) {
        counts = put s.counts (kind_name ev.kind) (count_of (get s.counts (kind_name ev.kind)) + 1);
      } in
      let h' : Recording id counted = record {
        on = r.recording.on;
        named = r.recording.named;
        file = r.recording.file;
      } in
      let t = tempo-Records id (batch_start ev.kind ev.clock_batch_start) ev.ts counted h' in
      let fed = maybe_record_tempo bpm (batch_start ev.kind ev.clock_batch_start) ev.ts counted in
      let began = batch_start ev.kind ev.clock_batch_start in
      let t' : Records id counted fed (tempo_lines bpm began ev.ts s.last_bpm)
          (tempo_after bpm began ev.ts s.last_bpm) =
        subst
          (λ last.
            Records id counted fed (tempo_lines bpm began ev.ts last)
              (tempo_after bpm began ev.ts last))
          r.tempo t in
      let lines = tempo_lines bpm began ev.ts s.last_bpm in
      subst (λ x. Records id s x (line_of ev ∷ lines) (tempo_after bpm began ev.ts s.last_bpm))
        (sym (if_true s.recording fed s h.on))
        (record {
          recording = t'.recording;
          added =
              t'.added
              ∙ ap (λ l. l ++ lines) r.added
              ∙ append_assoc (content s) (line_of ev ∷ []) lines;
          tempo = t'.tempo;
        })
  note-Records id (did now name args origin) s h = line-Records id (action now name args origin) s h
  note-Records id (turned now page) s h = line-Records id (page_changed now page) s h
  note-Records id (passed now) s h =
      let k = maybe_flush-Kept id now s h in
      record {
        recording = k.recording;
        added = k.same ∙ sym (append-nil (content s));
        tempo = k.tempo;
      }

  pub note_all-Records :
      (id : String) (ns : List Note) (s : Sink)
      → Recording id s
      → Recording id (note_all bpm ns s)
        × (content (note_all bpm ns s) ≡ content s ++ transcript bpm ns s.last_bpm)
  unfolding note_all transcript
  note_all-Records id [] s h = (h, sym (append-nil (content s)))
  note_all-Records id (n ∷ ns) s h =
      let r = note-Records id n s h in
      let (recording, added) = note_all-Records id ns (note bpm n s) r.recording in
      let rest = transcript bpm ns (last_after bpm n s.last_bpm) in
      (
        recording,
        added
            ∙ ap (λ last. content (note bpm n s) ++ transcript bpm ns last) r.tempo
            ∙ ap (λ l. l ++ rest) r.added
            ∙ append_assoc (content s) (lines_for bpm n s.last_bpm) rest,
      )
