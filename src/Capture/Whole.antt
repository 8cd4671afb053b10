-- ===== src/Capture/Whole.antt =====
-- A whole session, from its start to its end.
use mathlib.Core.List.{append-nil}
use midicrt.Prelude.{
  ℕ, ◌-◌, ◌≡◌, refl, sym, ap, ◌∙◌, Bool, true, false, ◌||◌, not, Option, none, some, String, List,
  [], ◌∷◌, ◌++◌, arith, if◌then◌else◌, if_true, if_false, leb, text_test, number_test, option_test,
  Bool-cases, inl, inr, length,
}
use midicrt.Dict.{Dict, get, remove, get-remove}
use midicrt.Capture.{Row, Line, header, Sink, lines_of, written, write_lines, is_nil, flush}
use midicrt.Capture.Sessions.{
  no_faults, open_session, reset, conclude, ending_row, stop, begin, start, sweep_retention,
  load_index, add_row, sweep_locked, remove_files, load_from, victims, ids_of, unpinned,
}
use midicrt.Capture.Log.{
  content, Note, note_all, transcript, Recording, flush-Kept, note_all-Records,
}

files-load : (o : Option (List Row)) (s : Sink) → (load_from o s).0.files ≡ s.files
files-load none s = refl
files-load (some rows) s = refl

-- The end of a session keeps the files.
files-conclude : (busy : Bool) (row : Option Row) (s : Sink) → (conclude busy row s).files ≡ s.files
unfolding add_row load_index
files-conclude busy none s = refl
files-conclude true (some row) s = refl
files-conclude false (some row) s = files-load s.index s

-- What a sweep leaves as it was, where a session has no file.
record Ready (id : String) (s s' : Sink) : Type 0 where
  empty : s'.buffer ≡ []
  version : s'.engine_version ≡ s.engine_version
  instruments : s'.instruments ≡ s.instruments
  fresh : get s'.files id ≡ none

get-remove_files :
    (ids : List String) (files : Dict String (List Line)) (id : String)
    → get files id ≡ none
    → get (remove_files ids files) id ≡ none
unfolding remove_files
get-remove_files [] files id h = h
get-remove_files (i ∷ ids) files id h =
    get-remove_files ids (remove files i) id (ground (arith, h, get-remove files i id))

load-Ready :
    (id : String) (o : Option (List Row)) (s : Sink)
    → s.buffer ≡ []
    → get s.files id ≡ none
    → Ready id s (load_from o s).0
load-Ready id none s empty fresh = record {
  empty = empty;
  version = refl;
  instruments = refl;
  fresh = fresh;
}
load-Ready id (some rows) s empty fresh = record {
  empty = empty;
  version = refl;
  instruments = refl;
  fresh = fresh;
}

sweep-Ready :
    (id : String) (busy : Bool) (s : Sink)
    → s.buffer ≡ []
    → get s.files id ≡ none
    → Ready id s (sweep_retention busy s)
unfolding sweep_retention sweep_locked load_index
sweep-Ready id true s empty fresh = record {
  empty = empty;
  version = refl;
  instruments = refl;
  fresh = fresh;
}
sweep-Ready id false s empty fresh =
    let s' = (load_from s.index s).0 in
    let rows = (load_from s.index s).1 in
    let loaded = load-Ready id s.index s empty fresh in
    elim (Bool-cases (leb (length (unpinned rows)) (s'.retention - 1))) [
      | inl few ↦ rw few loaded
      | inr many ↦ rw many (record {
        empty = loaded.empty;
        version = loaded.version;
        instruments = loaded.instruments;
        fresh = get-remove_files (ids_of (victims s'.retention rows)) s'.files id loaded.fresh;
      })
    ]

open-Recording : (id : String) (now : ℕ) (s : Sink) → Recording id (open_session id now s)
unfolding open_session
open-Recording id now s = record { on = refl; named = refl; file = refl }

-- The file of a session that begins is its header, written or waiting to be.
begin-Recording :
    (id : String) (now : ℕ) (s : Sink)
    → s.buffer ≡ []
    → get s.files id ≡ none
    → let (s', ok) = begin no_faults id now s in
      Recording id s'
      × (content s' ≡ header id now s.engine_version s.instruments ∷ [])
      × (s'.last_bpm ≡ none)
      × (ok ≡ true)
unfolding begin open_session
begin-Recording id now s empty fresh =
    let swept = sweep_retention false s in
    let ready = sweep-Ready id false s empty fresh in
    let k = flush-Kept id (open_session id now swept) (open-Recording id now swept) in
    (
      k.recording,
      k.same
          ∙ ap
              (λ f.
                lines_of f
                ++ (swept.buffer ++ header id now swept.engine_version swept.instruments ∷ []))
              ready.fresh
          ∙ ap (λ b. b ++ header id now swept.engine_version swept.instruments ∷ []) ready.empty
          ∙ ap (λ v. header id now v swept.instruments ∷ []) ready.version
          ∙ ap (λ i. header id now s.engine_version i ∷ []) ready.instruments,
      k.tempo,
      k.done,
    )

nil_empty : (lines : List Line) → is_nil lines ≡ true → lines ≡ []
nil_empty [] h = refl
nil_empty (line ∷ lines) h = absurd (cc h)

flush_empties : (id : String) (s : Sink) → Recording id s → (flush none s).0.buffer ≡ []
unfolding flush
flush_empties id s h = elim (Bool-cases (not s.is_open || is_nil s.buffer)) [
  | inl empty ↦
      ap (λ (r : Sink × Bool). r.0.buffer) (if_true _ (s, true) (write_lines none s) empty)
      ∙ nil_empty s.buffer (ground (arith, empty, h.file))
  | inr full ↦ ap (λ (r : Sink × Bool). r.0.buffer) (if_false _ (s, true) (write_lines none s) full)
]

-- The end of a session that is recorded leaves its content in its file.
stop_writes :
    (id : String) (busy : Bool) (now : ℕ) (s : Sink)
    → Recording id s
    → let (s', ok) = stop none busy now s in (lines_of (get s'.files id) ≡ content s) × (ok ≡ true)
unfolding stop reset
stop_writes id busy now s h =
    let k = flush-Kept id s h in
    let flushed = (flush none s).0 in
    let ok = (flush none s).1 in
    let ended = conclude busy (ending_row now none flushed) (reset flushed) in
    let ends : stop none busy now s ≡ (ended, true) =
      if_true s.recording (if ok then (ended, true) else (flushed, false)) (s, true) h.on
      ∙ if_true ok (ended, true) (flushed, false) k.done in
    let kept : ended.files ≡ flushed.files =
      files-conclude busy (ending_row now none flushed) (reset flushed) in
    let whole : lines_of (get flushed.files id) ≡ content flushed =
      sym (append-nil (lines_of (get flushed.files id)))
      ∙ ap (λ b. lines_of (get flushed.files id) ++ b) (sym (flush_empties id s h))
      ∙ ap (λ i. written i flushed.files ++ flushed.buffer) (sym k.recording.named) in
    (
      ap (λ (r : Sink × Bool). lines_of (get r.0.files id)) ends
          ∙ ap (λ f. lines_of (get f id)) kept
          ∙ whole
          ∙ k.same,
      ap (λ (r : Sink × Bool). r.1) ends,
    )

-- A session that is started while nothing is recorded, told of events, actions and pages, and stopped,
-- where no write fails, leaves a file of its header and then a line for each, in order, with a line for
-- each new tempo behind the clock event that shows it, however the writing was spread over time.
pub session_file :
    (bpm : ℕ → ℕ) (id : String) (now later : ℕ) (busy : Bool) (ns : List Note) (s : Sink)
    → s.recording ≡ false
    → s.buffer ≡ []
    → get s.files id ≡ none
    → let started = start no_faults id now s in
      let stopped = stop none busy later (note_all bpm ns started.0) in
      (lines_of (get stopped.0.files id)
        ≡ header id now s.engine_version s.instruments ∷ transcript bpm ns none)
      × (started.1 ≡ true)
      × (stopped.1 ≡ true)
unfolding start
session_file bpm id now later busy ns s idle empty fresh =
    let nothing : stop none false now s ≡ (s, true) =
      unfold stop in if_false s.recording _ (s, true) idle in
    let (recording, content0, no_tempo, ok) = begin-Recording id now s empty fresh in
    let begun = begin no_faults id now s in
    let starts : start no_faults id now s ≡ begun =
      ap (λ (r : Sink × Bool). if r.1 then begin no_faults id now r.0 else (r.0, false)) nothing in
    let (recording', told) = note_all-Records bpm id ns begun.0 recording in
    let (file, ended) = stop_writes id busy later (note_all bpm ns begun.0) recording' in
    rw starts (
      file
          ∙ told
          ∙ ap (λ last. content begun.0 ++ transcript bpm ns last) no_tempo
          ∙ ap (λ l. l ++ transcript bpm ns none) content0,
      ok,
      ended,
    )
