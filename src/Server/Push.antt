-- ===== src/Server/Push.antt =====
-- How views reach clients: `snapshot_now`, `_flush_dirty` and `emit_event` of `Engine`
-- (src/midicrt/engine/core.py), `_on_engine_message` and one round of `_push_loop` of
-- `ProtocolServer` (src/midicrt/engine/server.py). What a view contains is left out of a snapshot.
-- The topics of the registered pages and analyzers, which connection's write buffer is full, Python's
-- `int` and the engine's actions are parameters. The task that drops a slow client is a later drop.
pub mod Order
pub mod Numbers
pub mod Flushed
mod Tests
use midicrt.Prelude.{
  sort_texts, ℕ, ◌+◌, ◌≡◌, Bool, true, false, ◌&&◌, not, Option, none, some, String, List, [], ◌∷◌,
  ◌++◌, if◌then◌else◌, leb, ltb, eqb, text_test, number_test, elem,
}
use midicrt.Prelude.Int.{ℤ, pos}
use midicrt.Dict.{Dict, get, put, remove, keys}
use midicrt.Server.Defs.{
  Snapshot, Reply, pushed, happened, Conn, Server, init, Command, subscribe, count_of,
  topic_refcount, dedupe, minus, send, connect, handle, drop,
}

-- `seqs` is the engine's `_seq`, `dirty` the set of topics whose view has changed.
pub record Hub : Type 0 where
  pub server : Server
  pub seqs : Dict String ℕ
  pub dirty : List String

abbrev pub idle : Hub
idle = record { server = init; seqs = []; dirty = [] }

unfoldable pub mark_dirty : String → Hub → Hub
mark_dirty t h = if elem t h.dirty then h else record h { dirty = h.dirty ++ t ∷ [] }

-- A snapshot message that reaches one connection: it takes the place of an older one.
unfoldable pub deliver : Snapshot → Conn → Conn
deliver snap c =
    if c.member && (c.greeted && elem snap.topic c.topics)
    then record c { latest = put c.latest snap.topic snap }
    else c

unfoldable pub deliver_all : Snapshot → Dict ℕ Conn → Dict ℕ Conn
deliver_all snap [] = []
deliver_all snap ((id, c) ∷ conns) = (id, deliver snap c) ∷ deliver_all snap conns

-- An event that reaches one connection.
unfoldable pub notify : Bool → String → Conn → Conn
notify full name c = if c.member && (c.greeted && not full) then send c (happened name) else c

unfoldable pub notify_all : (ℕ → Bool) → String → Dict ℕ Conn → Dict ℕ Conn
notify_all full name [] = []
notify_all full name ((id, c) ∷ conns) = (id, notify (full id) name c) ∷ notify_all full name conns

unfoldable pub emit_event : (ℕ → Bool) → String → Hub → Hub
emit_event full name h = record h {
  server = record h.server { conns = notify_all full name h.server.conns };
}

unfoldable pub push_one : Option Snapshot → Conn → Conn
push_one none c = c
push_one (some snap) c = send c (pushed snap)

-- `conn.send(conn.latest.pop(topic))`
unfoldable pub push_topic : String → Conn → Conn
push_topic t c = push_one (get c.latest t) (record c { latest = remove c.latest t })

unfoldable pub push_topics : List String → Conn → Conn
push_topics [] c = c
push_topics (t ∷ ts) c = push_topics ts (push_topic t c)

-- A round of the push loop of a connection whose pusher runs.
unfoldable pub push_conn : Conn → Conn
push_conn c = if c.pushing then push_topics (sort_texts (keys c.latest)) c else c

unfoldable pub push : ℕ → Hub → Hub
push id h = elim (get h.server.conns id) [
  | none ↦ h
  | some c ↦ record h { server = record h.server { conns = put h.server.conns id (push_conn c) } }
]

-- The topics that a command takes snapshots of: all that the client is then subscribed to.
unfoldable pub refreshed : Command → Conn → List String
refreshed (subscribe (some (pos rate)) topics) c =
    if c.greeted && not (eqb rate 0) then c.topics ++ minus (dedupe topics) c.topics else []
refreshed _ c = []

module _ (topics : List String) where
  -- The snapshot that `snapshot_now` takes, and the count that it leaves behind.
  unfoldable pub peek : Dict String ℕ → String → Option Snapshot
  peek seqs t =
      if elem t topics then some (record { topic = t; seq = count_of (get seqs t) + 1 }) else none

  unfoldable pub counted : String → Dict String ℕ → Dict String ℕ
  counted t seqs = if elem t topics then put seqs t (count_of (get seqs t) + 1) else seqs

  unfoldable pub broadcast : Option Snapshot → Server → Server
  broadcast none s = s
  broadcast (some snap) s = record s { conns = deliver_all snap s.conns }

  unfoldable pub flush_topic : String → Hub → Hub
  flush_topic t h =
      if leb (topic_refcount h.server t) 0
      then h
      else record h { server = broadcast (peek h.seqs t) h.server; seqs = counted t h.seqs }

  unfoldable pub flush_topics : List String → Hub → Hub
  flush_topics [] h = h
  flush_topics (t ∷ ts) h = flush_topics ts (flush_topic t h)

  unfoldable pub flush_dirty : Hub → Hub
  flush_dirty h = record (flush_topics (sort_texts h.dirty) h) { dirty = [] }

  unfoldable pub counted_all : List String → Dict String ℕ → Dict String ℕ
  counted_all [] seqs = seqs
  counted_all (t ∷ ts) seqs = counted_all ts (counted t seqs)

  module _ (int : String → Option ℤ) (perform : String → Bool) where
    -- A client's topics are a set, so every snapshot of one command counts from where it began.
    unfoldable pub serve : ℕ → Command → Conn → Hub → Hub
    serve id cmd c h = record h {
      server = handle int (peek h.seqs) perform id cmd h.server;
      seqs = counted_all (refreshed cmd c) h.seqs;
    }

    -- How clients, the engine and time may follow each other.
    pub data Reach : Hub → Type 0 where
      started : Reach idle
      connected : {h : Hub} (id : ℕ) → Reach h → Reach (record h { server = connect id h.server })
      served :
          {h : Hub} (id : ℕ) (cmd : Command) (c : Conn)
          → get h.server.conns id ≡ some c
          → Reach h
          → Reach (serve id cmd c h)
      dropped : {h : Hub} (id : ℕ) → Reach h → Reach (record h { server = drop id h.server })
      marked : {h : Hub} (t : String) → Reach h → Reach (mark_dirty t h)
      flushed : {h : Hub} → Reach h → Reach (flush_dirty h)
      announced :
          {h : Hub} (full : ℕ → Bool) (name : String) → Reach h → Reach (emit_event full name h)
      round : {h : Hub} (id : ℕ) → Reach h → Reach (push id h)
