-- ===== src/Server/Push/Tests.antt =====
-- Concrete pushes: one client that reads the voices.
use midicrt.Prelude.{
  sort_texts, insert_text, text_leb, ℕ, ◌≡◌, ◌<◌, refl, Bool, false, Option, none, some, String,
  List, [], ◌∷◌, if◌then◌else◌, ◌==◌, text_test, number_test,
}
use midicrt.Prelude.Int.{ℤ, pos}
use midicrt.Dict.{get, put, remove}
use midicrt.Server.Defs.{
  Snapshot, greeting, welcome, subscribed, pushed, Conn, Server, init, Command, hello, subscribe,
  connect, fresh, handle, topic_refcount, incref, decref, dedupe, minus, meet, store, send,
  drop_conn, subscribe_to, unsubscribe_from, compare_major, dispatch, greeted_command,
  first_command, major, before_dot, refresh, clamp_rate,
}
use midicrt.Server.Refcount.{IsCounted, Reach-IsCounted}
use midicrt.Server.Refcount.{started as from_nothing, connected as came, handled as asked}
use midicrt.Server.Push.{
  Hub, idle, Reach, started, connected, served, marked, flushed, round, serve, mark_dirty,
  flush_dirty, flush_topics, flush_topic, push, push_conn, push_topics, push_topic, push_one,
  deliver, deliver_all, broadcast, peek, counted, counted_all, refreshed,
}
use midicrt.Server.Push.Order.{Rising, seq_of}
use midicrt.Server.Push.Numbers.{numbers_rise}
use midicrt.Server.Push.Flushed.{waiting_for, flush_reaches}

abbrev parse : String → Option ℤ
parse text = if text == "1" then some (pos 1) else none

abbrev never : String → Bool
never _ = false

abbrev topics : List String
topics = "voices" ∷ "tempo" ∷ []

abbrev voices_only : Command
voices_only = subscribe (some (pos 5000)) ("voices" ∷ [])

abbrev conn_of : ℕ → Server → Conn
conn_of id s = elim (get s.conns id) [ none ↦ fresh | some c ↦ c ]

execution : Unit {0}
unfolding get put remove incref decref dedupe minus meet store send drop_conn subscribe_to
    unsubscribe_from compare_major dispatch greeted_command first_command major before_dot refresh
    clamp_rate connect handle topic_refcount serve mark_dirty flush_dirty flush_topics flush_topic
    push push_conn push_topics push_topic push_one sort_texts insert_text text_leb deliver
    deliver_all broadcast peek counted counted_all refreshed
execution = tt

abbrev come : Hub
come = record idle { server = connect 1 idle.server }

abbrev greeted : Hub
greeted = serve topics parse never 1 (hello "1.0.0") (conn_of 1 come.server) come

abbrev reading : Hub
reading = serve topics parse never 1 voices_only (conn_of 1 greeted.server) greeted

abbrev changed : Hub
changed = mark_dirty "voices" (push 1 reading)

abbrev again : Hub
again = push 1 (flush_dirty topics changed)

reach_greeted : Reach topics parse never greeted
unfolding execution
reach_greeted = served 1 (hello "1.0.0") (conn_of 1 come.server) refl (connected 1 started)

reach_again : Reach topics parse never again
unfolding execution
reach_again = round 1 (
    flushed (
      marked "voices"
        (round 1 (served 1 voices_only (conn_of 1 greeted.server) refl reach_greeted))))

at_again : get again.server.conns 1 ≡ some (conn_of 1 again.server)
unfolding execution
at_again = refl

-- The snapshot of the subscription, then the one of the change.
sent_twice :
    (conn_of 1 again.server).sent
    ≡ greeting
      ∷ welcome
      ∷ subscribed ("voices" ∷ [])
      ∷ pushed (record { topic = "voices"; seq = 1 })
      ∷ pushed (record { topic = "voices"; seq = 2 })
      ∷ []
unfolding execution
sent_twice = refl

numbers_rise_example : Rising "voices" 0 (conn_of 1 again.server).sent
numbers_rise_example =
    numbers_rise topics parse never again 1 (conn_of 1 again.server) "voices" reach_again at_again

abbrev no_snapshot : String → Option Snapshot
no_snapshot _ = none

abbrev step : Command → Server → Server
step = handle parse no_snapshot never 1

abbrev ready : Server
ready = step voices_only (step (hello "1.0.0") (connect 1 init))

ready-IsCounted : IsCounted ready
unfolding execution
ready-IsCounted = Reach-IsCounted parse no_snapshot never (
    asked 1 voices_only (conn_of 1 (step (hello "1.0.0") (connect 1 init))) refl refl
      (asked 1 (hello "1.0.0") (conn_of 1 (connect 1 init)) refl refl (came 1 refl from_nothing)))

abbrev stale : Hub
stale = record { server = ready; seqs = ("voices", 7) ∷ []; dirty = "tempo" ∷ "voices" ∷ [] }

flush_reaches_example :
    let h' = flush_dirty topics stale in
    (waiting_for 1 "voices" h' ≡ some (record { topic = "voices"; seq = seq_of h'.seqs "voices" }))
    × (seq_of stale.seqs "voices" < seq_of h'.seqs "voices")
    × (h'.dirty ≡ [])
unfolding execution
flush_reaches_example =
    flush_reaches topics 1 "voices" stale (conn_of 1 ready) ready-IsCounted refl refl refl refl refl
      refl
