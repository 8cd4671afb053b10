-- ===== src/Server/Tests.antt =====
-- Concrete runs of the protocol server.
use midicrt.Prelude.{
  ℕ, suc, ◌≡◌, refl, Bool, false, Option, none, some, String, List, [], ◌∷◌, arith, if◌then◌else◌,
  ◌==◌, text_test, number_test,
}
use midicrt.Prelude.Int.{ℤ, pos}
use midicrt.Dict.{get, put, remove, total}
use midicrt.Server.Defs.{
  Snapshot, Conn, Server, init, Command, hello, subscribe, connect, fresh, handle, drop,
  topic_refcount, incref, decref, dedupe, minus, meet, store, send, drop_conn, subscribe_to,
  unsubscribe_from, compare_major, dispatch, greeted_command, first_command, major, before_dot,
  refresh, clamp_rate,
}
use midicrt.Server.Leaks.{dropped_subscription_leaks}
use midicrt.Server.Refcount.{
  Reach, started, connected, handled, dropped, subscribed_to, subscribers, refcount_exact,
}

abbrev parse : String → Option ℤ
parse text = if text == "1" then some (pos 1) else none

abbrev no_snapshot : String → Option Snapshot
no_snapshot _ = none

abbrev never : String → Bool
never _ = false

abbrev step : ℕ → Command → Server → Server
step = handle parse no_snapshot never

abbrev one : Server
one = connect 1 init

abbrev two : Server
two = connect 2 (step 1 (hello "1.0.0") one)

abbrev both : Server
both = step 2 (hello "1.2") two

abbrev ask : List String → Command
ask = subscribe (some (pos 5000))

abbrev first_asked : Server
first_asked = step 1 (ask ("voices" ∷ "tempo" ∷ "voices" ∷ [])) both

abbrev asked : Server
asked = step 2 (ask ("voices" ∷ [])) first_asked

abbrev gone : Server
gone = drop 2 asked

execution : Unit {0}
unfolding get put remove total incref decref dedupe minus meet store send drop_conn subscribe_to
    unsubscribe_from compare_major dispatch greeted_command first_command major before_dot refresh
    clamp_rate connect handle drop topic_refcount subscribed_to subscribers
execution = tt

two_subscribers : (topic_refcount asked "voices" ≡ 2) × (topic_refcount gone "voices" ≡ 1)
unfolding execution
two_subscribers = (refl, refl)

abbrev conn_of : ℕ → Server → Conn
conn_of id s = elim (get s.conns id) [ none ↦ fresh | some c ↦ c ]

reached_two : Reach parse no_snapshot never both
unfolding execution
reached_two = handled 2 (hello "1.2") (conn_of 2 two) refl refl (
    connected 2 refl
      (handled 1 (hello "1.0.0") (conn_of 1 one) refl refl (connected 1 refl started)))

reached : Reach parse no_snapshot never gone
unfolding execution
reached = dropped 2 (
    handled 2 (ask ("voices" ∷ [])) (conn_of 2 first_asked) refl refl
      (handled 1 (ask ("voices" ∷ "tempo" ∷ "voices" ∷ [])) (conn_of 1 both) refl refl reached_two))

refcount_exact_example : topic_refcount gone "voices" ≡ subscribers "voices" gone
refcount_exact_example = refcount_exact parse no_snapshot never gone "voices" reached

dropped_at : get gone.conns 2 ≡ some (conn_of 2 gone)
unfolding execution
dropped_at = refl

dropped_subscription_leaks_example :
    let s' = step 2 (subscribe (some (pos 5000)) ("tempo" ∷ [])) gone in
    (topic_refcount s' "tempo" ≡ suc (subscribers "tempo" s'))
    × (topic_refcount (drop 2 s') "tempo" ≡ suc (subscribers "tempo" (drop 2 s')))
unfolding execution
dropped_subscription_leaks_example =
    dropped_subscription_leaks parse no_snapshot never gone 2 (conn_of 2 gone) 5000 ("tempo" ∷ [])
      "tempo" reached dropped_at refl refl (omega arith) refl refl
