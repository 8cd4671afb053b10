-- ===== src/Server/Leaks.antt =====
-- A command that arrives after its connection was dropped.
use midicrt.Prelude.{
  ℕ, suc, ◌<◌, ◌≡◌, Bool, true, false, Option, some, String, List, [], ◌∷◌, ◌++◌, arith, ==_refl,
  text_test, number_test, elem,
}
use midicrt.Prelude.Int.{ℤ, pos}
use midicrt.Dict.{get, put, get-put, total, total-put}
use midicrt.Server.Defs.{
  Snapshot, Conn, Server, subscribe, count_of, topic_refcount, dedupe, minus, send, drop_conn,
  subscribe_to, dispatch, handle, drop, greeted_command, clamp_rate, refresh, subscribed,
}
use midicrt.Server.Topics.{
  times-Once, elem-dedupe, dedupe-Once, elem-minus, minus-Once, count-incref,
}
use midicrt.Server.Refcount.{subscribed_to, subscribers, Reach, Reach-IsCounted}

module _ (int : String → Option ℤ) (snapshot : String → Option Snapshot)
    (perform : String → Bool) where
  leak_counts :
      (s : Server) (id : ℕ) (c : Conn) (rate : ℕ) (topics : List String) (t : String)
      → Reach int snapshot perform s
      → get s.conns id ≡ some c
      → c.member ≡ false
      → elem t topics ≡ true
      → elem t c.topics ≡ false
      → let s' = subscribe_to int snapshot perform rate topics id c s in
        (topic_refcount s' t ≡ suc (subscribers t s'))
        × (topic_refcount (drop id s') t ≡ suc (subscribers t (drop id s')))
  unfolding subscribe_to send topic_refcount subscribers drop drop_conn
  leak_counts s id c rate topics t r at gone asked new =
      let fresh_ones = minus (dedupe topics) c.topics in
      let exact : count_of (get s.refcounts t) ≡ total (subscribed_to t) s.conns =
        (Reach-IsCounted int snapshot perform r).exact t in
      let all_topics = c.topics ++ fresh_ones in
      let c' : Conn = record c {
        max_rate = clamp_rate rate;
        topics = all_topics;
        latest = refresh int snapshot perform all_topics c.latest;
        sent = c.sent ++ subscribed all_topics ∷ [];
      } in
      unfold subscribed_to in
      grind (
        arith,
        exact,
        count-incref s.refcounts fresh_ones t,
        times-Once t fresh_ones (minus-Once (dedupe topics) c.topics (dedupe-Once topics)),
        elem-minus t (dedupe topics) c.topics,
        elem-dedupe t topics,
        total-put (subscribed_to t) s.conns id c',
        total-put (subscribed_to t) (put s.conns id c') id (record c' { pushing = false }),
        get-put s.conns id id c',
        ==_refl id,
      )

  -- A subscription on a connection that the server has already dropped is still counted: from counts
  -- that were exact, each topic that is new to the connection ends up one above the number of open
  -- subscribers, and dropping that connection again does not take it back.
  pub dropped_subscription_leaks :
      (s : Server) (id : ℕ) (c : Conn) (rate : ℕ) (topics : List String) (t : String)
      → Reach int snapshot perform s
      → get s.conns id ≡ some c
      → c.member ≡ false
      → c.greeted ≡ true
      → 0 < rate
      → elem t topics ≡ true
      → elem t c.topics ≡ false
      → let s' = handle int snapshot perform id (subscribe (some (pos rate)) topics) s in
        (topic_refcount s' t ≡ suc (subscribers t s'))
        × (topic_refcount (drop id s') t ≡ suc (subscribers t (drop id s')))
  unfolding handle dispatch greeted_command topic_refcount subscribers drop drop_conn subscribed_to
  dropped_subscription_leaks s id c rate topics t r at gone greeted pos_rate asked new =
      let s' = subscribe_to int snapshot perform rate topics id c s in
      ground (arith, leak_counts s id c rate topics t r at gone asked new)
