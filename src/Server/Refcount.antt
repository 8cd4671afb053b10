-- ===== src/Server/Refcount.antt =====
-- The reference count of a topic is the number of connections that subscribe to it.
use midicrt.Prelude.{
  ℕ, ◌+◌, ◌≤◌, ◌≡◌, refl, Bool, true, Option, none, some, String, List, arith, if◌then◌else◌, eqb,
  text_test, number_test, elem, Bool-cases, Option-cases, inl, inr,
}
use midicrt.Prelude.Int.{ℤ, pos, negsuc}
use midicrt.Dict.{Dict, get, put, get-nil, get-put, total, total-put, weight-le-total}
use midicrt.Server.Defs.{
  Snapshot, Conn, Server, init, Command, hello, subscribe, unsubscribe, count_of, incref, decref,
  topic_refcount, dedupe, minus, meet, connect, fresh, store, send, drop_conn, subscribe_to,
  unsubscribe_from, compare_major, dispatch, handle, drop, greeted_command, first_command, major,
  or_zero,
}
use midicrt.Server.Topics.{
  Once, times-Once, dedupe-Once, elem-append, elem-minus, elem-meet, minus-Once, meet-Once,
  append-Once, count-incref, count-decref,
}

-- One for an open connection that subscribes to the topic.
unfoldable pub subscribed_to : String → Conn → ℕ
subscribed_to t c = if c.member then (if elem t c.topics then 1 else 0) else 0

unfoldable pub subscribers : String → Server → ℕ
subscribers t s = total (subscribed_to t) s.conns

pub record IsCounted (s : Server) : Type 0 where
  pub exact : (t : String) → topic_refcount s t ≡ subscribers t s
  pub once : (id : ℕ) (c : Conn) → get s.conns id ≡ some c → Once c.topics

init-IsCounted : IsCounted init
init-IsCounted = record {
  exact = λ t. unfold topic_refcount subscribers total in (rw (get-nil {V = ℕ}) refl);
  once = λ id c h. cc (get-nil {V = Conn} id);
}

replace-IsCounted :
    (s : Server) (id : ℕ) (c c' : Conn) (counts : Dict String ℕ)
    → IsCounted s
    → get s.conns id ≡ some c
    → Once c'.topics
    → ((t : String)
        → count_of (get counts t) + subscribed_to t c
          ≡ count_of (get s.refcounts t) + subscribed_to t c')
    → IsCounted (record { conns = put s.conns id c'; refcounts = counts })
unfolding topic_refcount subscribers
replace-IsCounted s id c c' counts h at fits moves = record {
  exact = λ t. ground (arith, h.exact t, moves t, total-put (subscribed_to t) s.conns id c');
  once = λ j d. rw get-put (ground (arith, h.once j d));
}

-- A connection that keeps its place and its topics keeps the counts.
store-IsCounted :
    (s : Server) (id : ℕ) (c c' : Conn)
    → IsCounted s
    → get s.conns id ≡ some c
    → c'.member ≡ c.member
    → c'.topics ≡ c.topics
    → IsCounted (store id c' s)
unfolding store subscribed_to
store-IsCounted s id c c' h at same topics =
    replace-IsCounted s id c c' s.refcounts h at (rw topics (h.once id c at))
      (unfold subscribed_to in λ t. ground arith)

connect-IsCounted :
    (s : Server) (id : ℕ) → get s.conns id ≡ none → IsCounted s → IsCounted (connect id s)
unfolding connect topic_refcount subscribers subscribed_to
connect-IsCounted s id absent h = record {
  exact = λ t. ground (arith, h.exact t, total-put (subscribed_to t) s.conns id fresh);
  once = λ j d. rw get-put (ground (arith, h.once j d));
}

counted_at :
    (s : Server) (id : ℕ) (c : Conn) (t : String)
    → IsCounted s
    → get s.conns id ≡ some c
    → subscribed_to t c ≤ count_of (get s.refcounts t)
unfolding topic_refcount subscribers
counted_at s id c t h at = ground (arith, h.exact t, weight-le-total (subscribed_to t) s.conns id)

drop-IsCounted :
    (s : Server) (id : ℕ) (c c' : Conn)
    → IsCounted s
    → get s.conns id ≡ some c
    → c'.member ≡ c.member
    → c'.topics ≡ c.topics
    → IsCounted (drop_conn id c' s)
unfolding drop_conn
drop-IsCounted s id c c' h at same topics = elim (Bool-cases c'.member) [
  | inl held ↦ rw held (
      replace-IsCounted s id c _ (decref s.refcounts c'.topics) h at (rw topics (h.once id c at))
        λ t.
          unfold subscribed_to in
          ground (
            arith,
            count-decref s.refcounts c'.topics t,
            times-Once t c.topics (h.once id c at),
            counted_at s id c t h at,
          ))
  | inr gone ↦ rw gone (
      replace-IsCounted s id c _ s.refcounts h at (rw topics (h.once id c at))
        λ t. unfold subscribed_to in ground arith)
]

module _ (int : String → Option ℤ) (snapshot : String → Option Snapshot)
    (perform : String → Bool) where
  subscribe-IsCounted :
      (s : Server) (id : ℕ) (c : Conn) (rate : ℕ) (topics : List String)
      → IsCounted s
      → get s.conns id ≡ some c
      → c.member ≡ true
      → IsCounted (subscribe_to int snapshot perform rate topics id c s)
  unfolding subscribe_to send
  subscribe-IsCounted s id c rate topics h at held =
      let fresh_ones = minus (dedupe topics) c.topics in
      let once = minus-Once (dedupe topics) c.topics (dedupe-Once topics) in
      let apart = λ (t : String). elem-minus t (dedupe topics) c.topics in
      replace-IsCounted s id c _ (incref s.refcounts fresh_ones) h at
        (append-Once c.topics fresh_ones (h.once id c at) once (λ t e. ground (arith, apart t)))
        λ t.
          unfold subscribed_to in
          ground (
            arith,
            count-incref s.refcounts fresh_ones t,
            times-Once t fresh_ones once,
            elem-append t c.topics fresh_ones,
            apart t,
          )

  unsubscribe-IsCounted :
      (s : Server) (id : ℕ) (c : Conn) (topics : List String)
      → IsCounted s
      → get s.conns id ≡ some c
      → c.member ≡ true
      → IsCounted (unsubscribe_from int snapshot perform topics id c s)
  unfolding unsubscribe_from send
  unsubscribe-IsCounted s id c topics h at held =
      let removed = meet c.topics topics in
      let mine = h.once id c at in
      replace-IsCounted s id c _ (decref s.refcounts removed) h at (minus-Once c.topics topics mine)
        λ t.
          let bound : subscribed_to t c ≤ count_of (get s.refcounts t) = counted_at s id c t h at in
          unfold subscribed_to in
          ground (
            arith,
            count-decref s.refcounts removed t,
            times-Once t removed (meet-Once c.topics topics mine),
            elem-minus t c.topics topics,
            elem-meet t c.topics topics,
            bound,
          )

  greeted-IsCounted :
      (cmd : Command) (s : Server) (id : ℕ) (c : Conn)
      → IsCounted s
      → get s.conns id ≡ some c
      → c.member ≡ true
      → IsCounted (greeted_command int snapshot perform cmd id c s)
  unfolding greeted_command send
  greeted-IsCounted (subscribe (some (pos rate)) topics) s id c h at held =
      elim (Bool-cases (eqb rate 0)) [
        | inl none_asked ↦ rw none_asked (store-IsCounted s id c _ h at refl refl)
        | inr asked ↦ rw asked (subscribe-IsCounted s id c rate topics h at held)
      ]
  greeted-IsCounted (subscribe (some (negsuc n)) topics) s id c h at held =
      store-IsCounted s id c _ h at refl refl
  greeted-IsCounted (subscribe none topics) s id c h at held =
      store-IsCounted s id c _ h at refl refl
  greeted-IsCounted (unsubscribe topics) s id c h at held =
      unsubscribe-IsCounted s id c topics h at held
  greeted-IsCounted _ s id c h at held = store-IsCounted s id c _ h at refl refl

  compare_major-IsCounted :
      (m : Option ℤ) (s : Server) (id : ℕ) (c : Conn)
      → IsCounted s
      → get s.conns id ≡ some c
      → IsCounted (compare_major int snapshot perform m id c s)
  unfolding compare_major send
  compare_major-IsCounted none s id c h at = drop-IsCounted s id c _ h at refl refl
  compare_major-IsCounted (some (negsuc n)) s id c h at = drop-IsCounted s id c _ h at refl refl
  compare_major-IsCounted (some (pos n)) s id c h at = elim (Bool-cases (eqb n 1)) [
    | inl same ↦ rw same (store-IsCounted s id c _ h at refl refl)
    | inr differs ↦ rw differs (drop-IsCounted s id c _ h at refl refl)
  ]

  first-IsCounted :
      (cmd : Command) (s : Server) (id : ℕ) (c : Conn)
      → IsCounted s
      → get s.conns id ≡ some c
      → IsCounted (first_command int snapshot perform cmd id c s)
  unfolding first_command send
  first-IsCounted (hello version) s id c h at =
      compare_major-IsCounted (major int snapshot perform (or_zero int snapshot perform version)) s
        id c h at
  first-IsCounted _ s id c h at = store-IsCounted s id c _ h at refl refl

  -- A command on an open connection.
  dispatch-IsCounted :
      (cmd : Command) (s : Server) (id : ℕ) (c : Conn)
      → IsCounted s
      → get s.conns id ≡ some c
      → c.member ≡ true
      → IsCounted (dispatch int snapshot perform cmd id c s)
  unfolding dispatch
  dispatch-IsCounted cmd s id c h at held = elim (Bool-cases c.greeted) [
    | inl known ↦ simp known (greeted-IsCounted cmd s id c h at held)
    | inr unknown ↦ simp unknown (first-IsCounted cmd s id c h at)
  ]

  -- The states that clients lead to. A connection gets a new number; a command comes from a
  -- connection that the server still holds; a drop may come at any time.
  pub data Reach : Server → Type 0 where
    started : Reach init
    connected : {s : Server} (id : ℕ) → get s.conns id ≡ none → Reach s → Reach (connect id s)
    handled :
        {s : Server} (id : ℕ) (cmd : Command) (c : Conn)
        → get s.conns id ≡ some c
        → c.member ≡ true
        → Reach s
        → Reach (handle int snapshot perform id cmd s)
    dropped : {s : Server} (id : ℕ) → Reach s → Reach (drop id s)

  drop_any-IsCounted : (s : Server) (id : ℕ) → IsCounted s → IsCounted (drop id s)
  unfolding drop
  drop_any-IsCounted s id h = elim (Option-cases (get s.conns id)) [
    | inl absent ↦ rw (absent, drop) h
    | inr (c, at) ↦ rw (at, drop) (drop-IsCounted s id c c h at refl refl)
  ]

  pub Reach-IsCounted : {s : Server} → Reach s → IsCounted s
  unfolding handle
  Reach-IsCounted started = init-IsCounted
  Reach-IsCounted (connected id absent r) = connect-IsCounted _ id absent (Reach-IsCounted r)
  Reach-IsCounted (handled id cmd c at held r) =
      rw (at, handle) (dispatch-IsCounted cmd _ id c (Reach-IsCounted r) at held)
  Reach-IsCounted (dropped id r) = drop_any-IsCounted _ id (Reach-IsCounted r)

  -- Whatever clients connect, ask and drop, as long as commands come from connections that the server
  -- still holds, the reference count of a topic is the number of those connections that subscribe to it.
  pub refcount_exact : (s : Server) (t : String) → Reach s → topic_refcount s t ≡ subscribers t s
  refcount_exact s t r = (Reach-IsCounted r).exact t
