-- ===== src/Server/Push/Numbers.antt =====
-- The numbers of the snapshots that the engine takes, and the order in which a client gets them.
use midicrt.Prelude.{
  sort_texts, ℕ, ◌+◌, ◌≤◌, ◌≡◌, refl, Bool, true, Option, none, some, String, List, [], ◌∷◌, ◌++◌,
  arith, if◌then◌else◌, leb, eqb, ◌==◌, ==_iff, ==_refl, text_test, number_test, elem, Bool-cases,
  inl, inr,
}
use midicrt.Prelude.Int.{ℤ, pos, negsuc}
use midicrt.Dict.{Dict, get, put, get-nil, get-put}
use midicrt.Server.Defs.{
  Snapshot, Reply, Conn, Server, Command, hello, subscribe, unsubscribe, action, topic_refcount,
  dedupe, minus, connect, fresh, send, refresh, subscribe_to, unsubscribe_from, compare_major,
  dispatch, handle, greeted_command, first_command, major, or_zero,
}
use midicrt.Server.Push.{
  Hub, deliver_all, emit_event, refreshed, peek, counted, broadcast, flush_topic, flush_topics,
  flush_dirty, counted_all, serve, mark_dirty, Reach, started, connected, served, dropped, marked,
  flushed, announced, round,
}
use midicrt.Server.Push.Order.{
  shown, Rising, InOrder, ConnInOrder, AllInOrder, seq_of, last_seq, at-AllInOrder, put-AllInOrder,
  grown-InOrder, grown-AllInOrder, send-InOrder, store-AllInOrder, drop-AllInOrder,
  drop_any-AllInOrder, push-AllInOrder, notify-AllInOrder, put-InOrder, deliver-InOrder,
}

module _ (topics : List String) where
  pub seq_of-counted :
      (t u : String) (seqs : Dict String ℕ)
      → seq_of (counted topics t seqs) u ≡ (
          if t == u
          then (if elem t topics then seq_of seqs u + 1 else seq_of seqs u)
          else seq_of seqs u)
  unfolding counted
  seq_of-counted t u seqs = ground (arith, get-put seqs t u (seq_of seqs t + 1), ==_iff t u)

  pub counted_grows :
      (t u : String) (seqs : Dict String ℕ) → seq_of seqs u ≤ seq_of (counted topics t seqs) u
  counted_grows t u seqs = ground (arith, seq_of-counted t u seqs)

  -- The snapshot of a topic reaches every connection with a number that none was sent.
  deliver-AllInOrder :
      (seqs : Dict String ℕ) (t : String) (conns : Dict ℕ Conn)
      → elem t topics ≡ true
      → AllInOrder seqs conns
      → AllInOrder
          (counted topics t seqs)
          (deliver_all (record { topic = t; seq = seq_of seqs t + 1 }) conns)
  unfolding deliver_all
  deliver-AllInOrder seqs t [] known all = tt
  deliver-AllInOrder seqs t ((id, c) ∷ conns) known all =
      let seqs' = counted topics t seqs in
      let reached : seq_of seqs t + 1 ≤ seq_of seqs' t =
        ground (arith, seq_of-counted t t seqs, known, ==_refl t) in
      (
        deliver-InOrder seqs' (record { topic = t; seq = seq_of seqs t + 1 }) c
            (omega (arith, all.0.behind t)) reached
            (grown-InOrder seqs seqs' c.sent c.latest (λ u. counted_grows t u seqs) all.0),
        deliver-AllInOrder seqs t conns known all.1,
      )

  flush_topic-AllInOrder :
      (t : String) (h : Hub)
      → AllInOrder h.seqs h.server.conns
      → let h' = flush_topic topics t h in AllInOrder h'.seqs h'.server.conns
  unfolding flush_topic broadcast peek
  flush_topic-AllInOrder t h all = elim (Bool-cases (leb (topic_refcount h.server t) 0)) [
    | inl unread ↦ simp unread all
    | inr read ↦ elim (Bool-cases (elem t topics)) [
      | inl known ↦ simp (read, known) (deliver-AllInOrder h.seqs t h.server.conns known all)
      | inr unknown ↦
          simp (read, unknown)
            (grown-AllInOrder h.seqs _ h.server.conns (λ u. counted_grows t u h.seqs) all)
    ]
  ]

  flush-AllInOrder :
      (ts : List String) (h : Hub)
      → AllInOrder h.seqs h.server.conns
      → let h' = flush_topics topics ts h in AllInOrder h'.seqs h'.server.conns
  unfolding flush_topics
  flush-AllInOrder [] h all = all
  flush-AllInOrder (t ∷ ts) h all =
      flush-AllInOrder ts (flush_topic topics t h) (flush_topic-AllInOrder t h all)

  counted_all_grows :
      (ts : List String) (u : String) (seqs : Dict String ℕ)
      → seq_of seqs u ≤ seq_of (counted_all topics ts seqs) u
  unfolding counted_all
  counted_all_grows [] u seqs = omega arith
  counted_all_grows (t ∷ ts) u seqs =
      omega (arith, counted_grows t u seqs, counted_all_grows ts u (counted topics t seqs))

  counted_all_counts :
      (ts : List String) (u : String) (seqs : Dict String ℕ)
      → elem u ts ≡ true
      → elem u topics ≡ true
      → seq_of seqs u + 1 ≤ seq_of (counted_all topics ts seqs) u
  unfolding counted_all
  counted_all_counts [] u seqs there known = absurd (cc there)
  counted_all_counts (t ∷ ts) u seqs there known = elim (Bool-cases (t == u)) [
    | inl same ↦ ground (
      arith,
      counted_all_grows ts u (counted topics t seqs),
      seq_of-counted t u seqs,
      same,
      known,
      ==_iff t u,
    )
    | inr other ↦ omega (
      arith,
      counted_grows t u seqs,
      counted_all_counts ts u (counted topics t seqs) (ground (arith, there, other)) known,
    )
  ]

  module _ (int : String → Option ℤ) (perform : String → Bool) where
    -- The snapshots of a subscription, for what was in order before it.
    refresh-InOrder :
        (ts : List String) (seqs seqs' : Dict String ℕ) (sent : List Reply)
        (latest : Dict String Snapshot)
        → ((t : String)
            → elem t ts ≡ true
            → elem t topics ≡ true
            → seq_of seqs t + 1 ≤ seq_of seqs' t)
        → ((t : String) → last_seq t 0 sent ≤ seq_of seqs t)
        → InOrder seqs' sent latest
        → InOrder seqs' sent (refresh int (peek topics seqs) perform ts latest)
    unfolding refresh peek
    refresh-InOrder [] seqs seqs' sent latest reached behind h = h
    refresh-InOrder (t ∷ ts) seqs seqs' sent latest reached behind h =
        let later : (l : Dict String Snapshot)
            → InOrder seqs' sent l
            → InOrder seqs' sent (refresh int (peek topics seqs) perform ts l) =
          λ l k.
            refresh-InOrder ts seqs seqs' sent l
              (λ u there known. reached u (ground (arith, there)) known) behind k in
        elim (Bool-cases (elem t topics)) [
          | inl known ↦
              let snap : Snapshot = record { topic = t; seq = seq_of seqs t + 1 } in
              simp known (
                later (put latest t snap) (
                  put-InOrder seqs' sent latest snap (omega (arith, behind t))
                    (reached t (ground (arith, ==_refl t)) known) h))
          | inr unknown ↦ simp unknown (later latest h)
        ]

    subscribe-AllInOrder :
        (rate : ℕ) (asked : List String) (id : ℕ) (c : Conn) (s : Server) (seqs : Dict String ℕ)
        → AllInOrder seqs s.conns
        → ConnInOrder seqs c
        → AllInOrder
            (counted_all topics (c.topics ++ minus (dedupe asked) c.topics) seqs)
            (subscribe_to int (peek topics seqs) perform rate asked id c s).conns
    unfolding subscribe_to send shown
    subscribe-AllInOrder rate asked id c s seqs all h =
        let ts = c.topics ++ minus (dedupe asked) c.topics in
        let seqs' = counted_all topics ts seqs in
        let grows : (u : String) → seq_of seqs u ≤ seq_of seqs' u =
          λ u. counted_all_grows ts u seqs in
        put-AllInOrder seqs' s.conns id _
          (send-InOrder seqs' c.sent _ _ (λ t. refl)
            (refresh-InOrder ts seqs seqs' c.sent c.latest
              (λ t there known. counted_all_counts ts t seqs there known) h.behind
              (grown-InOrder seqs seqs' c.sent c.latest grows h)))
          (grown-AllInOrder seqs seqs' s.conns grows all)

    greeted-AllInOrder :
        (cmd : Command) (id : ℕ) (c : Conn) (s : Server) (seqs : Dict String ℕ)
        → c.greeted ≡ true
        → AllInOrder seqs s.conns
        → ConnInOrder seqs c
        → AllInOrder
            (counted_all topics (refreshed cmd c) seqs)
            (greeted_command int (peek topics seqs) perform cmd id c s).conns
    unfolding greeted_command unsubscribe_from send shown refreshed counted_all
    greeted-AllInOrder (subscribe (some (pos rate)) asked) id c s seqs known all h =
        elim (Bool-cases (eqb rate 0)) [
          | inl zero_rate ↦
              simp (zero_rate, known)
                (store-AllInOrder seqs s id _ (send-InOrder seqs c.sent c.latest _ (λ t. refl) h)
                  all)
          | inr positive ↦
              simp (positive, known) (subscribe-AllInOrder rate asked id c s seqs all h)
        ]
    greeted-AllInOrder (subscribe (some (negsuc n)) asked) id c s seqs known all h =
        store-AllInOrder seqs s id _ (send-InOrder seqs c.sent c.latest _ (λ t. refl) h) all
    greeted-AllInOrder (subscribe none asked) id c s seqs known all h =
        store-AllInOrder seqs s id _ (send-InOrder seqs c.sent c.latest _ (λ t. refl) h) all
    greeted-AllInOrder (unsubscribe asked) id c s seqs known all h =
        put-AllInOrder seqs s.conns id _ (send-InOrder seqs c.sent c.latest _ (λ t. refl) h) all
    greeted-AllInOrder (action name) id c s seqs known all h =
        store-AllInOrder seqs s id _
          (send-InOrder seqs c.sent c.latest _
            (λ t. elim (Bool-cases (perform name)) [
              | inl done ↦ rw done refl
              | inr failed ↦ rw failed refl
            ])
            h)
          all
    greeted-AllInOrder _ id c s seqs known all h =
        store-AllInOrder seqs s id _ (send-InOrder seqs c.sent c.latest _ (λ t. refl) h) all

    compare_major-AllInOrder :
        (m : Option ℤ) (id : ℕ) (c : Conn) (s : Server) (seqs : Dict String ℕ)
        → AllInOrder seqs s.conns
        → ConnInOrder seqs c
        → AllInOrder seqs (compare_major int (peek topics seqs) perform m id c s).conns
    unfolding compare_major send shown
    compare_major-AllInOrder none id c s seqs all h =
        drop-AllInOrder seqs s id _ (send-InOrder seqs c.sent c.latest _ (λ t. refl) h) all
    compare_major-AllInOrder (some (negsuc n)) id c s seqs all h =
        drop-AllInOrder seqs s id _ (send-InOrder seqs c.sent c.latest _ (λ t. refl) h) all
    compare_major-AllInOrder (some (pos n)) id c s seqs all h = elim (Bool-cases (eqb n 1)) [
      | inl same ↦
          rw same
            (store-AllInOrder seqs s id _ (send-InOrder seqs c.sent c.latest _ (λ t. refl) h) all)
      | inr differs ↦
          rw differs
            (drop-AllInOrder seqs s id _ (send-InOrder seqs c.sent c.latest _ (λ t. refl) h) all)
    ]

    first-AllInOrder :
        (cmd : Command) (id : ℕ) (c : Conn) (s : Server) (seqs : Dict String ℕ)
        → AllInOrder seqs s.conns
        → ConnInOrder seqs c
        → AllInOrder seqs (first_command int (peek topics seqs) perform cmd id c s).conns
    unfolding first_command send shown
    first-AllInOrder (hello version) id c s seqs all h =
        compare_major-AllInOrder
          (major int (peek topics seqs) perform (or_zero int (peek topics seqs) perform version)) id
          c s seqs all h
    first-AllInOrder _ id c s seqs all h =
        store-AllInOrder seqs s id _ (send-InOrder seqs c.sent c.latest _ (λ t. refl) h) all

    serve-AllInOrder :
        (id : ℕ) (cmd : Command) (c : Conn) (h : Hub)
        → get h.server.conns id ≡ some c
        → AllInOrder h.seqs h.server.conns
        → let h' = serve topics int perform id cmd c h in AllInOrder h'.seqs h'.server.conns
    unfolding serve handle dispatch
    serve-AllInOrder id cmd c h at all =
        let mine = at-AllInOrder h.seqs h.server.conns id c all at in
        rw (at, handle)
          (elim (Bool-cases c.greeted) [
            | inl known ↦ simp known (greeted-AllInOrder cmd id c h.server h.seqs known all mine)
            | inr unknown ↦ simp unknown (
                grown-AllInOrder h.seqs _ _ (λ u. counted_all_grows (refreshed cmd c) u h.seqs)
                  (first-AllInOrder cmd id c h.server h.seqs all mine))
          ])

    Reach-AllInOrder : {h : Hub} → Reach topics int perform h → AllInOrder h.seqs h.server.conns
    unfolding connect mark_dirty flush_dirty emit_event shown
    Reach-AllInOrder started = tt
    Reach-AllInOrder (connected {h = h} id r) =
        put-AllInOrder h.seqs h.server.conns id fresh
          (record {
            rising = λ t. (tt, tt);
            behind = λ t. omega arith;
            waiting = λ t s at. absurd (cc (at, get-nil {V = Snapshot} t));
          })
          (Reach-AllInOrder r)
    Reach-AllInOrder (served {h = h} id cmd c at r) =
        serve-AllInOrder id cmd c h at (Reach-AllInOrder r)
    Reach-AllInOrder (dropped {h = h} id r) =
        drop_any-AllInOrder h.seqs h.server id (Reach-AllInOrder r)
    Reach-AllInOrder (marked {h = h} t r) = elim (Bool-cases (elem t h.dirty)) [
      | inl there ↦ rw there (Reach-AllInOrder r)
      | inr new ↦ rw new (Reach-AllInOrder r)
    ]
    Reach-AllInOrder (flushed {h = h} r) =
        flush-AllInOrder (sort_texts h.dirty) h (Reach-AllInOrder r)
    Reach-AllInOrder (announced {h = h} full name r) =
        notify-AllInOrder h.seqs full name h.server.conns (Reach-AllInOrder r)
    Reach-AllInOrder (round {h = h} id r) = push-AllInOrder id h (Reach-AllInOrder r)

    -- However clients, the engine and time follow each other, the snapshots of a topic that a client is
    -- sent have numbers that only rise: no view is ever followed by an older one.
    pub numbers_rise :
        (h : Hub) (id : ℕ) (c : Conn) (t : String)
        → Reach topics int perform h
        → get h.server.conns id ≡ some c
        → Rising t 0 c.sent
    numbers_rise h id c t r at =
        (at-AllInOrder h.seqs h.server.conns id c (Reach-AllInOrder r) at).rising t
