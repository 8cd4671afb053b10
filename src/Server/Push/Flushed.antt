-- ===== src/Server/Push/Flushed.antt =====
-- That a flush of the dirty topics leaves no subscriber behind.
use midicrt.Prelude.{
  sort_texts, insert_text, ℕ, ◌+◌, ◌≤◌, ◌<◌, ◌≡◌, refl, sym, ap, ◌∙◌, true, false, ◌&&◌, Option,
  none, some, String, List, [], ◌∷◌, arith, leb, eqb, ◌==◌, ==_iff, ==_refl, text_test, number_test,
  elem, Bool-cases, inl, inr, subst,
}
use midicrt.Dict.{Dict, get, get-put, weight-le-total}
use midicrt.Server.Defs.{Snapshot, Conn, topic_refcount}
use midicrt.Server.Refcount.{IsCounted, subscribed_to, subscribers}
use midicrt.Server.Push.{
  Hub, deliver, deliver_all, peek, counted, broadcast, flush_topic, flush_topics, flush_dirty,
}
use midicrt.Server.Push.Order.{seq_of}
use midicrt.Server.Push.Numbers.{seq_of-counted, counted_grows}

-- What waits to be pushed to a client for a topic.
unfoldable pub waiting_for : ℕ → String → Hub → Option Snapshot
waiting_for id t h = elim (get h.server.conns id) [ none ↦ none | some c ↦ get c.latest t ]

-- A client that reads a topic, which the server has counted.
record Listens (id : ℕ) (t : String) (h : Hub) : Type 0 where
  conn : Conn
  at : get h.server.conns id ≡ some conn
  held : conn.member ≡ true
  greeted : conn.greeted ≡ true
  asked : elem t conn.topics ≡ true
  read : leb (topic_refcount h.server t) 0 ≡ false

elem-insert_text : (t u : String) (us : List String) → elem t (insert_text u us) ≡ elem t (u ∷ us)
unfolding insert_text
elem-insert_text t u [] = refl
elem-insert_text t u (x ∷ us) = ground (arith, elem-insert_text t u us)

elem-sort_texts : (t : String) (ts : List String) → elem t (sort_texts ts) ≡ elem t ts
unfolding sort_texts
elem-sort_texts t [] = refl
elem-sort_texts t (u ∷ us) =
    ground (arith, elem-sort_texts t us, elem-insert_text t u (sort_texts us))

get-deliver_all :
    (snap : Snapshot) (conns : Dict ℕ Conn) (id : ℕ) (c : Conn)
    → get conns id ≡ some c
    → get (deliver_all snap conns) id ≡ some (deliver snap c)
unfolding get deliver_all
get-deliver_all snap [] id c at = absurd (cc at)
get-deliver_all snap ((j, d) ∷ conns) id c at = elim (Bool-cases (eqb j id)) [
  | inl mine ↦ let same : d ≡ c = ground (arith, at, mine) in rw (mine, same) refl
  | inr other ↦ rw other (get-deliver_all snap conns id c (ground (arith, at, other)))
]

module _ (topics : List String) (id : ℕ) (t : String) where
  abbrev LatestWaits : Hub → Type 0
  LatestWaits h = waiting_for id t h ≡ some (record { topic = t; seq = seq_of h.seqs t })

  deliver-Listens :
      (snap : Snapshot) (seqs : Dict String ℕ) (h : Hub)
      → Listens id t h
      → Listens id t (record h { server = broadcast topics (some snap) h.server; seqs = seqs })
  unfolding broadcast deliver topic_refcount
  deliver-Listens snap seqs h l =
      let c = l.conn in
      elim (Bool-cases (c.member && (c.greeted && elem snap.topic c.topics))) [
        | inl wanted ↦ record {
          conn = deliver snap c;
          at = get-deliver_all snap h.server.conns id c l.at;
          held = simp wanted l.held;
          greeted = simp wanted l.greeted;
          asked = simp wanted l.asked;
          read = l.read;
        }
        | inr unwanted ↦ record {
          conn = deliver snap c;
          at = get-deliver_all snap h.server.conns id c l.at;
          held = simp unwanted l.held;
          greeted = simp unwanted l.greeted;
          asked = simp unwanted l.asked;
          read = l.read;
        }
      ]

  flush_topic-Listens :
      (u : String) (h : Hub) → Listens id t h → Listens id t (flush_topic topics u h)
  unfolding flush_topic peek broadcast
  flush_topic-Listens u h l = elim (Bool-cases (leb (topic_refcount h.server u) 0)) [
    | inl unread ↦ simp unread l
    | inr read ↦ elim (Bool-cases (elem u topics)) [
      | inl known ↦ simp (read, known) (deliver-Listens _ _ h l)
      | inr unknown ↦
          simp (read, unknown)
            (record {
              conn = l.conn;
              at = l.at;
              held = l.held;
              greeted = l.greeted;
              asked = l.asked;
              read = l.read;
            })
    ]
  ]

  -- The hub when a known topic was broadcast.
  abbrev told : String → Hub → Hub
  told u h = record h {
    server = record h.server {
      conns = deliver_all (record { topic = u; seq = seq_of h.seqs u + 1 }) h.server.conns;
    };
    seqs = counted topics u h.seqs;
  }

  flush_known :
      (u : String) (h : Hub)
      → leb (topic_refcount h.server u) 0 ≡ false
      → elem u topics ≡ true
      → flush_topic topics u h ≡ told u h
  unfolding flush_topic peek broadcast
  flush_known u h read known = simp (read, known) refl

  waiting-at :
      (h : Hub) (c : Conn) → get h.server.conns id ≡ some c → waiting_for id t h ≡ get c.latest t
  unfolding waiting_for
  waiting-at h c at = rw (at, waiting_for) refl

  waiting-told :
      (u : String) (h : Hub) (c : Conn)
      → get h.server.conns id ≡ some c
      → waiting_for id t (told u h)
        ≡ get (deliver (record { topic = u; seq = seq_of h.seqs u + 1 }) c).latest t
  unfolding waiting_for
  waiting-told u h c at =
      let there =
        get-deliver_all (record { topic = u; seq = seq_of h.seqs u + 1 }) h.server.conns id c at in
      rw (there, waiting_for) refl

  -- The flush of the topic itself.
  flush_topic-LatestWaits :
      (h : Hub) → Listens id t h → elem t topics ≡ true → LatestWaits (flush_topic topics t h)
  flush_topic-LatestWaits h l known =
      let c = l.conn in
      let n = seq_of h.seqs t + 1 in
      let snap : Snapshot = record { topic = t; seq = n } in
      let wanted : (c.member && (c.greeted && elem t c.topics)) ≡ true =
        ground (arith, l.held, l.greeted, l.asked) in
      let newest : get (deliver snap c).latest t ≡ some snap =
        unfold deliver in ground (arith, wanted, get-put c.latest t t snap, ==_refl t) in
      let reached : seq_of (counted topics t h.seqs) t ≡ n =
        ground (arith, seq_of-counted topics t t h.seqs, ==_refl t, known) in
      rw (flush_known t h l.read known) (
        waiting-told t h c l.at
        ∙ newest
        ∙ ap (λ m. some (record { topic = t; seq = m })) (sym reached))

  -- The flush of another topic.
  flush_other-LatestWaits :
      (u : String) (h : Hub)
      → Listens id t h
      → (u == t) ≡ false
      → LatestWaits h
      → LatestWaits (flush_topic topics u h)
  flush_other-LatestWaits u h l other w = elim (Bool-cases (leb (topic_refcount h.server u) 0)) [
    | inl unread ↦ unfold flush_topic in simp unread w
    | inr read ↦
        let same : seq_of (counted topics u h.seqs) t ≡ seq_of h.seqs t =
          ground (arith, seq_of-counted topics u t h.seqs, other) in
        let held : get l.conn.latest t ≡ some (record { topic = t; seq = seq_of h.seqs t }) =
          sym (waiting-at h l.conn l.at) ∙ w in
        elim (Bool-cases (elem u topics)) [
          | inl known ↦
              let snap : Snapshot = record { topic = u; seq = seq_of h.seqs u + 1 } in
              let kept : get (deliver snap l.conn).latest t ≡ get l.conn.latest t =
                unfold deliver in ground (arith, other, get-put l.conn.latest u t snap) in
              rw (flush_known u h read known) (
                waiting-told u h l.conn l.at
                ∙ kept
                ∙ held
                ∙ ap (λ m. some (record { topic = t; seq = m })) (sym same))
          | inr unknown ↦
              unfold flush_topic peek broadcast waiting_for in simp (read, unknown, same) w
        ]
  ]

  flush_same-LatestWaits :
      (u : String) (h : Hub)
      → Listens id t h
      → elem t topics ≡ true
      → (u == t) ≡ true
      → LatestWaits (flush_topic topics u h)
  flush_same-LatestWaits u h l known same =
      let topic : t ≡ u = ground (arith, same, ==_iff u t) in
      subst (λ v. LatestWaits (flush_topic topics v h)) topic (flush_topic-LatestWaits h l known)

  flush_more-LatestWaits :
      (us : List String) (h : Hub)
      → Listens id t h
      → elem t topics ≡ true
      → LatestWaits h
      → LatestWaits (flush_topics topics us h)
  unfolding flush_topics
  flush_more-LatestWaits [] h l known w = w
  flush_more-LatestWaits (u ∷ us) h l known w =
      flush_more-LatestWaits us (flush_topic topics u h) (flush_topic-Listens u h l) known
        (elim (Bool-cases (u == t)) [
          | inl same ↦ flush_same-LatestWaits u h l known same
          | inr other ↦ flush_other-LatestWaits u h l other w
        ])

  flush_topics-LatestWaits :
      (us : List String) (h : Hub)
      → Listens id t h
      → elem t topics ≡ true
      → elem t us ≡ true
      → LatestWaits (flush_topics topics us h)
  unfolding flush_topics
  flush_topics-LatestWaits [] h l known there = absurd (cc there)
  flush_topics-LatestWaits (u ∷ us) h l known there = elim (Bool-cases (u == t)) [
    | inl same ↦
        flush_more-LatestWaits us (flush_topic topics u h) (flush_topic-Listens u h l) known
          (flush_same-LatestWaits u h l known same)
    | inr other ↦
        flush_topics-LatestWaits us (flush_topic topics u h) (flush_topic-Listens u h l) known
          (ground (arith, there, other))
  ]

  seq_of-flush_topic :
      (u : String) (h : Hub) → seq_of h.seqs t ≤ seq_of (flush_topic topics u h).seqs t
  unfolding flush_topic
  seq_of-flush_topic u h = ground (arith, counted_grows topics u t h.seqs)

  seq_of-flush_topics :
      (us : List String) (h : Hub) → seq_of h.seqs t ≤ seq_of (flush_topics topics us h).seqs t
  unfolding flush_topics
  seq_of-flush_topics [] h = omega arith
  seq_of-flush_topics (u ∷ us) h =
      omega (arith, seq_of-flush_topic u h, seq_of-flush_topics us (flush_topic topics u h))

  seq_rises :
      (us : List String) (h : Hub)
      → Listens id t h
      → elem t topics ≡ true
      → elem t us ≡ true
      → seq_of h.seqs t < seq_of (flush_topics topics us h).seqs t
  unfolding flush_topics
  seq_rises [] h l known there = absurd (cc there)
  seq_rises (u ∷ us) h l known there = elim (Bool-cases (u == t)) [
    | inl same ↦
        let topic : t ≡ u = ground (arith, same, ==_iff u t) in
        let now : seq_of (flush_topic topics t h).seqs t ≡ seq_of h.seqs t + 1 =
          rw (flush_known t h l.read known)
            (ground (arith, seq_of-counted topics t t h.seqs, ==_refl t, known)) in
        let now' : seq_of (flush_topic topics u h).seqs t ≡ seq_of h.seqs t + 1 =
          subst (λ v. seq_of (flush_topic topics v h).seqs t ≡ seq_of h.seqs t + 1) topic now in
        omega (arith, now', seq_of-flush_topics us (flush_topic topics u h))
    | inr other ↦ omega (
      arith,
      seq_of-flush_topic u h,
      seq_rises us (flush_topic topics u h) (flush_topic-Listens u h l) known
          (ground (arith, there, other)),
    )
  ]

  -- A flush of the dirty topics takes a new snapshot of each that an open, greeted client reads, and this
  -- snapshot, the engine's last of the topic, is what waits to be pushed to the client; no topic stays
  -- dirty. The counts of subscribers must be exact, and the topic a page's or an analyzer's.
  pub flush_reaches :
      (h : Hub) (c : Conn)
      → IsCounted h.server
      → get h.server.conns id ≡ some c
      → c.member ≡ true
      → c.greeted ≡ true
      → elem t c.topics ≡ true
      → elem t h.dirty ≡ true
      → elem t topics ≡ true
      → let h' = flush_dirty topics h in
        (waiting_for id t h' ≡ some (record { topic = t; seq = seq_of h'.seqs t }))
        × (seq_of h.seqs t < seq_of h'.seqs t)
        × (h'.dirty ≡ [])
  flush_reaches h c counted_ok at held greeted asked dirty known =
      let some_read : 0 < topic_refcount h.server t = rw (counted_ok.exact t) (
        unfold subscribers subscribed_to in
        ground (arith, weight-le-total (subscribed_to t) h.server.conns id, at, held, asked)) in
      let l : Listens id t h = record {
        conn = c;
        at = at;
        held = held;
        greeted = greeted;
        asked = asked;
        read = ground (arith, some_read);
      } in
      let there : elem t (sort_texts h.dirty) ≡ true = elem-sort_texts t h.dirty ∙ dirty in
      unfold flush_dirty waiting_for in
      (
        flush_topics-LatestWaits (sort_texts h.dirty) h l known there,
        seq_rises (sort_texts h.dirty) h l known there,
        refl,
      )
