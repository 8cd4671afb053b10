-- ===== src/Server/Push/Order.antt =====
-- The numbers of the snapshots that a client is sent.
use midicrt.Prelude.{
  sort_texts, ℕ, ◌≤◌, ◌<◌, ◌≡◌, refl, ◌⊎◌, Bool, false, ◌&&◌, not, Option, none, some, String, List,
  [], ◌∷◌, ◌++◌, arith, if◌then◌else◌, eqb, ◌==◌, ==_iff, ==_refl, text_test, number_test, elem,
  Bool-cases, Option-cases, inl, inr, subst,
}
use midicrt.Dict.{Dict, get, put, remove, keys, get-put, get-remove}
use midicrt.Server.Defs.{
  Snapshot, Reply, pushed, happened, Conn, Server, count_of, store, send, drop_conn, drop,
}
use midicrt.Server.Push.{
  Hub, deliver, notify, notify_all, push_one, push_topic, push_topics, push_conn, push,
}

-- The number of a message that is a snapshot of the topic.
unfoldable pub shown : String → Reply → Option ℕ
shown t (pushed s) = if s.topic == t then some s.seq else none
shown t _ = none

abbrev pub advance : ℕ → Option ℕ → ℕ
advance n none = n
advance n (some k) = k

abbrev pub Rises : ℕ → Option ℕ → Type 0
Rises n none = Unit
Rises n (some k) = n < k

-- The snapshots of the topic among the messages have numbers above `n` that only rise.
abbrev pub Rising : String → ℕ → List Reply → Type 0
Rising t n [] = Unit
Rising t n (r ∷ rs) = Rises n (shown t r) × Rising t (advance n (shown t r)) rs

-- The number of the last snapshot of the topic.
abbrev pub last_seq : String → ℕ → List Reply → ℕ
last_seq t n [] = n
last_seq t n (r ∷ rs) = last_seq t (advance n (shown t r)) rs

last_seq-append :
    (t : String) (n : ℕ) (rs : List Reply) (r : Reply)
    → last_seq t n (rs ++ r ∷ []) ≡ advance (last_seq t n rs) (shown t r)
last_seq-append t n [] r = refl
last_seq-append t n (x ∷ rs) r = last_seq-append t (advance n (shown t x)) rs r

Rising-append :
    (t : String) (n : ℕ) (rs : List Reply) (r : Reply)
    → Rising t n rs
    → Rises (last_seq t n rs) (shown t r)
    → Rising t n (rs ++ r ∷ [])
Rising-append t n [] r h k = (k, tt)
Rising-append t n (x ∷ rs) r h k = (h.0, Rising-append t (advance n (shown t x)) rs r h.1 k)

abbrev pub seq_of : Dict String ℕ → String → ℕ
seq_of seqs t = count_of (get seqs t)

-- What waits for a topic is newer than all that was sent, and no newer than the engine's count.
abbrev Waits : Dict String ℕ → List Reply → String → Snapshot → Type 0
Waits seqs sent t s = (s.topic ≡ t) × (last_seq t 0 sent < s.seq) × (s.seq ≤ seq_of seqs t)

pub record InOrder (seqs : Dict String ℕ) (sent : List Reply) (latest : Dict String Snapshot)
    : Type 0 where
  pub rising : (t : String) → Rising t 0 sent
  pub behind : (t : String) → last_seq t 0 sent ≤ seq_of seqs t
  pub waiting : (t : String) (s : Snapshot) → get latest t ≡ some s → Waits seqs sent t s

abbrev pub ConnInOrder : Dict String ℕ → Conn → Type 0
ConnInOrder seqs c = InOrder seqs c.sent c.latest

abbrev pub AllInOrder : Dict String ℕ → Dict ℕ Conn → Type 0
AllInOrder seqs [] = Unit
AllInOrder seqs ((id, c) ∷ conns) = ConnInOrder seqs c × AllInOrder seqs conns

pub at-AllInOrder :
    (seqs : Dict String ℕ) (conns : Dict ℕ Conn) (id : ℕ) (c : Conn)
    → AllInOrder seqs conns
    → get conns id ≡ some c
    → ConnInOrder seqs c
unfolding get
at-AllInOrder seqs [] id c all at = absurd (cc at)
at-AllInOrder seqs ((j, d) ∷ conns) id c all at = elim (Bool-cases (eqb j id)) [
  | inl mine ↦
      let same : d ≡ c = ground (arith, at, mine) in subst (λ e. ConnInOrder seqs e) same all.0
  | inr other ↦ at-AllInOrder seqs conns id c all.1 (ground (arith, at, other))
]

pub put-AllInOrder :
    (seqs : Dict String ℕ) (conns : Dict ℕ Conn) (id : ℕ) (c : Conn)
    → ConnInOrder seqs c
    → AllInOrder seqs conns
    → AllInOrder seqs (put conns id c)
unfolding put
put-AllInOrder seqs [] id c h all = (h, tt)
put-AllInOrder seqs ((j, d) ∷ conns) id c h all = elim (Bool-cases (eqb j id)) [
  | inl mine ↦ rw mine (h, all.1)
  | inr other ↦ rw other (all.0, put-AllInOrder seqs conns id c h all.1)
]

pub grown-InOrder :
    (seqs seqs' : Dict String ℕ) (sent : List Reply) (latest : Dict String Snapshot)
    → ((t : String) → seq_of seqs t ≤ seq_of seqs' t)
    → InOrder seqs sent latest
    → InOrder seqs' sent latest
grown-InOrder seqs seqs' sent latest grows h = record {
  rising = h.rising;
  behind = λ t. omega (arith, h.behind t, grows t);
  waiting = λ t s at.
      let (topic, newer, known) = h.waiting t s at in (topic, newer, omega (arith, known, grows t));
}

pub grown-AllInOrder :
    (seqs seqs' : Dict String ℕ) (conns : Dict ℕ Conn)
    → ((t : String) → seq_of seqs t ≤ seq_of seqs' t)
    → AllInOrder seqs conns
    → AllInOrder seqs' conns
grown-AllInOrder seqs seqs' [] grows all = tt
grown-AllInOrder seqs seqs' ((id, c) ∷ conns) grows all = (
  grown-InOrder seqs seqs' c.sent c.latest grows all.0,
  grown-AllInOrder seqs seqs' conns grows all.1,
)

-- A message that is no snapshot.
pub send-InOrder :
    (seqs : Dict String ℕ) (sent : List Reply) (latest : Dict String Snapshot) (r : Reply)
    → ((t : String) → shown t r ≡ none)
    → InOrder seqs sent latest
    → InOrder seqs (sent ++ r ∷ []) latest
send-InOrder seqs sent latest r other h = record {
  rising = λ t. Rising-append t 0 sent r (h.rising t) (rw (other t) tt);
  behind = λ t. rw (last_seq-append, other) (h.behind t);
  waiting = λ t s at.
      let (topic, newer, known) = h.waiting t s at in
      (topic, rw (last_seq-append, other) newer, known);
}

pub store-AllInOrder :
    (seqs : Dict String ℕ) (s : Server) (id : ℕ) (c : Conn)
    → ConnInOrder seqs c
    → AllInOrder seqs s.conns
    → AllInOrder seqs (store id c s).conns
unfolding store
store-AllInOrder seqs s id c h all = put-AllInOrder seqs s.conns id c h all

pub drop-AllInOrder :
    (seqs : Dict String ℕ) (s : Server) (id : ℕ) (c : Conn)
    → ConnInOrder seqs c
    → AllInOrder seqs s.conns
    → AllInOrder seqs (drop_conn id c s).conns
unfolding drop_conn
drop-AllInOrder seqs s id c h all = elim (Bool-cases c.member) [
  | inl held ↦ rw held (put-AllInOrder seqs s.conns id _ h all)
  | inr gone ↦ rw gone (put-AllInOrder seqs s.conns id _ h all)
]

pub drop_any-AllInOrder :
    (seqs : Dict String ℕ) (s : Server) (id : ℕ)
    → AllInOrder seqs s.conns
    → AllInOrder seqs (drop id s).conns
unfolding drop
drop_any-AllInOrder seqs s id all = elim (Option-cases (get s.conns id)) [
  | inl absent ↦ rw (absent, drop) all
  | inr (c, at) ↦ rw (at, drop) (drop-AllInOrder seqs s id c (at-AllInOrder _ _ id c all at) all)
]

shown-pushed :
    (s : Snapshot) (u : String)
    → ((u ≡ s.topic) × (shown u (pushed s) ≡ some s.seq))
      ⊎ (((s.topic == u) ≡ false) × (shown u (pushed s) ≡ none))
unfolding shown
shown-pushed s u = elim (Bool-cases (s.topic == u)) [
  | inl same ↦ inl (ground (arith, same, ==_iff s.topic u), rw same refl)
  | inr other ↦ inr (other, rw other refl)
]

-- What waited for a topic is sent, and no longer waits.
pop-InOrder :
    (seqs : Dict String ℕ) (sent : List Reply) (latest : Dict String Snapshot) (t : String)
    (s : Snapshot)
    → get latest t ≡ some s
    → InOrder seqs sent latest
    → InOrder seqs (sent ++ pushed s ∷ []) (remove latest t)
pop-InOrder seqs sent latest t s there h =
    let (topic, newer, known) = h.waiting t s there in
    record {
      rising = λ u. Rising-append u 0 sent (pushed s) (h.rising u) (elim (shown-pushed s u) [
        | inl (same, e) ↦ rw (e, same, topic) newer
        | inr (other, e) ↦ rw e tt
      ]);
      behind = λ u. elim (shown-pushed s u) [
        | inl (same, e) ↦ rw (last_seq-append, e, same, topic) known
        | inr (other, e) ↦ rw (last_seq-append, e) (h.behind u)
      ];
      waiting = λ u s' at. elim (shown-pushed s u) [
        | inl (same, e) ↦ absurd (ground (arith, at, get-remove latest t u, same, topic, ==_refl t))
        | inr (other, e) ↦
            let (topic', newer', known') =
              h.waiting u s' (ground (arith, at, get-remove latest t u)) in
            (topic', rw (last_seq-append, e) newer', known')
      ];
    }

push_topic-InOrder :
    (seqs : Dict String ℕ) (t : String) (c : Conn)
    → ConnInOrder seqs c
    → ConnInOrder seqs (push_topic t c)
unfolding push_topic push_one send
push_topic-InOrder seqs t c h = elim (Option-cases (get c.latest t)) [
  | inl absent ↦
      rw (absent, push_one)
        (record {
          rising = h.rising;
          behind = h.behind;
          waiting = λ u s at. h.waiting u s (ground (arith, at, get-remove c.latest t u));
        })
  | inr (s, there) ↦ rw (there, push_one) (pop-InOrder seqs c.sent c.latest t s there h)
]

push_topics-InOrder :
    (seqs : Dict String ℕ) (ts : List String) (c : Conn)
    → ConnInOrder seqs c
    → ConnInOrder seqs (push_topics ts c)
unfolding push_topics
push_topics-InOrder seqs [] c h = h
push_topics-InOrder seqs (t ∷ ts) c h =
    push_topics-InOrder seqs ts (push_topic t c) (push_topic-InOrder seqs t c h)

push_conn-InOrder :
    (seqs : Dict String ℕ) (c : Conn) → ConnInOrder seqs c → ConnInOrder seqs (push_conn c)
unfolding push_conn
push_conn-InOrder seqs c h = elim (Bool-cases c.pushing) [
  | inl pushing ↦ simp pushing (push_topics-InOrder seqs (sort_texts (keys c.latest)) c h)
  | inr resting ↦ simp resting h
]

pub push-AllInOrder :
    (id : ℕ) (h : Hub)
    → AllInOrder h.seqs h.server.conns
    → AllInOrder (push id h).seqs (push id h).server.conns
unfolding push
push-AllInOrder id h all = elim (Option-cases (get h.server.conns id)) [
  | inl absent ↦ rw (absent, push) all
  | inr (c, at) ↦
      rw (at, push)
        (put-AllInOrder h.seqs h.server.conns id (push_conn c)
          (push_conn-InOrder h.seqs c (at-AllInOrder _ _ id c all at)) all)
]

notify-InOrder :
    (seqs : Dict String ℕ) (full : Bool) (name : String) (c : Conn)
    → ConnInOrder seqs c
    → ConnInOrder seqs (notify full name c)
unfolding notify send shown
notify-InOrder seqs full name c h = elim (Bool-cases (c.member && (c.greeted && not full))) [
  | inl told ↦ rw told (send-InOrder seqs c.sent c.latest (happened name) (λ t. refl) h)
  | inr untold ↦ rw untold h
]

pub notify-AllInOrder :
    (seqs : Dict String ℕ) (full : ℕ → Bool) (name : String) (conns : Dict ℕ Conn)
    → AllInOrder seqs conns
    → AllInOrder seqs (notify_all full name conns)
unfolding notify_all
notify-AllInOrder seqs full name [] all = tt
notify-AllInOrder seqs full name ((id, c) ∷ conns) all =
    (notify-InOrder seqs (full id) name c all.0, notify-AllInOrder seqs full name conns all.1)

-- A snapshot with the number that the engine has reached takes the place of what waits.
pub put-InOrder :
    (seqs : Dict String ℕ) (sent : List Reply) (latest : Dict String Snapshot) (snap : Snapshot)
    → last_seq snap.topic 0 sent < snap.seq
    → snap.seq ≤ seq_of seqs snap.topic
    → InOrder seqs sent latest
    → InOrder seqs sent (put latest snap.topic snap)
put-InOrder seqs sent latest snap newer known h = record {
  rising = h.rising;
  behind = h.behind;
  waiting = λ t s at. elim (Bool-cases (snap.topic == t)) [
    | inl same ↦
        let topic : snap.topic ≡ t = ground (arith, same, ==_iff snap.topic t) in
        let this : snap ≡ s = ground (arith, at, same, get-put latest snap.topic t snap) in
        subst (λ x. Waits seqs sent t x) this
          (
            topic,
            subst (λ x. last_seq x 0 sent < snap.seq) topic newer,
            subst (λ x. snap.seq ≤ seq_of seqs x) topic known,
          )
    | inr other ↦ h.waiting t s (ground (arith, at, other, get-put latest snap.topic t snap))
  ];
}

pub deliver-InOrder :
    (seqs : Dict String ℕ) (snap : Snapshot) (c : Conn)
    → last_seq snap.topic 0 c.sent < snap.seq
    → snap.seq ≤ seq_of seqs snap.topic
    → ConnInOrder seqs c
    → ConnInOrder seqs (deliver snap c)
unfolding deliver
deliver-InOrder seqs snap c newer known h =
    elim (Bool-cases (c.member && (c.greeted && elem snap.topic c.topics))) [
      | inl wanted ↦ simp wanted (put-InOrder seqs c.sent c.latest snap newer known h)
      | inr unwanted ↦ simp unwanted h
    ]
