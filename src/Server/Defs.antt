-- ===== src/Server/Defs.antt =====
-- The connections of `ProtocolServer`, their subscriptions, and the handler of one command.
-- A connection object is known by a number. `member` says whether it is in the server's `_conns`: a
-- dropped object is still handed the rest of the messages that came in with it. A set of topics is a
-- list without duplicates. What was written to a connection is `sent`, oldest first.
-- The engine's part is a parameter: `snapshot` gives a topic's snapshot and `perform` the reply of an
-- action, since both are computed by other parts. `int` is Python's conversion of a text.
use Prim.Native.Char.{code}
use midicrt.Prelude.{
  ℕ, ◌+◌, ◌-◌, Bool, true, false, not, Option, none, some, String, List, [], ◌∷◌, ◌++◌,
  if◌then◌else◌, leb, eqb, ◌==◌, text_test, number_test, option_test, elem, keep, max, min,
}
use midicrt.Prelude.Int.{ℤ, pos, negsuc}
use midicrt.Dict.{Dict, get, put, remove}

pub record Snapshot : Type 0 where
  pub topic : String
  pub seq : ℕ

-- The messages that a connection is sent.
pub data Reply : Type 0 where
  greeting hello_required bad_version major_mismatch welcome : Reply
  description status bad_rate unknown_cmd : Reply
  subscribed : List String → Reply
  action_done action_failed : String → Reply
  pushed : Snapshot → Reply
  happened : String → Reply

pub record Conn : Type 0 where
  pub member : Bool
  pub greeted : Bool
  pub max_rate : ℕ
  pub topics : List String
  pub latest : Dict String Snapshot
  pub pushing : Bool
  pub sent : List Reply

pub record Server : Type 0 where
  pub conns : Dict ℕ Conn
  pub refcounts : Dict String ℕ

abbrev pub init : Server
init = record { conns = []; refcounts = [] }

-- What a client asks. A rate is a number of thousandths, `none` if it is no finite number.
pub data Command : Type 0 where
  hello : String → Command
  describe ask_status : Command
  subscribe : Option ℤ → List String → Command
  unsubscribe : List String → Command
  action : String → Command
  other : Command

unfoldable pub before_dot : String → String
before_dot String.[] = String.[]
before_dot (String.◌∷◌ c s) =
    let rest = before_dot s in if eqb (code c) b'.' then String.[] else String.◌∷◌ c rest

abbrev pub count_of : Option ℕ → ℕ
count_of none = 0
count_of (some n) = n

unfoldable pub incref : Dict String ℕ → List String → Dict String ℕ
incref counts [] = counts
incref counts (topic ∷ rest) = incref (put counts topic (count_of (get counts topic) + 1)) rest

-- `count = get(topic, 0) - 1`: a count that would not stay above 0 is taken out.
unfoldable pub decref : Dict String ℕ → List String → Dict String ℕ
decref counts [] = counts
decref counts (topic ∷ rest) =
    let count = count_of (get counts topic) in
    decref (if leb count 1 then remove counts topic else put counts topic (count - 1)) rest

unfoldable pub topic_refcount : Server → String → ℕ
topic_refcount s topic = count_of (get s.refcounts topic)

-- Python's `set(topics)`.
unfoldable pub dedupe : List String → List String
dedupe [] = []
dedupe (t ∷ ts) = let rest = dedupe ts in if elem t rest then rest else t ∷ rest

unfoldable pub minus : List String → List String → List String
minus xs ys = keep (λ x. not (elem x ys)) xs

unfoldable pub meet : List String → List String → List String
meet xs ys = keep (λ x. elem x ys) xs

-- `min(max(rate, 0.1), 60.0)`
unfoldable pub clamp_rate : ℕ → ℕ
clamp_rate rate = min (max rate 100) 60000

abbrev pub fresh : Conn
fresh = record {
  member = true;
  greeted = false;
  max_rate = 10000;
  topics = [];
  latest = [];
  pushing = false;
  sent = greeting ∷ [];
}

-- A client connects: the head of `_handle`.
unfoldable pub connect : ℕ → Server → Server
connect id s = record s { conns = put s.conns id fresh }

unfoldable pub send : Conn → Reply → Conn
send c r = record c { sent = c.sent ++ r ∷ [] }

unfoldable pub store : ℕ → Conn → Server → Server
store id c s = record s { conns = put s.conns id c }

-- `_drop`: only an open connection gives its topics back.
unfoldable pub drop_conn : ℕ → Conn → Server → Server
drop_conn id c s =
    if c.member
    then record s {
      conns = put s.conns id (record c { member = false; pushing = false });
      refcounts = decref s.refcounts c.topics;
    }
    else record s { conns = put s.conns id (record c { pushing = false }) }

module _ (int : String → Option ℤ) (snapshot : String → Option Snapshot)
    (perform : String → Bool) where
  -- `proto.major`; `proto.PROTO_VERSION` is "1.0.0"
  unfoldable pub major : String → Option ℤ
  major version = int (before_dot version)

  -- `client_ver or "0"`
  abbrev pub or_zero : String → String
  or_zero version = if version == "" then "0" else version

  unfoldable pub compare_major : Option ℤ → ℕ → Conn → Server → Server
  compare_major none id c s = drop_conn id (send c bad_version) s
  compare_major (some (pos n)) id c s =
      if eqb n 1
      then store id (send (record c { greeted = true; pushing = true }) welcome) s
      else drop_conn id (send c major_mismatch) s
  compare_major (some (negsuc n)) id c s = drop_conn id (send c major_mismatch) s

  -- `conn.latest[topic] = snap` for every topic that has a snapshot.
  unfoldable pub refresh : List String → Dict String Snapshot → Dict String Snapshot
  refresh [] latest = latest
  refresh (topic ∷ rest) latest =
      refresh rest (elim (snapshot topic) [ none ↦ latest | some snap ↦ put latest topic snap ])

  unfoldable pub subscribe_to : ℕ → List String → ℕ → Conn → Server → Server
  subscribe_to rate topics id c s =
      let new_topics = minus (dedupe topics) c.topics in
      let all_topics = c.topics ++ new_topics in
      record s {
        conns = put s.conns id (
            send
              (record c {
                max_rate = clamp_rate rate;
                topics = all_topics;
                latest = refresh all_topics c.latest;
              })
              (subscribed all_topics));
        refcounts = incref s.refcounts new_topics;
      }

  unfoldable pub unsubscribe_from : List String → ℕ → Conn → Server → Server
  unsubscribe_from topics id c s =
      let removed = meet c.topics topics in
      let left = minus c.topics topics in
      record s {
        conns = put s.conns id (send (record c { topics = left }) (subscribed left));
        refcounts = decref s.refcounts removed;
      }

  unfoldable pub greeted_command : Command → ℕ → Conn → Server → Server
  greeted_command (hello version) id c s = store id (send c unknown_cmd) s
  greeted_command describe id c s = store id (send c description) s
  greeted_command ask_status id c s = store id (send c status) s
  greeted_command (subscribe none topics) id c s = store id (send c bad_rate) s
  greeted_command (subscribe (some (negsuc n)) topics) id c s = store id (send c bad_rate) s
  greeted_command (subscribe (some (pos rate)) topics) id c s =
      if eqb rate 0 then store id (send c bad_rate) s else subscribe_to rate topics id c s
  greeted_command (unsubscribe topics) id c s = unsubscribe_from topics id c s
  greeted_command (action name) id c s =
      store id (send c (if perform name then action_done name else action_failed name)) s
  greeted_command other id c s = store id (send c unknown_cmd) s

  unfoldable pub first_command : Command → ℕ → Conn → Server → Server
  unfolding compare_major major
  first_command (hello version) id c s = compare_major (major (or_zero version)) id c s
  first_command _ id c s = store id (send c hello_required) s

  -- `_dispatch`, for a connection object that the server holds or has held.
  unfoldable pub dispatch : Command → ℕ → Conn → Server → Server
  unfolding greeted_command first_command
  dispatch cmd id c s = if c.greeted then greeted_command cmd id c s else first_command cmd id c s

  unfoldable pub handle : ℕ → Command → Server → Server
  unfolding dispatch
  handle id cmd s = elim (get s.conns id) [ none ↦ s | some c ↦ dispatch cmd id c s ]

unfoldable pub drop : ℕ → Server → Server
drop id s = elim (get s.conns id) [ none ↦ s | some c ↦ drop_conn id c s ]
