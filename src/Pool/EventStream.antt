-- ===== src/Pool/EventStream.antt =====
-- `_EventStream` of tau_coding/agent_pool.py: a bounded queue of events with one consumer. The
-- stretches between awaits are functions; a caller that has to wait is told so.
pub mod Wakeups
use tau_prime.Prelude.{
  ℕ, Bool, true, false, not, ◌&&◌, ◌||◌, List, [], ◌∷◌, ◌++◌, length, ltb, leb, if◌then◌else◌,
}
use tau_prime.Events.{AgentEvent}

-- `can_put` and `can_get` are the flags of the two `asyncio.Event`s.
pub record EventStream : Type 0 where
  pub capacity : ℕ
  pub items : List AgentEvent
  pub can_put : Bool
  pub can_get : Bool
  pub aborted : Bool
  pub closed : Bool

abbrev pub new_stream : ℕ → EventStream
new_stream capacity = record {
  capacity = capacity;
  items = [];
  can_put = true;
  can_get = false;
  aborted = false;
  closed = false;
}

-- `put` returns `False`, returns `True`, or waits for `can_put` and tries again.
pub data Put : Type 0 where
  refused stored must_wait : Put

abbrev pub put_result : EventStream → Put
put_result s =
    if s.closed || s.aborted
    then refused
    else if ltb (length s.items) s.capacity
    then stored
    else must_wait

-- The stream after one round of the loop of `put`.
unfoldable pub put : AgentEvent → EventStream → EventStream
put e s =
    if s.closed || s.aborted
    then s
    else if ltb (length s.items) s.capacity
    then record s {
      items = s.items ++ e ∷ [];
      can_get = true;
      can_put = if leb s.capacity (length (s.items ++ e ∷ [])) then false else s.can_put;
    }
    else s

unfoldable pub abort : EventStream → EventStream
abort s =
    if s.closed && s.aborted
    then s
    else record s { aborted = true; closed = true; can_put = true; can_get = true }

unfoldable pub close : EventStream → EventStream
close s = if s.closed then s else record s { closed = true; can_put = true; can_get = true }

abbrev pub is_empty : List AgentEvent → Bool
is_empty [] = true
is_empty (e ∷ es) = false

-- What a round of the loop of `iter_events` does: hand over an event, end, or wait for `can_get`.
pub data Got : Type 0 where
  item : AgentEvent → Got
  ended must_wait : Got

abbrev pub taken : List AgentEvent → EventStream → Got × EventStream
taken [] s = if s.closed then (ended, s) else (Got.must_wait, record s { can_get = false })
taken (e ∷ es) s = (
  item e,
  record s {
    items = es;
    can_put = if ltb (length es) s.capacity then true else s.can_put;
    can_get = not (is_empty es) || s.closed;
  },
)

unfoldable pub get : EventStream → Got × EventStream
get s = taken s.items s

-- What the producers and the consumer do, in the order in which they get to do it.
pub data Operation : Type 0 where
  puts : AgentEvent → Operation
  gets aborts closes : Operation

abbrev pub operate : Operation → EventStream → EventStream
operate (puts e) s = put e s
operate gets s = (get s).1
operate aborts s = abort s
operate closes s = close s

abbrev pub put_in : AgentEvent → Put → List AgentEvent
put_in e stored = e ∷ []
put_in e r = []

-- The events that an operation puts in, and those that it hands over.
abbrev pub accepted : Operation → EventStream → List AgentEvent
accepted (puts e) s = put_in e (put_result s)
accepted o s = []

abbrev pub handed : Got → List AgentEvent
handed (item e) = e ∷ []
handed g = []

abbrev pub delivered : Operation → EventStream → List AgentEvent
delivered gets s = handed (get s).0
delivered o s = []

abbrev pub operate_all : List Operation → EventStream → EventStream
operate_all [] s = s
operate_all (o ∷ os) s = operate_all os (operate o s)

abbrev pub all_accepted : List Operation → EventStream → List AgentEvent
all_accepted [] s = []
all_accepted (o ∷ os) s = accepted o s ++ all_accepted os (operate o s)

abbrev pub all_delivered : List Operation → EventStream → List AgentEvent
all_delivered [] s = []
all_delivered (o ∷ os) s = delivered o s ++ all_delivered os (operate o s)
