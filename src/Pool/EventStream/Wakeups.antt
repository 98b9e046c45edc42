-- ===== src/Pool/EventStream/Wakeups.antt =====
-- On the order of the events and the flags of the event stream of tau_coding/agent_pool.py.
use tau_prime.Prelude.{
  ℕ, ◌≤◌, true, false, not, ◌||◌, List, [], ◌∷◌, ◌++◌, length, length-append, ltb, ◌≡◌, refl, ap,
  sym, ◌∙◌, arith, append_assoc, append-nil, Bool-cases, inl, inr,
}
use tau_prime.Events.{AgentEvent}
use tau_prime.Pool.EventStream.{
  EventStream, new_stream, put_result, put, put_in, abort, close, is_empty, taken, handed, get,
  Operation, puts, gets, aborts, closes, operate, accepted, delivered, operate_all, all_accepted,
  all_delivered,
}

-- The flags say exactly who may go on: a producer where there is room or the stream is closed, the
-- consumer where there is an event or the stream is closed. There are never more events than fit.
pub record IsAwake (s : EventStream) : Type 0 where
  pub fits : length s.items ≤ s.capacity
  pub puts : s.can_put ≡ (ltb (length s.items) s.capacity || s.closed)
  pub gets : s.can_get ≡ (not (is_empty s.items) || s.closed)
  pub aborts : s.aborted ≡ true → s.closed ≡ true

new_stream-IsAwake : (n : ℕ) → 1 ≤ n → IsAwake (new_stream n)
new_stream-IsAwake n h = record {
  fits = omega arith;
  puts = ground arith;
  gets = refl;
  aborts = λ e. cc;
}

is_empty-append : (es : List AgentEvent) (e : AgentEvent) → is_empty (es ++ e ∷ []) ≡ false
is_empty-append [] e = refl
is_empty-append (x ∷ es) e = refl

put-IsAwake : (e : AgentEvent) (s : EventStream) → IsAwake s → IsAwake (put e s)
unfolding put
put-IsAwake e s v = ground (arith, length-append s.items (e ∷ []), is_empty-append s.items e)

abort-IsAwake : (s : EventStream) → IsAwake s → IsAwake (abort s)
unfolding abort
abort-IsAwake s v = ground arith

close-IsAwake : (s : EventStream) → IsAwake s → IsAwake (close s)
unfolding close
close-IsAwake s v = ground arith

taken-IsAwake :
    (es : List AgentEvent) (s : EventStream) → s.items ≡ es → IsAwake s → IsAwake (taken es s).1
taken-IsAwake [] s e v = ground arith
taken-IsAwake (x ∷ es) s e v = ground arith

get-IsAwake : (s : EventStream) → IsAwake s → IsAwake (get s).1
unfolding get
get-IsAwake s v = taken-IsAwake s.items s refl v

operate-IsAwake : (o : Operation) (s : EventStream) → IsAwake s → IsAwake (operate o s)
operate-IsAwake (puts e) s v = put-IsAwake e s v
operate-IsAwake gets s v = get-IsAwake s v
operate-IsAwake aborts s v = abort-IsAwake s v
operate-IsAwake closes s v = close-IsAwake s v

-- One operation hands over the oldest event and puts new ones behind the others.
items-put :
    (e : AgentEvent) (s : EventStream) → (put e s).items ≡ s.items ++ put_in e (put_result s)
unfolding put
items-put e s = elim (Bool-cases (s.closed || s.aborted)) [
  | inl over ↦ rw over (sym (append-nil s.items))
  | inr live ↦ rw live (elim (Bool-cases (ltb (length s.items) s.capacity)) [
    | inl room ↦ rw room refl
    | inr full ↦ rw full (sym (append-nil s.items))
  ])
]

items-taken :
    (es : List AgentEvent) (s : EventStream)
    → s.items ≡ es
    → handed (taken es s).0 ++ (taken es s).1.items ≡ es
items-taken [] s e = ground arith
items-taken (x ∷ es) s e = refl

items-abort : (s : EventStream) → (abort s).items ≡ s.items
unfolding abort
items-abort s = ground arith

items-close : (s : EventStream) → (close s).items ≡ s.items
unfolding close
items-close s = ground arith

items-operate :
    (o : Operation) (s : EventStream)
    → delivered o s ++ (operate o s).items ≡ s.items ++ accepted o s
unfolding get
items-operate (puts e) s = items-put e s
items-operate gets s = items-taken s.items s refl ∙ sym (append-nil s.items)
items-operate aborts s = items-abort s ∙ sym (append-nil s.items)
items-operate closes s = items-close s ∙ sym (append-nil s.items)

items-operate_all :
    (os : List Operation) (s : EventStream)
    → all_delivered os s ++ (operate_all os s).items ≡ s.items ++ all_accepted os s
items-operate_all [] s = sym (append-nil s.items)
items-operate_all (o ∷ os) s =
    append_assoc (delivered o s) (all_delivered os (operate o s))
      (operate_all os (operate o s)).items
    ∙ ap (λ l. delivered o s ++ l) (items-operate_all os (operate o s))
    ∙ sym (append_assoc (delivered o s) (operate o s).items (all_accepted os (operate o s)))
    ∙ ap (λ l. l ++ all_accepted os (operate o s)) (items-operate o s)
    ∙ append_assoc s.items (accepted o s) (all_accepted os (operate o s))

IsAwake-operate_all :
    (os : List Operation) (s : EventStream) → IsAwake s → IsAwake (operate_all os s)
IsAwake-operate_all [] s v = v
IsAwake-operate_all (o ∷ os) s v = IsAwake-operate_all os (operate o s) (operate-IsAwake o s v)

-- However the producers, the consumer, aborts and closes take turns on a new stream of at least one
-- place, what was handed over followed by what still waits is what was put in, in order, there is
-- never more than fits, and the two flags are set exactly where their waiters can go on: no wake-up
-- is lost.
pub operate_all-IsAwake :
    (capacity : ℕ) (os : List Operation)
    → 1 ≤ capacity
    → IsAwake (operate_all os (new_stream capacity))
      × (all_delivered os (new_stream capacity) ++ (operate_all os (new_stream capacity)).items
          ≡ all_accepted os (new_stream capacity))
operate_all-IsAwake capacity os h = (
  IsAwake-operate_all os (new_stream capacity) (new_stream-IsAwake capacity h),
  items-operate_all os (new_stream capacity),
)
