-- ===== src/Client/Present/Queue.antt =====
-- apps/thinclient/main.c: the present queue is a queue of entries.
use remote_avapps.Base.{
  ℕ, suc, ◌+◌, ◌-◌, ◌%◌, ◌<◌, ◌≤◌, ◌≡◌, ◌⊎◌, inl, inr, ◌==◌, refl, arith, leb, if◌then◌else◌, Bool,
  true, ◌&&◌, List, [], ◌∷◌, ◌++◌, length, set, get_or, length-set, get_or-set_self, get_or-set_ne,
  none, some, Bool-cases, ap, ◌∙◌, sym, ap₂,
}
use remote_avapps.Base.Blocks.{tabulate, tabulate_ext, tabulate-suc}
use remote_avapps.Client.Present.{
  Entry, PresentQueue, queue_size, no_entry, enqueue, push, waits, stopped, popped, dequeue, pop,
}

-- The counters are in range and fit together.
pub record IsValid (q : PresentQueue) : Type 0 where
  pub size : length q.entries ≡ queue_size
  pub head_in : q.qhead < queue_size
  pub tail_at : q.qtail ≡ (q.qhead + q.qcount) % queue_size
  pub count_in : q.qcount ≤ queue_size

abbrev at : List Entry → ℕ → ℕ → Entry
at entries head k = get_or entries ((head + k) % queue_size) no_entry

-- The entries that wait, the oldest first.
abbrev pub contents : PresentQueue → List Entry
contents q = tabulate q.qcount (at q.entries q.qhead)

enqueue_lem :
    (q : PresentQueue) (e : Entry)
    → IsValid q
    → q.qcount < queue_size
    → IsValid (enqueue q e) × (contents (enqueue q e) ≡ contents q ++ (e ∷ []))
unfolding enqueue
enqueue_lem q e v room = (
  record {
    size = length-set q.entries q.qtail e ∙ v.size;
    head_in = v.head_in;
    tail_at = omega (arith, v.tail_at, v.head_in);
    count_in = omega arith;
  },
  tabulate-suc q.qcount (at (set q.entries q.qtail e) q.qhead)
      ∙ ap₂ (λ l x. l ++ (x ∷ [])) (tabulate_ext q.qcount _ (at q.entries q.qhead) older) newest,
)
  where
    newest : at (set q.entries q.qtail e) q.qhead q.qcount ≡ e
    newest =
        ap (λ k. get_or (set q.entries q.qtail e) k no_entry) (sym v.tail_at)
        ∙ get_or-set_self q.entries q.qtail e no_entry (omega (arith, v.tail_at, v.size))

    older : (i : ℕ) → i < q.qcount → at (set q.entries q.qtail e) q.qhead i ≡ at q.entries q.qhead i
    older i h =
        get_or-set_ne q.entries q.qtail ((q.qhead + i) % queue_size) e no_entry
          (omega (arith, v.tail_at, v.head_in))

-- With an entry that waits, the first of the contents is at the head.
dequeue_lem :
    (q : PresentQueue) (n : ℕ)
    → q.qcount ≡ suc n
    → q.qhead < queue_size
    → contents q
      ≡ get_or q.entries q.qhead no_entry
        ∷ tabulate (q.qcount - 1) (at q.entries ((q.qhead + 1) % queue_size))
dequeue_lem q n e h =
    ap (λ k. tabulate k (at q.entries q.qhead)) e
    ∙ ap₂ (λ x l. x ∷ l) (ap (λ k. get_or q.entries k no_entry) here)
        (ap (λ k. tabulate k (λ i. at q.entries q.qhead (suc i))) count
          ∙ tabulate_ext (q.qcount - 1) _ (at q.entries ((q.qhead + 1) % queue_size))
              (λ i p. ap (λ k. get_or q.entries k no_entry) (later i)))
  where
    here : (q.qhead + 0) % queue_size ≡ q.qhead
    here = omega arith

    count : n ≡ q.qcount - 1
    count = omega arith

    later : (i : ℕ) → (q.qhead + suc i) % queue_size ≡ ((q.qhead + 1) % queue_size + i) % queue_size
    later i = omega arith

-- An entry that is pushed goes to the end; it waits exactly when the queue is full and the client
-- runs. The queue has room, or the client runs.
pub push-contents :
    (q : PresentQueue) (run : Bool) (e : Entry)
    → IsValid q
    → (q.qcount < queue_size) ⊎ (run ≡ true)
    → ((push q run e ≡ none) × (q.qcount ≡ queue_size))
      ⊎ ((r : PresentQueue) × (push q run e ≡ some r)
          × IsValid r
          × (contents r ≡ contents q ++ (e ∷ [])))
unfolding push
push-contents q run e v room = elim (Bool-cases (leb queue_size q.qcount && run)) [
  | inl h ↦ let full : q.qcount ≡ queue_size = ground (arith, v.count_in) in inl (rw h refl, full)
  | inr h ↦
      let below : q.qcount < queue_size = ground (arith, room, v.count_in) in
      let (valid, same) = enqueue_lem q e v below in inr (enqueue q e, rw h refl, valid, same)
]

-- A pop hands out the oldest entry and keeps the rest; it waits or stops exactly when there is none.
pub pop-contents :
    (q : PresentQueue) (run : Bool)
    → IsValid q
    → ((contents q ≡ []) × (pop q run ≡ (if run then waits else stopped)))
      ⊎ ((e : Entry) × (r : PresentQueue) × (pop q run ≡ popped e r)
          × IsValid r
          × (contents q ≡ e ∷ contents r))
unfolding pop dequeue
pop-contents q run v = elim (Bool-cases (q.qcount == 0)) [
  | inl h ↦
      let none_waits : q.qcount ≡ 0 = ground arith in
      inl (ap (λ k. tabulate k (at q.entries q.qhead)) none_waits, rw h refl)
  | inr h ↦
      let some_wait : q.qcount ≡ suc (q.qcount - 1) = ground arith in
      inr (
        get_or q.entries q.qhead no_entry,
        record q { qhead = (q.qhead + 1) % queue_size; qcount = q.qcount - 1 },
        rw h refl,
        record {
          size = v.size;
          head_in = omega arith;
          tail_at = omega (arith, v.tail_at);
          count_in = omega (arith, v.count_in);
        },
        dequeue_lem q (q.qcount - 1) some_wait v.head_in,
      )
]
