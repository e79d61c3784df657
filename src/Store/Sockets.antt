-- ===== src/Store/Sockets.antt =====
-- The WebSocket subscribers of an execution: `subscribe_ws`, `unsubscribe_ws` and `_broadcast_ws` of
-- backend/app/engine/executor.py.
use multi_tenant_agentic_wor.Base.{
  ℕ, ◌≡◌, refl, ap, ◌∙◌, true, false, List, [], ◌∷◌, ◌++◌, map, arith, ◌==◌, nat_eq, nat_beq_iff,
  ==-refl, All, if◌then◌else◌, is_empty, Bool-cases, inl, inr,
}
use multi_tenant_agentic_wor.Base.Dict
use multi_tenant_agentic_wor.Base.Dict.{Dict, get_or-put, get_or-pop, has-put}
use multi_tenant_agentic_wor.Store.{Event, Queue, World}
use multi_tenant_agentic_wor.Store.Writes.{
  subscribe_ws, remove_queue, unsubscribe_ws, receive, broadcast_to, broadcast_ws,
}

-- The queues of an execution.
abbrev pub queues_of : World → ℕ → List Queue
queues_of w i = Dict.get_or w.subscribers i []

get_or-broadcast_to :
    (i j : ℕ) (e : Event) (d : Dict ℕ (List Queue))
    → Dict.get_or (broadcast_to i e d) j []
      ≡ (if i == j then map (receive e) (Dict.get_or d j []) else Dict.get_or d j [])
unfolding broadcast_to Dict.get_or
get_or-broadcast_to i j e [] = ground arith
get_or-broadcast_to i j e ((k, qs) ∷ d) = ground (arith, get_or-broadcast_to i j e d)

remove_queue-append :
    (qs : List Queue) (q : Queue)
    → All (λ p. (p.queue_id == q.queue_id) ≡ false) qs
    → remove_queue q.queue_id (qs ++ q ∷ []) ≡ qs
unfolding remove_queue
remove_queue-append [] q h = rw (==-refl q.queue_id) refl
remove_queue-append (p ∷ qs) q h = rw h.0 (ap (λ r. p ∷ r) (remove_queue-append qs q h.1))

-- An event for an execution is put into each queue of its subscribers, and into no queue of another
-- execution.
pub broadcast_ws_lem :
    (i j : ℕ) (e : Event) (w : World)
    → queues_of (broadcast_ws i e w) j
      ≡ (if i == j then map (receive e) (queues_of w j) else queues_of w j)
unfolding broadcast_ws
broadcast_ws_lem i j e w = get_or-broadcast_to i j e w.subscribers

abbrev store_or_drop : ℕ → List Queue → Dict ℕ (List Queue) → Dict ℕ (List Queue)
store_or_drop i qs d = if is_empty qs then Dict.pop d i else Dict.put d i qs

get_or-store_or_drop :
    (i j : ℕ) (qs : List Queue) (d : Dict ℕ (List Queue))
    → Dict.get_or (store_or_drop i qs d) j [] ≡ (if i == j then qs else Dict.get_or d j [])
get_or-store_or_drop i j [] d = get_or-pop d i j []
get_or-store_or_drop i j (q ∷ qs) d = get_or-put d i j (q ∷ qs) []

back_again :
    (i j : ℕ) (qs : List Queue) (d : Dict ℕ (List Queue))
    → (if i == j then Dict.get_or d i [] else Dict.get_or (Dict.put d i qs) j [])
      ≡ Dict.get_or d j []
back_again i j qs d = elim (Bool-cases (i == j)) [
  | inl e ↦ rw e (ap (λ k. Dict.get_or d k []) ((nat_beq_iff i j).0 e))
  | inr e ↦ rw e (get_or-put d i j qs [] ∙ rw e refl)
]

-- Who subscribes and unsubscribes leaves the queues of every execution as they were, if the new queue
-- is not one of those that the execution has.
pub unsubscribe_ws-subscribe_ws :
    (i j : ℕ) (w : World)
    → All (λ p. (p.queue_id == w.next_id) ≡ false) (queues_of w i)
    → queues_of (unsubscribe_ws i (subscribe_ws i w).0.queue_id (subscribe_ws i w).1) j
      ≡ queues_of w j
unfolding unsubscribe_ws subscribe_ws
unsubscribe_ws-subscribe_ws i j w fresh =
    let queue : Queue = record { queue_id = w.next_id; events = [] } in
    let both = queues_of w i ++ queue ∷ [] in
    let known : Dict.has (Dict.put w.subscribers i both) i ≡ true =
      has-put w.subscribers i i both ∙ rw (==-refl i) refl in
    let there : Dict.get_or (Dict.put w.subscribers i both) i [] ≡ both =
      get_or-put w.subscribers i i both [] ∙ rw (==-refl i) refl in
    rw known (
      rw there (
        rw (remove_queue-append (queues_of w i) queue fresh) (
          get_or-store_or_drop i j (queues_of w i) (Dict.put w.subscribers i both)
          ∙ back_again i j both w.subscribers)))
