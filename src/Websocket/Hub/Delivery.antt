-- ===== src/Websocket/Hub/Delivery.antt =====
-- The loop of `Run` that sends a broadcast to a room (backend/internal/websocket/hub.go).
use live_polling.Prelude.{
  ◌≡◌, refl, sym, subst, ◌∙◌, inl, inr, Bool, true, false, not, ◌&&◌, some, List, [], ◌∷◌, ◌++◌,
  arith, Str, str_eq_iff, ◌==◌, ==_iff, length-append, Bool-cases, if_elim, if◌then◌else◌,
}
use live_polling.Websocket.Hub.{
  ClientRef, Client, Hub, has, room_of, is_full, store, send, remove, fan_out,
}
use live_polling.Websocket.Hub.Rooms.{
  Once, IsSound, remove-IsSound, heap-remove, room_of-remove, has-reject, remove_others,
}

-- A client after a broadcast to it: one that had room for the payload has it last in its queue, and
-- one that had not is closed.
abbrev pub offered : Str → Client → Client
offered payload k =
    if is_full k then record k { closed = true } else record k { queue = k.queue ++ payload ∷ [] }

-- The loop over one client, which is open.
abbrev pub visit : ClientRef → Str → Hub → Hub
visit c payload h =
    if is_full (h.heap c)
    then remove c h
    else store c (record (h.heap c) { queue = (h.heap c).queue ++ payload ∷ [] }) h

fan_out-visit :
    (c : ClientRef) (cs : List ClientRef) (payload : Str) (h : Hub)
    → (h.heap c).closed ≡ false
    → fan_out (c ∷ cs) payload h ≡ fan_out cs payload (visit c payload h)
unfolding fan_out send
fan_out-visit c cs payload h is_open = elim (Bool-cases (is_full (h.heap c))) [
  | inl full ↦ rw (fan_out, send, is_open, full) refl
  | inr fits ↦ rw (fan_out, send, is_open, fits) refl
]

-- `h'` is `h` after a broadcast to the clients `cs`: those have been offered the payload and are out
-- of their rooms where they were full, and the others are as they were.
abbrev pub Delivered : List ClientRef → Str → Hub → Hub → Type 0
Delivered cs payload h h' =
    (c : ClientRef)
    → (h'.heap c ≡ (if has c cs then offered payload (h.heap c) else h.heap c))
      × ((q : Str)
          → has c (room_of q h'.rooms)
            ≡ (has c (room_of q h.rooms) && not (has c cs && is_full (h.heap c))))

visit-IsSound : (c : ClientRef) (payload : Str) (h : Hub) → IsSound h → IsSound (visit c payload h)
visit-IsSound c payload h s =
    if_elim IsSound (is_full (h.heap c)) _ _ (λ _. remove-IsSound c h s)
      (λ fits. record {
        members = λ q x m. ground (arith, s.members q x m);
        once = s.once;
        not_empty = s.not_empty;
        queues = λ x. ground (arith, s.queues x, length-append (h.heap c).queue (payload ∷ []));
        buffer = s.buffer;
      })

visit-Delivered :
    (c : ClientRef) (payload : Str) (h : Hub)
    → IsSound h
    → has c (room_of (h.heap c).poll_id h.rooms) ≡ true
    → Delivered (c ∷ []) payload h (visit c payload h)
visit-Delivered c payload h s m x = (
  ground (arith, heap-remove c h x),
  λ q. ground (
    arith,
    str_eq_iff (h.heap c).poll_id q,
    room_of-remove c h q,
    has-reject c x (room_of q h.rooms),
    s.members q c,
  ),
)

and_true : (b : Bool) → (b && true) ≡ b
and_true true = refl
and_true false = refl

Delivered-cons :
    (c : ClientRef) (cs : List ClientRef) (payload : Str) (h h₁ h₂ : Hub)
    → has c cs ≡ false
    → Delivered (c ∷ []) payload h h₁
    → Delivered cs payload h₁ h₂
    → Delivered (c ∷ cs) payload h h₂
Delivered-cons c cs payload h h₁ h₂ fresh d₁ d₂ x = elim (Bool-cases (c == x)) [
  | inl here ↦
      let e : c ≡ x = (==_iff c x).0 here in
      let out : has x cs ≡ false = subst (λ z. has z cs ≡ false) e fresh in
      (
        (d₂ x).0 ∙ rw (out, here) ((d₁ x).0 ∙ rw here refl),
        λ q. (d₂ x).1 q ∙ rw (out, here) (ground (arith, (d₁ x).1 q)),
      )
  | inr other ↦
      let same : h₁.heap x ≡ h.heap x = (d₁ x).0 ∙ rw other refl in
      ((d₂ x).0 ∙ rw (same, other) refl, λ q. (d₂ x).1 q ∙ rw (same, other, unmoved other q) refl)
]
  where
    unmoved : (c == x) ≡ false → (q : Str) → has x (room_of q h₁.rooms) ≡ has x (room_of q h.rooms)
    unmoved other q = (d₁ x).1 q ∙ rw other (and_true _)

visit_room :
    (c x : ClientRef) (payload : Str) (h : Hub)
    → IsSound h
    → has c (room_of (h.heap c).poll_id h.rooms) ≡ true
    → (c == x) ≡ false
    → has x (room_of (h.heap x).poll_id h.rooms) ≡ true
    → has x (room_of ((visit c payload h).heap x).poll_id (visit c payload h).rooms) ≡ true
visit_room c x payload h s m other mx =
    let d = visit-Delivered c payload h s m x in
    let same : (visit c payload h).heap x ≡ h.heap x = d.0 ∙ rw other refl in
    subst (λ (k : Client). has x (room_of k.poll_id (visit c payload h).rooms) ≡ true) (sym same)
      (d.1 (h.heap x).poll_id ∙ rw (mx, other) refl)

visit_others :
    (c : ClientRef) (payload : Str) (h : Hub)
    → ((visit c payload h).next ≡ h.next)
      × ((visit c payload h).pending ≡ h.pending)
      × ((visit c payload h).stopped ≡ h.stopped)
visit_others c payload h = ground (arith, remove_others c h)

-- The loop over clients that are in their rooms, each once, in a sound hub: no send panics, the hub
-- stays sound, each of them is offered the payload, a full one leaves its room, and no other client
-- changes.
pub fan_out-Delivered :
    (cs : List ClientRef) (payload : Str) (h : Hub)
    → Once cs
    → IsSound h
    → ((c : ClientRef) → has c cs ≡ true → has c (room_of (h.heap c).poll_id h.rooms) ≡ true)
    → (h' : Hub) × (fan_out cs payload h ≡ some h')
      × IsSound h'
      × Delivered cs payload h h'
      × ((h'.next ≡ h.next) × (h'.pending ≡ h.pending) × (h'.stopped ≡ h.stopped))
unfolding fan_out
fan_out-Delivered [] payload h once s room =
    (h, refl, s, λ c. (refl, λ q. ground arith), (refl, refl, refl))
fan_out-Delivered (c ∷ cs) payload h once s room =
    let m = room c (ground arith) in
    let h₁ = visit c payload h in
    let (h₂, e, s₂, d₂, o) =
      fan_out-Delivered cs payload h₁ once.1 (visit-IsSound c payload h s)
        (λ x mx. visit_room c x payload h s m (apart x mx) (room x (ground arith))) in
    (
      h₂,
      fan_out-visit c cs payload h (s.members _ c m).1 ∙ e,
      s₂,
      Delivered-cons c cs payload h h₁ h₂ once.0 (visit-Delivered c payload h s m) d₂,
      (
        o.0 ∙ (visit_others c payload h).0,
        o.1 ∙ (visit_others c payload h).1,
        o.2 ∙ (visit_others c payload h).2,
      ),
    )
  where
    apart : (x : ClientRef) → has x cs ≡ true → (c == x) ≡ false
    apart x mx = elim (Bool-cases (c == x)) [
      | inl same ↦ let e : c ≡ x = (==_iff c x).0 same in ground arith
      | inr other ↦ other
    ]
