-- ===== src/Bridge/Order.antt =====
-- What the bridge forwards, in which order.
use erps.Common.{
  ℕ, Bool, true, false, Option, none, some, List, [], ◌∷◌, ◌++◌, length, take, ltb, ◌≡◌, inl, inr,
  refl, arith, ap, ◌∙◌, sym, Bool-cases, if◌then◌else◌,
}
use mathlib.Core.List.{append_assoc, append-nil}
use erps.Bridge.{
  Iface, iface_open, Side, port1, port2, Sent, pass, Selected, failed, timeout, ready, Round,
  take_up, select_loop, Callback, send_port_of, port_cb, ev_loop, exited, running, main,
}

-- The interfaces that are read in a round, as callbacks.
abbrev reads : Selected → Iface → Iface → Round → List Callback
reads failed p1 p2 t = []
reads timeout p1 p2 t = []
reads (ready fds) p1 p2 t =
    (if fds p1.fd then record { recv_port = port1; captured = t.captured1 } ∷ [] else [])
    ++ (if fds p2.fd then record { recv_port = port2; captured = t.captured2 } ∷ [] else [])

abbrev pub callbacks : Iface → Iface → List Round → List Callback
callbacks p1 p2 [] = []
callbacks p1 p2 (t ∷ ts) = reads t.selected p1 p2 t ++ callbacks p1 p2 ts

ev_loop-append : (cs ds : List Callback) → ev_loop (cs ++ ds) ≡ ev_loop cs ++ ev_loop ds
unfolding ev_loop
ev_loop-append [] ds = refl
ev_loop-append (c ∷ cs) ds =
    ap (λ x. port_cb c ++ x) (ev_loop-append cs ds)
    ∙ sym (append_assoc (port_cb c) (ev_loop cs) (ev_loop ds))

-- One round.
round_lem :
    (s : Selected) (p1 p2 : Iface) (t : Round)
    → (take_up s p1 p2 t).0 ≡ true
    → (take_up s p1 p2 t).1 ≡ ev_loop (reads s p1 p2 t)
unfolding take_up ev_loop port_cb
round_lem failed p1 p2 t on = ground (arith, on)
round_lem timeout p1 p2 t on = refl
round_lem (ready fds) p1 p2 t on = elim (Bool-cases (fds p1.fd)) [
  | inl e ↦ elim (Bool-cases (fds p2.fd)) [
    | inl f ↦
        rw (e, f)
          (ap (λ x. pass port2 t.captured1 ++ x) (sym (append-nil (pass port1 t.captured2))))
    | inr f ↦ rw (e, f) refl
  ]
  | inr e ↦ elim (Bool-cases (fds p2.fd)) [
    | inl f ↦ rw (e, f) (sym (append-nil (pass port1 t.captured2)))
    | inr f ↦ rw (e, f) refl
  ]
]

loop_lem :
    (p1 p2 : Iface) (ts : List Round)
    → (select_loop p1 p2 ts).0 ≡ true
    → (select_loop p1 p2 ts).1 ≡ ev_loop (callbacks p1 p2 ts)
unfolding select_loop ev_loop
loop_lem p1 p2 [] on = refl
loop_lem p1 p2 (t ∷ ts) on = elim (Bool-cases (take_up t.selected p1 p2 t).0) [
  | inl e ↦
      let on' : (select_loop p1 p2 ts).0 ≡ true = rw e at on in
      rw e (
        ap (λ x. (take_up t.selected p1 p2 t).1 ++ x) (loop_lem p1 p2 ts on')
        ∙ ap (λ x. x ++ ev_loop (callbacks p1 p2 ts)) (round_lem t.selected p1 p2 t e)
        ∙ sym (ev_loop-append (reads t.selected p1 p2 t) (callbacks p1 p2 ts)))
  | inr e ↦ absurd (ground (arith, rw e at on))
]

abbrev same_side : Side → Side → Bool
same_side port1 port1 = true
same_side port2 port2 = true
same_side _ _ = false

-- The frames that go out at the interface.
abbrev pub sent_on : Side → Sent → List (List ℕ)
sent_on s [] = []
sent_on s ((q, frame) ∷ sent) = (if same_side s q then frame ∷ [] else []) ++ sent_on s sent

-- A frame that was captured, and has bytes.
abbrev frame_of : Option (List ℕ) → List (List ℕ)
frame_of none = []
frame_of (some []) = []
frame_of (some (x ∷ xs)) = (x ∷ xs) ∷ []

-- The frames that come in at the interface.
abbrev pub heard_on : Side → List Callback → List (List ℕ)
heard_on s [] = []
heard_on s (c ∷ cs) = (if same_side s c.recv_port then frame_of c.captured else []) ++ heard_on s cs

sent_on-append : (s : Side) (a b : Sent) → sent_on s (a ++ b) ≡ sent_on s a ++ sent_on s b
sent_on-append s [] b = refl
sent_on-append s ((q, frame) ∷ a) b =
    ap (λ x. (if same_side s q then frame ∷ [] else []) ++ x) (sent_on-append s a b)
    ∙ sym (append_assoc (if same_side s q then frame ∷ [] else []) (sent_on s a) (sent_on s b))

take_all : (xs : List ℕ) → take (length xs) xs ≡ xs
take_all [] = refl
take_all (x ∷ xs) = ap (λ ys. x ∷ ys) (take_all xs)

pass_lem :
    (s q : Side) (o : Option (List ℕ))
    → sent_on s (pass q o) ≡ (if same_side s q then frame_of o else [])
unfolding pass
pass_lem s q none = elim (Bool-cases (same_side s q)) [ inl e ↦ rw e refl | inr e ↦ rw e refl ]
pass_lem s q (some []) = elim (Bool-cases (same_side s q)) [ inl e ↦ rw e refl | inr e ↦ rw e refl ]
pass_lem s q (some (x ∷ xs)) =
    let long : ltb 0 (length (x ∷ xs)) ≡ true = ground arith in
    rw (long, take_all (x ∷ xs)) (append-nil (if same_side s q then (x ∷ xs) ∷ [] else []))

-- The other interface is the one that a frame does not come from.
opposite : (s q : Side) → same_side s (send_port_of q) ≡ same_side (send_port_of s) q
opposite port1 port1 = refl
opposite port1 port2 = refl
opposite port2 port1 = refl
opposite port2 port2 = refl

ev_loop_lem :
    (s : Side) (cs : List Callback) → sent_on s (ev_loop cs) ≡ heard_on (send_port_of s) cs
unfolding ev_loop port_cb
ev_loop_lem s [] = refl
ev_loop_lem s (c ∷ cs) =
    sent_on-append s (port_cb c) (ev_loop cs)
    ∙ ap (λ x. x ++ sent_on s (ev_loop cs)) (pass_lem s (send_port_of c.recv_port) c.captured)
    ∙ ap (λ b. (if b then frame_of c.captured else []) ++ sent_on s (ev_loop cs))
        (opposite s c.recv_port)
    ∙ ap (λ x. (if same_side (send_port_of s) c.recv_port then frame_of c.captured else []) ++ x)
        (ev_loop_lem s cs)

main_lem :
    (p1 p2 : Iface) (ts : List Round) {sent : Sent}
    → (if (select_loop p1 p2 ts).0
        then running (select_loop p1 p2 ts).1
        else exited (select_loop p1 p2 ts).1)
      ≡ running sent
    → sent ≡ ev_loop (callbacks p1 p2 ts)
main_lem p1 p2 ts {sent} h = elim (Bool-cases (select_loop p1 p2 ts).0) [
  | inl e ↦
      let g = rw e at h in
      let same : (select_loop p1 p2 ts).1 ≡ sent = ground (arith, g) in
      sym same ∙ loop_lem p1 p2 ts e
  | inr e ↦ absurd (ground (arith, rw e at h))
]

-- As long as `select` does not fail, the loop on `select` sends what the event loop sends, for the same captured
-- frames: from either interface, each frame that has bytes goes out once, on the other one, in its order, and nothing
-- else goes out.
pub main_forwards :
    (name dev1 dev2 : List ℕ) (fd1 fd2 : ℕ) (ts : List Round) {sent : Sent}
    → main (name ∷ dev1 ∷ dev2 ∷ []) fd1 fd2 ts ≡ running sent
    → (sent ≡ ev_loop (callbacks (iface_open dev1 fd1) (iface_open dev2 fd2) ts))
      × (sent_on port2 sent
          ≡ heard_on port1 (callbacks (iface_open dev1 fd1) (iface_open dev2 fd2) ts))
      × (sent_on port1 sent
          ≡ heard_on port2 (callbacks (iface_open dev1 fd1) (iface_open dev2 fd2) ts))
unfolding main
main_forwards name dev1 dev2 fd1 fd2 ts {sent} h =
    let cs = callbacks (iface_open dev1 fd1) (iface_open dev2 fd2) ts in
    let same : sent ≡ ev_loop cs =
      main_lem (iface_open dev1 fd1) (iface_open dev2 fd2) ts {sent = sent} h in
    (
      same,
      ap (λ x. sent_on port2 x) same ∙ ev_loop_lem port2 cs,
      ap (λ x. sent_on port1 x) same ∙ ev_loop_lem port1 cs,
    )
