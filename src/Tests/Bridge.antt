-- ===== src/Tests/Bridge.antt =====
-- Two rounds of the bridge of the benchmarks, and the theorem at them.
use erps.Common.{true, none, some, List, [], ◌∷◌, ◌≡◌, refl}
use erps.Bridge.{
  iface_open, port1, port2, Sent, timeout, ready, Round, running, main, ev_loop, pass, take_up,
  select_loop,
}
use erps.Bridge.Order.{callbacks, sent_on, heard_on, main_forwards}

-- Both interfaces are ready, and then only time passes.
abbrev rounds : List Round
rounds =
    record { selected = ready (λ fd. true); captured1 = some (7 ∷ 8 ∷ []); captured2 = some [] }
    ∷ record { selected = timeout; captured1 = none; captured2 = none }
    ∷ []

abbrev forwarded : Sent
forwarded = (port2, 7 ∷ 8 ∷ []) ∷ []

run : main ([] ∷ (101 ∷ []) ∷ (102 ∷ []) ∷ []) 4 5 rounds ≡ running forwarded
unfolding main select_loop take_up pass
run = refl

main_forwards_example :
    (forwarded ≡ ev_loop (callbacks (iface_open (101 ∷ []) 4) (iface_open (102 ∷ []) 5) rounds))
    × (sent_on port2 forwarded
        ≡ heard_on port1 (callbacks (iface_open (101 ∷ []) 4) (iface_open (102 ∷ []) 5) rounds))
    × (sent_on port1 forwarded
        ≡ heard_on port2 (callbacks (iface_open (101 ∷ []) 4) (iface_open (102 ∷ []) 5) rounds))
main_forwards_example = main_forwards [] (101 ∷ []) (102 ∷ []) 4 5 rounds run
