-- ===== src/EyBond/Tests.antt =====
-- Runs of the registry, of the frames and of the manager.
use home_assistant_dess_moni.Base.{
  map, ℕ, ◌+◌, ◌≡◌, ◌≢◌, ◌↔◌, refl, arith, true, false, not, List, [], ◌∷◌, ◌++◌, none, some,
  length, ◌==◌, list_eq, nat_eq, if◌then◌else◌,
}
use home_assistant_dess_moni.Base.Text.{Text, codes}
use home_assistant_dess_moni.Base.Dict.{lookup, lookup_or, contains}
use home_assistant_dess_moni.Adapters.{Adapter, get_adapter}
use home_assistant_dess_moni.EyBond.Registry.{DongleRecord, Registry, fresh, IsKeyed, connected}
use home_assistant_dess_moni.EyBond.Lifecycle.{
  drop_link, apply, drops, SameConfig, lifecycle-SameConfig,
}
use home_assistant_dess_moni.EyBond.Children.{
  DeviceTarget, Listener, child_target, build_child_targets, pi18, modbus, target_of,
}
use home_assistant_dess_moni.EyBond.Identity.{uri-adapter, targets-Distinct, Distinct, ids}
use home_assistant_dess_moni.EyBond.Wire.{
  EyHeader, read_frames, build_forward2device, read_frame, header_of, fc_forward2device,
  default_devcode, read-forward,
}
use home_assistant_dess_moni.EyBond.Frames.{Packet, stream_of, frame_of, read_frames-stream_of}
use home_assistant_dess_moni.EyBond.Handler.{handle_frame, pn_of}
use home_assistant_dess_moni.EyBond.Manager.{
  Manager, waiting, answered, aborted, new_manager, session, is_in, is_empty, next_tid, connect,
  on_heartbeat, on_forward, disconnect, begin_send, ready_event_for,
}
use home_assistant_dess_moni.EyBond.Reachable.{
  Reachable, start, step, connects, receives, Reachable-route, Reachable-events,
}
use home_assistant_dess_moni.EyBond.Requests.{send-answer, disconnect-wakes, disconnect-routes}

abbrev noon : Text
noon = codes "12:00"

abbrev dongle : DongleRecord
dongle = record (fresh (codes "W001")) { enabled = true; protocol = some pi18; devaddr = 2 }

abbrev one_dongle : Registry
one_dongle = (codes "W001", dongle) ∷ []

one_dongle-IsKeyed : IsKeyed one_dongle
one_dongle-IsKeyed = (refl, refl, tt)

lifecycle-SameConfig_example :
    (after : DongleRecord) × (lookup
        (codes "W001")
        (apply (drop_link noon (codes "W001")) one_dongle)
      ≡ some after)
    × SameConfig after dongle
lifecycle-SameConfig_example =
    lifecycle-SameConfig (drop_link noon (codes "W001")) one_dongle (codes "W001") {rec = dongle}
      drops refl

abbrev listener : Listener
listener = record {
  bind_host = codes "0.0.0.0";
  bind_port = 8899;
  broadcast = [];
  announce_ip = [];
}

-- A dongle that was connected when the hub was stored.
abbrev stored : Registry
stored = (codes "W001", record dongle { status = connected; peer = codes "10.0.0.7:4000" }) ∷ []

abbrev dongle_target : DeviceTarget
dongle_target = target_of listener dongle pi18

dongle_polled : child_target listener dongle ≡ some dongle_target
unfolding child_target
dongle_polled = refl

uri-adapter_example : get_adapter dongle_target.uri ≡ (
    if dongle_target.protocol == modbus
    then Adapter.modbus
    else Adapter.eybond (dongle_target.protocol == pi18))
uri-adapter_example = uri-adapter listener dongle {t = dongle_target} dongle_polled

targets-Distinct_example : Distinct (ids (build_child_targets listener one_dongle))
targets-Distinct_example = targets-Distinct listener one_dongle one_dongle-IsKeyed (refl, tt)

abbrev one_byte : List ℕ
one_byte = 0x51 ∷ []

read-forward_example :
    (frame : List ℕ) × (build_forward2device 7 one_byte 1 default_devcode ≡ some frame)
    × (read_frame (frame ++ (0xff ∷ []))
        ≡ some (
          header_of 7 default_devcode (length one_byte + 2) 1 fc_forward2device,
          one_byte,
          0xff ∷ [],
        ))
read-forward_example =
    read-forward 7 1 default_devcode one_byte (0xff ∷ []) (omega arith) (omega arith) (omega arith)
      (omega arith)

-- A dongle connects and tells its PN.
abbrev connected_one : Manager
connected_one = connect (new_manager []) (codes "10.0.0.7:1")

abbrev heartbeat : EyHeader
heartbeat = header_of 1 0 6 1 1

abbrev identified_one : Manager
identified_one = handle_frame noon connected_one 0 heartbeat (codes "W001")

connected_runs : is_in 0 connected_one.running ≡ true
unfolding connect
connected_runs = refl

identified_route : lookup (codes "W001") identified_one.by_pn ≡ some 0
unfolding handle_frame pn_of on_heartbeat connect ready_event_for
identified_route = refl

identified_reached : Reachable [] identified_one
identified_reached =
    step (step start (connects (codes "10.0.0.7:1")))
      (receives noon 0 heartbeat (codes "W001") connected_runs)

Reachable-route_example :
    (is_in 0 identified_one.sessions ≡ true) × ((session identified_one 0).pn ≡ codes "W001")
Reachable-route_example =
    Reachable-route [] identified_one (codes "W001") 0 identified_reached identified_route

Reachable-events_example :
    (lookup_or (codes "W001") false identified_one.ready
      ≡ contains (codes "W001") identified_one.by_pn)
    × (identified_one.any_ready ≡ not (is_empty identified_one.sessions))
Reachable-events_example = Reachable-events [] identified_one (codes "W001") identified_reached

abbrev first_session : ℕ
first_session = 0

disconnect-routes_example :
    (lookup (codes "W001") (disconnect noon identified_one first_session).by_pn
      ≡ some first_session)
    ↔ ((lookup (codes "W001") identified_one.by_pn ≡ some first_session)
        × (first_session ≢ first_session))
disconnect-routes_example =
    disconnect-routes [] noon identified_one first_session first_session (codes "W001")
      identified_reached

send-answer_example :
    let sent = begin_send identified_one 0 3 in
    let tid = (session sent 0).tid in
    let done = on_forward sent 0 tid (0x41 ∷ []) in
    (lookup 3 done.futures ≡ some (answered (0x41 ∷ [])))
    × (lookup 4 done.futures ≡ lookup 4 identified_one.futures)
    × ((on_forward done 0 tid (0x42 ∷ [])).futures ≡ done.futures)
send-answer_example = send-answer identified_one 0 3 4 (0x41 ∷ []) (0x42 ∷ []) (λ e. omega arith)

no_request : lookup 9 (session identified_one 0).pending ≡ none
unfolding handle_frame pn_of on_heartbeat connect
no_request = refl

other_tid : 9 ≢ next_tid (session identified_one 0).tid
unfolding handle_frame pn_of on_heartbeat connect next_tid
other_tid = λ e. omega arith

abbrev asked : Manager
asked = begin_send identified_one 0 3

asked_waits :
    (lookup 1 (session asked 0).pending ≡ some 3) × (lookup 3 asked.futures ≡ some waiting)
unfolding handle_frame pn_of on_heartbeat connect begin_send next_tid
asked_waits = (refl, refl)

disconnect-wakes_example : lookup 3 (disconnect noon asked 0).futures ≡ some aborted
disconnect-wakes_example = disconnect-wakes noon asked 0 1 3 asked_waits.0 asked_waits.1

-- An answer and a heartbeat.
abbrev two_packets : List Packet
two_packets =
    record {
      tid = 7;
      devcode = default_devcode;
      devaddr = 1;
      fcode = 4;
      payload = 0x41 ∷ 0x43 ∷ [];
    }
    ∷ record { tid = 8; devcode = 0; devaddr = 1; fcode = 1; payload = 0x57 ∷ [] }
    ∷ []

read_frames-stream_of_example : read_frames 2 (stream_of two_packets) ≡ map frame_of two_packets
read_frames-stream_of_example = read_frames-stream_of two_packets 2 (omega arith)
