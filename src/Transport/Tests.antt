-- ===== src/Transport/Tests.antt =====
-- Runs of the datagram codec and of the UDP wrapping (crates/nil-transport/src/connectip.rs and
-- udpip.rs) of the cascade (cascade.rs) and of
-- the selector (selector.rs) on small inputs.
use nil.Prelude.{◌≡◌, refl, ap, true, false, some, List, [], ◌∷◌, ◌++◌, Bytes, ok, err, arith}
use nil.Grant.{masque, amnezia_wg, wstunnel, reality}
use nil.Transport.Cascade.{
  Rung, rung, refused, connected, elapsed, session_not_found, transport, connect, CascadeTransport,
  new_transport, winner, transport_connect, close,
}
use nil.Transport.Selector.{SelectorTransport, clean, new_selector}
use nil.Transport.Selector.Fallback.{is_ok, transport_connect_survives}
use nil.Transport.Cascade.Lifetime.{Call, connecting, closing, run, transport_connect-close}
use nil.Transport.Cascade.Sessions.{connect_first}
use nil.Transport.UdpIp.{SocketAddrV4, wrap, unwrap}
use nil.Transport.UdpIp.Roundtrip.{unwrap-wrap}
use nil.Transport.ConnectIp.{ip, encode_datagram, decode_datagram}
use nil.Transport.ConnectIp.Roundtrip.{decode_datagram-encode_datagram}

abbrev packet : Bytes
packet = 0x45 ∷ 0 ∷ 0 ∷ 20 ∷ []

decode_datagram-encode_datagram_example :
    decode_datagram (encode_datagram 300 packet) ≡ ok (300, ip packet)
decode_datagram-encode_datagram_example = decode_datagram-encode_datagram 300 (omega arith) packet

abbrev guard_node : SocketAddrV4
guard_node = record {
  ip = record { octet0 = 192; octet1 = 0; octet2 = 2; octet3 = 1 };
  port = 51820;
}

abbrev exit_node : SocketAddrV4
exit_node = record { ip = record { octet0 = 10; octet1 = 80; octet2 = 0; octet3 = 11 }; port = 443 }

unwrap-wrap_example :
    unwrap (wrap guard_node exit_node packet) ≡ some (guard_node, exit_node, packet)
unwrap-wrap_example =
    unwrap-wrap guard_node exit_node packet (omega arith) (omega arith) (omega arith)

-- Two rungs that do not serve: one is refused, one is dead.
abbrev blocked : List Rung
blocked = rung masque (refused (transport 3)) true ∷ rung amnezia_wg (connected 7) false ∷ []

abbrev live : Rung
live = rung wstunnel (connected 8) true

abbrev unasked : List Rung
unasked = rung reality elapsed true ∷ []

connect_first_example : connect true (blocked ++ live ∷ unasked) ≡ (ok (live, 8), 7 ∷ [])
connect_first_example = connect_first true wstunnel 8 true unasked blocked refl refl

abbrev rungs : List Rung
rungs = blocked ++ live ∷ unasked

-- Another session opens and closes meanwhile.
abbrev meanwhile : List Call
meanwhile = connecting false rungs ∷ closing 1 ∷ []

abbrev opened_at : CascadeTransport
opened_at = run (transport_connect new_transport true rungs).1 meanwhile

abbrev closed_at : CascadeTransport
closed_at = run (close opened_at 0).1 meanwhile

transport_connect-close_example :
    ((transport_connect new_transport true rungs).0 ≡ ok 0)
    × (winner opened_at 0 ≡ ok (live, 8))
    × ((close opened_at 0).0 ≡ ok (live, 8))
    × (winner closed_at 0 ≡ err (session_not_found 0))
    × ((close closed_at 0).0 ≡ err (session_not_found 0))
transport_connect-close_example =
    transport_connect-close new_transport true rungs (live, 8) meanwhile meanwhile
      (ap (λ r. r.0) (connect_first true wstunnel 8 true unasked blocked refl refl)) (omega arith)
      refl (omega arith)

-- Only the tail serves: the fast rungs are blocked.
abbrev selector : SelectorTransport
selector = nil.Transport.Selector.new_transport (new_selector blocked (live ∷ []))

transport_connect_survives_example :
    is_ok (nil.Transport.Selector.transport_connect selector clean).0 ≡ true
transport_connect_survives_example = transport_connect_survives selector clean refl
