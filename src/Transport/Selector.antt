-- ===== src/Transport/Selector.antt =====
-- The selector of transports, crates/nil-transport/src/selector.rs: the order of the rungs by the
-- verdict of the network probe, and the transport over the cascade that it builds. The verdict and
-- the seed of the connection identities are inputs.
pub mod Fallback
use nil.Prelude.{
  ℕ, ◌+◌, ◌%◌, ◌^◌, Bool, true, false, Option, none, some, List, [], ◌∷◌, ◌++◌, Bytes, Result, ok,
  err, replicate, nat_eq, ◌-◌,
}
use nil.Prelude.Words.{to_be_bytes}
use nil.Prelude.Dict.{get, insert, remove}
use nil.Grant.{GrantTransport}
use nil.Transport.Cascade.{Error, session_not_found, Rung, rung, connect}

pub data PathClass : Type 0 where
  clean hostile unknown : PathClass

-- `PathClass::coerce`
unfoldable pub coerce : PathClass → PathClass
coerce clean = clean
coerce hostile = hostile
coerce unknown = hostile

-- `ProbeOutcome`
pub data ProbeOutcome : Type 0 where
  reply silent unsendable : ProbeOutcome

-- `classify` of `UdpReachabilityProbe`
unfoldable pub classify : ProbeOutcome → PathClass
classify reply = clean
classify silent = hostile
classify unsendable = unknown

-- `Selector`, without its probe
pub record Selector : Type 0 where
  pub fast : List Rung
  pub resistant : List Rung
  pub last_class : Option PathClass

-- `Selector::new`
abbrev pub new_selector : List Rung → List Rung → Selector
new_selector fast resistant = record { fast = fast; resistant = resistant; last_class = none }

-- The rungs of `Selector::build_cascade`, by the class
abbrev pub lead : PathClass → List Rung → List Rung
lead clean fast = fast
lead hostile fast = []
lead unknown fast = []

-- `Selector::build_cascade`: the rungs of the cascade, which probes for life, and the next state
unfoldable pub build_cascade : Selector → PathClass → List Rung × Selector
build_cascade s verdict =
    (lead (coerce verdict) s.fast ++ s.resistant, record s { last_class = some (coerce verdict) })

-- `PROBE_DATAGRAM_LEN`
abbrev pub probe_datagram_len : ℕ
probe_datagram_len = 1200

-- `quic_version_negotiation_trigger`, with the seed of the process and `PROBE_NONCE` before the
-- call: the datagram and the next nonce
unfoldable pub quic_version_negotiation_trigger : ℕ → ℕ → Bytes × ℕ
quic_version_negotiation_trigger base n =
    let dcid = to_be_bytes 8 ((base + n) % 2 ^ 64) in
    let scid = to_be_bytes 8 (((base + n) % 2 ^ 64 + 1) % 2 ^ 64) in
    (
      0xc3 ∷ 0x1a ∷ 0x2a ∷ 0x3a ∷ 0x4a ∷ 8 ∷ dcid
          ++ 8 ∷ scid
          ++ replicate (probe_datagram_len - 23) 0,
      (n + 2) % 2 ^ 64,
    )

-- `SelectorTransport`
pub record SelectorTransport : Type 0 where
  pub selector : Selector
  pub winners : List (ℕ × (Rung × ℕ))
  pub next_id : ℕ

-- `SelectorTransport::new`
abbrev pub new_transport : Selector → SelectorTransport
new_transport s = record { selector = s; winners = []; next_id = 0 }

abbrev or_not_found : ℕ → Option (Rung × ℕ) → Result (Rung × ℕ) Error
or_not_found id none = err (session_not_found id)
or_not_found id (some won) = ok won

-- `SelectorTransport::winner`
unfoldable pub winner : SelectorTransport → ℕ → Result (Rung × ℕ) Error
winner t id = or_not_found id (get t.winners id)

-- `SelectorTransport::winning_kind`
unfoldable pub winning_kind : SelectorTransport → ℕ → Option GrantTransport
winning_kind t id = elim (winner t id) [
  | ok (rung kind attempt alive, session) ↦ some kind
  | err e ↦ none
]

-- What `connect` of `SelectorTransport` does with the answer of the cascade
unfoldable pub settle :
    SelectorTransport → Result (Rung × ℕ) Error → Result ℕ Error × SelectorTransport
settle t (err e) = (err e, t)
settle t (ok won) = (
  ok t.next_id,
  record t { winners = insert t.winners t.next_id won; next_id = (t.next_id + 1) % 2 ^ 64 },
)

-- `connect` of `SelectorTransport`: the identity of the session and the next state
unfoldable pub transport_connect :
    SelectorTransport → PathClass → Result ℕ Error × SelectorTransport
transport_connect t verdict =
    let built = build_cascade t.selector verdict in
    settle (record t { selector = built.1 }) (connect true built.0).0

-- `close` of `SelectorTransport`: the winner whose session is closed, and the next state
unfoldable pub close : SelectorTransport → ℕ → Result (Rung × ℕ) Error × SelectorTransport
close t id = (winner t id, record t { winners = remove t.winners id })
