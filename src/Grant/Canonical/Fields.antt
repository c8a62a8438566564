-- ===== src/Grant/Canonical/Fields.antt =====
-- What each read of `parse` says of the bytes (crates/nil-core/src/grant.rs): they are the ones that
-- `mint` writes for the value.
use nil.Prelude.{
  ℕ, ◌+◌, ◌≡◌, refl, sym, ap, ◌∙◌, true, Option, none, some, [], ◌∷◌, Bytes, length, Result, ok,
  err, ok_or, ok_or-eq-ok, >>=-eq-ok, arith,
}
use nil.Prelude.Words.{is_bytes, to_be_bytes, from_be_bytes, to_be_bytes-from_be_bytes}
use nil.Prelude.Slices.{get_range}
use nil.Prelude.Cuts.{length-get_range, all-get_range}
use nil.Grant.{
  GrantRole, entry, middle, exit, GrantTransport, masque, amnezia_wg, wstunnel, reality, Tee,
  sev_snp, tdx, role_to_wire, role_from_wire, transport_to_wire, transport_from_wire, tee_to_wire,
  tee_from_wire, GrantError, malformed, NodeIdentity, Audience, Ipv4Addr, SocketAddr, new_audience,
  new_node_identity, from_node_identity,
}
use nil.Grant.Wire.{previous_hop_wire, next_hop_wire}
use nil.Grant.Parse.{
  read, read_be, read_tag, read_str, first, or_malformed, parse_previous_hop, parse_next_hop,
}

role_to_wire-role_from_wire :
    (b : ℕ) (r : GrantRole) → role_from_wire b ≡ some r → b ≡ role_to_wire r
unfolding role_from_wire role_to_wire
role_to_wire-role_from_wire b entry h = ground arith
role_to_wire-role_from_wire b middle h = ground arith
role_to_wire-role_from_wire b exit h = ground arith

transport_to_wire-transport_from_wire :
    (b : ℕ) (t : GrantTransport) → transport_from_wire b ≡ some t → b ≡ transport_to_wire t
unfolding transport_from_wire transport_to_wire
transport_to_wire-transport_from_wire b masque h = ground arith
transport_to_wire-transport_from_wire b amnezia_wg h = ground arith
transport_to_wire-transport_from_wire b wstunnel h = ground arith
transport_to_wire-transport_from_wire b reality h = ground arith

tee_to_wire-tee_from_wire : (b : ℕ) (t : Tee) → tee_from_wire b ≡ some t → b ≡ tee_to_wire t
unfolding tee_from_wire tee_to_wire
tee_to_wire-tee_from_wire b sev_snp h = ground arith
tee_to_wire-tee_from_wire b tdx h = ground arith

module _ (token : Bytes) where
  pub read-get_range :
      (from to : ℕ) (bytes : Bytes)
      → read token from to ≡ ok bytes
      → get_range token from to ≡ some bytes
  read-get_range from to bytes h = ok_or-eq-ok (get_range token from to) malformed h

  pub read_str-get_range :
      (from to : ℕ) (bytes : Bytes)
      → read_str token from to ≡ ok bytes
      → get_range token from to ≡ some bytes
  read_str-get_range from to bytes h =
      let (found, reads, rest) = >>=-eq-ok (read token from to) _ h in
      let same : found ≡ bytes = ground arith in read-get_range from to found reads ∙ ap some same

  only : (tag : ℕ) (bytes : Bytes) → first bytes ≡ some tag → length bytes ≡ 1 → bytes ≡ tag ∷ []
  only tag [] h width = cc
  only tag (b ∷ []) h width = ground arith
  only tag (b ∷ c ∷ bytes) h width = absurd (omega arith)

  read_tag-get_range :
      {A : Type 0} (from_wire : ℕ → Option A) (to_wire : A → ℕ)
      → ((b : ℕ) (a : A) → from_wire b ≡ some a → b ≡ to_wire a)
      → (offset : ℕ) (a : A) → read_tag from_wire token offset ≡ ok a
      → get_range token offset (offset + 1) ≡ some (to_wire a ∷ [])
  read_tag-get_range from_wire to_wire inverse offset a h =
      let (bytes, reads, rest) = >>=-eq-ok (read token offset (offset + 1)) _ h in
      let (tag, heads, maps) = >>=-eq-ok (ok_or (first bytes) malformed) _ rest in
      let at = read-get_range offset (offset + 1) bytes reads in
      let width : length bytes ≡ 1 =
        length-get_range token bytes offset (offset + 1) at ∙ omega arith in
      let same : tag ≡ to_wire a = inverse tag a (ok_or-eq-ok (from_wire tag) malformed maps) in
      at
      ∙ ap some
          (only tag bytes (ok_or-eq-ok (first bytes) malformed heads) width ∙ ap (λ b. b ∷ []) same)

  pub role-get_range :
      (offset : ℕ) (r : GrantRole)
      → read_tag role_from_wire token offset ≡ ok r
      → get_range token offset (offset + 1) ≡ some (role_to_wire r ∷ [])
  role-get_range = read_tag-get_range role_from_wire role_to_wire role_to_wire-role_from_wire

  pub transport-get_range :
      (offset : ℕ) (t : GrantTransport)
      → read_tag transport_from_wire token offset ≡ ok t
      → get_range token offset (offset + 1) ≡ some (transport_to_wire t ∷ [])
  transport-get_range =
      read_tag-get_range transport_from_wire transport_to_wire transport_to_wire-transport_from_wire

  pub tee-get_range :
      (offset : ℕ) (t : Tee)
      → read_tag tee_from_wire token offset ≡ ok t
      → get_range token offset (offset + 1) ≡ some (tee_to_wire t ∷ [])
  tee-get_range = read_tag-get_range tee_from_wire tee_to_wire tee_to_wire-tee_from_wire

  pub read_be-get_range :
      (width offset v : ℕ)
      → is_bytes token ≡ true
      → read_be width token offset ≡ ok v
      → get_range token offset (offset + width) ≡ some (to_be_bytes width v)
  read_be-get_range width offset v octets h =
      let (bytes, reads, result) = >>=-eq-ok (read token offset (offset + width)) _ h in
      let at = read-get_range offset (offset + width) bytes reads in
      let same : from_be_bytes bytes ≡ v = ground arith in
      let wide : length bytes ≡ width =
        length-get_range token bytes offset (offset + width) at ∙ omega arith in
      at
      ∙ ap some (
          sym
            (to_be_bytes-from_be_bytes width bytes wide (all-get_range _ token bytes _ _ at octets))
          ∙ ap (to_be_bytes width) same)

pub parse_previous_hop-wire :
    (wire : Bytes) (hop : Option Ipv4Addr)
    → parse_previous_hop wire ≡ ok hop
    → wire ≡ previous_hop_wire hop
parse_previous_hop-wire (tag ∷ a ∷ b ∷ c ∷ d ∷ []) none h = ground arith
parse_previous_hop-wire (tag ∷ a ∷ b ∷ c ∷ d ∷ []) (some ip) h = ground arith
parse_previous_hop-wire [] hop h = cc
parse_previous_hop-wire (_ ∷ []) hop h = cc
parse_previous_hop-wire (_ ∷ _ ∷ []) hop h = cc
parse_previous_hop-wire (_ ∷ _ ∷ _ ∷ []) hop h = cc
parse_previous_hop-wire (_ ∷ _ ∷ _ ∷ _ ∷ []) hop h = cc
parse_previous_hop-wire (_ ∷ _ ∷ _ ∷ _ ∷ _ ∷ _ ∷ _) hop h = cc

pub parse_next_hop-wire :
    (wire : Bytes) (hop : Option SocketAddr)
    → is_bytes wire ≡ true
    → parse_next_hop wire ≡ ok hop
    → wire ≡ next_hop_wire hop
parse_next_hop-wire (tag ∷ a ∷ b ∷ c ∷ d ∷ hi ∷ lo ∷ []) none octets h = ground arith
parse_next_hop-wire (tag ∷ a ∷ b ∷ c ∷ d ∷ hi ∷ lo ∷ []) (some endpoint) octets h =
    let port : ℕ = from_be_bytes (hi ∷ lo ∷ []) in
    let back : to_be_bytes 2 port ≡ hi ∷ lo ∷ [] =
      to_be_bytes-from_be_bytes 2 (hi ∷ lo ∷ []) refl (ground arith) in
    ground (arith, back)
parse_next_hop-wire [] hop octets h = cc
parse_next_hop-wire (_ ∷ []) hop octets h = cc
parse_next_hop-wire (_ ∷ _ ∷ []) hop octets h = cc
parse_next_hop-wire (_ ∷ _ ∷ _ ∷ []) hop octets h = cc
parse_next_hop-wire (_ ∷ _ ∷ _ ∷ _ ∷ []) hop octets h = cc
parse_next_hop-wire (_ ∷ _ ∷ _ ∷ _ ∷ _ ∷ []) hop octets h = cc
parse_next_hop-wire (_ ∷ _ ∷ _ ∷ _ ∷ _ ∷ _ ∷ []) hop octets h = cc
parse_next_hop-wire (_ ∷ _ ∷ _ ∷ _ ∷ _ ∷ _ ∷ _ ∷ _ ∷ _) hop octets h = cc

or_malformed-eq-ok :
    {A : Type 0} (r : Result A GrantError) {a : A} → or_malformed r ≡ ok a → r ≡ ok a
or_malformed-eq-ok (ok a) h = h
or_malformed-eq-ok (err e) h = cc

pub new_audience-eq-ok :
    (node : NodeIdentity) (previous : Option Ipv4Addr) (next : Option SocketAddr)
    (audience : Audience)
    → or_malformed (new_audience node previous next) ≡ ok audience
    → audience ≡ record { node = node; previous_hop = previous; next_hop = next }
unfolding new_audience new_node_identity from_node_identity
new_audience-eq-ok node previous next audience h =
    let (checked, names, policy) =
      >>=-eq-ok (new_node_identity node) _
        (or_malformed-eq-ok (new_audience node previous next) h) in
    let same : checked ≡ node = ground arith in
    let built : audience ≡ record { node = checked; previous_hop = previous; next_hop = next } =
      ground arith in
    built ∙ ap (λ n. record { node = n; previous_hop = previous; next_hop = next }) same
