-- ===== src/Grant/Canonical/Layout.antt =====
-- Where the fields of an accepted token stand, and that they fill it (crates/nil-core/src/grant.rs).
use nil.Prelude.{
  ℕ, ◌+◌, ◌-◌, ◌≤◌, ◌≡◌, refl, sym, ap, ◌∙◌, some, List, [], ◌∷◌, ◌++◌, Bytes, length, take,
  take-length, arith,
}
use nil.Prelude.Words.{to_be_bytes}
use nil.Prelude.Slices.{get_range, concat}
use nil.Prelude.Cuts.{length-get_range, take-get_range, Tiled, take-Tiled}
use nil.Grant.{role_to_wire, transport_to_wire, tee_to_wire}
use nil.Grant.Wire.{magic, previous_hop_wire, next_hop_wire}
use nil.Grant.Parse.{ParsedGrant}
use nil.Grant.Verifier.{VerifiedGrant, into_verified}

-- The bytes that a grant is signed over, by its fields alone
abbrev pub signed_bytes : VerifiedGrant → Bytes
signed_bytes v = concat (
    magic
    ∷ v.key_id
    ∷ to_be_bytes 8 v.issued_at
    ∷ to_be_bytes 8 v.expires_at
    ∷ v.nonce
    ∷ (role_to_wire v.audience.role ∷ [])
    ∷ (transport_to_wire v.audience.transport ∷ [])
    ∷ (tee_to_wire v.audience.tee ∷ [])
    ∷ to_be_bytes 2 (length v.audience.realm)
    ∷ to_be_bytes 2 (length v.audience.node_id)
    ∷ v.audience.realm
    ∷ v.audience.node_id
    ∷ v.audience.measurement
    ∷ v.audience.tls_spki_sha256
    ∷ previous_hop_wire v.audience.previous_hop
    ∷ next_hop_wire v.audience.next_hop
    ∷ [])

-- Where the fields of a token stand
pub record IsLaidOut (token : Bytes) (signature_offset realm_end node_id_end : ℕ) (p : ParsedGrant)
    : Type 0 where
  pub key_id : get_range token 4 36 ≡ some p.key_id
  pub issued_at : get_range token 36 44 ≡ some (to_be_bytes 8 p.issued_at)
  pub expires_at : get_range token 44 52 ≡ some (to_be_bytes 8 p.expires_at)
  pub nonce : get_range token 52 84 ≡ some p.nonce
  pub role : get_range token 84 85 ≡ some (role_to_wire p.audience.role ∷ [])
  pub transport : get_range token 85 86 ≡ some (transport_to_wire p.audience.transport ∷ [])
  pub tee : get_range token 86 87 ≡ some (tee_to_wire p.audience.tee ∷ [])
  pub realm : get_range token 91 realm_end ≡ some p.audience.realm
  pub node_id : get_range token realm_end node_id_end ≡ some p.audience.node_id
  pub measurement : get_range token node_id_end (node_id_end + 48) ≡ some p.audience.measurement
  pub spki :
      get_range token (node_id_end + 48) (node_id_end + 48 + 32) ≡ some p.audience.tls_spki_sha256
  pub previous :
      get_range token (node_id_end + 48 + 32) (node_id_end + 48 + 32 + 5)
      ≡ some (previous_hop_wire p.audience.previous_hop)
  pub next :
      get_range token (node_id_end + 48 + 32 + 5) (node_id_end + 48 + 32 + 5 + 7)
      ≡ some (next_hop_wire p.audience.next_hop)
  pub signature : get_range token signature_offset (length token) ≡ some p.signature
  pub payload : p.signed_payload ≡ take signature_offset token

-- A pair, for a row of many
infixr 4 ◌▷◌
abbrev ◌▷◌ : {A B : Type 0} → A → B → A × B
a ▷ b = (a, b)

-- The parts behind the magic bytes, each with its end
abbrev parts : ℕ → ℕ → ParsedGrant → List (Bytes × ℕ)
parts re ne p =
    (p.key_id, 36)
    ∷ (to_be_bytes 8 p.issued_at, 44)
    ∷ (to_be_bytes 8 p.expires_at, 52)
    ∷ (p.nonce, 84)
    ∷ (role_to_wire p.audience.role ∷ [], 85)
    ∷ (transport_to_wire p.audience.transport ∷ [], 86)
    ∷ (tee_to_wire p.audience.tee ∷ [], 87)
    ∷ (to_be_bytes 2 (length p.audience.realm), 89)
    ∷ (to_be_bytes 2 (length p.audience.node_id), 91)
    ∷ (p.audience.realm, re)
    ∷ (p.audience.node_id, ne)
    ∷ (p.audience.measurement, ne + 48)
    ∷ (p.audience.tls_spki_sha256, ne + 48 + 32)
    ∷ (previous_hop_wire p.audience.previous_hop, ne + 48 + 32 + 5)
    ∷ (next_hop_wire p.audience.next_hop, ne + 48 + 32 + 5 + 7)
    ∷ []

module _ (token : Bytes) (so re ne : ℕ) (p : ParsedGrant) (laid : IsLaidOut token so re ne p) where
  pub IsLaidOut-Tiled :
      (realm_len node_id_len : ℕ)
      → get_range token 87 89 ≡ some (to_be_bytes 2 realm_len)
      → get_range token 89 91 ≡ some (to_be_bytes 2 node_id_len)
      → re ≡ 91 + realm_len
      → ne ≡ re + node_id_len
      → ne + 48 + 32 + 5 + 7 ≡ so
      → Tiled token 4 (parts re ne p) so
  IsLaidOut-Tiled realm_len node_id_len realm_at node_id_at e1 e2 e3 =
      let realm_wide : realm_len ≡ length p.audience.realm =
        omega (arith, length-get_range token p.audience.realm 91 re laid.realm) in
      let node_id_wide : node_id_len ≡ length p.audience.node_id =
        omega (arith, length-get_range token p.audience.node_id re ne laid.node_id) in
      laid.key_id
      ▷ laid.issued_at
      ▷ laid.expires_at
      ▷ laid.nonce
      ▷ laid.role
      ▷ laid.transport
      ▷ laid.tee
      ▷ (realm_at ∙ ap (λ n. some (to_be_bytes 2 n)) realm_wide)
      ▷ (node_id_at ∙ ap (λ n. some (to_be_bytes 2 n)) node_id_wide)
      ▷ laid.realm
      ▷ laid.node_id
      ▷ laid.measurement
      ▷ laid.spki
      ▷ laid.previous
      ▷ laid.next
      ▷ e3

  pub Tiled-canonical :
      take 4 token ≡ magic
      → so ≡ length token - 64
      → 64 ≤ length token
      → Tiled token 4 (parts re ne p) so
      → (p.signed_payload ≡ signed_bytes (into_verified p))
        × (token ≡ signed_bytes (into_verified p) ++ p.signature)
        × (length p.signature ≡ 64)
  Tiled-canonical starts e4 long tiled =
      let payload : take so token ≡ signed_bytes (into_verified p) =
        take-Tiled token 4 (parts re ne p) so tiled ∙ rw starts refl in
      (
        laid.payload ∙ payload,
        sym (take-length token)
            ∙ take-get_range token p.signature so (length token) laid.signature
            ∙ rw payload refl,
        omega (arith, length-get_range token p.signature so (length token) laid.signature),
      )
