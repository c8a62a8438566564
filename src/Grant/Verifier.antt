-- ===== src/Grant/Verifier.antt =====
-- `GrantVerifier` and the two verification entry points of crates/nil-core/src/grant.rs.
use nil.Prelude.{
  ℕ, ◌-◌, Bool, true, false, ◌&&◌, Option, none, some, List, [], ◌∷◌, Bytes, length, ltb, leb,
  Result, ok, err, ◌>>=◌, ◌>>◌, guard, ok_or, bytes_eq, bytes_beq, if◌then◌else◌,
}
use nil.Prelude.Dict.{get, insert}
use nil.Grant.{
  Audience, NodeIdentity, GrantError, invalid_public_key, no_verification_keys, key_id_collision,
  unknown_key, bad_signature, invalid_lifetime, expired, not_yet_valid, wrong_audience,
  max_grant_ttl_secs, max_grant_clock_skew_secs, Audience-discrete, NodeIdentity-discrete,
}
use nil.Grant.Wire.{Crypto, key_id_for_public_key}
use nil.Grant.Parse.{ParsedGrant, parse}

-- `VerifiedGrant`
pub record VerifiedGrant : Type 0 where
  pub key_id : Bytes
  pub issued_at : ℕ
  pub expires_at : ℕ
  pub nonce : Bytes
  pub audience : Audience

-- `ParsedGrant::into_verified`
abbrev pub into_verified : ParsedGrant → VerifiedGrant
into_verified p = record {
  key_id = p.key_id;
  issued_at = p.issued_at;
  expires_at = p.expires_at;
  nonce = p.nonce;
  audience = p.audience;
}

-- The map of `GrantVerifier`, from key identifiers to public keys.
abbrev pub Keys : Type 0
Keys = List (Bytes × Bytes)

abbrev pub is_decided {ℓ} : {P : Type ℓ} → Dec P → Bool
is_decided (yes p) = true
is_decided (no p) = false

module _ (c : Crypto) where
  abbrev pub insert_key : Keys → Bytes → Bytes → Option Bytes → Result Bytes GrantError × Keys
  insert_key keys key_id public_key none = (ok key_id, insert keys key_id public_key)
  insert_key keys key_id public_key (some existing) =
      if bytes_beq existing public_key then (ok key_id, keys) else (err key_id_collision, keys)

  -- `GrantVerifier::add_public_key`
  unfoldable pub add_public_key : Keys → Bytes → Result Bytes GrantError × Keys
  add_public_key keys public_key =
      if c.is_public_key public_key
      then (if c.is_weak public_key
          then (err invalid_public_key, keys)
          else insert_key keys (key_id_for_public_key c public_key) public_key
              (get keys (key_id_for_public_key c public_key)))
      else (err invalid_public_key, keys)

  abbrev pub add_more :
      (Keys → Result Keys GrantError) → Result Bytes GrantError × Keys → Result Keys GrantError
  add_more rest (ok key_id, keys) = rest keys
  add_more rest (err e, keys) = err e

  unfoldable pub add_all : List Bytes → Keys → Result Keys GrantError
  add_all [] keys = ok keys
  add_all (k ∷ ks) keys = add_more (add_all ks) (add_public_key keys k)

  -- `GrantVerifier::new`
  unfoldable pub new_verifier : List Bytes → Result Keys GrantError
  unfolding add_all
  new_verifier public_keys = do
    keys ← add_all public_keys []
    guard (leb 1 (length keys)) no_verification_keys
    ok keys

  -- `verify_authentic`
  unfoldable pub verify_authentic : Bytes → Keys → ℕ → Result ParsedGrant GrantError
  verify_authentic token keys now = do
    parsed ← parse c token
    verifying_key ← ok_or (get keys parsed.key_id) unknown_key
    guard (c.verify_strict verifying_key parsed.signed_payload parsed.signature) bad_signature
    guard (leb parsed.issued_at parsed.expires_at) invalid_lifetime
    let lifetime = parsed.expires_at - parsed.issued_at
    guard (leb 1 lifetime && leb lifetime max_grant_ttl_secs) invalid_lifetime
    guard (ltb now parsed.expires_at) expired
    guard (leb (parsed.issued_at - now) max_grant_clock_skew_secs) not_yet_valid
    ok parsed

  -- `verify`
  unfoldable pub verify : Bytes → Keys → Audience → ℕ → Result VerifiedGrant GrantError
  verify token keys expected_audience now = do
    parsed ← verify_authentic token keys now
    guard (is_decided (Audience-discrete parsed.audience expected_audience)) wrong_audience
    ok (into_verified parsed)

  -- `verify_for_node`
  unfoldable pub verify_for_node : Bytes → Keys → NodeIdentity → ℕ → Result VerifiedGrant GrantError
  verify_for_node token keys expected_node now = do
    parsed ← verify_authentic token keys now
    guard (is_decided (NodeIdentity-discrete parsed.audience.node expected_node)) wrong_audience
    ok (into_verified parsed)
