-- ===== src/Grant/Tests.antt =====
-- Runs of the grant codec, the verifier and the replay cache (crates/nil-core/src/grant.rs,
-- crates/nil-node/src/grant_replay.rs) on small inputs, with a signature scheme of constant bytes.
use nil.Prelude.{
  ℕ, ◌+◌, ◌-◌, ◌<◌, ◌≡◌, ◌≢◌, refl, true, false, none, some, List, [], ◌∷◌, ◌++◌, Bytes, codes,
  length, replicate, ok, err, ltb, leb, ◌==◌, if◌then◌else◌, arith, bytes_eq, pair_eq,
}
use nil.Prelude.Dict.{get, insert, remove, get-empty}
use nil.Prelude.Words.{is_bytes, to_be_bytes}
use nil.Prelude.Slices.{concat}
use nil.Grant.{
  entry, masque, sev_snp, SocketAddr, NodeIdentity, Audience, new_audience,
  validate_named_identifier, expired, not_yet_valid,
}
use nil.Grant.Wire.{Crypto, IsCrypto, Grant, mint, payload_chunks, key_id_for_public_key}
use nil.Grant.Parse.{parse}
use nil.Grant.Verifier.{
  VerifiedGrant, Keys, verify, verify_for_node, new_verifier, add_all, add_public_key,
}
use nil.Grant.Roundtrip.{WellSized, parse-mint}
use nil.Grant.Checks.{IsAuthentic, verify-IsAuthentic, verify-mint}
use nil.Grant.Trust.{
  EachTrusted, EachHeld, new_verifier-IsTrusted, verify_for_node-IsAuthentic,
  verify_for_node-verify,
}
use nil.Grant.ReplayCache.{Cache, consume, run, prune, prune_loop}
use nil.Grant.ReplayCache.SingleUse.{consume_once}
use nil.Grant.ReplayCache.Capacity.{IsValid, run-IsValid}

abbrev zeros : ℕ → Bytes
zeros n = replicate n 0

abbrev constant : Crypto
constant = record {
  sha256 = λ m. zeros 32;
  public_key = λ seed. seed;
  sign = λ seed m. zeros 64;
  is_public_key = λ key. length key == 32;
  is_weak = λ key. false;
  verify_strict = λ key m s. length s == 64;
  is_signature = λ s. length s == 64;
}

constant-IsCrypto : IsCrypto constant
constant-IsCrypto = record {
  digest_len = λ m. refl;
  signature_len = λ seed m. refl;
  signature_parses = λ s h. ground (arith, h);
  signature_verifies = λ seed m. refl;
}

abbrev seed : Bytes
seed = replicate 32 7

abbrev node : NodeIdentity
node = record {
  realm = codes "prod";
  node_id = codes "n1";
  role = entry;
  transport = masque;
  tee = sev_snp;
  measurement = zeros 48;
  tls_spki_sha256 = zeros 32;
}

abbrev endpoint : SocketAddr
endpoint = record { ip = record { a = 10; b = 0; c = 0; d = 2 }; port = 443 }

abbrev audience : Audience
audience = record { node = node; previous_hop = none; next_hop = some endpoint }

audience-WellSized : WellSized audience (zeros 32)
audience-WellSized = record {
  measurement_len = refl;
  spki_len = refl;
  nonce_len = refl;
  port_fits = λ e h. ground (arith, h);
}

abbrev payload : Bytes
payload = concat (payload_chunks constant seed audience (zeros 32) 1000 1300)

abbrev minted : Grant
minted = record { token = payload ++ zeros 64; nonce = zeros 32 }

minted_lem : mint constant seed audience (zeros 32) 300 0 1000 ≡ ok minted
unfolding mint validate_named_identifier
minted_lem = refl

abbrev keys : Keys
keys = (key_id_for_public_key constant seed, seed) ∷ []

parse-mint_example :
    parse constant minted.token
    ≡ ok (record {
      key_id = key_id_for_public_key constant seed;
      issued_at = 1000;
      expires_at = 1300;
      nonce = zeros 32;
      audience = audience;
      signed_payload = payload;
      signature = zeros 64;
    })
unfolding new_audience validate_named_identifier
parse-mint_example =
    parse-mint constant constant-IsCrypto seed node none (some endpoint) audience (zeros 32) 300 0
      1000 minted audience-WellSized refl minted_lem

verify-mint_example : verify constant minted.token keys audience 969 ≡ (
    if ltb 969 (1000 + 300)
    then (if leb (1000 - 969) 30
        then ok (record {
          key_id = key_id_for_public_key constant seed;
          issued_at = 1000;
          expires_at = 1000 + 300;
          nonce = zeros 32;
          audience = audience;
        })
        else err not_yet_valid)
    else err expired)
unfolding new_audience get validate_named_identifier key_id_for_public_key
verify-mint_example =
    verify-mint constant constant-IsCrypto seed node none (some endpoint) audience (zeros 32) 300 0
      1000 minted keys 969 audience-WellSized refl minted_lem refl

abbrev grant : VerifiedGrant
grant = record {
  key_id = key_id_for_public_key constant seed;
  issued_at = 1000;
  expires_at = 1300;
  nonce = zeros 32;
  audience = audience;
}

accepted : verify constant minted.token keys audience 1100 ≡ ok grant
unfolding new_audience get validate_named_identifier key_id_for_public_key
accepted =
    verify-mint constant constant-IsCrypto seed node none (some endpoint) audience (zeros 32) 300 0
      1000 minted keys 1100 audience-WellSized refl minted_lem refl

minted_octets : is_bytes minted.token ≡ true
unfolding to_be_bytes key_id_for_public_key nil.Grant.role_to_wire nil.Grant.transport_to_wire
    nil.Grant.tee_to_wire
minted_octets = refl

verify-IsAuthentic_example :
    IsAuthentic constant minted.token keys 1100 grant × (grant.audience ≡ audience)
verify-IsAuthentic_example =
    verify-IsAuthentic constant minted.token keys audience 1100 grant minted_octets accepted

abbrev other_grant : VerifiedGrant
other_grant = record grant { nonce = replicate 32 1; expires_at = 1200 }

abbrev attempts : List (VerifiedGrant × ℕ)
attempts = (other_grant, 1110) ∷ (grant, 1120) ∷ (other_grant, 1250) ∷ []

abbrev cache : Cache
cache = record { process_started_at = 900; capacity = 2; entries = []; expirations = [] }

first_use : (consume cache grant 1100).0 ≡ ok tt
unfolding get consume prune prune_loop
first_use = refl

consume_once_example : (consume (run (consume cache grant 1100).1 attempts) grant 1280).0 ≢ ok tt
consume_once_example =
    consume_once cache grant 1100 attempts 1280 first_use
      (omega arith, (omega arith, (omega arith, tt)))

cache-IsValid : IsValid cache
cache-IsValid = record {
  bounded = omega arith;
  synced = record { queued = λ k e h. ground (arith, h, get-empty {V = ℕ} k); sorted = tt };
}

run-IsValid_example : IsValid (run cache attempts)
run-IsValid_example = run-IsValid cache attempts cache-IsValid

trusting : new_verifier constant (seed ∷ []) ≡ ok keys
unfolding new_verifier add_all add_public_key get insert remove
trusting = refl

new_verifier-IsTrusted_example :
    (0 < length keys) × EachTrusted constant (seed ∷ []) keys × EachHeld constant (seed ∷ []) keys
new_verifier-IsTrusted_example = new_verifier-IsTrusted constant (seed ∷ []) keys trusting

accepted_here : verify_for_node constant minted.token keys node 1100 ≡ ok grant
accepted_here = verify_for_node-verify constant minted.token keys audience 1100 grant accepted

verify_for_node-verify_example : verify_for_node constant minted.token keys node 1100 ≡ ok grant
verify_for_node-verify_example =
    verify_for_node-verify constant minted.token keys audience 1100 grant accepted

verify_for_node-IsAuthentic_example :
    IsAuthentic constant minted.token keys 1100 grant × (grant.audience.node ≡ node)
verify_for_node-IsAuthentic_example =
    verify_for_node-IsAuthentic constant minted.token keys node 1100 grant minted_octets
      accepted_here
