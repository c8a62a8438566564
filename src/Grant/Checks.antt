-- ===== src/Grant/Checks.antt =====
-- What verification accepts and refuses (crates/nil-core/src/grant.rs).
use nil.Prelude.{
  length, ◌++◌, ℕ, ◌+◌, ◌-◌, ◌≤◌, ◌<◌, ◌≡◌, refl, sym, true, Option, some, Bytes, arith, ok, err,
  ltb, leb, if◌then◌else◌, bytes_eq, ap, ◌∙◌, >>=-eq-ok, ok_or-eq-ok, ok_or, guard,
}
use nil.Prelude.Dict.{get}
use nil.Prelude.Slices.{concat}
use nil.Grant.{
  Audience, NodeIdentity, Ipv4Addr, SocketAddr, expired, not_yet_valid, wrong_audience, unknown_key,
  new_audience, Audience-discrete,
}
use nil.Grant.Wire.{Crypto, IsCrypto, Grant, mint, key_id_for_public_key, payload_chunks}
use nil.Grant.Parse.{ParsedGrant, parse}
use nil.Grant.Verifier.{Keys, VerifiedGrant, into_verified, verify_authentic, verify, is_decided}
use nil.Prelude.Words.{is_bytes}
use nil.Grant.Canonical.Layout.{signed_bytes}
use nil.Grant.Canonical.{parse-canonical}
use nil.Grant.Roundtrip.{WellSized, parse-mint, mint_lem}

-- What stands behind an accepted token: it is the bytes of what is returned and a signature, and a
-- trusted key signed just these bytes.
pub record IsAuthentic (c : Crypto) (token : Bytes) (keys : Keys) (now : ℕ) (v : VerifiedGrant)
    : Type 0 where
  pub key : Bytes
  pub signature : Bytes
  pub trusted : get keys v.key_id ≡ some key
  pub written : token ≡ signed_bytes v ++ signature
  pub signature_len : length signature ≡ 64
  pub signed : c.verify_strict key (signed_bytes v) signature ≡ true
  pub lives : now < v.expires_at
  pub lifetime : (v.issued_at < v.expires_at) × (v.expires_at ≤ v.issued_at + 600)
  pub issued : v.issued_at ≤ now + 30

pub verify_authentic-IsAuthentic :
    (c : Crypto) (token : Bytes) (keys : Keys) (now : ℕ) (p : ParsedGrant)
    → is_bytes token ≡ true
    → verify_authentic c token keys now ≡ ok p
    → IsAuthentic c token keys now (into_verified p)
unfolding verify_authentic
verify_authentic-IsAuthentic c token keys now p octets h =
    let (q, parses, rest) = >>=-eq-ok (parse c token) _ h in
    let (k, at, checks) = >>=-eq-ok (ok_or (get keys q.key_id) unknown_key) _ rest in
    let same : q ≡ p = ground arith in
    let (payload, whole, width) = parse-canonical c token octets p (parses ∙ ap ok same) in
    let verified : c.verify_strict k p.signed_payload p.signature ≡ true = ground arith in
    record {
      key = k;
      signature = p.signature;
      trusted =
          sym (ap (λ (x : ParsedGrant). get keys x.key_id) same)
          ∙ ok_or-eq-ok (get keys q.key_id) unknown_key at;
      written = whole;
      signature_len = width;
      signed = ap (λ m. c.verify_strict k m p.signature) (sym payload) ∙ verified;
      lives = ground arith;
      lifetime = (ground arith, ground arith);
      issued = ground arith;
    }

pub is_decided-yes : {P : Type 0} (d : Dec P) → is_decided d ≡ true → P
is_decided-yes (yes p) h = p
is_decided-yes (no p) h = cc

-- A token, a string of numbers below 256, that is accepted is, byte for byte, the wire form of the
-- grant that is returned, followed by a signature of 64 bytes, over exactly those bytes, that
-- verifies under a trusted key, the one that the grant's key identifier names. The grant is not yet expired, lives 1 to 600 seconds and was
-- issued at most 30 seconds ahead of the verifier's clock, and its audience, neighbours included, is
-- the expected one.
pub verify-IsAuthentic :
    (c : Crypto) (token : Bytes) (keys : Keys) (expected : Audience) (now : ℕ) (v : VerifiedGrant)
    → is_bytes token ≡ true
    → verify c token keys expected now ≡ ok v
    → IsAuthentic c token keys now v × (v.audience ≡ expected)
unfolding verify
verify-IsAuthentic c token keys expected now v octets h =
    let (p, authentic, rest) = >>=-eq-ok (verify_authentic c token keys now) _ h in
    let (_, decided, result) =
      >>=-eq-ok (guard (is_decided (Audience-discrete p.audience expected)) wrong_audience) _
        rest in
    let same : into_verified p ≡ v = ground arith in
    (
      rw (← same) (verify_authentic-IsAuthentic c token keys now p octets authentic),
      rw (← same) (is_decided-yes (Audience-discrete p.audience expected) (ground arith)),
    )

Audience-decided : (a : Audience) → is_decided (Audience-discrete a a) ≡ true
Audience-decided a = elim (Audience-discrete a a) as (λ d. is_decided d ≡ true) [
  | yes e ↦ refl
  | no n ↦ absurd (n refl)
]

-- A minted grant, shown to a verifier that holds its key and to the audience that it names, is
-- accepted exactly from 30 seconds before its issue up to, and not at, its expiry: later it is
-- expired, and earlier it is not yet valid.
pub verify-mint :
    (c : Crypto) (laws : IsCrypto c) (seed : Bytes) (node : NodeIdentity)
    (previous : Option Ipv4Addr) (next : Option SocketAddr) (audience : Audience) (nonce : Bytes)
    (ttl nanos now : ℕ) (g : Grant) (keys : Keys) (later : ℕ)
    → WellSized audience nonce
    → new_audience node previous next ≡ ok audience
    → mint c seed audience nonce ttl nanos now ≡ ok g
    → get keys (key_id_for_public_key c (c.public_key seed)) ≡ some (c.public_key seed)
    → verify c g.token keys audience later ≡ (
        if ltb later (now + ttl)
        then (if leb (now - later) 30
            then ok (record {
              key_id = key_id_for_public_key c (c.public_key seed);
              issued_at = now;
              expires_at = now + ttl;
              nonce = nonce;
              audience = audience;
            })
            else err not_yet_valid)
        else err expired)
unfolding verify verify_authentic
verify-mint c laws seed node previous next audience nonce ttl nanos now g keys later sized built
      made held =
    let (_, low, high, _) = mint_lem c seed audience nonce ttl nanos now g made in
    let parsed =
      parse-mint c laws seed node previous next audience nonce ttl nanos now g sized built made in
    let genuine =
      laws.signature_verifies seed
        (concat (payload_chunks c seed audience nonce now (now + ttl))) in
    ground (arith, parsed, held, genuine, low, high, Audience-decided audience)
