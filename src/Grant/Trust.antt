-- ===== src/Grant/Trust.antt =====
-- What a verifier trusts, and the grants a node accepts from it (crates/nil-core/src/grant.rs).
use nil.Prelude.{
  ℕ, ◌<◌, ◌≡◌, ◌⊎◌, refl, ap, ◌∙◌, true, false, none, some, List, [], ◌∷◌, Bytes, length, Result,
  ok, err, guard, bytes_eq, bytes_beq_iff, bytes_beq_refl, arith, >>=-eq-ok, inl, inr,
}
use nil.Prelude.Dict.{get, insert, remove, get-insert}
use nil.Grant.{
  GrantError, wrong_audience, Audience, Audience-discrete, NodeIdentity, NodeIdentity-discrete,
}
use nil.Prelude.Words.{is_bytes}
use nil.Grant.Wire.{Crypto, key_id_for_public_key}
use nil.Grant.Verifier.{
  VerifiedGrant, Keys, into_verified, is_decided, add_public_key, add_all, add_more, new_verifier,
  verify_authentic, verify, verify_for_node,
}
use nil.Grant.Checks.{IsAuthentic, verify_authentic-IsAuthentic, is_decided-yes}

abbrev pub IsIn : Bytes → List Bytes → Type 0
IsIn k [] = ⊥
IsIn k (j ∷ js) = (k ≡ j) ⊎ IsIn k js

-- A key stands under its own identifier, parses, is not weak, and is one of the given keys.
pub record IsTrusted (c : Crypto) (given : List Bytes) (key_id key : Bytes) : Type 0 where
  pub own_id : key_id ≡ key_id_for_public_key c key
  pub is_key : c.is_public_key key ≡ true
  pub is_strong : c.is_weak key ≡ false
  pub was_given : IsIn key given

-- Every entry of the verifier is trusted.
abbrev pub EachTrusted : Crypto → List Bytes → Keys → Type 0
EachTrusted c given [] = Unit
EachTrusted c given ((key_id, key) ∷ keys) = IsTrusted c given key_id key × EachTrusted c given keys

-- Every key stands in the verifier under its identifier.
abbrev pub EachHeld : Crypto → List Bytes → Keys → Type 0
EachHeld c [] keys = Unit
EachHeld c (k ∷ ks) keys = (get keys (key_id_for_public_key c k) ≡ some k) × EachHeld c ks keys

abbrev EachIn : List Bytes → List Bytes → Type 0
EachIn [] given = Unit
EachIn (k ∷ ks) given = IsIn k given × EachIn ks given

EachIn-more : (j : Bytes) (ks given : List Bytes) → EachIn ks given → EachIn ks (j ∷ given)
EachIn-more j [] given h = tt
EachIn-more j (k ∷ ks) given h = (inr h.0, EachIn-more j ks given h.1)

EachIn-refl : (ks : List Bytes) → EachIn ks ks
EachIn-refl [] = tt
EachIn-refl (k ∷ ks) = (inl refl, EachIn-more k ks ks (EachIn-refl ks))

module _ (c : Crypto) where
  -- What a call that adds a key does to the entries
  add_public_key-ok :
      (keys next : Keys) (k got : Bytes)
      → add_public_key c keys k ≡ (ok got, next)
      → (c.is_public_key k ≡ true)
        × (c.is_weak k ≡ false)
        × (((next ≡ keys) × (get keys (key_id_for_public_key c k) ≡ some k))
            ⊎ ((next ≡ insert keys (key_id_for_public_key c k) k)
                × (get keys (key_id_for_public_key c k) ≡ none)))
  unfolding add_public_key
  add_public_key-ok keys next k got h = grind (arith, bytes_beq_iff)

  remove-EachTrusted :
      (given : List Bytes) (keys : Keys) (key_id : Bytes)
      → EachTrusted c given keys
      → EachTrusted c given (remove keys key_id)
  unfolding remove
  remove-EachTrusted given [] key_id h = tt
  remove-EachTrusted given ((j, key) ∷ keys) key_id h =
      ground (arith, h, remove-EachTrusted given keys key_id h.1)

  add_public_key-EachTrusted :
      (given : List Bytes) (keys next : Keys) (k got : Bytes)
      → add_public_key c keys k ≡ (ok got, next)
      → IsIn k given
      → EachTrusted c given keys
      → EachTrusted c given next
  unfolding insert
  add_public_key-EachTrusted given keys next k got h listed each =
      let (is_key, strong, added) = add_public_key-ok keys next k got h in
      elim added [
        | inl (same, held) ↦ rw same each
        | inr (same, fresh) ↦ rw same (
          record { own_id = refl; is_key = is_key; is_strong = strong; was_given = listed },
          remove-EachTrusted given keys (key_id_for_public_key c k) each,
        )
      ]

  -- The key is held afterwards, and so is every key that was.
  add_public_key-get :
      (keys next : Keys) (k got : Bytes)
      → add_public_key c keys k ≡ (ok got, next)
      → get next (key_id_for_public_key c k) ≡ some k
  add_public_key-get keys next k got h =
      let (is_key, strong, added) = add_public_key-ok keys next k got h in
      let own : Bytes = key_id_for_public_key c k in
      elim added [
        | inl (same, held) ↦ rw same held
        | inr (same, fresh) ↦ rw same (get-insert keys own own k ∙ rw (bytes_beq_refl own) refl)
      ]

  add_public_key-get_kept :
      (keys next : Keys) (k got key_id key : Bytes)
      → add_public_key c keys k ≡ (ok got, next)
      → get keys key_id ≡ some key
      → get next key_id ≡ some key
  add_public_key-get_kept keys next k got key_id key h at =
      let (is_key, strong, added) = add_public_key-ok keys next k got h in
      let own : Bytes = key_id_for_public_key c k in
      elim added [
        | inl (same, held) ↦ rw same at
        | inr (same, fresh) ↦
            rw same
              (ground (arith, at, fresh, get-insert keys own key_id k, bytes_beq_iff own key_id))
      ]

  add_more-ok :
      (rest : Keys → Result Keys GrantError) (p : Result Bytes GrantError × Keys) (result : Keys)
      → add_more c rest p ≡ ok result
      → (got : Bytes) × (next : Keys) × (p ≡ (ok got, next)) × (rest next ≡ ok result)
  add_more-ok rest (ok got, next) result h = (got, next, refl, h)
  add_more-ok rest (err e, next) result h = cc

  add_all-EachTrusted :
      (given ks : List Bytes) (keys result : Keys)
      → add_all c ks keys ≡ ok result
      → EachIn ks given
      → EachTrusted c given keys
      → EachTrusted c given result
  unfolding add_all
  add_all-EachTrusted given [] keys result h listed each = ground (arith, h, each)
  add_all-EachTrusted given (k ∷ ks) keys result h listed each =
      let (got, next, added, rest) =
        add_more-ok (add_all c ks) (add_public_key c keys k) result h in
      add_all-EachTrusted given ks next result rest listed.1
        (add_public_key-EachTrusted given keys next k got added listed.0 each)

  add_all-get :
      (ks : List Bytes) (keys result : Keys) (key_id key : Bytes)
      → add_all c ks keys ≡ ok result
      → get keys key_id ≡ some key
      → get result key_id ≡ some key
  unfolding add_all
  add_all-get [] keys result key_id key h at = ground (arith, h, at)
  add_all-get (k ∷ ks) keys result key_id key h at =
      let (got, next, added, rest) =
        add_more-ok (add_all c ks) (add_public_key c keys k) result h in
      add_all-get ks next result key_id key rest
        (add_public_key-get_kept keys next k got key_id key added at)

  add_all-EachHeld :
      (ks : List Bytes) (keys result : Keys) → add_all c ks keys ≡ ok result → EachHeld c ks result
  unfolding add_all
  add_all-EachHeld [] keys result h = tt
  add_all-EachHeld (k ∷ ks) keys result h =
      let (got, next, added, rest) =
        add_more-ok (add_all c ks) (add_public_key c keys k) result h in
      (
        add_all-get ks next result (key_id_for_public_key c k) k rest
            (add_public_key-get keys next k got added),
        add_all-EachHeld ks next result rest,
      )

-- A verifier that `new` builds is not empty; each of its entries is one of the given keys, valid and
-- not weak, under its own identifier; and each of the given keys stands in it, so that no two
-- different ones share an identifier.
pub new_verifier-IsTrusted :
    (c : Crypto) (public_keys : List Bytes) (keys : Keys)
    → new_verifier c public_keys ≡ ok keys
    → (0 < length keys) × EachTrusted c public_keys keys × EachHeld c public_keys keys
unfolding new_verifier
new_verifier-IsTrusted c public_keys keys h =
    let (built, added, checked) = >>=-eq-ok (add_all c public_keys []) _ h in
    let same : built ≡ keys = ground (arith, checked) in
    (
      ground (arith, checked),
      rw (← same) (
          add_all-EachTrusted c public_keys public_keys [] built added (EachIn-refl public_keys)
            tt),
      rw (← same) (add_all-EachHeld c public_keys [] built added),
    )

-- A token, a string of numbers below 256, that a node accepts is, byte for byte, the wire form of the
-- grant that is returned, its neighbours included, followed by a signature of 64 bytes, over exactly those bytes, that verifies
-- under the trusted key that the grant's key identifier names. The grant is in time, as `verify`
-- asks, and names that node.
pub verify_for_node-IsAuthentic :
    (c : Crypto) (token : Bytes) (keys : Keys) (expected : NodeIdentity) (now : ℕ)
    (v : VerifiedGrant)
    → is_bytes token ≡ true
    → verify_for_node c token keys expected now ≡ ok v
    → IsAuthentic c token keys now v × (v.audience.node ≡ expected)
unfolding verify_for_node
verify_for_node-IsAuthentic c token keys expected now v octets h =
    let (p, authentic, rest) = >>=-eq-ok (verify_authentic c token keys now) _ h in
    let (_, decided, result) =
      >>=-eq-ok (guard (is_decided (NodeIdentity-discrete p.audience.node expected)) wrong_audience)
        _ rest in
    let same : into_verified p ≡ v = ground arith in
    (
      rw (← same) (verify_authentic-IsAuthentic c token keys now p octets authentic),
      rw (← same) (is_decided-yes (NodeIdentity-discrete p.audience.node expected) (ground arith)),
    )

NodeIdentity-decided : (a b : NodeIdentity) → a ≡ b → is_decided (NodeIdentity-discrete a b) ≡ true
NodeIdentity-decided a b same = elim (NodeIdentity-discrete a b) as (λ d. is_decided d ≡ true) [
  | yes e ↦ refl
  | no n ↦ absurd (n same)
]

-- What is accepted for a full audience is accepted, with the same result, for that audience's node.
pub verify_for_node-verify :
    (c : Crypto) (token : Bytes) (keys : Keys) (expected : Audience) (now : ℕ) (v : VerifiedGrant)
    → verify c token keys expected now ≡ ok v
    → verify_for_node c token keys expected.node now ≡ ok v
unfolding verify_for_node verify
verify_for_node-verify c token keys expected now v h =
    let (p, authentic, rest) = >>=-eq-ok (verify_authentic c token keys now) _ h in
    let same : p.audience ≡ expected =
      is_decided-yes (Audience-discrete p.audience expected) (ground arith) in
    let result : into_verified p ≡ v = ground arith in
    let at_node =
      NodeIdentity-decided p.audience.node expected.node (ap (λ (a : Audience). a.node) same) in
    rw (authentic, at_node) (ap ok result)
