-- ===== src/Node/Retry/Binding.antt =====
-- A token is accepted from the address that it was minted for.
use nil.Prelude.{
  ℕ, zero, suc, ◌+◌, ◌%◌, ◌<◌, ◌^◌, ◌≡◌, ◌≢◌, ◌⊎◌, refl, sym, ap, ◌∙◌, Bool, true, false, some, [],
  ◌∷◌, ◌++◌, Bytes, length, take, drop, all, ltb, length-append, length-take, take-append,
  drop-append, take-append_at, drop-append_at, ◌==◌, ==_iff, arith, Bool-cases, inl, inr, bytes_beq,
  bytes_beq_iff,
}
use nil.Prelude.Options.{guard, >>=-eq-some}
use nil.Prelude.Words.{to_be_bytes, from_be_bytes, from_be_bytes-to_be_bytes, length-to_be_bytes}
use mathlib.Core.Option.{some_inj}
use nil.Node.Retry.{
  SocketAddr, v4, v6, addr_bytes, token_tag, strip_prefix, split_first, ct_eq, hmac_sha256, mac,
  mint, validate,
}
use nil.Node.Retry.Compare.{ct_eq_iff}

-- `SocketAddr`: four or sixteen octets, and a port of 16 bits.
unfoldable pub IsAddress : SocketAddr → Type 0
IsAddress (v4 octets port) = (length octets ≡ 4) × (port < 2 ^ 16)
IsAddress (v6 octets port) = (length octets ≡ 16) × (port < 2 ^ 16)

strip_prefix-some :
    (prefix bytes : Bytes) {rest : Bytes}
    → strip_prefix prefix bytes ≡ some rest
    → bytes ≡ prefix ++ rest
strip_prefix-some [] bytes h = some_inj.0 h
strip_prefix-some (p ∷ prefix) [] h = cc
strip_prefix-some (p ∷ prefix) (b ∷ bytes) h = elim (Bool-cases (p == b)) [
  | inl e ↦ rw ((==_iff p b).0 e, strip_prefix-some prefix bytes (rw e at h)) refl
  | inr e ↦ let gone = rw e at h in cc
]

split_first-some :
    (bytes : Bytes) (first : ℕ × Bytes) → split_first bytes ≡ some first → bytes ≡ first.0 ∷ first.1
split_first-some [] first h = cc
split_first-some (b ∷ bytes) first h = rw (← some_inj.0 h) refl

passed : (test : Bool) {u : Unit {0}} → guard test ≡ some u → test ≡ true
passed false h = cc
passed true h = refl

take-drop : (n : ℕ) (xs : Bytes) → take n xs ++ drop n xs ≡ xs
take-drop zero xs = refl
take-drop (suc n) [] = refl
take-drop (suc n) (x ∷ xs) = ap (λ r. x ∷ r) (take-drop n xs)

first_byte : (n : ℕ) (rest : Bytes) → all (λ b. ltb b 256) (token_tag ++ n ∷ rest) ≡ true → n < 256
first_byte n rest h = ground arith

split_append :
    (xs ys us vs : Bytes) → length xs ≡ length us → xs ++ ys ≡ us ++ vs → (xs ≡ us) × (ys ≡ vs)
split_append xs ys us vs e h = (
  sym (take-append_at xs ys e) ∙ ap (take (length us)) h ∙ take-append us vs,
  sym (drop-append_at xs ys e) ∙ ap (drop (length us)) h ∙ drop-append us vs,
)

octets_and_port :
    (n : ℕ) (xs us : Bytes) (p q : ℕ) (ys vs : Bytes)
    → length xs ≡ n
    → length us ≡ n
    → p < 2 ^ 16
    → q < 2 ^ 16
    → (xs ++ to_be_bytes 2 p) ++ ys ≡ (us ++ to_be_bytes 2 q) ++ vs
    → (xs ≡ us) × (p ≡ q)
octets_and_port n xs us p q ys vs e f small small' h =
    let width =
      split_append (xs ++ to_be_bytes 2 p) ys (us ++ to_be_bytes 2 q) vs
        (omega (
          arith,
          length-append xs (to_be_bytes 2 p),
          length-append us (to_be_bytes 2 q),
          length-to_be_bytes 2 p,
          length-to_be_bytes 2 q,
        ))
        h in
    let parts = split_append xs (to_be_bytes 2 p) us (to_be_bytes 2 q) (omega arith) width.0 in
    (
      parts.0,
      sym (from_be_bytes-to_be_bytes 2 p small)
          ∙ ap from_be_bytes parts.1
          ∙ from_be_bytes-to_be_bytes 2 q small',
    )

-- The authenticated text names one address.
addr_bytes-injective :
    (src from : SocketAddr) (ys vs : Bytes)
    → IsAddress src
    → IsAddress from
    → addr_bytes src ++ ys ≡ addr_bytes from ++ vs
    → src ≡ from
unfolding IsAddress
addr_bytes-injective (v4 xs p) (v4 us q) ys vs a b h =
    let same = octets_and_port 4 xs us p q ys vs a.0 b.0 a.1 b.1 (ap (drop 1) h) in
    rw (same.0, same.1) refl
addr_bytes-injective (v6 xs p) (v6 us q) ys vs a b h =
    let same = octets_and_port 16 xs us p q ys vs a.0 b.0 a.1 b.1 (ap (drop 1) h) in
    rw (same.0, same.1) refl
addr_bytes-injective (v4 xs p) (v6 us q) ys vs a b h = absurd (ground (arith, ap (take 1) h))
addr_bytes-injective (v6 xs p) (v4 us q) ys vs a b h = absurd (ground (arith, ap (take 1) h))

module _ (sha256 : Bytes → Bytes) (digest : (x : Bytes) → length (sha256 x) ≡ 32) where
  length-mac :
      (key : Bytes) (src : SocketAddr) (odcid : Bytes) → length (mac sha256 key src odcid) ≡ 16
  unfolding mac hmac_sha256
  length-mac key src odcid = omega (arith, length-take 16 (sha256 _), digest _)

  -- A node accepts the tokens that it mints for a client's address, and gives back the connection's
  -- first identifier, of at most 255 bytes. Digests of SHA-256 have 32 bytes.
  pub validate-mint :
      (key : Bytes) (src : SocketAddr) (odcid : Bytes)
      → length odcid < 256
      → validate sha256 key src (mint sha256 key src odcid) ≡ some odcid
  unfolding validate mint
  validate-mint key src odcid small =
      let tag : Bytes = mac sha256 key src odcid in
      let short : length odcid % 256 ≡ length odcid = omega arith in
      let whole : (length (odcid ++ tag) == length odcid + 16) ≡ true =
        ground (arith, length-append odcid tag, length-mac key src odcid) in
      let equal : ct_eq tag tag ≡ true = (ct_eq_iff tag tag).1 refl in
      rw (short, whole, take-append odcid tag, drop-append odcid tag, equal) refl

  -- The parts of a token that is accepted.
  accepted_parts :
      (key : Bytes) (src : SocketAddr) (token odcid : Bytes)
      → validate sha256 key src token ≡ some odcid
      → (n : ℕ) × (rest : Bytes) × (token ≡ token_tag ++ n ∷ rest)
        × (length rest ≡ n + 16)
        × (drop n rest ≡ mac sha256 key src (take n rest))
        × (odcid ≡ take n rest)
  unfolding validate
  accepted_parts key src token odcid h =
      let (rest, stripped, h1) = >>=-eq-some (strip_prefix token_tag token) _ h in
      let (first, split, h2) = >>=-eq-some (split_first rest) _ h1 in
      let (u, sized, h3) = >>=-eq-some (guard (length first.1 == first.0 + 16)) _ h2 in
      let (v, equal, h4) =
        >>=-eq-some
          (guard (ct_eq (drop first.0 first.1) (mac sha256 key src (take first.0 first.1)))) _ h3 in
      (
        first.0,
        first.1,
        strip_prefix-some token_tag token stripped
            ∙ ap (λ r. token_tag ++ r) (split_first-some rest first split),
        (==_iff (length first.1) (first.0 + 16)).0 (passed _ sized),
        (ct_eq_iff (drop first.0 first.1) (mac sha256 key src (take first.0 first.1))).0
            (passed _ equal),
        sym (some_inj.0 h4),
      )

  assembled :
      (key : Bytes) (src : SocketAddr) (n : ℕ) (rest : Bytes)
      → n < 256
      → length rest ≡ n + 16
      → drop n rest ≡ mac sha256 key src (take n rest)
      → (token_tag ++ n ∷ rest ≡ mint sha256 key src (take n rest)) × (length (take n rest) ≡ n)
  unfolding mint
  assembled key src n rest small size equal =
      let width : length (take n rest) ≡ n = omega (arith, length-take n rest) in
      let low : n % 256 ≡ n = omega arith in
      (rw (width, low, ← equal, take-drop n rest) refl, width)

  -- What is accepted was minted.
  minted :
      (key : Bytes) (src : SocketAddr) (token odcid : Bytes)
      → all (λ b. ltb b 256) token ≡ true
      → validate sha256 key src token ≡ some odcid
      → (token ≡ mint sha256 key src odcid) × (length odcid < 256)
  minted key src token odcid bytes h =
      let (n, rest, whole, size, equal, same) = accepted_parts key src token odcid h in
      let small : n < 256 = first_byte n rest (rw whole at bytes) in
      let made = assembled key src n rest small size equal in
      rw same (whole ∙ made.0, omega (arith, made.1))

  tokens_same :
      (key : Bytes) (src from : SocketAddr) (odcid other : Bytes)
      → mint sha256 key src odcid ≡ mint sha256 key from other
      → (odcid ≡ other) × (mac sha256 key src odcid ≡ mac sha256 key from other)
  unfolding mint
  tokens_same key src from odcid other e =
      let bodies : odcid ++ mac sha256 key src odcid ≡ other ++ mac sha256 key from other =
        ap (drop 18) e in
      split_append odcid (mac sha256 key src odcid) other (mac sha256 key from other)
        (omega (
          arith,
          ap length bodies,
          length-append odcid (mac sha256 key src odcid),
          length-append other (mac sha256 key from other),
          length-mac key src odcid,
          length-mac key from other,
        ))
        bodies

  -- A token that was minted for one address is accepted from another only if the truncated HMAC has
  -- a collision under the node's key. Digests of SHA-256 have 32 bytes, the addresses have four or
  -- sixteen octets and a port of 16 bits, and the token is bytes.
  pub validate_bound :
      (key : Bytes) (src from : SocketAddr) (odcid other : Bytes)
      → IsAddress src
      → IsAddress from
      → all (λ b. ltb b 256) (mint sha256 key src odcid) ≡ true
      → validate sha256 key from (mint sha256 key src odcid) ≡ some other
      → ((src ≡ from) × (odcid ≡ other))
        ⊎ ((m : Bytes) × (n : Bytes) × (m ≢ n)
            × (take 16 (hmac_sha256 sha256 key m) ≡ take 16 (hmac_sha256 sha256 key n)))
  unfolding mac
  validate_bound key src from odcid other a b bytes h =
      let same =
        tokens_same key src from odcid other
          (minted key from (mint sha256 key src odcid) other bytes h).0 in
      let m : Bytes = token_tag ++ (addr_bytes src ++ odcid) in
      let n : Bytes = token_tag ++ (addr_bytes from ++ other) in
      elim (Bool-cases (bytes_beq m n)) [
        | inl e ↦
            let texts : addr_bytes src ++ odcid ≡ addr_bytes from ++ other =
              ap (drop 17) ((bytes_beq_iff m n).0 e) in
            inl (addr_bytes-injective src from odcid other a b texts, same.0)
        | inr e ↦ inr (m, n, (λ (f : m ≡ n). ground (arith, (bytes_beq_iff m n).1 f)), same.1)
      ]
