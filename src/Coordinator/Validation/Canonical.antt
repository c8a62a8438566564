-- ===== src/Coordinator/Validation/Canonical.antt =====
-- A policy that is accepted is published in the text in which it came.
use nil.Prelude.{
  ℕ, ◌+◌, ◌*◌, ◌-◌, ◌/◌, ◌%◌, ◌<◌, ◌≡◌, refl, ap, Bool, true, false, ◌&&◌, Option, none, some, [],
  ◌∷◌, Bytes, length, all, leb, ◌==◌, ok, guard, >>=-eq-ok, Bool-cases, Option-cases, inl, inr,
  arith,
}
use mathlib.Core.Option.{some_inj}
use Prim.Native.String.{String}
use nil.Grant.Hex.{nib, from_hex}
use nil.Coordinator.Registry.{
  TdxPolicy, hex_digit, encode_service, encode_lower_hex, tdx_policy_to_wire,
}
use nil.Coordinator.Validation.{
  RegistryError, is_lower_hex, validate_lower_hex, decode_fixed_hex, decode_service,
  validate_tdx_policy, fixed, invalid, nonzero, first_is,
}
use nil.Coordinator.Validation.Distinct.{ok_injective}

nib-lower :
    (c : ℕ) → is_lower_hex c ≡ true → (h : ℕ) × (nib c ≡ some h) × (h < 16) × (hex_digit h ≡ c)
unfolding nib
nib-lower c lower = elim (Bool-cases (leb b'0' c && leb c b'9')) [
  | inl decimal ↦ (c - b'0', rw decimal refl, ground arith, ground arith)
  | inr letter ↦
      let range : (leb b'a' c && leb c b'f') ≡ true = ground arith in
      (c - b'a' + 10, rw (letter, range) refl, ground arith, ground arith)
]

-- Lower-case hex is written as it was read.
encode_lower_hex-from_hex :
    (value bytes : Bytes)
    → all is_lower_hex value ≡ true
    → from_hex value ≡ some bytes
    → encode_lower_hex bytes ≡ value
unfolding from_hex encode_lower_hex
encode_lower_hex-from_hex [] bytes lower read = rw (← some_inj.0 read) refl
encode_lower_hex-from_hex (c ∷ []) bytes lower read = cc
encode_lower_hex-from_hex (c ∷ d ∷ value) bytes lower read =
    let (h, nib_h, small_h, back_h) = nib-lower c (ground arith) in
    let (l, nib_l, small_l, back_l) = nib-lower d (ground arith) in
    elim (Option-cases (from_hex value)) [
      | inl bad ↦ let gone = rw (from_hex, nib_h, nib_l, bad) at read in cc
      | inr (rest, good) ↦
          let given : some ((h * 16 + l) ∷ rest) ≡ some bytes =
            rw (from_hex, nib_h, nib_l, good) at read in
          let high : (h * 16 + l) / 16 ≡ h = omega arith in
          let low : (h * 16 + l) % 16 ≡ l = omega arith in
          rw (← some_inj.0 given) (
            rw (high, low, back_h, back_l)
              (ap (λ hex. c ∷ d ∷ hex) (encode_lower_hex-from_hex value rest (ground arith) good)))
    ]

met : (test : Bool) (why : RegistryError) {u : Unit {0}} → guard test why ≡ ok u → test ≡ true
met false why h = cc
met true why h = refl

fixed-some :
    (field : String) (n : ℕ) (read : Option Bytes) (bytes : Bytes)
    → fixed field n read ≡ ok bytes
    → read ≡ some bytes
fixed-some field n none bytes h = cc
fixed-some field n (some found) bytes h = elim (Bool-cases (length found == n)) [
  | inl exact ↦ ap some (ok_injective (rw exact at h))
  | inr other ↦ let gone = rw other at h in cc
]

decode_fixed_hex-encode :
    (field : String) (n : ℕ) (value bytes : Bytes)
    → decode_fixed_hex field n value ≡ ok bytes
    → encode_lower_hex bytes ≡ value
unfolding decode_fixed_hex validate_lower_hex
decode_fixed_hex-encode field n value bytes h =
    let (u, checked, read) = >>=-eq-ok (validate_lower_hex field value n) _ h in
    let (v, long, lower) = >>=-eq-ok (guard (length value == n * 2) (invalid field)) _ checked in
    encode_lower_hex-from_hex value bytes (met (all is_lower_hex value) _ lower)
      (fixed-some field n (from_hex value) bytes read)

decode_service-encode :
    (value bytes : Option Bytes) → decode_service value ≡ ok bytes → encode_service bytes ≡ value
decode_service-encode none bytes h = rw (← ok_injective h) refl
decode_service-encode (some value) bytes h =
    let (measurement, read, done) =
      >>=-eq-ok (decode_fixed_hex "tdx_policy.mr_service_td" 48 value) _ h in
    rw (← ok_injective done) (ap some (decode_fixed_hex-encode _ 48 value measurement read))

wire_fields :
    (dto policy : TdxPolicy)
    → encode_lower_hex policy.td_attributes ≡ dto.td_attributes
    → encode_lower_hex policy.xfam ≡ dto.xfam
    → encode_lower_hex policy.mr_config_id ≡ dto.mr_config_id
    → encode_lower_hex policy.mr_owner ≡ dto.mr_owner
    → encode_lower_hex policy.mr_owner_config ≡ dto.mr_owner_config
    → encode_lower_hex policy.rt_mr0 ≡ dto.rt_mr0
    → encode_lower_hex policy.rt_mr1 ≡ dto.rt_mr1
    → encode_lower_hex policy.rt_mr2 ≡ dto.rt_mr2
    → encode_lower_hex policy.rt_mr3 ≡ dto.rt_mr3
    → encode_service policy.mr_service_td ≡ dto.mr_service_td
    → tdx_policy_to_wire policy ≡ dto
unfolding tdx_policy_to_wire
wire_fields dto policy a b c d e f g h i j = rw (a, b, c, d, e, f, g, h, i, j) refl

-- A workload policy that is accepted goes to clients as the registry file spells it.
pub tdx_policy_to_wire-validate_tdx_policy :
    (dto policy : TdxPolicy) → validate_tdx_policy dto ≡ ok policy → tdx_policy_to_wire policy ≡ dto
unfolding validate_tdx_policy
tdx_policy_to_wire-validate_tdx_policy dto policy h =
    let (td_attributes, r0, h0) =
      >>=-eq-ok (decode_fixed_hex "tdx_policy.td_attributes" 8 dto.td_attributes) _ h in
    let (u0, g0, k0) =
      >>=-eq-ok
        (guard (first_is (λ b. b % 2 == 0) td_attributes) (invalid "tdx_policy.td_attributes")) _
        h0 in
    let (rt_mr0, r1, h1) = >>=-eq-ok (decode_fixed_hex "tdx_policy.rt_mr0" 48 dto.rt_mr0) _ k0 in
    let (rt_mr1, r2, h2) = >>=-eq-ok (decode_fixed_hex "tdx_policy.rt_mr1" 48 dto.rt_mr1) _ h1 in
    let (rt_mr2, r3, h3) = >>=-eq-ok (decode_fixed_hex "tdx_policy.rt_mr2" 48 dto.rt_mr2) _ h2 in
    let (rt_mr3, r4, h4) = >>=-eq-ok (decode_fixed_hex "tdx_policy.rt_mr3" 48 dto.rt_mr3) _ h3 in
    let (u1, g1, k1) = >>=-eq-ok (guard (nonzero rt_mr0) (invalid "tdx_policy.rt_mr0")) _ h4 in
    let (u2, g2, k2) = >>=-eq-ok (guard (nonzero rt_mr1) (invalid "tdx_policy.rt_mr1")) _ k1 in
    let (u3, g3, k3) = >>=-eq-ok (guard (nonzero rt_mr2) (invalid "tdx_policy.rt_mr2")) _ k2 in
    let (u4, g4, k4) = >>=-eq-ok (guard (nonzero rt_mr3) (invalid "tdx_policy.rt_mr3")) _ k3 in
    let (xfam, r5, h5) = >>=-eq-ok (decode_fixed_hex "tdx_policy.xfam" 8 dto.xfam) _ k4 in
    let (mr_config_id, r6, h6) =
      >>=-eq-ok (decode_fixed_hex "tdx_policy.mr_config_id" 48 dto.mr_config_id) _ h5 in
    let (mr_owner, r7, h7) =
      >>=-eq-ok (decode_fixed_hex "tdx_policy.mr_owner" 48 dto.mr_owner) _ h6 in
    let (mr_owner_config, r8, h8) =
      >>=-eq-ok (decode_fixed_hex "tdx_policy.mr_owner_config" 48 dto.mr_owner_config) _ h7 in
    let (mr_service_td, r9, h9) = >>=-eq-ok (decode_service dto.mr_service_td) _ h8 in
    let made : TdxPolicy = record {
      td_attributes = td_attributes;
      xfam = xfam;
      mr_config_id = mr_config_id;
      mr_owner = mr_owner;
      mr_owner_config = mr_owner_config;
      rt_mr0 = rt_mr0;
      rt_mr1 = rt_mr1;
      rt_mr2 = rt_mr2;
      rt_mr3 = rt_mr3;
      mr_service_td = mr_service_td;
    } in
    let same : made ≡ policy = ok_injective h9 in
    rw (← same) (
      wire_fields dto made (decode_fixed_hex-encode _ 8 dto.td_attributes td_attributes r0)
        (decode_fixed_hex-encode _ 8 dto.xfam xfam r5)
        (decode_fixed_hex-encode _ 48 dto.mr_config_id mr_config_id r6)
        (decode_fixed_hex-encode _ 48 dto.mr_owner mr_owner r7)
        (decode_fixed_hex-encode _ 48 dto.mr_owner_config mr_owner_config r8)
        (decode_fixed_hex-encode _ 48 dto.rt_mr0 rt_mr0 r1)
        (decode_fixed_hex-encode _ 48 dto.rt_mr1 rt_mr1 r2)
        (decode_fixed_hex-encode _ 48 dto.rt_mr2 rt_mr2 r3)
        (decode_fixed_hex-encode _ 48 dto.rt_mr3 rt_mr3 r4)
        (decode_service-encode dto.mr_service_td mr_service_td r9))
