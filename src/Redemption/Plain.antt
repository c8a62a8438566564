-- ===== src/Redemption/Plain.antt =====
-- A cipher for tests, which only appends a tag of zeros: it has every law that is asked of the cipher.
use nil.Prelude.{
  ℕ, ◌-◌, ◌≡◌, refl, ap, true, some, ◌++◌, Bytes, length, take, replicate, length-append,
  take-append, arith,
}
use nil.Redemption.Cipher.{Aead, IsAead}

abbrev pub zeros : ℕ → Bytes
zeros n = replicate n 0

abbrev pub plain : Aead
plain = record {
  new_from_slice = λ key. true;
  encrypt = λ key nonce aad msg. some (msg ++ zeros 16);
  decrypt = λ key nonce aad c. some (take (length c - 16) c);
}

some-same : {x y : Bytes} → some x ≡ some y → x ≡ y
some-same e = ground (arith, e)

untagged : (msg : Bytes) → take (length (msg ++ zeros 16) - 16) (msg ++ zeros 16) ≡ msg
untagged msg =
    let width : length (msg ++ zeros 16) - 16 ≡ length msg =
      omega (arith, length-append msg (zeros 16)) in
    rw width (take-append msg (zeros 16))

pub plain-IsAead : IsAead plain
plain-IsAead = record {
  accepts = λ key h. refl;
  encrypts = λ key nonce aad msg h i j. (msg ++ zeros 16, refl);
  tagged =
      λ key nonce aad msg c e. omega (arith, length-append msg (zeros 16), ap length (some-same e));
  decrypts = λ key nonce aad msg c e. rw (← some-same e) (ap some (untagged msg));
}
