-- ===== src/Crypto/Tests.antt =====
-- Runs of the transparency-log code (crates/nil-crypto/src/translog.rs), with functions in the place
-- of SHA-256, Ed25519 and Base64 that have the laws which are asked of them.
use nil.Prelude.{
  ℕ, ◌+◌, ◌^◌, ◌≤◌, ◌≡◌, ◌⊎◌, refl, true, some, List, [], ◌∷◌, ◌++◌, Bytes, length, take, replicate,
  map, get_elem?, length-take, length-append, length-replicate, bytes_beq, bytes_beq_iff, arith,
  ◌==◌,
}
use nil.Prelude.Bits.{bit_length, count_ones}
use nil.Prelude.Utf8.{is_utf8-is_ascii}
use nil.Crypto.Translog.{
  Primitives, LogProof, leaf_hash, hash_children, root_from_inclusion, inner_loop, border_loop,
  checkpoint_body, decimal, verify_checkpoint, verify_logged, encode, decode,
}
use nil.Crypto.Translog.Tree.{at, tree_root, audit_path_of}
use nil.Crypto.Translog.Collision.{Collision, digests, digests-at}
use nil.Crypto.Translog.Complete.{verify_logged_complete}
use nil.Crypto.Translog.Sound.{root_from_inclusion-pins}
use nil.Crypto.Translog.Checkpoint.{is_line, checkpoint_body-injective}
use nil.Crypto.Translog.Logged.{verify_logged-published}
use nil.Crypto.Translog.Codec.{decode-encode}

abbrev first_bytes : Bytes → Bytes
first_bytes x = take 32 (x ++ replicate 32 0)

length-first_bytes : (x : Bytes) → length (first_bytes x) ≡ 32
length-first_bytes x = omega (
  arith,
  length-take 32 (x ++ replicate 32 0),
  length-append x (replicate 32 0),
  length-replicate {A = ℕ} 32 0,
)

abbrev shift : Bytes → Bytes
shift = map (λ byte. byte + 11)

is_line-shift : (x : Bytes) → is_line (shift x) ≡ true
is_line-shift [] = refl
is_line-shift (b ∷ bs) = ground (arith, is_line-shift bs)

shift-injective : (x y : Bytes) → shift x ≡ shift y → x ≡ y
shift-injective [] [] h = refl
shift-injective [] (c ∷ cs) h = cc
shift-injective (b ∷ bs) [] h = cc
shift-injective (b ∷ bs) (c ∷ cs) h = ground (arith, shift-injective bs cs)

-- A key under which exactly one text is signed.
abbrev signing : Bytes → Primitives
signing text = record {
  sha256 = first_bytes;
  is_verifying_key = λ key. length key == 32;
  is_signature = λ sig. length sig == 64;
  verify = λ key body sig. bytes_beq body text;
  base64 = shift;
}

abbrev entries : List Bytes
entries = (1 ∷ []) ∷ (2 ∷ []) ∷ (3 ∷ []) ∷ []

abbrev log_text : Bytes
log_text = 0x6c ∷ 0x6f ∷ 0x67 ∷ []

abbrev leaves : List Bytes
leaves = map (leaf_hash (signing [])) entries

abbrev checkpoint : Bytes
checkpoint = checkpoint_body (signing []) log_text 3 (tree_root (signing []) leaves)

abbrev log : Primitives
log = signing checkpoint

abbrev logged : List Bytes
logged = map (leaf_hash log) entries

abbrev log_key : Bytes
log_key = replicate 32 7

abbrev stapled : LogProof
stapled = record {
  origin = log_text;
  tree_size = 3;
  leaf_index = 2;
  root = tree_root log logged;
  audit_path = audit_path_of log 2 logged;
  checkpoint_sig = replicate 64 9;
}

signed : verify_checkpoint log stapled log_key ≡ true
unfolding verify_checkpoint checkpoint_body leaf_hash hash_children tree_root decimal
signed = refl

accepted : verify_logged log (3 ∷ []) stapled log_key ≡ true
unfolding verify_logged verify_checkpoint checkpoint_body leaf_hash hash_children tree_root decimal
    root_from_inclusion inner_loop border_loop audit_path_of bit_length count_ones
accepted = refl

digests-logged : digests logged ≡ true
unfolding leaf_hash
digests-logged = refl

digests-path : digests (audit_path_of log 2 logged) ≡ true
unfolding leaf_hash hash_children audit_path_of
digests-path = refl

length_root : length (tree_root log logged) ≡ 32
unfolding leaf_hash hash_children tree_root
length_root = refl

climbs :
    root_from_inclusion log 2 3 (at logged 2) (audit_path_of log 2 logged)
    ≡ some (tree_root log logged)
unfolding leaf_hash hash_children tree_root root_from_inclusion inner_loop border_loop audit_path_of
    bit_length count_ones
climbs = refl

verify_logged_complete_example : verify_logged log (3 ∷ []) stapled log_key ≡ true
verify_logged_complete_example =
    verify_logged_complete log entries (3 ∷ []) log_key stapled refl refl (omega arith) refl refl
      refl signed

abbrev Published : List Bytes → Type 0
Published state = state ≡ entries

signs :
    (body sig : Bytes)
    → log.verify log_key body sig ≡ true
    → (state : List Bytes) × (origin : Bytes) × Published state
      × (length state ≤ 2 ^ 63)
      × (body
          ≡ checkpoint_body log origin (length state) (tree_root log (map (leaf_hash log) state)))
unfolding checkpoint_body leaf_hash hash_children tree_root decimal
signs body sig h = (entries, log_text, refl, omega arith, (bytes_beq_iff body checkpoint).0 h)

verify_logged-published_example :
    ((state : List Bytes) × Published state × (get_elem? state 2 ≡ some (3 ∷ []))) ⊎ Collision log
verify_logged-published_example =
    verify_logged-published log Published (3 ∷ []) log_key stapled length-first_bytes is_line-shift
      shift-injective signs digests-path accepted

root_from_inclusion-pins_example :
    ((at logged 2 ≡ at logged 2) × (audit_path_of log 2 logged ≡ audit_path_of log 2 logged))
    ⊎ Collision log
root_from_inclusion-pins_example =
    root_from_inclusion-pins log length-first_bytes 2 logged (at logged 2)
      (audit_path_of log 2 logged) (omega arith) digests-logged
      (digests-at logged 2 digests-logged (omega arith)) digests-path climbs

checkpoint_body-injective_example :
    (log_text ≡ log_text) × (stapled.tree_size ≡ stapled.tree_size) × (log_key ≡ log_key)
checkpoint_body-injective_example =
    checkpoint_body-injective log log_text log_text 3 3 log_key log_key is_line-shift
      shift-injective refl

decode-encode_example : decode (encode stapled) ≡ some stapled
unfolding audit_path_of
decode-encode_example =
    decode-encode stapled (is_utf8-is_ascii log_text refl) (omega arith) (omega arith) (omega arith)
      length_root digests-path (omega arith) (omega arith)
