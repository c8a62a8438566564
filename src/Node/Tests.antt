-- ===== src/Node/Tests.antt =====
-- Runs of the retry tokens (crates/nil-node/src/retry.rs), and of the address pool
-- (crates/nil-node/src/pool.rs) on the four addresses 8 to 11, of which 9
-- and 10 are hosts and 9 is the gateway's.
use nil.Prelude.{ℕ, ◌≡◌, ◌⊎◌, refl, none, some, List, [], ◌∷◌, Bytes, arith, bytes_eq, nat_eq}
use nil.Prelude.{◌+◌, ◌%◌, ◌≢◌, length, take, all, ltb, replicate, length-replicate, true}
use nil.Prelude.Words.{to_be_bytes}
use nil.Node.Retry.{SocketAddr, v4, hmac_sha256, mac, mint, validate, ct_eq}
use nil.Node.Retry.Binding.{IsAddress, validate-mint, validate_bound}
use nil.Prelude.Dict.{get, insert, remove}
use nil.Node.Pool.{
  AddressPool, built, new, new_in, reserve, fresh_pool, assign, find_free, Call, assigns, releases,
  run, step,
}
use nil.Node.Pool.Invariant.{IsValid, assignments-IsValid, new-IsValid}

abbrev pool : AddressPool
pool = fresh_pool 9 10 9

pool_built : new 8 30 9 ≡ built pool
unfolding new new_in
pool_built = refl

pool-IsValid : IsValid 9 pool
pool-IsValid = new-IsValid 9 8 30 pool pool_built

abbrev calls : List Call
calls = assigns (1 ∷ []) ∷ assigns (2 ∷ []) ∷ releases (1 ∷ []) ∷ assigns (2 ∷ []) ∷ []

assignments-IsValid_example : IsValid 9 (run pool calls)
assignments-IsValid_example = assignments-IsValid 9 pool calls pool-IsValid

abbrev full : AddressPool
full = run pool calls

refused_here : (assign full (3 ∷ [])).0 ≡ none
unfolding run step assign find_free get insert remove reserve
refused_here = refl

-- A hash for tests: digests of 32 bytes that depend on their input.
abbrev byte_sum : Bytes → ℕ
byte_sum [] = 0
byte_sum (b ∷ bytes) = (b + byte_sum bytes) % 256

abbrev sums : Bytes → Bytes
sums bytes = replicate 32 (byte_sum bytes)

length-sums : (bytes : Bytes) → length (sums bytes) ≡ 32
length-sums bytes = length-replicate 32 (byte_sum bytes)

abbrev client : SocketAddr
client = v4 (203 ∷ 0 ∷ 113 ∷ 7 ∷ []) 4433

abbrev odcid : Bytes
odcid = 1 ∷ 2 ∷ 3 ∷ 4 ∷ []

abbrev retry_key : Bytes
retry_key = replicate 32 5

validate-mint_example :
    validate sums retry_key client (mint sums retry_key client odcid) ≡ some odcid
validate-mint_example = validate-mint sums length-sums retry_key client odcid (omega arith)

-- Another address does not pass.
other_address :
    validate sums retry_key (v4 (203 ∷ 0 ∷ 113 ∷ 8 ∷ []) 4433) (mint sums retry_key client odcid)
    ≡ none
unfolding validate mint mac hmac_sha256 ct_eq to_be_bytes
other_address = refl

client-IsAddress : IsAddress client
unfolding IsAddress
client-IsAddress = (refl, omega arith)

token_bytes : all (λ b. ltb b 256) (mint sums retry_key client odcid) ≡ true
unfolding mint mac hmac_sha256 to_be_bytes
token_bytes = refl

own_token : validate sums retry_key client (mint sums retry_key client odcid) ≡ some odcid
unfolding validate mint mac hmac_sha256 ct_eq to_be_bytes
own_token = refl

validate_bound_example :
    ((client ≡ client) × (odcid ≡ odcid))
    ⊎ ((m : Bytes) × (n : Bytes) × (m ≢ n)
        × (take 16 (hmac_sha256 sums retry_key m) ≡ take 16 (hmac_sha256 sums retry_key n)))
validate_bound_example =
    validate_bound sums length-sums retry_key client client odcid odcid client-IsAddress
      client-IsAddress token_bytes own_token
