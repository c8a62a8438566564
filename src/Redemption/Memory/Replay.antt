-- ===== src/Redemption/Memory/Replay.antt =====
-- What a commit answers: the first one, its retries, and calls with bad arguments
-- (crates/nil-coordinator/src/nullifier.rs).
use nil.Prelude.{
  ℕ, ◌<◌, ◌≡◌, refl, ◌∙◌, true, false, Option, none, some, List, [], ◌∷◌, arith, Bytes, Result, ok,
  err, inl, inr, Bool-cases, bytes_beq, bytes_beq_iff, bytes_beq_refl, bytes_eq, ◌⊎◌, length,
}
use nil.Prelude.Dict.{get, insert, get-insert, get-map_values}
use nil.Redemption.Cipher.{
  Aead, IsAead, IoError, open_sealed, open_sealed-seal, outside_bounds, nonce_len,
}
use nil.Redemption.Record.{granted, StoredRecord, validate_commit, live_outcome}
use nil.Redemption.Memory.{
  Ledger, Call, commits, prunes, drops, commit_or_replay, prune_expired_replays, drop_epochs,
  prune_record, step, run, commit_validated,
}
use nil.Redemption.Memory.Cases.{commit_cases}
use nil.Redemption.Memory.Spent.{step-partitioned, commit-partitioned}

-- The ledger holds a result that opens to `response` and lives up to `until`.
pub record Holds (a : Aead) (l : Ledger) (key : Bytes) (until : ℕ) (response : Bytes) : Type 0 where
  pub held : StoredRecord
  pub found : get l.records key ≡ some held
  pub dated : held.replay_until ≡ some until
  pub sealed :
      (c : Bytes) × (held.ciphertext ≡ some c)
      × (open_sealed a l.secret held.epoch key until c ≡ ok response)

validate_bounds :
    (key : Bytes) (until : ℕ) (response : Bytes) (now : ℕ)
    → validate_commit key until response now ≡ ok tt
    → (now < until) × (outside_bounds response ≡ false)
unfolding validate_commit
validate_bounds key until response now h = ground arith

module _ (a : Aead) (laws : IsAead a) where
  -- The first commit of a nullifier, with valid arguments and with entropy, is granted the proposed
  -- response as new, and the ledger holds that response until the given expiry.
  pub first_commit :
      (l : Ledger) (nonce : Bytes) (epoch : ℕ) (key : Bytes) (until : ℕ) (response : Bytes)
      (now : ℕ)
      → length l.secret ≡ 32
      → length nonce ≡ nonce_len
      → validate_commit key until response now ≡ ok tt
      → get l.records key ≡ none
      → ((commit_or_replay a l (some nonce) epoch key until response now).0
          ≡ ok (granted response true))
        × Holds a
            (commit_or_replay a l (some nonce) epoch key until response now).1
            key
            until
            response
  unfolding commit_or_replay live_outcome
  first_commit l nonce epoch key until response now hs hn hv hk =
      let (early, bounded) = validate_bounds key until response now hv in
      let (c, made, opens) =
        open_sealed-seal a laws l.secret nonce epoch key until response hs hn bounded in
      let fresh : StoredRecord = record {
        epoch = epoch;
        replay_until = some until;
        ciphertext = some c;
      } in
      let answer : commit_or_replay a l (some nonce) epoch key until response now
          ≡ (ok (granted response true), record l { records = insert l.records key fresh }) =
        ground (arith, hv, hk, made, early, opens) in
      rw answer (
        refl,
        record {
          held = fresh;
          found = ground (arith, get-insert l.records key key fresh, bytes_beq_refl key);
          dated = refl;
          sealed = (c, refl, opens);
        },
      )

-- A commit whose arguments are refused changes nothing.
commit_valid :
    (a : Aead) (l : Ledger) (entropy : Option Bytes) (epoch : ℕ) (key : Bytes) (until : ℕ)
    (response : Bytes) (now : ℕ) (valid : Result (Unit {0}) IoError)
    → (valid ≡ ok tt) ⊎ ((commit_validated a l entropy epoch key until response now valid).1 ≡ l)
commit_valid a l entropy epoch key until response now (ok tt) = inl refl
commit_valid a l entropy epoch key until response now (err e) = inr refl

module _ (a : Aead) where
  -- While the held result is live, any commit of the same nullifier with valid arguments, whatever
  -- response, epoch or expiry it proposes, gets the held response, not as new, and changes nothing.
  pub retry_replays :
      (l : Ledger) (entropy : Option Bytes) (epoch : ℕ) (key : Bytes) (until' : ℕ)
      (response' : Bytes) (now : ℕ) (until : ℕ) (response : Bytes)
      → Holds a l key until response
      → now < until
      → validate_commit key until' response' now ≡ ok tt
      → commit_or_replay a l entropy epoch key until' response' now
        ≡ (ok (granted response false), l)
  unfolding commit_or_replay live_outcome
  retry_replays l entropy epoch key until' response' now until response h live valid =
      let (c, at, opens) = h.sealed in ground (arith, h.found, h.dated, at, opens)

-- Every call of a history runs before the given time.
abbrev pub AllBefore : ℕ → List Call → Type 0
AllBefore until [] = Unit
AllBefore until (commits _ _ _ _ _ now ∷ cs) = (now < until) × AllBefore until cs
AllBefore until (prunes now ∷ cs) = (now < until) × AllBefore until cs
AllBefore until (drops _ ∷ cs) = AllBefore until cs

AllBefore-head :
    (until : ℕ) (c : Call) (cs : List Call) → AllBefore until (c ∷ cs) → AllBefore until (c ∷ [])
AllBefore-head until (commits _ _ _ _ _ now) cs h = (h.0, tt)
AllBefore-head until (prunes now) cs h = (h.0, tt)
AllBefore-head until (drops es) cs h = tt

AllBefore-tail :
    (until : ℕ) (c : Call) (cs : List Call) → AllBefore until (c ∷ cs) → AllBefore until cs
AllBefore-tail until (commits _ _ _ _ _ now) cs h = h.1
AllBefore-tail until (prunes now) cs h = h.1
AllBefore-tail until (drops es) cs h = h

insert-Holds :
    (a : Aead) (l : Ledger) (k : Bytes) (r : StoredRecord) (key : Bytes) (until : ℕ)
    (response : Bytes)
    → bytes_beq k key ≡ false
    → Holds a l key until response
    → Holds a (record l { records = insert l.records k r }) key until response
insert-Holds a l k r key until response other h = record {
  held = h.held;
  found = rw (get-insert l.records k key r, other) h.found;
  dated = h.dated;
  sealed = h.sealed;
}

module _ (a : Aead) where
  commit_other-Holds :
      (l : Ledger) (entropy : Option Bytes) (epoch : ℕ) (k : Bytes) (until' : ℕ) (response' : Bytes)
      (now : ℕ) (key : Bytes) (until : ℕ) (response : Bytes)
      → bytes_beq k key ≡ false
      → Holds a l key until response
      → Holds a (commit_or_replay a l entropy epoch k until' response' now).1 key until response
  commit_other-Holds l entropy epoch k until' response' now key until response other h =
      commit_cases a (λ l'. Holds a l' key until response) l h entropy epoch k until' response' now
        (λ r. insert-Holds a l k r key until response other h)

  commit_same-Holds :
      (l : Ledger) (entropy : Option Bytes) (epoch : ℕ) (key : Bytes) (until' : ℕ)
      (response' : Bytes) (now : ℕ) (until : ℕ) (response : Bytes)
      → now < until
      → Holds a l key until response
      → Holds a (commit_or_replay a l entropy epoch key until' response' now).1 key until response
  commit_same-Holds l entropy epoch key until' response' now until response early h =
      elim (commit_valid a l entropy epoch key until' response' now
        (validate_commit key until' response' now)) [
          | inl valid ↦
              rw
                (retry_replays a l entropy epoch key until' response' now until response h early
                  valid)
                h
          | inr unchanged ↦ unfold commit_or_replay in rw unchanged h
        ]

  prune-Holds :
      (l : Ledger) (now : ℕ) (key : Bytes) (until : ℕ) (response : Bytes)
      → now < until
      → Holds a l key until response
      → Holds a (prune_expired_replays now l).1 key until response
  unfolding prune_expired_replays prune_record
  prune-Holds l now key until response early h = record {
    held = h.held;
    found = rw (get-map_values (prune_record now) l.records key, h.found) (ground (arith, h.dated));
    dated = h.dated;
    sealed = h.sealed;
  }

  drop-Holds :
      (l : Ledger) (es : List ℕ) (key : Bytes) (until : ℕ) (response : Bytes)
      → l.partitioned ≡ false
      → Holds a l key until response
      → Holds a (drop_epochs es l).1 key until response
  unfolding drop_epochs
  drop-Holds l [] key until response flat h = h
  drop-Holds l (e ∷ es) key until response flat h = simp flat h

  step-Holds :
      (l : Ledger) (c : Call) (key : Bytes) (until : ℕ) (response : Bytes)
      → l.partitioned ≡ false
      → AllBefore until (c ∷ [])
      → Holds a l key until response
      → Holds a (step a l c) key until response
  unfolding step
  step-Holds l (commits entropy epoch k until' response' now) key until response flat early h =
      elim (Bool-cases (bytes_beq k key)) [
        | inl same ↦
            let e : k ≡ key = (bytes_beq_iff k key).0 same in
            rw e
              (commit_same-Holds l entropy epoch key until' response' now until response early.0 h)
        | inr different ↦
            commit_other-Holds l entropy epoch k until' response' now key until response different h
      ]
  step-Holds l (prunes now) key until response flat early h =
      prune-Holds l now key until response early.0 h
  step-Holds l (drops es) key until response flat early h =
      drop-Holds l es key until response flat h

  run-Holds :
      (l : Ledger) (cs : List Call) (key : Bytes) (until : ℕ) (response : Bytes)
      → l.partitioned ≡ false
      → AllBefore until cs
      → Holds a l key until response
      → Holds a (run a l cs) key until response
  unfolding run
  run-Holds l [] key until response flat early h = h
  run-Holds l (c ∷ cs) key until response flat early h =
      run-Holds (step a l c) cs key until response (step-partitioned a l c ∙ flat)
        (AllBefore-tail until c cs early)
        (step-Holds l c key until response flat (AllBefore-head until c cs early) h)

module _ (a : Aead) (laws : IsAead a) where
  -- In a store that is not partitioned, after the first commit of a nullifier and any history of
  -- further calls before the given expiry, a retry before that expiry whose own key, bound and
  -- response pass the validation gets exactly the first response, marked as not new, and leaves the
  -- store as it was.
  pub retry_after_history :
      (l : Ledger) (nonce : Bytes) (epoch : ℕ) (key : Bytes) (until : ℕ) (response : Bytes)
      (now : ℕ) (cs : List Call) (entropy : Option Bytes) (epoch' until' : ℕ) (response' : Bytes)
      (later : ℕ)
      → l.partitioned ≡ false
      → length l.secret ≡ 32
      → length nonce ≡ nonce_len
      → get l.records key ≡ none
      → validate_commit key until response now ≡ ok tt
      → AllBefore until cs
      → later < until
      → validate_commit key until' response' later ≡ ok tt
      → let l' = run a (commit_or_replay a l (some nonce) epoch key until response now).1 cs in
        commit_or_replay a l' entropy epoch' key until' response' later
        ≡ (ok (granted response false), l')
  retry_after_history l nonce epoch key until response now cs entropy epoch' until' response' later
        flat hs hn fresh valid early in_time valid' =
      retry_replays a _ entropy epoch' key until' response' later until response
        (run-Holds a _ cs key until response
          (commit-partitioned a l (some nonce) epoch key until response now ∙ flat) early
          (first_commit a laws l nonce epoch key until response now hs hn valid fresh).1)
        in_time valid'
