-- ===== src/Portal/Account.antt =====
-- `Entitlement` and `AccountRecord` of crates/nil-portal/src/account/model.rs.
use nil.Prelude.{ℕ, Option, none, some, Bytes, leb, if◌then◌else◌}

pub data Entitlement : Type 0 where
  no_entitlement : Entitlement
  active : ℕ → Entitlement
  expired : Entitlement

pub record AccountRecord : Type 0 where
  pub account_number : Bytes
  pub entitlement : Entitlement
  pub auth_pubkey : Bytes

-- `Entitlement::resolved`
unfoldable pub resolved : Entitlement → ℕ → Entitlement
resolved no_entitlement now_secs = no_entitlement
resolved (active until) now_secs = if leb until now_secs then expired else active until
resolved expired now_secs = expired

abbrev until_of : Entitlement → Option ℕ
until_of (active until) = some until
until_of _ = none

-- `Entitlement::active_until`
unfoldable pub active_until : Entitlement → ℕ → Option ℕ
unfolding resolved
active_until e now_secs = until_of (resolved e now_secs)
