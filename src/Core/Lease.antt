-- ===== src/Core/Lease.antt =====
-- crates/robot-hal-core/src/lease.rs: lease tokens, and the range of a generation (`u64`).
use robot_hal.Prelude.{
  ℕ, ◌+◌, ◌-◌, ◌^◌, ◌≡◌, ◌↔◌, Bool, true, ◌&&◌, Option, none, some, arith, Equality, ◌==◌, nat_eq,
  ltb, if◌then◌else◌,
}
use robot_hal.Core.Names.{
  LeaseId, LeaseMode, eq_lease_id_iff, eq_lease_mode_iff, lease_id_eq, lease_mode_eq,
}

pub record LeaseToken : Type 0 where
  pub lease_id : LeaseId
  pub generation : ℕ
  pub mode : LeaseMode

unfoldable pub eq_lease_token : LeaseToken → LeaseToken → Bool
eq_lease_token a b = a.lease_id == b.lease_id && (a.generation == b.generation && a.mode == b.mode)

pub eq_lease_token_iff : (a b : LeaseToken) → (eq_lease_token a b ≡ true) ↔ (a ≡ b)
unfolding eq_lease_token
eq_lease_token_iff a b =
    ground (arith, eq_lease_id_iff a.lease_id b.lease_id, eq_lease_mode_iff a.mode b.mode)

instance abbrev pub lease_token_eq : Equality LeaseToken
lease_token_eq = record { same = eq_lease_token; same_iff = eq_lease_token_iff }

abbrev pub u64_max : ℕ
u64_max = 2 ^ 64 - 1

-- `u64::checked_add(1)`
abbrev pub checked_succ : ℕ → Option ℕ
checked_succ n = if ltb n u64_max then some (n + 1) else none
