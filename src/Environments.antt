-- ===== src/Environments.antt =====
-- The two environments of a developer's credentials, which records carry as `'sandbox' | 'live'`.
use orbi_pay_gateway_v.Prelude.{Bool, true, false, ◌≡◌, ◌↔◌, arith}

pub data Environment : Type 0 where
  sandbox live : Environment

abbrev pub env_eq : Environment → Environment → Bool
env_eq sandbox sandbox = true
env_eq live live = true
env_eq _ _ = false

pub env_eq_iff : (a b : Environment) → (env_eq a b ≡ true) ↔ (a ≡ b)
env_eq_iff sandbox sandbox = ground arith
env_eq_iff sandbox live = ground arith
env_eq_iff live sandbox = ground arith
env_eq_iff live live = ground arith
