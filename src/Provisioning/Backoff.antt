-- ===== src/Provisioning/Backoff.antt =====
-- How long the engine waits between the tries of a connector.
use freecloud.Prelude.{ℕ, zero, suc, ◌*◌, ◌^◌, ◌≤◌, ◌<◌, ◌≡◌, refl, arith, dec_lt}
use freecloud.Provisioning.Engine.{max_backoff, base_backoff, provisioning_backoff}

pow_pos : (n : ℕ) → 1 ≤ 2 ^ n
pow_pos zero = omega arith
pow_pos (suc n) = omega (arith, pow_pos n)

pow_grows : (n : ℕ) → 5 ≤ n → 32 ≤ 2 ^ n
pow_grows (suc (suc (suc (suc (suc n))))) h = omega (arith, pow_pos n)
pow_grows zero h = absurd (omega arith)
pow_grows (suc zero) h = absurd (omega arith)
pow_grows (suc (suc zero)) h = absurd (omega arith)
pow_grows (suc (suc (suc zero))) h = absurd (omega arith)
pow_grows (suc (suc (suc (suc zero)))) h = absurd (omega arith)

backoff_late : (n : ℕ) → 5 ≤ n → provisioning_backoff n ≡ max_backoff
unfolding provisioning_backoff
backoff_late n h = ground (arith, pow_grows n h, pow_grows 20 (omega arith))

backoff_early :
    (n : ℕ)
    → n < 5
    → (provisioning_backoff n ≡ base_backoff * 2 ^ n)
      × (base_backoff ≤ provisioning_backoff n)
      × (provisioning_backoff n ≤ max_backoff)
unfolding provisioning_backoff
backoff_early zero h = (refl, omega arith, omega arith)
backoff_early (suc zero) h = (refl, omega arith, omega arith)
backoff_early (suc (suc zero)) h = (refl, omega arith, omega arith)
backoff_early (suc (suc (suc zero))) h = (refl, omega arith, omega arith)
backoff_early (suc (suc (suc (suc zero)))) h = (refl, omega arith, omega arith)
backoff_early (suc (suc (suc (suc (suc n))))) h = absurd (omega arith)

-- The delay is never below five minutes nor above two hours; up to the fifth retry it doubles, and
-- from then on it is two hours, however large the count is.
pub provisioning_backoff_bounds :
    (n : ℕ)
    → (base_backoff ≤ provisioning_backoff n)
      × (provisioning_backoff n ≤ max_backoff)
      × (n < 5 → provisioning_backoff n ≡ base_backoff * 2 ^ n)
      × (5 ≤ n → provisioning_backoff n ≡ max_backoff)
provisioning_backoff_bounds n = elim (dec_lt n 5) [
  | yes early ↦
      let (doubled, least, most) = backoff_early n early in
      (least, most, λ h. doubled, λ h. absurd (omega arith))
  | no late ↦
      let capped = backoff_late n (omega arith) in
      (omega arith, omega arith, λ h. absurd (omega arith), λ h. capped)
]
