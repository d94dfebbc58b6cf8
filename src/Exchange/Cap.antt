-- ===== src/Exchange/Cap.antt =====
-- The two orders that the house places on one selection.
use quickpaybet.Prelude.{ℕ, ◌*◌, ◌/◌, ◌+◌, ◌<◌, ◌≤◌, arith}
use native.Mathlib.Nat.{div-add-mod, mod-lt}
use quickpaybet.Prelude.Int.{
  ℤ, pos, negsuc, pos_part, ◌+ℤ◌, ◌-ℤ◌, ◌*ℤ◌, ◌≤ℤ◌, ◌<ℤ◌, int_laws, *ℤ_pos,
}
use quickpaybet.Prelude.Decimal.{by_sign, quantize_down}
use quickpaybet.Models.Money.{Money, Odds}
use quickpaybet.Models.Exchange.{back, lay}
use quickpaybet.Exchange.Matching.{exposure, exposure_rate}
use quickpaybet.Exchange.House.{stake_to_offer, headroom}

-- Half of `n`, rounded down to whole stakes, and less than one more stake.
half_down : (n r : ℕ) → 0 < r → (2 * (n / (2 * r) * r) ≤ n) × (n < 2 * (n / (2 * r) * r) + 2 * r)
half_down n r h =
    let p : 0 < 2 * r = omega (arith, h) in omega (arith, div-add-mod n (2 * r), mod-lt n p)

room_half :
    (room r : ℤ)
    → pos 0 <ℤ room
    → pos 0 <ℤ r
    → let e = quantize_down room (2 * pos_part r) *ℤ r in
      (e +ℤ e ≤ℤ room) × (room <ℤ e +ℤ e +ℤ r +ℤ r)
unfolding by_sign
room_half (pos n) (pos r) h k =
    let b = half_down n r (omega (arith, k)) in
    rw (*ℤ_pos (n / (2 * r)) r) (omega (int_laws, b.0), omega (int_laws, b.1))
room_half (pos n) (negsuc r) h k = absurd (omega (arith, k))
room_half (negsuc n) r h k = absurd (omega (arith, h))

-- If the house's committed liability is below its cap and the lay price is above 1.00, then what it commits and the exposures of the two stakes that it offers are together at most the cap, and short of it by less than one unit of stake on each side.
pub stake_to_offer-IsCapped :
    (cap : Money) (liability : ℤ) (back_odds lay_odds : Odds)
    → liability <ℤ cap *ℤ pos 100
    → pos 100 <ℤ lay_odds
    → let room = headroom cap liability in
      let backs = exposure back back_odds (stake_to_offer room back back_odds) in
      let lays = exposure lay lay_odds (stake_to_offer room lay lay_odds) in
      (liability +ℤ backs +ℤ lays ≤ℤ cap *ℤ pos 100)
      × (cap *ℤ pos 100 <ℤ liability +ℤ backs +ℤ lays +ℤ lay_odds)
unfolding stake_to_offer exposure exposure_rate
stake_to_offer-IsCapped cap liability back_odds lay_odds below above =
    let room = headroom cap liability in
    let positive : pos 0 <ℤ room = omega (int_laws, below) in
    let b = room_half room (pos 100) positive (omega arith) in
    let l = room_half room (lay_odds -ℤ pos 100) positive (omega (int_laws, above)) in
    (omega (int_laws, b.0, l.0), omega (int_laws, b.1, l.1))
