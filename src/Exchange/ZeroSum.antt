-- ===== src/Exchange/ZeroSum.antt =====
-- The money of a fill: what it moves between the two sides and the commission.
use quickpaybet.Prelude.{◌≡◌, ◌≢◌, Bool, true, false, arith, ==_ne}
use quickpaybet.Prelude.Int.{pos, neg, ◌+ℤ◌, ◌-ℤ◌, ◌*ℤ◌, int_laws, *ℤ_parts}
use quickpaybet.Models.Money.{Money, Percent, Column, store}
use quickpaybet.Models.Wallets.{Wallet}
use quickpaybet.Models.Exchange.{back, lay, ExchangeOrder, ExchangeFill}
use quickpaybet.Exchange.Fills.{
  side_change, commission_of, profit_of, net_profit, changed_wallets, apply_change,
}

abbrev other : Bool → Bool
other true = false
other false = true

-- Whichever side wins a fill, the changes of the two balances, in hundredths of the unit, add up to minus the commission.
pub side_change_zero_sum :
    (won : Bool) (b l : ExchangeOrder) (f : ExchangeFill) (rate : Percent)
    → (side_change won back b f rate).balance +ℤ (side_change (other won) lay l f rate).balance
      ≡ neg (commission_of (profit_of won f) rate *ℤ pos 100)
unfolding side_change
side_change_zero_sum true b l f rate = omega int_laws
side_change_zero_sum false b l f rate = omega int_laws

-- A change by whole units is stored exactly.
store-gain :
    ⦃c : Column⦄ (b p k : Money)
    → store (b *ℤ pos 100 +ℤ (p *ℤ pos 100 -ℤ k *ℤ pos 100)) 100 ≡ b +ℤ p -ℤ k
store-gain ⦃c⦄ b p k =
    let units : b *ℤ pos 100 +ℤ (p *ℤ pos 100 -ℤ k *ℤ pos 100) ≡ (b +ℤ p -ℤ k) *ℤ pos 100 = omega (
      int_laws,
      *ℤ_parts b (pos 100),
      *ℤ_parts p (pos 100),
      *ℤ_parts k (pos 100),
      *ℤ_parts (b +ℤ p -ℤ k) (pos 100),
    ) in
    rw units (c.store_exact (b +ℤ p -ℤ k) 100 (omega arith))

store-loss : ⦃c : Column⦄ (b p : Money) → store (b *ℤ pos 100 +ℤ neg (p *ℤ pos 100)) 100 ≡ b -ℤ p
store-loss ⦃c⦄ b p =
    let units : b *ℤ pos 100 +ℤ neg (p *ℤ pos 100) ≡ (b -ℤ p) *ℤ pos 100 =
      omega (int_laws, *ℤ_parts b (pos 100), *ℤ_parts p (pos 100), *ℤ_parts (b -ℤ p) (pos 100)) in
    rw units (c.store_exact (b -ℤ p) 100 (omega arith))

-- The two wallets and the commission, where two users share a profit of whole units.
pub changed_wallets_conserve :
    ⦃c : Column⦄ (won : Bool) (b l : ExchangeOrder) (f : ExchangeFill) (rate : Percent)
    (wb wl : Wallet) (p : Money)
    → wb.user ≢ wl.user
    → profit_of won f ≡ p *ℤ pos 100
    → let (vb, vl) =
        changed_wallets wb
          (side_change won back b f rate)
          wl
          (side_change (other won) lay l f rate) in
      vb.balance +ℤ vl.balance +ℤ commission_of (profit_of won f) rate ≡ wb.balance +ℤ wl.balance
unfolding changed_wallets side_change net_profit apply_change
changed_wallets_conserve ⦃c⦄ true b l f rate wb wl p ne e =
    rw
      (
        ==_ne ne,
        e,
        store-gain wb.balance p (commission_of (p *ℤ pos 100) rate),
        store-loss wl.balance p,
      )
      (omega int_laws)
changed_wallets_conserve ⦃c⦄ false b l f rate wb wl p ne e =
    rw
      (
        ==_ne ne,
        e,
        store-gain wl.balance p (commission_of (p *ℤ pos 100) rate),
        store-loss wb.balance p,
      )
      (omega int_laws)
