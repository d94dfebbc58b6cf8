-- ===== src/Soundness/Services.antt =====
-- The invariant for deposits, withdrawals, cashback and single bets.
use quickpaybet.Prelude.{ℕ, ◌≡◌, refl, Option, none, some, arith}
use quickpaybet.Prelude.Int.{ℤ, pos, neg, ◌+ℤ◌, ◌-ℤ◌, ◌≤ℤ◌, int_laws}
use quickpaybet.Models.Money.{Money, Odds, Column}
use quickpaybet.Models.Accounts.{User}
use quickpaybet.Models.Sports.{Match, Selection}
use quickpaybet.Models.Wallets.{TxnType}
use quickpaybet.Models.Cashback.{CashbackCredit}
use quickpaybet.Action.{raise, or_raise, no_odds}
use quickpaybet.Action.Triple.{
  Keeps, keeps_rules, or_raise-Triple, after, Keeps-gets, bind-Triple, atomic-Triple, before,
  raise_if-Triple, Keeps-raise_if, Keeps-bind, Keeps-modify,
}
use quickpaybet.Wallet.Funds.{deposit_funds, withdraw_funds}
use quickpaybet.Cashback.Settings.{Settings, get_effective_settings}
use quickpaybet.Cashback.Credit.{new_credit, apply_if, credit_cashback_for_loss}
use quickpaybet.Pricing.Effective.{get_effective_odds_for_user, price_of}
use quickpaybet.Bets.Limits.{check_stake, get_bet_odds}
use quickpaybet.Bets.Place.{place_bet, quote_bet, create_bet, create_for}
use quickpaybet.Soundness.Invariant.{Sound, Held}
use quickpaybet.Soundness.Statements.{get_or_create-Triple, entry-Triple}
use quickpaybet.Soundness.Wagers.{charge_stake-Triple, apply_credit-Triple}

pub deposit_funds-Sound : (u : ℕ) (amount : Money) → Keeps Sound (deposit_funds u amount)
unfolding deposit_funds
deposit_funds-Sound u amount = bind-Triple (Keeps-raise_if _ _) (λ _.
    atomic-Triple (λ s h. h)
      (bind-Triple (get_or_create-Triple u) (λ w.
        before (λ s h. h.0)
          (entry-Triple w (record w { balance = w.balance +ℤ amount }) TxnType.deposit amount refl
            (omega int_laws) (omega int_laws) refl))))

pub withdraw_funds-Sound : (u : ℕ) (amount : Money) → Keeps Sound (withdraw_funds u amount)
unfolding withdraw_funds
withdraw_funds-Sound u amount = bind-Triple (Keeps-raise_if _ _) (λ _.
    atomic-Triple (λ s h. h)
      (bind-Triple (get_or_create-Triple u) (λ w.
        bind-Triple {Q = λ _. Held w}
          (before (λ s h. h.0) (after (λ a s h. h.0) (raise_if-Triple _ _ (λ s h. h.0))))
          (λ _.
            entry-Triple w (record w { balance = w.balance -ℤ amount }) TxnType.withdrawal
              (neg amount) refl (omega int_laws) (omega int_laws) refl))))

-- A credit that is issued is above zero.
pub new_credit_nonneg :
    ⦃c : Column⦄ (cfg : Settings) (user : User) (n : ℤ) (d : ℕ) (x : CashbackCredit)
    → new_credit cfg user n d ≡ some x
    → pos 0 ≤ℤ x.cashback_amount
unfolding new_credit
new_credit_nonneg ⦃c⦄ cfg user n d x h = ground arith

pub check_stake-Sound : (user : User) (stake : Money) → Keeps Sound (check_stake user stake)
unfolding check_stake
check_stake-Sound user stake = search keeps_rules

pub get_bet_odds-Sound :
    (m : Match) (selection : Option Selection) (user : User)
    → Keeps Sound (get_bet_odds m selection user)
unfolding get_bet_odds raise or_raise
get_bet_odds-Sound m none user = record { run = λ s h. h }
get_bet_odds-Sound m (some selection) user = record {
  run = λ s h.
      (after (λ a s h. h.0)
          (or_raise-Triple (price_of (get_effective_odds_for_user s m user) selection) no_odds
            (λ s h. h))).run
        s h;
}

quote_bet-Sound :
    (user : User) (k : ℕ) (selection : Option Selection) (shown : Option Odds)
    → Keeps Sound (quote_bet user k selection shown)
unfolding quote_bet
quote_bet-Sound user k selection shown = search (keeps_rules, get_bet_odds-Sound) depth 10

module _ ⦃c : Column⦄ where
  apply_if-Sound :
      (o : Option CashbackCredit)
      → ((x : CashbackCredit) → o ≡ some x → pos 0 ≤ℤ x.cashback_amount)
      → Keeps Sound (apply_if o)
  apply_if-Sound none h = search keeps_rules
  apply_if-Sound (some x) h = apply_credit-Triple x (h x refl)

  pub credit_cashback_for_loss-Sound :
      (user : User) (n : ℤ) (d : ℕ) → Keeps Sound (credit_cashback_for_loss user n d)
  unfolding credit_cashback_for_loss
  credit_cashback_for_loss-Sound user n d =
      Keeps-bind _ _ (Keeps-gets _) (λ config.
        apply_if-Sound _ (new_credit_nonneg (get_effective_settings config user) user n d))

  create_for-Sound :
      (user : User) (m : Match) (selection : Option Selection) (odds : Odds) (stake : Money)
      → Keeps Sound (create_for user m selection odds stake)
  unfolding create_bet
  create_for-Sound user m none odds stake = search keeps_rules
  create_for-Sound user m (some selection) odds stake = Keeps-modify _ (λ s h. h)

  -- A bet, placed or refused, keeps the invariant.
  pub place_bet-Sound :
      (user : User) (k : ℕ) (selection : Option Selection) (stake : Money) (shown : Option Odds)
      → Keeps Sound (place_bet user k selection stake shown)
  unfolding place_bet
  place_bet-Sound user k selection stake shown =
      search
        (keeps_rules, check_stake-Sound, quote_bet-Sound, charge_stake-Triple, create_for-Sound)
        depth 8
