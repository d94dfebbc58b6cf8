-- ===== src/Wallet/Reconciled.antt =====
-- Do the balances of the wallets agree with the ledger rows? The invariant, and its preservation by
-- the statements of Wallet/Ledger.
use quickpaybet.Prelude.{
  ℕ, All, ◌≢◌, refl, sym, ◌∙◌, ◌+◌, ◌≡◌, Bool, true, false, Option, none, some, List, [], ◌∷◌, ◌++◌,
  arith, ◌==◌, ==_refl, ==_ne, Option-cases, if◌then◌else◌, inl, inr,
}
use quickpaybet.Prelude.Int.{pos, ◌+ℤ◌, ◌≤ℤ◌, int_laws, +ℤ_zero}
use quickpaybet.Prelude.Table.{
  get_row, put_row, get-put_self, get-put_ne, get-append, get-append_some,
}
use native.Mathlib.Nat.{add-zero}
use native.Mathlib.Decide.{ℕ_discrete as dec_eq}
use quickpaybet.Models.Money.{Money}
use quickpaybet.Models.Wallets.{Wallet, WalletTransaction, TxnType}
use quickpaybet.Wallet.Ledger.{new_wallet}

-- The sum of a wallet's ledger rows.
abbrev pub total : ℕ → List WalletTransaction → Money
total u [] = pos 0
total u (t ∷ ts) = if t.wallet == u then t.amount +ℤ total u ts else total u ts

-- The kinds of rows whose amount may have more places than its column.
abbrev pub is_rounded : TxnType → Bool
is_rounded TxnType.bet_won = true
is_rounded TxnType.commission = true
is_rounded TxnType.exchange_won = true
is_rounded TxnType.exchange_lost = true
is_rounded _ = false

abbrev pub slack : TxnType → ℕ
slack k = if is_rounded k then 1 else 0

-- How many of a wallet's rows the column may have rounded.
abbrev pub roundings : ℕ → List WalletTransaction → ℕ
roundings u [] = 0
roundings u (t ∷ ts) = if t.wallet == u then slack t.txn_type + roundings u ts else roundings u ts

abbrev pub Agrees : Option Wallet → Money → ℕ → Type 0
Agrees none sum n = (sum ≡ pos 0) × (n ≡ 0)
Agrees (some w) sum n = (w.balance ≤ℤ sum +ℤ pos n) × (sum ≤ℤ w.balance +ℤ pos n)

-- Every balance is the sum of its ledger rows, up to one unit for each row that was rounded; a user
-- without a wallet has no rows.
pub record IsReconciled (ws : List Wallet) (ts : List WalletTransaction) : Type 0 where
  pub at : (u : ℕ) → Agrees (get_row Wallet.user u ws) (total u ts) (roundings u ts)

pub total-append :
    (u : ℕ) (ts es : List WalletTransaction) → total u (ts ++ es) ≡ total u ts +ℤ total u es
total-append u [] es = omega int_laws
total-append u (t ∷ ts) es = grind (int_laws, total-append u ts es)

pub roundings-append :
    (u : ℕ) (ts es : List WalletTransaction)
    → roundings u (ts ++ es) ≡ roundings u ts + roundings u es
roundings-append u [] es = omega arith
roundings-append u (t ∷ ts) es = ground (arith, roundings-append u ts es)

-- Rows of one wallet.
abbrev pub Owned : ℕ → List WalletTransaction → Type 0
Owned u = All (λ t. t.wallet ≡ u)

total-Owned :
    (u v : ℕ) (es : List WalletTransaction)
    → Owned u es
    → u ≢ v
    → (total v es ≡ pos 0) × (roundings v es ≡ 0)
total-Owned u v [] o ne = (refl, refl)
total-Owned u v (t ∷ es) o ne =
    let (z, n) = total-Owned u v es o.1 ne in
    rw (==_ne (λ (e : t.wallet ≡ v). ne (sym o.0 ∙ e))) (z, n)

Agrees-entries :
    (w w' : Wallet) (sum amount : Money) (n k : ℕ)
    → Agrees (some w) sum n
    → w'.balance ≤ℤ w.balance +ℤ amount +ℤ pos k
    → w.balance +ℤ amount ≤ℤ w'.balance +ℤ pos k
    → Agrees (some w') (sum +ℤ amount) (n + k)
Agrees-entries w w' sum amount n k h hi lo = omega int_laws

module _ {ws : List Wallet} {ts : List WalletTransaction} (h : IsReconciled ws ts) where
  -- A change of one wallet by what its new ledger rows say, up to the rows' slack.
  pub entries-IsReconciled :
      (w w' : Wallet) (es : List WalletTransaction)
      → get_row Wallet.user w'.user ws ≡ some w
      → Owned w'.user es
      → w'.balance ≤ℤ w.balance +ℤ total w'.user es +ℤ pos (roundings w'.user es)
      → w.balance +ℤ total w'.user es ≤ℤ w'.balance +ℤ pos (roundings w'.user es)
      → IsReconciled (put_row Wallet.user w' ws) (ts ++ es)
  entries-IsReconciled w w' es found owned hi lo = record { at = go }
    where
      go :
          (u : ℕ)
          → Agrees
              (get_row Wallet.user u (put_row Wallet.user w' ws))
              (total u (ts ++ es))
              (roundings u (ts ++ es))
      go u = elim (dec_eq w'.user u) [
        | yes e ↦
            rw (total-append, roundings-append, ← e)
              (rw (get-put_self Wallet.user w' w ws found)
                (Agrees-entries w w' _ _ _ _ (rw found at (h.at w'.user)) hi lo))
        | no e ↦
            let (z, n) = total-Owned w'.user u es owned e in
            rw (total-append, roundings-append, z, n, +ℤ_zero, add-zero)
              (rw (get-put_ne Wallet.user u w' ws e) (h.at u))
      ]

  -- Saving a wallet with the balance that it has.
  pub save-IsReconciled :
      (w w' : Wallet)
      → get_row Wallet.user w'.user ws ≡ some w
      → w'.balance ≡ w.balance
      → IsReconciled (put_row Wallet.user w' ws) ts
  save-IsReconciled w w' found same = record { at = go }
    where
      go :
          (u : ℕ)
          → Agrees (get_row Wallet.user u (put_row Wallet.user w' ws)) (total u ts) (roundings u ts)
      go u = elim (dec_eq w'.user u) [
        | yes e ↦
            rw (← e)
              (rw (get-put_self Wallet.user w' w ws found) (rw same (rw found at (h.at w'.user))))
        | no e ↦ rw (get-put_ne Wallet.user u w' ws e) (h.at u)
      ]

  -- A new, empty wallet.
  pub new-IsReconciled :
      (u : ℕ) → get_row Wallet.user u ws ≡ none → IsReconciled (ws ++ new_wallet u ∷ []) ts
  new-IsReconciled u missing = record { at = go }
    where
      empty : Agrees none (total u ts) (roundings u ts)
      empty = rw missing at (h.at u)

      go :
          (v : ℕ)
          → Agrees (get_row Wallet.user v (ws ++ new_wallet u ∷ [])) (total v ts) (roundings v ts)
      go v = elim (Option-cases (get_row Wallet.user v ws)) [
        | inl none_v ↦ elim (dec_eq u v) [
          | yes e ↦
              rw (get-append Wallet.user v (new_wallet u) ws none_v)
                (rw (← e, ==_refl) (let (z, n) = empty in rw (z, n) (omega int_laws)))
          | no e ↦
              rw (get-append Wallet.user v (new_wallet u) ws none_v)
                (rw (==_ne e) (rw none_v at (h.at v)))
        ]
        | inr (w, e) ↦ rw (get-append_some Wallet.user v (new_wallet u) w ws e) (rw e at (h.at v))
      ]
