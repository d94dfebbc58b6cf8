-- ===== src/Payments/Confirmed.antt =====
-- One webhook after another for a payment, and two at the same time.
use quickpaybet.Prelude.{
  ◌≡◌, refl, ap, Bool, false, ◌&&◌, none, some, List, [], ◌∷◌, find, arith, ◌==◌, Bool-cases, inl,
  inr,
}
use quickpaybet.Prelude.Table.{put_row}
use mathlib.Core.Path.{subst}
use quickpaybet.Models.Payments.{Text, CryptoPayment, PaymentStatus, is_deposit, is_pending_payment}
use quickpaybet.Models.Database.{Database}
use quickpaybet.Action.{or_raise, ok, err, payment_not_found, returns, ◌▸◌, ◌>>=◌}
use quickpaybet.Action.Triple.{
  Triple, bind-Triple, undone-Triple, forget, modify-Triple, when_done, or_raise-Triple, given,
  before, after, relax,
}
use quickpaybet.Wallet.Unread.{Unread, deposit_funds-Keeps}
use quickpaybet.Payments.Requests.{has_external_id, save_payment}
use quickpaybet.Payments.Kept.{apply_reward_packages-Keeps}
use quickpaybet.Payments.Deposits.{
  pending_deposit, find_deposit, credit_deposit, handle_deposit_success,
}

-- `external_id` is unique.
abbrev pub DistinctPayments : List CryptoPayment → Type 0
DistinctPayments [] = Unit
DistinctPayments (p ∷ ps) = (has_external_id p.external_id ps ≡ false) × DistinctPayments ps

abbrev pub completed_row : CryptoPayment → CryptoPayment
completed_row p = record p { status = PaymentStatus.completed }

module _ (ps : List CryptoPayment) where
  abbrev pub Payments : Database → Type 0
  Payments s = s.payments ≡ ps

  Payments-Unread : Unread Payments
  Payments-Unread = record { with_wallets = λ s ws i. i; with_transactions = λ s ts i. i }

  -- A deposit that is credited marks its row.
  pub credit_deposit-marks :
      (p : CryptoPayment)
      → Triple Payments Payments
          (credit_deposit p)
          (λ _ s. s.payments ≡ put_row CryptoPayment.id (completed_row p) ps)
  unfolding credit_deposit save_payment
  credit_deposit-marks p =
      undone-Triple {J = λ s. Unit} (λ s i. i)
        (bind-Triple (forget (λ s i. tt) (deposit_funds-Keeps Payments-Unread _ _)) λ _.
          bind-Triple (forget (λ s i. tt) (apply_reward_packages-Keeps (λ s us cs i. i) _))
            λ _. modify-Triple {I = λ s. Unit} _ (λ s i. rw i refl))

-- The test of `handle_deposit_success`'s read.
abbrev pub awaits : Text → CryptoPayment → Bool
awaits k p = p.external_id == k && is_deposit p.payment_type && is_pending_payment p.status

-- Saving a completed payment makes no payment pending.
pub put-settled :
    (k : Text) (p : CryptoPayment) (ps : List CryptoPayment)
    → find (awaits k) ps ≡ none
    → find (awaits k) (put_row CryptoPayment.id (completed_row p) ps) ≡ none
unfolding put_row
put-settled k p [] h = refl
put-settled k p (x ∷ xs) h = ground (arith, put-settled k p xs)

none_without :
    (k : Text) (ps : List CryptoPayment) → has_external_id k ps ≡ false → find (awaits k) ps ≡ none
none_without k [] h = refl
none_without k (x ∷ xs) h = ground (arith, none_without k xs)

-- Where external ids are unique, the payment that is read is the only one that waits under its id.
pub put-found :
    (k : Text) (p : CryptoPayment) (ps : List CryptoPayment)
    → DistinctPayments ps
    → find (awaits k) ps ≡ some p
    → find (awaits k) (put_row CryptoPayment.id (completed_row p) ps) ≡ none
unfolding put_row
put-found k p [] d h = cc
put-found k p (x ∷ xs) d h = elim (Bool-cases (awaits k x)) [
  | inl e ↦
      let q : x ≡ p = cc (rw e at h) in
      let empty : has_external_id k xs ≡ false = ground (arith, e, d.0) in
      subst (λ r. find (awaits k) (put_row CryptoPayment.id (completed_row r) (x ∷ xs)) ≡ none) q
        (ground (arith, put-settled k x xs (none_without k xs empty)))
  | inr e ↦ ground (arith, put-found k p xs d.1 (rw e at h), e)
]

-- A webhook finds nothing that waits.
handle_refused :
    (k : Text) (t : Database)
    → pending_deposit k t ≡ none
    → handle_deposit_success k t ≡ (err payment_not_found, t)
unfolding handle_deposit_success find_deposit ◌>>=◌
handle_refused k t h = ground (arith, h)

pub find_deposit-runs :
    (k : Text) (s : Database)
    → find_deposit k s ≡ or_raise (pending_deposit k s) payment_not_found s
unfolding find_deposit ◌>>=◌
find_deposit-runs k s = refl

find_deposit-Triple :
    (k : Text) (s : Database)
    → Triple
        (λ t. Unit)
        (λ t. t ≡ s)
        (find_deposit k)
        (λ p t. (t ≡ s) × (pending_deposit k s ≡ some p))
find_deposit-Triple k s = record {
  run = λ t e.
      rw (e, find_deposit-runs k s)
        ((or_raise-Triple {P = λ t. t ≡ s} (pending_deposit k s) payment_not_found (λ t h. tt)).run
          s refl);
}

handle-settles :
    (k : Text) (s : Database)
    → DistinctPayments s.payments
    → Triple (λ t. Unit) (λ t. t ≡ s) (handle_deposit_success k) (λ _ t. pending_deposit k t ≡ none)
unfolding handle_deposit_success
handle-settles k s d = bind-Triple (find_deposit-Triple k s) λ p. given λ found.
    before (λ t e. ap Database.payments e)
      (after (λ _ t e. rw e (put-found k p s.payments d found))
        (relax (λ t e. tt) (credit_deposit-marks s.payments p)))

-- Once a deposit is credited, a webhook that comes later for the same external id is refused and changes no table, where external ids are unique.
pub handle_deposit_success-once :
    (k : Text) (s : Database)
    → DistinctPayments s.payments
    → returns (handle_deposit_success k) s ≡ ok tt
    → let s' = s ▸ handle_deposit_success k in
      (returns (handle_deposit_success k) s' ≡ err payment_not_found)
      × (s' ▸ handle_deposit_success k ≡ s')
handle_deposit_success-once k s d done =
    let settled =
      handle_refused k (s ▸ handle_deposit_success k)
        (when_done (handle-settles k s d) s refl done) in
    (ap (λ r. r.0) settled, ap (λ r. r.1) settled)
