-- ===== src/Payments/Interleaved.antt =====
-- Two deliveries of one webhook at the same time. Each reads the payment, which locks nothing, and
-- credits it afterwards in a transaction of its own; between its two steps the other may run.
use quickpaybet.Prelude.{
  ◌≡◌, ◌⊎◌, inl, inr, refl, ◌∙◌, sym, ap, Option, none, some, List, find, arith,
}
use quickpaybet.Prelude.Int.{pos, ◌<ℤ◌, ◌+ℤ◌, int_laws, parts}
use quickpaybet.Prelude.Table.{put_row}
use quickpaybet.Action.{or_raise, payment_not_found}
use quickpaybet.Payments.Confirmed.{
  awaits, put-settled, put-found, find_deposit-runs, credit_deposit-marks, Payments, completed_row,
}
use quickpaybet.Models.Money.{Money}
use quickpaybet.Models.Payments.{Text, CryptoPayment}
use quickpaybet.Models.Database.{Database}
use quickpaybet.Action.{Done, Result, ok, err, returns, ◌▸◌}
use quickpaybet.Action.Triple.{Ends, returns_done, when_done}
use quickpaybet.Payments.Confirmed.{DistinctPayments}
use quickpaybet.Payments.Deposits.{find_deposit, credit_deposit, pending_deposit}
use quickpaybet.Payments.Succeeds.{HasUser, Ready, credit_deposit-Ready}
use quickpaybet.Payments.Holding.{amount_of, Holds, credit_deposit-Holds}

-- Where a delivery stands.
pub data Delivery : Type 0 where
  reading : Delivery
  holding : CryptoPayment → Delivery
  credited refused : Delivery

abbrev read_of : Result CryptoPayment → Delivery
read_of (ok p) = holding p
read_of (err e) = refused

abbrev credit_of : Result Done → Delivery
credit_of (ok x) = credited
credit_of (err e) = refused

-- One step of a delivery for the external id `k`.
unfoldable pub delivery_step : Text → Delivery → Database → Delivery × Database
delivery_step k reading s = (read_of (find_deposit k s).0, (find_deposit k s).1)
delivery_step k (holding p) s = (credit_of (credit_deposit p s).0, (credit_deposit p s).1)
delivery_step k credited s = (credited, s)
delivery_step k refused s = (refused, s)

abbrev pub System : Type 0
System = Database × Delivery × Delivery

-- Either delivery takes its step.
abbrev first : Text → System → System
first k (s, d, e) = ((delivery_step k d s).1, (delivery_step k d s).0, e)

abbrev second : Text → System → System
second k (s, d, e) = ((delivery_step k e s).1, d, (delivery_step k e s).0)

pub data Reach (k : Text) (x : System) : System → Type 0 where
  start : Reach k x x
  step_first : {y z : System} → Reach k x y → z ≡ first k y → Reach k x z
  step_second : {y z : System} → Reach k x y → z ≡ second k y → Reach k x z

-- What a delivery has brought into the wallet.
abbrev pub brought : Money → Delivery → Money
brought a reading = pos 0
brought a (holding p) = pos 0
brought a credited = a
brought a refused = pos 0

module _ (k : Text) (p : CryptoPayment) (ps : List CryptoPayment) (distinct : DistinctPayments ps)
    (waits : find (awaits k) ps ≡ some p) where
  -- The payments are untouched, or nothing waits under `k`.
  abbrev Settled : Database → Type 0
  Settled s = (s.payments ≡ ps) ⊎ (find (awaits k) s.payments ≡ none)

  abbrev Fits : Delivery → Type 0
  Fits reading = Unit
  Fits (holding q) = q ≡ p
  Fits credited = Unit
  Fits refused = Unit

  abbrev Moved : Money → Delivery → Database → Type 0
  Moved b d s = Settled s × Fits d × Holds p.user (b +ℤ brought (amount_of p) d) s

  Settled-put :
      (s t : Database)
      → Settled s
      → t.payments ≡ put_row CryptoPayment.id (completed_row p) s.payments
      → Settled t
  Settled-put s t (inl e) h = inr (rw (h, e) (put-found k p ps distinct waits))
  Settled-put s t (inr e) h = inr (rw h (put-settled k p s.payments e))

  credit-Moved :
      (s : Database) (b : Money) (r : Result Done × Database)
      → Settled s
      → Ends
          (Payments s.payments)
          (λ _ t. t.payments ≡ put_row CryptoPayment.id (completed_row p) s.payments)
          r
      → Ends (Holds p.user (b +ℤ pos 0)) (λ _. Holds p.user (b +ℤ pos 0 +ℤ amount_of p)) r
      → Moved b (credit_of r.0) r.1
  credit-Moved s b (ok x, t) h marks (w, found, e) =
      (Settled-put s t h marks, tt, (w, found, omega (int_laws, parts e)))
  credit-Moved s b (err x, t) (inl h) same holds = (inl (same ∙ h), tt, holds)
  credit-Moved s b (err x, t) (inr h) same holds = (inr (rw same h), tt, holds)

  read-Moved :
      (s : Database) (b : Money) (o : Option CryptoPayment)
      → pending_deposit k s ≡ o
      → Settled s
      → Holds p.user (b +ℤ pos 0) s
      → let r = or_raise o payment_not_found s in Moved b (read_of r.0) r.1
  unfolding or_raise
  read-Moved s b none found h holds = (h, tt, holds)
  read-Moved s b (some q) found (inl h) holds =
      let waits' : some p ≡ some q = sym waits ∙ ap (find (awaits k)) (sym h) ∙ found in
      (inl h, cc waits', holds)
  read-Moved s b (some q) found (inr h) holds = cc

  delivery_step-Moved :
      (d : Delivery) (s : Database) (b : Money)
      → Moved b d s
      → Moved b (delivery_step k d s).0 (delivery_step k d s).1
  unfolding delivery_step
  delivery_step-Moved reading s b (h, fits, holds) =
      rw find_deposit-runs (read-Moved s b (pending_deposit k s) refl h holds)
  delivery_step-Moved (holding q) s b (h, fits, holds) = rw fits (
      credit-Moved s b (credit_deposit p s) h ((credit_deposit-marks s.payments p).run s refl)
        ((credit_deposit-Holds p (b +ℤ pos 0)).run s holds))
  delivery_step-Moved credited s b h = h
  delivery_step-Moved refused s b h = h

  abbrev Together : Money → System → Type 0
  Together b (s, d, e) =
      Settled s
      × Fits d
      × Fits e
      × Holds p.user (b +ℤ brought (amount_of p) d +ℤ brought (amount_of p) e) s

  Holds-swap :
      (b x y : Money) (s : Database) → Holds p.user (b +ℤ x +ℤ y) s → Holds p.user (b +ℤ y +ℤ x) s
  Holds-swap b x y s (w, found, e) = (w, found, omega (int_laws, parts e))

  Reach-Together : (b : Money) (x y : System) → Reach k x y → Together b x → Together b y
  Reach-Together b x y start h = h
  Reach-Together b x y (step_first {y = (s, d, e)} r q) h =
      let (settled, fd, fe, holds) = Reach-Together b x (s, d, e) r h in
      let a = amount_of p in
      let (settled', fd', holds') =
        delivery_step-Moved d s (b +ℤ brought a e)
          (settled, fd, Holds-swap b (brought a d) (brought a e) s holds) in
      rw q (
        settled',
        fd',
        fe,
        Holds-swap b (brought a e) (brought a (delivery_step k d s).0) (delivery_step k d s).1
            holds',
      )
  Reach-Together b x y (step_second {y = (s, d, e)} r q) h =
      let (settled, fd, fe, holds) = Reach-Together b x (s, d, e) r h in
      let (settled', fe', holds') =
        delivery_step-Moved e s (b +ℤ brought (amount_of p) d) (settled, fe, holds) in
      rw q (settled', fd, fe', holds')

-- Two deliveries of one webhook, read and credited in any order from a state where the payment waits and external ids are unique, leave the user's balance at what it was and the payment's amount once for each delivery that credited it.
pub deliveries_credit_each :
    (k : Text) (p : CryptoPayment) (s : Database) (b : Money) (y : System)
    → DistinctPayments s.payments
    → pending_deposit k s ≡ some p
    → Holds p.user b s
    → Reach k (s, reading, reading) y
    → Holds p.user (b +ℤ brought (amount_of p) y.1 +ℤ brought (amount_of p) y.2) y.0
deliveries_credit_each k p s b y distinct waits (w, found, e) r =
    (Reach-Together k p s.payments distinct waits b (s, reading, reading) y r
      (inl refl, tt, tt, (w, found, omega (int_laws, parts e)))).3

both_read :
    (k : Text) (p : CryptoPayment) (s : Database)
    → pending_deposit k s ≡ some p
    → returns (credit_deposit p) s ≡ ok tt
    → returns (credit_deposit p) (s ▸ credit_deposit p) ≡ ok tt
    → Reach k (s, reading, reading) (s ▸ credit_deposit p ▸ credit_deposit p, credited, credited)
unfolding delivery_step or_raise
both_read k p s waits ok_first ok_second =
    let read : find_deposit k s ≡ (ok p, s) = rw (find_deposit-runs, waits) refl in
    let t = s ▸ credit_deposit p in
    let x : System = (s, reading, reading) in
    let r1 : Reach k x (s, holding p, reading) = step_first start (rw read refl) in
    let r2 : Reach k x (s, holding p, holding p) = step_second r1 (rw read refl) in
    let r3 : Reach k x (t, credited, holding p) = step_first r2 (rw ok_first refl) in
    step_second r3 (rw ok_second refl)

-- If the payment waits, external ids are unique, its amount is above zero, and its user has a row and a wallet, then two deliveries that both read it before either credits it reach a state in which both have credited it, and the balance has grown by the amount twice.
pub concurrent_deliveries_credit_twice :
    (k : Text) (p : CryptoPayment) (s : Database) (b : Money)
    → DistinctPayments s.payments
    → pending_deposit k s ≡ some p
    → HasUser p.user s
    → Holds p.user b s
    → pos 0 <ℤ amount_of p
    → let t = s ▸ credit_deposit p ▸ credit_deposit p in
      Reach k (s, reading, reading) (t, credited, credited)
      × Holds p.user (b +ℤ amount_of p +ℤ amount_of p) t
concurrent_deliveries_credit_twice k p s b distinct waits user (w, found, e) above =
    let T = credit_deposit-Ready p (ground (arith, above)) in
    let ready : Ready p.user s = (user, (w, found)) in
    let first_ok = returns_done T s ready in
    let r =
      both_read k p s waits first_ok
        (returns_done T (s ▸ credit_deposit p) (when_done T s ready first_ok)) in
    (r, deliveries_credit_each k p s b _ distinct waits (w, found, e) r)
