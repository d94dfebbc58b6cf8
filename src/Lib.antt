-- ===== src/Lib.antt =====
-- The money of a betting platform: wallets and their ledger, cashback, sportsbook bets and parlays,
-- a betting exchange, crypto payments and their rewards, and casino games on the same wallets.
-- The code is a Django project; its services, under backend/apps, are plain functions that read and
-- write rows inside database transactions.
--
-- How the parts interact. Every service moves money by locking a user's `Wallet` row, changing
-- `balance`, `reserved_balance` or `locked_cashback_balance`, saving it, and creating a
-- `WalletTransaction` row. `place_bet`, `place_parlay_bet` and `place_order` read odds or orders, charge
-- or reserve a stake, and call `record_wager`, which advances the user's locked cashback credits. The
-- settlements pay or lose each slip; a lost one pays the user's parent a commission and calls
-- `credit_cashback_for_loss`. A payment's webhook and the callbacks of a casino's provider move money
-- for what happened outside: each looks for a row that says that it was served before. Confirmed
-- deposits are ledger rows, by whose sum `apply_reward_packages` raises a user's commission rate.
-- Amounts of payments and casinos are dollars, converted into the wallet's currency where they meet a
-- wallet. The house user's orders on the exchange are placed and cancelled by a job for each match. A user's row
-- (role, parent, commission rate, limits) is edited by admins, and by masters for their children.
--
-- Which file models which part:
--   Prelude     Boolean tests, lists, integers, Python's `Decimal.quantize`, tables of rows by key.
--   Models      The models.py files: accounts, sports, wallet, cashback, bets, exchange, payments and
--               rewards, casino; the tables of the database are one record (Models.Database).
--   Action      A service call as a function from the tables to a result, or an error, and the tables;
--               `atomic` is `transaction.atomic()`. Action.Triple has the rules for proofs about calls.
--   Accounts    backend/apps/accounts. Permissions: permissions.py, and the dashboard's gate in
--               backend/apps/web/views.py; Requests: `admin_user_update_view` of the same file, the API's
--               `AdminUserUpdateView` with its serializer, and registration. Confined, Escalation: what
--               updates by users who are not full admins change; Ranges: the numbers that the form saves.
--   Wallet      backend/apps/wallet/services.py. Ledger: the row statements that every service repeats;
--               Funds: `deposit_funds`, `withdraw_funds`; Rates: the two currency conversions;
--               Reconciled: balances against ledger rows; Unread: services that write only these
--               tables; RoundTrip: one conversion after the other.
--   Cashback    backend/apps/cashback/services.py. Settings, Credit and Wager are its three functions;
--               Locked and Clawback are about the loop of `record_wager`.
--   Pricing     backend/apps/sports/pricing.py. Adjust, Modes and Effective follow the file from the flat
--               adjustments to `get_effective_odds_for_user`; Floors is about its two floors.
--   Bets        backend/apps/bets/services.py. Limits, Place and Commission: single bets and the parent's
--               commission; Parlay and ParlaySettle: parlays; Settle and MatchSettle: settlements.
--               Reads, Money: what leaves which tables alone; Slips, Placed: what a placed parlay is;
--               Verdict, Once: its settlement; Covered, Complete: the bets of a match that is
--               over.
--   Exchange    backend/apps/exchange/services.py. Matching: the book and the loop of `_match_order`;
--               Orders: `place_order`, `cancel_order`; Fills: `_settle_fill`, `_void_fill`; Settle:
--               `settle_exchange_for_match`; Eligible, Priority and Trades are about the book and the
--               loop; ZeroSum, FillWrites and Conserved about settling a fill; Reserve about a fill and
--               the reservations of its orders. Walk, CashOut: `preview_cash_out` and `cash_out_order`, with their
--               helpers; Hedge, Equal: what a cash-out's leg fills and locks in. Book:
--               `get_order_book`. House: `sync_house_orders_for_match`; Cap: its two offers.
--   Payments    backend/apps/payments/services.py. Providers: what a provider answers, and
--               `MockPaymentProvider`; Requests: `create_deposit`, `create_withdrawal_request`; Payouts: the
--               two steps of a manual payout; Deposits: `handle_deposit_success` and the webhook of
--               backend/apps/payments/views.py. Rewards: backend/apps/rewards/services.py. Kept,
--               Granted: what rewards write; Debited, Refund: a withdrawal that fails; Confirmed, Holding,
--               Succeeds, Interleaved: two webhooks for one payment, one after the other and at the same time.
--   Casino      backend/apps/casino/services.py. Launch: `launch_game`; Rounds: `handle_round_settlement`;
--               Seamless: `handle_waija_balance_query`, `handle_waija_wallet_event`; Hud: wallet status,
--               viewers and blur region of a game's page. Applied, Events, Once, Delivery: callbacks that
--               come more than once; Restored: a launch that fails.
--   Soundness   The invariant over wallets, ledger and credits, for each service.
--   Platform    The services as one machine that serves any sequence of calls; Books and Atomicity are
--               about such sequences and about refused calls.
--               `place_order`, `cash_out_order` and the house's job are modelled but are not calls of the
--               machine: `record_wager` then runs on a wallet whose balance may be below zero, and the
--               clawback raises the balance without a ledger row. Manual payouts and queries move no
--               money and are not calls either.
--   Tests       Runs on small inputs, with a column that rounds half to even.
--
-- Numbers. An amount is an integer count of its column's last decimal place: 0.00000001 for money, 0.01
-- for odds, percentages and multipliers, 0.0001 for the exchange rate of currencies. A value that the
-- code holds with more places, as `stake * odds`, is the exact fraction `n / d` of the unit until it
-- is quantized or saved. Python's decimal context keeps 28 significant digits; the model's arithmetic
-- is exact, so it is the code's for products of up to 28 digits, and a longer one (the combined odds of
-- eleven or twelve legs, or odds times a stake near its column's limit) is not rounded in between.
-- How the database rounds what has too many places for
-- its column belongs to Django and the database, so it is the instance `Column` (Models.Money): what
-- fits is stored unchanged, anything else as a nearest value. Dollars count 0.00000001 too. The clock counts
-- milliseconds where a game's page reads it (Casino.Hud). The bounds of the columns' digits are not
-- modelled, so no save overflows.
--
-- State. Rows are never deleted by these services, so ids count the rows of a table. Bets, parlays,
-- orders, fills and credits stand newest first, which is their models' ordering; wallets, ledger rows
-- and legs stand in the order of creation. A wallet is named by its user's id. A `set` of parlay ids is
-- read in the order of the list that it comes from. Text that names no selection or side is `none`.
-- Descriptions, reference ids and timestamps that nothing reads are left out. Text that the code only
-- compares (external ids, call ids, addresses) is a number for each text. What a payment or casino
-- provider answers to a request is an argument of the service, `none` for an exception, and so is whether
-- the cache's lock was free for the house's job; callbacks come parsed. A missing row that
-- the code does not catch is the error `does_not_exist`. Row locks make the services run one after
-- another, so an interleaving of requests is a sequence of calls; `handle_deposit_success`, which
-- reads its payment before it locks anything, is two steps for this reason.
--
-- Loops are recursion on lists of rows, so there is no fuel.
--
-- Not modelled: odds normalisation in sports/pricing.py, whose divisions are rounded to 28 digits; the
-- HTTP clients of the payment and casino providers and the synchronisation of the game catalogue and of
-- sports data, which store what a third party answers; the detection of what a live game's video shows
-- (a browser and a model of third parties); reports, audit rows, logins and passwords, and
-- everything that renders pages, since it is display or only calls the services. Anonymous users do not
-- reach the services modelled here.
pub mod Prelude
pub mod Models
pub mod Accounts
pub mod Action
pub mod Wallet
pub mod Cashback
pub mod Pricing
pub mod Bets
pub mod Exchange
pub mod Payments
pub mod Casino
pub mod Soundness
pub mod Platform
pub mod Tests
