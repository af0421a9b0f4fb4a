-- ===== src/Portal/LateFee.antt =====
-- A plan fee that is paid by a code after that code was replaced: `get_invoice_khqr` of
-- routers/billing.py and `mark_paid` of services/payments.py.
use chmabapay.Base.{
  ℕ, ◌≤◌, ◌≡◌, refl, sym, ap, ◌∙◌, Bool, true, false, not, ◌&&◌, Option, none, some, List, find_by,
  find_by-counted, count_where, count_where-update, count_where-split, count_where_mono,
  count_where-zero→find_by, update_where, is_some_eq, inl, inr, ◌==◌, if◌then◌else◌, Text, and_then,
  Result, arith,
}
use chmabapay.Base.Results.{ok, err, refuse-ok, and_then-ok, ok_injective}
use chmabapay.Model.{Instant, Account, Store, Payment, PlanInvoice, GatewayRaw, Db, Settings}
use chmabapay.Billing.{update_invoice}
use chmabapay.Payments.{store_of, is_terminal, confirm, mark_paid, get_payment}
use chmabapay.Payments.Repeat.{settle_payment-find, has_public_id}
use chmabapay.Payments.Usage.{mark_paid-settles}
use chmabapay.Payments.Mint.{SaleError, Rail}
use chmabapay.Payments.Reissue.{is_dead, reissue_payment}
use chmabapay.Payments.Successors.{reissue_payment-sold}
use chmabapay.Billing.{is_paid}
use chmabapay.Billing.Hq.{resolve_hq_store}
use chmabapay.Portal.InvoiceCode.{
  CodeError, invoice_already_paid, as_code, hq_store_of, invoice_payment_from, invoice_payment,
  refer_to, referred, invoice_code, invoice_or, get_invoice_khqr, stored_payment,
}
use chmabapay.Portal.Unsettled.{settle_payment-KeepsBilling}

-- Once the only invoice that referred to a payment refers to another one, none refers to it.
refer_to-unreferenced :
    (xs : List PlanInvoice) (i : PlanInvoice) (mine : PlanInvoice → Bool) (old new : ℕ)
    (now : Instant)
    → find_by mine xs ≡ some i
    → is_some_eq i.chmabapay_payment_id old ≡ true
    → count_where (λ j. is_some_eq j.chmabapay_payment_id old) xs ≤ 1
    → (new == old) ≡ false
    → find_by
        (λ j. is_some_eq j.chmabapay_payment_id old)
        (update_where (λ j. j.id == i.id) (refer_to new now) xs)
      ≡ none
refer_to-unreferenced xs i mine old new now found refers unique apart =
    let refs = λ (j : PlanInvoice). is_some_eq j.chmabapay_payment_id old in
    let same = λ (j : PlanInvoice). j.id == i.id in
    let others = λ (j : PlanInvoice). refs j && not (same j) in
    count_where-zero→find_by refs (update_where same (refer_to new now) xs) (
      omega (
        arith,
        count_where-update refs same (refer_to new now) xs,
        count_where_mono (λ j. if same j then refs (refer_to new now j) else refs j) others xs
            (λ j h. ground (arith, apart, h)),
        count_where-split refs same xs,
        unique,
        find_by-counted mine (λ j. refs j && same j) xs i found (ground (arith, refers)),
      ))

own_key : (o : Option ℕ) (k : ℕ) → o ≡ some k → is_some_eq o k ≡ true
own_key none k h = absurd (ground (arith, h))
own_key (some j) k h = ground (arith, h)

as_code-ok : {A : Type 0} (r : Result SaleError A) (a : A) → as_code r ≡ ok a → r ≡ ok a
as_code-ok (ok b) a h = ap ok (ok_injective b a h)
as_code-ok (err e) a h = absurd (ground (arith, h))

-- A replacement writes payments only.
reissued-invoices :
    (rail : Rail) (settings : Settings) (db : Db) (i : PlanInvoice) (store : Store)
    (public_id : Text) (now : Instant) (p : Payment) (sold : Db × (Payment × Bool))
    → is_dead p.status ≡ true
    → invoice_payment_from rail settings db i store public_id now (some p) ≡ ok sold
    → sold.0.invoices ≡ db.invoices
unfolding invoice_payment_from
reissued-invoices rail settings db i store public_id now p sold dead h =
    let body : Bool → Result SaleError (Db × (Payment × Bool)) =
      λ b. if b then reissue_payment rail settings db p public_id now else ok (db, (p, false)) in
    let h1 : reissue_payment rail settings db p public_id now ≡ ok sold = ap body (sym dead) ∙ h in
    elim (reissue_payment-sold rail settings db p public_id now sold h1).1 [
      | inl (live, _, e) ↦ ap (λ (r : Db × (Payment × Bool)). r.0.invoices) (sym e)
      | inr (_, _, minted, _, _, e) ↦ ap (λ (r : Db × (Payment × Bool)). r.0.invoices) (sym e)
    ]

-- What a request for a code returns where it succeeds.
get_invoice_khqr-refers :
    (rail : Rail) (settings : Settings) (db : Db) (account : Account) (id : ℕ) (public_id : Text)
    (now : Instant) (i : PlanInvoice) (p : Payment) (db' : Db) (shown : Payment)
    → find_by (λ j. (j.id == id) && (j.account_id == account.id)) db.invoices ≡ some i
    → i.chmabapay_payment_id ≡ some p.id
    → get_payment db p.id ≡ some p
    → is_dead p.status ≡ true
    → get_invoice_khqr rail settings db account id public_id now ≡ ok (db', shown)
    → db'.invoices ≡ update_where (λ j. j.id == i.id) (refer_to shown.id now) db.invoices
unfolding get_invoice_khqr invoice_code invoice_payment invoice_payment_from
get_invoice_khqr-refers rail settings db account id public_id now i p db' shown found refers stored
      dead h =
    let h1 = ap (λ o. invoice_or o (invoice_code rail settings db public_id now)) (sym found) ∙ h in
    let hq = hq_store_of (resolve_hq_store db settings) in
    let pay_into : Store → Result CodeError (Db × Payment) = λ store.
      and_then (as_code (invoice_payment rail settings db i store public_id now))
        (referred i now) in
    let (_, h2) =
      refuse-ok (is_paid i.status) invoice_already_paid (and_then hq pay_into) (db', shown) h1 in
    let (store, _, h3) = and_then-ok hq pay_into (db', shown) h2 in
    let (sold, h4, h5) =
      and_then-ok (as_code (invoice_payment rail settings db i store public_id now))
        (referred i now) (db', shown) h3 in
    let kept = reissued-invoices rail settings db i store public_id now p sold dead (
      ap (invoice_payment_from rail settings db i store public_id now)
        (sym stored ∙ ap (stored_payment db) (sym refers))
      ∙ as_code-ok (invoice_payment rail settings db i store public_id now) sold h4) in
    let e : (update_invoice i.id (refer_to sold.1.0.id now) sold.0, sold.1.0) ≡ (db', shown) =
      ok_injective _ (db', shown) h5 in
    let row : sold.1.0 ≡ shown = ap (λ (r : Db × Payment). r.1) e in
    let same = λ (j : PlanInvoice). j.id == i.id in
    ap (λ (r : Db × Payment). r.0.invoices) (sym e)
    ∙ ap (update_where same (refer_to sold.1.0.id now)) kept
    ∙ ap (λ (r : Payment). update_where same (refer_to r.id now) db.invoices) row

-- After a request for the code of an invoice has replaced a dead code by another one, a late
-- confirmation of the dead code marks that payment paid while the invoices and the subscriptions
-- stay as they are. It assumes that the invoice was the only one that referred to the payment,
-- and that the confirmed payment is not terminal and its store is there.
pub get_invoice_khqr-late :
    (rail : Rail) (settings : Settings) (db : Db) (account : Account) (id : ℕ)
    (public_id old_public_id : Text) (now later : Instant) (i : PlanInvoice) (p q : Payment)
    (db' : Db) (shown : Payment) (store : Store) (ref : Option Text) (raw : Option GatewayRaw)
    → find_by (λ j. (j.id == id) && (j.account_id == account.id)) db.invoices ≡ some i
    → i.chmabapay_payment_id ≡ some p.id
    → count_where (λ j. is_some_eq j.chmabapay_payment_id p.id) db.invoices ≤ 1
    → get_payment db p.id ≡ some p
    → is_dead p.status ≡ true
    → get_invoice_khqr rail settings db account id public_id now ≡ ok (db', shown)
    → (shown.id == p.id) ≡ false
    → find_by (has_public_id old_public_id) db'.payments ≡ some q
    → q.id ≡ p.id
    → is_terminal q.status ≡ false
    → store_of db' q.store_id ≡ some store
    → let late = (mark_paid db' settings old_public_id ref raw later).0 in
      (find_by (has_public_id old_public_id) late.payments ≡ some (confirm ref raw later q))
      × (late.invoices ≡ db'.invoices)
      × (late.subscriptions ≡ db'.subscriptions)
get_invoice_khqr-late rail settings db account id public_id old_public_id now later i p q db' shown
      store ref raw found refers unique stored dead h apart here same live owner =
    let repointed =
      get_invoice_khqr-refers rail settings db account id public_id now i p db' shown found refers
        stored dead h in
    let gone : find_by (λ j. is_some_eq j.chmabapay_payment_id q.id) db'.invoices ≡ none =
      ap (λ k. find_by (λ j. is_some_eq j.chmabapay_payment_id k) db'.invoices) same
      ∙ ap (find_by (λ j. is_some_eq j.chmabapay_payment_id p.id)) repointed
      ∙ refer_to-unreferenced db.invoices i (λ j. (j.id == id) && (j.account_id == account.id)) p.id
          shown.id now found (own_key i.chmabapay_payment_id p.id refers) unique apart in
    let settled =
      mark_paid-settles db' settings old_public_id q store ref raw later here live owner in
    let (invoices, subscriptions) =
      settle_payment-KeepsBilling db' settings q store ref raw later gone in
    let (paid, _, _) =
      settle_payment-find db' settings q store ref raw later (has_public_id old_public_id)
        (λ y. refl) (λ y. refl) here in
    (
      ap (λ (d : Db). find_by (has_public_id old_public_id) d.payments) settled ∙ paid,
      ap (λ (d : Db). d.invoices) settled ∙ invoices,
      ap (λ (d : Db). d.subscriptions) settled ∙ subscriptions,
    )
