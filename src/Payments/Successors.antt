-- ===== src/Payments/Successors.antt =====
-- A code that is reissued a second time.
use mathlib.Core.Path.{subst}
use mathlib.Core.List.{reverse-append}
use chmabapay.Base.{
  ◌≡◌, refl, sym, ap, ◌∙◌, ◌⊎◌, ◌≤◌, ◌<◌, true, false, not, Option, none, some, List, [], ◌∷◌, ◌++◌,
  reverse, Option-cases, inl, inr, ◌==◌, ltb, Text, select, sort_by, update_where, All, refuse,
  select-append, sort_by-append, All-selected, All-update, All-map, arith,
}
use chmabapay.Base.Results.{ok, refuse-ok, and_then-ok, ok_injective}
use chmabapay.Model.{Instant, Store, Payment, PaymentStatus, Db, Settings, PaymentLink}
use chmabapay.Payments.Confirm.{is_paid, is_reversed, store_of}
use chmabapay.Payments.Mint.{
  Rail, Minted, payment_already_paid, payment_reversed, payment_not_expired,
}
use chmabapay.Payments.Accepted.{Sold, refuse_store-ok}
use chmabapay.Payments.Reissue.{
  is_dead, is_live_successor, first, newest_successor, find_live, successor_of, note_successor,
  store_or, link_or, with_successor, insert_successor, reminted, reissue_on, link_of, reissue_in,
  reissue_live, reissue_payment,
}

-- Every key is below the next one.
abbrev pub IsFresh : Db → Type 0
IsFresh db = All (λ p. p.id < db.next_payment) db.payments

first-newest :
    (ys : List Payment) (x : Payment)
    → All (λ y. y.id ≤ x.id) ys
    → first (reverse (sort_by (λ p. p.id) (ys ++ x ∷ []))) ≡ some x
first-newest ys x h =
    ap (λ zs. first (reverse zs)) (sort_by-append (λ p. p.id) x ys h)
    ∙ ap first (reverse-append (sort_by (λ p. p.id) ys) (x ∷ []))

find_live-some :
    (o : Option Payment) (now : Instant) (live : Payment)
    → find_live o now ≡ some live
    → o ≡ some live
find_live-some none now live h = absurd (ground (arith, h))
find_live-some (some p) now live h = ground (arith, h)

dead-apart :
    (status : PaymentStatus)
    → is_dead status ≡ true
    → (is_paid status ≡ false) × (is_reversed status ≡ false)
dead-apart PaymentStatus.paid h = absurd (ground (arith, h))
dead-apart PaymentStatus.reversed h = absurd (ground (arith, h))
dead-apart PaymentStatus.pending h = (refl, refl)
dead-apart PaymentStatus.scanned h = (refl, refl)
dead-apart PaymentStatus.expired h = (refl, refl)
dead-apart PaymentStatus.failed h = (refl, refl)
dead-apart PaymentStatus.superseded h = (refl, refl)

module _ (rail : Rail) (settings : Settings) (db : Db) (parent : Payment) (public_id : Text)
    (now : Instant) where
  -- The new successor is the newest one.
  with_successor-newest :
      (minted : Minted)
      → IsFresh db
      → newest_successor (with_successor db parent public_id now minted) parent.id
        ≡ some (successor_of db parent public_id now minted)
  unfolding newest_successor
  with_successor-newest minted fresh =
      let noted =
        update_where (λ p. p.id == parent.id) (note_successor public_id now) db.payments in
      let new = successor_of db parent public_id now minted in
      let mine = is_live_successor parent.id in
      let own : mine new ≡ true = ground arith in
      let last : select mine (noted ++ new ∷ []) ≡ select mine noted ++ new ∷ [] =
        select-append mine noted (new ∷ []) ∙ rw own refl in
      ap (λ zs. first (reverse (sort_by (λ p. p.id) zs))) last
      ∙ first-newest (select mine noted) new (
          All-selected (λ y. y.id ≤ db.next_payment) mine noted
            (All-update (λ y. y.id ≤ db.next_payment) (λ p. p.id == parent.id)
              (note_successor public_id now) db.payments (λ x h. h)
              (All-map (λ y. y.id < db.next_payment) (λ y. y.id ≤ db.next_payment) db.payments
                (λ x h. omega (arith, h)) fresh)))

  -- What the body of a reissue returns.
  abbrev pub IsReissued : Sold → Type 0
  IsReissued sold =
      ((live : Payment) × (newest_successor db parent.id ≡ some live)
        × ((db, (live, false)) ≡ sold))
      ⊎ ((store : Store) × (link : PaymentLink) × (minted : Minted) × (link_of db parent
            ≡ some link)
          × (reminted rail settings parent public_id now store link ≡ ok minted)
          × ((
            with_successor db parent public_id now minted,
            (successor_of db parent public_id now minted, true),
          )
              ≡ sold))

  reissue_in-sold :
      (store : Store) (sold : Sold)
      → reissue_in rail settings db parent public_id now store ≡ ok sold
      → IsReissued sold
  reissue_in-sold store sold h =
      let body = reissue_on rail settings db parent public_id now store in
      let (_, h1) =
        refuse_store-ok store parent.reference_id parent.metadata (link_or (link_of db parent) body)
          sold h in
      elim (Option-cases (link_of db parent)) [
        | inl gone ↦ absurd (ground (arith, ap (λ l. link_or l body) (sym gone) ∙ h1))
        | inr (link, e) ↦
            let (minted, paid_for, h2) =
              and_then-ok (reminted rail settings parent public_id now store link)
                (insert_successor db parent public_id now) sold
                (ap (λ l. link_or l body) (sym e) ∙ h1) in
            inr (store, link, minted, e, paid_for, ok_injective _ sold h2)
      ]

  reissue_live-sold :
      (sold : Sold)
      → reissue_live rail settings db parent public_id now
          (find_live (newest_successor db parent.id) now)
        ≡ ok sold
      → IsReissued sold
  reissue_live-sold sold h =
      let body = reissue_live rail settings db parent public_id now in
      let made = reissue_in rail settings db parent public_id now in
      let found = find_live (newest_successor db parent.id) now in
      let owner = store_of db parent.store_id in
      elim (Option-cases found) [
        | inl gone ↦
            let h1 = ap body (sym gone) ∙ h in
            elim (Option-cases owner) [
              | inl missing ↦ absurd (ground (arith, ap (λ s. store_or s made) (sym missing) ∙ h1))
              | inr (store, e) ↦ reissue_in-sold store sold (ap (λ s. store_or s made) (sym e) ∙ h1)
            ]
        | inr (live, e) ↦ inl (
          live,
          find_live-some (newest_successor db parent.id) now live e,
          ok_injective (db, (live, false)) sold (ap body (sym e) ∙ h),
        )
      ]

  pub reissue_payment-sold :
      (sold : Sold)
      → reissue_payment rail settings db parent public_id now ≡ ok sold
      → (is_dead parent.status ≡ true) × IsReissued sold
  unfolding reissue_payment
  reissue_payment-sold sold h =
      let body =
        reissue_live rail settings db parent public_id now
          (find_live (newest_successor db parent.id) now) in
      let third = refuse (not (is_dead parent.status)) payment_not_expired body in
      let second = refuse (is_reversed parent.status) payment_reversed third in
      let (_, h1) = refuse-ok (is_paid parent.status) payment_already_paid second sold h in
      let (_, h2) = refuse-ok (is_reversed parent.status) payment_reversed third sold h1 in
      let (dead, h3) = refuse-ok (not (is_dead parent.status)) payment_not_expired body sold h2 in
      (ground (arith, dead), reissue_live-sold sold h3)

-- A live successor is handed out.
handed_out :
    (rail : Rail) (settings : Settings) (db : Db) (parent live : Payment) (public_id : Text)
    (now : Instant)
    → is_dead parent.status ≡ true
    → newest_successor db parent.id ≡ some live
    → ltb now live.expires_at ≡ true
    → reissue_payment rail settings db parent public_id now ≡ ok (db, (live, false))
unfolding reissue_payment
handed_out rail settings db parent live public_id now dead newest soon =
    let (unpaid, kept) = dead-apart parent.status dead in
    let still : find_live (some live) now ≡ some live = rw soon refl in
    let found = ap (λ o. find_live o now) newest ∙ still in
    rw (reissue_payment, unpaid, kept, dead)
      (ap (reissue_live rail settings db parent public_id now) found)

-- A second reissue of a dead payment, while the code that the first one returned has not
-- expired, returns that same code as not created, mints nothing and changes nothing, whatever
-- the gateway answers. It assumes that payment keys are below the next one and that the payment
-- has kept its key and its status.
pub reissue_payment-again :
    (rail again : Rail) (settings : Settings) (db : Db) (parent parent' : Payment)
    (public_id public_id' : Text) (now later : Instant) (sold : Sold)
    → IsFresh db
    → parent'.id ≡ parent.id
    → parent'.status ≡ parent.status
    → reissue_payment rail settings db parent public_id now ≡ ok sold
    → ltb later sold.1.0.expires_at ≡ true
    → reissue_payment again settings sold.0 parent' public_id' later
      ≡ ok (sold.0, (sold.1.0, false))
reissue_payment-again rail again settings db parent parent' public_id public_id' now later sold
      fresh same still h soon =
    let (dead, made) = reissue_payment-sold rail settings db parent public_id now sold h in
    let dead' = ap is_dead still ∙ dead in
    let Again = λ (s : Sold).
      ltb later s.1.0.expires_at ≡ true
      → reissue_payment again settings s.0 parent' public_id' later ≡ ok (s.0, (s.1.0, false)) in
    elim made [
      | inl (live, newest, e) ↦
          subst Again e
            (handed_out again settings db parent' live public_id' later dead'
              (ap (newest_successor db) same ∙ newest))
            soon
      | inr (_, _, minted, _, _, e) ↦
          let new = with_successor db parent public_id now minted in
          subst Again e
            (handed_out again settings new parent' (successor_of db parent public_id now minted)
              public_id' later dead'
              (ap (newest_successor new) same
                ∙ with_successor-newest rail settings db parent public_id now minted fresh))
            soon
    ]
