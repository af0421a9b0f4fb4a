-- ===== src/Webhooks/Batch.antt =====
-- One delivery through one scan: `_fanout_scan_and_send` of workers/w2_webhook_sender.py.
use chmabapay.Base.{
  suc, zero, ℕ, ◌≤◌, ◌≡◌, refl, ap, ◌∙◌, Bool, true, false, ◌&&◌, some, List, [], ◌∷◌, take, select,
  sort_by, max, length, length-select, length-sort, HasUniqueKeys, occ, count_where,
  count_where-take, count_where-sort, count_where-select, count_where-ext, count_where_mono,
  count_where_unique, count_where-update_same, find_by, find_by-update, find_by-update_ne,
  update_where, ◌==◌, Text, Bool-cases, inl, inr, arith,
}
use chmabapay.Model.{Instant, EventPayload, EventDelivery, Db, Settings}
use chmabapay.Webhooks.Delivery.{
  Reply, sent_with, deliver_one, is_open, is_due, due_deliveries, deliver_each,
}
use chmabapay.Webhooks.Scans.{sent_with-id}

take_all : {A : Type 0} (n : ℕ) (xs : List A) → length xs ≤ n → take n xs ≡ xs
take_all zero [] few = refl
take_all zero (x ∷ xs) few = absurd (omega arith)
take_all (suc n) [] few = refl
take_all (suc n) (x ∷ xs) few = ap (λ ys. x ∷ ys) (take_all n xs (omega arith))

count_where_le_length : {A : Type 0} (p : A → Bool) (xs : List A) → count_where p xs ≤ length xs
count_where_le_length p [] = omega arith
count_where_le_length p (x ∷ xs) = ground (arith, count_where_le_length p xs)

length-update_where :
    {A : Type 0} (m : A → Bool) (f : A → A) (xs : List A) → length (update_where m f xs) ≡ length xs
length-update_where m f [] = refl
length-update_where m f (x ∷ xs) = ground (arith, length-update_where m f xs)

module _ (settings : Settings) (post : Text → EventPayload → Reply) (now : Instant) where
  -- What an attempt makes of a delivery, with the event and the endpoint that it names.
  abbrev attempt : Db → EventDelivery → EventDelivery → EventDelivery
  attempt db named =
      sent_with settings post (find_by (λ e. e.id == named.event_id) db.events)
        (find_by (λ e. e.id == named.endpoint_id) db.endpoints) now

  attempt-id : (db : Db) (named x : EventDelivery) → (attempt db named x).id ≡ x.id
  attempt-id db named =
      sent_with-id settings post (find_by (λ e. e.id == named.event_id) db.events)
        (find_by (λ e. e.id == named.endpoint_id) db.endpoints) now

  deliver_one-other :
      (db : Db) (head : EventDelivery) (k : ℕ)
      → (head.id == k) ≡ false
      → find_by (λ x. x.id == k) (deliver_one db settings post now head).deliveries
        ≡ find_by (λ x. x.id == k) db.deliveries
  unfolding deliver_one
  deliver_one-other db head k other =
      find_by-update_ne (λ x. x.id == k) (λ x. x.id == head.id) (attempt db head) db.deliveries
        (λ x. ap (λ i. i == k) (attempt-id db head x)) (λ x h. ground (arith, other, h))

  pub deliver_each-absent :
      (due : List EventDelivery) (db : Db) (k : ℕ)
      → occ (λ x. x.id) k due ≡ 0
      → find_by (λ x. x.id == k) (deliver_each due settings post now db).deliveries
        ≡ find_by (λ x. x.id == k) db.deliveries
  unfolding deliver_each
  deliver_each-absent [] db k gone = refl
  deliver_each-absent (head ∷ due) db k gone =
      deliver_each-absent due (deliver_one db settings post now head) k (ground (arith, gone))
      ∙ deliver_one-other db head k (ground (arith, gone))

  module _ (d : EventDelivery) where
    abbrev is_copy : EventDelivery → Bool
    is_copy x = (x.event_id == d.event_id) && (x.endpoint_id == d.endpoint_id)

    deliver_one-copy :
        (db : Db) (head : EventDelivery)
        → head.id ≡ d.id
        → is_copy head ≡ true
        → find_by (λ x. x.id == d.id) db.deliveries ≡ some d
        → find_by (λ x. x.id == d.id) (deliver_one db settings post now head).deliveries
          ≡ some (attempt db d d)
    unfolding deliver_one
    deliver_one-copy db head own copy found =
        let event : head.event_id ≡ d.event_id = ground (arith, copy) in
        let endpoint : head.endpoint_id ≡ d.endpoint_id = ground (arith, copy) in
        find_by-update (λ x. x.id == d.id) (λ x. x.id == head.id) (attempt db head) db.deliveries d
          (λ x. ap (λ i. i == d.id) (attempt-id db head x)) found (ground (arith, own))
        ∙ (λ i. some (
            sent_with settings post (find_by (λ e. e.id == event i) db.events)
              (find_by (λ e. e.id == endpoint i) db.endpoints) now d))

    pub deliver_each-find :
        (due : List EventDelivery) (db : Db)
        → occ (λ x. x.id) d.id due ≤ 1
        → count_where (λ x. (x.id == d.id) && is_copy x) due ≡ 1
        → find_by (λ x. x.id == d.id) db.deliveries ≡ some d
        → find_by (λ x. x.id == d.id) (deliver_each due settings post now db).deliveries
          ≡ some (attempt db d d)
    unfolding deliver_each deliver_one
    deliver_each-find [] db single present found = absurd (omega (arith, present))
    deliver_each-find (head ∷ due) db single present found =
        let copies = λ (x : EventDelivery). (x.id == d.id) && is_copy x in
        let next = deliver_one db settings post now head in
        let fewer : count_where copies due ≤ occ (λ x. x.id) d.id due =
          count_where_mono copies (λ x. x.id == d.id) due (λ x h. ground (arith, h)) in
        elim (Bool-cases (copies head)) [
          | inl here ↦
              let own : head.id ≡ d.id = ground (arith, here) in
              deliver_each-absent due next d.id (ground (arith, here, single))
              ∙ deliver_one-copy db head own (ground (arith, here)) found
          | inr there ↦
              let other : (head.id == d.id) ≡ false =
                ground (arith, there, single, present, fewer) in
              deliver_each-find due next (ground (arith, single)) (ground (arith, there, present))
                (deliver_one-other db head d.id other ∙ found)
        ]

    pub due_deliveries-present :
        (db : Db) (batch_size : ℕ)
        → length db.deliveries ≤ batch_size
        → HasUniqueKeys (λ x. x.id) db.deliveries
        → find_by (λ x. x.id == d.id) db.deliveries ≡ some d
        → is_due db now d ≡ true
        → count_where (λ x. (x.id == d.id) && is_copy x) (due_deliveries db batch_size now) ≡ 1
    unfolding due_deliveries
    due_deliveries-present db batch_size fits unique found ready =
        let copies = λ (x : EventDelivery). (x.id == d.id) && is_copy x in
        let rows = select (is_due db now) db.deliveries in
        let due = sort_by (λ x. x.id) rows in
        let few : length due ≤ max 1 batch_size = omega (
          arith,
          fits,
          length-sort (λ x. x.id) rows,
          length-select (is_due db now) db.deliveries,
          count_where_le_length (is_due db now) db.deliveries,
        ) in
        let one : count_where (λ x. (x.id == d.id) && (is_due db now x && is_copy x)) db.deliveries
            ≡ 1 =
          count_where_unique (λ x. x.id) d.id (λ x. is_due db now x && is_copy x) db.deliveries d
            unique found
          ∙ rw ready (ground arith) in
        ap (count_where copies) (take_all (max 1 batch_size) due few)
        ∙ count_where-sort copies (λ x. x.id) rows
        ∙ count_where-select (is_due db now) copies db.deliveries
        ∙ count_where-ext (λ x. is_due db now x && copies x)
            (λ x. (x.id == d.id) && (is_due db now x && is_copy x)) db.deliveries
            (λ x. ground arith)
        ∙ one

  pub due_deliveries-once :
      (db : Db) (batch_size k : ℕ)
      → HasUniqueKeys (λ x. x.id) db.deliveries
      → occ (λ x. x.id) k (due_deliveries db batch_size now) ≤ 1
  unfolding due_deliveries
  due_deliveries-once db batch_size k unique =
      let has = λ (x : EventDelivery). x.id == k in
      let rows = select (is_due db now) db.deliveries in
      omega (
        arith,
        unique k,
        count_where-take has (max 1 batch_size) (sort_by (λ x. x.id) rows),
        count_where-sort has (λ x. x.id) rows,
        count_where-select (is_due db now) has db.deliveries,
        count_where_mono (λ x. is_due db now x && has x) has db.deliveries
            (λ x h. ground (arith, h)),
      )

  -- A scan passes over a delivery that is not due.
  pub due_deliveries-absent :
      (db : Db) (batch_size : ℕ) (d : EventDelivery)
      → HasUniqueKeys (λ x. x.id) db.deliveries
      → find_by (λ x. x.id == d.id) db.deliveries ≡ some d
      → is_open d.status ≡ false
      → occ (λ x. x.id) d.id (due_deliveries db batch_size now) ≡ 0
  unfolding due_deliveries
  due_deliveries-absent db batch_size d unique found closed =
      let has = λ (x : EventDelivery). x.id == d.id in
      let rows = select (is_due db now) db.deliveries in
      let none_open : count_where (λ x. has x && is_open x.status) db.deliveries ≡ 0 =
        count_where_unique (λ x. x.id) d.id (λ x. is_open x.status) db.deliveries d unique found
        ∙ rw closed refl in
      omega (
        arith,
        none_open,
        count_where-take has (max 1 batch_size) (sort_by (λ x. x.id) rows),
        count_where-sort has (λ x. x.id) rows,
        count_where-select (is_due db now) has db.deliveries,
        count_where_mono (λ x. is_due db now x && has x) (λ x. has x && is_open x.status)
            db.deliveries (λ x h. ground (arith, h)),
      )

  -- The other tables, the keys and the number of deliveries through a scan.
  pub deliver_each-frame :
      (due : List EventDelivery) (db : Db)
      → let db' = deliver_each due settings post now db in
        (db'.events ≡ db.events)
        × (db'.endpoints ≡ db.endpoints)
        × (length db'.deliveries ≡ length db.deliveries)
        × ((k : ℕ) → occ (λ x. x.id) k db'.deliveries ≡ occ (λ x. x.id) k db.deliveries)
  unfolding deliver_each deliver_one
  deliver_each-frame [] db = (refl, refl, refl, λ k. refl)
  deliver_each-frame (head ∷ due) db =
      let (events, endpoints, size, keys) =
        deliver_each-frame due (deliver_one db settings post now head) in
      (
        events,
        endpoints,
        size ∙ length-update_where (λ x. x.id == head.id) (attempt db head) db.deliveries,
        λ k.
            keys k
            ∙ count_where-update_same (λ x. x.id == k) (λ x. x.id == head.id) (attempt db head)
                db.deliveries (λ x. ap (λ i. i == k) (attempt-id db head x)),
      )
