-- ===== src/Stores/Links.antt =====
-- The destinations of a store: `_link_shape_error`, `_enforce_currency_allowed`, `resolve_link`,
-- `_carry_forward_currency`, `attach_link_to_store` and `attach_link` of services/stores.py.
use chmabapay.Base.{
  ℕ, ◌+◌, Bool, true, false, not, ◌&&◌, ◌||◌, Option, none, some, List, [], ◌∷◌, ◌++◌, length,
  select, find_by, any_of, update_where, sort_by, leb, ◌==◌, if◌then◌else◌, Text, text_eq, codes,
  strip, lower, contains, or_else, is_nonempty, is_digit, Result, refuse,
}
use chmabapay.Base.Results.{ok, err}
use chmabapay.Base.Money.{normalize_currency}
use chmabapay.Model.{PaymentLink, Verification, Db, Settings}

pub data LinkError : Type 0 where
  store_not_found store_disabled : LinkError
  link_required link_host link_slug payway_link_not_found : LinkError
  khr_currency_disabled payway_link_currency_mismatch : LinkError
  payway_link_currency_unverified link_currency_required : LinkError
  link_and_links too_many_links duplicate_link_currency whitelabel_not_enabled : LinkError

-- What the caller sends; `names_currency` says whether the field was set.
pub record LinkIn : Type 0 where
  pub raw_link : Text
  pub merchant_account_id : Text
  pub merchant_name : Option Text
  pub currency : Text
  pub names_currency : Bool

-- What PayWay said about a link.
pub data LinkOutcome : Type 0 where
  confirmed not_found inconclusive : LinkOutcome

pub record LinkCheck : Type 0 where
  pub outcome : LinkOutcome
  pub merchant_name : Option Text
  pub currency : Option Text

abbrev is_slug_char : ℕ → Bool
is_slug_char c =
    is_digit c
    || ((leb b'A' c && leb c b'Z')
        || ((leb b'a' c && leb c b'z') || ((c == b'.') || ((c == b'_') || (c == b'-')))))

-- `[A-Za-z0-9._-]{4,64}`
abbrev pub is_bare_slug : Text → Bool
is_bare_slug s =
    leb 4 (length s) && (leb (length s) 64 && not (any_of (λ c. not (is_slug_char c)) s))

-- `_link_shape_error`, before the rest of the body
abbrev pub refuse_shape : {A : Type 0} → Text → Result LinkError A → Result LinkError A
refuse_shape s rest = refuse (not (is_nonempty s)) link_required (
    if any_of (λ c. c == b'/') s
    then refuse (not (contains (codes "payway.com.kh") (lower s))) link_host rest
    else refuse (not (is_bare_slug s)) link_slug rest)

abbrev pub is_named : Option Text → Bool
is_named none = false
is_named (some s) = is_nonempty s

-- The currency that the page names is another one.
abbrev pub is_other : Option Text → Text → Bool
is_other currency requested =
    is_named currency && not (text_eq (normalize_currency currency) requested)

-- `_enforce_currency_allowed`, before the rest of the body
abbrev pub refuse_currency :
    {A : Type 0} → Settings → LinkIn → LinkCheck → Result LinkError A → Result LinkError A
refuse_currency settings payload check rest =
    let requested = normalize_currency (some payload.currency) in
    refuse (text_eq requested (codes "KHR") && not settings.enable_khr_currency)
      khr_currency_disabled
      (refuse (is_other check.currency requested) payway_link_currency_mismatch (
        refuse (not (is_named check.currency) && not (text_eq requested (codes "USD")))
          payway_link_currency_unverified rest))

-- The name that the caller gave, or PayWay's.
abbrev pub named_by : Option Text → Option Text → Option Text
named_by given found =
    if not (is_nonempty (strip (or_else given []))) && is_named found then found else given

-- The verification of a link, and the payload with its merchant's name.
abbrev pub verified_as : LinkIn → LinkCheck → LinkOutcome → LinkIn × Verification
verified_as payload check LinkOutcome.confirmed = (
  record payload { merchant_name = named_by payload.merchant_name check.merchant_name },
  Verification.verified,
)
verified_as payload check _ = (payload, Verification.unverified)

abbrev is_not_found : LinkOutcome → Bool
is_not_found LinkOutcome.not_found = true
is_not_found _ = false

-- `verify_link` asks PayWay about a link.
unfoldable pub resolve_link :
    (Text → LinkCheck) → Settings → LinkIn → Result LinkError (LinkIn × Verification)
resolve_link verify_link settings payload =
    let raw = strip payload.raw_link in
    let check = verify_link raw in
    refuse_shape raw (
      refuse (is_not_found check.outcome) payway_link_not_found
        (refuse_currency settings payload check (ok (verified_as payload check check.outcome))))

abbrev pub load_links : Db → ℕ → List PaymentLink
load_links db store = sort_by (λ l. l.id) (select (λ l. l.store_id == store) db.payment_links)

-- The currency of the only link of a store, for a payload that names none.
abbrev pub carried : LinkIn → List PaymentLink → Result LinkError LinkIn
carried payload [] = ok payload
carried payload (link ∷ []) =
    ok (if is_nonempty link.currency then record payload { currency = link.currency } else payload)
carried payload (link ∷ other ∷ links) = err link_currency_required

unfoldable pub carry_forward_currency : Db → ℕ → LinkIn → Result LinkError LinkIn
carry_forward_currency db store payload =
    if payload.names_currency then ok payload else carried payload (load_links db store)

abbrev pub set_link : LinkIn → Verification → PaymentLink → PaymentLink
set_link payload verification link = record link {
  is_aba_payway = true;
  raw_link = payload.raw_link;
  merchant_account_id = payload.merchant_account_id;
  merchant_name = payload.merchant_name;
  currency = normalize_currency (some payload.currency);
  verification = verification;
  is_active = true;
}

-- A row with the defaults of its other columns.
abbrev pub new_link : ℕ → ℕ → LinkIn → Verification → PaymentLink
new_link id store payload verification = record {
  id = id;
  store_id = store;
  is_aba_payway = true;
  raw_link = payload.raw_link;
  merchant_account_id = payload.merchant_account_id;
  merchant_name = payload.merchant_name;
  payway_client_id = none;
  currency = normalize_currency (some payload.currency);
  verification = verification;
  min_amount_cents = 1;
  max_amount_cents = none;
  is_active = true;
}

abbrev pub is_destination : ℕ → Text → PaymentLink → Bool
is_destination store currency link = (link.store_id == store) && text_eq link.currency currency

abbrev pub write_link : Db → ℕ → LinkIn → Verification → Option PaymentLink → Db
write_link db store payload verification none = record db {
  payment_links = db.payment_links ++ new_link db.next_link store payload verification ∷ [];
  next_link = db.next_link + 1;
}
write_link db store payload verification (some link) = record db {
  payment_links =
      update_where (λ l. l.id == link.id) (set_link payload verification) db.payment_links;
}

unfoldable pub attach_link_to_store : Db → ℕ → LinkIn → Verification → Db
attach_link_to_store db store payload verification =
    write_link db store payload verification
      (find_by (is_destination store (normalize_currency (some payload.currency))) db.payment_links)
