-- ===== src/Examples/Cleared.antt =====
-- A payment that is reissued after its payload was cleared, at concrete data.
use chmabapay.Base.{◌*◌, ◌≡◌, refl, Bool, true, none, some, codes, sort_by, decimal}
use chmabapay.Base.Int.{pos}
use chmabapay.Base.Results.{result_or}
use chmabapay.Model.{Db, Store, PaymentLink, Payment}
use chmabapay.Khqr.{
  build_khqr_payload, khqr_fields, tag_30, tag_62, tag_99, pack, format_amount, encode, tlv, seal,
  crc16_ccitt_false, crc16_from, shifts, shift,
}
use chmabapay.Billing.{day}
use chmabapay.Payments.{get_payment, is_synthetic}
use chmabapay.Payments.Mint.{mint_qr}
use chmabapay.Payments.Reissue.{link_of, newest_successor, reissue_payment}
use chmabapay.Retention.Purge.{purged, purge_gateway_payloads}
use chmabapay.Retention.Offline.{built_code, purge_gateway_payloads-reissue_payment}
use chmabapay.Examples.Data.{settings}
use chmabapay.Examples.Orders.{rail, expired_sale, closed}

abbrev cleared : Db
cleared = (purge_gateway_payloads closed (pos 30) (140 * day)).0

abbrev reissued : Db × (Payment × Bool)
reissued =
    result_or (closed, (expired_sale, true))
      (reissue_payment rail settings cleared (purged expired_sale) (codes "p2") (141 * day))

purge_gateway_payloads-reissue_payment_example :
    (get_payment cleared 1 ≡ some (purged expired_sale))
    × (reissued.1.0.gateway_status_raw ≡ none)
    × ((store : Store) × (link : PaymentLink) × (link_of cleared expired_sale ≡ some link)
        × (built_code settings expired_sale (codes "p2") (141 * day) store link
            ≡ some reissued.1.0.qr_string))
unfolding purge_gateway_payloads reissue_payment newest_successor mint_qr is_synthetic sort_by
    build_khqr_payload khqr_fields tag_30 tag_62 tag_99 pack format_amount encode tlv seal decimal
    crc16_ccitt_false crc16_from shifts shift
purge_gateway_payloads-reissue_payment_example =
    purge_gateway_payloads-reissue_payment closed reissued.0 rail settings (pos 30) (140 * day)
      (141 * day) expired_sale reissued.1.0 (codes "p2") refl refl refl refl
