-- ===== src/Alerts.antt =====
-- internal/services/alerts.go: alerts, deduplicated by kind until they are acknowledged.
pub mod Dedup
use dogecade.Common.{
  Bool, List, Option, [], count_if, if◌then◌else◌, ltb, none, order_desc, select, some, update_if,
  ℕ, ◌&&◌, ◌++◌, ◌==◌, ◌∷◌,
}
use dogecade.Store.{
  Action, Alert, AlertKind, Db, Result, exec, is_null, next_id, no_alert, ok, pure, query, raise_if,
  same_kind, ◌>>=◌, ◌>>◌,
}

abbrev pub is_open : AlertKind → Alert → Bool
is_open kind a = same_kind a.kind kind && is_null a.acked_at

abbrev pub alert_row : AlertKind → Option ℕ → ℕ → ℕ → Alert
alert_row kind about now id = record {
  id = id;
  kind = kind;
  about_deposit = about;
  created_at = now;
  acked_at = none;
}

unfoldable pub insert_alert : AlertKind → Option ℕ → ℕ → Db → Result (Unit {0}) × Db
insert_alert kind about now d =
    let a = alert_row kind about now (next_id (λ x. x.id) d.alerts) in
    (ok tt, record d { alerts = d.alerts ++ a ∷ [] })

pub insert_alert_if_not_exists : AlertKind → ℕ → Action (Unit {0})
insert_alert_if_not_exists kind now = do
  existing ← query (λ d. count_if (is_open kind) d.alerts)
  if ltb 0 existing then pure tt else exec (insert_alert kind none now)

-- Most recent first.
unfoldable pub list_unacked : Action (List Alert)
list_unacked =
    query (λ d. order_desc (λ (a : Alert). a.id) (select (λ a. is_null a.acked_at) d.alerts))

abbrev acks : ℕ → Alert → Bool
acks id a = a.id == id && is_null a.acked_at

pub ack : ℕ → ℕ → Action (Unit {0})
ack id now = do
  affected ← exec λ d.
      let rows = update_if (acks id) (λ a. record a { acked_at = some now }) d.alerts in
      (ok (count_if (acks id) d.alerts), record d { alerts = rows })
  raise_if (affected == 0) no_alert
