-- ===== src/SecurityEvents.antt =====
-- common/security/security-event.service.ts: a security event is written to the log, and a write
-- that the database refuses is swallowed. The callers do not await it, so it is written at once.
use gracon_user_auth_service.Common.{ℕ, String, Option, List}
use gracon_user_auth_service.Platform.{
  SecurityEvent, SecurityEventLog, Client, accepted, rejected, Handler, modify,
}

module _ (client : Client) where
  open client use {create}

  -- The log after `SecurityEventService.log`.
  unfoldable pub log_rows :
      SecurityEvent → Option ℕ → Option String → ℕ → List SecurityEventLog → List SecurityEventLog
  log_rows event user_id ip now rows = elim (create SecurityEventLog row rows) [
    | accepted (_, rows') ↦ rows'
    | rejected _ ↦ rows
  ]
    where
      row : ℕ → SecurityEventLog
      row id = record {
        id = id;
        event_type = event;
        user_id = user_id;
        ip_address = ip;
        created_at = now;
      }

  abbrev pub log : SecurityEvent → Option ℕ → Option String → ℕ → Handler (Unit {0})
  log event user_id ip now =
      modify λ w. record w { security_events = log_rows event user_id ip now w.security_events }
