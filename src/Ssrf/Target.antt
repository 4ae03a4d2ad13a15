-- ===== src/Ssrf/Target.antt =====
-- `_check_target` of service/delivery_admin.py, and the same lines in `_fan_out` of
-- ingest/ingestor.py.
use webhooks_engine.Prelude.{Option, none, some, Text, is_empty, if◌then◌else◌, Result, ok, err}
use webhooks_engine.Types.{InvalidTargetReason}
use webhooks_engine.Ssrf.Guard.{Url, SecurityConfig, NetLib, Checked, host_of, port_of, check_ip}

-- `InvalidWebhookTarget`, or the `ValueError` of `urlsplit` or `.port`.
pub data TargetFault : Type 0 where
  blocked : InvalidTargetReason → TargetFault
  not_a_url : TargetFault

-- `parsed.hostname or None`
unfoldable pub host_or_none : Url → Option Text
unfolding host_of
host_or_none u = if is_empty (host_of u) then none else some (host_of u)

abbrev target_result : Checked (Unit {0}) → Result TargetFault (Unit {0})
target_result (ok _) = ok tt
target_result (err reason) = err (blocked reason)

unfoldable pub check_target : NetLib → SecurityConfig → Text → Text → Result TargetFault (Unit {0})
unfolding host_or_none check_ip
check_target lib security resolved_ip url = elim (lib.urlsplit url) [
  | none ↦ err not_a_url
  | some u ↦ target_result (check_ip lib security resolved_ip (host_or_none u) (some (port_of u)))
]
