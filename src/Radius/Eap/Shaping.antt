-- ===== src/Radius/Eap/Shaping.antt =====
-- eap_handler.go, `eapFinish`, against handlers.go, `applyRateLimit`: the bandwidth of an accept.
use mathlib.Core.List.{[]}
use isp.Common.{◌≡◌, refl}
use isp.Common.Clock.{Time}
use isp.Radius.Auth.{Subscriber, apply_rate_limit, effective_rate_limit}
use isp.Radius.Eap.Session.{EapBackend}
use isp.Radius.Eap.Handler.{eap_attrs}

-- An EAP accept carries what a PAP accept carries for the same subscriber without a speed override:
-- the throttle and the plan's rate count, an override that is in force does not.
pub eap_attrs-override :
    (b : EapBackend) (now : Time) (sub : Subscriber)
    → eap_attrs b sub
      ≡ apply_rate_limit b.backend now (record sub { speed_override_rate_limit = [] })
unfolding eap_attrs apply_rate_limit effective_rate_limit
eap_attrs-override b now sub = refl
