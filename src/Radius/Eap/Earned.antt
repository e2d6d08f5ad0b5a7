-- ===== src/Radius/Eap/Earned.antt =====
-- eap_handler.go: an accept over any sequence of requests.
use mathlib.Core.Path.{subst}
use mathlib.Core.List.{Memᴰ}
use isp.Common.{◌≡◌, ◌∙◌, ap, some, List}
use isp.Common.Bytes.{Bytes}
use isp.Nas.Attributes.{Attr}
use isp.Radius.BruteForce.{Guard}
use isp.Radius.Auth.{Subscriber, found}
use isp.Radius.Eap.Session.{EapSession, EapState, eap_accept, eap_session_key}
use isp.Radius.Eap.Admission.{
  Event, serve, Served, IsProof, AllProven, load-entry, Served-AllProven,
}
use isp.Radius.Eap.Issued.{IsIssued, AllKeep, Served-AllIssued}
use isp.Radius.Eap.Accepts.{handle_eap-IsAccepted}

-- Whatever requests a daemon has served since it started, from any peers and in any order: if it
-- accepts, an earlier request under the same State carried a response that verified against the
-- conversation's challenge and the enrolled hash of a subscriber whose status granted service; that
-- challenge is in the packet with which the daemon answered an earlier request, under that State (or
-- in place of which it sent a reject, where the attributes do not take it); and the subscriber accepted
-- is the one that the conversation's name finds.
pub accept_proven :
    {g : Guard} {past : List Event} {d : EapState} (e : Event) (sub : Subscriber)
    (attrs : List Attr) (m : Bytes)
    → Served g past d
    → (serve e d).1 ≡ some (eap_accept sub attrs m)
    → (e' : Event) × (sess : EapSession) × Memᴰ e' past
      × IsProof (eap_session_key e.request.state) sess e'
      × IsIssued g past (eap_session_key e.request.state) sess
      × (e.backend.backend.get_subscriber_by_username (e.backend.as_text sess.username) ≡ found sub)
unfolding serve
accept_proven {g} {past} {d} e sub attrs m k h =
    let (s, o, (sess, l, awaits, f, a, after)) =
      handle_eap-IsAccepted e.backend sub attrs m e.now e.random e.request d h in
    let (x, x_in, x_is) = load-entry e.now e.request.state s sess l in
    let proven = subst (AllProven past) o (Served-AllProven past d k) in
    let (e', e'_in, proof) =
      proven (eap_session_key e.request.state) x x_in (ap (λ y. y.stage) x_is ∙ awaits) in
    let issued = subst (AllKeep (IsIssued g past)) o (Served-AllIssued past d k) in
    (
      e',
      sess,
      e'_in,
      subst (λ y. IsProof (eap_session_key e.request.state) y e') x_is proof,
      subst (IsIssued g past (eap_session_key e.request.state)) x_is
          (issued (eap_session_key e.request.state) x x_in),
      f,
    )
