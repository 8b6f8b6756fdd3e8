-- ===== src/Core/Session/Subscriptions.antt =====
-- What the operations of crates/cherenkov-core/src/session.rs on a session's subscriptions do.
use cherenkov.Prelude.{
  String, ◌≡◌, refl, true, false, some, arith, ◌==◌, string_eq, if◌then◌else◌, eq_iff,
}
use cherenkov.Prelude.Dict.{get-put, get-remove}
use cherenkov.Core.Session.{
  Session, JoinHandle, has_subscription, insert_subscription, take_subscription,
}

module _ {S : Type 0} (c : String) (s : Session S) where
  -- A subscription is inserted only where there was none, and then it is the only change.
  pub has_subscription-insert_subscription :
      (task : JoinHandle) (t : Session S)
      → insert_subscription c task s ≡ some t
      → (has_subscription c s ≡ false)
        × (t.id ≡ s.id)
        × ((d : String) → has_subscription d t ≡ (if c == d then true else has_subscription d s))
  unfolding has_subscription insert_subscription
  has_subscription-insert_subscription task t e = (
    ground arith,
    ground arith,
    λ d. ground (arith, get-put s.subscriptions c d task, eq_iff c d),
  )

  pub has_subscription-take_subscription :
      (d : String)
      → has_subscription d (take_subscription c s).1
        ≡ (if c == d then false else has_subscription d s)
  unfolding has_subscription take_subscription
  has_subscription-take_subscription d = ground (arith, get-remove s.subscriptions c d, eq_iff c d)

  pub id-take_subscription : (take_subscription c s).1.id ≡ s.id
  unfolding take_subscription
  id-take_subscription = refl
