-- ===== src/Examples/Stores.antt =====
-- A limiter with two clients, and a store in which two callers race.
use Prim.Native.Nat.{min}
use isp.Common.{ℕ, ◌≡◌, ◌+◌, refl, some, List, [], ◌∷◌, arith}
use isp.Localcache.Store.{Store}
use isp.Hotspot.Limiter.Window.{Event, attempts_by, granted_to, window_grants}
use isp.Localcache.Counter

abbrev events : List Event
events = Event.attempt 6 "a" ∷ Event.attempt 7 "b" ∷ Event.tick 8 ∷ Event.attempt 9 "a" ∷ []

window_grants_example :
    granted_to "a"
      (record { counter = some []; limit = 2; window = 10 })
      (Event.attempt 5 "a" ∷ events)
    ≡ min (1 + attempts_by "a" events) 2
unfolding Counter.get
window_grants_example = window_grants "a" 2 10 5 [] events tt refl (
  omega arith,
  omega arith,
  (omega arith, omega arith, (omega arith, omega arith, (omega arith, omega arith, tt))),
)

abbrev store : Store ℕ
store = ("k", record { val = 1; expires = 5 }) ∷ []
