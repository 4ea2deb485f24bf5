-- ===== src/Observability.antt =====
-- packages/observability/src/lib/observer: observers, and the wrapper that keeps their failures from
-- the observed pipeline.
use event_driven_platform.Effects.{Result, ok}

-- `observe` may change the observer's part of the world, and may throw
abbrev pub Observer : Type 0 → Type 0 → Type 0 → Type 0
Observer W E O = O → W → Result E (Unit {0}) × W

unfoldable pub noop_observer : {W E O : Type 0} → Observer W E O
noop_observer observation w = (ok tt, w)

-- SafeObserver.observe: the delegate's throw is swallowed
unfoldable pub safe_observe : {W E O : Type 0} → Observer W E O → O → W → W
safe_observe delegate observation w = (delegate observation w).1
