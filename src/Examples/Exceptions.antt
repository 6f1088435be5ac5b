-- ===== src/Examples/Exceptions.antt =====
-- Exceptions in the middle of a cycle of src/main.py and src/recovery.py, and calls of the client.
use teslamate_watchdog.Shared.{◌≡◌, Bool, true, false, some, List}
use teslamate_watchdog.StateMachine.{logged_out}
use teslamate_watchdog.Events.{Event}
use teslamate_watchdog.Recovery
use teslamate_watchdog.Recovery.{World, Progress}
use teslamate_watchdog.Recovery.Raising as Raising
use teslamate_watchdog.Recovery.Raising.Rules.{Holds}
use teslamate_watchdog.Recovery.Raising.Committed.{settled, step-commits}
use teslamate_watchdog.Recovery.Raising.Exits.{Returned, Raised, begin-exits}
use teslamate_watchdog.Examples.Data.{config, python, good, proxy}
use teslamate_watchdog.Examples.World.{outside, at_first, progress, busy_world}

-- The broker's library refuses every event but the announcement of a restart.
abbrev refuses : List Event → Event → Bool
refuses past (Event.recovery_started s reason container wait) = false
refuses past e = true

-- One good check has been made after the restart.
abbrev nearly_recovered : World
nearly_recovered = record busy_world { progress = some (record progress { healthy_streak = 1 }) }

step-commits_example :
    settled (Raising.step refuses python config (outside 1250 proxy) good nearly_recovered).1
    ≡ settled (Recovery.step python config (outside 1250 proxy) good nearly_recovered)
step-commits_example = step-commits refuses python config (outside 1250 proxy) good nearly_recovered

begin-exits_example :
    let env = outside 1060 proxy in
    let begun = Raising.begin refuses python config env logged_out "out" at_first.world in
    Holds
      (Returned python config env logged_out "out" at_first.world)
      (Raised python config env logged_out "out" at_first.world)
      begun.0
      begun.1
begin-exits_example =
    begin-exits python config (outside 1060 proxy) logged_out "out" at_first.world refuses
