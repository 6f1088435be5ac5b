-- ===== src/Main/Callbacks.antt =====
-- The calls of the MQTT client by paho's thread, with the hook that `main` of src/main.py adds.
use teslamate_watchdog.Shared.{ℕ, String, Bool, List, [], ◌∷◌}
use teslamate_watchdog.Python.{Python}
use teslamate_watchdog.Config.{Config}
use teslamate_watchdog.MqttClient.{Mqtt, on_connect, on_disconnect, on_message, publish_raw}
use teslamate_watchdog.HaDiscovery

-- a call of the MQTT client by paho
pub data Callback : Type 0 where
  connected : (refused : Bool) (now : ℕ) → Callback
  disconnected : Callback
  message : (topic decoded : String) (now : ℕ) (wall : String) → Callback

module _ (py : Python) (c : Config) where
  -- the hook that `main` adds
  abbrev pub announce : Mqtt → Mqtt
  announce m = HaDiscovery.publish c py.dumps publish_raw m

  unfoldable pub call : Callback → Mqtt → Mqtt
  call (Callback.connected refused now) m = on_connect c refused now announce m
  call Callback.disconnected m = on_disconnect m
  call (Callback.message topic decoded now wall) m = on_message py.lower topic decoded now wall m

  -- the calls, the latest first
  unfoldable pub calls : List Callback → Mqtt → Mqtt
  unfolding call
  calls [] m = m
  calls (x ∷ past) m = call x (calls past m)
