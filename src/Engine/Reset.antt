-- ===== src/Engine/Reset.antt =====
-- The reset of the engine closes what the modules have outside the interpreter's heap.
use mathlib.Core.Path.{subst}
use upy_android.Prelude.{ℕ, ◌≡◌, refl, sym, ap, ◌∙◌, true, false, none, some, [], arith}
use upy_android.Camera
use upy_android.Camera.Inv.{close_all-Inv}
use upy_android.Imu
use upy_android.Imu.{Sensor}
use upy_android.Imu.Inv.{teardown_Inv}
use upy_android.Litert
use upy_android.Litert.Moves.{none-Owns}
use upy_android.Litert.Order.{closed_all, close_all_log}
use upy_android.Mqtt
use upy_android.Mqtt.Inv.{live}
use upy_android.Mqtt.Registry.{refs}
use upy_android.Mqtt.Moves.{reset-Inv}
use upy_android.Engine.{
  Modules, Engine, Script, close_modules, forget_objects, native_reset, native_deinit,
}

module _ (Value : Type 0) (capacity : ℕ → ℕ) where
  -- Each module is in order.
  pub record InOrder (m : Modules Value) : Type 0 where
    pub camera : Camera.Inv.Inv capacity m.camera
    pub imu : Imu.Inv.Inv Value m.imu
    pub litert : Litert.Inv.Inv m.litert
    pub mqtt : Mqtt.Inv.Inv m.mqtt

  -- Nothing is open: no camera, no sensor and no queue of events, no handle of LiteRT, no MQTT client, and of
  -- the references to MQTT clients that were made none is alive.
  pub record IsClosed (m : Modules Value) : Type 0 where
    pub camera : m.camera.open_camera ≡ none
    pub cameras : (i : ℕ) → (m.camera.cameras i).is_open ≡ true → ⊥
    pub queue : m.imu.queue ≡ false
    pub sensors : (s : Sensor) → m.imu.enabled s ≡ false
    pub buffers : m.litert.buffers ≡ []
    pub models : m.litert.models ≡ []
    pub environments : m.litert.environments ≡ []
    pub connections : m.mqtt.connections ≡ []
    pub references : live m.mqtt.log ≡ some []

  no_camera :
      (w : Camera.World)
      → Camera.Inv.Inv capacity w
      → w.open_camera ≡ none
      → (i : ℕ) → (w.cameras i).is_open ≡ true
      → ⊥
  no_camera w v e i h = let p = v.core.one i h in ground (arith, e, p)

  IsClosed-modules :
      (m : Modules Value)
      → InOrder m
      → InOrder (forget_objects Value (close_modules Value m))
        × IsClosed (forget_objects Value (close_modules Value m))
  unfolding Litert.close_all Imu.close_all Mqtt.close_all Mqtt.Moves.reset refs
  IsClosed-modules m v =
      let (camera, off) = close_all-Inv m.camera v.camera in
      let mqtt = reset-Inv m.mqtt v.mqtt in
      (
        record {
          camera = camera;
          imu = teardown_Inv Value m.imu v.imu;
          litert = record { environments = none-Owns []; models = none-Owns [] };
          mqtt = mqtt;
        },
        record {
          camera = off;
          cameras = no_camera (Camera.close_all m.camera) camera off;
          queue = refl;
          sensors = λ s. refl;
          buffers = refl;
          models = refl;
          environments = refl;
          connections = refl;
          references = mqtt.alive;
        },
      )

  -- `nativeReset` and `nativeDeinit`, from modules that are in order, leave them in order with nothing open:
  -- no camera, no sensor, no handle of LiteRT and no MQTT client; and the references to MQTT clients that
  -- were made have all been deleted. The handles of LiteRT that were in the lists have been closed, each once:
  -- the buffers first, then the models, then the environments. The command that mounts the root does not touch the
  -- modules.
  pub reset_closes :
      (mount : Script Value)
      → ((m : Modules Value) → mount.modules m ≡ m)
      → (e : Engine Value) → InOrder e.modules
      → InOrder (native_reset Value mount e).modules
        × IsClosed (native_reset Value mount e).modules
        × InOrder (native_deinit Value e).modules
        × IsClosed (native_deinit Value e).modules
        × ((native_reset Value mount e).modules.litert.log ≡ closed_all e.modules.litert)
        × ((native_deinit Value e).modules.litert.log ≡ closed_all e.modules.litert)
  unfolding native_reset native_deinit
  reset_closes mount same e v =
      let closed = forget_objects Value (close_modules Value e.modules) in
      let (p, q) = IsClosed-modules e.modules v in
      let unmounted = sym (same closed) in
      let log = close_all_log e.modules.litert in
      (
        subst InOrder unmounted p,
        subst IsClosed unmounted q,
        p,
        q,
        ap (λ (m : Modules Value). m.litert.log) (same closed) ∙ log,
        log,
      )
