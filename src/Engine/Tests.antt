-- ===== src/Engine/Tests.antt =====
-- Runs of the engine: a script that prints and fails, and a reset with an open camera and an open environment.
use upy_android.Prelude.{ℕ, ◌≡◌, ◌*◌, ◌+◌, refl, true, false, none, some, [], ◌∷◌}
use upy_android.Prelude.Words.{update}
use upy_android.Prelude.Raise.{returned}
use upy_android.Prelude.Run.{ended}
use upy_android.Camera
use upy_android.Camera.{grayscale}
use upy_android.Camera.Opening
use upy_android.Camera.Opening.{Args, Answers}
use upy_android.Camera.Snapshot.{Imlib}
use upy_android.Camera.Moves as CameraMoves
use upy_android.Imu
use upy_android.Imu.Moves as ImuMoves
use upy_android.Litert
use upy_android.Litert.{Node, environment_make_new}
use upy_android.Litert.Order.{closed_all}
use upy_android.Litert.Moves as LitertMoves
use upy_android.Mqtt.Moves as MqttMoves
use upy_android.Engine.{Modules, Engine, Script, native_reset, native_deinit}
use upy_android.Engine.Reset.{InOrder, IsClosed, reset_closes}

abbrev capacity : ℕ → ℕ
capacity a = 76_800

abbrev imlib : Imlib
imlib = record { image_size = λ fmt w h. w * h; pack = λ r g b. r }

abbrev args : Args
args = record { id = none; size = none; format = some grayscale; frame_rate = none }

abbrev answers : Answers
answers = record {
  new_object = some 7;
  opening = λ id w h color lo hi. some 0;
  open_info = some (record { out_w = 240; out_h = 320; src_w = 320; src_h = 240; rotation = 90 });
  buffer = λ i. some (100 + i);
}

abbrev camera : Camera.World
camera = (Opening.make_new capacity args answers (CameraMoves.start imlib capacity ℕ ℕ)).1

abbrev node : Node
node = record { address = 10; raw_handle = 4; global_ref = 100 }

abbrev litert : Litert.World
litert = record LitertMoves.start {
  environment_objs = update (λ i. none) 4 (some 10);
  environments = node ∷ [];
  log = Litert.created Litert.environment 100 ∷ [];
}

litert_runs :
    environment_make_new (some node) (some 4) LitertMoves.start ≡ ended (returned 4) litert
unfolding environment_make_new
litert_runs = refl

abbrev modules : Modules ℕ
modules = record {
  camera = camera;
  imu = ImuMoves.start ℕ 0;
  litert = litert;
  mqtt = MqttMoves.start;
}

abbrev device : Imu.Device
device = record { manager = true; sensor = λ s. true; creates_queue = true }

modules-InOrder : InOrder ℕ capacity modules
modules-InOrder = record {
  camera =
      CameraMoves.reached_Inv imlib capacity ℕ ℕ
        (CameraMoves.moved CameraMoves.at_start (CameraMoves.made args answers));
  imu = ImuMoves.sensors_Inv ℕ device 0 ImuMoves.at_start;
  litert = LitertMoves.reached_Inv (
      LitertMoves.moved LitertMoves.at_start
        (LitertMoves.environment_made (some node) (some 4) (returned 4) (λ n e. refl) litert_runs));
  mqtt = MqttMoves.always_Inv MqttMoves.at_start;
}

abbrev engine : Engine ℕ
engine = record {
  output = record { buf = λ i. 65; len = 9; chunk_cb = false; context = 0; delivered = [] };
  stdin = record {
    buf = λ i. 0;
    head = 0;
    len = 3;
    script_active = false;
    waiting = false;
    waiting_cb = true;
    told = [];
    rung = 0;
  };
  modules = modules;
  pending = true;
  last_exception = b'X' ∷ [];
  heap = some 1000;
  initialized = true;
  jvm = true;
  settings = record { heap_size_mb = 32; ssh_enabled = false; adb_exec_enabled = false };
  waits_interrupted = 0;
}

abbrev script : Script ℕ
script = record {
  prints = (b'h' ∷ b'i' ∷ []) ∷ [];
  stdin = λ s. s;
  modules = λ m. m;
  interrupted = false;
  error = some ((b'!' ∷ []) ∷ [], b'E' ∷ []);
}

abbrev mount : Script ℕ
mount = record { prints = []; stdin = λ s. s; modules = λ m. m; interrupted = false; error = none }

reset_closes_example :
    InOrder ℕ capacity (native_reset ℕ mount engine).modules
    × IsClosed ℕ capacity (native_reset ℕ mount engine).modules
    × InOrder ℕ capacity (native_deinit ℕ engine).modules
    × IsClosed ℕ capacity (native_deinit ℕ engine).modules
    × ((native_reset ℕ mount engine).modules.litert.log ≡ closed_all litert)
    × ((native_deinit ℕ engine).modules.litert.log ≡ closed_all litert)
reset_closes_example = reset_closes ℕ capacity mount (λ m. refl) engine modules-InOrder
