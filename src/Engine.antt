-- ===== src/Engine.antt =====
-- app/src/main/cpp/engine_jni.cpp: the calls by which the app starts the interpreter, runs a script, interrupts
-- it, feeds its input and resets it, over the output, the input and the modules; and
-- native-bringup/my-overrides/embed_util.c, which runs the script.
pub mod Exec
pub mod Reset
mod Tests
use upy_android.Prelude.{
  ℕ, ◌+◌, ◌*◌, Bool, true, false, Option, none, some, List, [], ◌∷◌, if◌then◌else◌, take,
}
use upy_android.Output
use upy_android.Output.{Output}
use upy_android.Stdin as Input
use upy_android.Stdin.{Stdin}
use upy_android.Camera
use upy_android.Imu
use upy_android.Imu.{Imu}
use upy_android.Mqtt
use upy_android.Mqtt.Moves.{no_client}
use upy_android.Litert
use upy_android.Litert.Moves.{no_model}

abbrev pub default_heap_size_mb : ℕ
default_heap_size_mb = 32

-- `SettingsSnapshot`
pub record Settings : Type 0 where
  pub heap_size_mb : ℕ
  pub ssh_enabled : Bool
  pub adb_exec_enabled : Bool

-- `Value` is what an event of a sensor holds.
module _ (Value : Type 0) where
  -- The modules that keep something outside the interpreter's heap.
  pub record Modules : Type 0 where
    pub camera : Camera.World
    pub imu : Imu Value
    pub litert : Litert.World
    pub mqtt : Mqtt.World

  -- The process: what is printed and read, the modules, whether a KeyboardInterrupt is pending, the name of the
  -- last exception, the size of the heap at `g_heap` (`none` for null), `g_initialized` and whether `g_jvm`
  -- is there, the settings, and how often the waits of the modules have been interrupted.
  pub record Engine : Type 0 where
    pub output : Output
    pub stdin : Stdin
    pub modules : Modules
    pub pending : Bool
    pub last_exception : List ℕ
    pub heap : Option ℕ
    pub initialized : Bool
    pub jvm : Bool
    pub settings : Settings
    pub waits_interrupted : ℕ

  -- What a script does: it prints, it reads and works with the modules, it may leave an interrupt pending, and it
  -- may end with an exception, whose report and whose type's name are given.
  pub record Script : Type 0 where
    pub prints : List (List ℕ)
    pub stdin : Stdin → Stdin
    pub modules : Modules → Modules
    pub interrupted : Bool
    pub error : Option (List (List ℕ) × List ℕ)

  -- What `mp_obj_print_exception` prints, and what goes into `last_exception`, which has 64 bytes.
  abbrev pub report : Option (List (List ℕ) × List ℕ) → List (List ℕ)
  report none = []
  report (some (lines, name)) = lines

  abbrev pub exception_name : Option (List (List ℕ) × List ℕ) → List ℕ
  exception_name none = []
  exception_name (some (lines, name)) = take 63 name

  -- `mp_embed_exec_str`
  pub exec_str : Script → Engine → Engine
  exec_str s e = record e {
    output = Output.print_all (Output.print_all e.output s.prints) (report s.error);
    stdin = s.stdin e.stdin;
    modules = s.modules e.modules;
    pending = s.interrupted;
    last_exception = exception_name s.error;
  }

  -- `allocate_heap`, where `malloc` gives memory of some sizes.
  abbrev pub allocate_heap : (ℕ → Bool) → ℕ → Option ℕ
  allocate_heap malloc mb =
      let size = mb * 1024 * 1024 in
      let default_size = default_heap_size_mb * 1024 * 1024 in
      if malloc size then some size else if malloc default_size then some default_size else none

  -- `mp_embed_init`: `mount` is what the command that mounts the root does.
  pub embed_init : Script → Engine → Engine
  unfolding exec_str
  embed_init mount e = exec_str mount e

  -- `nativeInit`
  pub native_init : (ℕ → Bool) → ℕ → Script → Engine → Engine
  unfolding embed_init
  native_init malloc mb mount e =
      if e.initialized
      then e
      else record (embed_init mount (record e {
        stdin = if e.jvm then e.stdin else Input.set_waiting_cb e.stdin true;
        jvm = true;
        heap = allocate_heap malloc mb;
        settings = record e.settings { heap_size_mb = mb };
      })) { initialized = true }

  -- The sink of a script's output, if there is one.
  abbrev pub set_sink : Option ℕ → Output → Output
  set_sink none o = o
  set_sink (some sink) o = Output.set_output_chunk_cb o true sink

  -- `nativeExec`: the bytes of the string that it returns.
  pub native_exec : Script → Option ℕ → Engine → List ℕ × Engine
  unfolding exec_str
  native_exec s sink e =
      let e1 = record e {
        output = set_sink sink (Output.clear e.output);
        pending = false;
        stdin = Input.script_active e.stdin true;
      } in
      let e2 = exec_str s e1 in
      let o = Output.get (Output.set_output_chunk_cb e2.output false 0) in
      (Output.text o, record e2 { output = o; stdin = Input.script_active e2.stdin false })

  -- `nativeInterrupt`
  pub native_interrupt : Engine → Engine
  native_interrupt e = record e {
    pending = true;
    stdin = record (Input.clear e.stdin) { rung = e.stdin.rung + 1 };
    waits_interrupted = e.waits_interrupted + 1;
  }

  -- `nativeSendInput`: the number of bytes accepted, or `none` for -1.
  pub native_send_input : List ℕ → Engine → Option ℕ × Engine
  native_send_input bytes e = let (n, s) = Input.push e.stdin bytes in (n, record e { stdin = s })

  -- The `close_all` calls of the modules.
  abbrev pub close_modules : Modules → Modules
  close_modules m = record {
    camera = Camera.close_all m.camera;
    imu = Imu.close_all Value m.imu;
    litert = Litert.close_all m.litert;
    mqtt = Mqtt.close_all m.mqtt;
  }

  -- The end of the interpreter, whose heap has the objects of the modules.
  abbrev pub forget_objects : Modules → Modules
  forget_objects m = record m {
    litert = record m.litert { environment_objs = λ i. none; model_objs = λ i. no_model };
    mqtt = record m.mqtt { clients = λ i. no_client };
  }

  -- `nativeReset`
  pub native_reset : Script → Engine → Engine
  unfolding embed_init
  native_reset mount e =
      record (embed_init mount (record e { modules = forget_objects (close_modules e.modules) })) {
        initialized = true;
      }

  -- `nativeDeinit`
  pub native_deinit : Engine → Engine
  native_deinit e = record e {
    modules = forget_objects (close_modules e.modules);
    initialized = false;
    heap = none;
  }

  -- `nativeSetSettings`
  pub set_settings : Bool → Bool → Engine → Engine
  set_settings ssh adb e = record e {
    settings = record e.settings { ssh_enabled = ssh; adb_exec_enabled = adb };
  }
