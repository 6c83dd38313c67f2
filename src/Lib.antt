-- ===== src/Lib.antt =====
-- The native side of an Android app that runs MicroPython with OpenMV's image library. The code is C
-- under upy-android/native-bringup/my-overrides/, where paths below start, and C++ under
-- upy-android/app/src/main/cpp/, written cpp/ below.
--
-- Prelude    lists and memory over native numbers, C's 64-bit words
-- Queue      openmv/queue.c, openmv/queue.h: a lock-free ring of pointers. One definition per function
--            (queue_push is `push`); `*_live` are the functions past their NULL checks. Queue.Fifo is the
--            specification, Queue.Spsc the producer and the consumer at their atomic accesses.
-- Mutex      openmv/mutex.c: each call as one, and in Mutex.Threads at its atomic accesses
-- Framebuffer  openmv/framebuffer.c, openmv/framebuffer.h: the buffers of a camera, which go round
--            between two queues of Queue. framebuffer_resize is `resize`, framebuffer_release `release`.
--            Framebuffer.Inv says which queue holds which buffer, Framebuffer.Layout where they lie.
-- Output     mphalport.c: mp_hal_stdout_tx_strn_cooked and mp_embed_output_get, the capture of output
-- Umalloc    openmv/umalloc_android.c: the allocator that framebuffer_resize asks
-- Stdin      mphalport.c: mp_android_stdin_push, mp_hal_stdin_rx_chr and the rest of a script's input
-- Stdio      shared-runtime/sys_stdio_mphal.c: sys.stdin, sys.stdout and sys.stderr over Stdin and Output
-- Mjpeg      openmv/py_mjpeg.c: the recorder; `write`, `sync` and `close` are py_mjpeg_write and so on
-- Gif        openmv/py_gif.c: the other recorder
-- Camera     cpp/camera_module.cpp: the camera that is open (`World`), Camera.Opening its constructor,
--            Camera.Snapshot and Camera.Rotate its frames, Camera.Control its controls, Camera.Info the
--            rest. Camera.Inv is what holds between calls, Camera.Moves any sequence of them.
-- Imu        cpp/imu_module.cpp: the sensors and their queue of events; Imu.Fresh is what a read waits
--            for, Imu.Proximity the cached distance, Imu.Moves any sequence of calls
-- Location   cpp/location_module.cpp: the fixes that a script reads
-- Mqtt       cpp/mqtt_module.cpp: the clients, the list of their nodes and the references in it.
--            Mqtt.Calls and Mqtt.Messages are the methods, Mqtt.Moves any sequence of them.
-- Litert     cpp/litert_module.cpp: the handles of LiteRT and their lists. Litert.Tensors asks for the type
--            and the shape of a tensor, Litert.Running is run() with its handler, Litert.Moves any sequence
--            of calls.
-- Display    cpp/display_module.cpp: the frame that write() draws. Display.Scaling is its geometry,
--            Display.Painting what loops leave in a buffer, Display.Pictures what it is to show,
--            Display.Showing the whole frame,
--            Display.Windows the window that the app attaches.
-- Engine     cpp/engine_jni.cpp, embed_util.c: the calls of the app, over Output, Stdin and the modules
--
-- The queue's memory is a function from index to word; the frame buffer's memory is its buffers'
-- headers by address. `size_t` is 64 bits and wraps where the code computes sizes. Allocation is a
-- parameter, as are cache lines and the size of a header, which vendored headers define. The waits of
-- Stdin follow a list of wakes, each with what other threads do in it; `blocked` says that the list
-- was used up in a wait. The line reader has fuel for its bytes, and a read of all there
-- is has fuel for a full FIFO, so that neither runs out.
--
-- Camera, Location and Mqtt stand on Java services behind JNI bridges, Imu on Android's sensor service.
-- What these answer is an argument of the operation, what the bridges are asked to do goes into a log,
-- and an operation returns how it ends together with the state it leaves. Floating-point numbers are
-- a parameter. A wait has fuel for its rounds, each of which waits 80 ms for the camera and 5 ms for a
-- fix; `none` says that the fuel was used up. A wait for a sensor is its 100 rounds. Callbacks that the
-- interpreter runs inside a wait are taken not to call the same module, but for a scheduled one that
-- closes the MQTT client that waits. An overflow of C's `long long` is taken to wrap, and a `size_t`
-- wraps; a pointer does not. In Litert a call may also fault, which stands for a freed node that is
-- read; theorems say that it does not. The doubling of Display's
-- step has fuel for the doublings up to the size of the picture, which is enough.
--
-- Not modelled: freeing memory, the preview hook, the callbacks' bodies, the weak memory orders (the
-- accesses of Queue.Spsc and Mutex.Threads are interleaved in one order); modtime_android.c
-- and the rest of embed_util.c, which mostly call the C library and the interpreter; openmv/fmath.c, which is about
-- rounding; the clock and the doorbell of mphalport.c; the other C++ modules of the app, the JNI bridges,
-- and the tables of functions and help texts of all modules.
pub mod Prelude
pub mod Queue
pub mod Mutex
pub mod Framebuffer
pub mod Umalloc
pub mod Output
pub mod Stdin
pub mod Stdio
pub mod Mjpeg
pub mod Gif
pub mod Camera
pub mod Location
pub mod Mqtt
pub mod Imu
pub mod Litert
pub mod Display
pub mod Engine
