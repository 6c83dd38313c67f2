-- ===== src/Prelude/Raise.antt =====
-- How a call from a script ends: with a value, or with the exception that it raises.

-- The error numbers of the OSErrors that the modules raise; `no_errno` is an OSError with a message only.
pub data Errno : Type 0 where
  einval eio enoent etimedout enodev eacces enotconn no_errno : Errno

-- `pending` is an exception that `mp_handle_pending` raises: the user tapped Interrupt.
pub data Exn : Type 0 where
  os_error : Errno → Exn
  value_error type_error memory_error not_implemented pending : Exn

pub data Outcome {ℓ} (A : Type ℓ) : Type ℓ where
  returned : A → Outcome A
  raised : Exn → Outcome A
