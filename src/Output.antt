-- ===== src/Output.antt =====
-- native-bringup/my-overrides/mphalport.c, lines 21 to 65 and 155 to 173: what a script prints is
-- kept in a buffer of fixed size, and handed to a callback as it comes.
pub mod Capture
pub mod Truncation
mod Tests
use Prim.Native.Nat.{bit_and}
use upy_android.Prelude.{
  ℕ, zero, suc, ◌+◌, ◌-◌, ◌*◌, Bool, true, false, List, [], ◌∷◌, ◌++◌, ltb, ◌==◌, ◌&&◌,
  if◌then◌else◌, length, take, min,
}
use upy_android.Prelude.Words.{update}
use upy_android.Prelude.Memory.{slice, blit, fill}

-- MP_EMBED_OUTPUT_BUF_SIZE
abbrev pub buf_size : ℕ
buf_size = 128 * 1024

-- The file's static variables: the buffer and its fill, whether a callback is set, and its context.
-- `delivered` records the callback's calls, each with the context and the bytes.
pub record Output : Type 0 where
  pub buf : ℕ → ℕ
  pub len : ℕ
  pub chunk_cb : Bool
  pub context : ℕ
  pub delivered : List (ℕ × List ℕ)

-- `mp_embed_output_clear`
unfoldable pub clear : Output → Output
clear o = record o { len = 0 }

-- "[truncated]"
abbrev pub marker : List ℕ
marker = b'[' ∷ b't' ∷ b'r' ∷ b'u' ∷ b'n' ∷ b'c' ∷ b'a' ∷ b't' ∷ b'e' ∷ b'd' ∷ b']' ∷ []

-- A UTF-8 continuation byte: `(c & 0xC0) == 0x80`.
pub is_continuation : ℕ → Bool
is_continuation c = bit_and c 0xC0 == 0x80

-- The `while` that backs up to a byte that leads a character.
pub back_up : (ℕ → ℕ) → ℕ → ℕ
back_up buf zero = zero
back_up buf (suc pos) = elim (is_continuation (buf (suc pos))) [
  | true ↦ back_up buf pos
  | false ↦ suc pos
]

-- Where the dots begin.
abbrev pub cut : Output → ℕ
cut o = back_up o.buf (o.len - length marker - 1)

-- What `mp_embed_output_get` writes when the buffer is full.
pub mark : Output → ℕ → ℕ
mark o = blit (fill o.buf (cut o) b'.' (o.len - cut o)) (o.len - length marker) marker

-- `mp_embed_output_get`; the string that it returns is the buffer.
pub get : Output → Output
unfolding mark
get o =
    if o.len == buf_size - 1
    then record o { buf = update (mark o) o.len 0 }
    else record o { buf = update o.buf o.len 0 }

-- `mp_embed_output_get_len`
pub get_len : Output → ℕ
get_len o = o.len

-- `mp_embed_set_output_chunk_cb`
unfoldable pub set_output_chunk_cb : Output → Bool → ℕ → Output
set_output_chunk_cb o cb context = record o { chunk_cb = cb; context = context }

-- How many of `n` bytes fit.
abbrev pub copy_len : Output → ℕ → ℕ
copy_len o n = if ltb (buf_size - 1 - o.len) n then buf_size - 1 - o.len else n

-- The part of `mp_hal_stdout_tx_strn_cooked` that fills the buffer.
pub accumulate : Output → List ℕ → Output
accumulate o str =
    if ltb 0 (copy_len o (length str))
    then record o {
      buf = blit o.buf o.len (take (copy_len o (length str)) str);
      len = o.len + copy_len o (length str);
    }
    else o

-- `mp_hal_stdout_tx_strn_cooked`
pub tx_strn_cooked : Output → List ℕ → Output
unfolding accumulate
tx_strn_cooked o str =
    let o' = accumulate o str in
    if o'.chunk_cb && ltb 0 (length str)
    then record o' { delivered = o'.delivered ++ (o'.context, str) ∷ [] }
    else o'

-- `mp_hal_stdout_tx_strn`
pub tx_strn : Output → List ℕ → ℕ × Output
unfolding tx_strn_cooked
tx_strn o str = (length str, tx_strn_cooked o str)

-- The bytes that the buffer holds.
abbrev pub text : Output → List ℕ
text o = slice o.buf 0 o.len

-- The writes of a script, in order.
unfoldable pub print_all : Output → List (List ℕ) → Output
unfolding tx_strn_cooked
print_all o [] = o
print_all o (s ∷ ss) = print_all (tx_strn_cooked o s) ss
