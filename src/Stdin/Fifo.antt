-- ===== src/Stdin/Fifo.antt =====
-- The FIFO behind its ring: a list of at most `fifo_size` bytes.
use upy_android.Prelude.{
  ℕ, zero, suc, ◌+◌, ◌-◌, ◌%◌, ◌≤◌, ◌<◌, ◌≡◌, refl, sym, ap, ◌∙◌, none, some, List, [], ◌∷◌, ◌++◌,
  arith, if◌then◌else◌, length, take, drop, length-take, Bool-cases, inl, inr, min, dec_lt,
}
use mathlib.Core.Path.{ap₂}
use upy_android.Prelude.Words.{update, update_self, update_ne}
use upy_android.Prelude.Memory.{take_all}
use upy_android.Stdin.{Stdin, fifo_size, store, load, push, read_available, accepts, available}

pub record IsValid (s : Stdin) : Type 0 where
  pub head_in : s.head < fifo_size
  pub len_in : s.len ≤ fifo_size

-- The bytes that wait, oldest first.
unfoldable pub contents : Stdin → List ℕ
contents s = load s.buf s.head s.len

pub length-load : (f : ℕ → ℕ) (pos n : ℕ) → length (load f pos n) ≡ n
unfolding load
length-load f pos zero = refl
length-load f pos (suc n) = ap suc (length-load f (suc pos) n)

pub length-contents : (s : Stdin) → length (contents s) ≡ s.len
unfolding contents
length-contents s = length-load s.buf s.head s.len

load-append : (f : ℕ → ℕ) (pos n m : ℕ) → load f pos (n + m) ≡ load f pos n ++ load f (pos + n) m
unfolding load
load-append f pos zero m =
    let e : 0 + m ≡ m = omega arith in
    let g : pos ≡ pos + 0 = omega arith in ap (load f pos) e ∙ ap (λ p. load f p m) g
load-append f pos (suc n) m =
    let e : suc n + m ≡ suc (n + m) = omega arith in
    let g : suc pos + n ≡ pos + suc n = omega arith in
    ap (load f pos) e
    ∙ ap (λ xs. f (pos % fifo_size) ∷ xs)
        (load-append f (suc pos) n m ∙ ap (λ p. load f (suc pos) n ++ load f p m) g)

-- The ring position may be reduced.
load-mod : (f : ℕ → ℕ) (p q n : ℕ) → p % fifo_size ≡ q % fifo_size → load f p n ≡ load f q n
unfolding load
load-mod f p q zero e = refl
load-mod f p q (suc n) e = ap₂ ◌∷◌ (ap f e) (load-mod f (suc p) (suc q) n (omega arith))

-- Storing ahead of a stretch, within one turn of the ring, leaves the stretch alone.
load-store_other :
    (f : ℕ → ℕ) (p n q : ℕ) (xs : List ℕ)
    → p + n ≤ q
    → q + length xs ≤ p + fifo_size
    → load (store f q xs) p n ≡ load f p n
unfolding load store
load-store_other f p n q [] h k = refl
load-store_other f p n q (x ∷ xs) h k =
    load-store_other (update f (q % fifo_size) x) p n (suc q) xs (omega arith) (omega arith)
    ∙ load-update f p n q x h (omega arith)
  where
    load-update :
        (g : ℕ → ℕ) (a m b y : ℕ)
        → a + m ≤ b
        → b < a + fifo_size
        → load (update g (b % fifo_size) y) a m ≡ load g a m
    load-update g a zero b y u w = refl
    load-update g a (suc m) b y u w =
        ap₂ ◌∷◌ (update_ne g y (omega arith))
          (load-update g (suc a) m b y (omega arith) (omega arith))

load-store :
    (f : ℕ → ℕ) (q : ℕ) (xs : List ℕ)
    → length xs ≤ fifo_size
    → load (store f q xs) q (length xs) ≡ xs
unfolding load store
load-store f q [] h = refl
load-store f q (x ∷ xs) h =
    ap₂ ◌∷◌
      (ground (
        arith,
        load-store_other (update f (q % fifo_size) x) q 1 (suc q) xs (omega arith) (omega arith),
        update_self f (q % fifo_size) x,
      ))
      (load-store (update f (q % fifo_size) x) (suc q) xs (omega arith))

load-store_append :
    (f : ℕ → ℕ) (pos n : ℕ) (xs : List ℕ)
    → n + length xs ≤ fifo_size
    → load (store f (pos + n) xs) pos (n + length xs) ≡ load f pos n ++ xs
load-store_append f pos n xs h =
    load-append (store f (pos + n) xs) pos n (length xs)
    ∙ ap₂ ◌++◌ (load-store_other f pos n (pos + n) xs (omega arith) (omega arith))
        (load-store f (pos + n) xs (omega arith))

take-load : (f : ℕ → ℕ) (pos n m : ℕ) → m ≤ n → take m (load f pos n) ≡ load f pos m
unfolding load
take-load f pos n zero h = refl
take-load f pos zero (suc m) h = absurd (omega arith)
take-load f pos (suc n) (suc m) h =
    ap (λ xs. f (pos % fifo_size) ∷ xs) (take-load f (suc pos) n m (omega arith))

drop-load : (f : ℕ → ℕ) (pos n m : ℕ) → m ≤ n → drop m (load f pos n) ≡ load f (pos + m) (n - m)
unfolding load
drop-load f pos n zero h =
    let e : pos ≡ pos + 0 = omega arith in let g : n ≡ n - 0 = omega arith in ap₂ (load f) e g
drop-load f pos zero (suc m) h = absurd (omega arith)
drop-load f pos (suc n) (suc m) h =
    let e : suc pos + m ≡ pos + suc m = omega arith in
    let g : n - m ≡ suc n - suc m = omega arith in
    drop-load f (suc pos) n m (omega arith) ∙ ap₂ (load f) e g

drop_all : (n : ℕ) (xs : List ℕ) → length xs ≤ n → drop n xs ≡ []
drop_all zero [] h = refl
drop_all (suc n) [] h = refl
drop_all zero (x ∷ xs) h = absurd (omega arith)
drop_all (suc n) (x ∷ xs) h = drop_all n xs (omega arith)

push-contents :
    (s : Stdin) (bytes : List ℕ)
    → IsValid s
    → load
        (store s.buf (s.head + s.len) (take (accepts s (length bytes)) bytes))
        s.head
        (s.len + accepts s (length bytes))
      ≡ contents s ++ take (fifo_size - length (contents s)) bytes
unfolding contents
push-contents s bytes v =
    let k = accepts s (length bytes) in
    let n : k ≡ length (take k bytes) = ground (arith, length-take k bytes) in
    let same : take k bytes ≡ take (fifo_size - s.len) bytes =
      ground (arith, take_all k bytes, take_all (fifo_size - s.len) bytes) in
    ap (λ m. load (store s.buf (s.head + s.len) (take k bytes)) s.head (s.len + m)) n
    ∙ load-store_append s.buf s.head s.len (take k bytes) (ground (arith, n))
    ∙ ap (λ xs. load s.buf s.head s.len ++ xs) same
    ∙ ap (λ m. load s.buf s.head s.len ++ take (fifo_size - m) bytes)
        (sym (length-load s.buf s.head s.len))

-- `mp_android_stdin_push` while a script runs: as many bytes as fit are taken, from the front, and
-- go behind those that wait; their number is the result, and the doorbell rings once. Whether a read waits, and
-- what the app has been told, stays as it is. With no script the call is refused and changes nothing.
pub push_refines :
    (s : Stdin) (bytes : List ℕ)
    → IsValid s
    → ((push s bytes).0
        ≡ (if s.script_active then some (min (length bytes) (fifo_size - s.len)) else none))
      × (contents (push s bytes).1 ≡ (
          if s.script_active
          then contents s ++ take (fifo_size - length (contents s)) bytes
          else contents s))
      × IsValid (push s bytes).1
      × ((push s bytes).1 ≡ (
          if s.script_active
          then record s {
            buf = (push s bytes).1.buf;
            len = (push s bytes).1.len;
            rung = s.rung + 1;
          }
          else s))
unfolding push contents
push_refines s bytes v = elim (Bool-cases s.script_active) [
  | inl on ↦ rw on (ground arith, push-contents s bytes v, ground arith, refl)
  | inr off ↦ rw off (refl, refl, omega arith, refl)
]

-- `mp_android_stdin_read_available` takes the oldest bytes, at most `max`, and leaves the others.
pub read_refines :
    (s : Stdin) (max : ℕ)
    → IsValid s
    → ((read_available s max).0 ≡ take max (contents s))
      × (contents (read_available s max).1 ≡ drop max (contents s))
      × IsValid (read_available s max).1
unfolding read_available contents
read_refines s max v = elim (dec_lt s.len max) [
  | yes all ↦
      let e : available s max ≡ s.len = ground arith in
      let z : s.len - available s max ≡ 0 = ground arith in
      let short : length (load s.buf s.head s.len) ≤ max =
        omega (arith, length-load s.buf s.head s.len) in
      (
        ap (load s.buf s.head) e ∙ sym (take_all max (load s.buf s.head s.len) short),
        ap (load s.buf ((s.head + available s max) % fifo_size)) z
            ∙ sym (drop_all max (load s.buf s.head s.len) short),
        omega arith,
      )
  | no part ↦
      let e : available s max ≡ max = ground arith in
      let z : s.len - available s max ≡ s.len - max = ground arith in
      (
        ap (load s.buf s.head) e ∙ sym (take-load s.buf s.head s.len max (omega arith)),
        ap (load s.buf ((s.head + available s max) % fifo_size)) z
            ∙ load-mod s.buf _ (s.head + max) (s.len - max) (omega (arith, e))
            ∙ sym (drop-load s.buf s.head s.len max (omega arith)),
        omega (arith, e),
      )
]
