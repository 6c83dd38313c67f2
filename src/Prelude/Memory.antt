-- ===== src/Prelude/Memory.antt =====
-- Byte arrays as functions of the index: what memcpy and memset leave, and the bytes of a stretch.
use Prim.Native.Nat.{ℕ, zero, suc, ◌+◌, ◌-◌, ◌≤◌, ◌<◌}
use mathlib.Core.Path.{◌≡◌, refl, sym, ap, ap₂, ◌∙◌}
use native.Mathlib.Decide.{ℕ_discrete}
use mathlib.Core.Bool.{◌&&◌}
use mathlib.Core.List.{List, [], ◌∷◌, ◌++◌}
use native.Mathlib.Omega.{arith}
use upy_android.Prelude.Tests.{if◌then◌else◌, ltb, leb}
use upy_android.Prelude.Lists.{length, take, replicate}
use upy_android.Prelude.Words.{update, update_self, update_ne}

-- `n` bytes from index `i` on.
abbrev pub slice : (ℕ → ℕ) → ℕ → ℕ → List ℕ
slice f i zero = []
slice f i (suc n) = f i ∷ slice f (suc i) n

-- `memcpy(f + i, xs, length xs)`
unfoldable pub blit : (ℕ → ℕ) → ℕ → List ℕ → ℕ → ℕ
blit f i [] = f
blit f i (x ∷ xs) = blit (update f i x) (suc i) xs

-- `memset(f + i, x, n)`
unfoldable pub fill : (ℕ → ℕ) → ℕ → ℕ → ℕ → ℕ → ℕ
fill f i x n j = if leb i j && ltb j (i + n) then x else f j

pub length-slice : (f : ℕ → ℕ) (i n : ℕ) → length (slice f i n) ≡ n
length-slice f i zero = refl
length-slice f i (suc n) = ap suc (length-slice f (suc i) n)

pub slice-ext :
    (f g : ℕ → ℕ) (i n : ℕ) → ((j : ℕ) → i ≤ j → j < i + n → f j ≡ g j) → slice f i n ≡ slice g i n
slice-ext f g i zero h = refl
slice-ext f g i (suc n) h =
    ap₂ ◌∷◌ (h i (omega arith) (omega arith))
      (slice-ext f g (suc i) n (λ j p q. h j (omega arith) (omega arith)))

pub slice-append : (f : ℕ → ℕ) (i n m : ℕ) → slice f i (n + m) ≡ slice f i n ++ slice f (i + n) m
slice-append f i zero m =
    let e : i ≡ i + 0 = omega arith in let g : 0 + m ≡ m = omega arith in ap₂ (slice f) e g
slice-append f i (suc n) m =
    let e : suc n + m ≡ suc (n + m) = omega arith in
    let g : suc i + n ≡ i + suc n = omega arith in
    ap (slice f i) e
    ∙ ap (λ xs. f i ∷ xs)
        (slice-append f (suc i) n m ∙ ap (λ k. slice f (suc i) n ++ slice f k m) g)

pub blit_below : (f : ℕ → ℕ) (i : ℕ) (xs : List ℕ) (j : ℕ) → j < i → blit f i xs j ≡ f j
unfolding blit
blit_below f i [] j h = refl
blit_below f i (x ∷ xs) j h =
    blit_below (update f i x) (suc i) xs j (omega arith) ∙ update_ne f x (omega arith)

pub blit_above : (f : ℕ → ℕ) (i : ℕ) (xs : List ℕ) (j : ℕ) → i + length xs ≤ j → blit f i xs j ≡ f j
unfolding blit
blit_above f i [] j h = refl
blit_above f i (x ∷ xs) j h =
    blit_above (update f i x) (suc i) xs j (omega arith) ∙ update_ne f x (omega arith)

pub slice-blit : (f : ℕ → ℕ) (i : ℕ) (xs : List ℕ) → slice (blit f i xs) i (length xs) ≡ xs
unfolding blit
slice-blit f i [] = refl
slice-blit f i (x ∷ xs) =
    ap₂ ◌∷◌ (blit_below (update f i x) (suc i) xs i (omega arith) ∙ update_self f i x)
      (slice-blit (update f i x) (suc i) xs)

-- Copying to the end of a stretch extends it.
pub slice-blit_append :
    (f : ℕ → ℕ) (i n : ℕ) (xs : List ℕ)
    → slice (blit f (i + n) xs) i (n + length xs) ≡ slice f i n ++ xs
slice-blit_append f i n xs =
    slice-append (blit f (i + n) xs) i n (length xs)
    ∙ ap₂ ◌++◌ (slice-ext _ f i n (λ j p q. blit_below f (i + n) xs j q)) (slice-blit f (i + n) xs)

pub slice-fill : (f : ℕ → ℕ) (i x n m : ℕ) → m ≤ n → slice (fill f i x n) i m ≡ replicate m x
unfolding fill
slice-fill f i x n m h = go i m (omega arith) (omega arith)
  where
    go : (k l : ℕ) → i ≤ k → k + l ≤ i + n → slice (fill f i x n) k l ≡ replicate l x
    go k zero p q = refl
    go k (suc l) p q = ap₂ ◌∷◌ (ground arith) (go (suc k) l (omega arith) (omega arith))

-- What a copy leaves inside does not depend on what was there.
pub blit_inside :
    (f g : ℕ → ℕ) (i : ℕ) (xs : List ℕ) (j : ℕ)
    → i ≤ j
    → j < i + length xs
    → blit f i xs j ≡ blit g i xs j
unfolding blit
blit_inside f g i [] j h k = absurd (omega arith)
blit_inside f g i (x ∷ xs) j h k = elim (ℕ_discrete i j) [
  | yes e ↦
      blit_below (update f i x) (suc i) xs j (omega arith)
      ∙ ground arith
      ∙ sym (blit_below (update g i x) (suc i) xs j (omega arith))
  | no n ↦ blit_inside (update f i x) (update g i x) (suc i) xs j (omega arith) (omega arith)
]

pub slice-update : (f : ℕ → ℕ) (i n k v : ℕ) → i + n ≤ k → slice (update f k v) i n ≡ slice f i n
slice-update f i n k v h = slice-ext _ f i n (λ j p q. update_ne f v (omega arith))

pub fill_below : (f : ℕ → ℕ) (i x n j : ℕ) → j < i → fill f i x n j ≡ f j
unfolding fill
fill_below f i x n j h = ground arith

pub take-append :
    (k : ℕ) (xs ys : List ℕ) → length xs ≤ k → take k (xs ++ ys) ≡ xs ++ take (k - length xs) ys
take-append k [] ys h = ap (λ n. take n ys) (omega arith)
take-append zero (x ∷ xs) ys h = absurd (omega arith)
take-append (suc k) (x ∷ xs) ys h =
    ap (λ zs. x ∷ zs) (take-append k xs ys (omega arith) ∙ ap (λ n. xs ++ take n ys) (omega arith))

pub take_all : (k : ℕ) (xs : List ℕ) → length xs ≤ k → take k xs ≡ xs
take_all zero [] h = refl
take_all (suc k) [] h = refl
take_all zero (x ∷ xs) h = absurd (omega arith)
take_all (suc k) (x ∷ xs) h = ap (λ zs. x ∷ zs) (take_all k xs (omega arith))

pub take-take_append : (k : ℕ) (xs ys : List ℕ) → take k (take k xs ++ ys) ≡ take k (xs ++ ys)
take-take_append zero xs ys = refl
take-take_append (suc k) [] ys = refl
take-take_append (suc k) (x ∷ xs) ys = ap (λ zs. x ∷ zs) (take-take_append k xs ys)
