-- ===== src/Framebuffer/Release.antt =====
-- `framebuffer_release` against lists of buffers: which buffer moves where.
use upy_android.Prelude.{
  ℕ, ◌≡◌, ◌≢◌, refl, sym, ap, ◌∙◌, Bool, true, false, Option, some, List, [], ◌∷◌, ◌++◌, arith,
  length, length-append, get_or, drop, ◌==◌, ◌&&◌, if◌then◌else◌,
}
use mathlib.Core.Path.{subst}
use upy_android.Prelude.Words.{null, update}
use upy_android.Queue
use upy_android.Queue.{Queue}
use upy_android.Queue.Inv.{IsValid, used}
use upy_android.Queue.Moves.{length-contents, push-Holds, pop-Holds, pop-Holds_nil, size-Holds}
use upy_android.Queue.Swap.{swap_lem, older, newer}
use upy_android.Framebuffer.{Platform, Framebuffer, Flags, acquire, reset, move, swap_last, release}
use upy_android.Framebuffer.Inv.{Owns, NonNull, NonNull-append}

-- The specification. A frame buffer is the list of its free buffers and that of its used ones, each
-- from the oldest on.
abbrev pub Lists : Type 0
Lists = List ℕ × List ℕ

-- Put `f` in the place of the newest item.
abbrev pub exchange : ℕ → List ℕ → ℕ × List ℕ
exchange f [] = (f, [])
exchange f (x ∷ []) = (x, f ∷ [])
exchange f (x ∷ y ∷ ys) = let rest = exchange f (y ∷ ys) in (rest.0, x ∷ rest.1)

-- Move the oldest buffer to the other list.
abbrev pub moved : Bool → Lists → ℕ × Lists
moved true (frees, []) = (null, (frees, []))
moved true (frees, x ∷ useds) = (x, (frees ++ x ∷ [], useds))
moved false ([], useds) = (null, ([], useds))
moved false (x ∷ frees, useds) = (x, (frees, useds ++ x ∷ []))

abbrev pub exchanged : Lists → ℕ × Lists
exchanged ([], useds) = (null, ([], useds))
exchanged (f ∷ frees, useds) = let r = exchange f useds in (null, (r.0 ∷ frees, r.1))

abbrev pub released : Flags → ℕ → Lists → ℕ × Lists
released flags count lists =
    if flags.check_last && (length lists.0 == 1)
    then (if count == 2
        then (null, lists)
        else if count == 3
        then exchanged lists
        else moved flags.used lists)
    else moved flags.used lists

-- A frame buffer that a call returns with these lists.
pub record Outcome (r : ℕ × Framebuffer) (s : ℕ × Lists) : Type 0 where
  pub value : r.0 ≡ s.0
  pub owns : Owns r.1 s.1.0 s.1.1

exchange-append : (f l : ℕ) (xs : List ℕ) → exchange f (xs ++ l ∷ []) ≡ (l, xs ++ f ∷ [])
exchange-append f l [] = refl
exchange-append f l (x ∷ []) = refl
exchange-append f l (x ∷ y ∷ ys) =
    ap (λ (r : ℕ × List ℕ). (r.0, x ∷ r.1)) (exchange-append f l (y ∷ ys))

-- What `move` returns, by what it takes.
taken_used :
    (pf : Platform) (fb : Framebuffer) (flags : Flags) (x : ℕ)
    → flags.used ≡ true
    → flags.peek ≡ false
    → (Queue.pop fb.used_queue false).0 ≡ x
    → x ≢ null
    → move pf fb flags ≡ (
      x,
      record fb {
        pixfmt = pf.pixformat_invalid;
        vbuffers = update fb.vbuffers x (record { offset = 0; flags = 0 });
        used_queue = (Queue.pop fb.used_queue false).1;
        free_queue = (Queue.push fb.free_queue x).1;
      },
    )
unfolding move acquire reset
taken_used pf fb flags x u p e ne = ground arith

taken_free :
    (pf : Platform) (fb : Framebuffer) (flags : Flags) (x : ℕ)
    → flags.used ≡ false
    → flags.peek ≡ false
    → (Queue.pop fb.free_queue false).0 ≡ x
    → x ≢ null
    → move pf fb flags ≡ (
      x,
      record fb {
        free_queue = (Queue.pop fb.free_queue false).1;
        used_queue = (Queue.push fb.used_queue x).1;
      },
    )
unfolding move acquire reset
taken_free pf fb flags x u p e ne = ground arith

taken_nothing_used :
    (pf : Platform) (fb : Framebuffer) (flags : Flags)
    → flags.used ≡ true
    → flags.peek ≡ false
    → (Queue.pop fb.used_queue false).0 ≡ null
    → (Queue.pop fb.used_queue false).1 ≡ fb.used_queue
    → move pf fb flags ≡ (null, fb)
unfolding move acquire reset
taken_nothing_used pf fb flags u p e f = ground arith

taken_nothing_free :
    (pf : Platform) (fb : Framebuffer) (flags : Flags)
    → flags.used ≡ false
    → flags.peek ≡ false
    → (Queue.pop fb.free_queue false).0 ≡ null
    → (Queue.pop fb.free_queue false).1 ≡ fb.free_queue
    → move pf fb flags ≡ (null, fb)
unfolding move acquire reset
taken_nothing_free pf fb flags u p e f = ground arith

-- `move` on all branches.
move_refines :
    (pf : Platform) (fb : Framebuffer) (flags : Flags) (used : Bool) (lists : Lists)
    → flags.used ≡ used
    → flags.peek ≡ false
    → Owns fb lists.0 lists.1
    → Outcome (move pf fb flags) (moved used lists)
move_refines pf fb flags true (frees, x ∷ useds) u p o =
    let taken = pop-Holds x o.used in
    subst (λ r. Outcome r (x, (frees ++ x ∷ [], useds)))
      (sym (taken_used pf fb flags x u p taken.0 o.used_buffers.0))
      (record {
        value = refl;
        owns = record {
          free = push-Holds x o.free o.used_buffers.0 (omega (arith, o.room));
          used = taken.1;
          free_buffers = NonNull-append frees (x ∷ []) o.free_buffers (o.used_buffers.0, tt);
          used_buffers = o.used_buffers.1;
          room = omega (arith, o.room, length-append frees (x ∷ []));
        };
      })
move_refines pf fb flags false (x ∷ frees, useds) u p o =
    let taken = pop-Holds x o.free in
    subst (λ r. Outcome r (x, (frees, useds ++ x ∷ [])))
      (sym (taken_free pf fb flags x u p taken.0 o.free_buffers.0))
      (record {
        value = refl;
        owns = record {
          free = taken.1;
          used = push-Holds x o.used o.free_buffers.0 (omega (arith, o.room));
          free_buffers = o.free_buffers.1;
          used_buffers = NonNull-append useds (x ∷ []) o.used_buffers (o.free_buffers.0, tt);
          room = omega (arith, o.room, length-append useds (x ∷ []));
        };
      })
move_refines pf fb flags true (frees, []) u p o =
    let taken = pop-Holds_nil false o.used in
    subst (λ r. Outcome r (null, (frees, [])))
      (sym (taken_nothing_used pf fb flags u p taken.0 taken.1)) (record { value = refl; owns = o })
move_refines pf fb flags false ([], useds) u p o =
    let taken = pop-Holds_nil false o.free in
    subst (λ r. Outcome r (null, ([], useds)))
      (sym (taken_nothing_free pf fb flags u p taken.0 taken.1)) (record { value = refl; owns = o })

swap-IsValid :
    (q0 q1 : Queue)
    → IsValid q0
    → IsValid q1
    → let (item, r0, r1) = Queue.swap q0 q1 in IsValid r0 × IsValid r1
unfolding Queue.swap
swap-IsValid q0 q1 v0 v1 = (
  record { small = v0.small; head_in = v0.head_in; tail_in = v0.tail_in },
  record { small = v1.small; head_in = v1.head_in; tail_in = v1.tail_in },
)

swap-capacity :
    (q0 q1 : Queue)
    → let (item, r0, r1) = Queue.swap q0 q1 in
      (r0.capacity ≡ q0.capacity) × (r1.capacity ≡ q1.capacity)
unfolding Queue.swap
swap-capacity q0 q1 = (refl, refl)

swapped :
    (fb : Framebuffer) (used free : Queue)
    → fb.used_queue ≡ some used
    → fb.free_queue ≡ some free
    → let (item, used', free') = Queue.swap used free in
      swap_last fb
      ≡ some (
        null,
        record fb {
          used_queue = some used';
          free_queue = some free';
          vbuffers = update fb.vbuffers item (record { offset = 0; flags = 0 });
        },
      )
unfolding swap_last reset
swapped fb used free u f = ground arith

NonNull-last : (xs : List ℕ) (x : ℕ) → NonNull (xs ++ x ∷ []) → NonNull xs × (x ≢ null)
NonNull-last [] x h = (tt, h.0)
NonNull-last (y ∷ ys) x h = let r = NonNull-last ys x h.1 in ((h.0, r.0), r.1)

-- A call that returns, and with these lists.
pub record Returns (r : Option (ℕ × Framebuffer)) (s : ℕ × Lists) : Type 0 where
  pub result : ℕ × Framebuffer
  pub there : r ≡ some result
  pub outcome : Outcome result s

swap_refines :
    (fb : Framebuffer) (f : ℕ) (x : ℕ) (useds : List ℕ)
    → Owns fb (f ∷ []) (x ∷ useds)
    → Returns (swap_last fb) (exchanged (f ∷ [], x ∷ useds))
swap_refines fb f x useds o =
    let q0 = o.used.queue in
    let q1 = o.free.queue in
    let some0 : used q0 ≢ 0 = omega (arith, length-contents q0, ap length o.used.items) in
    let some1 : used q1 ≢ 0 = omega (arith, length-contents q1, ap length o.free.items) in
    let (last, first, r0, r1) = swap_lem q0 q1 o.used.valid o.free.valid some0 some1 in
    let item = (Queue.swap q0 q1).0 in
    let split : older q0 ++ item ∷ [] ≡ x ∷ useds = sym last ∙ o.used.items in
    let single : q1.items q1.head ∷ newer q1 ≡ f ∷ [] = sym first ∙ o.free.items in
    let same_f : q1.items q1.head ≡ f = ap (λ ys. get_or ys 0 0) single in
    let same_rest : newer q1 ≡ [] = ap (drop 1) single in
    let parts = NonNull-last (older q0) item (subst NonNull (sym split) o.used_buffers) in
    let valid = swap-IsValid q0 q1 o.used.valid o.free.valid in
    let capacity = swap-capacity q0 q1 in
    subst (λ (r : ℕ × List ℕ). Returns (swap_last fb) (null, (r.0 ∷ [], r.1)))
      (sym (ap (exchange f) (sym split) ∙ exchange-append f item (older q0)))
      (record {
        result = _;
        there = swapped fb q0 q1 o.used.there o.free.there;
        outcome = record {
          value = refl;
          owns = record {
            free = record {
              queue = (Queue.swap q0 q1).2;
              there = refl;
              valid = valid.1;
              items = r1 ∙ ap (λ ys. item ∷ ys) same_rest;
              bound = capacity.1 ∙ o.free.bound;
            };
            used = record {
              queue = (Queue.swap q0 q1).1;
              there = refl;
              valid = valid.0;
              items = r0 ∙ ap (λ g. older q0 ++ g ∷ []) same_f;
              bound = capacity.0 ∙ o.used.bound;
            };
            free_buffers = (parts.1, tt);
            used_buffers = NonNull-append (older q0) (f ∷ []) parts.0 o.free_buffers;
            room = omega (
              arith,
              o.room,
              ap length split,
              length-append (older q0) (item ∷ []),
              length-append (older q0) (f ∷ []),
            );
          };
        };
      })

-- The same tests on both sides.
branches :
    (c two three : Bool) {r2 r3 r : Option (ℕ × Framebuffer)} {s2 s3 s : ℕ × Lists}
    → (c ≡ true → Returns r2 s2)
    → (c ≡ true → three ≡ true → Returns r3 s3)
    → Returns r s
    → Returns
        (if c then (if two then r2 else if three then r3 else r) else r)
        (if c then (if two then s2 else if three then s3 else s) else s)
branches false two three h2 h3 h = h
branches true true three h2 h3 h = h2 refl
branches true false true h2 h3 h = h3 refl refl
branches true false false h2 h3 h = h

exchange_ready :
    (fb : Framebuffer) (lists : Lists)
    → length lists.0 ≡ 1
    → length lists.1 ≢ 0
    → Owns fb lists.0 lists.1
    → Returns (swap_last fb) (exchanged lists)
exchange_ready fb (f ∷ [], x ∷ useds) one some_used o = swap_refines fb f x useds o
exchange_ready fb ([], useds) one some_used o = absurd (omega (arith, one))
exchange_ready fb (f ∷ g ∷ frees, useds) one some_used o = absurd (omega (arith, one))
exchange_ready fb (f ∷ [], []) one some_used o = absurd (some_used refl)

-- `framebuffer_release`, on all branches, for a frame buffer whose queues hold these lists: it returns,
-- what it returns is what the specification returns, and the queues hold the lists that the
-- specification computes. The flag FB_FLAG_PEEK is not given; and where the only free buffer of
-- three is to be exchanged for the newest used one, there is a used one.
pub release_refines :
    (pf : Platform) (fb : Framebuffer) (flags : Flags) (lists : Lists)
    → flags.peek ≡ false
    → (flags.check_last ≡ true → length lists.0 ≡ 1 → fb.buf_count ≡ 3 → length lists.1 ≢ 0)
    → Owns fb lists.0 lists.1
    → Returns (release pf fb flags) (released flags fb.buf_count lists)
unfolding release
release_refines pf fb flags lists p ready o =
    let n : Queue.size fb.free_queue ≡ length lists.0 = size-Holds o.free in
    let one : (flags.check_last && (length lists.0 == 1)) ≡ true
        → (flags.check_last ≡ true) × (length lists.0 ≡ 1) =
      λ e. ground (arith, e) in
    let is_three : (fb.buf_count == 3) ≡ true → fb.buf_count ≡ 3 = λ e. ground (arith, e) in
    rw n (
      branches (flags.check_last && (length lists.0 == 1)) (fb.buf_count == 2) (fb.buf_count == 3)
        (λ c. record {
          result = _;
          there = refl;
          outcome = record {
            value = refl;
            owns = record {
              free = o.free;
              used = o.used;
              free_buffers = o.free_buffers;
              used_buffers = o.used_buffers;
              room = o.room;
            };
          };
        })
        (λ c e. exchange_ready fb lists (one c).1 (ready (one c).0 (one c).1 (is_three e)) o)
        (record {
          result = _;
          there = refl;
          outcome = move_refines pf fb flags flags.used lists refl p o;
        }))
