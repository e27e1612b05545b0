-- ===== src/Memory.antt =====
-- The memory of the process, and commands over it. A command returns, panics, aborts the process
-- or meets undefined behaviour (a bad pointer, a cast to another type, a double free).
pub mod Slices
pub mod Runs
use rgpot.Prelude.{
  ℕ, ◌+◌, ◌*◌, ◌≤◌, ◌≡◌, Bool, Option, none, some, List, [], ltb, ◌==◌, if◌then◌else◌, ◌&&◌, length,
  take,
}
use rgpot.Prelude.Text.{Text, codes}
use rgpot.Prelude.Words.{Word, Half, Double, wrap, mul_i64_overflows, mul_usize_overflows}
use rgpot.Layout.{
  Ptr, is_null, Cell, Managed, ForceInput, ForceOut, PotentialImpl, RpcClient, f64s, i32s, i64s,
  c_chars, managed, force_input, force_out, potential, client,
}

-- `next` is the address that the allocator gives out next; `thread` is the running thread, and
-- `last_error` each thread's `LAST_ERROR`, a C string with its terminator. `overflow_checks` says
-- how the crate was compiled.
pub record World : Type 0 where
  pub cell : Ptr → Option Cell
  pub next : Ptr
  pub thread : ℕ
  pub last_error : ℕ → List ℕ
  pub overflow_checks : Bool

-- What a panic carries: a `&str`, a `String`, or a value of another type.
pub data Payload : Type 0 where
  static_str : Text → Payload
  owned_string : Text → Payload
  other_payload : Payload

pub data Run {ℓ} (A : Type ℓ) : Type ℓ where
  ok : A → World → Run A
  panicked : Payload → World → Run A
  aborted : Run A
  undefined : Run A

abbrev pub Cmd {ℓ} : Type ℓ → Type ℓ
Cmd A = World → Run A

abbrev pub pure {ℓ} : {A : Type ℓ} → A → Cmd A
pure = ok

module _ {ℓ κ} {A : Type ℓ} {B : Type κ} where
  abbrev pub and_then : Run A → (A → Cmd B) → Run B
  and_then (ok a w) k = k a w
  and_then (panicked e w) k = panicked e w
  and_then aborted k = aborted
  and_then undefined k = undefined

  infixl 5 ◌>>=◌ ◌>>◌
  abbrev pub ◌>>=◌ : Cmd A → (A → Cmd B) → Cmd B
  m >>= k = λ w. and_then (m w) k

  abbrev pub ◌>>◌ : Cmd A → Cmd B → Cmd B
  m >> n = m >>= λ _. n

-- A panic that reaches the edge of an `extern "C"` function ends the process: so from Rust 1.81 on,
-- while older compilers leave it undefined.
abbrev pub extern_c_run {ℓ} : {A : Type ℓ} → Run A → Run A
extern_c_run (ok a w) = ok a w
extern_c_run (panicked e w) = aborted
extern_c_run aborted = aborted
extern_c_run undefined = undefined

abbrev pub extern_c {ℓ} : {A : Type ℓ} → Cmd A → Cmd A
extern_c m w = extern_c_run (m w)

abbrev pub panic {ℓ} : {A : Type ℓ} → Payload → Cmd A
panic e w = panicked e w

abbrev pub ub {ℓ} : {A : Type ℓ} → Cmd A
ub w = undefined

abbrev pub update : (Ptr → Option Cell) → Ptr → Option Cell → Ptr → Option Cell
update f p c q = if q == p then c else f q

abbrev pub put : Ptr → Option Cell → World → World
put p c w = record w { cell = update w.cell p c }

-- `Box::new` and the buffer of a `Vec`: a fresh block, which is never at null.
abbrev pub with_block : Cell → World → World
with_block c w = record w { cell = update w.cell w.next (some c); next = w.next + 1 }

abbrev pub alloc : Cell → Cmd Ptr
alloc c w = ok w.next (with_block c w)

-- A read through a pointer.
unfoldable pub load : Ptr → Cmd Cell
load p w = if is_null p then undefined else elim (w.cell p) [ none ↦ undefined | some c ↦ ok c w ]

-- A write through a pointer to a live block.
unfoldable pub store : Ptr → Cell → Cmd (Unit {0})
unfolding load
store p c = do load p; λ w. ok tt (put p (some c) w)

unfoldable pub dealloc : Ptr → Cmd (Unit {0})
unfolding load
dealloc p = do load p; λ w. ok tt (put p none w)

-- The value behind a pointer of each type. A block of another type is a cast gone wrong.
abbrev pub as_managed : Cell → Cmd Managed
as_managed (managed m) = pure m
as_managed _ = ub

abbrev pub as_input : Cell → Cmd ForceInput
as_input (force_input i) = pure i
as_input _ = ub

abbrev pub as_out : Cell → Cmd ForceOut
as_out (force_out o) = pure o
as_out _ = ub

abbrev pub as_potential : Cell → Cmd PotentialImpl
as_potential (potential p) = pure p
as_potential _ = ub

abbrev pub as_client : Cell → Cmd RpcClient
as_client (client c) = pure c
as_client _ = ub

abbrev pub as_f64s : Cell → Cmd (List Double)
as_f64s (f64s xs) = pure xs
as_f64s _ = ub

abbrev pub as_i32s : Cell → Cmd (List Half)
as_i32s (i32s xs) = pure xs
as_i32s _ = ub

abbrev pub as_i64s : Cell → Cmd (List Word)
as_i64s (i64s xs) = pure xs
as_i64s _ = ub

abbrev pub as_c_chars : Cell → Cmd (List ℕ)
as_c_chars (c_chars s) = pure s
as_c_chars _ = ub

-- `slice::from_raw_parts(p, len)`: an empty slice wants a pointer that is not null, and a slice
-- must lie within its buffer.
abbrev slice_of {ℓ} : {A : Type ℓ} → Ptr → ℕ → (Cell → Cmd (List A)) → Cmd (List A)
slice_of p len cast =
    if is_null p
    then ub
    else if len == 0
    then pure []
    else do xs ← load p >>= cast; if ltb (length xs) len then ub else pure (take len xs)

unfoldable pub f64_slice : Ptr → ℕ → Cmd (List Double)
f64_slice p len = slice_of p len as_f64s

unfoldable pub i32_slice : Ptr → ℕ → Cmd (List Half)
i32_slice p len = slice_of p len as_i32s

unfoldable pub i64_slice : Ptr → ℕ → Cmd (List Word)
i64_slice p len = slice_of p len as_i64s

abbrev pub overflow_message : Text
overflow_message = codes "attempt to multiply with overflow"

-- A product in machine integers: out of range it panics or wraps, as the crate was compiled.
abbrev pub mul_checked : Bool → Word → Word → Cmd Word
mul_checked out a b w =
    if out && w.overflow_checks
    then panicked (static_str overflow_message) w
    else ok (wrap (a * b)) w

unfoldable pub mul_i64 : Word → Word → Cmd Word
mul_i64 a b = mul_checked (mul_i64_overflows a b) a b

unfoldable pub mul_usize : Word → Word → Cmd Word
mul_usize a b = mul_checked (mul_usize_overflows a b) a b

-- The allocator's invariant: null is never given out, and what lies ahead is unused.
pub record IsWorld (w : World) : Type 0 where
  pub positive : 1 ≤ w.next
  pub fresh : (p : Ptr) → w.next ≤ p → w.cell p ≡ none
  pub null_unused : w.cell 0 ≡ none

-- What no operation on blocks touches.
pub record SameRest (w w' : World) : Type 0 where
  pub thread : w'.thread ≡ w.thread
  pub last_error : w'.last_error ≡ w.last_error
  pub overflow_checks : w'.overflow_checks ≡ w.overflow_checks
