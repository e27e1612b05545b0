-- ===== src/Rpc/Wire.antt =====
-- What the crate uses of capnp and the network, as parameters: list readers and builders, the
-- accessors of a message, and one exchange with the remote side.
pub mod Lists
use rgpot.Prelude.{ℕ, zero, suc, ◌+◌, ◌<◌, ◌≡◌, ◌^◌, good, bad, List, [], ◌∷◌, Result, length, set}
use rgpot.Prelude.Text.{Text}
use rgpot.Prelude.Words.{Half, Double, to_half}
use rgpot.Memory.{Cmd, pure, ◌>>=◌, panic, Payload}

-- `primitive_list::Reader`: its length and its elements.
pub record ListReader (A : Type 0) : Type 0 where
  pub len : ℕ
  pub get : ℕ → A

-- `(0..r.len()).map(|i| r.get(i)).collect()`
collect : {A : Type 0} → (ℕ → A) → ℕ → ℕ → List A
collect get i zero = []
collect get i (suc k) = get i ∷ collect get (i + 1) k

unfoldable pub to_vec : {A : Type 0} → ListReader A → List A
unfolding collect
to_vec r = collect r.get 0 r.len

-- `primitive_list::Builder`. A list that is too long and a write out of range are refused with a
-- panic, whose payload is capnp's.
pub record ListBuilder (A : Type 0) : Type 1 where
  pub Builder : Type 0
  pub init : ℕ → Result Builder Payload
  pub set : Builder → ℕ → A → Result Builder Payload
  pub contents : Builder → List A

-- The documented behaviour of such a builder; the format counts the elements of a list in 29 bits.
pub record IsListBuilder {A : Type 0} (L : ListBuilder A) : Type 0 where
  pub init-small :
      (n : ℕ) → n < 2 ^ 29 → (b : L.Builder) × (L.init n ≡ good b) × (length (L.contents b) ≡ n)
  pub set-in_range :
      (b : L.Builder) (i : ℕ) (a : A)
      → i < length (L.contents b)
      → (b' : L.Builder) × (L.set b i a ≡ good b') × (L.contents b' ≡ set (L.contents b) i a)

module _ {A : Type 0} (L : ListBuilder A) where
  abbrev written : Result L.Builder Payload → Cmd L.Builder
  written (bad e) = panic e
  written (good b) = pure b

  -- `for (i, &val) in xs.iter().enumerate() { builder.set(i as u32, val); }`
  fill : List A → ℕ → L.Builder → Cmd L.Builder
  fill [] i b = pure b
  fill (a ∷ xs) i b = do b' ← written (L.set b (to_half i) a); fill xs (i + 1) b'

  -- A list of `n` elements, filled from `xs`.
  unfoldable pub write_list : ℕ → List A → Cmd L.Builder
  unfolding fill
  write_list n xs = do b ← written (L.init n); fill xs 0 b

-- The struct ForceInput of the schema as it is sent, and PotentialResult.
pub record InputMessage : Type 0 where
  pub pos : List Double
  pub atmnrs : List Half
  pub box : List Double

pub record ResultMessage : Type 0 where
  pub energy : Double
  pub forces : List Double

-- An accessor of a received message may fail.
abbrev pub Wire {ℓ} : Type ℓ → Type ℓ
Wire A = Result A Text

pub record ResultReader : Type 0 where
  pub get_energy : Double
  pub get_forces : Wire (ListReader Double)

-- `response.get()`, then `get_result()`.
abbrev pub Response : Type 0
Response = Wire (Wire ResultReader)

pub record InputReader : Type 0 where
  pub get_pos : Wire (ListReader Double)
  pub get_atmnrs : Wire (ListReader Half)
  pub get_box : Wire (ListReader Double)

-- `params.get()`, then `get_fip()`.
abbrev pub CalculateParams : Type 0
CalculateParams = Wire (Wire InputReader)

-- One call's connection to an address and its exchange there.
pub record Network : Type 0 where
  pub connect : Text → Wire (Unit {0})
  pub set_nodelay : Text → Wire (Unit {0})
  pub send : Text → InputMessage → Wire Response
