-- ===== src/Tests/Callbacks.antt =====
-- Three callbacks: one echoes the positions as forces, one refuses every call, and one leaves no
-- forces.
use rgpot.Prelude.{◌≡◌, ◌≢◌, refl, none, some, List, [], ◌∷◌, arith, Option}
use rgpot.Prelude.Words.{Word, Double}
use rgpot.Layout.{ForceOut, Ptr, null, ForceInput, force_input, force_out}
use rgpot.Memory.{put, World, ok, Cmd, ◌>>=◌, ◌>>◌, pure, load, as_input}
use rgpot.Foreign.{Foreign}
use rgpot.Status.{Status, success, internal_error}
use rgpot.Types.{n_atoms}
use rgpot.Tensor.{create_owned_f64_tensor}
use rgpot.CApi.Types.Lifecycle.{n_atoms-IsInput}
use rgpot.Rpc.Client.{set_energy, set_forces}
use rgpot.Rpc.Client.Receive.{deposit-Computes, set_forces-live, set_energy-live}
use rgpot.Rpc.Server.{PotentialServer}
use rgpot.Rpc.Server.Contract.{IsPotential}
use rgpot.Rpc.Server.Malformed.{read_positions, read_positions-all}
use rgpot.Rpc.Server.Forceless.{IsForceless}
use rgpot.Rpc.Server.Refuse.{IsRefusing}

abbrev pub echo_energy : Double
echo_energy = 105

abbrev or_zero : Option Word → Word
or_zero none = 0
or_zero (some n) = n

-- What the echo does with the positions that it read.
unfoldable pub echo_later : List Double → Ptr → Ptr → Cmd Status
echo_later xs input output = do
  i ← load input >>= as_input
  n ← n_atoms i
  set_energy output echo_energy
  t ← create_owned_f64_tensor xs (or_zero n ∷ 3 ∷ [])
  set_forces output t
  pure success

abbrev pub echo : Foreign
echo = record {
  callback = λ f u input output. read_positions input >>= λ xs. echo_later xs input output;
  free_fn = λ f p. pure tt;
  deleter = λ f p. pure tt;
}

-- The refusal leaves no forces.
abbrev pub refusal : Foreign
refusal = record {
  callback = λ f u input output. set_forces output null >> pure internal_error;
  free_fn = λ f p. pure tt;
  deleter = λ f p. pure tt;
}

abbrev pub server : PotentialServer
server = record { callback = 1; user_data = 2 }

echo_later-ok :
    (xs : List Double) (input output t : Ptr) (i : ForceInput) (n : Word) (w w₁ w₂ w₃ : World)
    → input ≢ null
    → w.cell input ≡ some (force_input i)
    → n_atoms i w ≡ ok (some n) w
    → set_energy output echo_energy w ≡ ok tt w₁
    → create_owned_f64_tensor xs (n ∷ 3 ∷ []) w₁ ≡ ok t w₂
    → set_forces output t w₂ ≡ ok tt w₃
    → echo_later xs input output w ≡ ok success w₃
unfolding echo_later load
echo_later-ok xs input output t i n w w₁ w₂ w₃ live e e₁ e₂ e₃ e₄ = ground (arith, e₁, e₂, e₃, e₄)

pub echo-IsPotential :
    IsPotential echo server.callback server.user_data
      (λ pos atm box. echo_energy)
      (λ pos atm box. pos)
echo-IsPotential = record {
  length-forces = λ n pos atm box sized. sized.pos_size;
  computes = λ v at i o n pos atm box ready sized.
      let read = read_positions-all v at ready sized.pos_size in
      let (w₁, w₂, w₃, t, e₁, e₂, e₃, k) =
        deposit-Computes v at.output o n pos echo_energy ready.world ready.output_live
          ready.output_block in
      let later =
        echo_later-ok pos at.input at.output t i n v w₁ w₂ w₃ ready.input_live ready.input_block
          (n_atoms-IsInput v i ready.input) e₁ e₂ e₃ in
      (w₃, v.next, o.variance, rw read later, k);
}

pub refusal-IsRefusing : IsRefusing refusal server
refusal-IsRefusing = record {
  refuses = λ v at i o n pos atm box ready.
      let set = set_forces-live at.output ready.output_live o v ready.output_block null in
      (
        put at.output
            (some (force_out (record { forces = null; energy = o.energy; variance = o.variance })))
            v,
        internal_error,
        o.energy,
        o.variance,
        rw set refl,
        refl,
        record { output_block = ground arith; others = λ q h. ground arith; grows = omega arith },
        ground arith,
      );
}

-- The forceless callback writes an energy and returns RGPOT_SUCCESS.
abbrev pub forceless : Foreign
forceless = record {
  callback =
      λ f u input output. set_energy output echo_energy >> set_forces output null >> pure success;
  free_fn = λ f p. pure tt;
  deleter = λ f p. pure tt;
}

pub forceless-IsForceless : IsForceless forceless server (λ pos atm box. echo_energy)
forceless-IsForceless = record {
  forceless = λ v at i o n pos atm box ready.
      let set = set_energy-live at.output ready.output_live o v ready.output_block echo_energy in
      let o₁ : ForceOut = record o { energy = echo_energy } in
      let v₁ : World = put at.output (some (force_out o₁)) v in
      let reset = set_forces-live at.output ready.output_live o₁ v₁ (ground arith) null in
      (
        put at.output (some (force_out (record o₁ { forces = null }))) v₁,
        o.variance,
        rw (set, reset) refl,
        record { output_block = ground arith; others = λ q h. ground arith; grows = omega arith },
        ground arith,
      );
}
