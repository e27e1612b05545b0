-- ===== src/Tests/Moody.antt =====
-- A callback that computes when the first coordinate is 11 and refuses, with a message, otherwise.
use rgpot.CApi.Types.{empty_out}
use rgpot.Prelude.Text.{codes}
use rgpot.Rpc.Server.Contract.{Computes, IsSized, IsReady, Places}
use rgpot.Layout.{ForceInput, Ptr}
use rgpot.Memory.{ok, ◌>>◌, Cmd, pure, ◌>>=◌, World}
use rgpot.Prelude.Words.{Half, Word, Double}
use rgpot.Tests.Callbacks.{echo-IsPotential, echo_later, server, echo_energy}
use rgpot.Status.{success, internal_error, error_c_string, with_error, Status, set_last_error}
use rgpot.Rpc.Server.Malformed.{read_positions-all, read_positions}
use rgpot.Prelude.{true, none, some, ◌==◌, get_or, List, if◌then◌else◌, ◌≡◌, refl, false, arith}
use rgpot.Foreign.{Foreign}
use rgpot.Rpc.Server.Service.{Verdicts, IsService}

-- What the callback does with the positions that it read.
unfoldable pub moody_later : List Double → Ptr → Ptr → Cmd Status
moody_later xs input output =
    if get_or xs 0 0 == 11
    then echo_later xs input output
    else set_last_error (codes "deliberately failed") >> pure internal_error

abbrev pub moody : Foreign
moody = record {
  callback = λ f u input output. read_positions input >>= λ xs. moody_later xs input output;
  free_fn = λ f p. pure tt;
  deleter = λ f p. pure tt;
}

abbrev pub moody_verdicts : Verdicts
moody_verdicts pos atm box = if get_or pos 0 0 == 11 then some (echo_energy, pos) else none

moody-Computes :
    (v : World) (at : Places) (i : ForceInput) (n : Word) (pos : List Double) (atm : List Half)
    (box : List Double)
    → IsReady v at i empty_out n pos atm box
    → IsSized n pos atm box
    → (get_or pos 0 0 == 11) ≡ true
    → (v' : World) × (t : Ptr) × (x : Double) × (moody.callback server.callback server.user_data
          at.input at.output v
        ≡ ok success v')
      × Computes v v' at.output t n pos echo_energy x
unfolding moody_later
moody-Computes v at i n pos atm box ready sized h =
    let (w, t, x, called, k) =
      echo-IsPotential.computes v at i empty_out n pos atm box ready sized in
    let read = read_positions-all v at ready sized.pos_size in
    let echoed : echo_later pos at.input at.output v ≡ ok success w = rw read at called in
    (w, t, x, rw (read, h) echoed, k)

pub moody-IsService : IsService moody server moody_verdicts
unfolding moody_later set_last_error
moody-IsService = record {
  length-forces = λ n pos atm box e fs sized h. ground (arith, sized.pos_size);
  computes = λ v at i n pos atm box e fs ready sized h.
      let eq : get_or pos 0 0 == 11 ≡ true = ground arith in
      let (w, t, x, called, k) = moody-Computes v at i n pos atm box ready sized eq in
      let same_energy : echo_energy ≡ e = ground arith in
      let same_forces : pos ≡ fs = ground arith in
      (w, t, x, called, rw (same_energy, same_forces) at k);
  refuses = λ v at i n pos atm box ready sized h.
      let eq : get_or pos 0 0 == 11 ≡ false = ground arith in
      let read = read_positions-all v at ready sized.pos_size in
      (
        with_error (error_c_string (codes "deliberately failed")) v,
        internal_error,
        empty_out.energy,
        empty_out.variance,
        rw (read, eq) refl,
        refl,
        record { output_block = ready.output_block; others = λ q ne. refl; grows = omega arith },
        record { thread = refl; others = λ t ne. ground arith; overflow_checks = refl },
      );
}
