-- ===== src/Tests/Sessions.antt =====
-- A caller that borrows a buffer, copies it, makes and frees an input, and frees the borrowing
-- tensor.
use rgpot.Tensor.Store.Leaks.{Accounted-Reach}
use rgpot.Tensor.Store.Traces.{mine_along, here, next, Reach}
use rgpot.Tensor.Store.View.{view_of, view}
use rgpot.Tensor.Store.Extent.{is_struct, size_of, base_of}
use rgpot.Layout.{i64s, object, i32s, force_input, ForceInput, f64s, Ptr}
use rgpot.Prelude.{◌⊎◌, false, some, true, ◌≢◌, none, [], ◌≡◌, arith, ◌∷◌, refl}
use rgpot.Tests.Ends.{end_of}
use rgpot.Tests.Data.{list_builder, list_builder-IsListBuilder, debug, empty-IsWorld, empty}
use rgpot.Tensor.Blocks.{within}
use rgpot.CApi.Types.{
  null_input, rgpot_force_input_free, rgpot_force_input_create, create_tensors, free_tensors,
}
use rgpot.Tensor.Store.{IsTensor, IsSound}
use rgpot.Tensor.Store.Observed.{Read, Checked, observed-Reach}
use rgpot.Tensor.Store.Table.{copied_matrix}
use rgpot.Tensor.Store.Refine.{view-Reach}
use rgpot.Memory.{store, dealloc, ok, with_block, Run, World, f64_slice, load}
use rgpot.Tensor.Store.Calls.{
  switch, make_i32s, keep, create_input, free_input, copy_2d, borrow_2d, make_f64s,
}
use rgpot.Tensor.Store.Inputs.{live}
use rgpot.Tensor.CApi.{
  rgpot_tensor_cpu_i32_1d, rgpot_tensor_cpu_f64_matrix3, rgpot_tensor_owned_cpu_f64_2d,
  rgpot_tensor_cpu_f64_2d,
}
use rgpot.Tests.Callbacks.{echo}
use rgpot.Tensor.{
  rgpot_tensor_free, create_borrowed_tensor, compute_row_major_strides, create_owned_f64_tensor,
}
use rgpot.Tensor.Store.Sessions.{rgpot_tensor_free-Reach}

abbrev buffered : World
buffered = with_block (f64s (1 ∷ 2 ∷ 3 ∷ 4 ∷ 5 ∷ 6 ∷ [])) empty

abbrev borrowing : World
borrowing = end_of (rgpot_tensor_cpu_f64_2d 1 2 3 buffered)

-- The borrowing tensor at 5 and the copy at 10.
abbrev copied : World
copied = end_of (rgpot_tensor_owned_cpu_f64_2d 1 2 3 borrowing)

-- An input over the buffers at 1 and 11, whose handles are at 15, 19 and 23.
abbrev numbered : World
numbered = with_block (i32s (8 ∷ 1 ∷ [])) copied

abbrev input_of : Run ForceInput → ForceInput
input_of (ok i _) = i
input_of _ = null_input

abbrev making : Run ForceInput
making = rgpot_force_input_create 2 1 11 1 numbered

abbrev kept_input : World
kept_input = with_block (force_input (input_of making)) (end_of making)

abbrev last_world : World
last_world = end_of (rgpot_force_input_free echo 24 kept_input)

empty-IsSound : IsSound empty
empty-IsSound = record { world = empty-IsWorld; store = λ t m h. ground arith }

session : Reach echo list_builder list_builder empty last_world
unfolding rgpot_tensor_cpu_f64_2d rgpot_tensor_owned_cpu_f64_2d create_borrowed_tensor
    compute_row_major_strides f64_slice load create_owned_f64_tensor rgpot_force_input_create
    create_tensors rgpot_force_input_free rgpot_tensor_cpu_i32_1d rgpot_tensor_cpu_f64_matrix3 store
    dealloc free_tensors rgpot_tensor_free
session =
    next {v = kept_input}
      (next {v = end_of making}
        (next {v = numbered}
          (next {v = copied}
            (next {v = borrowing}
              (next {v = buffered} (next {v = empty} here (make_f64s _ refl))
                (borrow_2d 1 5 2 3 (omega arith) refl))
              (copy_2d 1 10 2 3 (omega arith) refl))
            (make_i32s _ refl))
          (create_input 2 1 11 1 _ refl))
        (keep _ refl refl))
      (free_input 24 _ refl
        (record {
          positions = live _ refl;
          atomic_numbers = live _ refl;
          box_matrix = live _ refl;
          positions_atomic_numbers = λ e. absurd (omega (arith, e));
          positions_box_matrix = λ e. absurd (omega (arith, e));
          atomic_numbers_box_matrix = λ e. absurd (omega (arith, e));
        })
        refl)

rgpot_tensor_free-Reach_example :
    (w' : World) × (rgpot_tensor_free echo 5 last_world ≡ ok tt w')
    × (w'.cell 5 ≡ none)
    × ((u : Ptr) (h : IsTensor last_world.cell u)
        → u ≢ 5
        → (q : Ptr) → within (base_of h) (size_of h) q ≡ true
        → w'.cell q ≡ last_world.cell q)
    × IsSound w'
unfolding rgpot_tensor_cpu_f64_2d rgpot_tensor_owned_cpu_f64_2d create_borrowed_tensor
    compute_row_major_strides f64_slice load create_owned_f64_tensor rgpot_force_input_create
    create_tensors rgpot_force_input_free rgpot_tensor_cpu_i32_1d rgpot_tensor_cpu_f64_matrix3 store
    dealloc free_tensors rgpot_tensor_free
rgpot_tensor_free-Reach_example =
    rgpot_tensor_free-Reach echo list_builder list_builder empty last_world 5 _
      list_builder-IsListBuilder list_builder-IsListBuilder empty-IsSound session refl

-- The caller's `int32_t` at 25, read by another thread.
abbrev with_int : World
with_int = with_block (object 0) last_world

abbrev switched : World
switched = record with_int { thread = 1 }

observing : Reach echo list_builder list_builder empty switched
observing =
    next {v = with_int} (next {v = last_world} session (keep (object 0) refl refl)) (switch 1 refl)

-- The copy at 10.
observed-Reach_example :
    Read switched 10 25 (copied_matrix (1 ∷ 2 ∷ 3 ∷ 4 ∷ 5 ∷ 6 ∷ []) 2 3)
    × Checked debug switched 10 (copied_matrix (1 ∷ 2 ∷ 3 ∷ 4 ∷ 5 ∷ 6 ∷ []) 2 3)
unfolding rgpot_tensor_cpu_f64_2d rgpot_tensor_owned_cpu_f64_2d create_borrowed_tensor
    compute_row_major_strides f64_slice load create_owned_f64_tensor rgpot_force_input_create
    create_tensors rgpot_force_input_free rgpot_tensor_cpu_i32_1d rgpot_tensor_cpu_f64_matrix3 store
    dealloc free_tensors rgpot_tensor_free view
observed-Reach_example =
    observed-Reach debug echo list_builder list_builder empty switched observing
      (view switched.cell) 10 25 _ 0 list_builder-IsListBuilder list_builder-IsListBuilder
      empty-IsSound
      (view-Reach echo list_builder list_builder list_builder-IsListBuilder
        list_builder-IsListBuilder {w = switched} empty-IsSound observing)
      refl (omega arith) refl

-- The shape of the borrowing tensor is at 2.
Accounted-Reach_example :
    (is_struct (i64s (2 ∷ 3 ∷ [])) ≡ true)
    ⊎ (mine_along session (λ q. false) 2 ≡ true)
    ⊎ ((u : Ptr) × (h : IsTensor last_world.cell u) × (within (base_of h) (size_of h) 2 ≡ true)
        × (view last_world.cell u ≡ some (view_of h)))
unfolding rgpot_tensor_cpu_f64_2d rgpot_tensor_owned_cpu_f64_2d create_borrowed_tensor
    compute_row_major_strides f64_slice load create_owned_f64_tensor rgpot_force_input_create
    create_tensors rgpot_force_input_free rgpot_tensor_cpu_i32_1d rgpot_tensor_cpu_f64_matrix3 store
    dealloc free_tensors rgpot_tensor_free
Accounted-Reach_example =
    Accounted-Reach echo list_builder list_builder list_builder-IsListBuilder
      list_builder-IsListBuilder empty last_world session (λ q. false) (view last_world.cell) 2
      (i64s (2 ∷ 3 ∷ [])) empty-IsSound (λ q x e. absurd (ground arith))
      (view-Reach echo list_builder list_builder list_builder-IsListBuilder
        list_builder-IsListBuilder {w = last_world} empty-IsSound session)
      refl
