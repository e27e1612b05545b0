-- ===== src/Tensor/Store/Refined.antt =====
-- The kinds of change that a call makes: each keeps the memory sound and is what the table of tensors
-- does.
use rgpot.Prelude.{
  fun_ext, Bool-cases, inl, inr, ◌==◌, ◌≤◌, false, ◌≡◌, ◌≢◌, refl, ap, sym, ◌∙◌, some, none, List,
  [], ◌∷◌, ◌++◌, arith, true,
}
use rgpot.Layout.{ForceOut, force_out, Ptr, Cell, Managed, managed}
use rgpot.Memory.{World, put, with_block}
use rgpot.Tensor.Blocks.{Freed, within}
use rgpot.Tensor.Store.{IsTensor, IsSound}
use rgpot.Tensor.Store.Extent.{is_buffer, is_struct, base_of, size_of}
use rgpot.Tensor.Store.Table.{release, Op, run, run_one, run-++}
use rgpot.Tensor.Store.View.{view}
use rgpot.Tensor.Store.Changes.{view-Freed, view-with_block}
use rgpot.Tensor.Store.Tidy.{
  Mine, IsTidy, same, with_mine, without_mine, kept, buffer, with_block-IsTidy, put-IsTidy,
  Freed-IsTidy,
}
use rgpot.Tensor.Store.Structs.{
  struct-apart, change-IsSound, view-change, struct-IsSound, view-struct, replace-IsSound,
  view-replace,
}
use rgpot.Tensor.Store.Kept.{Freed-IsSound, with_block-IsSound}

-- The memory is sound again, the table admits the operations and ends as the view of it, and every
-- block is accounted for, with `after` of the caller's own buffers.
pub record Refined (w w' : World) (os : List Op) (after : Mine → Mine) : Type 0 where
  pub sound : IsSound w'
  pub table : run os (view w.cell) ≡ some (view w'.cell)
  pub tidy : (mine : Mine) → IsTidy mine w → IsTidy (after mine) w'

pub Refined-here : {w : World} → IsSound w → Refined w w [] same
unfolding run
Refined-here s = record { sound = s; table = refl; tidy = λ mine t. t }

IsSound-same : (w w' : World) → IsSound w → w'.cell ≡ w.cell → w.next ≤ w'.next → IsSound w'
IsSound-same w w' s cells at = record {
  world = record {
    positive = omega (arith, s.world.positive);
    fresh = λ q h. rw cells (s.world.fresh q (omega arith));
    null_unused = rw cells s.world.null_unused;
  };
  store = λ t m h. rw cells (s.store t m (rw cells at h));
}

-- One change after another.
pub Refined-then :
    {w v w' : World} (os os' : List Op) {after after' : Mine → Mine}
    → Refined w v os after
    → Refined v w' os' after'
    → Refined w w' (os ++ os') (λ mine. after' (after mine))
Refined-then {w} os os' {after} past last = record {
  sound = last.sound;
  table = run-++ os os' (view w.cell) past.table ∙ last.table;
  tidy = λ mine t. last.tidy (after mine) (past.tidy mine t);
}

module _ {w : World} (s : IsSound w) where
  -- No tensor comes or goes.
  unchanged :
      {w' w₁ : World} (after : Mine → Mine)
      → w' ≡ w₁
      → IsSound w₁
      → view w₁.cell ≡ view w.cell
      → ((mine : Mine) → IsTidy mine w → IsTidy (after mine) w₁)
      → Refined w w' [] after
  unfolding run
  unchanged after e s₁ seen tidy =
      rw e (record { sound = s₁; table = ap some (sym seen); tidy = tidy })

  -- A tensor's blocks go.
  pub Freed-Refined :
      {w' : World} (t : Ptr) (h : IsTensor w.cell t)
      → Freed (base_of h) (size_of h) w w'
      → Refined w w' (release t ∷ []) same
  Freed-Refined t h f = record {
    sound = Freed-IsSound t s h f;
    table = run_one (release t) (view w.cell) (view-Freed t s h f);
    tidy = λ mine tidy. Freed-IsTidy mine s tidy t h f;
  }

  pub struct-Refined :
      {w' : World} (x : Cell) → is_struct x ≡ true → w' ≡ with_block x w → Refined w w' [] same
  struct-Refined x is e =
      unchanged same e (struct-IsSound x s is) (view-struct x s is)
        λ mine t. with_block-IsTidy mine s t mine x (kept x is (ground arith)) (λ q away h. h)

  -- A buffer that is the caller's own.
  pub buffer-Refined :
      {w' : World} (x : Cell)
      → is_buffer x ≡ true
      → w' ≡ with_block x w
      → Refined w w' [] (with_mine w.next)
  buffer-Refined x is e =
      let plain : (m : Managed) → x ≢ managed m = λ m h. ground (arith, rw h at is) in
      unchanged (with_mine w.next) e (with_block-IsSound x plain s) (view-with_block x plain s)
        λ mine t.
          with_block-IsTidy mine s t (with_mine w.next mine) x (buffer (ground arith))
            (λ q away h. ground arith)

  pub overwritten :
      {w' : World} (p : Ptr) (x y : Cell)
      → is_struct x ≡ true
      → is_struct y ≡ true
      → w.cell p ≡ some x
      → w' ≡ put p (some y) w
      → Refined w w' [] same
  overwritten p x y is is' found e =
      let other : (m : Managed) → some y ≢ some (managed m) = λ m h. ground arith in
      unchanged same e (replace-IsSound w p x (some y) s is found other)
        (view-replace w p x (some y) s is found other)
        λ mine t.
          put-IsTidy mine s t mine p (some y) (struct-apart w p x is found) (λ z h. ground arith)
            (λ q away h. h)

  pub given_back :
      {w' : World} (p : Ptr) (x : Cell)
      → is_struct x ≡ true
      → w.cell p ≡ some x
      → w' ≡ put p none w
      → Refined w w' [] same
  given_back p x is found e =
      let other : (m : Managed) → none ≢ some (managed m) = λ m h. ground arith in
      unchanged same e (replace-IsSound w p x none s is found other)
        (view-replace w p x none s is found other)
        λ mine t.
          put-IsTidy mine s t mine p none (struct-apart w p x is found) (λ z h. ground arith)
            (λ q away h. h)

  -- A buffer that belongs to no tensor is freed.
  pub buffer_freed :
      {w' : World} (p : Ptr) (x : Cell)
      → is_buffer x ≡ true
      → w.cell p ≡ some x
      → ((u : Ptr) (h : IsTensor w.cell u) → within (base_of h) (size_of h) p ≡ false)
      → w' ≡ put p none w
      → Refined w w' [] (without_mine p)
  buffer_freed p x is found apart e =
      let plain : (m : Managed) → x ≢ managed m = λ m h. ground (arith, rw h at is) in
      let other : (m : Managed) → none ≢ some (managed m) = λ m h. ground arith in
      unchanged (without_mine p) e (change-IsSound w p x none s found plain apart other)
        (view-change w p x none s found plain apart other)
        λ mine t.
          put-IsTidy mine s t (without_mine p mine) p none apart (λ z h. ground arith)
            (λ q away h. ground arith)

  -- The blocks stay, whatever else changes.
  pub same_blocks :
      {w' w₁ : World} → w' ≡ w₁ → w₁.cell ≡ w.cell → w.next ≤ w₁.next → Refined w w' [] same
  same_blocks {w₁} e cells at =
      unchanged same e (IsSound-same w w₁ s cells at) (ap view cells) λ mine t. rw cells t

  -- A message is all that a call leaves.
  pub reported :
      {w' w₁ : World} → w' ≡ w₁ → record w₁ { last_error = w.last_error } ≡ w → Refined w w' [] same
  reported e told = same_blocks e (ap (λ v. v.cell) told) (omega (arith, ap (λ v. v.next) told))

-- An output is written, and nothing else is.
pub output_written :
    {w w' w₁ : World} (s : IsSound w) (output : Ptr) (o o' : ForceOut)
    → w' ≡ w₁
    → w.cell output ≡ some (force_out o)
    → w₁.cell output ≡ some (force_out o')
    → ((q : Ptr) → q ≢ output → w₁.cell q ≡ w.cell q)
    → w.next ≤ w₁.next
    → Refined w w' [] same
output_written {w} {w'} {w₁} s output o o' e old new others grows =
    let first : Refined w (put output (some (force_out o')) w) [] same =
      overwritten s output (force_out o) (force_out o') refl refl old refl in
    let cells : w₁.cell ≡ (put output (some (force_out o')) w).cell = fun_ext (λ q.
      elim (Bool-cases (q == output)) [
        | inl at ↦ ground arith
        | inr away ↦ rw away (others q (ground arith))
      ]) in
    Refined-then [] [] first (same_blocks first.sound e cells grows)
