-- ===== src/Tensor/Store/Tidy.antt =====
-- Every block in use is accounted for: it is a struct that the caller keeps or has a handle of, a
-- buffer that the caller made, or part of a tensor with a live handle.
use rgpot.Prelude.{
  subst, ℕ, ◌≡◌, ◌≢◌, refl, sym, ◌∙◌, ◌==◌, Bool, true, false, Option, some, arith, inl, inr,
  Bool-cases, if◌then◌else◌,
}
use rgpot.Layout.{Ptr, Cell}
use rgpot.Memory.{World, with_block, put}
use rgpot.Tensor.Blocks.{Cells, Grown, Freed, within, IsBorrowed-frame, IsOwned-frame}
use rgpot.Tensor.Store.{IsTensor, borrowed, owned, IsSound}
use rgpot.Tensor.Store.Extent.{extents-apart, is_struct, base_of, size_of, extent}

-- Which buffers are the caller's own.
abbrev pub Mine : Type 0
Mine = Ptr → Bool

abbrev pub same : Mine → Mine
same mine = mine

abbrev pub with_mine : Ptr → Mine → Mine
with_mine p mine q = if q == p then true else mine q

abbrev pub without_mine : Ptr → Mine → Mine
without_mine p mine q = if q == p then false else mine q

pub data Accounted (mine : Mine) (f : Cells) (q : Ptr) : Type 0 where
  kept : (x : Cell) → is_struct x ≡ true → f q ≡ some x → Accounted mine f q
  buffer : mine q ≡ true → Accounted mine f q
  part : (u : Ptr) (h : IsTensor f u) → within (base_of h) (size_of h) q ≡ true → Accounted mine f q

abbrev pub IsTidy : Mine → World → Type 0
IsTidy mine w = (q : Ptr) (x : Cell) → w.cell q ≡ some x → Accounted mine w.cell q

-- A tensor whose blocks stay has the same blocks.
frame_at :
    (f g : Cells) (u : Ptr) (h : IsTensor f u)
    → ((q : Ptr) → within (base_of h) (size_of h) q ≡ true → g q ≡ f q)
    → (h' : IsTensor g u) × (base_of h' ≡ base_of h) × (size_of h' ≡ size_of h)
frame_at f g u (borrowed b p dtype shape strides at h) kept_blocks = (
  borrowed b p dtype shape strides at (IsBorrowed-frame {f = f} {g = g} h kept_blocks),
  refl,
  refl,
)
frame_at f g u (owned b elements shape strides at h) kept_blocks =
    (owned b elements shape strides at (IsOwned-frame {f = f} {g = g} h kept_blocks), refl, refl)

-- A handle has one run of blocks.
one_run :
    (f : Cells) (t u : Ptr) (h : IsTensor f t) (h' : IsTensor f u) (q : Ptr)
    → t ≡ u
    → within (base_of h) (size_of h) q ≡ within (base_of h') (size_of h') q
one_run f t u (borrowed b p dtype shape strides at h) (borrowed b' p' dtype' shape' strides' at' h')
      q e =
    let start : b ≡ b' = omega (arith, at, at') in rw start refl
one_run f t u (owned b xs shape strides at h) (owned b' xs' shape' strides' at' h') q e =
    let start : b ≡ b' = omega (arith, at, at') in rw start refl
one_run f t u (borrowed b p dtype shape strides at h) (owned b' xs' shape' strides' at' h') q e =
    absurd (ground (arith, at, at', h.managed_block, h'.managed_block))
one_run f t u (owned b xs shape strides at h) (borrowed b' p' dtype' shape' strides' at' h') q e =
    absurd (ground (arith, at, at', h.managed_block, h'.managed_block))

-- A block that stays is still accounted for, where the tensor that it is part of stays.
pub carry :
    (mine mine' : Mine) (f g : Cells) (q : Ptr)
    → g q ≡ f q
    → (mine q ≡ true → mine' q ≡ true)
    → ((u : Ptr) (h : IsTensor f u)
        → within (base_of h) (size_of h) q ≡ true
        → (r : Ptr) → within (base_of h) (size_of h) r ≡ true
        → g r ≡ f r)
    → Accounted mine f q
    → Accounted mine' g q
carry mine mine' f g q stays more tensors (kept x is e) = kept x is (stays ∙ e)
carry mine mine' f g q stays more tensors (buffer e) = buffer (more e)
carry mine mine' f g q stays more tensors (part u h inside) =
    let (h', base, size) = frame_at f g u h (tensors u h inside) in
    part u h' (rw (base, size) inside)

module _ {w : World} (mine : Mine) (s : IsSound w) (tidy : IsTidy mine w) where
  -- The new blocks are those of the new tensor.
  pub Grown-IsTidy :
      {k : ℕ} {w' : World} (t : Ptr)
      → Grown k w w'
      → (h : IsTensor w'.cell t) → base_of h ≡ w.next
      → size_of h ≡ k
      → IsTidy mine w'
  Grown-IsTidy {k} {w'} t g h at size q x e = elim (Bool-cases (within w.next k q)) [
    | inl inside ↦ part t h (rw (at, size) inside)
    | inr outside ↦
        carry mine mine w.cell w'.cell q (g.cells q outside) (λ z. z)
          (λ u y inside r inside'.
            let z = extent {f = w.cell} u y in
            ground (arith, z.used r inside', s.world.fresh r, g.cells r))
          (tidy q x (sym (g.cells q outside) ∙ e))
  ]

  -- The blocks that go are those of the tensor that goes.
  pub Freed-IsTidy :
      {w' : World} (t : Ptr) (h : IsTensor w.cell t)
      → Freed (base_of h) (size_of h) w w'
      → IsTidy mine w'
  Freed-IsTidy {w'} t h f q x e =
      let outside : within (base_of h) (size_of h) q ≡ false = ground (arith, f.cells q) in
      let stays : w'.cell q ≡ w.cell q = ground (arith, f.cells q) in
      carry mine mine w.cell w'.cell q stays (λ z. z)
        (λ u y inside r inside'.
          let apart : t ≢ u = λ e'. absurd (ground (arith, one_run w.cell t u h y q e')) in
          let z = extent {f = w.cell} t h in
          let z' = extent {f = w.cell} u y in
          ground (arith, f.cells r, extents-apart z z' apart r inside'))
        (tidy q x (sym stays ∙ e))

  pub with_block-IsTidy :
      (mine' : Mine) (c : Cell)
      → Accounted mine' (with_block c w).cell w.next
      → ((q : Ptr) → q ≢ w.next → mine q ≡ true → mine' q ≡ true)
      → IsTidy mine' (with_block c w)
  with_block-IsTidy mine' c new more q x e = elim (Bool-cases (q == w.next)) [
    | inl at ↦
        let here : q ≡ w.next = ground arith in
        subst (λ r. Accounted mine' (with_block c w).cell r) (sym here) new
    | inr away ↦
        carry mine mine' w.cell (with_block c w).cell q (ground arith) (more q (ground arith))
          (λ u y inside r inside'.
            let z = extent {f = w.cell} u y in ground (arith, z.used r inside', s.world.fresh r))
          (tidy q x (ground arith))
  ]

  -- One block changes or goes, which is part of no tensor.
  pub put-IsTidy :
      (mine' : Mine) (p : Ptr) (o : Option Cell)
      → ((u : Ptr) (h : IsTensor w.cell u) → within (base_of h) (size_of h) p ≡ false)
      → ((x : Cell) → o ≡ some x → is_struct x ≡ true)
      → ((q : Ptr) → q ≢ p → mine q ≡ true → mine' q ≡ true)
      → IsTidy mine' (put p o w)
  put-IsTidy mine' p o apart new more q x e = elim (Bool-cases (q == p)) [
    | inl at ↦ kept x (new x (ground arith)) e
    | inr away ↦
        carry mine mine' w.cell (put p o w).cell q (ground arith) (more q (ground arith))
          (λ u y inside r inside'. ground (arith, apart u y)) (tidy q x (ground arith))
  ]
