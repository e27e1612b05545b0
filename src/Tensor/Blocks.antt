-- ===== src/Tensor/Blocks.antt =====
-- The blocks of a tensor: where they lie, and what is left when they are gone.
use rgpot.Prelude.{
  refl, ◌∙◌, arith, ℕ, ◌+◌, ◌≤◌, ◌<◌, ◌≡◌, Bool, true, false, ◌&&◌, Option, none, some, List, leb,
  ltb, length, if◌then◌else◌,
}
use rgpot.Prelude.Words.{Word, Double}
use rgpot.Layout.{
  Ptr, Cell, DlDataType, Managed, i64s, f64s, managed, borrowed_ctx, borrowed_deleter,
  owned_f64_deleter, owned_f64_ctx,
}
use rgpot.Memory.{World, SameRest, IsWorld}
use rgpot.Tensor.{cpu_tensor, dlpack_version, dtype_f64, flag_is_copied}

abbrev pub Cells : Type 0
Cells = Ptr → Option Cell

-- Whether `q` is one of the `k` addresses from `b` on.
abbrev pub within : Ptr → ℕ → Ptr → Bool
within b k q = leb b q && ltb q (b + k)

abbrev pub borrowed_managed : Ptr → Ptr → DlDataType → List Word → Managed
borrowed_managed b p dtype shape = record {
  version = dlpack_version;
  manager_ctx = b + 1 + 1;
  deleter = some borrowed_deleter;
  flags = 0;
  dl_tensor = cpu_tensor p dtype (length shape) b (b + 1);
}

-- A borrowed tensor over the buffer at `p`, in the four blocks from `b` on. Its handle is the last.
pub record IsBorrowed (f : Cells) (b p : Ptr) (dtype : DlDataType) (shape strides : List Word)
    : Type 0 where
  pub positive : 1 ≤ b
  pub shape_block : f b ≡ some (i64s shape)
  pub strides_block : f (b + 1) ≡ some (i64s strides)
  pub ctx_block : f (b + 1 + 1) ≡ some (borrowed_ctx (record { shape = b; strides = b + 1 }))
  pub managed_block : f (b + 1 + 1 + 1) ≡ some (managed (borrowed_managed b p dtype shape))

abbrev pub owned_managed : Ptr → List Word → Managed
owned_managed b shape = record {
  version = dlpack_version;
  manager_ctx = b + 1 + 1 + 1;
  deleter = some owned_f64_deleter;
  flags = flag_is_copied;
  dl_tensor = cpu_tensor b dtype_f64 (length shape) (b + 1) (b + 1 + 1);
}

-- An owned tensor of doubles in the five blocks from `b` on: the data come first.
pub record IsOwned (f : Cells) (b : Ptr) (elements : List Double) (shape strides : List Word)
    : Type 0 where
  pub positive : 1 ≤ b
  pub data_block : f b ≡ some (f64s elements)
  pub shape_block : f (b + 1) ≡ some (i64s shape)
  pub strides_block : f (b + 1 + 1) ≡ some (i64s strides)
  pub ctx_block :
      f (b + 1 + 1 + 1)
      ≡ some (owned_f64_ctx (record { kept = b; shape = b + 1; strides = b + 1 + 1 }))
  pub managed_block : f (b + 1 + 1 + 1 + 1) ≡ some (managed (owned_managed b shape))

-- `w'` is `w` with the `k` blocks from `w.next` on in use and nothing else changed.
pub record Grown (k : ℕ) (w w' : World) : Type 0 where
  pub next : w'.next ≡ w.next + k
  pub cells : (q : Ptr) → within w.next k q ≡ false → w'.cell q ≡ w.cell q
  pub rest : SameRest w w'

-- `w'` is `w` without the `k` blocks from `b` on.
pub record Freed (b : Ptr) (k : ℕ) (w w' : World) : Type 0 where
  pub cells : (q : Ptr) → w'.cell q ≡ (if within b k q then none else w.cell q)
  pub next : w'.next ≡ w.next
  pub rest : SameRest w w'

pub IsBorrowed-frame :
    {f g : Cells} {b p : Ptr} {dtype : DlDataType} {shape strides : List Word}
    → IsBorrowed f b p dtype shape strides
    → ((q : Ptr) → within b 4 q ≡ true → g q ≡ f q)
    → IsBorrowed g b p dtype shape strides
IsBorrowed-frame {b} t same = record {
  positive = t.positive;
  shape_block = ground (arith, same b);
  strides_block = ground (arith, same (b + 1));
  ctx_block = ground (arith, same (b + 1 + 1));
  managed_block = ground (arith, same (b + 1 + 1 + 1));
}

pub IsOwned-frame :
    {f g : Cells} {b : Ptr} {elements : List Double} {shape strides : List Word}
    → IsOwned f b elements shape strides
    → ((q : Ptr) → within b 5 q ≡ true → g q ≡ f q)
    → IsOwned g b elements shape strides
IsOwned-frame {b} t same = record {
  positive = t.positive;
  data_block = ground (arith, same b);
  shape_block = ground (arith, same (b + 1));
  strides_block = ground (arith, same (b + 1 + 1));
  ctx_block = ground (arith, same (b + 1 + 1 + 1));
  managed_block = ground (arith, same (b + 1 + 1 + 1 + 1));
}

pub Grown-below :
    {k : ℕ} {w w' : World} (q : Ptr) → Grown k w w' → q < w.next → w'.cell q ≡ w.cell q
Grown-below q g h = g.cells q (ground arith)

pub Grown-IsWorld : {k : ℕ} {w w' : World} → IsWorld w → Grown k w w' → IsWorld w'
Grown-IsWorld {k} is g = record {
  positive = omega (arith, g.next, is.positive);
  fresh = λ p h. ground (arith, g.next, is.fresh p, g.cells p);
  null_unused = ground (arith, is.positive, is.null_unused, g.cells 0);
}

pub Freed-IsWorld : {b k : ℕ} {w w' : World} → IsWorld w → Freed b k w w' → IsWorld w'
Freed-IsWorld {b} {k} is g = record {
  positive = omega (arith, g.next, is.positive);
  fresh = λ p h. ground (arith, g.next, is.fresh p, g.cells p);
  null_unused = ground (arith, is.null_unused, g.cells 0);
}

pub lt-next : {w : World} {c : Cell} (q : Ptr) → IsWorld w → w.cell q ≡ some c → q < w.next
lt-next q is e = ground (arith, is.fresh q)

-- Blocks behind those that are freed stay.
pub Freed-behind :
    {b : Ptr} {k : ℕ} {w w' : World} (a : Ptr) (j : ℕ) (q : Ptr)
    → Freed b k w w'
    → b + k ≤ a
    → within a j q ≡ true
    → w'.cell q ≡ w.cell q
Freed-behind {b} {k} {w} {w'} a j q f h inside = f.cells q ∙ rw outside refl
  where
    outside : within b k q ≡ false
    outside = ground arith

pub Freed-trans :
    {b : Ptr} {k j : ℕ} {w₀ w₁ w₂ : World}
    → Freed b k w₀ w₁
    → Freed (b + k) j w₁ w₂
    → Freed b (k + j) w₀ w₂
Freed-trans {b} {k} {j} f g = record {
  cells = λ q. ground (arith, f.cells q, g.cells q);
  next = g.next ∙ f.next;
  rest = ground (arith, f.rest, g.rest);
}

pub Grown-trans : {k j : ℕ} {w₀ w₁ w₂ : World} → Grown k w₀ w₁ → Grown j w₁ w₂ → Grown (k + j) w₀ w₂
Grown-trans {k} {j} f g = record {
  next = omega (arith, f.next, g.next);
  cells = λ q h. ground (arith, f.next, f.cells q, g.cells q);
  rest = ground (arith, f.rest, g.rest);
}
