-- ===== src/Tensor/Store/Table.antt =====
-- What a C caller has to know of the tensors: a table from handles to views, with two operations. No
-- block of memory is in it.
use rgpot.Prelude.{
  inr, arith, inl, Option-cases, ap, ◌==◌, Option, none, some, List, [], ◌∷◌, ◌++◌, ◌≡◌, refl,
  if◌then◌else◌,
}
use rgpot.Prelude.Words.{Word, Double}
use rgpot.Layout.{Ptr, DlDataType, is_null}
use rgpot.Tensor.{dtype_f64, dtype_i32}

-- Whose numbers a tensor shows: those of the caller's buffer, or a copy of its own.
pub data Numbers : Type 0 where
  of_caller : Ptr → Numbers
  own : List Double → Numbers

pub record View : Type 0 where
  pub numbers : Numbers
  pub dtype : DlDataType
  pub shape : List Word
  pub strides : List Word

-- A matrix and a vector over a caller's buffer, and a matrix of its own numbers.
abbrev pub matrix : Ptr → Word → Word → View
matrix p rows cols = record {
  numbers = of_caller p;
  dtype = dtype_f64;
  shape = rows ∷ cols ∷ [];
  strides = cols ∷ 1 ∷ [];
}

abbrev pub vector : Ptr → Word → View
vector p len = record {
  numbers = of_caller p;
  dtype = dtype_i32;
  shape = len ∷ [];
  strides = 1 ∷ [];
}

abbrev pub copied_matrix : List Double → Word → Word → View
copied_matrix xs rows cols = record {
  numbers = own xs;
  dtype = dtype_f64;
  shape = rows ∷ cols ∷ [];
  strides = cols ∷ 1 ∷ [];
}

abbrev pub Table : Type 0
Table = Ptr → Option View

pub data Op : Type 0 where
  create : Ptr → View → Op
  release : Ptr → Op

abbrev pub assign : Ptr → Option View → Table → Table
assign t o T u = if u == t then o else T u

-- A tensor is created under a handle that is not NULL and not in use. To release NULL does nothing;
-- any other handle that is released is in use.
unfoldable pub apply : Op → Table → Option Table
apply (create t v) T =
    if is_null t then none else elim (T t) [ none ↦ some (assign t (some v) T) | some _ ↦ none ]
apply (release t) T =
    if is_null t then some T else elim (T t) [ none ↦ none | some _ ↦ some (assign t none T) ]

abbrev pub bind : Option Table → (Table → Option Table) → Option Table
bind none k = none
bind (some T) k = k T

unfoldable pub run : List Op → Table → Option Table
run [] T = some T
run (o ∷ os) T = bind (apply o T) (run os)

-- Two sequences of operations, one after the other.
pub run-++ :
    (os os' : List Op) (T : Table) {T' : Table}
    → run os T ≡ some T'
    → run (os ++ os') T ≡ run os' T'
unfolding run
run-++ [] os' T {T'} h = let same : T ≡ T' = cc in ap (run os') same
run-++ (o ∷ os) os' T {T'} h = elim (Option-cases (apply o T)) [
  | inl e ↦ absurd (ground (arith, rw e at h))
  | inr (U, e) ↦ rw e (run-++ os os' U (rw e at h))
]

pub run_one : (o : Op) (T : Table) {T' : Table} → apply o T ≡ some T' → run (o ∷ []) T ≡ some T'
unfolding run
run_one o T h = rw h refl

pub run_three :
    (o o' o'' : Op) (T : Table) {T₁ T₂ T₃ : Table}
    → apply o T ≡ some T₁
    → apply o' T₁ ≡ some T₂
    → apply o'' T₂ ≡ some T₃
    → run (o ∷ o' ∷ o'' ∷ []) T ≡ some T₃
unfolding run
run_three o o' o'' T h₁ h₂ h₃ = rw (h₁, h₂, h₃) refl
