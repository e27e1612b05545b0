-- ===== src/Rpc/Wire/Lists.antt =====
-- Lists survive being written to a builder and read from a reader.
use mathlib.Core.List.{append_assoc}
use mathlib.Core.Path.{ap₂}
use rgpot.Prelude.{
  ℕ, zero, suc, ◌+◌, ◌^◌, ◌<◌, ◌≡◌, refl, ap, ◌∙◌, sym, good, List, [], ◌∷◌, ◌++◌, arith, length,
  get_or, set, drop, length-append,
}
use rgpot.Prelude.Words.{to_half}
use rgpot.Memory.{World, ok}
use rgpot.Rpc.Wire.{ListReader, collect, to_vec, ListBuilder, IsListBuilder, fill, write_list}

-- A reader of the list `xs`; the default stands out of range.
abbrev pub reader_of : {A : Type 0} → A → List A → ListReader A
reader_of d xs = record { len = length xs; get = λ i. get_or xs i d }

get_or-drop : {A : Type 0} (d : A) (xs : List A) (i : ℕ) → get_or xs i d ≡ get_or (drop i xs) 0 d
get_or-drop d xs zero = refl
get_or-drop d [] (suc i) = refl
get_or-drop d (x ∷ xs) (suc i) = get_or-drop d xs i

drop-suc : {A : Type 0} (xs : List A) (i : ℕ) → drop (suc i) xs ≡ drop 1 (drop i xs)
drop-suc xs zero = refl
drop-suc [] (suc i) = refl
drop-suc (x ∷ xs) (suc i) = drop-suc xs i

collect-drop :
    {A : Type 0} (d : A) (xs ys : List A) (i : ℕ)
    → drop i xs ≡ ys
    → collect (λ j. get_or xs j d) i (length ys) ≡ ys
unfolding collect
collect-drop d xs [] i h = refl
collect-drop d xs (y ∷ ys) i h =
    ap₂ ◌∷◌ (get_or-drop d xs i ∙ ap (λ l. get_or l 0 d) h)
      (collect-drop d xs ys (i + 1) (rw one (drop-suc xs i ∙ ap (drop 1) h)))
  where
    one : i + 1 ≡ suc i
    one = omega arith

pub to_vec-reader_of : {A : Type 0} (d : A) (xs : List A) → to_vec (reader_of d xs) ≡ xs
unfolding to_vec
to_vec-reader_of d xs = collect-drop d xs xs 0 refl

set-append :
    {A : Type 0} (pre : List A) (r a : A) (rs : List A)
    → set (pre ++ r ∷ rs) (length pre) a ≡ (pre ++ a ∷ []) ++ rs
set-append [] r a rs = refl
set-append (x ∷ pre) r a rs = ap (λ l. x ∷ l) (set-append pre r a rs)

fill-cons :
    {A : Type 0} (L : ListBuilder A) (w : World) (a : A) (xs : List A) (i : ℕ) (b b₁ b₂ : L.Builder)
    → L.set b (to_half i) a ≡ good b₁
    → fill L xs (i + 1) b₁ w ≡ ok b₂ w
    → fill L (a ∷ xs) i b w ≡ ok b₂ w
unfolding fill
fill-cons L w a xs i b b₁ b₂ h rest = rw h rest

module _ {A : Type 0} (L : ListBuilder A) (lawful : IsListBuilder L) (w : World) where
  set-at :
      (pre : List A) (r a : A) (rs : List A) (i : ℕ) (b : L.Builder)
      → L.contents b ≡ pre ++ r ∷ rs
      → i ≡ length pre
      → (b' : L.Builder) × (L.set b i a ≡ good b') × (L.contents b' ≡ (pre ++ a ∷ []) ++ rs)
  set-at pre r a rs i b h e =
      let room : i < length (L.contents b) = rw h (omega (arith, length-append pre (r ∷ rs))) in
      let (b₁, done, now) = lawful.set-in_range b i a room in
      (b₁, done, now ∙ ap₂ (λ l k. set l k a) h e ∙ set-append pre r a rs)

  fill-append :
      (xs pre rs : List A) (i : ℕ) (b : L.Builder)
      → L.contents b ≡ pre ++ rs
      → i ≡ length pre
      → length rs ≡ length xs
      → i + length xs < 2 ^ 29
      → (b' : L.Builder) × (fill L xs i b w ≡ ok b' w) × (L.contents b' ≡ pre ++ xs)
  fill-append [] pre [] i b h at e small = (b, unfold fill in refl, h)
  fill-append [] pre (r ∷ rs) i b h at e small = absurd (omega arith)
  fill-append (a ∷ xs) pre [] i b h at e small = absurd (omega arith)
  fill-append (a ∷ xs) pre (r ∷ rs) i b h at e small =
      let (b₁, done, now) = set-at pre r a rs (to_half i) b h (omega arith) in
      let (b₂, rest, end) =
        fill-append xs (pre ++ a ∷ []) rs (i + 1) b₁ now (omega (arith, length-append pre (a ∷ [])))
          (omega arith) (omega arith) in
      (b₂, fill-cons L w a xs i b b₁ b₂ done rest, end ∙ append_assoc pre (a ∷ []) xs)

  -- A list of fewer than 2 ^ 29 elements that is written to a builder of its length arrives whole.
  pub write_list-contents :
      (xs : List A) (n : ℕ)
      → length xs ≡ n
      → n < 2 ^ 29
      → (b : L.Builder) × (write_list L n xs w ≡ ok b w) × (L.contents b ≡ xs)
  unfolding write_list
  write_list-contents xs n size small =
      let (b₀, made, long) = lawful.init-small n small in
      let (b, filled, is) =
        fill-append xs [] (L.contents b₀) 0 b₀ refl refl (long ∙ sym size) (omega arith) in
      (b, rw made filled, is)
