-- ===== src/Config/Slices/Appending.antt =====
-- What `append` does to the slice, and to the others on its array.
use native.Mathlib.Decide.{ℕ_discrete}
use etunl_cli.Base.{
  ℕ, zero, suc, ◌+◌, ◌≤◌, ◌<◌, ◌≡◌, ◌≢◌, refl, ap, true, List, [], ◌∷◌, ◌++◌, leb, length,
  length-append, length-take, length-modify, take, drop, take-append, append_assoc, modify,
  if_split, arith,
}
use etunl_cli.Base.Bytes.{bytes_is_eq}
use etunl_cli.Config.Auth.{Route}
use etunl_cli.Config.Slices.{
  Arrays, Slice, array_at, view, overwrite, in_place, moved, append_slice,
}

-- The slice lies in an array that exists.
pub record IsSlice (heap : Arrays) (s : Slice) : Type 0 where
  pub there : s.array < length heap
  pub fits : s.len ≤ length (array_at heap s.array)

pub overwrite_lem :
    (i : ℕ) (xs ys : List Route)
    → i + length xs ≤ length ys
    → overwrite i xs ys ≡ take i ys ++ (xs ++ drop (length xs) (drop i ys))
unfolding overwrite
overwrite_lem zero [] [] h = refl
overwrite_lem zero (x ∷ xs) [] h = absurd (omega arith)
overwrite_lem (suc i) xs [] h = absurd (omega arith)
overwrite_lem zero [] (y ∷ ys) h = refl
overwrite_lem zero (x ∷ xs) (y ∷ ys) h = ap (◌∷◌ x) (overwrite_lem zero xs ys (omega arith))
overwrite_lem (suc i) xs (y ∷ ys) h = ap (◌∷◌ y) (overwrite_lem i xs ys (omega arith))

pub take-take : (i n : ℕ) (ys : List Route) → i ≤ n → take i (take n ys) ≡ take i ys
take-take zero n ys h = refl
take-take (suc i) zero ys h = absurd (omega arith)
take-take (suc i) (suc n) [] h = refl
take-take (suc i) (suc n) (y ∷ ys) h = ap (◌∷◌ y) (take-take i n ys (omega arith))

-- What a slice of at most `i` routes shows is not overwritten from `i` on.
take-overwrite : (n i : ℕ) (xs ys : List Route) → n ≤ i → take n (overwrite i xs ys) ≡ take n ys
unfolding overwrite
take-overwrite zero i xs ys h = refl
take-overwrite (suc n) i xs [] h = refl
take-overwrite (suc n) zero xs (y ∷ ys) h = absurd (omega arith)
take-overwrite (suc n) (suc i) xs (y ∷ ys) h = ap (◌∷◌ y) (take-overwrite n i xs ys (omega arith))

length-overwrite : (i : ℕ) (xs ys : List Route) → length (overwrite i xs ys) ≡ length ys
unfolding overwrite
length-overwrite i xs [] = refl
length-overwrite zero [] (y ∷ ys) = refl
length-overwrite zero (x ∷ xs) (y ∷ ys) = ap suc (length-overwrite zero xs ys)
length-overwrite (suc i) xs (y ∷ ys) = ap suc (length-overwrite i xs ys)

pub array_at-modify_self :
    (f : List Route → List Route) (a : ℕ) (heap : Arrays)
    → a < length heap
    → array_at (modify f a heap) a ≡ f (array_at heap a)
array_at-modify_self f a [] h = absurd (omega arith)
array_at-modify_self f zero (r ∷ heap) h = refl
array_at-modify_self f (suc a) (r ∷ heap) h = array_at-modify_self f a heap (omega arith)

array_at-modify_ne :
    (f : List Route → List Route) (a b : ℕ) (heap : Arrays)
    → a ≢ b
    → array_at (modify f a heap) b ≡ array_at heap b
array_at-modify_ne f a b [] h = refl
array_at-modify_ne f zero zero (r ∷ heap) h = absurd (h refl)
array_at-modify_ne f zero (suc b) (r ∷ heap) h = refl
array_at-modify_ne f (suc a) zero (r ∷ heap) h = refl
array_at-modify_ne f (suc a) (suc b) (r ∷ heap) h =
    array_at-modify_ne f a b heap (λ e. h (ap suc e))

array_at-append :
    (heap : Arrays) (new : List Route) (a : ℕ)
    → a < length heap
    → array_at (heap ++ new ∷ []) a ≡ array_at heap a
array_at-append [] new a h = absurd (omega arith)
array_at-append (r ∷ heap) new zero h = refl
array_at-append (r ∷ heap) new (suc a) h = array_at-append heap new a (omega arith)

pub array_at-append_length :
    (heap : Arrays) (new : List Route) → array_at (heap ++ new ∷ []) (length heap) ≡ new
array_at-append_length [] new = refl
array_at-append_length (r ∷ heap) new = array_at-append_length heap new

take_more :
    (n : ℕ) (xs ys zs : List Route)
    → length ys ≡ n
    → take (n + length xs) (ys ++ (xs ++ zs)) ≡ ys ++ xs
take_more n xs ys zs h =
    rw (← h) (rw (← length-append ys xs) (rw (← append_assoc ys xs zs) (take-append (ys ++ xs) zs)))

le_of_leb : (a b : ℕ) → leb a b ≡ true → a ≤ b
le_of_leb a b h = ground arith

abbrev pub Appended : List Route → Slice → Arrays → Arrays × Slice → Type 0
Appended xs s heap out =
    (IsSlice out.0 out.1)
    × (view out.0 out.1 ≡ view heap s ++ xs)
    × ((t : Slice) → IsSlice heap t → t.len ≤ s.len → view out.0 t ≡ view heap t)

module _ (xs : List Route) (s : Slice) (heap : Arrays) (good : IsSlice heap s) where
  in_place-Appended :
      s.len + length xs ≤ length (array_at heap s.array) → Appended xs s heap (in_place xs s heap)
  unfolding in_place
  in_place-Appended room =
      let arr = array_at heap s.array in
      let there = array_at-modify_self (overwrite s.len xs) s.array heap good.there in
      (
        record {
          there = rw (length-modify (overwrite s.len xs) s.array heap) good.there;
          fits = rw there (rw (length-overwrite s.len xs arr) room);
        },
        rw there (
            rw (overwrite_lem s.len xs arr room) (
              take_more s.len xs (take s.len arr) (drop (length xs) (drop s.len arr))
                (length-take s.len arr good.fits))),
        λ t ok few. elim (ℕ_discrete s.array t.array) [
          | yes same ↦ rw (← same) (rw there (take-overwrite t.len s.len xs arr few))
          | no other ↦ rw (array_at-modify_ne (overwrite s.len xs) s.array t.array heap other) refl
        ],
      )

  moved-Appended : (spare : List Route) → Appended xs s heap (moved spare xs s heap)
  unfolding moved
  moved-Appended spare =
      let new = view heap s ++ (xs ++ spare) in
      let there = array_at-append_length heap new in
      let n = length-take s.len (array_at heap s.array) good.fits in
      (
        record {
          there = rw (length-append heap (new ∷ [])) (omega arith);
          fits =
              rw there
                (omega (arith, length-append (view heap s) (xs ++ spare), length-append xs spare));
        },
        rw there (take_more s.len xs (view heap s) spare n),
        λ t ok few. rw (array_at-append heap new t.array ok.there) refl,
      )

  pub append_slice-Appended :
      (spare : List Route) → Appended xs s heap (append_slice spare xs s heap)
  unfolding append_slice
  append_slice-Appended spare =
      if_split (Appended xs s heap) (leb (s.len + length xs) (length (array_at heap s.array)))
        (λ room. in_place-Appended (le_of_leb _ _ room)) (λ _. moved-Appended spare)
