-- ===== src/Config/Slices/Sharing.antt =====
-- What the slices of the routes show behind AddRoute and RemoveRoute: the one of the configuration, and
-- the others on its array.
use etunl_cli.Base.{
  ℕ, zero, suc, ◌+◌, ◌≤◌, ◌<◌, ◌≡◌, ◌∙◌, refl, sym, ap, inl, inr, true, none_ne_some, some_inj,
  none, some, List, [], ◌∷◌, ◌++◌, Result, ok, err, leb, length, length-append, length-take, take,
  drop, take-append-drop, take-append, drop-append, append_assoc, get_elem?, get_elem?-append_lt,
  ◌=?◌, Bool-cases, Option-cases, arith,
}
use etunl_cli.Base.Bytes.{Bytes, bytes_is_eq, bytes_eq_iff}
use etunl_cli.Config.Auth.{Route}
use etunl_cli.Config.Routes.{
  ClientConfig, RouteError, find_in, remove_in, with_routes, add_route, remove_route, find_route,
}
use etunl_cli.Config.Slices.{
  Arrays, Slice, array_at, view, overwrite, append_slice, in_place, index_of, add_shared,
  remove_shared, deref,
}
use etunl_cli.Config.Slices.Appending.{
  IsSlice, append_slice-Appended, overwrite_lem, array_at-modify_self, take-take,
}

-- The configuration that an operation on its slice leaves.
unfoldable pub shown :
    ClientConfig → Result RouteError (Arrays × Slice) → Result RouteError ClientConfig
shown c (err e) = err e
shown c (ok (heap, s)) = ok (with_routes c (view heap s))

remove_in_absent : (n : Bytes) (rs : List Route) → index_of n rs ≡ none → remove_in n rs ≡ none
unfolding index_of remove_in
remove_in_absent n [] h = refl
remove_in_absent n (r ∷ rs) h = ground (arith, remove_in_absent n rs)

suc_ne_zero : (i : ℕ) → ¬ (suc i ≡ 0)
suc_ne_zero i h = omega arith

remove_in-zero :
    (n : Bytes) (r : Route) (rs : List Route)
    → index_of n (r ∷ rs) ≡ some 0
    → remove_in n (r ∷ rs) ≡ some rs
unfolding index_of remove_in
remove_in-zero n r rs h = elim (Bool-cases (r.name =? n)) [
  | inl hit ↦ rw hit refl
  | inr miss ↦ elim (Option-cases (index_of n rs)) [
    | inl absent ↦ absurd (none_ne_some (rw (index_of, miss, absent) at h))
    | inr (i, later) ↦ absurd (suc_ne_zero i (some_inj (rw (index_of, miss, later) at h)))
  ]
]

remove_in-index_of :
    (n : Bytes) (rs : List Route) (i : ℕ)
    → index_of n rs ≡ some i
    → (i < length rs) × (remove_in n rs ≡ some (take i rs ++ drop (suc i) rs))
unfolding index_of remove_in
remove_in-index_of n [] i h = cc
remove_in-index_of n (r ∷ rs) zero h = (omega arith, ground (arith, remove_in-zero n r rs h))
remove_in-index_of n (r ∷ rs) (suc i) h = ground (arith, remove_in-index_of n rs i)

index_of-append :
    (n : Bytes) (xs ys : List Route) (r : Route)
    → find_in n xs ≡ none
    → r.name ≡ n
    → index_of n (xs ++ r ∷ ys) ≡ some (length xs)
unfolding index_of find_in
index_of-append n [] ys r h e = rw e (rw ((bytes_eq_iff n n).1 refl) refl)
index_of-append n (x ∷ xs) ys r h e = ground (arith, index_of-append n xs ys r)

length-view : (heap : Arrays) (s : Slice) → IsSlice heap s → length (view heap s) ≡ s.len
length-view heap s good = length-take s.len (array_at heap s.array) good.fits

module _ (heap : Arrays) (s : Slice) (i : ℕ) (good : IsSlice heap s)
    (lt : i < length (view heap s)) where
  cut-IsSlice : IsSlice heap (record s { len = i })
  cut-IsSlice = record {
    there = good.there;
    fits = omega (arith, length-view heap s good, good.fits);
  }

  cut_view : take i (view heap s) ≡ view heap (record s { len = i })
  cut_view = take-take i s.len (array_at heap s.array) (omega (arith, length-view heap s good))

pub add_shared_ok :
    (spare : List Route) (r : Route) (s : Slice) (heap : Arrays)
    → find_in r.name (view heap s) ≡ none
    → add_shared spare r s heap ≡ ok (append_slice spare (r ∷ []) s heap)
unfolding add_shared
add_shared_ok spare r s heap new = rw (add_shared, new) refl

-- RemoveRoute and AddRoute on slices do to the configuration what they do on lists.
pub shared_refines :
    (spare : List Route) (c : ClientConfig) (heap : Arrays) (s : Slice)
    → IsSlice heap s
    → c.routes ≡ view heap s
    → ((n : Bytes) → shown c (remove_shared spare n s heap) ≡ remove_route c n)
      × ((r : Route) → shown c (add_shared spare r s heap) ≡ add_route c r)
unfolding shown remove_shared add_shared remove_route add_route find_route
shared_refines spare c heap s good same = (
  λ n. elim (Option-cases (index_of n (view heap s))) [
    | inl absent ↦
        rw (remove_shared, absent) (rw (remove_route, same, remove_in_absent n _ absent) refl)
    | inr (i, at) ↦
        let (lt, kept) = remove_in-index_of n (view heap s) i at in
        let cut = record s { len = i } in
        let h =
          append_slice-Appended (drop (suc i) (view heap s)) cut heap (cut-IsSlice heap s i good lt)
            spare in
        rw (remove_shared, at)
          (rw (remove_route, same, kept)
            (ap (λ rs. ok (with_routes c rs))
              (h.1
                ∙ ap (λ rs. rs ++ drop (suc i) (view heap s)) (sym (cut_view heap s i good lt)))))
  ],
  λ r. elim (Option-cases (find_in r.name (view heap s))) [
    | inl fresh ↦
        let h = append_slice-Appended (r ∷ []) s heap good spare in
        rw (add_shared, fresh)
          (rw (add_route, find_route, same, fresh) (rw same (ap (λ rs. ok (with_routes c rs)) h.1)))
    | inr (old, taken) ↦ rw (add_shared, taken) (rw (add_route, find_route, same, taken) refl)
  ],
)

length_tail :
    (ys tail : List Route) (r : Route)
    → drop (length ys) (r ∷ (ys ++ tail)) ≡ drop (length ys) (r ∷ ys) ++ tail
length_tail [] tail r = refl
length_tail (y ∷ ys) tail r = length_tail ys tail y

length-last : (ys : List Route) (r : Route) → length (drop (length ys) (r ∷ ys)) ≡ 1
length-last [] r = refl
length-last (y ∷ ys) r = length-last ys y

get_elem?-append_ge :
    (xs zs : List Route) (i j : ℕ) → j ≡ length xs + i → get_elem? (xs ++ zs) j ≡ get_elem? zs i
get_elem?-append_ge [] zs i j h = ap (get_elem? zs) (omega arith)
get_elem?-append_ge (x ∷ xs) zs i zero h = absurd (omega arith)
get_elem?-append_ge (x ∷ xs) zs i (suc j) h = get_elem?-append_ge xs zs i j (omega arith)

drop_behind : (xs ys : List Route) (r : Route) → drop (suc (length xs)) (xs ++ r ∷ ys) ≡ ys
drop_behind [] ys r = refl
drop_behind (x ∷ xs) ys r = drop_behind xs ys r

-- The routes behind the removed one are copied over it, one place down; the last one stays.
spliced :
    (xs ys tail arr : List Route) (r : Route)
    → arr ≡ xs ++ ((r ∷ ys) ++ tail)
    → take (length xs) arr ++ (ys ++ drop (length ys) (drop (length xs) arr))
      ≡ (xs ++ (ys ++ drop (length ys) (r ∷ ys))) ++ tail
spliced xs ys tail arr r h = rw h (
    rw (take-append xs ((r ∷ ys) ++ tail), drop-append xs ((r ∷ ys) ++ tail), length_tail ys tail r)
      (ap (◌++◌ xs) (sym (append_assoc ys (drop (length ys) (r ∷ ys)) tail))
        ∙ sym (append_assoc xs (ys ++ drop (length ys) (r ∷ ys)) tail)))

leb_of_le : (a b : ℕ) → a ≤ b → leb a b ≡ true
leb_of_le a b h = ground arith

-- Where the removed route stands behind `xs` and before `ys`.
module _ (spare xs ys : List Route) (r : Route) (heap : Arrays) (s : Slice) (good : IsSlice heap s)
    (where_it_is : view heap s ≡ xs ++ r ∷ ys) where
  abbrev seen : List Route
  seen = xs ++ (ys ++ drop (length ys) (r ∷ ys))

  abbrev behind : List Route
  behind = drop s.len (array_at heap s.array)

  abbrev cut : Slice
  cut = record s { len = length xs }

  old_array : array_at heap s.array ≡ xs ++ ((r ∷ ys) ++ behind)
  old_array =
      sym (take-append-drop s.len (array_at heap s.array))
      ∙ ap (λ rs. rs ++ behind) where_it_is
      ∙ append_assoc xs (r ∷ ys) behind

  old_len : s.len ≡ length xs + suc (length ys)
  old_len = sym (length-view heap s good) ∙ ap length where_it_is ∙ length-append xs (r ∷ ys)

  room : length xs + length ys ≤ length (array_at heap s.array)
  room = omega (arith, old_len, good.fits)

  new_array : array_at (in_place ys cut heap).0 s.array ≡ seen ++ behind
  unfolding in_place
  new_array =
      array_at-modify_self (overwrite (length xs) ys) s.array heap good.there
      ∙ overwrite_lem (length xs) ys (array_at heap s.array) room
      ∙ spliced xs ys behind (array_at heap s.array) r old_array

  length-seen : s.len ≡ length seen
  length-seen = omega (
    arith,
    old_len,
    length-append xs (ys ++ drop (length ys) (r ∷ ys)),
    length-append ys (drop (length ys) (r ∷ ys)),
    length-last ys r,
  )

  seen-view : view (in_place ys cut heap).0 s ≡ seen
  seen-view =
      ap (take s.len) new_array
      ∙ ap (λ n. take n (seen ++ behind)) length-seen
      ∙ take-append seen behind

  removed : find_in r.name xs ≡ none → remove_shared spare r.name s heap ≡ ok (in_place ys cut heap)
  unfolding remove_shared append_slice
  removed first =
      let at : index_of r.name (view heap s) ≡ some (length xs) =
        ap (index_of r.name) where_it_is ∙ index_of-append r.name xs ys r first refl in
      let rest : drop (suc (length xs)) (view heap s) ≡ ys =
        ap (drop (suc (length xs))) where_it_is ∙ drop_behind xs ys r in
      rw (remove_shared, at) (rw rest (rw (append_slice, leb_of_le _ _ room) refl))

  -- RemoveRoute through one slice of an array moves the routes behind the removed one down by one place,
  -- in place: any other slice that showed the same routes now shows the routes that are left and then
  -- the last route again, and a pointer to a place behind the removed route reads the next route.
  pub remove_shared-seen :
      find_in r.name xs ≡ none
      → (heap' : Arrays) × (remove_shared spare r.name s heap
          ≡ ok (heap', record { array = s.array; len = length xs + length ys }))
        × (view heap' s ≡ xs ++ (ys ++ drop (length ys) (r ∷ ys)))
        × ((i : ℕ) → i < length ys → deref heap' s.array (length xs + i) ≡ get_elem? ys i)
  unfolding in_place deref
  remove_shared-seen first = (
    (in_place ys cut heap).0,
    removed first,
    seen-view,
    λ i lt.
        ap (λ rs. get_elem? rs (length xs + i)) new_array
        ∙ ap (λ rs. get_elem? rs (length xs + i))
            (append_assoc xs (ys ++ drop (length ys) (r ∷ ys)) behind)
        ∙ get_elem?-append_ge xs ((ys ++ drop (length ys) (r ∷ ys)) ++ behind) i (length xs + i)
            refl
        ∙ ap (λ rs. get_elem? rs i) (append_assoc ys (drop (length ys) (r ∷ ys)) behind)
        ∙ get_elem?-append_lt ys (drop (length ys) (r ∷ ys) ++ behind) i lt,
  )
