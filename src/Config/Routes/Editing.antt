-- ===== src/Config/Routes/Editing.antt =====
-- What adding and removing a route does to the list, and what loading guarantees.
use etunl_cli.Base.{
  ◌≡◌, ◌≢◌, refl, ap, sym, ◌∙◌, inl, inr, Bool-cases, Option-cases, false, none, some, List, [],
  ◌∷◌, ◌++◌, ok, ◌=?◌, if◌then◌else◌, arith, beq_refl, beq_ne,
}
use etunl_cli.Base.Bytes.{Bytes, bytes_is_eq}
use etunl_cli.Config.Auth.{Route}
use etunl_cli.Config.Routes.{
  ClientConfig, with_routes, find_in, find_route, add_route, remove_in, remove_route,
}

-- No two routes have one name.
abbrev pub NodupNames : List Route → Type 0
NodupNames [] = Unit
NodupNames (r ∷ rs) = (find_in r.name rs ≡ none) × NodupNames rs

find_in-append :
    (n : Bytes) (rs : List Route) (r : Route)
    → find_in n rs ≡ none
    → find_in n (rs ++ r ∷ []) ≡ (if r.name =? n then some r else none)
unfolding find_in
find_in-append n [] r h = refl
find_in-append n (s ∷ rs) r h = elim (Bool-cases (s.name =? n)) [
  | inl t ↦ ground arith
  | inr f ↦ ground (arith, find_in-append n rs r)
]

find_in-append_old :
    (n : Bytes) (rs : List Route) (r old : Route)
    → find_in n rs ≡ some old
    → find_in n (rs ++ r ∷ []) ≡ some old
unfolding find_in
find_in-append_old n [] r old h = cc
find_in-append_old n (s ∷ rs) r old h = ground (arith, find_in-append_old n rs r old)

find_in-append_ne :
    (n : Bytes) (rs : List Route) (r : Route) → n ≢ r.name → find_in n (rs ++ r ∷ []) ≡ find_in n rs
unfolding find_in
find_in-append_ne n [] r ne = rw (beq_ne r.name n (λ e. ne (sym e))) refl
find_in-append_ne n (s ∷ rs) r ne = rw (find_in-append_ne n rs r ne) refl

-- RemoveRoute's walk leaves the lookup of another name alone.
remove_in-ne :
    (m n : Bytes) (rs kept : List Route)
    → m ≢ n
    → remove_in n rs ≡ some kept
    → find_in m kept ≡ find_in m rs
unfolding find_in remove_in
remove_in-ne m n [] kept ne h = cc
remove_in-ne m n (s ∷ rs) kept ne h = elim (Bool-cases (s.name =? n)) [
  | inl t ↦
      let named = (bytes_is_eq.beq_iff s.name n).0 t in
      let other = beq_ne s.name m (λ e. ne (sym e ∙ named)) in ground arith
  | inr f ↦ elim (Option-cases (remove_in n rs)) [
    | inl nothing ↦ absurd (ground arith)
    | inr (later, found) ↦
        let same : s ∷ later ≡ kept = ground arith in
        rw (← same) (rw (remove_in-ne m n rs later ne found) refl)
  ]
]

-- Under unique names, it leaves no route of the name.
remove_in-gone :
    (n : Bytes) (rs kept : List Route)
    → NodupNames rs
    → remove_in n rs ≡ some kept
    → find_in n kept ≡ none
unfolding find_in remove_in
remove_in-gone n [] kept nd h = cc
remove_in-gone n (s ∷ rs) kept (hs, nd) h = elim (Bool-cases (s.name =? n)) [
  | inl t ↦
      let named = (bytes_is_eq.beq_iff s.name n).0 t in
      let same : rs ≡ kept = ground arith in rw (← same) (rw (← named) hs)
  | inr f ↦ elim (Option-cases (remove_in n rs)) [
    | inl nothing ↦ absurd (ground arith)
    | inr (later, found) ↦
        let same : s ∷ later ≡ kept = ground arith in
        rw (← same) (rw f (remove_in-gone n rs later nd found))
  ]
]

NodupNames-append :
    (rs : List Route) (r : Route)
    → NodupNames rs
    → find_in r.name rs ≡ none
    → NodupNames (rs ++ r ∷ [])
unfolding find_in
NodupNames-append [] r nd h = (refl, tt)
NodupNames-append (s ∷ rs) r (hs, nd) h = elim (Bool-cases (s.name =? r.name)) [
  | inl t ↦ ground arith
  | inr f ↦
      let fresh : find_in r.name rs ≡ none = ground arith in
      let differ : (r.name =? s.name) ≡ false =
        beq_ne r.name s.name (λ e. (let t = (bytes_is_eq.beq_iff s.name r.name).1 (sym e) in cc)) in
      (find_in-append s.name rs r hs ∙ rw differ refl, NodupNames-append rs r nd fresh)
]

remove_in-append :
    (rs : List Route) (r : Route)
    → find_in r.name rs ≡ none
    → remove_in r.name (rs ++ r ∷ []) ≡ some rs
unfolding find_in remove_in
remove_in-append [] r h = rw (beq_refl r.name) refl
remove_in-append (s ∷ rs) r h = ground (arith, remove_in-append rs r)

remove_in-some :
    (n : Bytes) (rs kept : List Route)
    → remove_in n rs ≡ some kept
    → (before : List Route) × (r : Route) × (behind : List Route) × (rs ≡ before ++ r ∷ behind)
      × (r.name ≡ n)
      × (find_in n before ≡ none)
      × (kept ≡ before ++ behind)
unfolding find_in remove_in
remove_in-some n [] kept h = cc
remove_in-some n (s ∷ rs) kept h = elim (Bool-cases (s.name =? n)) [
  | inl t ↦ ([], s, rs, refl, (bytes_is_eq.beq_iff s.name n).0 t, refl, ground arith)
  | inr f ↦ elim (Option-cases (remove_in n rs)) [
    | inl nothing ↦ absurd (ground arith)
    | inr (later, found) ↦
        let (before, r, behind, split, named, fresh, joined) = remove_in-some n rs later found in
        (s ∷ before, r, behind, ap (◌∷◌ s) split, named, rw f fresh, ground arith)
  ]
]

-- Where AddRoute succeeds, no route had the name, the lookup of the name gives the new route and
-- other lookups what they gave, RemoveRoute of the name takes the change back, and the names, unique
-- before, stay unique.
pub add_route_ok :
    (c c' : ClientConfig) (r : Route)
    → NodupNames c.routes
    → add_route c r ≡ ok c'
    → (find_route c r.name ≡ none)
      × (find_route c' r.name ≡ some r)
      × ((n : Bytes) → n ≢ r.name → find_route c' n ≡ find_route c n)
      × (remove_route c' r.name ≡ ok c)
      × NodupNames c'.routes
unfolding add_route find_route remove_route
add_route_ok c c' r nd h = elim (Option-cases (find_in r.name c.routes)) [
  | inr (old, found) ↦ absurd (ground arith)
  | inl fresh ↦
      let same : with_routes c (c.routes ++ r ∷ []) ≡ c' = ground arith in
      rw (← same) (
        fresh,
        find_in-append r.name c.routes r fresh ∙ rw (beq_refl r.name) refl,
        λ n ne. find_in-append_ne n c.routes r ne,
        rw (remove_route, remove_in-append c.routes r fresh) refl,
        NodupNames-append c.routes r nd fresh,
      )
]

-- Where RemoveRoute succeeds, it has taken out one route of the name, the first, and nothing else;
-- where the names are unique, the name is then free, and every other lookup gives what it gave.
pub remove_route_ok :
    (c c' : ClientConfig) (n : Bytes)
    → NodupNames c.routes
    → remove_route c n ≡ ok c'
    → ((before : List Route) × (r : Route) × (behind : List Route) × (c.routes
          ≡ before ++ r ∷ behind)
        × (r.name ≡ n)
        × (c'.routes ≡ before ++ behind))
      × (find_route c' n ≡ none)
      × ((m : Bytes) → m ≢ n → find_route c' m ≡ find_route c m)
unfolding remove_route find_route
remove_route_ok c c' n nd h = elim (Option-cases (remove_in n c.routes)) [
  | inl nothing ↦ absurd (ground arith)
  | inr (kept, found) ↦
      let same : with_routes c kept ≡ c' = ground arith in
      let (before, r, behind, split, named, fresh, joined) = remove_in-some n c.routes kept found in
      rw (← same) (
        (before, r, behind, split, named, joined),
        remove_in-gone n c.routes kept nd found,
        λ m ne. remove_in-ne m n c.routes kept ne found,
      )
]
