-- ===== src/Tunnel/Conn/Closing/Panics.antt =====
-- How many concurrent calls of Close panic.
use etunl_cli.Base.{
  ℕ, zero, suc, ◌+◌, ◌≡◌, ◌⊎◌, ◌∙◌, inl, inr, refl, sym, ap, Bool, true, false, List, [], ◌∷◌,
  if◌then◌else◌, arith, replicate, length, length-replicate, All, true_ne_false,
}
use etunl_cli.Tunnel.Conn.Closing.{
  Closer, called, tested, returned, panicked, close_step, close_at, close_all_calls,
}

-- How many of the calls panicked.
pub panics : List Closer → ℕ
panics [] = 0
panics (panicked ∷ cs) = 1 + panics cs
panics (called ∷ cs) = panics cs
panics (tested ∷ cs) = panics cs
panics (returned ∷ cs) = panics cs

-- How many of the calls ask while the channel is open.
asks : Closer → Bool → ℕ
asks called done = if done then 0 else 1
asks tested done = 0
asks returned done = 0
asks panicked done = 0

asks_at : ℕ → List Closer → Bool → ℕ
unfolding asks
asks_at i [] done = 0
asks_at zero (c ∷ cs) done = asks c done
asks_at (suc i) (c ∷ cs) done = asks_at i cs done

pub found_open : List ℕ → List Closer → Bool → ℕ
unfolding asks_at close_at
found_open [] cs done = 0
found_open (i ∷ is) cs done =
    asks_at i cs done + found_open is (close_at i cs done).0 (close_at i cs done).1

-- Every call has come to its end.
abbrev IsOver : Closer → Type 0
IsOver returned = Unit
IsOver panicked = Unit
IsOver called = ⊥
IsOver tested = ⊥

abbrev pub AllOver : List Closer → Type 0
AllOver = All IsOver

-- The calls that have found the channel open: they are yet to close it, or have panicked; and one has
-- closed it.
weight : Closer → ℕ
weight called = 0
weight tested = 1
weight returned = 0
weight panicked = 1

total : List Closer → Bool → ℕ
unfolding weight
total [] done = if done then 1 else 0
total (c ∷ cs) done = weight c + total cs done

total-done : (cs : List Closer) → total cs true ≡ suc (total cs false)
unfolding total
total-done [] = refl
total-done (c ∷ cs) = omega (arith, total-done cs)

total-close_at :
    (i : ℕ) (cs : List Closer) (done : Bool)
    → total (close_at i cs done).0 (close_at i cs done).1 ≡ asks_at i cs done + total cs done
unfolding total close_at asks_at close_step asks weight
total-close_at i [] done = ground arith
total-close_at zero (called ∷ cs) true = omega arith
total-close_at zero (called ∷ cs) false = omega arith
total-close_at zero (tested ∷ cs) true = omega arith
total-close_at zero (tested ∷ cs) false = omega (arith, total-done cs)
total-close_at zero (returned ∷ cs) done = omega arith
total-close_at zero (panicked ∷ cs) done = omega arith
total-close_at (suc i) (c ∷ cs) done = omega (arith, total-close_at i cs done)

total-close_all_calls :
    (is : List ℕ) (cs : List Closer) (done : Bool)
    → total (close_all_calls is cs done).0 (close_all_calls is cs done).1
      ≡ found_open is cs done + total cs done
unfolding close_all_calls found_open
total-close_all_calls [] cs done = omega arith
total-close_all_calls (i ∷ is) cs done = omega (
  arith,
  total-close_all_calls is (close_at i cs done).0 (close_at i cs done).1,
  total-close_at i cs done,
)

-- While the channel is open, no call is over.
abbrev IsPending : Closer → Type 0
IsPending called = Unit
IsPending tested = Unit
IsPending returned = ⊥
IsPending panicked = ⊥

abbrev Sound : List Closer × Bool → Type 0
Sound (cs, done) = (done ≡ true) ⊎ All IsPending cs

done-close_at : (i : ℕ) (cs : List Closer) → (close_at i cs true).1 ≡ true
unfolding close_at close_step
done-close_at i [] = refl
done-close_at zero (called ∷ cs) = refl
done-close_at zero (tested ∷ cs) = refl
done-close_at zero (returned ∷ cs) = refl
done-close_at zero (panicked ∷ cs) = refl
done-close_at (suc i) (c ∷ cs) = done-close_at i cs

Sound-close_at : (i : ℕ) (cs : List Closer) → All IsPending cs → Sound (close_at i cs false)
unfolding close_at close_step
Sound-close_at i [] h = inr tt
Sound-close_at zero (called ∷ cs) (p, ps) = inr (tt, ps)
Sound-close_at zero (tested ∷ cs) (p, ps) = inl refl
Sound-close_at zero (returned ∷ cs) (p, ps) = absurd p
Sound-close_at zero (panicked ∷ cs) (p, ps) = absurd p
Sound-close_at (suc i) (c ∷ cs) (p, ps) = elim (Sound-close_at i cs ps) [
  | inl done ↦ inl done
  | inr qs ↦ inr (p, qs)
]

Sound-close_all_calls :
    (is : List ℕ) (cs : List Closer) (done : Bool)
    → Sound (cs, done)
    → Sound (close_all_calls is cs done)
unfolding close_all_calls
Sound-close_all_calls [] cs done h = h
Sound-close_all_calls (i ∷ is) cs true h = Sound-close_all_calls is _ _ (inl (done-close_at i cs))
Sound-close_all_calls (i ∷ is) cs false (inr ps) =
    Sound-close_all_calls is _ _ (Sound-close_at i cs ps)
Sound-close_all_calls (i ∷ is) cs false (inl bad) = absurd (true_ne_false (sym bad))

total-AllOver : (cs : List Closer) → AllOver cs → total cs true ≡ panics cs + 1
unfolding total panics weight
total-AllOver [] h = refl
total-AllOver (called ∷ cs) (p, h) = absurd p
total-AllOver (tested ∷ cs) (p, h) = absurd p
total-AllOver (returned ∷ cs) (p, h) = omega (arith, total-AllOver cs h)
total-AllOver (panicked ∷ cs) (p, h) = omega (arith, total-AllOver cs h)

pending_over : (cs : List Closer) → All IsPending cs → AllOver cs → length cs ≡ 0
pending_over [] h k = refl
pending_over (called ∷ cs) (p, ps) (q, qs) = absurd q
pending_over (tested ∷ cs) (p, ps) (q, qs) = absurd q
pending_over (returned ∷ cs) (p, ps) (q, qs) = absurd p
pending_over (panicked ∷ cs) (p, ps) (q, qs) = absurd p

length-close_at :
    (i : ℕ) (cs : List Closer) (done : Bool) → length (close_at i cs done).0 ≡ length cs
unfolding close_at
length-close_at i [] done = refl
length-close_at zero (c ∷ cs) done = refl
length-close_at (suc i) (c ∷ cs) done = ap suc (length-close_at i cs done)

length-close_all_calls :
    (is : List ℕ) (cs : List Closer) (done : Bool)
    → length (close_all_calls is cs done).0 ≡ length cs
unfolding close_all_calls
length-close_all_calls [] cs done = refl
length-close_all_calls (i ∷ is) cs done = length-close_all_calls is _ _ ∙ length-close_at i cs done

abbrev pub new_calls : ℕ → List Closer
new_calls n = replicate n called

IsPending-new_calls : (n : ℕ) → All IsPending (new_calls n)
IsPending-new_calls zero = tt
IsPending-new_calls (suc n) = (tt, IsPending-new_calls n)

total-new_calls : (n : ℕ) → total (new_calls n) false ≡ 0
unfolding total weight
total-new_calls zero = refl
total-new_calls (suc n) = omega (arith, total-new_calls n)

-- Whichever way the steps of one or more calls are interleaved, from an open channel until all are
-- over: the channel is closed, and of the calls that asked while it was open all but one panic. So none
-- panics exactly where only one call asked before the channel was closed.
pub panics-found_open :
    (is : List ℕ) (n : ℕ)
    → AllOver (close_all_calls is (new_calls (suc n)) false).0
    → ((close_all_calls is (new_calls (suc n)) false).1 ≡ true)
      × (panics (close_all_calls is (new_calls (suc n)) false).0 + 1
          ≡ found_open is (new_calls (suc n)) false)
panics-found_open is n over =
    let cs = new_calls (suc n) in
    let (cs', done) = close_all_calls is cs false in
    elim (Sound-close_all_calls is cs false (inr (IsPending-new_calls (suc n)))) [
      | inr pending ↦ absurd (
          omega (
            arith,
            pending_over cs' pending over,
            length-close_all_calls is cs false,
            length-replicate (suc n) called,
          ))
      | inl shut ↦ (
        shut,
        sym (total-AllOver cs' over)
            ∙ ap (total cs') (sym shut)
            ∙ total-close_all_calls is cs false
            ∙ omega (arith, total-new_calls (suc n)),
      )
    ]
