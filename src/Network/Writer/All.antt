-- ===== src/Network/Writer/All.antt =====
-- What `writeAll` does with an `io.Writer` that keeps its contract.
use native.Mathlib.Nat.{zero-add, suc-add}
use net_flux.Base.{
  ℕ, zero, suc, ◌+◌, ◌≤◌, ◌<◌, ◌≡◌, refl, sym, ap, ◌∙◌, Option, none, some, List, [], ◌∷◌, ◌++◌,
  length, take, drop, length-drop, append_assoc, append-nil, Option-cases, inl, inr, arith,
}
use net_flux.Network.Packet.{NetError}
use net_flux.Network.Writer.{IoWriter, write_all_from}

pub take-add {ℓ} :
    {A : Type ℓ} (n k : ℕ) (xs : List A) → take (n + k) xs ≡ take n xs ++ take k (drop n xs)
take-add zero k xs = rw zero-add refl
take-add (suc n) zero [] = rw suc-add refl
take-add (suc n) (suc k) [] = rw suc-add refl
take-add (suc n) k (x ∷ xs) = rw suc-add (ap (◌∷◌ x) (take-add n k xs))

module _ (w : IoWriter) where
  module _ (fuel total x : ℕ) (xs : List ℕ) (s : w.State) where
    step_more :
        (w.write (x ∷ xs) s).2 ≡ none
        → write_all_from w (suc fuel) total (x ∷ xs) s
          ≡ write_all_from w fuel
              (total + (w.write (x ∷ xs) s).1)
              (drop (w.write (x ∷ xs) s).1 (x ∷ xs))
              (w.write (x ∷ xs) s).0
    unfolding write_all_from
    step_more fine = ground arith

    step_fail :
        (e : NetError)
        → (w.write (x ∷ xs) s).2 ≡ some e
        → write_all_from w (suc fuel) total (x ∷ xs) s
          ≡ some ((w.write (x ∷ xs) s).0, total + (w.write (x ∷ xs) s).1, some e)
    unfolding write_all_from
    step_fail e failed = ground arith

  -- The outcome of a call that has written k bytes more than the total that it began with.
  pub record Wrote (p : List ℕ) (s t : w.State) (k : ℕ) (err : Option NetError) : Type 0 where
    pub within : k ≤ length p
    pub complete : err ≡ none → k ≡ length p
    pub taken_prefix : w.taken t ≡ w.taken s ++ take k p

  pub write_all_from_lem :
      (fuel total : ℕ) (p : List ℕ) (s : w.State)
      → length p < fuel
      → (t : w.State) × (k : ℕ) × (err : Option NetError) × (write_all_from w fuel total p s
          ≡ some (t, total + k, err))
        × Wrote p s t k err
  unfolding write_all_from
  write_all_from_lem zero total p s h = absurd (omega arith)
  write_all_from_lem (suc fuel) total [] s h = (
    s,
    0,
    none,
    ap (λ n. some (s, n, none)) (omega arith),
    record {
      within = omega arith;
      complete = λ _. refl;
      taken_prefix = sym (append-nil (w.taken s));
    },
  )
  write_all_from_lem (suc fuel) total (x ∷ xs) s h = elim (Option-cases (w.write (x ∷ xs) s).2) [
    | inr (e, failed) ↦ (
      next,
      n,
      some e,
      step_fail fuel total x xs s e failed,
      record { within = w.bounded p s; complete = λ q. cc; taken_prefix = w.takes p s },
    )
    | inl fine ↦
        let more = w.progress p s fine (omega arith) in
        let (t, k, err, ran, wrote) =
          write_all_from_lem fuel (total + n) (drop n p) next
            (omega (arith, w.bounded p s, length-drop n p)) in
        (
          t,
          n + k,
          err,
          step_more fuel total x xs s fine ∙ (ran ∙ ap (λ m. some (t, m, err)) (omega arith)),
          record {
            within = omega (arith, wrote.within, length-drop n p, w.bounded p s);
            complete = λ q. omega (arith, wrote.complete q, length-drop n p, w.bounded p s);
            taken_prefix =
                wrote.taken_prefix
                ∙ ap (λ l. l ++ take k (drop n p)) (w.takes p s)
                ∙ append_assoc (w.taken s) (take n p) (take k (drop n p))
                ∙ ap (λ l. w.taken s ++ l) (sym (take-add n k p));
          },
        )
  ]
    where
      p : List ℕ
      p = x ∷ xs

      n : ℕ
      n = (w.write p s).1

      next : w.State
      next = (w.write p s).0
