-- ===== src/Sync/Session/Chunks.antt =====
-- The frames of a transfer hold every unit once, in order, and a bounded number each.
use rs_converge.Prelude.{
  ℕ, zero, suc, ◌≡◌, refl, ap, ◌≤◌, ◌<◌, List, [], ◌∷◌, ◌++◌, arith, length, take, drop, All,
  length-drop,
}
use rs_converge.Sync.Session.Transfer.{chunk, chunks}

unfoldable pub concat {ℓ} : {A : Type ℓ} → List (List A) → List A
concat [] = []
concat (xs ∷ xss) = xs ++ concat xss

module _ {ℓ} {A : Type ℓ} where
  take-drop : (n : ℕ) (xs : List A) → take n xs ++ drop n xs ≡ xs
  take-drop zero xs = refl
  take-drop (suc n) [] = refl
  take-drop (suc n) (x ∷ xs) = ap (λ ys. x ∷ ys) (take-drop n xs)

  length-take_le : (n : ℕ) (xs : List A) → length (take n xs) ≤ n
  length-take_le zero xs = omega arith
  length-take_le (suc n) [] = omega arith
  length-take_le (suc n) (x ∷ xs) = omega (arith, length-take_le n xs)

  concat-chunk :
      (fuel n : ℕ) (xs : List A) → 0 < n → length xs ≤ fuel → concat (chunk fuel n xs) ≡ xs
  unfolding chunk concat
  concat-chunk zero n [] h e = refl
  concat-chunk zero n (x ∷ xs) h e = absurd (omega arith)
  concat-chunk (suc fuel) n [] h e = refl
  concat-chunk (suc fuel) n (x ∷ xs) h e =
      let rest : length (drop n (x ∷ xs)) ≤ fuel = omega (arith, length-drop n (x ∷ xs)) in
      rw (concat-chunk fuel n (drop n (x ∷ xs)) h rest) (take-drop n (x ∷ xs))

  chunk-bounded : (fuel n : ℕ) (xs : List A) → All (λ c. length c ≤ n) (chunk fuel n xs)
  unfolding chunk
  chunk-bounded zero n xs = tt
  chunk-bounded (suc fuel) n [] = tt
  chunk-bounded (suc fuel) n (x ∷ xs) =
      (length-take_le n (x ∷ xs), chunk-bounded fuel n (drop n (x ∷ xs)))

  -- The chunks of a list are the list, with no more than `n` items each, for `n` other than 0.
  pub concat-chunks :
      (n : ℕ) (xs : List A)
      → 0 < n
      → (concat (chunks n xs) ≡ xs) × All (λ c. length c ≤ n) (chunks n xs)
  unfolding chunks
  concat-chunks n xs h =
      (concat-chunk (length xs) n xs h (omega arith), chunk-bounded (length xs) n xs)
