-- ===== src/Pool/Count.antt =====
-- How many of the first `n` members of a family count, and what a change at one place or a run of new
-- members does to that number.
use native.Mathlib.Decide.{ℕ_discrete as dec_eq}
use hello_world.Prelude.{ℕ, zero, suc, ◌+◌, ◌≤◌, ◌<◌, ◌≡◌, refl, true, false, arith, ◌==◌}
use hello_world.Pool.System.{put_at}

-- The sum of the weights.
unfoldable pub tally : {A : Type 0} → (A → ℕ) → ℕ → (ℕ → A) → ℕ
tally w zero f = 0
tally w (suc n) f = w (f n) + tally w n f

module _ {A : Type 0} (w : A → ℕ) where
  tally-beyond : (n i : ℕ) (f : ℕ → A) (a : A) → n ≤ i → tally w n (put_at f i a) ≡ tally w n f
  unfolding tally
  tally-beyond zero i f a h = refl
  tally-beyond (suc n) i f a h =
      let other : (i == n) ≡ false = ground arith in
      rw (other, tally-beyond n i f a (omega arith)) refl

  pub tally-put_at :
      (n i : ℕ) (f : ℕ → A) (a : A) → i < n → tally w n (put_at f i a) + w (f i) ≡ tally w n f + w a
  unfolding tally
  tally-put_at zero i f a h = absurd (omega arith)
  tally-put_at (suc n) i f a h = elim (dec_eq i n) [
    | yes e ↦
        let here : (i == n) ≡ true = ground arith in
        rw (here, tally-beyond n i f a (omega arith), e) (omega arith)
    | no ne ↦
        let other : (i == n) ≡ false = ground arith in
        rw other (omega (arith, tally-put_at n i f a (omega arith)))
  ]

  pub tally-same : (n : ℕ) (f g : ℕ → A) → ((i : ℕ) → i < n → f i ≡ g i) → tally w n f ≡ tally w n g
  unfolding tally
  tally-same zero f g h = refl
  tally-same (suc n) f g h =
      rw (h n (omega arith), tally-same n f g (λ i lt. h i (omega arith))) refl
