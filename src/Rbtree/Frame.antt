-- ===== src/Rbtree/Frame.antt =====
-- The repair of rbtree/rbtree.cpp runs in the same way when more nodes are allocated.
use mathlib.Core.Path.{subst}
use hello_world.Prelude.{
  ℕ, zero, suc, ◌≡◌, refl, sym, ap, Bool, true, false, not, ◌&&◌, ◌==◌, if◌then◌else◌,
}
use hello_world.Outcome.{Outcome, ◌>>=◌, ok, fault, hang}
use hello_world.Rbtree.Nodes.{is_red, Memory, update, red, black}
use hello_world.Rbtree.Rotate.{adopt, replace, rbtree_left_rotate, rbtree_right_rotate}
use hello_world.Rbtree.Delete.{
  lift_right, straighten_right, finish_right, lend_right, shift_left, lift_left, straighten_left,
  finish_left, lend_left, shift_right, shift_round, rbtree_delete_fixup,
}

-- Where `o` gives a result, `o'` gives its image under `f`.
pub record Follows {X : Type 0} (f : X → X) (good : X → Type 0) (o o' : Outcome X) : Type 0 where
  pub run : (v : X) → o ≡ ok v → (o' ≡ ok (f v)) × good v

module _ {X : Type 0} {f : X → X} {good : X → Type 0} where
  pub follow_ok : (v : X) → good v → Follows f good (ok v) (ok (f v))
  follow_ok v g = record {
    run = λ w e. let same : v ≡ w = cc in (ap (λ q. ok (f q)) same, subst good same g);
  }

  pub follow_if :
      (b : Bool) {o₁ o₁' o₂ o₂' : Outcome X}
      → Follows f good o₁ o₁'
      → Follows f good o₂ o₂'
      → Follows f good (if b then o₁ else o₂) (if b then o₁' else o₂')
  follow_if true yes_case no_case = yes_case
  follow_if false yes_case no_case = no_case

  -- A read or a write, which wants its node allocated.
  follow_guard :
      {A : Type 0} (k k' : A → Outcome X) (b b' : Bool) (v v' : A)
      → (b ≡ true → b' ≡ true)
      → Follows f good (k v) (k' v')
      → Follows f good ((if b then ok v else fault) >>= k) ((if b' then ok v' else fault) >>= k')
  follow_guard k k' true b' v v' more next =
      subst (λ q. Follows f good (k v) ((if q then ok v' else fault) >>= k')) (sym (more refl)) next
  follow_guard k k' false b' v v' more next = record { run = λ w e. absurd (cc) }

  follow_last :
      (b b' : Bool) (v : X)
      → (b ≡ true → b' ≡ true)
      → good v
      → Follows f good (if b then ok v else fault) (if b' then ok (f v) else fault)
  follow_last true b' v more g =
      subst (λ q. Follows f good (ok v) (if q then ok (f v) else fault)) (sym (more refl))
        (follow_ok v g)
  follow_last false b' v more g = record { run = λ w e. absurd (cc) }

  follow_bind :
      {A : Type 0} {g : A → A} {fine : A → Type 0} (o o' : Outcome A) (k k' : A → Outcome X)
      → Follows g fine o o'
      → ((v : A) → fine v → Follows f good (k v) (k' (g v)))
      → Follows f good (o >>= k) (o' >>= k')
  follow_bind (ok v) o' k k' first next = record {
    run = λ w e.
        let (e', fine_v) = first.run v refl in
        let (e'', good_w) = (next v fine_v).run w e in
        (subst (λ q. (q >>= k') ≡ ok (f w)) (sym e') e'', good_w);
  }
  follow_bind fault o' k k' first next = record { run = λ w e. absurd (cc) }
  follow_bind hang o' k k' first next = record { run = λ w e. absurd (cc) }

module _ (more : ℕ → Bool) where
  abbrev pub grown : Memory → Memory
  grown m = record m { alive = more }

  abbrev grown_at : ℕ × Memory → ℕ × Memory
  grown_at out = (out.0, grown out.1)

  abbrev pub Less : Memory → Type 0
  Less m = (p : ℕ) → m.alive p ≡ true → more p ≡ true

  abbrev LessAt : ℕ × Memory → Type 0
  LessAt out = Less out.1

  -- A read, and the rest; a write, and the rest.
  reads :
      {X : Type 0} {f : X → X} {good : X → Type 0} {A : Type 0} (k k' : A → Outcome X) (m : Memory)
      (p : ℕ) (v : A)
      → Less m
      → Follows f good (k v) (k' v)
      → Follows f good
          ((if m.alive p then ok v else fault) >>= k)
          ((if more p then ok v else fault) >>= k')
  reads k k' m p v less next = follow_guard k k' (m.alive p) (more p) v v (less p) next

  writes :
      {X : Type 0} {f : X → X} {good : X → Type 0} (k k' : Memory → Outcome X) (m m' : Memory)
      (p : ℕ)
      → Less m
      → Follows f good (k m') (k' (grown m'))
      → Follows f good
          ((if m.alive p then ok m' else fault) >>= k)
          ((if more p then ok (grown m') else fault) >>= k')
  writes k k' m m' p less next = follow_guard k k' (m.alive p) (more p) m' (grown m') (less p) next

  adopt-Follows :
      (c x : ℕ) (m : Memory) → Less m → Follows grown Less (adopt c x m) (adopt c x (grown m))
  unfolding adopt
  adopt-Follows c x m less =
      follow_if (c == m.nil) (follow_ok m less)
        (follow_last (m.alive c) (more c) (record m { parent = update m.parent c x }) (less c) less)

  replace-Follows :
      (x y : ℕ) (m : Memory) → Less m → Follows grown Less (replace x y m) (replace x y (grown m))
  unfolding replace
  replace-Follows x y m less =
      let p = m.parent x in
      reads _ _ m x p less (
        follow_if (p == m.nil) (follow_ok (record m { root = y }) less) (
          reads _ _ m p (m.left p) less (
            follow_if (x == m.left p)
              (follow_last (m.alive p) (more p) (record m { left = update m.left p y }) (less p)
                less)
              (follow_last (m.alive p) (more p) (record m { right = update m.right p y }) (less p)
                less))))

  left_rotate-Follows :
      (x : ℕ) (m : Memory)
      → Less m
      → Follows grown Less (rbtree_left_rotate x m) (rbtree_left_rotate x (grown m))
  unfolding rbtree_left_rotate
  left_rotate-Follows x m less =
      let y = m.right x in
      let b = m.left y in
      let m₁ = record m { right = update m.right x b } in
      reads _ _ m x y less (
        reads _ _ m y b less (
          writes _ _ m m₁ x less (
            follow_bind _ _ _ _ (adopt-Follows b x m₁ less) (λ m₂ less₂.
              reads _ _ m₂ x (m₂.parent x) less₂ (
                writes _ _ m₂ (record m₂ { parent = update m₂.parent y (m₂.parent x) }) y less₂
                  (follow_bind _ _ _ _
                    (replace-Follows x y (record m₂ { parent = update m₂.parent y (m₂.parent x) })
                      less₂)
                    (λ m₄ less₄.
                      writes _ _ m₄ (record m₄ { left = update m₄.left y x }) y less₄
                        (follow_last (m₄.alive x) (more x)
                          (record m₄ { left = update m₄.left y x; parent = update m₄.parent x y })
                          (less₄ x) less₄))))))))

  right_rotate-Follows :
      (x : ℕ) (m : Memory)
      → Less m
      → Follows grown Less (rbtree_right_rotate x m) (rbtree_right_rotate x (grown m))
  unfolding rbtree_right_rotate
  right_rotate-Follows x m less =
      let y = m.left x in
      let b = m.right y in
      let m₁ = record m { left = update m.left x b } in
      reads _ _ m x y less (
        reads _ _ m y b less (
          writes _ _ m m₁ x less (
            follow_bind _ _ _ _ (adopt-Follows b x m₁ less) (λ m₂ less₂.
              reads _ _ m₂ x (m₂.parent x) less₂ (
                writes _ _ m₂ (record m₂ { parent = update m₂.parent y (m₂.parent x) }) y less₂
                  (follow_bind _ _ _ _
                    (replace-Follows x y (record m₂ { parent = update m₂.parent y (m₂.parent x) })
                      less₂)
                    (λ m₄ less₄.
                      writes _ _ m₄ (record m₄ { right = update m₄.right y x }) y less₄
                        (follow_last (m₄.alive x) (more x)
                          (record m₄ { right = update m₄.right y x; parent = update m₄.parent x y })
                          (less₄ x) less₄))))))))

  lift_right-Follows :
      (x p w : ℕ) (m : Memory)
      → Less m
      → Follows grown_at LessAt (lift_right x p w m) (lift_right x p w (grown m))
  unfolding lift_right
  lift_right-Follows x p w m less =
      let m₁ = record m { color = update m.color w black } in
      let m₂ = record m₁ { color = update m₁.color p red } in
      writes _ _ m m₁ w less (
        writes _ _ m₁ m₂ p less (
          follow_bind _ _ _ _ (left_rotate-Follows p m₂ less) (λ m₃ less₃.
            reads _ _ m₃ x (m₃.parent x) less₃ (
              reads _ _ m₃ (m₃.parent x) (m₃.right (m₃.parent x)) less₃
                (follow_ok (m₃.right (m₃.parent x), m₃) less₃)))))

  straighten_right-Follows :
      (x w : ℕ) (m : Memory)
      → Less m
      → Follows grown_at LessAt (straighten_right x w m) (straighten_right x w (grown m))
  unfolding straighten_right
  straighten_right-Follows x w m less =
      let l = m.left w in
      let m₁ = record m { color = update m.color l black } in
      let m₂ = record m₁ { color = update m₁.color w red } in
      reads _ _ m w l less (
        writes _ _ m m₁ l less (
          writes _ _ m₁ m₂ w less (
            follow_bind _ _ _ _ (right_rotate-Follows w m₂ less) (λ m₃ less₃.
              reads _ _ m₃ x (m₃.parent x) less₃ (
                reads _ _ m₃ (m₃.parent x) (m₃.right (m₃.parent x)) less₃
                  (follow_ok (m₃.right (m₃.parent x), m₃) less₃))))))

  finish_right-Follows :
      (x w : ℕ) (m : Memory)
      → Less m
      → Follows grown_at LessAt (finish_right x w m) (finish_right x w (grown m))
  unfolding finish_right
  finish_right-Follows x w m less =
      let p = m.parent x in
      let m₁ = record m { color = update m.color w (m.color p) } in
      let m₂ = record m₁ { color = update m₁.color p black } in
      let r = m.right w in
      let m₃ = record m₂ { color = update m₂.color r black } in
      reads _ _ m x p less (
        reads _ _ m p (m.color p) less (
          writes _ _ m m₁ w less (
            writes _ _ m₁ m₂ p less (
              reads _ _ m₂ w r less (
                writes _ _ m₂ m₃ r less (
                  follow_bind _ _ _ _ (left_rotate-Follows p m₃ less)
                    (λ m₄ less₄. follow_ok (m₄.root, m₄) less₄)))))))

  lend_right-Follows :
      (x w : ℕ) (m : Memory)
      → Less m
      → Follows grown_at LessAt (lend_right x w m) (lend_right x w (grown m))
  unfolding lend_right
  lend_right-Follows x w m less =
      let l = m.left w in
      let r = m.right w in
      let m₁ = record m { color = update m.color w red } in
      reads _ _ m w l less (
        reads _ _ m l (m.color l) less (
          reads _ _ m w r less (
            reads _ _ m r (m.color r) less (
              follow_if (not (is_red (m.color l)) && not (is_red (m.color r)))
                (writes _ _ m m₁ w less
                  (reads _ _ m₁ x (m₁.parent x) less (follow_ok (m₁.parent x, m₁) less)))
                (follow_bind _ _ _ _
                  (follow_if (is_red (m.color r)) (follow_ok (w, m) less)
                    (straighten_right-Follows x w m less))
                  (λ out less'. finish_right-Follows x out.0 out.1 less'))))))

  shift_left-Follows :
      (x : ℕ) (m : Memory)
      → Less m
      → Follows grown_at LessAt (shift_left x m) (shift_left x (grown m))
  unfolding shift_left
  shift_left-Follows x m less =
      let p = m.parent x in
      let w = m.right p in
      reads _ _ m x p less (
        reads _ _ m p w less (
          reads _ _ m w (m.color w) less (
            follow_bind _ _ _ _
              (follow_if (is_red (m.color w)) (lift_right-Follows x p w m less)
                (follow_ok (w, m) less))
              (λ out less'. lend_right-Follows x out.0 out.1 less'))))

  lift_left-Follows :
      (x p w : ℕ) (m : Memory)
      → Less m
      → Follows grown_at LessAt (lift_left x p w m) (lift_left x p w (grown m))
  unfolding lift_left
  lift_left-Follows x p w m less =
      let m₁ = record m { color = update m.color w black } in
      let m₂ = record m₁ { color = update m₁.color p red } in
      writes _ _ m m₁ w less (
        writes _ _ m₁ m₂ p less (
          follow_bind _ _ _ _ (right_rotate-Follows p m₂ less) (λ m₃ less₃.
            reads _ _ m₃ x (m₃.parent x) less₃ (
              reads _ _ m₃ (m₃.parent x) (m₃.left (m₃.parent x)) less₃
                (follow_ok (m₃.left (m₃.parent x), m₃) less₃)))))

  straighten_left-Follows :
      (x w : ℕ) (m : Memory)
      → Less m
      → Follows grown_at LessAt (straighten_left x w m) (straighten_left x w (grown m))
  unfolding straighten_left
  straighten_left-Follows x w m less =
      let l = m.right w in
      let m₁ = record m { color = update m.color l black } in
      let m₂ = record m₁ { color = update m₁.color w red } in
      reads _ _ m w l less (
        writes _ _ m m₁ l less (
          writes _ _ m₁ m₂ w less (
            follow_bind _ _ _ _ (left_rotate-Follows w m₂ less) (λ m₃ less₃.
              reads _ _ m₃ x (m₃.parent x) less₃ (
                reads _ _ m₃ (m₃.parent x) (m₃.left (m₃.parent x)) less₃
                  (follow_ok (m₃.left (m₃.parent x), m₃) less₃))))))

  finish_left-Follows :
      (x w : ℕ) (m : Memory)
      → Less m
      → Follows grown_at LessAt (finish_left x w m) (finish_left x w (grown m))
  unfolding finish_left
  finish_left-Follows x w m less =
      let p = m.parent x in
      let m₁ = record m { color = update m.color w (m.color p) } in
      let m₂ = record m₁ { color = update m₁.color p black } in
      let r = m.left w in
      let m₃ = record m₂ { color = update m₂.color r black } in
      reads _ _ m x p less (
        reads _ _ m p (m.color p) less (
          writes _ _ m m₁ w less (
            writes _ _ m₁ m₂ p less (
              reads _ _ m₂ w r less (
                writes _ _ m₂ m₃ r less (
                  follow_bind _ _ _ _ (right_rotate-Follows p m₃ less)
                    (λ m₄ less₄. follow_ok (m₄.root, m₄) less₄)))))))

  lend_left-Follows :
      (x w : ℕ) (m : Memory)
      → Less m
      → Follows grown_at LessAt (lend_left x w m) (lend_left x w (grown m))
  unfolding lend_left
  lend_left-Follows x w m less =
      let r = m.right w in
      let l = m.left w in
      let m₁ = record m { color = update m.color w red } in
      reads _ _ m w l less (
        reads _ _ m l (m.color l) less (
          reads _ _ m w r less (
            reads _ _ m r (m.color r) less (
              follow_if (not (is_red (m.color l)) && not (is_red (m.color r)))
                (writes _ _ m m₁ w less
                  (reads _ _ m₁ x (m₁.parent x) less (follow_ok (m₁.parent x, m₁) less)))
                (follow_bind _ _ _ _
                  (follow_if (is_red (m.color l)) (follow_ok (w, m) less)
                    (straighten_left-Follows x w m less))
                  (λ out less'. finish_left-Follows x out.0 out.1 less'))))))

  shift_right-Follows :
      (x : ℕ) (m : Memory)
      → Less m
      → Follows grown_at LessAt (shift_right x m) (shift_right x (grown m))
  unfolding shift_right
  shift_right-Follows x m less =
      let p = m.parent x in
      let w = m.left p in
      reads _ _ m x p less (
        reads _ _ m p w less (
          reads _ _ m w (m.color w) less (
            follow_bind _ _ _ _
              (follow_if (is_red (m.color w)) (lift_left-Follows x p w m less)
                (follow_ok (w, m) less))
              (λ out less'. lend_left-Follows x out.0 out.1 less'))))

  shift_round-Follows :
      (x : ℕ) (m : Memory)
      → Less m
      → Follows grown_at LessAt (shift_round x m) (shift_round x (grown m))
  unfolding shift_round
  shift_round-Follows x m less =
      let p = m.parent x in
      reads _ _ m x p less (
        reads _ _ m p (m.left p) less
          (follow_if (x == m.left p) (shift_left-Follows x m less) (shift_right-Follows x m less)))

  pub delete_fixup-Follows :
      (fuel x : ℕ) (m : Memory)
      → Less m
      → Follows grown Less (rbtree_delete_fixup fuel x m) (rbtree_delete_fixup fuel x (grown m))
  unfolding rbtree_delete_fixup
  delete_fixup-Follows zero x m less = record { run = λ w e. absurd (cc) }
  delete_fixup-Follows (suc fuel) x m less =
      let m₁ = record m { color = update m.color x black } in
      let again =
        follow_bind _ _ _ _ (shift_round-Follows x m less)
          (λ out less'. delete_fixup-Follows fuel out.0 out.1 less') in
      follow_if (x == m.root) (follow_last (m.alive x) (more x) m₁ (less x) less) (
        reads _ _ m x (m.color x) less (
          follow_if (is_red (m.color x)) (follow_last (m.alive x) (more x) m₁ (less x) less) again))
