-- ===== src/Watcher/Overflow.antt =====
-- The bounded queue between the watch thread and the dispatch loop.
use ai_devops_copilot.Base.{
  ℕ, zero, suc, ◌+◌, ◌-◌, ◌≤◌, ◌<◌, inl, inr, ◌≡◌, refl, sym, ap, ◌∙◌, false, none, some, List, [],
  ◌∷◌, ◌++◌, arith, ltb, length, drop, length-append, Bool-cases,
}
use ai_devops_copilot.Watcher.{is_full, put_nowait, without_oldest, or_else, enqueue_or_drop}

module _ {ℓ} {A : Type ℓ} where
  -- the last `maxsize` entries
  abbrev pub newest : ℕ → List A → List A
  newest maxsize xs = drop (length xs - maxsize) xs

  unfoldable pub enqueue_all : ℕ → List A → List A → List A
  enqueue_all maxsize queue [] = queue
  enqueue_all maxsize queue (event ∷ events) =
      enqueue_all maxsize (enqueue_or_drop maxsize queue event) events

  length-drop : (n : ℕ) (xs : List A) → length (drop n xs) ≡ length xs - n
  length-drop zero xs = omega arith
  length-drop (suc n) [] = omega arith
  length-drop (suc n) (x ∷ xs) = omega (arith, length-drop n xs)

  drop-nil : (n : ℕ) → drop {A = A} n [] ≡ []
  drop-nil zero = refl
  drop-nil (suc n) = refl

  drop-drop : (m n k : ℕ) (xs : List A) → n + m ≡ k → drop m (drop n xs) ≡ drop k xs
  drop-drop m zero k xs e = ap (λ j. drop j xs) (omega (arith, e))
  drop-drop m (suc n) k [] e = drop-nil m ∙ sym (drop-nil k)
  drop-drop m (suc n) zero (x ∷ xs) e = absurd (omega (arith, e))
  drop-drop m (suc n) (suc k) (x ∷ xs) e = drop-drop m n k xs (omega (arith, e))

  drop-append : (n : ℕ) (xs ys : List A) → n ≤ length xs → drop n xs ++ ys ≡ drop n (xs ++ ys)
  drop-append zero xs ys h = refl
  drop-append (suc n) [] ys h = absurd (omega (arith, h))
  drop-append (suc n) (x ∷ xs) ys h = drop-append n xs ys (omega (arith, h))

  append-nil : (xs : List A) → xs ++ [] ≡ xs
  append-nil [] = refl
  append-nil (x ∷ xs) = ap (◌∷◌ x) (append-nil xs)

  append_assoc : (xs ys zs : List A) → (xs ++ ys) ++ zs ≡ xs ++ (ys ++ zs)
  append_assoc [] ys zs = refl
  append_assoc (x ∷ xs) ys zs = ap (◌∷◌ x) (append_assoc xs ys zs)

  put-room :
      (maxsize : ℕ) (queue : List A) (event : A)
      → length queue < maxsize
      → put_nowait maxsize event queue ≡ some (queue ++ event ∷ [])
  unfolding put_nowait is_full
  put-room maxsize queue event h = ground arith

  put-full :
      (maxsize : ℕ) (queue : List A) (event : A)
      → 1 ≤ maxsize
      → maxsize ≤ length queue
      → put_nowait maxsize event queue ≡ none
  unfolding put_nowait is_full
  put-full maxsize queue event h full = ground arith

  newest-all : (maxsize : ℕ) (xs : List A) → length xs ≤ maxsize → newest maxsize xs ≡ xs
  newest-all maxsize xs h = ap (λ n. drop n xs) {y = 0} (omega (arith, h))

  -- below the bound nothing is lost; at the bound the oldest entry makes room
  enqueue_or_drop-Room :
      (maxsize : ℕ) (queue : List A) (event : A)
      → length queue < maxsize
      → enqueue_or_drop maxsize queue event ≡ newest maxsize (queue ++ event ∷ [])
  unfolding enqueue_or_drop or_else
  enqueue_or_drop-Room maxsize queue event h = rw (
    put-room maxsize queue event h,
    newest-all maxsize (queue ++ event ∷ []) (omega (arith, h, length-append queue (event ∷ []))),
  )

  enqueue_or_drop-Newest :
      (maxsize : ℕ) (queue : List A) (event : A)
      → 1 ≤ maxsize
      → length queue ≤ maxsize
      → enqueue_or_drop maxsize queue event ≡ newest maxsize (queue ++ event ∷ [])
  unfolding enqueue_or_drop or_else without_oldest
  enqueue_or_drop-Newest maxsize [] event h le =
      enqueue_or_drop-Room maxsize [] event (omega (arith, h))
  enqueue_or_drop-Newest maxsize (oldest ∷ queue) event h le =
      elim (Bool-cases (ltb (suc (length queue)) maxsize)) [
        | inl room ↦ enqueue_or_drop-Room maxsize (oldest ∷ queue) event (ground arith)
        | inr full ↦
            rw
              (
                put-full maxsize (oldest ∷ queue) event h (ground arith),
                put-room maxsize queue event (omega (arith, le)),
              )
              (sym (ap (λ n. drop n (oldest ∷ queue ++ event ∷ [])) (one_over full)))
      ]
    where
      one_over :
          ltb (suc (length queue)) maxsize ≡ false
          → suc (length (queue ++ event ∷ [])) - maxsize ≡ 1
      one_over full = ground (arith, length-append queue (event ∷ []))

  newest-length :
      (maxsize : ℕ) (queue : List A) (event : A)
      → 1 ≤ maxsize
      → length queue ≤ maxsize
      → length (enqueue_or_drop maxsize queue event) ≤ maxsize
  newest-length maxsize queue event h le = rw (enqueue_or_drop-Newest maxsize queue event h le) (
      omega (
        arith,
        le,
        length-append queue (event ∷ []),
        length-drop (length (queue ++ event ∷ []) - maxsize) (queue ++ event ∷ []),
      ))

  newest-append :
      (maxsize : ℕ) (xs ys : List A)
      → newest maxsize (newest maxsize xs ++ ys) ≡ newest maxsize (xs ++ ys)
  newest-append maxsize xs ys =
      let d = length xs - maxsize in
      ap (newest maxsize) (drop-append d xs ys (omega arith))
      ∙ drop-drop _ d _ (xs ++ ys) (omega (arith, length-drop d (xs ++ ys), length-append xs ys))

  enqueue_all-Newest_from :
      (maxsize : ℕ) (queue events : List A)
      → 1 ≤ maxsize
      → length queue ≤ maxsize
      → enqueue_all maxsize queue events ≡ newest maxsize (queue ++ events)
  unfolding enqueue_all
  enqueue_all-Newest_from maxsize queue [] h le = sym (
      newest-all maxsize (queue ++ []) (omega (arith, le, length-append queue []))
      ∙ append-nil queue)
  enqueue_all-Newest_from maxsize queue (event ∷ events) h le =
      enqueue_all-Newest_from maxsize (enqueue_or_drop maxsize queue event) events h
        (omega (arith, newest-length maxsize queue event h le))
      ∙ ap (λ q. newest maxsize (q ++ events)) (enqueue_or_drop-Newest maxsize queue event h le)
      ∙ newest-append maxsize (queue ++ event ∷ []) events
      ∙ ap (newest maxsize) (append_assoc queue (event ∷ []) events)

  -- After any sequence of events, a queue of positive size that started empty holds the newest `maxsize` of them, in
  -- the order of their arrival.
  pub enqueue_all-Newest :
      (maxsize : ℕ) (events : List A)
      → 1 ≤ maxsize
      → enqueue_all maxsize [] events ≡ newest maxsize events
  enqueue_all-Newest maxsize events h = enqueue_all-Newest_from maxsize [] events h (omega arith)
