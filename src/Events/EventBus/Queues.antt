-- ===== src/Events/EventBus/Queues.antt =====
-- A full queue drops its oldest event.
use lavs_core.Prelude.{
  ℕ, zero, suc, ◌+◌, ◌-◌, ◌<◌, ◌≤◌, ◌≡◌, refl, ap, sym, ◌∙◌, List, [], ◌∷◌, ◌++◌, arith, leb,
  length, length-append, Bool-cases, inl, inr,
}
use lavs_core.Events.EventBus.{queue_maxsize, deliver}

module _ {A : Type 0} where
  abbrev pub drop : ℕ → List A → List A
  drop zero xs = xs
  drop (suc n) [] = []
  drop (suc n) (x ∷ xs) = drop n xs

  -- The last `n` elements.
  abbrev pub last_n : ℕ → List A → List A
  last_n n xs = drop (length xs - n) xs

  pub length-drop : (n : ℕ) (xs : List A) → length (drop n xs) ≡ length xs - n
  length-drop zero xs = omega arith
  length-drop (suc n) [] = omega arith
  length-drop (suc n) (x ∷ xs) = omega (arith, length-drop n xs)

  drop-append : (n : ℕ) (xs ys : List A) → n ≤ length xs → drop n (xs ++ ys) ≡ drop n xs ++ ys
  drop-append zero xs ys h = refl
  drop-append (suc n) [] ys h = absurd (omega arith)
  drop-append (suc n) (x ∷ xs) ys h = drop-append n xs ys (omega arith)

  drop_eq : {m n : ℕ} (xs : List A) → m ≡ n → drop m xs ≡ drop n xs
  drop_eq xs e = ap (λ (k : ℕ). drop k xs) e

  drop-nil : (n : ℕ) → drop n [] ≡ []
  drop-nil zero = refl
  drop-nil (suc n) = refl

  drop-drop : (m n : ℕ) (xs : List A) → drop m (drop n xs) ≡ drop (n + m) xs
  drop-drop m zero xs = drop_eq {m = m} {n = zero + m} xs (omega arith)
  drop-drop m (suc n) [] = drop-nil m ∙ sym (drop-nil (suc n + m))
  drop-drop m (suc n) (x ∷ xs) =
      drop-drop m n xs ∙ drop_eq {m = suc (n + m)} {n = suc n + m} (x ∷ xs) (omega arith)

  deliver-full :
      (x : A) (rest : List A) (event : A)
      → length (x ∷ rest) ≡ queue_maxsize
      → deliver (x ∷ rest) event ≡ rest ++ event ∷ []
  unfolding deliver
  deliver-full x rest event h = ground arith

  deliver-room :
      (queue : List A) (event : A)
      → length queue < queue_maxsize
      → deliver queue event ≡ queue ++ event ∷ []
  unfolding deliver
  deliver-room queue event h = ground arith

  -- A delivery keeps the newest events: the queue holds the last `queue_maxsize` events of what it
  -- held and the new one.
  pub deliver-eq-last_n :
      (queue : List A) (event : A)
      → length queue ≤ queue_maxsize
      → deliver queue event ≡ last_n queue_maxsize (queue ++ event ∷ [])
  deliver-eq-last_n [] event h = deliver-room [] event (omega arith)
  deliver-eq-last_n (x ∷ rest) event h =
      let size = length-append (x ∷ rest) (event ∷ []) in
      elim (Bool-cases (leb queue_maxsize (length (x ∷ rest)))) [
        | inl full ↦
            deliver-full x rest event (ground arith)
            ∙ drop_eq {m = 1} {n = length ((x ∷ rest) ++ event ∷ []) - queue_maxsize}
                ((x ∷ rest) ++ event ∷ []) (ground (arith, size))
        | inr room ↦
            deliver-room (x ∷ rest) event (ground arith)
            ∙ drop_eq {m = 0} {n = length ((x ∷ rest) ++ event ∷ []) - queue_maxsize}
                ((x ∷ rest) ++ event ∷ []) (ground (arith, size))
      ]

  pub length-deliver :
      (queue : List A) (event : A)
      → length queue ≤ queue_maxsize
      → length (deliver queue event) ≤ queue_maxsize
  length-deliver queue event h = omega (
    arith,
    ap length (deliver-eq-last_n queue event h),
    length-drop (length (queue ++ event ∷ []) - queue_maxsize) (queue ++ event ∷ []),
  )

  -- Delivering after a bounded past is delivering after the whole past.
  pub last_n-append : (n : ℕ) (xs ys : List A) → last_n n (last_n n xs ++ ys) ≡ last_n n (xs ++ ys)
  last_n-append n xs ys =
      let k = length xs - n in
      let short : length (last_n n xs ++ ys) ≡ length xs - k + length ys =
        omega (arith, length-append (last_n n xs) ys, length-drop k xs) in
      drop_eq {m = length (last_n n xs ++ ys) - n} {n = length xs - k + length ys - n}
        (last_n n xs ++ ys) (ap (λ (m : ℕ). m - n) short)
      ∙ (ap (drop (length xs - k + length ys - n)) (sym (drop-append k xs ys (omega arith)))
          ∙ (drop-drop (length xs - k + length ys - n) k (xs ++ ys)
              ∙ drop_eq {m = k + (length xs - k + length ys - n)} {n = length (xs ++ ys) - n}
                  (xs ++ ys) (total (omega (arith, length-append xs ys)))))
    where
      total :
          length (xs ++ ys) ≡ length xs + length ys
          → length xs - n + (length xs - (length xs - n) + length ys - n) ≡ length (xs ++ ys) - n
      total e = omega arith

  pub last_n_short : (n : ℕ) (xs : List A) → length xs ≤ n → last_n n xs ≡ xs
  last_n_short n xs h = drop_eq {m = length xs - n} {n = 0} xs (omega arith)
