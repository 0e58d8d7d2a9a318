-- ===== src/Auth/Signup/Mailbox.antt =====
-- The ring buffer of the mailer.
use lavs_core.Prelude.{
  ℕ, ◌≡◌, ◌≤◌, ◌<◌, refl, ap, sym, ◌∙◌, inl, inr, some, List, [], ◌∷◌, ◌++◌, reverse, arith, leb,
  length, Bool-cases,
}
use mathlib.Core.List.{reverse-cons}
use lavs_core.Text.{text_eq_iff}
use lavs_core.Auth.Signup.{CapturedEmail, CaptureMailer, trim, send, last_for}

pub length-trim-le : (n : ℕ) (ms : List CapturedEmail) → length (trim n ms) ≤ n
unfolding trim
length-trim-le n [] = omega arith
length-trim-le n (m ∷ ms) = ground (arith, length-trim-le n ms)

-- The newest message stays.
trim-append :
    (n : ℕ) (ms : List CapturedEmail) (m : CapturedEmail)
    → 0 < n
    → (kept : List CapturedEmail) × (trim n (ms ++ m ∷ []) ≡ kept ++ m ∷ [])
unfolding trim
trim-append n [] m h = ([], ground arith)
trim-append n (x ∷ ms) m h =
    let (kept, e) = trim-append n ms m h in
    elim (Bool-cases (leb (length (x ∷ ms ++ m ∷ [])) n)) [
      | inl fits ↦ (x ∷ ms, rw fits refl)
      | inr full ↦ (kept, rw full e)
    ]

reverse-append_one :
    (ms : List CapturedEmail) (m : CapturedEmail) → reverse (ms ++ m ∷ []) ≡ m ∷ reverse ms
reverse-append_one [] m = refl
reverse-append_one (x ∷ ms) m =
    reverse-cons x (ms ++ m ∷ [])
    ∙ (ap (λ (ys : List CapturedEmail). ys ++ x ∷ []) (reverse-append_one ms m)
        ∙ ap (λ (ys : List CapturedEmail). m ∷ ys) (sym (reverse-cons x ms)))

-- The message that was sent last is the last one to its recipient, if the buffer has room for one.
pub last_for-send :
    (m : CapturedEmail) (mailer : CaptureMailer)
    → 0 < mailer.maxlen
    → last_for m.to (send m mailer) ≡ some m
unfolding last_for send
last_for-send m mailer h =
    let (kept, e) = trim-append mailer.maxlen mailer.messages m h in
    rw (e, reverse-append_one kept m, (text_eq_iff m.to m.to).1 refl) refl
