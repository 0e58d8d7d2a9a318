-- ===== src/Auth/Signup/Email.antt =====
-- The test of an address against the pattern of sign-up.
use lavs_core.Prelude.{
  ◌≡◌, refl, sym, ap, ◌∙◌, subst, ◌↔◌, inl, inr, true, false, ◌&&◌, ◌||◌, List, [], ◌∷◌, ◌++◌,
  arith, any, ◌==◌, Bool-cases, All-append,
}
use mathlib.Core.List.{append_assoc, append-nil}
use lavs_core.Text.{Text, split, is_space}
use lavs_core.Text.Split.{Lacks, split-append, split-word, rejoin, rejoin-split}
use lavs_core.Auth.Signup.{is_word, matches_domain, matches_parts, matches_email}

-- `[^@\s]+\.[^@\s]+`
abbrev pub IsDomain : Text → Type 0
IsDomain t =
    (host : Text) × (tld : Text) × (t ≡ host ++ b'.' ∷ tld)
    × (is_word host ≡ true)
    × (is_word tld ≡ true)

-- `[^@\s]+@[^@\s]+\.[^@\s]+`
abbrev pub IsEmail : Text → Type 0
IsEmail t =
    (local : Text) × (domain : Text) × (t ≡ local ++ b'@' ∷ domain)
    × (is_word local ≡ true)
    × IsDomain domain

-- The search for the dot, with the text before it.
domain_found :
    (head t : Text)
    → matches_domain head t ≡ true
    → (host : Text) × (tld : Text) × (head ++ t ≡ host ++ b'.' ∷ tld)
      × (is_word host ≡ true)
      × (is_word tld ≡ true)
unfolding matches_domain
domain_found head [] h = cc
domain_found head (c ∷ cs) h = elim (Bool-cases (c == b'.' && (is_word head && is_word cs))) [
  | inl e ↦ (head, cs, rw (dot e) refl, ground arith, ground arith)
  | inr e ↦
      let (host, tld, is, w, v) = domain_found (head ++ c ∷ []) cs (ground arith) in
      (host, tld, sym (append_assoc head (c ∷ []) cs) ∙ is, w, v)
]
  where
    dot : c == b'.' && (is_word head && is_word cs) ≡ true → c ≡ b'.'
    dot e = ground arith

domain_matched :
    (head host tld : Text)
    → is_word (head ++ host) ≡ true
    → is_word tld ≡ true
    → matches_domain head (host ++ b'.' ∷ tld) ≡ true
unfolding matches_domain
domain_matched head [] tld h t =
    let word : is_word head ≡ true = subst (λ (w : Text). is_word w ≡ true) (append-nil head) h in
    ground arith
domain_matched head (c ∷ host) tld h t =
    let rest =
      domain_matched (head ++ c ∷ []) host tld (rw (append_assoc head (c ∷ []) host) h) t in
    ground arith

Lacks-of_word : (word : Text) → is_word word ≡ true → Lacks b'@' word
Lacks-of_word word h = lacks word (ground arith)
  where
    lacks : (w : Text) → any (λ c. c == b'@' || is_space c) w ≡ false → Lacks b'@' w
    lacks [] e = tt
    lacks (c ∷ cs) e = (ground arith, lacks cs (ground arith))

Lacks-domain : (domain : Text) → IsDomain domain → Lacks b'@' domain
Lacks-domain domain (host, tld, is, h, t) = rw is (
    All-append (λ c. (c == b'@') ≡ false) host (b'.' ∷ tld) (Lacks-of_word host h)
      (refl, Lacks-of_word tld t))

two_parts :
    (parts : List Text)
    → matches_parts parts ≡ true
    → (local : Text) × (domain : Text) × (parts ≡ local ∷ domain ∷ [])
      × (is_word local ≡ true)
      × (matches_domain [] domain ≡ true)
unfolding matches_parts
two_parts [] h = cc
two_parts (l ∷ []) h = cc
two_parts (l ∷ d ∷ []) h = (l, d, refl, ground arith, ground arith)
two_parts (l ∷ d ∷ m ∷ parts) h = cc

matched :
    (local domain : Text)
    → is_word local ≡ true
    → matches_domain [] domain ≡ true
    → matches_parts (local ∷ domain ∷ []) ≡ true
unfolding matches_parts
matched local domain l d = ground arith

-- A text is accepted exactly if it is a word, an `@`, a word, a dot and a word, where a word is
-- nonempty text without `@` and without white space.
pub matches_email_iff : (t : Text) → (matches_email t ≡ true) ↔ IsEmail t
unfolding matches_email
matches_email_iff t = (taken_apart, put_together)
  where
    taken_apart : matches_email t ≡ true → IsEmail t
    taken_apart h =
        let (local, domain, is, l, d) = two_parts (split b'@' t) h in
        (
          local,
          domain,
          sym (rejoin-split b'@' t) ∙ ap (rejoin b'@') is,
          l,
          domain_found [] domain d,
        )

    put_together : IsEmail t → matches_email t ≡ true
    put_together (local, domain, is, l, d) =
        let parts : split b'@' t ≡ local ∷ domain ∷ [] =
          ap (split b'@') is
          ∙ split-append b'@' local domain (Lacks-of_word local l)
          ∙ ap (λ (ws : List Text). local ∷ ws) (split-word b'@' domain (Lacks-domain domain d)) in
        let (host, tld, eq, h, w) = d in
        rw parts (matched local domain l (rw eq (domain_matched [] host tld h w)))
