-- ===== src/CacheRoute/Mask.antt =====
-- The password of the address that GET shows.
use deedlit_dev.Base.{
  ℕ, ◌≡◌, refl, ap, ◌∙◌, false, ◌||◌, Option, none, some, [], ◌∷◌, ◌++◌, arith, ◌==◌, All, Text,
  codes,
}
use deedlit_dev.CacheRoute.{after_secret, mask_url}

-- Texts with neither a colon nor an at sign.
abbrev pub IsPlain : Text → Type 0
IsPlain t = All (λ c. (c == b':' || c == b'@') ≡ false) t

after_secret-append :
    (c : ℕ) (secret rest : Text)
    → IsPlain (c ∷ secret)
    → after_secret (c ∷ (secret ++ (b'@' ∷ rest))) ≡ some rest
unfolding after_secret
after_secret-append c [] rest (n, h) = rw n refl
after_secret-append c (d ∷ secret) rest (n, (m, h)) =
    ground (arith, n, m, after_secret-append d secret rest (m, h))

-- No at sign follows before the next colon.
after_secret-colon : (t rest : Text) → IsPlain t → after_secret (t ++ (b':' ∷ rest)) ≡ none
unfolding after_secret
after_secret-colon [] rest h = refl
after_secret-colon (c ∷ []) rest (n, h) = rw n refl
after_secret-colon (c ∷ d ∷ t) rest (n, (m, h)) =
    ground (arith, n, m, after_secret-colon (d ∷ t) rest (m, h))

mask_url-plain : (t s : Text) → IsPlain t → mask_url (t ++ s) ≡ t ++ mask_url s
unfolding mask_url
mask_url-plain [] s h = refl
mask_url-plain (c ∷ t) s (n, h) = ground (arith, n, mask_url-plain t s h)

mask_url-colon :
    (t s : Text)
    → IsPlain t
    → mask_url (b':' ∷ (t ++ (b':' ∷ s))) ≡ b':' ∷ (t ++ mask_url (b':' ∷ s))
unfolding mask_url
mask_url-colon t s h =
    ap
      (λ (o : Option Text). elim o [
        | some u ↦ codes ":***@" ++ u
        | none ↦ b':' ∷ mask_url (t ++ (b':' ∷ s))
      ])
      (after_secret-colon t s h)
    ∙ ap (◌∷◌ b':') (mask_url-plain t (b':' ∷ s) h)

mask_url-secret :
    (c : ℕ) (secret rest : Text)
    → IsPlain (c ∷ secret)
    → mask_url (b':' ∷ (c ∷ (secret ++ (b'@' ∷ rest)))) ≡ codes ":***@" ++ rest
unfolding mask_url
mask_url-secret c secret rest h =
    ap
      (λ (o : Option Text). elim o [
        | some u ↦ codes ":***@" ++ u
        | none ↦ b':' ∷ mask_url (c ∷ (secret ++ (b'@' ∷ rest)))
      ])
      (after_secret-append c secret rest h)

-- In an address `scheme:user:password@rest`, where none of the three has a colon or an at sign (the
-- user with the slashes before it) and the password is not empty, exactly the password is masked.
pub mask_url_lem :
    (scheme user : Text) (c : ℕ) (password rest : Text)
    → IsPlain scheme
    → IsPlain user
    → IsPlain (c ∷ password)
    → mask_url (scheme ++ (b':' ∷ (user ++ (b':' ∷ (c ∷ (password ++ (b'@' ∷ rest)))))))
      ≡ scheme ++ (b':' ∷ (user ++ (codes ":***@" ++ rest)))
mask_url_lem scheme user c password rest s u p =
    mask_url-plain scheme (b':' ∷ (user ++ (b':' ∷ (c ∷ (password ++ (b'@' ∷ rest)))))) s
    ∙ ap (◌++◌ scheme) (mask_url-colon user (c ∷ (password ++ (b'@' ∷ rest))) u)
    ∙ ap (λ r. scheme ++ (b':' ∷ (user ++ r))) (mask_url-secret c password rest p)

-- A colon in the password ends the masked part: what stands before it is shown.
pub mask_url-leak :
    (scheme user first : Text) (c : ℕ) (last rest : Text)
    → IsPlain scheme
    → IsPlain user
    → IsPlain first
    → IsPlain (c ∷ last)
    → mask_url
        (scheme ++ (b':' ∷ (user ++ (b':' ∷ (first ++ (b':' ∷ (c ∷ (last ++ (b'@' ∷ rest)))))))))
      ≡ scheme ++ (b':' ∷ (user ++ (b':' ∷ (first ++ (codes ":***@" ++ rest)))))
mask_url-leak scheme user first c last rest s u f l =
    let behind : Text = b':' ∷ (c ∷ (last ++ (b'@' ∷ rest))) in
    mask_url-plain scheme (b':' ∷ (user ++ (b':' ∷ (first ++ behind)))) s
    ∙ ap (◌++◌ scheme) (mask_url-colon user (first ++ behind) u)
    ∙ ap (λ r. scheme ++ (b':' ∷ (user ++ r)))
        (mask_url-colon first (c ∷ (last ++ (b'@' ∷ rest))) f)
    ∙ ap (λ r. scheme ++ (b':' ∷ (user ++ (b':' ∷ (first ++ r))))) (mask_url-secret c last rest l)
