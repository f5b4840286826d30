-- ===== src/Config/Cookie.antt =====
-- internal/config/config.go: the cookies that ReadRPCCookie accepts.
use electrum_go.Base.{
  ℕ, ◌+◌, ◌≡◌, ◌≢◌, ◌↔◌, inl, inr, refl, sym, ap, ◌∙◌, subst, ◌||◌, Bool-cases, Option-cases, some,
  [], ◌∷◌, ◌++◌, length, take, drop, All, length-append, take-append_exact, drop-append_exact,
  drop-drop, ◌==◌, arith, if◌then◌else◌,
}
use electrum_go.Base.Bytes.{Bytes}
use electrum_go.Base.Result.{Result, ok, err, bad_data}
use electrum_go.Config.{Host, index_colon, split_cookie, read_rpc_cookie}

-- No byte of it is a colon.
abbrev pub HasNoColon : Bytes → Type 0
HasNoColon = All (λ b. b ≢ b':')

-- The index is that of the first colon.
index_colon_at : (u r : Bytes) → HasNoColon u → index_colon (u ++ (b':' ∷ r)) ≡ some (length u)
unfolding index_colon
index_colon_at [] r h = refl
index_colon_at (b ∷ u) r (h, hs) = ground (arith, index_colon_at u r hs, h)

index_colon_inv :
    (s : Bytes) (i : ℕ)
    → index_colon s ≡ some i
    → (u r : Bytes) × (s ≡ u ++ (b':' ∷ r)) × HasNoColon u × (length u ≡ i)
unfolding index_colon
index_colon_inv [] i e = absurd (cc e)
index_colon_inv (b ∷ s) i e = elim (Bool-cases (b == b':')) [
  | inl h ↦ ([], s, ap (λ (x : ℕ). x ∷ s) (ground (arith, h)), tt, ground (arith, e, h))
  | inr h ↦ elim (Option-cases (index_colon s)) [
    | inl f ↦ absurd (ground (arith, e, h, f))
    | inr (j, f) ↦
        let (u, r, eq, clean, len) = index_colon_inv s j f in
        (
          b ∷ u,
          r,
          ap (◌∷◌ b) eq,
          ((λ q. ground (arith, h, q)), clean),
          ground (arith, e, h, f, len),
        )
  ]
]

-- The two halves of a text at the length of the first.
halves :
    (u r : Bytes)
    → (take (length u) (u ++ (b':' ∷ r)) ≡ u) × (drop (length u + 1) (u ++ (b':' ∷ r)) ≡ r)
halves u r = (
  take-append_exact (length u) u (b':' ∷ r) refl,
  sym (drop-drop (length u) 1 (length u + 1) (u ++ (b':' ∷ r)) refl)
      ∙ ap (drop 1) (drop-append_exact (length u) u (b':' ∷ r) refl),
)

split_at :
    (u r : Bytes)
    → HasNoColon u
    → split_cookie (u ++ (b':' ∷ r))
      ≡ (if length u == 0 || length u == length u + length r then err bad_data else ok (u, r))
unfolding split_cookie
split_at u r h =
    rw (index_colon_at u r h, split_cookie)
      (rw (halves u r).0 (rw (halves u r).1 (ground (arith, length-append u (b':' ∷ r)))))

accepted :
    (u r : Bytes)
    → u ≢ []
    → r ≢ []
    → ◌≡◌ {A = Result (Bytes × Bytes)}
        (if length u == 0 || length u == length u + length r then err bad_data else ok (u, r))
        (ok (u, r))
accepted [] r hu hr = absurd (hu refl)
accepted (b ∷ u) [] hu hr = absurd (hr refl)
accepted (b ∷ u) (x ∷ r) hu hr = ground arith

split_inv :
    (u r u' r' : Bytes)
    → HasNoColon u'
    → split_cookie (u' ++ (b':' ∷ r')) ≡ ok (u, r)
    → (u' ≡ u) × (r' ≡ r) × (u ≢ []) × (r ≢ [])
split_inv u r u' r' h e =
    let answer = sym (split_at u' r' h) ∙ e in
    elim (Bool-cases (length u' == 0 || length u' == length u' + length r')) [
      | inl t ↦ absurd (ground (arith, answer, t))
      | inr t ↦
          let same : ◌≡◌ {A = Result (Bytes × Bytes)} (ok (u', r')) (ok (u, r)) =
            ground (arith, answer, t) in
          let pu : u' ≡ u = cc same in
          let pr : r' ≡ r = cc same in
          (
            pu,
            pr,
            (λ q. ground (arith, t, ap length (pu ∙ q))),
            λ q. ground (arith, t, ap length (pr ∙ q)),
          )
    ]

split_cookie-iff-append :
    (s u r : Bytes)
    → (split_cookie s ≡ ok (u, r)) ↔ ((s ≡ u ++ (b':' ∷ r)) × HasNoColon u × (u ≢ []) × (r ≢ []))
unfolding split_cookie
split_cookie-iff-append s u r = (
  (λ e. elim (Option-cases (index_colon s)) [
    | inl f ↦ absurd (ground (arith, rw (f, split_cookie) at e))
    | inr (i, f) ↦
        let (u', r', eq, clean, len) = index_colon_inv s i f in
        let (pu, pr, nu, nr) = split_inv u r u' r' clean (ap split_cookie (sym eq) ∙ e) in
        (
          eq ∙ ap (λ (x : Bytes). x ++ (b':' ∷ r')) pu ∙ ap (λ (x : Bytes). u ++ (b':' ∷ x)) pr,
          subst HasNoColon pu clean,
          nu,
          nr,
        )
  ]),
  λ q. ap split_cookie q.0 ∙ split_at u r q.1 ∙ accepted u r q.2 q.3,
)

-- Where the file is read, ReadRPCCookie accepts just the texts, once trimmed, that are a user that is
-- not empty and holds no colon, a colon, and a password that is not empty, and returns this user and
-- this password.
pub read_rpc_cookie-iff-append :
    (h : Host) (path content u r : Bytes)
    → h.read_trimmed path ≡ ok content
    → (read_rpc_cookie h path ≡ ok (u, r))
      ↔ ((content ≡ u ++ (b':' ∷ r)) × HasNoColon u × (u ≢ []) × (r ≢ []))
unfolding read_rpc_cookie
read_rpc_cookie-iff-append h path content u r e = rw e (split_cookie-iff-append content u r)
