-- ===== src/Gateway/Bearer.antt =====
-- Which requests services/gateway/middleware/auth.go lets pass.
use pay_fast_processor.Prelude.{
  ℕ, String, true, some, List, [], ◌∷◌, ◌++◌, ◌≡◌, refl, ◌≢◌, ◌⊎◌, subst, inl, inr, eqb, count,
  Bool-cases, ap, sym, ◌∙◌, All, arith,
}
use pay_fast_processor.Runtime.World.{World}
use pay_fast_processor.Gateway.Http.{Request, Handler, http_error}
use pay_fast_processor.Gateway.Auth.{
  Bytes, eqb_bytes, has_prefix, split, space, bearer, key_prefix, test_merchant, api_auth,
}

-- No byte is the separator.
abbrev pub IsFree : ℕ → Bytes → Type 0
IsFree sep s = count (λ b. eqb b sep) s ≡ 0

-- `strings.Join`.
abbrev join : ℕ → Bytes → List Bytes → Bytes
join sep p [] = p
join sep p (q ∷ ps) = p ++ sep ∷ join sep q ps

module _ (sep : ℕ) where
  -- The parts of a text that is split in two.
  pub split-IsFree : (s : Bytes) → IsFree sep s → split sep s ≡ s ∷ []
  split-IsFree [] h = refl
  split-IsFree (b ∷ s) h = elim (Bool-cases (eqb b sep)) [
    | inl hit ↦ cc (rw hit at h)
    | inr miss ↦ rw (miss, split-IsFree s (rw miss at h)) refl
  ]

  split-append :
      (s t : Bytes) → IsFree sep s → eqb sep sep ≡ true → split sep (s ++ sep ∷ t) ≡ s ∷ split sep t
  split-append [] t h same = rw same refl
  split-append (b ∷ s) t h same = elim (Bool-cases (eqb b sep)) [
    | inl hit ↦ cc (rw hit at h)
    | inr miss ↦ rw (miss, split-append s t (rw miss at h) same) refl
  ]

  join-cons : (b : ℕ) (p : Bytes) (ps : List Bytes) → join sep (b ∷ p) ps ≡ b ∷ join sep p ps
  join-cons b p [] = refl
  join-cons b p (q ∷ ps) = refl

  -- The parts in order, with what they are: free of the separator, and joined the text.
  pub record Parts (s : Bytes) : Type 0 where
    pub first : Bytes
    pub others : List Bytes
    pub parts : split sep s ≡ first ∷ others
    pub joined : join sep first others ≡ s
    pub free : All (IsFree sep) (first ∷ others)

  pub split-Parts : (s : Bytes) → Parts s
  split-Parts [] = record {
    first = [];
    others = [];
    parts = refl;
    joined = refl;
    free = (refl, tt);
  }
  split-Parts (b ∷ s) =
      let h = split-Parts s in
      elim (Bool-cases (eqb b sep)) [
        | inl hit ↦ record {
          first = [];
          others = h.first ∷ h.others;
          parts = rw (hit, h.parts) refl;
          joined = rw (h.joined) (ap (λ a. a ∷ s) (sym (same b hit)));
          free = (refl, h.free);
        }
        | inr miss ↦ record {
          first = b ∷ h.first;
          others = h.others;
          parts = rw (miss, h.parts) refl;
          joined = rw (join-cons, h.joined) refl;
          free = (rw miss h.free.0, h.free.1);
        }
      ]
    where
      same : (b : ℕ) → eqb b sep ≡ true → b ≡ sep
      same b hit = ground arith

abbrev joined_of : ℕ → List Bytes → Bytes
joined_of sep [] = []
joined_of sep (p ∷ ps) = join sep p ps

two_parts : (sep : ℕ) (s p q : Bytes) → split sep s ≡ p ∷ q ∷ [] → (s ≡ p ++ sep ∷ q) × IsFree sep q
two_parts sep s p q e =
    let h = split-Parts sep s in
    let same : h.first ∷ h.others ≡ p ∷ q ∷ [] = sym h.parts ∙ e in
    (sym h.joined ∙ ap (joined_of sep) same, (subst (All (IsFree sep)) same h.free).1.0)

eqb_bytes_sound : (s t : Bytes) → eqb_bytes s t ≡ true → s ≡ t
eqb_bytes_sound [] [] h = refl
eqb_bytes_sound [] (b ∷ t) h = cc h
eqb_bytes_sound (a ∷ s) [] h = cc h
eqb_bytes_sound (a ∷ s) (b ∷ t) h =
    let heads : a ≡ b = ground arith in
    let tails : eqb_bytes s t ≡ true = ground arith in rw (heads, eqb_bytes_sound s t tails) refl

has_prefix_sound : (p s : Bytes) → has_prefix p s ≡ true → (rest : Bytes) × (s ≡ p ++ rest)
has_prefix_sound [] s h = (s, refl)
has_prefix_sound (b ∷ p) [] h = cc h
has_prefix_sound (b ∷ p) (a ∷ s) h =
    let heads : a ≡ b = ground arith in
    let tails : has_prefix p s ≡ true = ground arith in
    let (rest, e) = has_prefix_sound p s tails in (rest, rw (heads, e) refl)

module _ (next : Handler) (r : Request) (w : World) where
  -- The header with an API key of the test environment, the key's prefix not counted.
  abbrev pub header_of : Bytes → Bytes
  header_of rest = bearer ++ space ∷ key_prefix ++ rest

  -- A request whose header is "Bearer sk_test_" and a text without a space reaches the handler, in
  -- the name of the test merchant.
  pub api_auth-header_of :
      (rest : Bytes)
      → IsFree space rest
      → r.authorization ≡ header_of rest
      → api_auth next r w ≡ next (record r { merchant_id = some test_merchant }) w
  unfolding api_auth
  api_auth-header_of rest free e = rw e (rw (split-IsFree space rest free) refl)

  abbrev Passes : Type 0
  Passes =
      (rest : Bytes) × IsFree space rest
      × (r.authorization ≡ header_of rest)
      × (api_auth next r w ≡ next (record r { merchant_id = some test_merchant }) w)

  abbrev Refused : Type 0
  Refused = (text : String) × (api_auth next r w ≡ (http_error text 401, w))

  bad_format :
      (ps : List Bytes)
      → (b : ℕ) (s : Bytes) → r.authorization ≡ b ∷ s
      → split space (b ∷ s) ≡ ps
      → count (λ _. true) ps ≢ 2
      → Refused
  unfolding api_auth
  bad_format [] b s same e h = ("invalid authorization format", rw same (rw e refl))
  bad_format (p ∷ []) b s same e h = ("invalid authorization format", rw same (rw e refl))
  bad_format (p ∷ q ∷ []) b s same e h = absurd (h refl)
  bad_format (p ∷ q ∷ o ∷ ps) b s same e h = ("invalid authorization format", rw same (rw e refl))

  passes : (rest : Bytes) → IsFree space rest → r.authorization ≡ header_of rest → Passes ⊎ Refused
  passes rest free e = inl (rest, free, e, api_auth-header_of rest free e)

  two_parts_lem :
      (p q : Bytes) (b : ℕ) (s : Bytes)
      → r.authorization ≡ b ∷ s
      → split space (b ∷ s) ≡ p ∷ q ∷ []
      → Passes ⊎ Refused
  unfolding api_auth
  two_parts_lem p q b s same e = elim (Bool-cases (eqb_bytes p bearer)) [
    | inr other ↦ inr ("invalid authorization format", rw same (rw (e, other) refl))
    | inl scheme ↦ elim (Bool-cases (has_prefix key_prefix q)) [
      | inr other ↦ inr ("invalid api key", rw same (rw (e, scheme, other) refl))
      | inl prefix ↦
          let (rest, is_key) = has_prefix_sound key_prefix q prefix in
          let (joined, free) = two_parts space (b ∷ s) p q e in
          passes rest (subst (IsFree space) is_key free)
            (same ∙ joined ∙ rw (eqb_bytes_sound p bearer scheme, is_key) refl)
    ]
  ]

  -- A request either has a header "Bearer sk_test_" and a text without a space, and the handler
  -- runs for the test merchant, or it is answered 401 and the world is as it was.
  pub api_auth-Passes : Passes ⊎ Refused
  unfolding api_auth
  api_auth-Passes = by_header r.authorization refl
    where
      by_parts :
          (ps : List Bytes) (b : ℕ) (s : Bytes)
          → r.authorization ≡ b ∷ s
          → split space (b ∷ s) ≡ ps
          → Passes ⊎ Refused
      by_parts [] b s same e = inr (bad_format [] b s same e λ h. cc h)
      by_parts (p ∷ []) b s same e = inr (bad_format _ b s same e λ h. cc h)
      by_parts (p ∷ q ∷ []) b s same e = two_parts_lem p q b s same e
      by_parts (p ∷ q ∷ o ∷ ps) b s same e = inr (bad_format _ b s same e λ h. cc h)

      by_header : (t : Bytes) → r.authorization ≡ t → Passes ⊎ Refused
      by_header [] same = inr ("missing authorization header", rw same refl)
      by_header (b ∷ s) same = by_parts (split space (b ∷ s)) b s same refl
