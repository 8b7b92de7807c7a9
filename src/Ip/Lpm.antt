-- ===== src/Ip/Lpm.antt =====
-- The longest prefix match of crates/ndn-sim-studies/src/ip.rs.
use ndn_sim.Prelude.{
  ℕ, ◌≤◌, ◌≡◌, ◌≢◌, refl, sym, subst, ◌∙◌, ◌⊎◌, inl, inr, true, false≢true, List, [], ◌∷◌, Option,
  none, some, arith, ltb, Bool-cases, if◌then◌else◌, All, All-In, In, here, there,
}
use ndn_sim.Ip.{IpRoute, in_prefix, matching, longest, lpm}

-- The matching routes are the ones whose prefix has the address.
matching_iff :
    (dst : ℕ) (rs : List IpRoute) (r : IpRoute)
    → (In r (matching dst rs) → In r rs × (in_prefix dst r.net r.prefix_len ≡ true))
      × (In r rs → in_prefix dst r.net r.prefix_len ≡ true → In r (matching dst rs))
matching_iff dst [] r = (λ m. elim m [ ], λ m e. elim m [ ])
matching_iff dst (q ∷ qs) r =
    let ih = matching_iff dst qs r in
    elim (Bool-cases (in_prefix dst q.net q.prefix_len)) [
      | inl y ↦ rw y (
        λ m. elim m [
          | here e ↦ (here e, subst (λ z. in_prefix dst z.net z.prefix_len ≡ true) e y)
          | there k ↦ (there (ih.0 k).0, (ih.0 k).1)
        ],
        λ m e. elim m [ here f ↦ here f | there k ↦ there (ih.1 k e) ],
      )
      | inr y ↦ rw y (
        λ m. (there (ih.0 m).0, (ih.0 m).1),
        λ m e. elim m [
          | here f ↦
              absurd (
                false≢true (sym y ∙ subst (λ z. in_prefix dst z.net z.prefix_len ≡ true) (sym f) e))
          | there k ↦ ih.1 k e
        ],
      )
    ]

-- It is one of the routes, and no prefix is longer.
IsTop : IpRoute → List IpRoute → Type 0
IsTop t rs = In t rs × All (λ q. q.prefix_len ≤ t.prefix_len) rs

longest-IsTop : (rs : List IpRoute) (r : IpRoute) → IsTop (longest r rs) (r ∷ rs)
unfolding IsTop
longest-IsTop [] r = (here refl, (omega arith, tt))
longest-IsTop (q ∷ qs) r =
    let z : IpRoute = if ltb q.prefix_len r.prefix_len then r else q in
    choose z (between z refl) (longest-IsTop qs z)
  where
    between :
        (z : IpRoute)
        → z ≡ (if ltb q.prefix_len r.prefix_len then r else q)
        → ((z ≡ r) ⊎ (z ≡ q)) × (r.prefix_len ≤ z.prefix_len) × (q.prefix_len ≤ z.prefix_len)
    between z e = elim (Bool-cases (ltb q.prefix_len r.prefix_len)) [
      | inl y ↦ let f : z ≡ r = rw y at e in (inl f, rw f (omega arith), rw f (ground arith))
      | inr y ↦ let f : z ≡ q = rw y at e in (inr f, rw f (ground arith), rw f (omega arith))
    ]

    choose :
        (z : IpRoute)
        → ((z ≡ r) ⊎ (z ≡ q)) × (r.prefix_len ≤ z.prefix_len) × (q.prefix_len ≤ z.prefix_len)
        → IsTop (longest z qs) (z ∷ qs)
        → IsTop (longest z qs) (r ∷ q ∷ qs)
    choose z (which, hr, hq) (m, (a, rest)) =
        (place which m, (omega (arith, hr, a), (omega (arith, hq, a), rest)))
      where
        place : (z ≡ r) ⊎ (z ≡ q) → In (longest z qs) (z ∷ qs) → In (longest z qs) (r ∷ q ∷ qs)
        place (inl e) (here f) = here (sym e ∙ f)
        place (inr e) (here f) = there (here (sym e ∙ f))
        place w (there k) = there (there k)

-- What a lookup answers: nothing if no route has the address, and else the face of a route that has
-- it, of the longest prefix.
abbrev pub IsLongest : List IpRoute → ℕ → Option ℕ → Type 0
IsLongest routes dst none = (r : IpRoute) → In r routes → in_prefix dst r.net r.prefix_len ≢ true
IsLongest routes dst (some via) =
    (r : IpRoute) × In r routes
    × (in_prefix dst r.net r.prefix_len ≡ true)
    × (r.via ≡ via)
    × ((q : IpRoute)
        → In q routes
        → in_prefix dst q.net q.prefix_len ≡ true
        → q.prefix_len ≤ r.prefix_len)

-- A lookup finds the face of a matching route of which no matching route has a longer prefix, and
-- nothing only if no route matches.
pub lpm-IsLongest : (routes : List IpRoute) (dst : ℕ) → IsLongest routes dst (lpm routes dst)
unfolding lpm IsTop
lpm-IsLongest routes dst = go (matching dst routes) refl
  where
    go :
        (ms : List IpRoute)
        → matching dst routes ≡ ms
        → IsLongest routes dst (elim ms [ [] ↦ none | r ∷ rs ↦ some (longest r rs).via ])
    go [] e = λ r m y. none_left (subst (In r) e ((matching_iff dst routes r).1 m y))
      where
        none_left : {r : IpRoute} → In r [] → ⊥
        none_left m = elim m [ ]
    go (r ∷ rs) e =
        let (m, a) = longest-IsTop rs r in
        let (k, y) =
          (matching_iff dst routes (longest r rs)).0 (subst (In (longest r rs)) (sym e) m) in
        (
          longest r rs,
          k,
          y,
          refl,
          λ q n z.
              All-In (λ x. x.prefix_len ≤ (longest r rs).prefix_len) (r ∷ rs) q a
                (subst (In q) e ((matching_iff dst routes q).1 n z)),
        )
