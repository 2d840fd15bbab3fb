-- ===== src/Sponsor/Entitlements/Registrations.antt =====
-- What the relay remembers of an account's registrations counts those it has sponsored.
use kippu_api.Base.{
  ℕ, ◌+◌, ◌≤◌, ◌≡◌, refl, sym, ap, ◌∙◌, subst, inl, inr, Bool, true, false, ◌&&◌, List, [], ◌∷◌,
  arith, ◌==◌, ==_iff, ltb, leb, Bool-cases, length, one_if, append, count_where, select_where,
  delete_where,
}
use kippu_api.Sponsor.Entitlements.{
  SponsorProfile, Reads, account_creation, Decision, entitled, Entry, sweep_threshold, is_for,
  times_of, set_times, every_time, is_recent, is_past, is_idle, sweep, registered,
}
use kippu_api.Sponsor.Entitlements.Times.{
  count_append, count_le_length, count_select, count_mono, times_set, times_set_other, Distinct,
  set-Distinct, delete-Distinct, times_absent,
}

-- A registration that was sponsored.
pub record Sponsored : Type 0 where
  pub account : ℕ
  pub time : ℕ

-- What a decision adds to what was sponsored.
abbrev pub noted : ℕ → Decision → List Sponsored → List Sponsored
noted at (entitled (account_creation account)) gs = record { account = account; time = at } ∷ gs
noted at _ gs = gs

module _ (profile : SponsorProfile) (reads : Reads) (limit window : ℕ) where
  abbrev pub recent : ℕ → ℕ → Bool
  recent at t = is_recent profile reads limit window at t

  -- A sponsored registration of an account, inside the window at some time.
  abbrev pub is_counted : ℕ → ℕ → Sponsored → Bool
  is_counted account at g = (g.account == account) && recent at g.time

  count_idle :
      (at u : ℕ) (ts : List ℕ)
      → every_time (is_past profile reads limit window at) ts ≡ true
      → at ≤ u
      → count_where (recent u) ts ≡ 0
  unfolding count_where
  count_idle at u [] e le = refl
  count_idle at u (t ∷ ts) e le =
      let rest = count_idle at u ts (ground arith) le in
      let out : recent u t ≡ false = ground arith in rw out (omega (arith, rest))

  -- Forgetting idle accounts loses nothing that still counts.
  count_delete :
      (x at u : ℕ) (es : List Entry)
      → Distinct es
      → at ≤ u
      → count_where
          (recent u)
          (times_of x (delete_where (is_idle profile reads limit window at) es))
        ≡ count_where (recent u) (times_of x es)
  unfolding times_of delete_where count_where
  count_delete x at u [] d le = refl
  count_delete x at u (e ∷ es) (fresh, d) le =
      let rest = count_delete x at u es d le in
      elim (Bool-cases (is_idle profile reads limit window at e)) [
        | inl idle ↦ elim (Bool-cases (is_for x e)) [
          | inl hit ↦
              let same : e.account ≡ x = (==_iff e.account x).0 hit in
              let gone : times_of x es ≡ [] = times_absent x es (rw same at fresh) in
              rw (idle, hit)
                (rest ∙ ap (count_where (recent u)) gone ∙ sym (count_idle at u e.times idle le))
          | inr miss ↦ rw (idle, miss) rest
        ]
        | inr busy ↦ elim (Bool-cases (is_for x e)) [
          | inl hit ↦ rw (busy, hit) refl
          | inr miss ↦ rw (busy, miss) rest
        ]
      ]

  swept :
      (x at u : ℕ) (es : List Entry)
      → Distinct es
      → at ≤ u
      → count_where (recent u) (times_of x (sweep profile reads limit window at es))
        ≡ count_where (recent u) (times_of x es)
  unfolding sweep
  swept x at u es d le = elim (Bool-cases (ltb (length es) sweep_threshold)) [
    | inl few ↦ rw few refl
    | inr many ↦ rw many (count_delete x at u es d le)
  ]

  sweep-Distinct :
      (at : ℕ) (es : List Entry) → Distinct es → Distinct (sweep profile reads limit window at es)
  unfolding sweep
  sweep-Distinct at es d = elim (Bool-cases (ltb (length es) sweep_threshold)) [
    | inl few ↦ rw few d
    | inr many ↦ rw many (delete-Distinct _ es d)
  ]

  -- What the entries and the history agree on from some time on.
  pub record Tracks (now : ℕ) (es : List Entry) (gs : List Sponsored) : Type 0 where
    pub distinct : Distinct es
    pub tracks :
        (x u : ℕ)
        → now ≤ u
        → count_where (is_counted x u) gs ≡ count_where (recent u) (times_of x es)
    pub limited : (x : ℕ) → count_where (recent now) (times_of x es) ≤ limit

  pub sweep-Tracks :
      (now at : ℕ) (es : List Entry) (gs : List Sponsored)
      → now ≤ at
      → Tracks now es gs
      → Tracks at (sweep profile reads limit window at es) gs
  sweep-Tracks now at es gs le k = record {
    distinct = sweep-Distinct at es k.distinct;
    tracks = λ x u h. k.tracks x u (omega arith) ∙ sym (swept x at u es k.distinct h);
    limited = λ x.
        let fewer = count_mono (recent at) (recent now) (λ t h. ground arith) (times_of x es) in
        let same = swept x at at es k.distinct (omega arith) in omega (arith, k.limited x);
  }

  recent_mono : (at u t : ℕ) → at ≤ u → recent u t ≡ true → recent at t ≡ true
  recent_mono at u t le e = ground arith

  module _ (account at : ℕ) (es : List Entry) where
    -- The account's registrations inside the window.
    abbrev inside : List ℕ
    inside = select_where (recent at) (times_of account es)

    abbrev set_same :
        (x : ℕ) (ts : List ℕ) → (account == x) ≡ true → times_of x (set_times account ts es) ≡ ts
    set_same x ts hit =
        subst (λ y. times_of y (set_times account ts es) ≡ ts) ((==_iff account x).0 hit)
          (times_set account ts es)

    count_inside :
        (x u : ℕ)
        → at ≤ u
        → (account == x) ≡ true
        → count_where (recent u) inside ≡ count_where (recent u) (times_of x es)
    count_inside x u le hit =
        count_select (recent u) (recent at) (λ t e. recent_mono at u t le e) (times_of account es)
        ∙ ap (λ y. count_where (recent u) (times_of y es)) ((==_iff account x).0 hit)

    count_kept :
        (x u : ℕ)
        → at ≤ u
        → count_where (recent u) (times_of x (set_times account inside es))
          ≡ count_where (recent u) (times_of x es)
    count_kept x u le = elim (Bool-cases (account == x)) [
      | inl hit ↦ ap (count_where (recent u)) (set_same x inside hit) ∙ count_inside x u le hit
      | inr miss ↦ ap (count_where (recent u)) (times_set_other account x inside es miss)
    ]

    count_added :
        (x u : ℕ)
        → at ≤ u
        → count_where (recent u) (times_of x (set_times account (append at inside) es))
          ≡ one_if ((account == x) && recent u at) + count_where (recent u) (times_of x es)
    count_added x u le = elim (Bool-cases (account == x)) [
      | inl hit ↦
          let here = ap (count_where (recent u)) (set_same x (append at inside) hit) in
          let more = count_append (recent u) at inside in
          let same = count_inside x u le hit in rw hit (omega arith)
      | inr miss ↦
          let here =
            ap (count_where (recent u)) (times_set_other account x (append at inside) es miss) in
          rw miss (omega arith)
    ]

    added_limited :
        (x : ℕ)
        → leb limit (length inside) ≡ false
        → count_where (recent at) (times_of x es) ≤ limit
        → count_where (recent at) (times_of x (set_times account (append at inside) es)) ≤ limit
    added_limited x room le = elim (Bool-cases (account == x)) [
      | inl hit ↦
          let more = count_added x at (omega arith) in
          let same = count_inside x at (omega arith) hit in
          let short = count_le_length (recent at) inside in
          let one = one_if_le ((account == x) && recent at at) in ground arith
      | inr miss ↦ let more = count_added x at (omega arith) in ground arith
    ]
      where
        one_if_le : (b : Bool) → one_if b ≤ 1
        one_if_le true = omega arith
        one_if_le false = omega arith

    pub registered-Tracks :
        (gs : List Sponsored) (b : Bool)
        → leb limit (length inside) ≡ b
        → Tracks at es gs
        → Tracks at
            (registered profile reads limit window account at inside es).1
            (noted at (registered profile reads limit window account at inside es).0 gs)
    unfolding count_where
    registered-Tracks gs true full k = rw full (record {
      distinct = set-Distinct account inside es k.distinct;
      tracks = λ x u h. k.tracks x u h ∙ sym (count_kept x u h);
      limited = λ x. omega (arith, k.limited x, count_kept x at (omega arith));
    })
    registered-Tracks gs false room k = rw room (record {
      distinct = set-Distinct account (append at inside) es k.distinct;
      tracks = λ x u h. omega (arith, k.tracks x u h, count_added x u h);
      limited = λ x. added_limited x room (k.limited x);
    })

  pub later-Tracks :
      (now at : ℕ) (es : List Entry) (gs : List Sponsored)
      → now ≤ at
      → Tracks now es gs
      → Tracks at es gs
  later-Tracks now at es gs le k = record {
    distinct = k.distinct;
    tracks = λ x u h. k.tracks x u (omega arith);
    limited = λ x.
        let fewer = count_mono (recent at) (recent now) (λ t h. ground arith) (times_of x es) in
        omega (arith, k.limited x);
  }
