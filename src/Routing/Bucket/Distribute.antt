-- ===== src/Routing/Bucket/Distribute.antt =====
-- The loop of `Split`: with a nil `rpc` it never pings, and it loses no contact.
use inu.Base.{
  ℕ, ◌+◌, ◌≤◌, ◌<◌, ◌≡◌, refl, ap, sym, ◌∙◌, true, false, [], ◌∷◌, none, some, length,
  length-append, All, arith, Bool-cases, inl, inr, ok, leb,
}
use inu.Key.{Key, key_eq, set_bytes}
use inu.Key.Number.{key_eq_iff, key_eq-false}
use inu.KeyMap.{KeyMap, lookup, Distinct}
use inu.KeyMap.Laws.{lookup-insert}
use inu.Contact.{Contact}
use inu.Routing.Bucket.{Bucket, Ping, push_back, update_contact, distribute}
use inu.Routing.Bucket.Invariant.{InRange, IsValid, push_back-IsValid}

-- With room for an unknown contact, no ping is needed.
pub update_contact-append :
    (b : Bucket) (c : Contact) (self : Key) (ping : Ping) (now : ℕ)
    → lookup c.id b.elements ≡ none
    → length b.contacts < b.k
    → update_contact b c self ping now ≡ ok (push_back c (record b { last_updated = now }), false)
unfolding update_contact
update_contact-append b c self ping now h room = rw (h, update_contact) (ground arith)

pub append-IsValid :
    (b : Bucket) (c : Contact) (now : ℕ)
    → IsValid b
    → InRange b.low b.high c
    → lookup c.id b.elements ≡ none
    → length b.contacts < b.k
    → IsValid (push_back c (record b { last_updated = now }))
append-IsValid b c now v r h room =
    push_back-IsValid (record b { last_updated = now }) c
      (record {
        room = room;
        listed = v.listed;
        mapped = v.mapped;
        absent = sym (v.agree c.id) ∙ h;
        agree = λ j n. v.agree j;
        inside = v.inside;
        low_key = v.low_key;
        high_key = v.high_key;
      })
      r

-- Every entry of the map that is to be distributed: its key is the contact's id, the half that its
-- id is in has the id in range, and no half holds it yet.
pub record Waits (mid : ℕ) (x y : Bucket) (e : Key × Contact) : Type 0 where
  pub named : e.0 ≡ e.1.id
  pub lower : set_bytes e.0 ≤ mid → InRange x.low x.high e.1
  pub upper : mid < set_bytes e.0 → InRange y.low y.high e.1
  pub new_x : lookup e.0 x.elements ≡ none
  pub new_y : lookup e.0 y.elements ≡ none

-- What the loop leaves of `es` and the halves `x` and `y`.
pub record Distributed (mid : ℕ) (es : KeyMap Contact) (x y : Bucket) (r : Bucket × Bucket)
    : Type 0 where
  pub valid_x : IsValid r.0
  pub valid_y : IsValid r.1
  pub k_x : r.0.k ≡ x.k
  pub k_y : r.1.k ≡ y.k
  pub low_x : r.0.low ≡ x.low
  pub high_x : r.0.high ≡ x.high
  pub low_y : r.1.low ≡ y.low
  pub high_y : r.1.high ≡ y.high
  pub holds_x :
      (j : Key)
      → set_bytes j ≤ mid
      → lookup j r.0.elements ≡ elim (lookup j es) [ some c ↦ some c | none ↦ lookup j x.elements ]
  pub holds_y :
      (j : Key)
      → mid < set_bytes j
      → lookup j r.1.elements ≡ elim (lookup j es) [ some c ↦ some c | none ↦ lookup j y.elements ]

module _ (mid : ℕ) (self : Key) (now : ℕ) where
  Waits-push_x :
      (x y : Bucket) (c : Contact) (es : KeyMap Contact)
      → lookup c.id es ≡ none
      → All (Waits mid x y) es
      → All (Waits mid (push_back c (record x { last_updated = now })) y) es
  unfolding lookup push_back
  Waits-push_x x y c [] n w = tt
  Waits-push_x x y c ((k, d) ∷ es) n w = (
    record {
      named = w.0.named;
      lower = w.0.lower;
      upper = w.0.upper;
      new_x = rw lookup-insert (ground (arith, w.0.new_x, key_eq_iff k c.id, key_eq_iff c.id k));
      new_y = w.0.new_y;
    },
    Waits-push_x x y c es (ground arith) w.1,
  )

  Waits-push_y :
      (x y : Bucket) (c : Contact) (es : KeyMap Contact)
      → lookup c.id es ≡ none
      → All (Waits mid x y) es
      → All (Waits mid x (push_back c (record y { last_updated = now }))) es
  unfolding lookup push_back
  Waits-push_y x y c [] n w = tt
  Waits-push_y x y c ((k, d) ∷ es) n w = (
    record {
      named = w.0.named;
      lower = w.0.lower;
      upper = w.0.upper;
      new_x = w.0.new_x;
      new_y = rw lookup-insert (ground (arith, w.0.new_y, key_eq_iff k c.id, key_eq_iff c.id k));
    },
    Waits-push_y x y c es (ground arith) w.1,
  )

  module _ (k : Key) (c : Contact) (es : KeyMap Contact) (x y : Bucket) (r : Bucket × Bucket)
      (named : k ≡ c.id) (fresh : lookup k es ≡ none) where
    fresh_at : (j : Key) → key_eq k j ≡ true → lookup j es ≡ none
    fresh_at j e = rw ((key_eq_iff k j).0 e) at fresh

    Distributed-cons_x :
        set_bytes c.id ≤ mid
        → Distributed mid es (push_back c (record x { last_updated = now })) y r
        → Distributed mid ((k, c) ∷ es) x y r
    unfolding lookup push_back
    Distributed-cons_x low t = record {
      valid_x = t.valid_x;
      valid_y = t.valid_y;
      k_x = t.k_x;
      k_y = t.k_y;
      low_x = t.low_x;
      high_x = t.high_x;
      low_y = t.low_y;
      high_y = t.high_y;
      holds_x = λ j h. ground (
        arith,
        t.holds_x j h,
        lookup-insert c.id j c x.elements,
        ap (λ (z : Key). key_eq z j) named,
        key_eq_iff k j,
        fresh_at j,
      );
      holds_y = λ j h.
          ground (arith, t.holds_y j h, key_eq-false k j (omega (arith, ap set_bytes named)));
    }

    Distributed-cons_y :
        mid < set_bytes c.id
        → Distributed mid es x (push_back c (record y { last_updated = now })) r
        → Distributed mid ((k, c) ∷ es) x y r
    unfolding lookup push_back
    Distributed-cons_y high t = record {
      valid_x = t.valid_x;
      valid_y = t.valid_y;
      k_x = t.k_x;
      k_y = t.k_y;
      low_x = t.low_x;
      high_x = t.high_x;
      low_y = t.low_y;
      high_y = t.high_y;
      holds_x = λ j h.
          ground (arith, t.holds_x j h, key_eq-false k j (omega (arith, ap set_bytes named)));
      holds_y = λ j h. ground (
        arith,
        t.holds_y j h,
        lookup-insert c.id j c y.elements,
        ap (λ (z : Key). key_eq z j) named,
        key_eq_iff k j,
        fresh_at j,
      );
    }

  pub distribute_lem :
      (es : KeyMap Contact) (x y : Bucket)
      → IsValid x
      → IsValid y
      → Distinct es
      → All (Waits mid x y) es
      → length x.contacts + length es ≤ x.k
      → length y.contacts + length es ≤ y.k
      → (r : Bucket × Bucket) × (distribute mid self now es x y ≡ ok r) × Distributed mid es x y r
  unfolding distribute lookup
  distribute_lem [] x y vx vy d w rx ry = (
    (x, y),
    refl,
    record {
      valid_x = vx;
      valid_y = vy;
      k_x = refl;
      k_y = refl;
      low_x = refl;
      high_x = refl;
      low_y = refl;
      high_y = refl;
      holds_x = λ j h. refl;
      holds_y = λ j h. refl;
    },
  )
  distribute_lem ((k, c) ∷ es) x y vx vy d w rx ry = elim (Bool-cases (leb (set_bytes c.id) mid)) [
    | inl low ↦
        let named = w.0.named in
        let below : set_bytes c.id ≤ mid = ground arith in
        let inside = w.0.lower (rw named below) in
        let new = rw named at (w.0.new_x) in
        let room : length x.contacts < x.k = omega arith in
        let x' = push_back c (record x { last_updated = now }) in
        let (r, e, t) =
          distribute_lem es x' y (append-IsValid x c now vx inside new room) vy d.1
            (Waits-push_x x y c es (rw named at (d.0)) w.1)
            (unfold push_back in omega (arith, length-append x.contacts (c ∷ []))) (omega arith) in
        (
          r,
          rw (low, distribute) (rw (update_contact-append x c self none now new room) e),
          Distributed-cons_x k c es x y r named d.0 below t,
        )
    | inr high ↦
        let named = w.0.named in
        let above : mid < set_bytes c.id = ground arith in
        let inside = w.0.upper (rw named above) in
        let new = rw named at (w.0.new_y) in
        let room : length y.contacts < y.k = omega arith in
        let y' = push_back c (record y { last_updated = now }) in
        let (r, e, t) =
          distribute_lem es x y' vx (append-IsValid y c now vy inside new room) d.1
            (Waits-push_y x y c es (rw named at (d.0)) w.1) (omega arith)
            (unfold push_back in omega (arith, length-append y.contacts (c ∷ []))) in
        (
          r,
          rw (high, distribute) (rw (update_contact-append y c self none now new room) e),
          Distributed-cons_y k c es x y r named d.0 above t,
        )
  ]
