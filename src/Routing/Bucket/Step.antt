-- ===== src/Routing/Bucket/Step.antt =====
-- `UpdateContact` of a bucket returns on every input, and leaves a valid bucket.
use inu.Base.{
  ℕ, ◌<◌, ◌≡◌, refl, ap, sym, ◌∙◌, Bool, true, false, List, [], ◌∷◌, ◌++◌, none, some, length,
  arith, Bool-cases, Option-cases, inl, inr, ok, ltb,
}
use inu.Key.{Key}
use inu.KeyMap.{lookup, delete}
use inu.Contact.{Contact}
use inu.Routing.Bucket.{Bucket, in_range, remove, push_back, challenge, update_contact}
use inu.Routing.Bucket.Listed.{lookup-All}
use inu.Routing.Bucket.Invariant.{InRange, IsValid, push_back-IsValid}
use inu.Routing.Bucket.Update.{
  refreshes, appends, splits, keeps, evicts, Updated, remove-IsValidBut, rotate-IsValid,
  evict-IsValidBut, front_lem,
}

module _ (b : Bucket) (v : IsValid b) (c : Contact) (self : Key) (answers : Contact → Bool)
    (now : ℕ) (r : InRange b.low b.high c) where
  abbrev StepResult : Type 0
  StepResult =
      (r : Bucket × Bool) × (update_contact b c self (some answers) now ≡ ok r)
      × Updated b c self answers now r

  refresh : (e : Contact) → lookup c.id b.elements ≡ some e → StepResult
  unfolding update_contact push_back
  refresh e h =
      let same : e.id ≡ c.id =
        (lookup-All (InRange b.low b.high) c.id b.contacts e v.inside (sym (v.agree c.id) ∙ h)).1 in
      let moved = record b { last_updated = now; contacts = remove c.id b.contacts } in
      (
        (push_back c moved, false),
        rw (h, update_contact, same) refl,
        record {
          valid = push_back-IsValid moved c (remove-IsValidBut b v c.id e now h) r;
          takes = refreshes e h refl refl;
          same_k = refl;
          same_low = refl;
          same_high = refl;
          stamped = refl;
        },
      )

  append : lookup c.id b.elements ≡ none → length b.contacts < b.k → StepResult
  unfolding update_contact push_back
  append h room =
      let stamped = record b { last_updated = now } in
      (
        (push_back c stamped, false),
        rw (h, update_contact) (ground arith),
        record {
          valid =
              push_back-IsValid stamped c
                (record {
                  room = room;
                  listed = v.listed;
                  mapped = v.mapped;
                  absent = sym (v.agree c.id) ∙ h;
                  agree = λ j n. v.agree j;
                  inside = v.inside;
                  low_key = v.low_key;
                  high_key = v.high_key;
                })
                r;
          takes = appends h room refl refl;
          same_k = refl;
          same_low = refl;
          same_high = refl;
          stamped = refl;
        },
      )

  module _ (h : lookup c.id b.elements ≡ none) (full : ltb (length b.contacts) b.k ≡ false) where
    -- The bounds leave no third case.
    at_bound : length b.contacts ≡ b.k
    at_bound = ground (arith, v.bounded)

    ask_split : in_range b self ≡ true → StepResult
    unfolding update_contact in_range
    ask_split mine = (
      (record b { last_updated = now }, true),
      rw (h, update_contact, full) (ground arith),
      record {
        valid = record {
          positive = v.positive;
          bounded = v.bounded;
          listed = v.listed;
          mapped = v.mapped;
          agree = v.agree;
          inside = v.inside;
          low_key = v.low_key;
          high_key = v.high_key;
        };
        takes = splits h at_bound mine refl refl;
        same_k = refl;
        same_low = refl;
        same_high = refl;
        stamped = refl;
      },
    )

    module _ (other : in_range b self ≡ false) where
      to_challenge :
          (dst : Contact) (rest : List Contact)
          → b.contacts ≡ dst ∷ rest
          → update_contact b c self (some answers) now
            ≡ challenge (some answers) c (dst ∷ rest) (record b { last_updated = now })
      unfolding update_contact in_range
      to_challenge dst rest e = rw (h, update_contact, full) (ground arith)

      keep :
          (dst : Contact) (rest : List Contact)
          → b.contacts ≡ dst ∷ rest
          → answers dst ≡ true
          → StepResult
      keep dst rest e alive =
          let (held, shorter, inside) = front_lem b v dst rest e in
          (
            (record b { last_updated = now; contacts = rest ++ dst ∷ [] }, false),
            to_challenge dst rest e ∙ (unfold challenge in rw alive),
            record {
              valid = rw shorter at (rotate-IsValid b v dst now held inside);
              takes = keeps dst rest h at_bound other e alive refl refl;
              same_k = refl;
              same_low = refl;
              same_high = refl;
              stamped = refl;
            },
          )

      evict :
          (dst : Contact) (rest : List Contact)
          → b.contacts ≡ dst ∷ rest
          → answers dst ≡ false
          → StepResult
      evict dst rest e dead =
          let (held, shorter, inside) = front_lem b v dst rest e in
          let left = record b {
            last_updated = now;
            contacts = rest;
            elements = delete dst.id b.elements;
          } in
          (
            (push_back c left, false),
            to_challenge dst rest e ∙ (unfold challenge in rw dead),
            record {
              valid =
                  push_back-IsValid left c (rw shorter at (evict-IsValidBut b v dst c now held h))
                    r;
              takes = unfold push_back in evicts dst rest h at_bound other e dead refl refl;
              same_k = unfold push_back in refl;
              same_low = unfold push_back in refl;
              same_high = unfold push_back in refl;
              stamped = unfold push_back in refl;
            },
          )

      ask : (l : List Contact) → b.contacts ≡ l → StepResult
      ask [] e = absurd (omega (arith, v.positive, at_bound, ap length e))
      ask (dst ∷ rest) e = elim (Bool-cases (answers dst)) [
        | inl alive ↦ keep dst rest e alive
        | inr dead ↦ evict dst rest e dead
      ]

  -- `UpdateContact` of a bucket, with a contact in its range: it returns, the bucket stays valid,
  -- its bounds and its capacity stay, its time is the call's, and it took the contact in one of the
  -- five ways.
  pub update_contact-Updated :
      (r : Bucket × Bool) × (update_contact b c self (some answers) now ≡ ok r)
      × Updated b c self answers now r
  update_contact-Updated = elim (Option-cases (lookup c.id b.elements)) [
    | inr (e, h) ↦ refresh e h
    | inl h ↦ elim (Bool-cases (ltb (length b.contacts) b.k)) [
      | inl room ↦ append h (ground arith)
      | inr full ↦ elim (Bool-cases (in_range b self)) [
        | inl mine ↦ ask_split h full mine
        | inr other ↦ ask h full other b.contacts refl
      ]
    ]
  ]
