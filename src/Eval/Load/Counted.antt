-- ===== src/Eval/Load/Counted.antt =====
-- The counters of cmd/evaluate/eval.go.
use native.Mathlib.Nat.{mod-add-mod}
use inu.Base.{
  ℕ, ◌+◌, ◌%◌, ◌^◌, ◌≡◌, refl, ap, ◌∙◌, Bool, true, false, ◌||◌, List, [], ◌∷◌, Option, none, some,
  if◌then◌else◌, arith, Bool-cases, inl, inr,
}
use inu.Key.{key_eq}
use inu.Key.Number.{key_eq_iff}
use inu.Http.{Text}
use inu.Eval.Load.{
  Ends, Packet, Traffic, between, load_of, measure_load, has, insert_end, count_ends, count_packets,
}

-- The bytes of the packets that `testChurn` counts.
unfoldable pub counted : Text → List Packet → ℕ
counted bootstrap [] = 0
counted bootstrap (p ∷ ps) =
    elim p.ends [ none ↦ 0 | some e ↦ if key_eq e.dst bootstrap then 0 else p.size ]
    + counted bootstrap ps

-- Whether an address is that of an end of one of them.
unfoldable pub is_end : Text → Text → List Packet → Bool
is_end bootstrap a [] = false
is_end bootstrap a (p ∷ ps) =
    elim p.ends [
      | none ↦ false
      | some e ↦ if key_eq e.dst bootstrap then false else key_eq a e.dst || key_eq a e.src
    ]
    || is_end bootstrap a ps

has-insert_end : (a b : Text) (r : List Text) → has a (insert_end b r) ≡ (key_eq a b || has a r)
unfolding has
has-insert_end a b r = elim (Bool-cases (has b r)) [
  | inr new ↦ rw (new) refl
  | inl there ↦ elim (Bool-cases (key_eq a b)) [
    | inr other ↦ rw (there, other) refl
    | inl same ↦
        let found : has a r ≡ true = ap (λ c. has c r) ((key_eq_iff a b).0 same) ∙ there in
        rw (there, same) found
  ]
]

-- The two counters of `testChurn` after all packets: the bytes, by 2 ^ 64, of those that go elsewhere than
-- to the bootstrap node, and the addresses at their ends.
pub count_packets_lem :
    (bootstrap : Text) (ps : List Packet) (t : Traffic) (a : Text)
    → ((count_packets bootstrap ps t).seen % 2 ^ 64 ≡ (t.seen + counted bootstrap ps) % 2 ^ 64)
      × (has a (count_packets bootstrap ps t).nodes ≡ (is_end bootstrap a ps || has a t.nodes))
unfolding count_packets counted is_end
count_packets_lem bootstrap [] t a = (ap (λ n. n % 2 ^ 64) (omega arith), refl)
count_packets_lem bootstrap (p ∷ ps) t a = go (λ u. count_packets_lem bootstrap ps u a) p.ends
  where
    go :
        ((u : Traffic)
          → ((count_packets bootstrap ps u).seen % 2 ^ 64
              ≡ (u.seen + counted bootstrap ps) % 2 ^ 64)
            × (has a (count_packets bootstrap ps u).nodes
                ≡ (is_end bootstrap a ps || has a u.nodes)))
        → (e : Option Ends)
        → ((count_packets bootstrap ps (count_ends bootstrap p.size e t)).seen % 2 ^ 64
            ≡ (t.seen
                + (elim e [ none ↦ 0 | some e ↦ if key_eq e.dst bootstrap then 0 else p.size ]
                    + counted bootstrap ps))
              % 2 ^ 64)
          × (has a (count_packets bootstrap ps (count_ends bootstrap p.size e t)).nodes ≡ (
              (elim e [
                | none ↦ false
                | some e ↦
                    if key_eq e.dst bootstrap then false else key_eq a e.dst || key_eq a e.src
              ]
                || is_end bootstrap a ps)
              || has a t.nodes))
    go ih none = ground (arith, ih t)
    go ih (some e) = elim (Bool-cases (key_eq e.dst bootstrap)) [
      | inl own ↦ rw (own) (ground (arith, ih t))
      | inr other ↦
          let u : Traffic = record {
            seen = (t.seen + p.size) % 2 ^ 64;
            nodes = insert_end e.dst (insert_end e.src t.nodes);
          } in
          let later = ih u in
          rw (other) (
            later.0
                ∙ mod-add-mod (t.seen + p.size) (2 ^ 64) (counted bootstrap ps)
                ∙ ap (λ n. n % 2 ^ 64) (omega arith),
            ground (
              arith,
              later.1,
              has-insert_end a e.dst (insert_end e.src t.nodes),
              has-insert_end a e.src t.nodes,
            ),
          )
    ]

-- `measureLoad` of two addresses does not depend on their order.
pub measure_load_comm : (ps : List Packet) (a b : Text) → measure_load ps a b ≡ measure_load ps b a
unfolding measure_load between
measure_load_comm [] a b = refl
measure_load_comm (p ∷ ps) a b = omega (arith, one p.ends, measure_load_comm ps a b)
  where
    one : (e : Option Ends) → load_of a b p e ≡ load_of b a p e
    one none = refl
    one (some e) = ground arith
