-- ===== src/Destinations/SentCache/Ring.antt =====
-- The set and the ring of internal/destinations/sentcache.go.
use native.Mathlib.Nat.{mod-lt}
use vbilling.Prelude.{
  ◌≡◌, refl, subst, ap, ◌∙◌, sym, true, false, ℕ, zero, suc, ◌+◌, ◌%◌, ◌<◌, List, [], ◌∷◌, inl, inr,
  arith,
}
use vbilling.Prelude.Tests.{◌==◌, if◌then◌else◌, Bool-cases}
use vbilling.Prelude.Lists.{length, length-replicate, replicate}
use vbilling.Prelude.Text.{Text, text_eq, text_eq_iff, lookup}
use vbilling.Destinations.SentCache.{SentCache, new_sent_cache, has, slot, set_slot, add, has-add}

-- How often an ID stands in the ring.
unfoldable pub count : Text → List Text → ℕ
count j [] = 0
count j (x ∷ xs) = (if text_eq x j then 1 else 0) + count j xs

length-set_slot : (i : ℕ) (id : Text) (xs : List Text) → length (set_slot i id xs) ≡ length xs
unfolding set_slot
length-set_slot i id [] = refl
length-set_slot zero id (x ∷ xs) = refl
length-set_slot (suc i) id (x ∷ xs) = omega (arith, length-set_slot i id xs)

count-set_slot :
    (i : ℕ) (id j : Text) (xs : List Text)
    → i < length xs
    → count j (set_slot i id xs) + (if text_eq (slot i xs) j then 1 else 0)
      ≡ count j xs + (if text_eq id j then 1 else 0)
unfolding set_slot count slot
count-set_slot i id j [] h = omega arith
count-set_slot zero id j (x ∷ xs) h = omega arith
count-set_slot (suc i) id j (x ∷ xs) h = omega (arith, count-set_slot i id j xs (omega arith))

count-replicate : (n : ℕ) (j : Text) → text_eq [] j ≡ false → count j (replicate n []) ≡ 0
unfolding count
count-replicate zero j h = refl
count-replicate (suc n) j h = rw h (omega (arith, count-replicate n j h))

-- The set and the ring agree: an ID that is not empty stands once in the ring if it is in the set,
-- and nowhere otherwise.
pub record IsRing (c : SentCache) : Type 0 where
  pub room : c.next < length c.ring
  pub held : (j : Text) → text_eq [] j ≡ false → count j c.ring ≡ (if has j c then 1 else 0)

new_sent_cache-IsRing : (n : ℕ) → IsRing (new_sent_cache n)
unfolding new_sent_cache has lookup
new_sent_cache-IsRing n = record {
  room = ground (arith, length-replicate {A = Text} (if n == 0 then 1 else n) []);
  held = λ j h. count-replicate (if n == 0 then 1 else n) j h;
}

count-slot :
    (i : ℕ) (j : Text) (xs : List Text)
    → i < length xs
    → text_eq (slot i xs) j ≡ true
    → 0 < count j xs
unfolding slot count
count-slot i j [] h e = omega arith
count-slot zero j (x ∷ xs) h e = rw e (omega arith)
count-slot (suc i) j (x ∷ xs) h e = omega (arith, count-slot i j xs (omega arith) e)

has_same : (id j : Text) (c : SentCache) → text_eq id j ≡ true → has j c ≡ has id c
has_same id j c e = ap (λ x. has x c) (sym ((text_eq_iff id j).0 e))

nonempty : (j : Text) → text_eq [] j ≡ false → text_eq j [] ≡ false
unfolding text_eq
nonempty [] h = cc h
nonempty (y ∷ j) h = refl

empty_slot : (x j : Text) → text_eq [] j ≡ false → text_eq x j ≡ true → text_eq x [] ≡ false
empty_slot x j h e = subst (λ y. text_eq y [] ≡ false) (sym ((text_eq_iff x j).0 e)) (nonempty j h)

held_added :
    (id j : Text) (c : SentCache)
    → IsRing c
    → has id c ≡ false
    → text_eq [] j ≡ false
    → count j (set_slot c.next id c.ring) ≡ (if has j (add id c) then 1 else 0)
held_added id j c r b h =
    let old = slot c.next c.ring in
    ground (
      arith,
      has-add id j c,
      count-set_slot c.next id j c.ring r.room,
      r.held j h,
      count-slot c.next j c.ring r.room,
      has_same id j c,
      empty_slot old j h,
    )

ring_added :
    (id : Text) (c : SentCache) → has id c ≡ false → (add id c).ring ≡ set_slot c.next id c.ring
unfolding add
ring_added id c b = rw (b, add) refl

next_added :
    (id : Text) (c : SentCache) → has id c ≡ false → (add id c).next ≡ (c.next + 1) % length c.ring
unfolding add
next_added id c b = rw (b, add) refl

add_new : (id : Text) (c : SentCache) → IsRing c → has id c ≡ false → IsRing (add id c)
add_new id c r b =
    let p : 0 < length c.ring = omega (arith, r.room) in
    let q : (c.next + 1) % length c.ring < length c.ring = mod-lt (c.next + 1) p in
    record {
      room = omega (
        arith,
        q,
        next_added id c b,
        ap (λ (x : List Text). length x) (ring_added id c b),
        length-set_slot c.next id c.ring,
      );
      held = λ j h. ap (count j) (ring_added id c b) ∙ held_added id j c r b h;
    }

add-IsRing : (id : Text) (c : SentCache) → IsRing c → IsRing (add id c)
unfolding add
add-IsRing id c r = elim (Bool-cases (has id c)) [
  | inl b ↦ rw (b, add) r
  | inr b ↦ add_new id c r b
]

unfoldable pub adds : List Text → SentCache → SentCache
adds [] c = c
adds (id ∷ ids) c = adds ids (add id c)

adds-IsRing' : (ids : List Text) (c : SentCache) → IsRing c → IsRing (adds ids c)
unfolding adds
adds-IsRing' [] c r = r
adds-IsRing' (id ∷ ids) c r = adds-IsRing' ids (add id c) (add-IsRing id c r)

-- Whatever is added to a new cache, the set and the ring agree: the place for the next ID is in the
-- ring, and an ID that is not empty is in the set exactly if it stands in the ring, where it stands
-- once.
pub adds-IsRing : (n : ℕ) (ids : List Text) → IsRing (adds ids (new_sent_cache n))
adds-IsRing n ids = adds-IsRing' ids (new_sent_cache n) (new_sent_cache-IsRing n)
