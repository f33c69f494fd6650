-- ===== src/Destinations/SentCache.antt =====
-- internal/destinations/sentcache.go: the delivered event IDs that an adapter remembers.
pub mod Ring
use vbilling.Prelude.{
  ◌≡◌, refl, Bool, true, false, not, ◌&&◌, ◌||◌, ℕ, zero, suc, ◌+◌, ◌%◌, ◌<◌, Option, none, some,
  List, [], ◌∷◌, inl, inr, arith,
}
use vbilling.Prelude.Tests.{◌==◌, if◌then◌else◌, Bool-cases}
use vbilling.Prelude.Lists.{length, replicate}
use vbilling.Prelude.Text.{Text, Map, text_eq, text_eq_iff, lookup, insert, erase}
use vbilling.Prelude.Maps.{lookup-insert, lookup-erase}

pub record SentCache : Type 0 where
  pub set : Map (Unit {0})
  pub ring : List Text
  pub next : ℕ

-- An n below one counts as one.
unfoldable pub new_sent_cache : ℕ → SentCache
new_sent_cache n = record { set = []; ring = replicate (if n == 0 then 1 else n) []; next = 0 }

unfoldable pub has : Text → SentCache → Bool
has id c = elim (lookup id c.set) [ some u ↦ true | none ↦ false ]

-- ring[i]; the index is always in range.
unfoldable pub slot : ℕ → List Text → Text
slot i [] = []
slot zero (x ∷ xs) = x
slot (suc i) (x ∷ xs) = slot i xs

unfoldable pub set_slot : ℕ → Text → List Text → List Text
set_slot i id [] = []
set_slot zero id (x ∷ xs) = id ∷ xs
set_slot (suc i) id (x ∷ xs) = x ∷ set_slot i id xs

unfoldable pub add : Text → SentCache → SentCache
unfolding has slot set_slot
add id c =
    if has id c
    then c
    else (let old = slot c.next c.ring in
        record {
          set = insert id tt (if text_eq old [] then c.set else erase old c.set);
          ring = set_slot c.next id c.ring;
          next = (c.next + 1) % length c.ring;
        })

-- Add remembers its ID and forgets at most one: the oldest, in the slot that it takes over, and only
-- if the ID is new. It answers Has for every ID.
pub has-add :
    (id j : Text) (c : SentCache)
    → has j (add id c) ≡ (
        text_eq id j
        || (has j c
            && (has id c
                || text_eq (slot c.next c.ring) []
                || not (text_eq (slot c.next c.ring) j))))
unfolding has add
has-add id j c =
    let old = slot c.next c.ring in
    ground (
      arith,
      lookup-insert id j tt c.set,
      lookup-insert id j tt (erase old c.set),
      lookup-erase old j c.set,
      text_eq_iff id j,
      text_eq_iff old j,
    )
