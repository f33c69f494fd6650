-- ===== src/Examples/KvRuns.antt =====
-- The key-value store on a disk that works and on one that does not.
use vbilling.Prelude.{◌≡◌, ◌≢◌, ◌∙◌, ap, subst, Option, refl, true, false, none, some, [], ◌∷◌}
use vbilling.Prelude.Text.{Text, Map, codes, text_eq, lookup, insert}
use vbilling.Examples.Framing.{frame, unframe, unframe-frame, flat, pairs, pairs-flat}
use mathlib.Core.Option.{some-injective}
use vbilling.Prelude.Tests.{if◌then◌else◌}
use vbilling.Kv.{Json, Disk, Store, open_store, set, flush, get}
use vbilling.Kv.Saved.{open_store-set, set-set_failed}

unfoldable pub print_text : Map Text → Text
print_text m = 0 ∷ frame (flat m)

unfoldable pub parse_text : Text → Option (Map Text)
parse_text [] = none
parse_text (x ∷ t) = some (pairs (unframe t))

pub print_text_pos : (m : Map Text) → some (print_text m) ≢ some []
unfolding print_text
print_text_pos m e = cc e

pub parsed : (m : Map Text) (b : Text) → some (print_text m) ≡ some b → parse_text b ≡ some m
unfolding print_text parse_text
parsed m b e =
    subst (λ b. parse_text b ≡ some m) (some-injective _ _ e)
      (ap some (ap pairs (unframe-frame (flat m)) ∙ pairs-flat m))

-- A stand-in for JSON that writes all strings as they are.
unfoldable pub json : Json
json = record {
  print = λ m. some (print_text m);
  parse = parse_text;
  valid_string = λ t. true;
  print_pos = print_text_pos;
  parse-print = λ m b h e. (m, parsed m b e, λ j. refl);
}

abbrev pub working : Disk
working = record { json = json; read_ok = true; mkdir_ok = true; write_ok = true }

abbrev broken : Disk
broken = record working { write_ok = false }

abbrev key : Text
key = codes "customer/acme"

abbrev empty : Store
empty = record { path = codes "kv.json"; entries = []; file = none }

abbrev filled : Store
filled = record empty {
  entries = (key, codes "cus_1") ∷ [];
  file = some (print_text ((key, codes "cus_1") ∷ []));
}

fills : set working key (codes "cus_1") empty ≡ (true, filled)
unfolding set flush lookup insert text_eq json
fills = refl

not_there : get key empty ≢ some (codes "cus_1")
unfolding lookup
not_there = λ e. cc e

open_store-set_example :
    let x = open_store working filled.path filled.file in
    (x.0 ≡ true) × (get key x.1 ≡ (if text_eq key key then some (codes "cus_1") else get key empty))
unfolding insert json
open_store-set_example =
    open_store-set working working key (codes "cus_1") key empty filled (unfold text_eq in refl)
      not_there fills ((refl, refl), tt) refl refl

set-set_failed_example :
    ((set broken key (codes "cus_1") empty).0 ≡ false)
    × (set working key (codes "cus_1") (set broken key (codes "cus_1") empty).1
        ≡ (true, (set broken key (codes "cus_1") empty).1))
    × ((set broken key (codes "cus_1") empty).1.file ≡ empty.file)
set-set_failed_example =
    set-set_failed broken working key (codes "cus_1") empty (unfold text_eq in refl) not_there refl
