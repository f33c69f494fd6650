-- ===== src/Kv.antt =====
-- internal/kv/kv.go: a persistent string map, and `Get`, `Set`, `Delete`, `WithPrefix` and `Open`.
pub mod Saved
use vbilling.Prelude.{◌≡◌, ◌≢◌, Bool, true, false, ◌&&◌, Option, none, some, List, [], ◌∷◌, ◌++◌}
use vbilling.Prelude.Tests.{◌==◌, if◌then◌else◌}
use vbilling.Prelude.Lists.{All}
use vbilling.Spool.Codec.{Bytes}
use vbilling.Prelude.Text.{Text, Map, text_eq, lookup, insert, erase}

-- encoding/json on a map of strings. What it prints is not empty, and reads back as the same map if the
-- strings are valid UTF-8; other bytes it replaces.
pub record Json : Type 0 where
  pub print : Map Text → Option Bytes
  pub parse : Bytes → Option (Map Text)
  pub valid_string : Text → Bool
  pub print_pos : (m : Map Text) → print m ≢ some []
  pub parse-print :
      (m : Map Text) (b : Bytes)
      → All (λ kv. (valid_string kv.0 ≡ true) × (valid_string kv.1 ≡ true)) m
      → print m ≡ some b
      → (m' : Map Text) × (parse b ≡ some m') × ((j : Text) → lookup j m' ≡ lookup j m)

-- What is around the store during an operation: encoding/json, and what the operating system answers
-- to reading the file, making its directory, and writing the temporary file and renaming it.
pub record Disk : Type 0 where
  pub json : Json
  pub read_ok : Bool
  pub mkdir_ok : Bool
  pub write_ok : Bool

-- `entries` is the source's `data`. The file is replaced by a rename, so it is a value; `none` is a file
-- that is not there.
pub record Store : Type 0 where
  pub path : Text
  pub entries : Map Text
  pub file : Option Bytes

unfoldable pub parse_file : Json → Bytes → Store → Bool × Store
parse_file json [] s = (true, s)
parse_file json (x ∷ b) s = elim (json.parse (x ∷ b)) [
  | none ↦ (false, s)
  | some m ↦ (true, record s { entries = m })
]

-- Open: `false` is an error; Open then returns no store.
unfoldable pub open_store : Disk → Text → Option Bytes → Bool × Store
unfolding text_eq parse_file
open_store io path file =
    let s : Store = record { path = path; entries = []; file = file } in
    if text_eq path [] then (true, s) else elim file [
      | none ↦ (io.mkdir_ok, s)
      | some b ↦ if io.read_ok then parse_file io.json b s else (false, s)
    ]

abbrev pub get : Text → Store → Option Text
get k s = lookup k s.entries

unfoldable pub flush : Disk → Store → Bool × Store
unfolding text_eq
flush io s = if text_eq s.path [] then (true, s) else elim (io.json.print s.entries) [
  | none ↦ (false, s)
  | some b ↦ if io.write_ok then (true, record s { file = some b }) else (false, s)
]

unfoldable pub set : Disk → Text → Text → Store → Bool × Store
unfolding text_eq flush
set io k v s =
    let t = flush io (record s { entries = insert k v s.entries }) in
    elim (lookup k s.entries) [ none ↦ t | some old ↦ if text_eq old v then (true, s) else t ]

unfoldable pub delete : Disk → Text → Store → Bool × Store
unfolding flush
delete io k s =
    let t = flush io (record s { entries = erase k s.entries }) in
    elim (lookup k s.entries) [ none ↦ (true, s) | some old ↦ t ]

-- strings.CutPrefix: HasPrefix and TrimPrefix.
unfoldable pub cut_prefix : Text → Text → Option Text
cut_prefix [] t = some t
cut_prefix (x ∷ p) [] = none
cut_prefix (x ∷ p) (y ∷ t) = let rest = cut_prefix p t in if x == y then rest else none

-- The loop goes through the entries of `m`.
unfoldable pub with_prefix_of : Text → Map Text → Map Text
unfolding cut_prefix insert
with_prefix_of p [] = []
with_prefix_of p ((k, v) ∷ m) =
    let out = with_prefix_of p m in
    elim (cut_prefix p k) [ none ↦ out | some rest ↦ insert rest v out ]

abbrev pub with_prefix : Text → Store → Map Text
with_prefix p s = with_prefix_of p s.entries
