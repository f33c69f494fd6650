-- ===== src/Spool/Codec.antt =====
-- Records and their lines, "<sha256 hex>\t<record json>\n", in internal/spool/spool.go.
-- A file is the list of its bytes. SHA-256 with its hex form, the JSON of a record and the decimal
-- form of a number come from Go's library: they are the parameter `Codec`.
pub mod Lines
pub mod Format
use vbilling.Prelude.{
  ℕ, suc, ◌+◌, ◌≡◌, ◌≢◌, Bool, true, false, Option, none, some, List, [], ◌∷◌, ◌++◌,
}
use vbilling.Prelude.Tests.{◌==◌, if◌then◌else◌}
use vbilling.Prelude.Lists.{length, take, drop, All}
use vbilling.Prelude.Text.{Text, codes, text_eq}
use vbilling.Usage.{Time, Event}

abbrev pub Bytes : Type 0
Bytes = List ℕ

abbrev pub tab : ℕ
tab = 9

abbrev pub newline : ℕ
newline = 10

abbrev pub comma : ℕ
comma = 44

pub record Commit : Type 0 where
  pub source : Text
  pub window_end : Time
  pub events : ℕ
  pub note : Text

abbrev pub type_event : Text
type_event = codes "event"

abbrev pub type_commit : Text
type_commit = codes "commit"

-- The hash of a record stands before it in its line.
pub record Record : Type 0 where
  pub seq : ℕ
  pub type : Text
  pub at : Time
  pub prev : Text
  pub event : Option Event
  pub commit : Option Commit

-- `{"seq":`, the first field of every record.
abbrev pub seq_prefix : Bytes
seq_prefix = codes "{\"seq\":"

-- What the code relies on in crypto/sha256, encoding/hex, encoding/json and strconv: a digest is
-- 64 hex digits, JSON has no line break and reads back to the record, `Seq` comes first in it,
-- and a decimal number reads back.
pub record Codec : Type 0 where
  pub digest : Bytes → Text
  pub marshal : Record → Option Bytes
  pub unmarshal : Bytes → Option Record
  pub print_uint : ℕ → Text
  pub parse_uint : Text → Option ℕ
  pub digest_length : (b : Bytes) → length (digest b) ≡ 64
  pub digest_tab : (b : Bytes) → All (λ x. x ≢ tab) (digest b)
  pub digest_newline : (b : Bytes) → All (λ x. x ≢ newline) (digest b)
  pub marshal_newline : (r : Record) (b : Bytes) → marshal r ≡ some b → All (λ x. x ≢ newline) b
  pub unmarshal-marshal : (r : Record) (b : Bytes) → marshal r ≡ some b → unmarshal b ≡ some r
  pub marshal_seq :
      (r : Record) (b : Bytes)
      → marshal r ≡ some b
      → (rest : Bytes) × (b ≡ seq_prefix ++ (print_uint r.seq ++ comma ∷ rest))
  pub parse-print_uint : (n : ℕ) → parse_uint (print_uint n) ≡ some n
  pub print_uint_comma : (n : ℕ) → All (λ x. x ≢ comma) (print_uint n)
  pub print_uint_pos : (n : ℕ) → print_uint n ≢ []

-- bytes.IndexByte; `none` is -1.
unfoldable pub index_byte : ℕ → Bytes → Option ℕ
index_byte x [] = none
index_byte x (b ∷ bs) =
    let rest = index_byte x bs in
    if b == x then some 0 else elim rest [ none ↦ none | some i ↦ some (suc i) ]

-- bytes.HasPrefix, with what follows the prefix.
unfoldable pub after_prefix : Bytes → Bytes → Option Bytes
after_prefix [] bs = some bs
after_prefix (p ∷ ps) [] = none
after_prefix (p ∷ ps) (b ∷ bs) = let rest = after_prefix ps bs in if b == p then rest else none

-- What `ReadBytes('\n')` returns until the end of a file: the complete lines, without their line
-- break, and the bytes of a last line that has none.
pub record Split : Type 0 where
  pub complete : List Bytes
  pub torn : Bytes

put_byte : ℕ → Split → Split
put_byte b s = elim s.complete [
  | [] ↦ record s { torn = b ∷ s.torn }
  | l ∷ ls ↦ record s { complete = (b ∷ l) ∷ ls }
]

unfoldable pub split_lines : Bytes → Split
unfolding put_byte
split_lines [] = record { complete = []; torn = [] }
split_lines (b ∷ bs) =
    let s = split_lines bs in
    if b == newline then record s { complete = [] ∷ s.complete } else put_byte b s

module _ (c : Codec) where
  -- The line that appendLocked writes for a record, without the line break.
  abbrev pub print_line : Bytes → Bytes
  print_line body = c.digest body ++ tab ∷ body

  check_hash : Text → Bytes → Option (Record × Text)
  check_hash hash body =
      if text_eq (c.digest body) hash
      then elim (c.unmarshal body) [ none ↦ none | some r ↦ some (r, hash) ]
      else none

  at_tab : Bytes → Option ℕ → Option (Record × Text)
  unfolding check_hash
  at_tab line none = none
  at_tab line (some i) = if i == 64 then check_hash (take 64 line) (drop 65 line) else none

  -- parseLine: the record and its hash, or `none` for a malformed line or a wrong hash.
  unfoldable pub parse_line : Bytes → Option (Record × Text)
  unfolding at_tab
  parse_line line = at_tab line (index_byte tab line)

  parse_digits : Bytes → Option ℕ → Option ℕ
  parse_digits rest none = none
  parse_digits rest (some end) = if end == 0 then none else c.parse_uint (take end rest)

  peek_after : Option Bytes → Option ℕ
  unfolding parse_digits
  peek_after none = none
  peek_after (some rest) = parse_digits rest (index_byte comma rest)

  -- peekSeq
  unfoldable pub peek_seq : Bytes → Option ℕ
  unfolding peek_after
  peek_seq line = peek_after (after_prefix seq_prefix (drop 65 line))
