-- ===== src/Spool/Codec/Format.antt =====
-- A printed line parses back to its record, and its sequence number is found without decoding it.
use vbilling.Prelude.{ℕ, suc, ◌<◌, ◌≡◌, ◌≢◌, refl, subst, some, [], ◌∷◌, ◌++◌, arith}
use vbilling.Prelude.Lists.{length, take, drop, All, take-append_length}
use vbilling.Prelude.Text.{text_eq_refl}
use vbilling.Spool.Codec.{
  Bytes, Codec, Record, tab, comma, seq_prefix, index_byte, after_prefix, print_line, parse_line,
  peek_seq, at_tab, check_hash, peek_after, parse_digits,
}

pub index_byte-append :
    (x : ℕ) (l rest : Bytes) → All (λ y. y ≢ x) l → index_byte x (l ++ x ∷ rest) ≡ some (length l)
unfolding index_byte
index_byte-append x [] rest h = ground arith
index_byte-append x (b ∷ l) rest h = ground (arith, index_byte-append x l rest h.1)

after_prefix-append : (p bs : Bytes) → after_prefix p (p ++ bs) ≡ some bs
unfolding after_prefix
after_prefix-append [] bs = refl
after_prefix-append (x ∷ p) bs = ground (arith, after_prefix-append p bs)

drop-append_suc : (l : Bytes) (x : ℕ) (rest : Bytes) → drop (suc (length l)) (l ++ x ∷ rest) ≡ rest
drop-append_suc [] x rest = refl
drop-append_suc (y ∷ l) x rest = drop-append_suc l x rest

length-pos : (l : Bytes) → l ≢ [] → 0 < length l
length-pos [] h = absurd (h refl)
length-pos (x ∷ l) h = omega arith

module _ (c : Codec) where
  pub take-print_line : (b : Bytes) → take 64 (print_line c b) ≡ c.digest b
  take-print_line b =
      subst (λ n. take n (print_line c b) ≡ c.digest b) (c.digest_length b)
        (take-append_length (c.digest b) (tab ∷ b))

  pub drop-print_line : (b : Bytes) → drop 65 (print_line c b) ≡ b
  drop-print_line b =
      subst (λ n. drop (suc n) (print_line c b) ≡ b) (c.digest_length b)
        (drop-append_suc (c.digest b) tab b)

  index-print_line : (b : Bytes) → index_byte tab (print_line c b) ≡ some 64
  index-print_line b =
      subst (λ n. index_byte tab (print_line c b) ≡ some n) (c.digest_length b)
        (index_byte-append tab (c.digest b) b (c.digest_tab b))

  -- parseLine reads a line that appendLocked wrote: the record comes back with the line's hash.
  pub parse_line-print_line :
      (r : Record) (b : Bytes)
      → c.marshal r ≡ some b
      → parse_line c (print_line c b) ≡ some (r, c.digest b)
  unfolding parse_line
  parse_line-print_line r b h =
      rw (index-print_line b, at_tab)
        (rw (take-print_line b, drop-print_line b)
          (rw (text_eq_refl (c.digest b), check_hash)
            (rw (c.unmarshal-marshal r b h) (rw (take-print_line b)))))

  peek_after-print :
      (n : ℕ) (rest : Bytes) → peek_after c (some (c.print_uint n ++ comma ∷ rest)) ≡ some n
  unfolding peek_after
  peek_after-print n rest =
      rw (index_byte-append comma (c.print_uint n) rest (c.print_uint_comma n), parse_digits)
        (rw (take-append_length (c.print_uint n) (comma ∷ rest))
          (ground (arith, length-pos (c.print_uint n) (c.print_uint_pos n), c.parse-print_uint n)))

  -- On a line that appendLocked wrote, peekSeq finds the sequence number of its record.
  pub peek_seq-print_line :
      (r : Record) (b : Bytes) → c.marshal r ≡ some b → peek_seq c (print_line c b) ≡ some r.seq
  unfolding peek_seq
  peek_seq-print_line r b h =
      let (rest, e) = c.marshal_seq r b h in
      rw (drop-print_line b, e)
        (rw (after_prefix-append seq_prefix (c.print_uint r.seq ++ comma ∷ rest))
          (peek_after-print r.seq rest))
