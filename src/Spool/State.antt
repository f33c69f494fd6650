-- ===== src/Spool/State.antt =====
-- The state of internal/spool/spool.go: the `Spool` in memory and the files that it keeps.
-- A segment's file stands in the segment; `none` is a file that is gone. The JSON files are
-- replaced as a whole by a rename, so they are values. The segment's name is the print of `first`.
use vbilling.Prelude.{
  ◌≡◌, ◌⊎◌, inl, inr, refl, ℕ, ◌*◌, Bool, Option, none, some, List, [], ◌∷◌, ◌++◌, map,
}
use vbilling.Prelude.Tests.{◌==◌, if◌then◌else◌}
use vbilling.Prelude.Text.{Text, Map}
use vbilling.Usage.{Time, Duration, Event}
use vbilling.Spool.Codec.{Bytes}

-- After `defaults()`.
pub record Options : Type 0 where
  pub segment_max_records : ℕ
  pub segment_max_age : Duration
  pub retention : Duration
  pub dedupe_window : Duration
  pub no_sync : Bool

unfoldable pub defaults : Options → Options
defaults o = record o {
  segment_max_records = if o.segment_max_records == 0 then 20000 else o.segment_max_records;
  segment_max_age = if o.segment_max_age == 0 then 3600 * 1000000000 else o.segment_max_age;
  dedupe_window = if o.dedupe_window == 0 then 48 * 3600 * 1000000000 else o.dedupe_window;
}

pub record Offset : Type 0 where
  pub seq : ℕ
  pub off : ℕ

abbrev pub index_every : ℕ
index_every = 256

pub record Segment : Type 0 where
  pub first : ℕ
  -- 0 when empty
  pub last : ℕ
  pub first_at : Time
  pub last_at : Time
  pub last_hash : Text
  pub size : ℕ
  pub index : List Offset
  pub file : Option Bytes

pub record Manifest : Type 0 where
  pub segments : List Segment
  pub watermarks : Map Time
  pub anchor : Text

pub record DeadLetter : Type 0 where
  pub at : Time
  pub reason : Text
  pub event : Event

-- `older ++ current ∷ []` is the source's `segs`, which is never empty once the spool is open;
-- the last one is the active segment. `active_open` tells whether the handle on its file works.
-- `wakeups` counts the channels `changed` that were closed.
pub record Spool : Type 0 where
  pub opts : Options
  pub older : List Segment
  pub current : Segment
  pub active_open : Bool
  pub seq : ℕ
  pub committed : ℕ
  pub head : Text
  pub anchor : Text
  pub watermarks : Map Time
  pub cursors : Map ℕ
  pub recent_ids : Map Time
  pub wakeups : ℕ
  pub closed : Bool
  pub manifest : Option Manifest
  pub cursor_file : Option (Map ℕ)
  pub dedupe_file : List (Time × Text)
  pub dead_letters : Map (List DeadLetter)

-- What the operating system answers during one operation, and the clock's reading.
-- `write` is `none` when all bytes are written, else the number of bytes written before the error.
pub record Io : Type 0 where
  pub now : Time
  pub close_ok : Bool
  pub open_ok : Bool
  pub manifest_ok : Bool
  pub write : Option ℕ
  pub sync_ok : Bool
  pub truncate_ok : Bool
  pub cursors_ok : Bool
  pub dedupe_open_ok : Bool
  pub dedupe_write_ok : Bool
  pub dedupe_sync_ok : Bool
  pub dead_letter_ok : Bool
  pub read_ok : Bool
  -- os.Remove of the segment with this first number
  pub remove_ok : ℕ → Bool

pub data Error : Type 0 where
  spool_closed window_committed encode_failed close_failed open_failed : Error
  manifest_failed write_failed sync_failed cursors_failed dedupe_failed : Error
  read_failed corrupt dead_letter_failed remove_failed : Error

pub data Result {ℓ} (A : Type ℓ) : Type ℓ where
  ok : A → Result A
  err : Error → Result A

-- An operation that may fail leaves a state behind in either case.
abbrev pub Op : Type 0 → Type 0
Op A = Spool → Result A × Spool

abbrev continue : {A B : Type 0} → Result A → (A → Op B) → Op B
continue (ok a) f s = f a s
continue (err e) f s = (err e, s)

infixl 5 ◌>>=◌ ◌>>◌
unfoldable pub ◌>>=◌ : {A B : Type 0} → Op A → (A → Op B) → Op B
◌>>=◌ m f s = let (r, s') = m s in continue r f s'

abbrev pub ◌>>◌ : {B : Type 0} → Op (Unit {0}) → Op B → Op B
m >> k = m >>= λ _. k

abbrev pub pure : {A : Type 0} → A → Op A
pure a s = (ok a, s)

abbrev pub fail : {A : Type 0} → Error → Op A
fail e s = (err e, s)

abbrev pub modify : (Spool → Spool) → Op (Unit {0})
modify f s = (ok tt, f s)

-- A step that the operating system may refuse; the state changes only if it does not.
abbrev pub check : Bool → Error → Op (Unit {0})
check b e s = if b then (ok tt, s) else (err e, s)

-- A condition on the state that an operation keeps, whether it fails or not.
pub record Keeps {κ} {A : Type 0} (P : Spool → Type κ) (m : Op A) : Type κ where
  pub at : (s : Spool) → P s → P (m s).1

continue-keeps {κ} :
    {A B : Type 0} (P : Spool → Type κ) (f : A → Op B)
    → ((a : A) → Keeps P (f a))
    → (r : Result A) (s : Spool) → P s
    → P (continue r f s).1
continue-keeps P f kf (ok a) s h = (kf a).at s h
continue-keeps P f kf (err e) s h = h

pub Keeps-bind {κ} :
    {A B : Type 0} {P : Spool → Type κ} (m : Op A) (f : A → Op B)
    → Keeps P m
    → ((a : A) → Keeps P (f a))
    → Keeps P (m >>= f)
unfolding ◌>>=◌
Keeps-bind {P} m f km kf = record { at = λ s h. continue-keeps P f kf (m s).0 (m s).1 (km.at s h) }

continue-ok :
    {A B : Type 0} (f : A → Op B) (r : Result A) (t s' : Spool) (b : B)
    → continue r f t ≡ (ok b, s')
    → (a : A) × (r ≡ ok a) × (f a t ≡ (ok b, s'))
continue-ok f (ok a) t s' b h = (a, refl, h)
continue-ok f (err e) t s' b h = cc

continue-err :
    {A B : Type 0} (f : A → Op B) (r : Result A) (t s' : Spool) (e : Error)
    → continue r f t ≡ (err e, s')
    → ((r ≡ err e) × (t ≡ s')) ⊎ ((a : A) × (r ≡ ok a) × (f a t ≡ (err e, s')))
continue-err f (ok a) t s' e h = inr (a, refl, h)
continue-err f (err d) t s' e h = inl (cc, cc)

-- A sequence succeeds if both parts do, and fails if either does.
pub >>=-ok :
    {A B : Type 0} (m : Op A) (f : A → Op B) (s s' : Spool) (b : B)
    → (m >>= f) s ≡ (ok b, s')
    → (a : A) × ((m s).0 ≡ ok a) × (f a (m s).1 ≡ (ok b, s'))
unfolding ◌>>=◌
>>=-ok m f s s' b h = continue-ok f (m s).0 (m s).1 s' b h

pub >>=-err :
    {A B : Type 0} (m : Op A) (f : A → Op B) (s s' : Spool) (e : Error)
    → (m >>= f) s ≡ (err e, s')
    → (((m s).0 ≡ err e) × ((m s).1 ≡ s'))
      ⊎ ((a : A) × ((m s).0 ≡ ok a) × (f a (m s).1 ≡ (err e, s')))
unfolding ◌>>=◌
>>=-err m f s s' e h = continue-err f (m s).0 (m s).1 s' e h

-- segment{First: n, Name: segName(n)}, whose file is not there yet.
unfoldable pub new_segment : ℕ → Segment
new_segment n = record {
  first = n;
  last = 0;
  first_at = 0;
  last_at = 0;
  last_hash = [];
  size = 0;
  index = [];
  file = none;
}

-- What os.OpenFile with O_CREATE does to the file: it makes an empty one if there is none.
unfoldable pub created : Segment → Segment
created g = record g { file = some (elim g.file [ none ↦ [] | some f ↦ f ]) }

abbrev pub segments : Spool → List Segment
segments s = s.older ++ s.current ∷ []

-- The JSON of a segment has neither the index nor the file.
abbrev pub stored : Segment → Segment
stored g = record g { index = []; file = none }

-- writeManifestLocked: the closed segments only.
unfoldable pub write_manifest : Io → Op (Unit {0})
write_manifest io s =
    if io.manifest_ok
    then (
      ok tt,
      record s {
        manifest = some (record {
          segments = map stored s.older;
          watermarks = s.watermarks;
          anchor = s.anchor;
        });
      },
    )
    else (err manifest_failed, s)
