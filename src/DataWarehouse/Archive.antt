-- ===== src/DataWarehouse/Archive.antt =====
-- What a payment event adds to the archive of the day.
use pay_fast_processor.Prelude.{
  ◌+◌, String, true, false, Option, List, [], ◌∷◌, ◌++◌, any, ◌≡◌, ◌≢◌, refl, sym, ◌∙◌, ap, ◌⊎◌,
  inl, inr, Bool-cases, ◌==◌, eq_iff, if◌then◌else◌,
}
use pay_fast_processor.Store.Sql.{Result, ok, err}
use pay_fast_processor.Runtime.Json.{Json, Error}
use pay_fast_processor.Runtime.World.{Env, World, ArchiveRecord}
use pay_fast_processor.Runtime.Act.{wrapping, wrap_error, continue, ◌>>=◌}
use pay_fast_processor.DataWarehouse.{
  PaymentEvent, decode_event, archive_path, Files, with_file, append_line, open_file, write_line,
  archive_record, archive, handle_payment_event,
}

-- The lines of the file at a path; a file that is missing has none.
abbrev pub lines_of : String → Files → List ArchiveRecord
lines_of name [] = []
lines_of name (f ∷ files) = if f.0 == name then f.1 else lines_of name files

module _ (path : String) where
  abbrev Holds : Files → Type 0
  Holds files = any (λ f. f.0 == path) files ≡ true

  Holds-append : (files : Files) → Holds (files ++ (path, []) ∷ [])
  Holds-append [] = rw ((eq_iff path path).1 refl) refl
  Holds-append (f ∷ files) = elim (Bool-cases (f.0 == path)) [
    | inl own ↦ rw own refl
    | inr other ↦ rw other (Holds-append files)
  ]

  Holds-with_file : (files : Files) → Holds (with_file path files)
  Holds-with_file files = elim (Bool-cases (any (λ f. f.0 == path) files)) [
    | inl there ↦ rw (there, there) refl
    | inr missing ↦ rw missing (Holds-append files)
  ]

  lines_of-append :
      (name : String) (files : Files)
      → lines_of name (files ++ (path, []) ∷ []) ≡ lines_of name files
  lines_of-append name [] = elim (Bool-cases (path == name)) [
    | inl own ↦ rw own refl
    | inr other ↦ rw other refl
  ]
  lines_of-append name (f ∷ files) = elim (Bool-cases (f.0 == name)) [
    | inl own ↦ rw own refl
    | inr other ↦ rw other (lines_of-append name files)
  ]

  lines_of-with_file :
      (name : String) (files : Files) → lines_of name (with_file path files) ≡ lines_of name files
  lines_of-with_file name files = elim (Bool-cases (any (λ f. f.0 == path) files)) [
    | inl there ↦ rw there refl
    | inr missing ↦ rw missing (lines_of-append name files)
  ]

  module _ (line : ArchiveRecord) where
    lines_of-append_line :
        (files : Files)
        → Holds files
        → lines_of path (append_line path line files) ≡ lines_of path files ++ line ∷ []
    lines_of-append_line [] there = cc there
    lines_of-append_line (f ∷ files) there = elim (Bool-cases (f.0 == path)) [
      | inl own ↦ rw (own, own) refl
      | inr other ↦ rw (other, other) (lines_of-append_line files (cc (other, there)))
    ]

    other_lines :
        (name : String)
        → path ≢ name
        → (files : Files) → lines_of name (append_line path line files) ≡ lines_of name files
    other_lines name apart [] = refl
    other_lines name apart (f ∷ files) = elim (Bool-cases (f.0 == path)) [
      | inr miss ↦ rw (miss, other_lines name apart files) refl
      | inl hit ↦ elim (Bool-cases (f.0 == name)) [
        | inl own ↦ absurd (apart (sym ((eq_iff f.0 path).0 hit) ∙ (eq_iff f.0 name).0 own))
        | inr other ↦ rw (hit, other) (other_lines name apart files)
      ]
    ]

-- The other parts of the world are as before.
abbrev pub Elsewhere : World → World → Type 0
Elsewhere w u =
    (u.db ≡ w.db)
    × (u.tx ≡ w.tx)
    × (u.cache ≡ w.cache)
    × (u.payment_events ≡ w.payment_events)
    × (u.webhook_events ≡ w.webhook_events)
    × (u.posts ≡ w.posts)
    × (u.now ≡ w.now)

Elsewhere-refl : (w : World) → Elsewhere w w
Elsewhere-refl w = (refl, refl, refl, refl, refl, refl, refl)

module _ (env : Env) (event_data : Option Json) (w : World) where
  -- The event is archived: the archive of the day has one more line.
  pub record Archived (event : PaymentEvent) (o : Result Error Unit × World) : Type 0 where
    pub decoded : decode_event event_data ≡ ok event
    pub no_fault : (env.fails w.tick ≡ false) × (env.fails (w.tick + 1) ≡ false)
    pub succeeds : o.0 ≡ ok tt
    pub own :
        lines_of (archive_path w.now) o.1.archives
        ≡ lines_of (archive_path w.now) w.archives ++ archive_record env event w.now ∷ []
    pub others :
        (name : String)
        → archive_path w.now ≢ name
        → lines_of name o.1.archives ≡ lines_of name w.archives

  -- There is no such event, or the file cannot be opened or written: each file has its lines.
  pub record Missed (o : Result Error Unit × World) : Type 0 where
    pub reason :
        ((e : Error) × (decode_event event_data ≡ err e))
        ⊎ (env.fails w.tick ≡ true)
        ⊎ (env.fails (w.tick + 1) ≡ true)
    pub fails : (e : Error) × (o.0 ≡ err e)
    pub lines : (name : String) → lines_of name o.1.archives ≡ lines_of name w.archives

  abbrev pub Handled : Result Error Unit × World → Type 0
  Handled o = (((event : PaymentEvent) × Archived event o) ⊎ Missed o) × Elsewhere w o.1

  archived :
      (event : PaymentEvent) → decode_event event_data ≡ ok event → Handled (archive env event w)
  unfolding archive open_file write_line ◌>>=◌ wrapping
  archived event decoded = elim (Bool-cases (env.fails w.tick)) [
    | inl broken ↦ rw broken (
      inr (record { reason = inr (inl broken); fails = (_, refl); lines = λ name. refl }),
      Elsewhere-refl w,
    )
    | inr opens ↦ elim (Bool-cases (env.fails (w.tick + 1))) [
      | inl broken ↦
          rw (opens, broken)
            (
              inr (record {
                reason = inr (inr broken);
                fails = (_, refl);
                lines = λ name. lines_of-with_file (archive_path w.now) name w.archives;
              }),
              Elsewhere-refl w,
            )
      | inr writes ↦
          rw (opens, writes)
            (
              inl (
                event,
                record {
                  decoded = decoded;
                  no_fault = (opens, writes);
                  succeeds = refl;
                  own = own_lines;
                  others = λ name apart.
                      other_lines (archive_path w.now) _ name apart _
                      ∙ lines_of-with_file (archive_path w.now) name w.archives;
                },
              ),
              Elsewhere-refl w,
            )
    ]
  ]
    where
      own_lines :
          lines_of (archive_path w.now) (
            append_line
              (archive_path w.now)
              (archive_record env event w.now)
              (with_file (archive_path w.now) w.archives))
          ≡ lines_of (archive_path w.now) w.archives ++ archive_record env event w.now ∷ []
      own_lines =
          lines_of-append_line (archive_path w.now) _ _
            (Holds-with_file (archive_path w.now) w.archives)
          ∙ ap (λ l. l ++ archive_record env event w.now ∷ [])
              (lines_of-with_file (archive_path w.now) (archive_path w.now) w.archives)

  -- An event that is decoded, with neither call failing, adds its own line at the end of the archive
  -- of the day and leaves the other archives as they are. Otherwise the result is an error, and
  -- every archive has the lines that it had. Nothing else changes.
  pub handle_payment_event-Handled : Handled (handle_payment_event env event_data w)
  unfolding handle_payment_event ◌>>=◌ wrapping
  handle_payment_event-Handled = by_event (decode_event event_data) refl
    where
      by_event :
          (r : Result Error PaymentEvent)
          → decode_event event_data ≡ r
          → Handled (continue (wrap_error "failed to unmarshal event" r) (archive env) w)
      by_event (ok event) decoded = archived event decoded
      by_event (err e) decoded = (
        inr (record { reason = inl (e, decoded); fails = (_, refl); lines = λ name. refl }),
        Elsewhere-refl w,
      )
